-- ===== src/Packets/RoundTrip.antt =====
-- The packets of src/crdt.rs are read back, and a packet that does not fit is refused.
use neural_sgdb.Prelude.{
  ℕ, ◌-◌, ◌^◌, ◌≤◌, ◌≡◌, refl, List, [], ◌∷◌, ◌++◌, map, append_assoc, arith, length, length-append,
  All, ge→not_ltb,
}
use neural_sgdb.Prelude.Bytes.{le_bytes, IsU16, IsU32, IsU64, length-le_bytes}
use neural_sgdb.Prelude.Assoc.{Pairs}
use neural_sgdb.Wire.{
  ok, read_u8, read_le-le_bytes, read_block-block, read_magic-append, read_magic-cons,
  split_at-append, block,
}
use neural_sgdb.Crdt.{CrdtState}
use neural_sgdb.Doc.{MemoryRecord, encode_record}
use neural_sgdb.Doc.RoundTrip.{RecordFits, seen_meta, decode_record-encode_record}
use neural_sgdb.Packets.{
  PacketError, SignedEnvelope, encode_envelope, decode_envelope, put_versions, read_versions,
  crdt_magic, encode_state, decode_state, bad_magic, encode_versions, decode_versions, put_records,
  encode_records, read_records, decode_records, Batch, encode_batch, decode_batch,
}

-- An envelope whose fields fit is written, and read back in front of whatever follows it in the
-- stream, which is left.
pub decode_envelope-encode_envelope :
    (e : SignedEnvelope) (rest : List ℕ)
    → IsU32 (length e.payload)
    → IsU32 (length e.auth)
    → (bytes : List ℕ) × (encode_envelope e ≡ ok bytes)
      × (decode_envelope (bytes ++ rest) ≡ ok (e, rest))
unfolding encode_envelope decode_envelope read_u8
decode_envelope-encode_envelope e rest hp ha =
    let lengths = le_bytes 4 (length e.payload) in
    let body = le_bytes 4 (length e.auth) ++ (e.payload ++ (e.auth ++ rest)) in
    let long : 9 ≤ length (e.node_id ∷ (lengths ++ body)) = omega (
      arith,
      length-append lengths body,
      length-le_bytes 4 (length e.payload),
      length-append (le_bytes 4 (length e.auth)) (e.payload ++ (e.auth ++ rest)),
      length-le_bytes 4 (length e.auth),
    ) in
    (
      e.node_id ∷ (lengths ++ (le_bytes 4 (length e.auth) ++ (e.payload ++ e.auth))),
      ground arith,
      simp append_assoc (
          rw (
            ge→not_ltb _ _ long,
            read_le-le_bytes 4 (length e.payload) _ hp,
            read_le-le_bytes 4 (length e.auth) _ ha,
            split_at-append e.payload _,
            split_at-append e.auth rest,
          )),
    )

-- Every version is a u64 value.
abbrev pub VersionsFit : Pairs → Type 0
VersionsFit vs = All (λ p. IsU64 p.1) vs

versions_read :
    (e f : PacketError) (vs : Pairs) (rest : List ℕ)
    → VersionsFit vs
    → read_versions e f (length vs) (put_versions vs rest) ≡ ok (vs, rest)
unfolding read_versions put_versions read_u8
versions_read e f [] rest h = refl
versions_read e f ((n, v) ∷ vs) rest h =
    rw (read_le-le_bytes 8 v (put_versions vs rest) h.0, versions_read e f vs rest h.1)

pub record StateFits (s : CrdtState) : Type 0 where
  pub local : IsU64 s.local_version
  pub own : IsU64 s.own_writes
  pub versions : VersionsFit s.node_versions

-- A durable state of u64 versions that knows at most 65535 nodes is written and read back.
pub decode_state-encode_state :
    (s : CrdtState)
    → StateFits s
    → IsU16 (length s.node_versions)
    → (bytes : List ℕ) × (encode_state s ≡ ok bytes) × (decode_state bytes ≡ ok s)
unfolding encode_state decode_state read_u8
decode_state-encode_state s h few =
    let tail =
      le_bytes 8 s.local_version
      ++ (le_bytes 8 s.own_writes
          ++ (le_bytes 2 (length s.node_versions) ++ put_versions s.node_versions [])) in
    (
      crdt_magic ++ (1 ∷ s.node_id ∷ tail),
      ground arith,
      rw (
        read_magic-append crdt_magic 15 bad_magic (1 ∷ s.node_id ∷ tail) refl (
            omega (
              arith,
              length-append (le_bytes 8 s.local_version) (
                  le_bytes 8 s.own_writes
                  ++ (le_bytes 2 (length s.node_versions) ++ put_versions s.node_versions [])),
              length-append (le_bytes 8 s.own_writes)
                  (le_bytes 2 (length s.node_versions) ++ put_versions s.node_versions []),
              length-le_bytes 8 s.local_version,
              length-le_bytes 8 s.own_writes,
            )),
        read_le-le_bytes 8 s.local_version _ h.local,
        read_le-le_bytes 8 s.own_writes _ h.own,
        read_le-le_bytes 2 (length s.node_versions) _ few,
        versions_read _ _ s.node_versions [] h.versions,
      ),
    )

put_versions-append :
    (vs : Pairs) (rest : List ℕ) → put_versions vs [] ++ rest ≡ put_versions vs rest
unfolding put_versions
put_versions-append [] rest = refl
put_versions-append ((n, v) ∷ vs) rest = rw (append_assoc, put_versions-append vs rest)

pub record RecordSent (r : MemoryRecord) : Type 0 where
  pub fits : RecordFits r
  pub size : IsU32 (length (encode_record r))

-- The record as its reader sees it.
abbrev pub seen_record : MemoryRecord → MemoryRecord
seen_record r = record r {
  doc = record r.doc { clock = record r.doc.clock { overflow = [] }; meta = seen_meta r.doc.meta };
}

abbrev pub put_all : List MemoryRecord → List ℕ
put_all [] = []
put_all (r ∷ rs) = block 4 (encode_record r) (put_all rs)

put_records_lem : (rs : List MemoryRecord) → All RecordSent rs → put_records rs ≡ ok (put_all rs)
unfolding put_records
put_records_lem [] h = refl
put_records_lem (r ∷ rs) h =
    let size : length (encode_record r) ≤ 2 ^ 32 - 1 = omega (arith, h.0.size) in
    rw (ge→not_ltb _ _ size, put_records_lem rs h.1)

records_read :
    (rs : List MemoryRecord)
    → All RecordSent rs
    → read_records (length rs) (put_all rs) ≡ ok (map seen_record rs, [])
unfolding read_records
records_read [] h = refl
records_read (r ∷ rs) h = rw (
  read_block-block 4 _ _ (encode_record r) (put_all rs) h.0.size,
  decode_record-encode_record r h.0.fits,
  records_read rs h.1,
)

pub record BatchFits (b : Batch) : Type 0 where
  pub few_versions : IsU16 (length b.versions)
  pub versions : VersionsFit b.versions
  pub few_records : IsU16 (length b.records)
  pub records : All RecordSent b.records

batch_bytes : List ℕ → Batch → List ℕ
batch_bytes magic b =
    magic
    ++ (1
        ∷ ((le_bytes 2 (length b.versions) ++ put_versions b.versions [])
            ++ (le_bytes 2 (length b.records) ++ put_all b.records)))

encode_batch_lem :
    (magic : List ℕ) (b : Batch) → BatchFits b → encode_batch magic b ≡ ok (batch_bytes magic b)
unfolding encode_batch encode_versions encode_records batch_bytes
encode_batch_lem magic b h = rw (
  ge→not_ltb (2 ^ 16 - 1) (length b.versions) (omega (arith, h.few_versions)),
  ge→not_ltb (2 ^ 16 - 1) (length b.records) (omega (arith, h.few_records)),
  put_records_lem b.records h.records,
)

-- A delta or a snapshot whose parts fit is written, and read back under its own magic: the
-- versions as they were, and the records as their readers see them, none lost and in their order.
pub decode_batch-encode_batch :
    (magic : List ℕ) (b : Batch)
    → length magic ≡ 4
    → BatchFits b
    → (bytes : List ℕ) × (encode_batch magic b ≡ ok bytes)
      × (decode_batch magic bytes ≡ ok (record b { records = map seen_record b.records }))
unfolding decode_batch decode_versions decode_records read_u8
decode_batch-encode_batch magic b four h = (
  batch_bytes magic b,
  encode_batch_lem magic b h,
  unfold batch_bytes in
      simp (append_assoc, put_versions-append)
        (rw (
          read_magic-cons magic 5 bad_magic 1 _ four (omega arith),
          read_le-le_bytes 2 (length b.versions) _ h.few_versions,
          versions_read _ _ b.versions _ h.versions,
          read_le-le_bytes 2 (length b.records) _ h.few_records,
          records_read b.records h.records,
        )),
)
