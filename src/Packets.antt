-- ===== src/Packets.antt =====
-- The wire formats of src/crdt.rs: the signed envelope, the durable state "CRDT", the delta "MDLT"
-- and the snapshot "MSNP".

pub mod RoundTrip
mod Runs
use neural_sgdb.Prelude.{
  ℕ, zero, suc, ◌-◌, ◌^◌, Bool, true, false, Option, none, some, List, [], ◌∷◌, ◌++◌, length, take,
  drop, ltb, ◌==◌, if◌then◌else◌,
}
use neural_sgdb.Prelude.Bytes.{le_bytes}
use neural_sgdb.Prelude.Assoc.{Pairs}
use neural_sgdb.Prelude.Text.{codes}
use neural_sgdb.Wire.{
  Result, ok, err, ◌>>=◌, ◌>>◌, guard, ok_or, read_u8, read_le, read_magic, read_block, split_at,
  block,
}
use neural_sgdb.Crdt.{CrdtState}
use neural_sgdb.Doc.{MemoryRecord, encode_record, decode_record, map_err}

-- The messages of the encoders and decoders.
pub data PacketError : Type 0 where
  envelope_overflow envelope_truncated node_versions_overflow bad_magic bad_version : PacketError
  trunc_local trunc_own trunc_n trunc_node trunc_v versions_too_many records_too_many : PacketError
  record_too_long trunc_base trunc_records : PacketError

abbrev pub u16_max : ℕ
u16_max = 2 ^ 16 - 1

abbrev pub u32_max : ℕ
u32_max = 2 ^ 32 - 1

pub record SignedEnvelope : Type 0 where
  pub node_id : ℕ
  pub payload : List ℕ
  pub auth : List ℕ

-- `SignedEnvelope::try_encode`
unfoldable pub encode_envelope : SignedEnvelope → Result PacketError (List ℕ)
encode_envelope e =
    if (if ltb u32_max (length e.payload) then true else ltb u32_max (length e.auth))
    then err envelope_overflow
    else ok (
        e.node_id
        ∷ (le_bytes 4 (length e.payload) ++ (le_bytes 4 (length e.auth) ++ (e.payload ++ e.auth))))

-- `SignedEnvelope::decode`: the envelope and the bytes behind those that it consumed.
unfoldable pub decode_envelope : List ℕ → Result PacketError (SignedEnvelope × List ℕ)
decode_envelope bytes = do
  guard (if ltb (length bytes) 9 then false else true) envelope_truncated
  (node_id, r1) ← ok_or (read_u8 bytes) envelope_truncated
  (plen, r2) ← ok_or (read_le 4 r1) envelope_truncated
  (alen, r3) ← ok_or (read_le 4 r2) envelope_truncated
  (payload, r4) ← ok_or (split_at plen r3) envelope_truncated
  (auth, rest) ← ok_or (split_at alen r4) envelope_truncated
  ok (record { node_id = node_id; payload = payload; auth = auth }, rest)

-- `(node u8 + version u64)*`
unfoldable pub put_versions : Pairs → List ℕ → List ℕ
put_versions [] rest = rest
put_versions ((n, v) ∷ vs) rest = n ∷ (le_bytes 8 v ++ put_versions vs rest)

-- The loops over versions; the two messages are those of a missing node and a missing version.
unfoldable pub read_versions :
    PacketError → PacketError → ℕ → List ℕ → Result PacketError (Pairs × List ℕ)
read_versions no_node no_version zero bytes = ok ([], bytes)
read_versions no_node no_version (suc n) bytes = do
  (node, r1) ← ok_or (read_u8 bytes) no_node
  (v, r2) ← ok_or (read_le 8 r1) no_version
  (vs, rest) ← read_versions no_node no_version n r2
  ok ((node, v) ∷ vs, rest)

abbrev pub crdt_magic : List ℕ
crdt_magic = codes "CRDT"

-- `CrdtState::try_encode`
unfoldable pub encode_state : CrdtState → Result PacketError (List ℕ)
encode_state s =
    if ltb u16_max (length s.node_versions)
    then err node_versions_overflow
    else ok (
        crdt_magic
        ++ (1
            ∷ s.node_id
            ∷ (le_bytes 8 s.local_version
                ++ (le_bytes 8 s.own_writes
                    ++ (le_bytes 2 (length s.node_versions) ++ put_versions s.node_versions [])))))

-- `CrdtState::decode`; with fifteen bytes at hand the version and the node are there.
unfoldable pub decode_state : List ℕ → Result PacketError CrdtState
decode_state bytes = do
  r0 ← read_magic crdt_magic 15 bad_magic bytes
  (version, r1) ← ok_or (read_u8 r0) bad_magic
  guard (version == 1) bad_version
  (node_id, r2) ← ok_or (read_u8 r1) bad_magic
  (local_version, r3) ← ok_or (read_le 8 r2) trunc_local
  (own_writes, r4) ← ok_or (read_le 8 r3) trunc_own
  (n, r5) ← ok_or (read_le 2 r4) trunc_n
  (node_versions, rest) ← read_versions trunc_node trunc_v n r5
  ok (record {
    node_id = node_id;
    local_version = local_version;
    own_writes = own_writes;
    node_versions = node_versions;
  })

-- `encode_versions`
unfoldable pub encode_versions : Pairs → Result PacketError (List ℕ)
encode_versions vs =
    if ltb u16_max (length vs)
    then err versions_too_many
    else ok (le_bytes 2 (length vs) ++ put_versions vs [])

-- `decode_versions`, whose `None` the caller turns into its message.
unfoldable pub decode_versions : List ℕ → Result PacketError (Pairs × List ℕ)
decode_versions bytes = do
  (n, r) ← ok_or (read_le 2 bytes) trunc_base
  read_versions trunc_base trunc_base n r

-- The loop of `encode_records`.
unfoldable pub put_records : List MemoryRecord → Result PacketError (List ℕ)
put_records [] = ok []
put_records (r ∷ rs) = do
  guard (if ltb u32_max (length (encode_record r)) then false else true) record_too_long
  rest ← put_records rs
  ok (block 4 (encode_record r) rest)

unfoldable pub encode_records : List MemoryRecord → Result PacketError (List ℕ)
encode_records rs =
    if ltb u16_max (length rs)
    then err records_too_many
    else do body ← put_records rs; ok (le_bytes 2 (length rs) ++ body)

-- The loop of `decode_records`.
unfoldable pub read_records : ℕ → List ℕ → Result PacketError (List MemoryRecord × List ℕ)
read_records zero bytes = ok ([], bytes)
read_records (suc n) bytes = do
  (body, r1) ← read_block 4 trunc_records trunc_records bytes
  r ← map_err (decode_record body) trunc_records
  (rs, rest) ← read_records n r1
  ok (r ∷ rs, rest)

unfoldable pub decode_records : List ℕ → Result PacketError (List MemoryRecord × List ℕ)
decode_records bytes = do (n, r) ← ok_or (read_le 2 bytes) trunc_records; read_records n r

-- `MemoryDelta` and `MemorySnapshot`: versions and records behind one of two magics.
pub record Batch : Type 0 where
  pub versions : Pairs
  pub records : List MemoryRecord

abbrev pub delta_magic : List ℕ
delta_magic = codes "MDLT"

abbrev pub snap_magic : List ℕ
snap_magic = codes "MSNP"

-- `MemoryDelta::try_encode`, `MemorySnapshot::try_encode`
unfoldable pub encode_batch : List ℕ → Batch → Result PacketError (List ℕ)
encode_batch magic b = do
  versions ← encode_versions b.versions
  records ← encode_records b.records
  ok (magic ++ (1 ∷ (versions ++ records)))

-- `MemoryDelta::decode`, `MemorySnapshot::decode`
unfoldable pub decode_batch : List ℕ → List ℕ → Result PacketError Batch
decode_batch magic bytes = do
  r0 ← read_magic magic 5 bad_magic bytes
  (version, r1) ← ok_or (read_u8 r0) bad_magic
  guard (version == 1) bad_version
  (versions, r2) ← decode_versions r1
  (records, rest) ← decode_records r2
  ok (record { versions = versions; records = records })
