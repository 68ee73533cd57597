-- ===== src/Storage/Log.antt =====
-- The records of the append log of src/storage.rs: what a written record reads back as, and that
-- a record cut short is no record.
use neural_sgdb.Prelude.{
  ℕ, ◌≤◌, ◌<◌, ◌≡◌, refl, sym, ap, Bool, true, false, some, List, [], ◌++◌, append_assoc,
  append-nil, arith, length, length-append, take, drop, take-append-drop, length-take, length-drop,
  leb, ltb, ◌==◌, if◌then◌else◌, Bool-cases, Option-cases, le→leb, ==_refl, inl, inr,
}
use neural_sgdb.Prelude.Bytes.{le_bytes, IsU32}
use neural_sgdb.Wire.{
  Result, ok, err, guard, ◌>>=◌, ◌>>◌, Result-cases, split_at, read_le, split_at-append,
  read_le-le_bytes,
}
use neural_sgdb.Storage.Crc.{crc32, crc32_parts, crc32_parts-nil, crc32_parts-IsU32}
use neural_sgdb.Storage.File.{
  Change, written, deleted, Break, broken, max_klen, max_vlen, tombstone, is_empty, record_bytes,
  read_record, size, read_word, read_slice, read_tombstone, read_written,
}

-- What `append` lets into the log.
abbrev pub Fits : Change → Type 0
Fits (written k v) = (length k ≤ max_klen) × (is_empty v ≡ false) × (length v ≤ max_vlen)
Fits (deleted k) = length k ≤ max_klen

abbrev pub bytes_of : Change → List ℕ
bytes_of (written k v) = record_bytes k v
bytes_of (deleted k) = record_bytes k []

pub length-bytes_of : (c : Change) → length (bytes_of c) ≡ size c
unfolding record_bytes size le_bytes
length-bytes_of (written k v) = omega (arith, length-append k v)
length-bytes_of (deleted k) = omega (arith, length-append k [])

-- The three words of the header are read, whatever stands behind them.
header_read :
    (klen vlen crc : ℕ) (rest : List ℕ)
    → IsU32 klen
    → IsU32 vlen
    → IsU32 crc
    → klen ≤ max_klen
    → read_record (le_bytes 4 klen ++ (le_bytes 4 vlen ++ (le_bytes 4 crc ++ rest))) ≡ (
        if vlen == tombstone
        then read_tombstone klen crc rest
        else (guard (leb vlen max_vlen) broken >> read_written klen vlen crc rest))
unfolding read_record
header_read klen vlen crc rest hk hv hc le =
    let e1 = read_le-le_bytes 4 klen (le_bytes 4 vlen ++ (le_bytes 4 crc ++ rest)) hk in
    let e2 = read_le-le_bytes 4 vlen (le_bytes 4 crc ++ rest) hv in
    let e3 = read_le-le_bytes 4 crc rest hc in rw (e1, e2, e3, le→leb klen max_klen le)

record_bytes-append :
    (k v rest : List ℕ)
    → record_bytes k v ++ rest
      ≡ le_bytes 4 (length k)
        ++ (le_bytes 4 (if is_empty v then tombstone else length v)
            ++ (le_bytes 4 (crc32_parts k v) ++ (k ++ (v ++ rest))))
unfolding record_bytes
record_bytes-append k v rest = simp append_assoc

-- A record of the log reads back as its change, and leaves what stands behind it.
pub read_record-bytes_of :
    (c : Change) (rest : List ℕ) → Fits c → read_record (bytes_of c ++ rest) ≡ ok (c, rest)
unfolding is_empty read_record
read_record-bytes_of (written k v) rest h =
    let e =
      header_read (length k) (length v) (crc32_parts k v) (k ++ (v ++ rest)) (omega arith)
        (omega arith) (crc32_parts-IsU32 k v) h.0 in
    let lives : (length v == tombstone) ≡ false = ground arith in
    rw (
      record_bytes-append k v rest,
      h.1,
      e,
      lives,
      le→leb (length v) max_vlen h.2,
      split_at-append k (v ++ rest),
      split_at-append v rest,
      ==_refl (crc32_parts k v),
    )
read_record-bytes_of (deleted k) rest h =
    let e =
      header_read (length k) tombstone (crc32_parts k []) (k ++ rest) (omega arith) (omega arith)
        (crc32_parts-IsU32 k []) h in
    rw (
      record_bytes-append k [] rest,
      is_empty,
      e,
      split_at-append k rest,
      crc32_parts-nil k,
      ==_refl (crc32 k),
    )

-- A reader that succeeds takes no more into account than it takes away: bytes behind those that it
-- had change nothing.
abbrev pub Grows : {A : Type 0} → (List ℕ → Result Break (A × List ℕ)) → Type 0
Grows {A = A} f =
    (bytes t rest : List ℕ) (a : A) → f bytes ≡ ok (a, rest) → f (bytes ++ t) ≡ ok (a, rest ++ t)

bind-Grows :
    {A B : Type 0} (f : List ℕ → Result Break (A × List ℕ))
    (g : A → List ℕ → Result Break (B × List ℕ))
    → Grows f
    → ((a : A) → Grows (g a))
    → Grows (λ bytes. f bytes >>= λ p. g p.0 p.1)
bind-Grows f g hf hg bytes t rest b h = elim (Result-cases (f bytes)) [
  | inl ((a, r), e) ↦ rw (hf bytes t r a e) (hg a r t rest b (rw e at h))
  | inr (x, e) ↦ cc (rw e at h)
]

guard-Grows :
    {A : Type 0} (test : Bool) (g : List ℕ → Result Break (A × List ℕ))
    → Grows g
    → Grows (λ bytes. guard test broken >> g bytes)
guard-Grows true g hg bytes t rest b h = hg bytes t rest b h
guard-Grows false g hg bytes t rest b h = cc

pub split_at-splits :
    (n : ℕ) (bytes a rest : List ℕ)
    → split_at n bytes ≡ some (a, rest)
    → (bytes ≡ a ++ rest) × (length a ≡ n)
unfolding split_at
split_at-splits n bytes a rest h = elim (Bool-cases (ltb (length bytes) n)) [
  | inl short ↦ cc
  | inr long ↦ ground (arith, take-append-drop n bytes, length-take n bytes)
]

split_at-grows :
    (n : ℕ) (bytes a rest t : List ℕ)
    → split_at n bytes ≡ some (a, rest)
    → split_at n (bytes ++ t) ≡ some (a, rest ++ t)
split_at-grows n bytes a rest t h =
    let (e, l) = split_at-splits n bytes a rest h in
    rw (e, append_assoc, sym l) (split_at-append a (rest ++ t))

pub read_slice-Grows : (n : ℕ) → Grows (read_slice n)
read_slice-Grows n bytes t rest a h = elim (Option-cases (split_at n bytes)) [
  | inl e ↦ cc
  | inr ((b, r), e) ↦ ground (arith, split_at-grows n bytes b r t e)
]

pub read_word-Grows : Grows read_word
unfolding read_le
read_word-Grows bytes t rest a h = elim (Option-cases (split_at 4 bytes)) [
  | inl e ↦ ground arith
  | inr ((b, r), e) ↦ ground (arith, split_at-grows 4 bytes b r t e)
]

pure-Grows : {A : Type 0} (a : A) → Grows (λ bytes. ok (a, bytes))
pure-Grows a bytes t rest b h = ground arith

if-Grows :
    {A : Type 0} (test : Bool) (f g : List ℕ → Result Break (A × List ℕ))
    → Grows f
    → Grows g
    → Grows (λ bytes. if test then f bytes else g bytes)
if-Grows true f g hf hg = hf
if-Grows false f g hf hg = hg

read_tombstone-Grows : (klen crc : ℕ) → Grows (read_tombstone klen crc)
read_tombstone-Grows klen crc =
    bind-Grows (read_slice klen) _ (read_slice-Grows klen)
      (λ key. guard-Grows (crc32 key == crc) _ (pure-Grows (deleted key)))

read_written-Grows : (klen vlen crc : ℕ) → Grows (read_written klen vlen crc)
read_written-Grows klen vlen crc = bind-Grows (read_slice klen) _ (read_slice-Grows klen) (λ key.
    bind-Grows (read_slice vlen) _ (read_slice-Grows vlen)
      (λ val. guard-Grows (crc32_parts key val == crc) _ (pure-Grows (written key val))))

pub read_record-Grows : Grows read_record
unfolding read_record
read_record-Grows = bind-Grows read_word _ read_word-Grows (λ klen.
    bind-Grows read_word _ read_word-Grows (λ vlen. bind-Grows read_word _ read_word-Grows (λ crc.
      guard-Grows (leb klen max_klen) _ (
        if-Grows (vlen == tombstone) (read_tombstone klen crc) _ (read_tombstone-Grows klen crc)
          (guard-Grows (leb vlen max_vlen) _ (read_written-Grows klen vlen crc))))))

-- A record cut short at any byte is read as no record.
pub read_record-take :
    (c : Change) (n : ℕ) → Fits c → n < size c → read_record (take n (bytes_of c)) ≡ err broken
read_record-take c n h short = elim (Result-cases (read_record (take n (bytes_of c)))) [
  | inl ((d, rest), e) ↦
      let grown = read_record-Grows (take n (bytes_of c)) (drop n (bytes_of c)) rest d e in
      let whole = rw append-nil at (read_record-bytes_of c [] h) in
      let tail : rest ++ drop n (bytes_of c) ≡ [] =
        cc (rw (take-append-drop n (bytes_of c)) at grown, whole) in
      absurd (
        omega (
          arith,
          ap length tail,
          length-append rest (drop n (bytes_of c)),
          length-drop n (bytes_of c),
          length-bytes_of c,
        ))
  | inr (broken, e) ↦ e
]

pub read_record-nil : read_record [] ≡ err broken
unfolding read_record read_le split_at
read_record-nil = refl
