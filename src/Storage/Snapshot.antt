-- ===== src/Storage/Snapshot.antt =====
-- `InMemory` and `SnapshotStorage` of src/storage.rs: a map in memory, and its export as bytes.
use neural_sgdb.Prelude.{
  ℕ, zero, suc, ◌+◌, ◌≤◌, ◌≡◌, refl, List, [], ◌∷◌, ◌++◌, arith, length, leb, ◌==◌, le→leb,
  gt→not_leb,
}
use neural_sgdb.Prelude.Bytes.{le_bytes, IsU32}
use neural_sgdb.Wire.{
  Result, ok, err, ok_or, guard, ◌>>=◌, ◌>>◌, read_le, split_at, read_le-le_bytes, split_at-append,
  block,
}
use neural_sgdb.Storage.Map
use neural_sgdb.Storage.Map.{Map, IsSorted, insert, insert_all, insert_all-append}
use neural_sgdb.Storage.File.{max_klen, max_vlen}

-- The state of both is the map.
abbrev pub SnapshotStorage : Type 0
SnapshotStorage = Map

unfoldable pub new : SnapshotStorage
new = []

unfoldable pub put : SnapshotStorage → List ℕ → List ℕ → SnapshotStorage
put m key val = Map.insert key val m

unfoldable pub delete : SnapshotStorage → List ℕ → SnapshotStorage
delete m key = Map.remove key m

-- `used_bytes` of `InMemory`: the lengths of the values.
unfoldable pub used_bytes : SnapshotStorage → ℕ
used_bytes [] = 0
used_bytes ((k, v) ∷ m) = length v + used_bytes m

unfoldable pub put_pairs : Map → List ℕ
put_pairs [] = []
put_pairs ((k, v) ∷ m) = block 4 k (block 4 v (put_pairs m))

unfoldable pub to_bytes : SnapshotStorage → List ℕ
to_bytes m = le_bytes 4 (length m) ++ put_pairs m

-- `SgdbError::Corrupt`
pub data Corrupt : Type 0 where
  corrupt : Corrupt

-- A length in four bytes, at most `most`, and as many bytes.
unfoldable pub read_limited : ℕ → List ℕ → Result Corrupt (List ℕ × List ℕ)
read_limited most bytes = do
  (n, bytes) ← ok_or (read_le 4 bytes) corrupt
  guard (leb n most) corrupt
  ok_or (split_at n bytes) corrupt

-- The loop over the pairs, into the map so far.
unfoldable pub read_pairs : ℕ → Map → List ℕ → Result Corrupt (Map × List ℕ)
read_pairs zero m bytes = ok (m, bytes)
read_pairs (suc n) m bytes = do
  (k, bytes) ← read_limited max_klen bytes
  (v, bytes) ← read_limited max_vlen bytes
  read_pairs n (insert k v m) bytes

abbrev pub max_pairs : ℕ
max_pairs = 1000000

unfoldable pub from_bytes : List ℕ → Result Corrupt SnapshotStorage
from_bytes bytes = do
  (n, bytes) ← ok_or (read_le 4 bytes) corrupt
  guard (leb n max_pairs) corrupt
  (m, rest) ← read_pairs n [] bytes
  guard (length rest == 0) corrupt
  ok m

-- What an import accepts: the order of a map, and the limits.
abbrev pub Limited : Map → Type 0
Limited [] = Unit
Limited ((k, v) ∷ m) = ((length k ≤ max_klen) × (length v ≤ max_vlen)) × Limited m

read_limited-block :
    (most : ℕ) (bs rest : List ℕ)
    → length bs ≤ most
    → most ≤ max_vlen
    → read_limited most (block 4 bs rest) ≡ ok (bs, rest)
unfolding read_limited
read_limited-block most bs rest h few = rw (
  read_le-le_bytes 4 (length bs) (bs ++ rest) (omega arith),
  le→leb (length bs) most h,
  split_at-append bs rest,
)

read_pairs-put_pairs :
    (n m : Map) → Limited n → read_pairs (length n) m (put_pairs n) ≡ ok (insert_all m n, [])
unfolding read_pairs put_pairs
read_pairs-put_pairs [] m l = refl
read_pairs-put_pairs ((k, v) ∷ n) m ((hk, hv), l) =
    let key = read_limited-block max_klen k (block 4 v (put_pairs n)) hk (omega arith) in
    let val = read_limited-block max_vlen v (put_pairs n) hv (omega arith) in
    rw (key, val) (read_pairs-put_pairs n (insert k v m) l)

-- The export of a map in the order of its keys, of at most a million pairs, all within the limits,
-- is imported as the same map.
pub from_bytes-to_bytes :
    (m : SnapshotStorage)
    → IsSorted m
    → Limited m
    → length m ≤ max_pairs
    → from_bytes (to_bytes m) ≡ ok m
unfolding from_bytes to_bytes
from_bytes-to_bytes m s l few = rw (
  read_le-le_bytes 4 (length m) (put_pairs m) (omega arith),
  le→leb (length m) max_pairs few,
  read_pairs-put_pairs m [] l,
  insert_all-append [] m s,
)

-- An export whose first key is over the limit, of at most a million pairs, is refused by the
-- import.
pub from_bytes-too_long :
    (k v : List ℕ) (m : SnapshotStorage)
    → max_klen + 1 ≤ length k
    → IsU32 (length k)
    → length m + 1 ≤ max_pairs
    → from_bytes (to_bytes ((k, v) ∷ m)) ≡ err corrupt
unfolding from_bytes to_bytes put_pairs read_pairs read_limited
from_bytes-too_long k v m long fits few =
    let body = k ++ block 4 v (put_pairs m) in
    rw (
      read_le-le_bytes 4 (suc (length m)) (le_bytes 4 (length k) ++ body) (omega arith),
      le→leb (suc (length m)) max_pairs (omega arith),
      read_le-le_bytes 4 (length k) body (omega arith),
      gt→not_leb (length k) max_klen (omega arith),
    )
