-- ===== src/Storage/Scan.antt =====
-- `scan_prefix` of the map backends of src/storage.rs.
use neural_sgdb.Prelude.{
  ℕ, ◌≡◌, ap, none, List, [], ◌∷◌, arith, if◌then◌else◌, Bool-cases, inl, inr,
}
use neural_sgdb.Prelude.Bytes.{eq_bytes, eq_bytes→eq}
use neural_sgdb.Storage.Map.{Map, Above, IsSorted, get, starts_with, scan_prefix}

Above-scan_prefix : (p i : List ℕ) (m : Map) → Above i m → Above i (scan_prefix p m)
unfolding scan_prefix
Above-scan_prefix p i [] a = tt
Above-scan_prefix p i ((k, v) ∷ m) a = elim (Bool-cases (starts_with p k)) [
  | inl e ↦ rw e (a.0, Above-scan_prefix p i m a.1)
  | inr e ↦ rw e (Above-scan_prefix p i m a.1)
]

scan_prefix-IsSorted : (p : List ℕ) (m : Map) → IsSorted m → IsSorted (scan_prefix p m)
unfolding scan_prefix
scan_prefix-IsSorted p [] s = tt
scan_prefix-IsSorted p ((k, v) ∷ m) s = elim (Bool-cases (starts_with p k)) [
  | inl e ↦ rw e (Above-scan_prefix p k m s.0, scan_prefix-IsSorted p m s.1)
  | inr e ↦ rw e (scan_prefix-IsSorted p m s.1)
]

get-scan_prefix :
    (p j : List ℕ) (m : Map) → get (scan_prefix p m) j ≡ (if starts_with p j then get m j else none)
unfolding scan_prefix get
get-scan_prefix p j [] = ground arith
get-scan_prefix p j ((k, v) ∷ m) = elim (Bool-cases (eq_bytes k j)) [
  | inl same ↦
      let prefix : starts_with p k ≡ starts_with p j = ap (starts_with p) (eq_bytes→eq k j same) in
      ground (arith, get-scan_prefix p j m)
  | inr apart ↦ ground (arith, get-scan_prefix p j m)
]

-- A scan of a map in the order of its keys returns the pairs whose key starts with the prefix and
-- no others, in ascending order of the keys.
pub scan_prefix_lem :
    (p : List ℕ) (m : Map)
    → IsSorted m
    → IsSorted (scan_prefix p m)
      × ((j : List ℕ) → get (scan_prefix p m) j ≡ (if starts_with p j then get m j else none))
scan_prefix_lem p m s = (scan_prefix-IsSorted p m s, λ j. get-scan_prefix p j m)
