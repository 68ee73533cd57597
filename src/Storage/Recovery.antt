-- ===== src/Storage/Recovery.antt =====
-- The recovery of a log by `FileStorage::open` (src/storage.rs).
use neural_sgdb.Prelude.{
  ℕ, zero, suc, ◌+◌, ◌-◌, ◌≤◌, ◌<◌, ◌≡◌, true, false, List, [], ◌∷◌, ◌++◌, append_assoc, arith,
  length, length-append, take, take-length_append, All, foldl, ltb, take_all, take-append_le,
  take-append_ge, Bool-cases, inl, inr, ltb→lt,
}
use neural_sgdb.Wire.{ok, err}
use neural_sgdb.Storage.Map.{Map}
use neural_sgdb.Storage.File.{
  Change, written, deleted, broken, read_record, size, apply, recover, OpenIo, open_file,
}
use neural_sgdb.Storage.Log.{
  Fits, bytes_of, length-bytes_of, read_record-bytes_of, read_record-take, read_record-nil,
}

-- The file that a list of changes leaves behind, and the map that it stands for.
abbrev pub log : List Change → List ℕ
log [] = []
log (c ∷ cs) = bytes_of c ++ log cs

abbrev pub replay : Map → List Change → Map
replay m cs = foldl apply m cs

pub size_pos : (c : Change) → 12 ≤ size c
unfolding size
size_pos (written k v) = omega arith
size_pos (deleted k) = omega arith

-- Recovery reads a log up to the first bytes that are no record.
pub recover-log :
    (cs : List Change) (fuel : ℕ) (m : Map) (valid_end : ℕ) (tail : List ℕ)
    → All Fits cs
    → read_record tail ≡ err broken
    → length (log cs ++ tail) ≤ fuel
    → recover fuel m valid_end (log cs ++ tail) ≡ (replay m cs, valid_end + length (log cs))
unfolding recover
recover-log [] zero m valid_end tail f h enough = ground arith
recover-log [] (suc fuel) m valid_end tail f h enough = ground arith
recover-log (c ∷ cs) zero m valid_end tail f h enough = absurd (
    omega (
      arith,
      size_pos c,
      length-bytes_of c,
      length-append (bytes_of c) (log cs),
      length-append (bytes_of c ++ log cs) tail,
    ))
recover-log (c ∷ cs) (suc fuel) m valid_end tail f h enough =
    let sizes = length-append (bytes_of c) (log cs) in
    let fewer : length (log cs ++ tail) ≤ fuel = omega (
      arith,
      size_pos c,
      length-bytes_of c,
      sizes,
      length-append (bytes_of c ++ log cs) tail,
      length-append (log cs) tail,
    ) in
    let rest = recover-log cs fuel (apply m c) (valid_end + size c) tail f.1 h fewer in
    let sum : valid_end + size c + length (log cs) ≡ valid_end + length (bytes_of c ++ log cs) =
      omega (arith, sizes, length-bytes_of c) in
    rw (append_assoc, recover, read_record-bytes_of c (log cs ++ tail) f.0, rest, sum)

-- The file opens, is read, and is cut where it has to be.
abbrev pub works : OpenIo
works = record { makes_parent = true; reads = true; truncates = true }

-- The log of changes within the limits, with anything behind it that is no record, opens to the
-- map of the log, and the file is cut to the log.
pub open_file-log :
    (cs : List Change) (tail : List ℕ)
    → All Fits cs
    → read_record tail ≡ err broken
    → open_file works (log cs ++ tail)
      ≡ ok (record { map = replay [] cs; file = false; disk = log cs })
unfolding open_file
open_file-log cs tail f h =
    let e = recover-log cs (length (log cs ++ tail)) [] 0 tail f h (omega arith) in
    let whole : 0 + length (log cs) ≡ length (log cs) = omega arith in
    let cut = take-length_append (log cs) tail in
    elim (Bool-cases (ltb (length (log cs)) (length (log cs ++ tail)))) [
      | inl b ↦ rw (e, whole, b, cut)
      | inr b ↦ rw (e, whole, b, cut)
    ]

-- However a write of records is cut short, whole records of it stand in the file and behind them
-- bytes that are no record.
pub take-log :
    (cs : List Change) (n : ℕ)
    → All Fits cs
    → (k : ℕ) × ((tail : List ℕ) × (take n (log cs) ≡ log (take k cs) ++ tail)
        × (read_record tail ≡ err broken))
take-log [] n f = (0, ([], take_all n [] (omega arith), read_record-nil))
take-log (c ∷ cs) n f = elim (Bool-cases (ltb n (size c))) [
  | inl short ↦
      let few : n < size c = ltb→lt n (size c) short in
      (
        0,
        (
          take n (bytes_of c),
          take-append_le n (bytes_of c) (log cs) (omega (arith, length-bytes_of c)),
          read_record-take c n f.0 few,
        ),
      )
  | inr long ↦
      let (k, (tail, e, h)) = take-log cs (n - length (bytes_of c)) f.1 in
      let more : length (bytes_of c) ≤ n = ground (arith, length-bytes_of c) in
      (suc k, (tail, rw (take-append_ge n (bytes_of c) (log cs) more, e, append_assoc), h))
]
