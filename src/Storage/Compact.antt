-- ===== src/Storage/Compact.antt =====
-- The compaction of `FileStorage` (src/storage.rs): the log that it writes stands for the map.
use neural_sgdb.Prelude.{ℕ, ◌≡◌, refl, sym, ◌∙◌, false, List, [], ◌∷◌, All, Bool-cases, inl, inr}
use neural_sgdb.Prelude.Bytes.{eq_bytes}
use neural_sgdb.Storage.Map.{
  Map, IsSorted, insert, remove, lt_bytes, insert_all, insert_all-append, insert-IsSorted,
  remove-IsSorted,
}
use neural_sgdb.Storage.File.{
  Change, written, deleted, FileStorage, CompactIo, apply, change_of, is_empty, compact, changes_of,
}
use neural_sgdb.Storage.Log.{Fits}
use neural_sgdb.Storage.Recovery.{log, replay}
use neural_sgdb.Storage.Durable.{IsLogged, batch_bytes-log}

-- The pairs are within the limits, and no value is empty.
abbrev pub AllLive : Map → Type 0
AllLive m = All (λ p. Fits (written p.0 p.1)) m

insert-AllLive : (k v : List ℕ) (m : Map) → Fits (written k v) → AllLive m → AllLive (insert k v m)
unfolding insert
insert-AllLive k v [] h a = (h, tt)
insert-AllLive k v ((j, w) ∷ m) h a = elim (Bool-cases (eq_bytes j k)) [
  | inl e ↦ rw e ((a.0.0, h.1, h.2), a.1)
  | inr apart ↦ elim (Bool-cases (lt_bytes k j)) [
    | inl l ↦ rw (apart, l) (h, a)
    | inr g ↦ rw (apart, g) (a.0, insert-AllLive k v m h a.1)
  ]
]

remove-AllLive : (k : List ℕ) (m : Map) → AllLive m → AllLive (remove k m)
unfolding remove
remove-AllLive k [] a = tt
remove-AllLive k ((j, w) ∷ m) a = elim (Bool-cases (eq_bytes j k)) [
  | inl e ↦ rw e (remove-AllLive k m a.1)
  | inr e ↦ rw e (a.0, remove-AllLive k m a.1)
]

-- A map that a log stands for is in order and live.
replay-live :
    (cs : List Change) (m : Map)
    → All Fits cs
    → IsSorted m × AllLive m
    → IsSorted (replay m cs) × AllLive (replay m cs)
unfolding apply
replay-live [] m f a = a
replay-live (written k v ∷ cs) m f a =
    replay-live cs _ f.1 (insert-IsSorted k v m a.0, insert-AllLive k v m f.0 a.1)
replay-live (deleted k ∷ cs) m f a =
    replay-live cs _ f.1 (remove-IsSorted k m a.0, remove-AllLive k m a.1)

change_of-live : (k v : List ℕ) → is_empty v ≡ false → change_of k v ≡ written k v
unfolding is_empty
change_of-live k [] h = cc
change_of-live k (b ∷ v) h = refl

changes_of-live : (m : Map) → AllLive m → All Fits (changes_of m)
unfolding changes_of
changes_of-live [] a = tt
changes_of-live ((k, v) ∷ m) (h, a) = (rw (change_of-live k v h.1) h, changes_of-live m a)

replay-changes_of : (m n : Map) → AllLive n → replay m (changes_of n) ≡ insert_all m n
unfolding changes_of apply
replay-changes_of m [] a = refl
replay-changes_of m ((k, v) ∷ n) (h, a) =
    rw (change_of-live k v h.1) (replay-changes_of (insert k v m) n a)

-- The log that compaction writes stands for the map.
compacted-IsLogged :
    (s : FileStorage)
    → IsLogged s
    → IsLogged (record s { file = false; disk = log (changes_of s.map) })
compacted-IsLogged s (cs, (f, d, m)) =
    let live = replay-live cs [] f (tt, tt) in
    let sorted : IsSorted s.map = rw m live.0 in
    let all : AllLive s.map = rw m live.1 in
    let same = replay-changes_of [] s.map all ∙ insert_all-append [] s.map sorted in
    (changes_of s.map, (changes_of-live s.map all, refl, sym same))

-- Whatever the compaction of a store whose file is the log of its map meets, the map stays, and
-- the file is a log of it.
pub compact-IsLogged :
    (s : FileStorage) (io : CompactIo)
    → IsLogged s
    → IsLogged (compact s io).0 × ((compact s io).0.map ≡ s.map)
unfolding compact
compact-IsLogged s io l = elim (Bool-cases io.creates) [
  | inr e ↦ rw e (l, refl)
  | inl c ↦ elim (Bool-cases io.writes) [
    | inr e ↦ rw (c, e) (l, refl)
    | inl w ↦ elim (Bool-cases io.flushes) [
      | inr e ↦ rw (c, w, e) (l, refl)
      | inl f ↦ elim (Bool-cases io.renames) [
        | inr e ↦ rw (c, w, f, e) (l, refl)
        | inl r ↦ rw (c, w, f, r, batch_bytes-log s.map) (compacted-IsLogged s l, refl)
      ]
    ]
  ]
]
