-- ===== src/Storage/Reads.antt =====
-- `put`, `delete` and `get` of `FileStorage` (src/storage.rs): single writes are batches of one,
-- and what is read after them.
use neural_sgdb.Prelude.{
  ℕ, ◌≡◌, refl, sym, ap, ◌∙◌, ◌||◌, none, some, List, [], ◌∷◌, append-nil, length, ltb, Bool-cases,
  Option-cases, inl, inr, not, ◌&&◌, if◌then◌else◌,
}
use neural_sgdb.Prelude.Bytes.{eq_bytes}
use neural_sgdb.Wire.{Result, ok, err}
use neural_sgdb.Storage.Map.{Map, get, get-insert, get-remove}
use neural_sgdb.Storage.File.{
  FileStorage, AppendIo, apply, change_of, is_empty, put, delete, append, put_batch, batch_bytes,
  changes_of, within_limits, max_klen, max_vlen, then_apply, write_all, FileError, record_bytes,
  Change,
}
use neural_sgdb.Storage.Durable.{IsLogged, put_batch-IsLogged}

-- A put is a batch of one item.
pub put_batch-put :
    (s : FileStorage) (io : AppendIo) (k v : List ℕ) → put_batch s io ((k, v) ∷ []) ≡ put s io k v
unfolding put_batch put append within_limits batch_bytes changes_of
put_batch-put s io k v = elim (Bool-cases (ltb max_klen (length k) || ltb max_vlen (length v))) [
  | inl over ↦ rw over
  | inr fine ↦ rw (fine, append-nil)
]

-- A delete is a put of the empty value.
pub put-delete : (s : FileStorage) (io : AppendIo) (k : List ℕ) → put s io k [] ≡ delete s io k
unfolding put delete
put-delete s io k = refl

get-apply :
    (m : Map) (k v j : List ℕ)
    → get (apply m (change_of k v)) j
      ≡ (if eq_bytes k j then (if is_empty v then none else some v) else get m j)
unfolding apply is_empty
get-apply m k [] j = get-remove k j m
get-apply m k (b ∷ v) j = get-insert k (b ∷ v) j m

-- From a store whose file is the log of its map: after a put that returns `Ok`, the key reads as
-- the value, or as absent if that is empty, every other key as before, and the file still is the
-- log of the map.
pub put_lem :
    (s : FileStorage) (io : AppendIo) (k v j : List ℕ)
    → IsLogged s
    → (put s io k v).1 ≡ ok tt
    → (get (put s io k v).0.map j
        ≡ (if eq_bytes k j then (if is_empty v then none else some v) else get s.map j))
      × IsLogged (put s io k v).0
unfolding changes_of
put_lem s io k v j l h =
    let e = put_batch-put s io k v in
    let (logged, m) = put_batch-IsLogged s io ((k, v) ∷ []) l (rw e h) in
    (rw (sym e, m) (get-apply s.map k v j), rw (sym e) logged)

write_all-map :
    (s : FileStorage) (io : AppendIo) (buf : List ℕ) → (write_all s io buf).0.map ≡ s.map
unfolding write_all
write_all-map s io buf = elim (Bool-cases (not s.file && not io.opens)) [
  | inl shut ↦ rw (write_all, shut)
  | inr ready ↦ elim (Option-cases io.fails_after) [
    | inl whole ↦ rw (write_all, ready, whole)
    | inr (n, torn) ↦ rw (write_all, ready, torn)
  ]
]

append-map : (s : FileStorage) (io : AppendIo) (k v : List ℕ) → (append s io k v).0.map ≡ s.map
unfolding append
append-map s io k v = elim (Bool-cases (ltb max_klen (length k) || ltb max_vlen (length v))) [
  | inl over ↦ rw over
  | inr fine ↦ rw fine (write_all-map s io (record_bytes k v))
]

then_apply-err :
    (p : FileStorage × Result FileError (Unit {0})) (cs : List Change) (e : FileError)
    → (then_apply p cs).1 ≡ err e
    → (then_apply p cs).0 ≡ p.0
then_apply-err (s, ok u) cs e h = cc
then_apply-err (s, err f) cs e h = refl

-- A put that returns an error leaves every read as it was.
pub put_failed :
    (s : FileStorage) (io : AppendIo) (k v j : List ℕ) (e : FileError)
    → (put s io k v).1 ≡ err e
    → get (put s io k v).0.map j ≡ get s.map j
unfolding put
put_failed s io k v j e h =
    let kept = then_apply-err (append s io k v) (change_of k v ∷ []) e h in
    ap (λ t. get t.map j) kept ∙ ap (λ m. get m j) (append-map s io k v)
