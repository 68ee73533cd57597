-- ===== src/Storage/Durable.antt =====
-- What the log of src/storage.rs keeps: the operations of `FileStorage` against reopening its file.
use neural_sgdb.Prelude.{
  ℕ, ◌≡◌, refl, sym, ap, ◌∙◌, true, false, not, ◌||◌, ◌&&◌, List, [], ◌∷◌, ◌++◌, append_assoc,
  append-nil, arith, length, take, take_all, All, All-append, All-take, foldl, ltb, Bool-cases,
  Option-cases, inl, inr,
}
use neural_sgdb.Wire.{Result, ok, err}
use neural_sgdb.Storage.Map.{Map}
use neural_sgdb.Storage.File.{
  Change, FileError, FileStorage, AppendIo, apply, change_of, is_empty, record_bytes, write_all,
  put_batch, batch_bytes, changes_of, within_limits, open_file, max_klen, max_vlen, then_apply,
  broken, read_record,
}
use neural_sgdb.Storage.Log.{Fits, read_record-nil}
use neural_sgdb.Storage.Recovery.{log, replay, works, open_file-log, take-log}

-- The file is the log of some changes within the limits, and the map is what they stand for.
abbrev pub IsLogged : FileStorage → Type 0
IsLogged s = (cs : List Change) × ((All Fits cs) × (s.disk ≡ log cs) × (s.map ≡ replay [] cs))

log-append : (xs ys : List Change) → log (xs ++ ys) ≡ log xs ++ log ys
log-append [] ys = refl
log-append (x ∷ xs) ys = rw (log-append xs ys, append_assoc)

replay-append : (m : Map) (xs ys : List Change) → replay m (xs ++ ys) ≡ replay (replay m xs) ys
replay-append m [] ys = refl
replay-append m (x ∷ xs) ys = replay-append (apply m x) xs ys

-- The buffer of a batch is the log of its changes.
pub batch_bytes-log : (items : List (List ℕ × List ℕ)) → batch_bytes items ≡ log (changes_of items)
unfolding batch_bytes changes_of
batch_bytes-log [] = refl
batch_bytes-log ((k, []) ∷ items) = ap (λ l. record_bytes k [] ++ l) (batch_bytes-log items)
batch_bytes-log ((k, b ∷ v) ∷ items) = ap (λ l. record_bytes k (b ∷ v) ++ l) (batch_bytes-log items)

pub change_of-Fits :
    (k v : List ℕ)
    → (ltb max_klen (length k) || ltb max_vlen (length v)) ≡ false
    → Fits (change_of k v)
unfolding is_empty
change_of-Fits k [] h = ground arith
change_of-Fits k (b ∷ v) h = (ground arith, refl, ground arith)

pub changes_of-Fits :
    (items : List (List ℕ × List ℕ)) → within_limits items ≡ true → All Fits (changes_of items)
unfolding within_limits changes_of
changes_of-Fits [] h = tt
changes_of-Fits ((k, v) ∷ items) h =
    elim (Bool-cases (ltb max_klen (length k) || ltb max_vlen (length v))) [
      | inl over ↦ cc (rw over at h)
      | inr fine ↦ (change_of-Fits k v fine, changes_of-Fits items (rw fine at h))
    ]

-- What a write of records leaves in the file, whatever goes wrong: the old log, some of the
-- records, and bytes that are no record.
write_all-log :
    (s : FileStorage) (io : AppendIo) (cs : List Change)
    → All Fits cs
    → (k : ℕ) × ((tail : List ℕ) × ((write_all s io (log cs)).0.disk
          ≡ s.disk ++ (log (take k cs) ++ tail))
        × (read_record tail ≡ err broken))
unfolding write_all
write_all-log s io cs f = elim (Bool-cases (not s.file && not io.opens)) [
  | inl shut ↦ (0, ([], rw (write_all, shut, append-nil), read_record-nil))
  | inr ready ↦ elim (Option-cases io.fails_after) [
    | inl whole ↦ (
      length cs,
      (
        [],
        rw (write_all, ready, whole, take_all (length cs) cs (omega arith), append-nil),
        read_record-nil,
      ),
    )
    | inr (n, torn) ↦
        let (k, (tail, e, h)) = take-log cs n f in (k, (tail, rw (write_all, ready, torn, e), h))
  ]
]

write_all-done :
    (s : FileStorage) (io : AppendIo) (buf : List ℕ)
    → (write_all s io buf).1 ≡ ok tt
    → (write_all s io buf).0 ≡ record s { file = true; disk = s.disk ++ buf }
unfolding write_all
write_all-done s io buf h = elim (Bool-cases (not s.file && not io.opens)) [
  | inl shut ↦ cc (rw shut at h)
  | inr ready ↦ elim (Option-cases io.fails_after) [
    | inl whole ↦ rw (write_all, ready, whole)
    | inr (n, torn) ↦ cc (rw (ready, torn) at h)
  ]
]

then_apply-disk :
    (p : FileStorage × Result FileError (Unit {0})) (cs : List Change)
    → (then_apply p cs).0.disk ≡ p.0.disk
then_apply-disk (s, ok u) cs = refl
then_apply-disk (s, err e) cs = refl

put_batch-disk :
    (s : FileStorage) (io : AppendIo) (items : List (List ℕ × List ℕ))
    → (k : ℕ) × ((tail : List ℕ) × ((put_batch s io items).0.disk
          ≡ s.disk ++ (log (take k (changes_of items)) ++ tail))
        × All Fits (take k (changes_of items))
        × (read_record tail ≡ err broken))
unfolding put_batch
put_batch-disk s io [] = (0, ([], sym (append-nil s.disk), tt, read_record-nil))
put_batch-disk s io (i ∷ items) = elim (Bool-cases (within_limits (i ∷ items))) [
  | inl fine ↦
      let f = changes_of-Fits (i ∷ items) fine in
      let (k, (tail, e, h)) = write_all-log s io (changes_of (i ∷ items)) f in
      let same = ap (λ b. (write_all s io b).0.disk) (batch_bytes-log (i ∷ items)) in
      (
        k,
        (
          tail,
          rw fine (then_apply-disk _ _ ∙ same ∙ e),
          All-take Fits k (changes_of (i ∷ items)) f,
          h,
        ),
      )
  | inr over ↦ (0, ([], rw over (sym (append-nil s.disk)), tt, read_record-nil))
]

-- The log of two lists of changes, with bytes behind it that are no record, opens to a store.
opens_to :
    (m : Map) (disk contents tail : List ℕ) (old new : List Change)
    → All Fits old
    → All Fits new
    → read_record tail ≡ err broken
    → disk ≡ log old
    → m ≡ replay [] old
    → contents ≡ disk ++ (log new ++ tail)
    → (s' : FileStorage) × ((open_file works contents ≡ ok s')
        × (s'.map ≡ replay m new)
        × IsLogged s')
opens_to m disk contents tail old new f g h d p e =
    let both = All-append Fits old new f g in
    (
      record { map = replay [] (old ++ new); file = false; disk = log (old ++ new) },
      (
        rw (e, d, sym (append_assoc (log old) (log new) tail), sym (log-append old new))
            (open_file-log (old ++ new) tail both h),
        rw p (replay-append [] old new),
        (old ++ new, (both, refl, refl)),
      ),
    )

-- From a store whose file is the log of its map: whatever a write meets, the file opens
-- afterwards, to the map before it with the first `k` of the items written, none of them, some or
-- all.
pub put_batch_crash :
    (s : FileStorage) (io : AppendIo) (items : List (List ℕ × List ℕ))
    → IsLogged s
    → (k : ℕ) × ((s' : FileStorage) × ((open_file works (put_batch s io items).0.disk ≡ ok s')
          × (s'.map ≡ replay s.map (take k (changes_of items)))
          × IsLogged s'))
put_batch_crash s io items (old, (g, d, m)) =
    let (k, (tail, e, f, h)) = put_batch-disk s io items in
    (
      k,
      opens_to s.map s.disk (put_batch s io items).0.disk tail old (take k (changes_of items)) g f h
          d m e,
    )

then_apply-ok :
    (p : FileStorage × Result FileError (Unit {0})) (cs : List Change)
    → (then_apply p cs).1 ≡ ok tt
    → (p.1 ≡ ok tt) × ((then_apply p cs).0 ≡ record p.0 { map = foldl apply p.0.map cs })
then_apply-ok (s, ok u) cs h = (refl, refl)
then_apply-ok (s, err e) cs h = cc

put_batch-ok :
    (s : FileStorage) (io : AppendIo) (i : List ℕ × List ℕ) (items : List (List ℕ × List ℕ))
    → (put_batch s io (i ∷ items)).1 ≡ ok tt
    → (within_limits (i ∷ items) ≡ true)
      × ((put_batch s io (i ∷ items)).0 ≡ record {
        map = replay s.map (changes_of (i ∷ items));
        file = true;
        disk = s.disk ++ log (changes_of (i ∷ items));
      })
unfolding put_batch
put_batch-ok s io i items h = elim (Bool-cases (within_limits (i ∷ items))) [
  | inl fine ↦
      let cs = changes_of (i ∷ items) in
      let (w, e) = then_apply-ok (write_all s io (batch_bytes (i ∷ items))) cs (rw fine at h) in
      let done = write_all-done s io (batch_bytes (i ∷ items)) w in
      (fine, rw (fine, e, done, batch_bytes-log (i ∷ items)))
  | inr over ↦ cc (rw over at h)
]

-- From a store whose file is the log of its map, a batch that returns `Ok` has been logged, and
-- the map has taken its items in.
pub put_batch-IsLogged :
    (s : FileStorage) (io : AppendIo) (items : List (List ℕ × List ℕ))
    → IsLogged s
    → (put_batch s io items).1 ≡ ok tt
    → IsLogged (put_batch s io items).0
      × ((put_batch s io items).0.map ≡ replay s.map (changes_of items))
put_batch-IsLogged s io [] l h = unfold put_batch in unfold changes_of in (l, refl)
put_batch-IsLogged s io (i ∷ items) (old, (g, d, m)) h =
    let (fine, e) = put_batch-ok s io i items h in
    let cs = changes_of (i ∷ items) in
    rw e (
      (
        old ++ cs,
        (
          All-append Fits old cs g (changes_of-Fits (i ∷ items) fine),
          rw d (sym (log-append old cs)),
          rw m (sym (replay-append [] old cs)),
        ),
      ),
      refl,
    )
