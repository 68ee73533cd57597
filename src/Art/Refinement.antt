-- ===== src/Art/Refinement.antt =====
-- The index of src/art.rs implements a finite map: any run of insertions and deletions whose keys
-- are apart answers as the list of the operations read from its end.
use neural_sgdb.Prelude.{
  ℕ, Option, none, some, List, [], ◌∷◌, All, if◌then◌else◌, ◌≡◌, refl, sym, ap, ◌∙◌, inl, inr,
  arith, Bool-cases,
}
use neural_sgdb.Prelude.Bytes.{eq_bytes, eq_bytes→eq}
use neural_sgdb.Art.Index.{ArtIndex, new, get, insert, delete}
use neural_sgdb.Art.Freedom.{Apart}
use neural_sgdb.Art.Laws.{
  IsIndex, KeysApart, new-IsIndex, get-insert, insert-IsIndex, get-delete, delete-IsIndex,
}

pub data ArtOp : Type 0 where
  put_key : List ℕ → ℕ → ArtOp
  remove_key : List ℕ → ArtOp

unfoldable pub apply_op : ArtIndex → ArtOp → ArtIndex
apply_op t (put_key key v) = insert t key v
apply_op t (remove_key key) = (delete t key).0

unfoldable pub run_ops : ArtIndex → List ArtOp → ArtIndex
run_ops t [] = t
run_ops t (op ∷ ops) = run_ops (apply_op t op) ops

-- The value that the operations give a key which had the value `o`.
abbrev pub value_after : Option ℕ → List ℕ → ArtOp → Option ℕ
value_after o j (put_key key v) = if eq_bytes key j then some v else o
value_after o j (remove_key key) = if eq_bytes key j then none else o

unfoldable pub map_value : Option ℕ → List ℕ → List ArtOp → Option ℕ
map_value o j [] = o
map_value o j (op ∷ ops) = map_value (value_after o j op) j ops

-- The operation inserts no key but those of a set.
abbrev pub PutsIn : (List ℕ → Type 0) → ArtOp → Type 0
PutsIn P (put_key key v) = P key
PutsIn P (remove_key key) = Unit

module _ (P : List ℕ → Type 0) (apart : (a b : List ℕ) → P a → P b → Apart a b) where
  abbrev pub Held : ArtIndex → Type 0
  Held t = IsIndex t × ((lk : List ℕ) (v : ℕ) → get t lk ≡ some v → P lk)

  pub Held-KeysApart : (t : ArtIndex) (key : List ℕ) → Held t → P key → KeysApart t key
  unfolding KeysApart
  Held-KeysApart t key h k lk v got = apart lk key (h.1 lk v got) k

  get-apply_op :
      (t : ArtIndex) (op : ArtOp) (j : List ℕ)
      → Held t
      → PutsIn P op
      → get (apply_op t op) j ≡ value_after (get t j) j op
  unfolding apply_op
  get-apply_op t (put_key key v) j h k = get-insert t key v j h.0 (Held-KeysApart t key h k)
  get-apply_op t (remove_key key) j h k = get-delete t key j h.0

  apply_op-IsIndex : (t : ArtIndex) (op : ArtOp) → Held t → PutsIn P op → IsIndex (apply_op t op)
  unfolding apply_op
  apply_op-IsIndex t (put_key key v) h k = insert-IsIndex t key v h.0 (Held-KeysApart t key h k)
  apply_op-IsIndex t (remove_key key) h k = delete-IsIndex t key h.0

  value_after-in :
      (o : Option ℕ) (j : List ℕ) (op : ArtOp) (v : ℕ)
      → PutsIn P op
      → ((u : ℕ) → o ≡ some u → P j)
      → value_after o j op ≡ some v
      → P j
  value_after-in o j (put_key key u) v k h e = elim (Bool-cases (eq_bytes key j)) [
    | inl same ↦ rw (← eq_bytes→eq key j same) k
    | inr other ↦ h v (ground (arith, e))
  ]
  value_after-in o j (remove_key key) v k h e = elim (Bool-cases (eq_bytes key j)) [
    | inl same ↦ absurd (ground (arith, e))
    | inr other ↦ h v (ground (arith, e))
  ]

  apply_op-Held : (t : ArtIndex) (op : ArtOp) → Held t → PutsIn P op → Held (apply_op t op)
  apply_op-Held t op h k = (
    apply_op-IsIndex t op h k,
    λ j v got. value_after-in (get t j) j op v k (h.1 j) (sym (get-apply_op t op j h k) ∙ got),
  )

  run_ops_from :
      (ops : List ArtOp) (t : ArtIndex) (j : List ℕ)
      → Held t
      → All (PutsIn P) ops
      → (get (run_ops t ops) j ≡ map_value (get t j) j ops) × IsIndex (run_ops t ops)
  unfolding run_ops map_value
  run_ops_from [] t j h k = (refl, h.0)
  run_ops_from (op ∷ ops) t j h k =
      let rest = run_ops_from ops (apply_op t op) j (apply_op-Held t op h k.0) k.1 in
      (rest.0 ∙ ap (λ o. map_value o j ops) (get-apply_op t op j h k.0), rest.1)

  get-new : (j : List ℕ) → get new j ≡ none
  unfolding get
  get-new j = refl

  new_finds : (lk : List ℕ) (v : ℕ) → get new lk ≡ some v → ⊥
  new_finds lk v got = let e : none ≡ some v = sym (get-new lk) ∙ got in absurd cc

  new-Held : Held new
  new-Held = (new-IsIndex, λ lk v got. absurd (new_finds lk v got))

  run_ops-Held_from :
      (ops : List ArtOp) (t : ArtIndex) → Held t → All (PutsIn P) ops → Held (run_ops t ops)
  unfolding run_ops
  run_ops-Held_from [] t h k = h
  run_ops-Held_from (op ∷ ops) t h k =
      run_ops-Held_from ops (apply_op t op) (apply_op-Held t op h k.0) k.1

  pub run_ops-Held : (ops : List ArtOp) → All (PutsIn P) ops → Held (run_ops new ops)
  run_ops-Held ops k = run_ops-Held_from ops new new-Held k

  -- After any run of insertions and deletions on the new index, where any two inserted keys are apart,
  -- every lookup finds what the operations say, and the index is well-formed.
  pub run_ops_lem :
      (ops : List ArtOp) (j : List ℕ)
      → All (PutsIn P) ops
      → (get (run_ops new ops) j ≡ map_value none j ops) × IsIndex (run_ops new ops)
  run_ops_lem ops j k =
      let r = run_ops_from ops new j new-Held k in
      (r.0 ∙ ap (λ o. map_value o j ops) (get-new j), r.1)
