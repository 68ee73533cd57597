-- ===== src/Art/Rows.antt =====
-- What the children of a node of src/art.rs give a scan, row by row, and the entries of a prefix.
use neural_sgdb.Prelude.{
  ℕ, true, false, List, [], ◌∷◌, ◌++◌, All, All-append, ltb, if◌then◌else◌, ◌≡◌, refl, sym, ap, ◌∙◌,
  inl, inr, Bool-cases,
}
use neural_sgdb.Art.{Width, w4, w16, w48, w256, begins}
use neural_sgdb.Art.Index.{row_at_byte, rows_in_byte_order, join_rows, join_kids}

abbrev pub Entry : Type 0
Entry = List ℕ × ℕ

-- The entries whose key begins with a prefix, in their order.
unfoldable pub with_prefix : List ℕ → List Entry → List Entry
with_prefix prefix [] = []
with_prefix prefix (e ∷ es) =
    if begins prefix e.0 then e ∷ with_prefix prefix es else with_prefix prefix es

module _ (prefix : List ℕ) where
  with_prefix-append :
      (a b : List Entry)
      → with_prefix prefix (a ++ b) ≡ with_prefix prefix a ++ with_prefix prefix b
  unfolding with_prefix
  with_prefix-append [] b = refl
  with_prefix-append (e ∷ a) b = elim (Bool-cases (begins prefix e.0)) [
    | inl k ↦ rw k (ap (λ l. e ∷ l) (with_prefix-append a b))
    | inr k ↦ rw k (with_prefix-append a b)
  ]

  pub with_prefix-All :
      (es : List Entry) → All (λ e. begins prefix e.0 ≡ true) es → with_prefix prefix es ≡ es
  unfolding with_prefix
  with_prefix-All [] h = refl
  with_prefix-All (e ∷ es) (k, h) = rw k (ap (λ l. e ∷ l) (with_prefix-All es h))

  pub with_prefix_none :
      (es : List Entry) → All (λ e. begins prefix e.0 ≡ false) es → with_prefix prefix es ≡ []
  unfolding with_prefix
  with_prefix_none [] h = refl
  with_prefix_none (e ∷ es) (k, h) = rw k (with_prefix_none es h)

  -- The rows, each with its entries of the prefix.
  unfoldable pub rows_with_prefix : List (ℕ × List Entry) → List (ℕ × List Entry)
  rows_with_prefix [] = []
  rows_with_prefix (r ∷ rs) = (r.0, with_prefix prefix r.1) ∷ rows_with_prefix rs

  row_at_byte-rows_with_prefix :
      (r : ℕ × List Entry) (rs : List (ℕ × List Entry))
      → row_at_byte (r.0, with_prefix prefix r.1) (rows_with_prefix rs)
        ≡ rows_with_prefix (row_at_byte r rs)
  unfolding row_at_byte rows_with_prefix
  row_at_byte-rows_with_prefix r [] = refl
  row_at_byte-rows_with_prefix r (q ∷ rs) = elim (Bool-cases (ltb r.0 q.0)) [
    | inl k ↦ rw k refl
    | inr k ↦ rw k (ap (λ l. (q.0, with_prefix prefix q.1) ∷ l) (row_at_byte-rows_with_prefix r rs))
  ]

  rows_in_byte_order-rows_with_prefix :
      (rs : List (ℕ × List Entry))
      → rows_in_byte_order (rows_with_prefix rs) ≡ rows_with_prefix (rows_in_byte_order rs)
  unfolding rows_in_byte_order rows_with_prefix
  rows_in_byte_order-rows_with_prefix [] = refl
  rows_in_byte_order-rows_with_prefix (r ∷ rs) =
      ap (row_at_byte (r.0, with_prefix prefix r.1)) (rows_in_byte_order-rows_with_prefix rs)
      ∙ row_at_byte-rows_with_prefix r (rows_in_byte_order rs)

  join_rows-rows_with_prefix :
      (rs : List (ℕ × List Entry))
      → join_rows (rows_with_prefix rs) ≡ with_prefix prefix (join_rows rs)
  unfolding join_rows rows_with_prefix with_prefix
  join_rows-rows_with_prefix [] = refl
  join_rows-rows_with_prefix (r ∷ rs) =
      ap (λ l. with_prefix prefix r.1 ++ l) (join_rows-rows_with_prefix rs)
      ∙ sym (with_prefix-append r.1 (join_rows rs))

  pub join_kids-rows_with_prefix :
      (w : Width) (rs : List (ℕ × List Entry))
      → join_kids w (rows_with_prefix rs) ≡ with_prefix prefix (join_kids w rs)
  unfolding join_kids
  join_kids-rows_with_prefix w4 rs = join_rows-rows_with_prefix rs
  join_kids-rows_with_prefix w16 rs = join_rows-rows_with_prefix rs
  join_kids-rows_with_prefix w48 rs =
      ap join_rows (rows_in_byte_order-rows_with_prefix rs)
      ∙ join_rows-rows_with_prefix (rows_in_byte_order rs)
  join_kids-rows_with_prefix w256 rs = join_rows-rows_with_prefix rs

-- A property of all entries of all rows is one of all entries of the node.
module _ (P : Entry → Type 0) where
  abbrev pub AllRows : List (ℕ × List Entry) → Type 0
  AllRows rs = All (λ r. All P r.1) rs

  row_at_byte-AllRows :
      (r : ℕ × List Entry) (rs : List (ℕ × List Entry))
      → All P r.1
      → AllRows rs
      → AllRows (row_at_byte r rs)
  unfolding row_at_byte
  row_at_byte-AllRows r [] h k = (h, tt)
  row_at_byte-AllRows r (q ∷ rs) h k = elim (Bool-cases (ltb r.0 q.0)) [
    | inl e ↦ rw e (h, k)
    | inr e ↦ rw e (k.0, row_at_byte-AllRows r rs h k.1)
  ]

  rows_in_byte_order-AllRows :
      (rs : List (ℕ × List Entry)) → AllRows rs → AllRows (rows_in_byte_order rs)
  unfolding rows_in_byte_order
  rows_in_byte_order-AllRows [] h = tt
  rows_in_byte_order-AllRows (r ∷ rs) h =
      row_at_byte-AllRows r (rows_in_byte_order rs) h.0 (rows_in_byte_order-AllRows rs h.1)

  join_rows-All : (rs : List (ℕ × List Entry)) → AllRows rs → All P (join_rows rs)
  unfolding join_rows
  join_rows-All [] h = tt
  join_rows-All (r ∷ rs) h = All-append P r.1 (join_rows rs) h.0 (join_rows-All rs h.1)

  pub join_kids-All : (w : Width) (rs : List (ℕ × List Entry)) → AllRows rs → All P (join_kids w rs)
  unfolding join_kids
  join_kids-All w4 rs h = join_rows-All rs h
  join_kids-All w16 rs h = join_rows-All rs h
  join_kids-All w48 rs h = join_rows-All (rows_in_byte_order rs) (rows_in_byte_order-AllRows rs h)
  join_kids-All w256 rs h = join_rows-All rs h
