-- ===== src/Art/Freedom.antt =====
-- The keys that a tree of src/art.rs has room for: those that no stored key begins with or is the
-- beginning of, the keys that the comment above `has_prefix_conflict` allows.
use neural_sgdb.Prelude.{
  ℕ, ◌+◌, ◌≤◌, true, false, some, List, [], ◌∷◌, ◌++◌, length, length-append, drop, ◌==◌, ◌≡◌, refl,
  sym, ap, ◌∙◌, inl, inr, ◌⊎◌, arith, Bool-cases, append_assoc, append-nil,
}
use neural_sgdb.Prelude.Bytes.{eq_bytes, eq_bytes→eq}
use neural_sgdb.Art.{
  Width, w4, w16, w48, w256, Node, leaf, inner, Kids, nil, kid, length_kids, byte_at, begins,
  common_prefix,
}
use neural_sgdb.Art.Paths.{byte_at_own, begins_own_byte, begins_own, begins-append}
use neural_sgdb.Art.Changes.{Parts}
use neural_sgdb.Art.Insertion.{Room, RoomBelow}
use neural_sgdb.Art.Wf.{fits, IsNode, IsKids}

-- Neither text begins with the other, or they are the same.
abbrev pub Apart : List ℕ → List ℕ → Type 0
Apart lk key = (eq_bytes lk key ≡ true) ⊎ ((begins lk key ≡ false) × (begins key lk ≡ false))

-- Every key stored below a node is apart from the key.
unfoldable mutual
  pub Free : Node → List ℕ → Type 0
  Free (leaf lk v) key = Apart lk key
  Free (inner w p ks) key = FreeKids ks key

  pub FreeKids : Kids → List ℕ → Type 0
  FreeKids nil key = Unit
  FreeKids (kid b c ks) key = Free c key × FreeKids ks key

List-cases : (l : List ℕ) → (l ≡ []) ⊎ ((x : ℕ) × (r : List ℕ) × (l ≡ x ∷ r))
List-cases [] = inl refl
List-cases (x ∷ r) = inr (x, r, refl)

pub begins_refl : (l : List ℕ) → begins l l ≡ true
begins_refl l = ap (begins l) (sym (append-nil l)) ∙ begins_own l []

-- The list that begins with another, and the other way round.
pub begins_trans : (a b c : List ℕ) → begins a b ≡ true → begins b c ≡ true → begins a c ≡ true
unfolding begins
begins_trans [] b c h k = refl
begins_trans (x ∷ a) [] c h k = absurd cc
begins_trans (x ∷ a) (y ∷ b) [] h k = absurd cc
begins_trans (x ∷ a) (y ∷ b) (z ∷ c) h k = ground (arith, begins_trans a b c)

begins-Parts : (a b : List ℕ) → begins a b ≡ false → begins b a ≡ false → Parts a b
unfolding begins common_prefix
begins-Parts [] b h k = absurd cc
begins-Parts (x ∷ a) [] h k = absurd cc
begins-Parts (x ∷ a) (y ∷ b) h k = elim (Bool-cases (x == y)) [
  | inl e ↦
      let ih = begins-Parts a b (ground (arith, h)) (ground (arith, k)) in
      rw e (omega (arith, ih.0), omega (arith, ih.1))
  | inr e ↦ rw e (omega arith, omega arith)
]

pub begins_under : (path a b : List ℕ) → begins (path ++ a) (path ++ b) ≡ begins a b
unfolding begins
begins_under [] a b = refl
begins_under (x ∷ path) a b = ground (arith, begins_under path a b)

Apart-Parts :
    (path lk key : List ℕ)
    → begins path lk ≡ true
    → begins path key ≡ true
    → begins lk key ≡ false
    → begins key lk ≡ false
    → Parts (drop (length path) lk) (drop (length path) key)
Apart-Parts path lk key h k f g =
    let d = length path in
    let el = begins-append path lk h in
    let ek = begins-append path key k in
    begins-Parts (drop d lk) (drop d key)
      (sym (begins_under path (drop d lk) (drop d key)) ∙ rw (← el, ← ek) f)
      (sym (begins_under path (drop d key) (drop d lk)) ∙ rw (← el, ← ek) g)

pub begins_above :
    (path p lk : List ℕ) (b : ℕ) → begins ((path ++ p) ++ b ∷ []) lk ≡ true → begins path lk ≡ true
begins_above path p lk b on =
    begins_trans path ((path ++ p) ++ b ∷ []) lk
      (rw (append_assoc path p (b ∷ [])) (begins_own path (p ++ b ∷ []))) on

length-begins : (a b : List ℕ) → begins a b ≡ true → length a ≤ length b
unfolding begins
length-begins [] b h = omega arith
length-begins (x ∷ a) [] h = absurd cc
length-begins (x ∷ a) (y ∷ b) h = ground (arith, length-begins a b)

pub fits_empty : (w : Width) → fits w 0 ≡ true → ⊥
fits_empty w4 h = cc
fits_empty w16 h = cc
fits_empty w48 h = cc
fits_empty w256 h = cc

-- A key stored below a node begins with the path and is apart from the key.
below :
    (n : Node) (path key : List ℕ)
    → IsNode n path
    → Free n key
    → (lk : List ℕ) × (begins path lk ≡ true) × Apart lk key
unfolding IsNode IsKids Free FreeKids length_kids
below (leaf lk v) path key h f = (lk, h, f)
below (inner w p nil) path key h f = absurd (fits_empty w h.0)
below (inner w p (kid b c ks)) path key h f =
    let (lk, on, apart) = below c ((path ++ p) ++ b ∷ []) key h.1.1 f.0 in
    (lk, begins_above path p lk b on, apart)

-- The key does not end above an inner node.
pub no_end :
    (w : Width) (p : List ℕ) (ks : Kids) (path key : List ℕ)
    → IsNode (inner w p ks) path
    → Free (inner w p ks) key
    → begins key (path ++ p) ≡ true
    → ⊥
unfolding IsNode IsKids Free FreeKids length_kids
no_end w p nil path key h f e = fits_empty w h.0
no_end w p (kid b c ks) path key h f e =
    let (lk, on, apart) = below c ((path ++ p) ++ b ∷ []) key h.1.1 f.0 in
    let q = path ++ p in
    elim apart [
      | inl same ↦
          let long = length-begins (q ++ b ∷ []) lk on in
          let short = length-begins key q e in
          let equal : length lk ≡ length key = ap length (eq_bytes→eq lk key same) in
          omega (arith, long, short, equal, length-append q (b ∷ []))
      | inr (_, off) ↦
          let over =
            begins_trans key q lk e (begins_trans q (q ++ b ∷ []) lk (begins_own q (b ∷ [])) on) in
          absurd cc
    ]

-- A key that begins with the path but not with the node's prefix leaves the prefix inside.
pub away :
    (w : Width) (p : List ℕ) (ks : Kids) (path key : List ℕ)
    → IsNode (inner w p ks) path
    → Free (inner w p ks) key
    → begins path key ≡ true
    → begins p (drop (length path) key) ≡ false
    → Parts p (drop (length path) key)
away w p ks path key h f on off =
    let kr = drop (length path) key in
    elim (Bool-cases (begins kr p)) [
      | inl e ↦ absurd (
          no_end w p ks path key h f (
            ap (λ k. begins k (path ++ p)) (begins-append path key on)
            ∙ begins_under path kr p
            ∙ e))
      | inr e ↦ begins-Parts p kr off e
    ]

-- A key that begins with the path and the node's prefix goes on below, with a byte.
pub goes_on :
    (w : Width) (p : List ℕ) (ks : Kids) (path key : List ℕ)
    → IsNode (inner w p ks) path
    → Free (inner w p ks) key
    → begins path key ≡ true
    → begins p (drop (length path) key) ≡ true
    → (b : ℕ) × (byte_at key (length path + length p) ≡ some b)
      × (begins ((path ++ p) ++ b ∷ []) key ≡ true)
goes_on w p ks path key h f on e =
    let rest = drop (length p) (drop (length path) key) in
    let whole : key ≡ (path ++ p) ++ rest =
      begins-append path key on
      ∙ ap (λ l. path ++ l) (begins-append p (drop (length path) key) e)
      ∙ sym (append_assoc path p rest) in
    elim (List-cases rest) [
      | inl empty ↦
          let ends : key ≡ path ++ p =
            whole ∙ ap (λ l. (path ++ p) ++ l) empty ∙ append-nil (path ++ p) in
          absurd (no_end w p ks path key h f (rw ends (begins_refl (path ++ p))))
      | inr (b, r, full) ↦
          let split : key ≡ (path ++ p) ++ b ∷ r = whole ∙ ap (λ l. (path ++ p) ++ l) full in
          (
            b,
            rw (← length-append path p, split) (byte_at_own (path ++ p) r b),
            rw split (begins_own_byte (path ++ p) r b),
          )
    ]

mutual
  unfolding Free FreeKids Room RoomBelow IsNode IsKids

  pub Free-Room :
      (n : Node) (path key : List ℕ)
      → IsNode n path
      → Free n key
      → begins path key ≡ true
      → Room n key (length path)
  Free-Room (leaf lk v) path key h f on = elim f [
    | inl same ↦ inl same
    | inr (a, b) ↦ inr (Apart-Parts path lk key h on a b)
  ]
  Free-Room (inner w p ks) path key h f on = (
    λ e.
        let (b, next, on') = goes_on w p ks path key h f on e in
        let deep : length (path ++ p) + 1 ≡ length path + length p + 1 =
          omega (arith, length-append path p) in
        (b, next, rw (← deep) (FreeKids-RoomBelow ks (path ++ p) b key h.1 f on')),
    away w p ks path key h f on,
  )

  FreeKids-RoomBelow :
      (ks : Kids) (path : List ℕ) (b : ℕ) (key : List ℕ)
      → IsKids ks path
      → FreeKids ks key
      → begins (path ++ b ∷ []) key ≡ true
      → RoomBelow ks b key (length path + 1)
  FreeKids-RoomBelow nil path b key h f on = tt
  FreeKids-RoomBelow (kid b' c ks) path b key h f on = (
    λ e.
        let here : b' ≡ b = ground (arith, e) in
        let deep : length (path ++ b ∷ []) ≡ length path + 1 = length-append path (b ∷ []) in
        rw (← deep) (Free-Room c (path ++ b ∷ []) key (rw (← here) h.1) f.0 on),
    λ e. FreeKids-RoomBelow ks path b key h.2 f.1 on,
  )
