-- ===== src/Art/Changes.antt =====
-- What each change that `insert_rec` of src/art.rs makes to a node does to the lookups below it.
use neural_sgdb.Prelude.{
  ℕ, suc, ◌+◌, true, false, Option, none, some, List, ◌∷◌, ◌++◌, length, length-append, gt→not_leb,
  take, drop, ltb, ◌==◌, if◌then◌else◌, ◌≡◌, refl, sym, ap, ◌∙◌, inl, inr, arith, Bool-cases,
  ==_refl, ◌<◌,
}
use neural_sgdb.Prelude.Bytes.{eq_bytes, eq_bytes_refl, eq_bytes→eq}
use neural_sgdb.Art.{
  Width, w4, w16, w48, w256, Node, leaf, inner, Kids, nil, kid, length_kids, byte_at, byte_or_zero,
  common_prefix, get_rec, add_last, add_at_byte, in_byte_order, add_child, split_leaf, split_prefix,
}
use neural_sgdb.Art.Paths.{
  byte_at-drop, drop-drop, byte_after, byte_after_own, then_byte, byte_after-split, around,
  take-common_prefix, byte_at-common_prefix,
}
use neural_sgdb.Art.Slots.{
  find_kid, Distinct, get_found, get_rec-inner, get_below, find_kid-add_last, find_kid-add_at_byte,
  find_kid-in_byte_order,
}

-- The two texts part before either ends.
abbrev pub Parts : List ℕ → List ℕ → Type 0
Parts a b = (common_prefix a b < length a) × (common_prefix a b < length b)

-- The lookup of `j` when `key` has the value `v` and all else is as in `o`.
abbrev pub with_value : List ℕ → ℕ → List ℕ → Option ℕ → Option ℕ
with_value key v j o = if eq_bytes key j then some v else o

module _ (x y v : ℕ) (key : List ℕ) (m : Node) (j : List ℕ) (d : ℕ) where
  get_below_other :
      (o : Option ℕ)
      → eq_bytes key j ≡ false
      → get_below o (kid x m (kid y (leaf key v) nil)) j d ≡ then_byte o x (get_rec m j d)
  unfolding find_kid get_rec
  get_below_other none other = refl
  get_below_other (some z) other = ground (arith, other)

  get_below_same :
      (x == y) ≡ false → get_below (some y) (kid x m (kid y (leaf key v) nil)) key d ≡ some v
  unfolding find_kid get_rec
  get_below_same new = rw (new, ==_refl y) (rw (eq_bytes_refl key) refl)

-- A node with two children, of which the second is the leaf of the key.
get_fork :
    (s r key : List ℕ) (x y v d : ℕ) (m : Node) (j : List ℕ)
    → (x == y) ≡ false
    → drop d key ≡ s ++ y ∷ r
    → get_rec (inner w4 s (kid x m (kid y (leaf key v) nil))) j d
      ≡ with_value key v j (then_byte (byte_after s (drop d j)) x (get_rec m j (d + length s + 1)))
get_fork s r key x y v d m j new e =
    let ks = kid x m (kid y (leaf key v) nil) in
    let own : byte_after s (drop d key) ≡ some y = rw e (byte_after_own s r y) in
    get_rec-inner w4 s ks j d ∙ elim (Bool-cases (eq_bytes key j)) [
      | inl same ↦
          rw (same, ← eq_bytes→eq key j same, own)
            (get_below_same x y v key m key (d + length s + 1) new)
      | inr other ↦
          rw other
            (get_below_other x y v key m j (d + length s + 1) (byte_after s (drop d j)) other)
    ]

then_byte-none : (o : Option ℕ) (x : ℕ) → then_byte o x none ≡ none
then_byte-none none x = refl
then_byte-none (some y) x = ground arith

then_byte-leaf :
    (s r lk : List ℕ) (x u d e : ℕ) (j : List ℕ)
    → drop d lk ≡ s ++ x ∷ r
    → then_byte (byte_after s (drop d j)) x (get_rec (leaf lk u) j e) ≡ get_rec (leaf lk u) j d
unfolding get_rec
then_byte-leaf s r lk x u d e j h =
    let own : byte_after s (drop d lk) ≡ some x = rw h (byte_after_own s r x) in
    elim (Bool-cases (eq_bytes lk j)) [
      | inl same ↦ rw (same, ← eq_bytes→eq lk j same, own) (ground arith)
      | inr other ↦ rw other (then_byte-none (byte_after s (drop d j)) x)
    ]

-- The lookup below a node whose prefix is cut at one of its bytes.
then_byte-get_below :
    (o o' : Option ℕ) (x : ℕ) (ks : Kids) (j : List ℕ) (d : ℕ)
    → then_byte o x (get_below o' ks j d) ≡ get_below (then_byte o x o') ks j d
then_byte-get_below none o' x ks j d = refl
then_byte-get_below (some y) o' x ks j d = ground arith

then_byte-inner :
    (w : Width) (s r : List ℕ) (x : ℕ) (ks : Kids) (d : ℕ) (j : List ℕ)
    → then_byte (byte_after s (drop d j)) x (get_rec (inner w r ks) j (d + length s + 1))
      ≡ get_rec (inner w (s ++ x ∷ r) ks) j d
then_byte-inner w s r x ks d j =
    let deep : d + length s + 1 ≡ d + suc (length s) = omega arith in
    let l : d + length (s ++ x ∷ r) + 1 ≡ d + suc (length s) + length r + 1 =
      omega (arith, length-append s (x ∷ r)) in
    rw (get_rec-inner w r ks j (d + length s + 1), get_rec-inner w (s ++ x ∷ r) ks j d, l, deep)
      (rw (← drop-drop d (suc (length s)) j, byte_after-split s r (drop d j) x)
        (then_byte-get_below _ _ x ks j _))

pub get-split_leaf :
    (lk : List ℕ) (u : ℕ) (key : List ℕ) (d v : ℕ) (j : List ℕ)
    → Parts (drop d lk) (drop d key)
    → get_rec (split_leaf lk u key d v) j d ≡ with_value key v j (get_rec (leaf lk u) j d)
unfolding split_leaf
get-split_leaf lk u key d v j h =
    let a = drop d lk in
    let b = drop d key in
    let cp = common_prefix a b in
    let ea = around cp a h.0 in
    let eb : b ≡ take cp a ++ byte_or_zero (byte_at b cp) ∷ drop (suc cp) b =
      rw (take-common_prefix a b) (around cp b h.1) in
    rw (byte_at-drop d cp lk, byte_at-drop d cp key)
      (get_fork (take cp a) (drop (suc cp) b) key _ _ v d (leaf lk u) j
          (byte_at-common_prefix a b h.0 h.1) eb
        ∙ ap (with_value key v j) (then_byte-leaf (take cp a) (drop (suc cp) a) lk _ u d _ j ea))

pub get-split_prefix :
    (w : Width) (p : List ℕ) (ks : Kids) (key : List ℕ) (d v len : ℕ) (j : List ℕ)
    → Parts p (drop d key)
    → get_rec (split_prefix w p ks key d v len).0 j d
      ≡ with_value key v j (get_rec (inner w p ks) j d)
unfolding split_prefix
get-split_prefix w p ks key d v len j h =
    let b = drop d key in
    let cp = common_prefix p b in
    let ep = around cp p h.0 in
    let eb : b ≡ take cp p ++ byte_or_zero (byte_at b cp) ∷ drop (suc cp) b =
      rw (take-common_prefix p b) (around cp b h.1) in
    let one : cp + 1 ≡ suc cp = omega arith in
    rw (gt→not_leb (length p) cp h.0, gt→not_leb (length b) cp h.1, one)
      (get_fork (take cp p) (drop (suc cp) b) key _ _ v d (inner w (drop (suc cp) p) ks) j
          (byte_at-common_prefix p b h.0 h.1) eb
        ∙ ap (with_value key v j) (
            then_byte-inner w (take cp p) (drop (suc cp) p) _ ks d j
            ∙ ap (λ q. get_rec (inner w q ks) j d) (sym ep)))

-- The node with a child more answers as its old slots and the new child do.
get-add_child :
    (w : Width) (p : List ℕ) (ks : Kids) (b : ℕ) (c : Node) (j : List ℕ) (d : ℕ)
    → find_kid ks b ≡ none
    → Distinct ks
    → (ks' : Kids) × (get_rec (add_child w p ks b c) j d
        ≡ get_below (byte_after p (drop d j)) ks' j (d + length p + 1))
      × ((x : ℕ) → find_kid ks' x ≡ (if b == x then some c else find_kid ks x))
unfolding add_child
get-add_child w4 p ks b c j d h k = elim (Bool-cases (ltb (length_kids ks) 4)) [
  | inl e ↦ (_, rw e (get_rec-inner w4 p (add_last ks b c) j d), λ x. find_kid-add_last ks b c x h)
  | inr e ↦ (_, rw e (get_rec-inner w16 p (add_last ks b c) j d), λ x. find_kid-add_last ks b c x h)
]
get-add_child w16 p ks b c j d h k = elim (Bool-cases (ltb (length_kids ks) 16)) [
  | inl e ↦ (_, rw e (get_rec-inner w16 p (add_last ks b c) j d), λ x. find_kid-add_last ks b c x h)
  | inr e ↦ (_, rw e (get_rec-inner w48 p (add_last ks b c) j d), λ x. find_kid-add_last ks b c x h)
]
get-add_child w48 p ks b c j d h k =
    let sorted = in_byte_order ks in
    let same : (x : ℕ) → find_kid sorted x ≡ find_kid ks x = λ x. find_kid-in_byte_order ks x k in
    elim (Bool-cases (ltb (length_kids ks) 48)) [
      | inl e ↦
          (_, rw e (get_rec-inner w48 p (add_last ks b c) j d), λ x. find_kid-add_last ks b c x h)
      | inr e ↦ (
        _,
        rw e (get_rec-inner w256 p (add_at_byte b c sorted) j d),
        λ x.
            find_kid-add_at_byte sorted b c x (same b ∙ h)
            ∙ ap (λ o. if b == x then some c else o) (same x),
      )
    ]
get-add_child w256 p ks b c j d h k =
    (_, get_rec-inner w256 p (add_at_byte b c ks) j d, λ x. find_kid-add_at_byte ks b c x h)

-- A change of the slots that gives each byte what the insertion would.
unfoldable pub Updates : Kids → Kids → ℕ → List ℕ → ℕ → List ℕ → ℕ → Type 0
Updates ks ks' b key v j d =
    (x : ℕ)
    → (eq_bytes key j ≡ true → x ≡ b)
    → get_found (find_kid ks' x) j d ≡ with_value key v j (get_found (find_kid ks x) j d)

get_below-Updates :
    (ks ks' : Kids) (b : ℕ) (key : List ℕ) (v : ℕ) (j : List ℕ) (d : ℕ) (o : Option ℕ)
    → (eq_bytes key j ≡ true → o ≡ some b)
    → Updates ks ks' b key v j d
    → get_below o ks' j d ≡ with_value key v j (get_below o ks j d)
unfolding Updates
get_below-Updates ks ks' b key v j d none own up = elim (Bool-cases (eq_bytes key j)) [
  | inl e ↦ absurd (cc (own e))
  | inr e ↦ rw e refl
]
get_below-Updates ks ks' b key v j d (some x) own up = up x (λ same. ground (arith, own same))

pub get-Updates :
    (w : Width) (p : List ℕ) (ks ks' : Kids) (b : ℕ) (key : List ℕ) (v : ℕ) (j : List ℕ) (d : ℕ)
    → byte_after p (drop d key) ≡ some b
    → Updates ks ks' b key v j (d + length p + 1)
    → get_rec (inner w p ks') j d ≡ with_value key v j (get_rec (inner w p ks) j d)
get-Updates w p ks ks' b key v j d own up =
    rw (get_rec-inner w p ks' j d, get_rec-inner w p ks j d)
      (get_below-Updates ks ks' b key v j (d + length p + 1) (byte_after p (drop d j))
        (λ same. rw (← eq_bytes→eq key j same) own) up)

pub Updates-leaf :
    (ks ks' : Kids) (b : ℕ) (key : List ℕ) (v : ℕ) (j : List ℕ) (d : ℕ)
    → find_kid ks b ≡ none
    → ((x : ℕ) → find_kid ks' x ≡ (if b == x then some (leaf key v) else find_kid ks x))
    → Updates ks ks' b key v j d
unfolding Updates get_rec
Updates-leaf ks ks' b key v j d free new x own = ground (arith, new x, own, free)

pub get-add_leaf :
    (w : Width) (p : List ℕ) (ks : Kids) (b : ℕ) (key : List ℕ) (v : ℕ) (j : List ℕ) (d : ℕ)
    → byte_after p (drop d key) ≡ some b
    → find_kid ks b ≡ none
    → Distinct ks
    → get_rec (add_child w p ks b (leaf key v)) j d
      ≡ with_value key v j (get_rec (inner w p ks) j d)
get-add_leaf w p ks b key v j d own free k =
    let (ks', e, new) = get-add_child w p ks b (leaf key v) j d free k in
    e
    ∙ sym (get_rec-inner w p ks' j d)
    ∙ get-Updates w p ks ks' b key v j d own
        (Updates-leaf ks ks' b key v j (d + length p + 1) free new)
