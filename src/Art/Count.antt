-- ===== src/Art/Count.antt =====
-- The count `len` of src/art.rs and the leaves, through a deletion.
use neural_sgdb.Prelude.{
  ℕ, ◌+◌, ◌-◌, ◌≤◌, true, false, Option, none, some, List, length, ◌==◌, if◌then◌else◌, ◌≡◌, refl,
  ap, ◌∙◌, inl, inr, arith, Bool-cases, Option-cases,
}
use neural_sgdb.Prelude.Bytes.{eq_bytes}
use neural_sgdb.Art.{
  Width, w4, w16, w48, w256, Node, leaf, inner, Kids, nil, kid, next_byte, get_rec, get_kids,
}
use neural_sgdb.Art.Removal.{
  Outcome, absent, kept, gone, behind, from_child, after_child, settle, settle_absent, remove_slot,
  last_first, swap_remove, remove_kid, delete_rec, delete_kids,
}
use neural_sgdb.Art.Slots.{find_kid, Kids-cases}
use neural_sgdb.Art.Shrinking.{delete_rec-off, delete_rec-on, delete_kids-hit, delete_kids-miss}
use neural_sgdb.Art.Sizes.{leaves, leaves_kids, leaves_maybe, leaves-in_byte_order}

-- Deletion: how many leaves a freed slot takes with it.
leaves-last_first :
    (ks : Kids) (b : ℕ) (c : Node) → leaves_kids (last_first b c ks) ≡ leaves c + leaves_kids ks
unfolding leaves_kids last_first
leaves-last_first nil b c = refl
leaves-last_first (kid b' c' ks) b c = elim (Kids-cases (last_first b' c' ks)) [
  | inl e ↦ rw e (ground (arith, leaves-last_first ks b' c', ap leaves_kids e))
  | inr (l, d, rest, e) ↦ rw e (ground (arith, leaves-last_first ks b' c', ap leaves_kids e))
]

leaves-remove_slot :
    (ks : Kids) (b : ℕ) (c : Node)
    → find_kid ks b ≡ some c
    → leaves_kids ks ≡ leaves c + leaves_kids (remove_slot ks b)
unfolding leaves_kids remove_slot find_kid
leaves-remove_slot nil b c h = absurd cc
leaves-remove_slot (kid b' c' ks) b c h = elim (Bool-cases (b' == b)) [
  | inl e ↦ rw e (ground (arith, h))
  | inr e ↦ rw e (ground (arith, leaves-remove_slot ks b c (ground (arith, h))))
]

leaves-swap_remove :
    (ks : Kids) (b : ℕ) (c : Node)
    → find_kid ks b ≡ some c
    → leaves_kids ks ≡ leaves c + leaves_kids (swap_remove ks b)
unfolding leaves_kids swap_remove find_kid
leaves-swap_remove nil b c h = absurd cc
leaves-swap_remove (kid b' c' nil) b c h = ground (arith, h)
leaves-swap_remove (kid b' c' (kid b'' c'' ks)) b c h = elim (Bool-cases (b' == b)) [
  | inl e ↦ rw e (ground (arith, h, leaves-last_first ks b'' c''))
  | inr e ↦ rw e (ground (arith, leaves-swap_remove (kid b'' c'' ks) b c (ground (arith, h))))
]

leaves-remove_kid :
    (w : Width) (ks : Kids) (b : ℕ) (c : Node)
    → find_kid ks b ≡ some c
    → leaves_kids ks ≡ leaves c + leaves_kids (remove_kid w ks b)
unfolding remove_kid
leaves-remove_kid w4 ks b c h = leaves-remove_slot ks b c h
leaves-remove_kid w16 ks b c h = leaves-remove_slot ks b c h
leaves-remove_kid w48 ks b c h = leaves-swap_remove ks b c h
leaves-remove_kid w256 ks b c h = leaves-remove_slot ks b c h

leaves-settle : (w : Width) (p : List ℕ) (ks : Kids) → leaves_maybe (settle w p ks) ≡ leaves_kids ks
unfolding settle leaves
leaves-settle w p nil = refl
leaves-settle w4 p (kid b c ks) = refl
leaves-settle w16 p (kid b c ks) = ground arith
leaves-settle w48 p (kid b c ks) = ground (arith, leaves-in_byte_order (kid b c ks))
leaves-settle w256 p (kid b c ks) = ground arith

leaves-settle_absent :
    (w : Width) (p : List ℕ) (ks : Kids) → leaves_maybe (settle_absent w p ks) ≡ leaves_kids ks
unfolding settle_absent leaves
leaves-settle_absent w4 p ks = refl
leaves-settle_absent w16 p ks = refl
leaves-settle_absent w48 p ks = leaves-settle w48 p ks
leaves-settle_absent w256 p ks = leaves-settle w256 p ks

-- What an outcome says of the count.
unfoldable Counted : Kids → ℕ → ℕ → Outcome → Type 0
Counted ks b len absent = Unit
Counted ks b len (kept ks' l) = l + leaves_kids ks ≡ len + leaves_kids ks'
Counted ks b len (gone l) = (c : Node) × (find_kid ks b ≡ some c) × (l + leaves c ≡ len)

Counted-behind :
    (o : Outcome) (b' : ℕ) (c : Node) (ks : Kids) (b len : ℕ)
    → (b' == b) ≡ false
    → Counted ks b len o
    → Counted (kid b' c ks) b len (behind b' c o)
unfolding Counted find_kid leaves_kids
Counted-behind absent b' c ks b len e h = tt
Counted-behind (kept ks' l) b' c ks b len e h = omega (arith, h)
Counted-behind (gone l) b' c ks b len e h = (h.0, rw e h.1, h.2)

Counted-from_child :
    (r : Option Node × ℕ) (b' : ℕ) (c : Node) (ks : Kids) (b len : ℕ)
    → (b' == b) ≡ true
    → r.1 + leaves c ≡ len + leaves_maybe r.0
    → Counted (kid b' c ks) b len (from_child b' ks r)
unfolding Counted find_kid leaves_kids
Counted-from_child (none, l) b' c ks b len e h = (c, rw e refl, omega (arith, h))
Counted-from_child (some m, l) b' c ks b len e h = omega (arith, h)

after_child-Counted :
    (o : Outcome) (w : Width) (p : List ℕ) (ks : Kids) (b len : ℕ)
    → Counted ks b len o
    → (after_child w p ks b len o).1 + leaves_kids ks
      ≡ len + leaves_maybe (after_child w p ks b len o).0
unfolding after_child Counted
after_child-Counted absent w p ks b len h = omega (arith, leaves-settle_absent w p ks)
after_child-Counted (kept ks' l) w p ks b len h = omega (arith, h, leaves-settle w p ks')
after_child-Counted (gone l) w p ks b len h =
    omega (arith, h.2, leaves-settle w p (remove_kid w ks b), leaves-remove_kid w ks b h.0 h.1)

delete_leaf-Counted :
    (lk key : List ℕ) (v d len : ℕ)
    → 1 ≤ len
    → (delete_rec (leaf lk v) key d len).1 + 1
      ≡ len + leaves_maybe (delete_rec (leaf lk v) key d len).0
unfolding delete_rec leaves
delete_leaf-Counted lk key v d len h = elim (Bool-cases (eq_bytes lk key)) [
  | inl e ↦ rw e (omega arith)
  | inr e ↦ rw e refl
]

delete_nil-Counted :
    (b : ℕ) (key : List ℕ) (d len : ℕ) → Counted nil b len (delete_kids nil b key d len)
unfolding Counted delete_kids
delete_nil-Counted b key d len = tt

mutual
  unfolding leaves leaves_kids

  pub leaves-delete_rec :
      (n : Node) (key : List ℕ) (d len : ℕ)
      → leaves n ≤ len
      → (delete_rec n key d len).1 + leaves n ≡ len + leaves_maybe (delete_rec n key d len).0
  leaves-delete_rec (leaf lk v) key d len h = delete_leaf-Counted lk key v d len h
  leaves-delete_rec (inner w p ks) key d len h = elim (Option-cases (next_byte p key d)) [
    | inl e ↦ rw (delete_rec-off w p ks key d len e) refl
    | inr (b, e) ↦
        rw (delete_rec-on w p ks key d len b e) (
          after_child-Counted _ w p ks b len (leaves-delete_kids ks b key (d + length p + 1) len h))
  ]

  leaves-delete_kids :
      (ks : Kids) (b : ℕ) (key : List ℕ) (d len : ℕ)
      → leaves_kids ks ≤ len
      → Counted ks b len (delete_kids ks b key d len)
  leaves-delete_kids nil b key d len h = delete_nil-Counted b key d len
  leaves-delete_kids (kid b' c ks) b key d len h = elim (Bool-cases (b' == b)) [
    | inl e ↦ rw (delete_kids-hit b' c ks b key d len e) (
        Counted-from_child (delete_rec c key d len) b' c ks b len e
          (leaves-delete_rec c key d len (omega arith)))
    | inr e ↦ rw (delete_kids-miss b' c ks b key d len e) (
        Counted-behind (delete_kids ks b key d len) b' c ks b len e
          (leaves-delete_kids ks b key d len (omega arith)))
  ]

-- The count goes down by one exactly where the lookup of the key finds a value.
abbrev pub taken : Option ℕ → ℕ → ℕ
taken none len = len
taken (some v) len = len - 1

abbrev count_of : ℕ → Outcome → ℕ
count_of len absent = len
count_of len (kept ks l) = l
count_of len (gone l) = l

count_of-after_child :
    (o : Outcome) (w : Width) (p : List ℕ) (ks : Kids) (b len : ℕ)
    → (after_child w p ks b len o).1 ≡ count_of len o
unfolding after_child
count_of-after_child absent w p ks b len = refl
count_of-after_child (kept ks' l) w p ks b len = refl
count_of-after_child (gone l) w p ks b len = refl

count_of-behind :
    (o : Outcome) (b : ℕ) (c : Node) (len : ℕ) → count_of len (behind b c o) ≡ count_of len o
count_of-behind absent b c len = refl
count_of-behind (kept ks' l) b c len = refl
count_of-behind (gone l) b c len = refl

count_of-from_child :
    (r : Option Node × ℕ) (b : ℕ) (ks : Kids) (len : ℕ) → count_of len (from_child b ks r) ≡ r.1
count_of-from_child (none, l) b ks len = refl
count_of-from_child (some m, l) b ks len = refl

pub get_kids_lem :
    (b' : ℕ) (c : Node) (ks : Kids) (b : ℕ) (key : List ℕ) (d : ℕ)
    → get_kids (kid b' c ks) b key d ≡ (if b' == b then get_rec c key d else get_kids ks b key d)
unfolding get_kids
get_kids_lem b' c ks b key d = ground arith

pub get_rec-off :
    (w : Width) (p : List ℕ) (ks : Kids) (key : List ℕ) (d : ℕ)
    → next_byte p key d ≡ none
    → get_rec (inner w p ks) key d ≡ none
unfolding get_rec
get_rec-off w p ks key d e = ground arith

pub get_rec-on :
    (w : Width) (p : List ℕ) (ks : Kids) (key : List ℕ) (d b : ℕ)
    → next_byte p key d ≡ some b
    → get_rec (inner w p ks) key d ≡ get_kids ks b key (d + length p + 1)
unfolding get_rec
get_rec-on w p ks key d b e = ground arith

count-leaf :
    (lk key : List ℕ) (v d len : ℕ)
    → (delete_rec (leaf lk v) key d len).1 ≡ taken (get_rec (leaf lk v) key d) len
unfolding get_rec delete_rec
count-leaf lk key v d len = ground arith

count-nil :
    (b : ℕ) (key : List ℕ) (d len : ℕ)
    → count_of len (delete_kids nil b key d len) ≡ taken (get_kids nil b key d) len
unfolding get_kids delete_kids
count-nil b key d len = refl

mutual
  pub count-delete_rec :
      (n : Node) (key : List ℕ) (d len : ℕ)
      → (delete_rec n key d len).1 ≡ taken (get_rec n key d) len
  count-delete_rec (leaf lk v) key d len = count-leaf lk key v d len
  count-delete_rec (inner w p ks) key d len = elim (Option-cases (next_byte p key d)) [
    | inl e ↦ rw (delete_rec-off w p ks key d len e, get_rec-off w p ks key d e) refl
    | inr (b, e) ↦
        rw (delete_rec-on w p ks key d len b e, get_rec-on w p ks key d b e)
          (count_of-after_child _ w p ks b len ∙ count-delete_kids ks b key (d + length p + 1) len)
  ]

  count-delete_kids :
      (ks : Kids) (b : ℕ) (key : List ℕ) (d len : ℕ)
      → count_of len (delete_kids ks b key d len) ≡ taken (get_kids ks b key d) len
  count-delete_kids nil b key d len = count-nil b key d len
  count-delete_kids (kid b' c ks) b key d len = elim (Bool-cases (b' == b)) [
    | inl e ↦
        rw (delete_kids-hit b' c ks b key d len e, get_kids_lem b' c ks b key d, e)
          (count_of-from_child (delete_rec c key d len) b' ks len ∙ count-delete_rec c key d len)
    | inr e ↦
        rw (delete_kids-miss b' c ks b key d len e, get_kids_lem b' c ks b key d, e)
          (count_of-behind (delete_kids ks b key d len) b' c len ∙ count-delete_kids ks b key d len)
  ]
