-- ===== src/Art/Shrinking.antt =====
-- `delete_rec` of src/art.rs leaves a well-formed node, or none.
use neural_sgdb.Prelude.{
  ℕ, suc, ◌+◌, true, false, Option, none, some, List, [], ◌∷◌, ◌++◌, length, leb, ◌==◌, ◌≡◌, refl,
  ap, inl, inr, ◌⊎◌, arith, Bool-cases, Option-cases,
}
use neural_sgdb.Prelude.Bytes.{eq_bytes}
use neural_sgdb.Art.{
  Width, w4, w16, w48, w256, Node, leaf, inner, Kids, nil, kid, length_kids, next_byte,
}
use neural_sgdb.Art.Removal.{
  Outcome, absent, kept, gone, behind, from_child, after_child, settle, settle_absent, remove_kid,
  delete_rec, delete_kids,
}
use neural_sgdb.Art.Slots.{find_kid}
use neural_sgdb.Art.Wf.{fits, IsNode, IsKids}
use neural_sgdb.Art.Reordering.{
  IsKids-in_byte_order, IsKids-remove_kid, length_kids-in_byte_order, length_kids-remove_kid,
}

abbrev pub IsMaybe : Option Node → List ℕ → Type 0
IsMaybe none path = Unit
IsMaybe (some n) path = IsNode n path

settle-IsMaybe :
    (w : Width) (p path : List ℕ) (ks : Kids)
    → IsKids ks (path ++ p)
    → (fits w (length_kids ks) ≡ true) ⊎ (fits w (suc (length_kids ks)) ≡ true)
    → IsMaybe (settle w p ks) path
unfolding settle IsNode length_kids
settle-IsMaybe w p path nil h f = tt
settle-IsMaybe w4 p path (kid b c ks) h f = (ground arith, h)
settle-IsMaybe w16 p path (kid b c ks) h f = elim (Bool-cases (leb (length_kids (kid b c ks)) 4)) [
  | inl e ↦ rw e (ground arith, h)
  | inr e ↦ rw e (ground arith, h)
]
settle-IsMaybe w48 p path (kid b c ks) h f =
    let same = length_kids-in_byte_order (kid b c ks) in
    elim (Bool-cases (leb (length_kids (kid b c ks)) 16)) [
      | inl e ↦ rw e (ground (arith, same), IsKids-in_byte_order (path ++ p) (kid b c ks) h)
      | inr e ↦ rw e (ground arith, h)
    ]
settle-IsMaybe w256 p path (kid b c ks) h f =
    elim (Bool-cases (leb (length_kids (kid b c ks)) 48)) [
      | inl e ↦ rw e (ground arith, h)
      | inr e ↦ rw e (ground arith, h)
    ]

settle_absent-IsMaybe :
    (w : Width) (p path : List ℕ) (ks : Kids)
    → IsKids ks (path ++ p)
    → fits w (length_kids ks) ≡ true
    → IsMaybe (settle_absent w p ks) path
unfolding settle_absent IsNode
settle_absent-IsMaybe w4 p path ks h f = (f, h)
settle_absent-IsMaybe w16 p path ks h f = (f, h)
settle_absent-IsMaybe w48 p path ks h f = settle-IsMaybe w48 p path ks h (inl f)
settle_absent-IsMaybe w256 p path ks h f = settle-IsMaybe w256 p path ks h (inl f)

-- What an outcome says of the slots.
unfoldable pub Kept : Kids → ℕ → List ℕ → Outcome → Type 0
Kept ks b path absent = find_kid ks b ≡ none
Kept ks b path (kept ks' len) =
    IsKids ks' path
    × (length_kids ks' ≡ length_kids ks)
    × ((x : ℕ) → find_kid ks x ≡ none → find_kid ks' x ≡ none)
Kept ks b path (gone len) = (c : Node) × (find_kid ks b ≡ some c)

behind-Kept :
    (o : Outcome) (b' : ℕ) (c : Node) (ks : Kids) (b : ℕ) (path : List ℕ)
    → (b' == b) ≡ false
    → IsKids (kid b' c ks) path
    → Kept ks b path o
    → Kept (kid b' c ks) b path (behind b' c o)
unfolding Kept find_kid IsKids length_kids
behind-Kept absent b' c ks b path e f h = rw e h
behind-Kept (kept ks' len) b' c ks b path e f h =
    ((h.2 b' f.0, f.1, h.0), ap suc h.1, λ x free. ground (arith, h.2 x))
behind-Kept (gone len) b' c ks b path e f h = (h.0, rw e h.1)

from_child-Kept :
    (r : Option Node × ℕ) (b' : ℕ) (c : Node) (ks : Kids) (b : ℕ) (path : List ℕ)
    → (b' == b) ≡ true
    → IsKids (kid b' c ks) path
    → IsMaybe r.0 (path ++ b' ∷ [])
    → Kept (kid b' c ks) b path (from_child b' ks r)
unfolding Kept find_kid IsKids length_kids
from_child-Kept (none, l) b' c ks b path e f h = (c, rw e refl)
from_child-Kept (some m, l) b' c ks b path e f h = ((f.0, h, f.2), refl, λ x free. ground arith)

after_child-IsMaybe :
    (o : Outcome) (w : Width) (p path : List ℕ) (ks : Kids) (b len : ℕ)
    → IsKids ks (path ++ p)
    → fits w (length_kids ks) ≡ true
    → Kept ks b (path ++ p) o
    → IsMaybe (after_child w p ks b len o).0 path
unfolding after_child Kept
after_child-IsMaybe absent w p path ks b len h f k = settle_absent-IsMaybe w p path ks h f
after_child-IsMaybe (kept ks' l) w p path ks b len h f k =
    settle-IsMaybe w p path ks' k.0 (inl (rw k.1 f))
after_child-IsMaybe (gone l) w p path ks b len h f k =
    settle-IsMaybe w p path (remove_kid w ks b) (IsKids-remove_kid (path ++ p) w ks b h)
      (inr (rw (← length_kids-remove_kid w ks b k.0 k.1) f))

delete_nil-Kept :
    (b : ℕ) (path key : List ℕ) (d len : ℕ) → Kept nil b path (delete_kids nil b key d len)
unfolding Kept delete_kids find_kid
delete_nil-Kept b path key d len = refl

delete_leaf-IsMaybe :
    (lk path key : List ℕ) (v d len : ℕ)
    → IsNode (leaf lk v) path
    → IsMaybe (delete_rec (leaf lk v) key d len).0 path
unfolding delete_rec
delete_leaf-IsMaybe lk path key v d len h = elim (Bool-cases (eq_bytes lk key)) [
  | inl e ↦ rw e tt
  | inr e ↦ rw e h
]

-- The recursion, one equation for each way it goes.
pub delete_kids-hit :
    (b' : ℕ) (c : Node) (ks : Kids) (b : ℕ) (key : List ℕ) (d len : ℕ)
    → (b' == b) ≡ true
    → delete_kids (kid b' c ks) b key d len ≡ from_child b' ks (delete_rec c key d len)
unfolding delete_kids
delete_kids-hit b' c ks b key d len e = ground arith

pub delete_kids-miss :
    (b' : ℕ) (c : Node) (ks : Kids) (b : ℕ) (key : List ℕ) (d len : ℕ)
    → (b' == b) ≡ false
    → delete_kids (kid b' c ks) b key d len ≡ behind b' c (delete_kids ks b key d len)
unfolding delete_kids
delete_kids-miss b' c ks b key d len e = ground arith

pub delete_rec-off :
    (w : Width) (p : List ℕ) (ks : Kids) (key : List ℕ) (d len : ℕ)
    → next_byte p key d ≡ none
    → delete_rec (inner w p ks) key d len ≡ (some (inner w p ks), len)
unfolding delete_rec
delete_rec-off w p ks key d len e = ground arith

pub delete_rec-on :
    (w : Width) (p : List ℕ) (ks : Kids) (key : List ℕ) (d len b : ℕ)
    → next_byte p key d ≡ some b
    → delete_rec (inner w p ks) key d len
      ≡ after_child w p ks b len (delete_kids ks b key (d + length p + 1) len)
unfolding delete_rec
delete_rec-on w p ks key d len b e = ground arith

mutual
  unfolding IsNode IsKids

  pub delete_rec-IsMaybe :
      (n : Node) (path key : List ℕ) (d len : ℕ)
      → IsNode n path
      → IsMaybe (delete_rec n key d len).0 path
  delete_rec-IsMaybe (leaf lk v) path key d len h = delete_leaf-IsMaybe lk path key v d len h
  delete_rec-IsMaybe (inner w p ks) path key d len h = elim (Option-cases (next_byte p key d)) [
    | inl e ↦ rw (delete_rec-off w p ks key d len e) h
    | inr (b, e) ↦ rw (delete_rec-on w p ks key d len b e) (
        after_child-IsMaybe _ w p path ks b len h.1 h.0
          (delete_kids-Kept ks (path ++ p) b key (d + length p + 1) len h.1))
  ]

  pub delete_kids-Kept :
      (ks : Kids) (path : List ℕ) (b : ℕ) (key : List ℕ) (d len : ℕ)
      → IsKids ks path
      → Kept ks b path (delete_kids ks b key d len)
  delete_kids-Kept nil path b key d len h = delete_nil-Kept b path key d len
  delete_kids-Kept (kid b' c ks) path b key d len h = elim (Bool-cases (b' == b)) [
    | inl e ↦ rw (delete_kids-hit b' c ks b key d len e) (
        from_child-Kept (delete_rec c key d len) b' c ks b path e h
          (delete_rec-IsMaybe c (path ++ b' ∷ []) key d len h.1))
    | inr e ↦ rw (delete_kids-miss b' c ks b key d len e) (
        behind-Kept (delete_kids ks b key d len) b' c ks b path e h
          (delete_kids-Kept ks path b key d len h.2))
  ]
