-- ===== src/Art/Removal.antt =====
-- `delete_rec` of src/art.rs: a leaf goes, its slot is freed, an empty node goes with it and a node
-- with few children becomes a narrower one.
use neural_sgdb.Prelude.{
  ℕ, ◌+◌, ◌-◌, true, false, Option, none, some, List, length, leb, ◌==◌, if◌then◌else◌,
}
use neural_sgdb.Prelude.Bytes.{eq_bytes}
use neural_sgdb.Art.{
  Width, w4, w16, w48, w256, Node, leaf, inner, Kids, nil, kid, length_kids, next_byte,
  in_byte_order,
}

-- The slots behind a freed one move to the left.
unfoldable pub remove_slot : Kids → ℕ → Kids
remove_slot nil b = nil
remove_slot (kid b' c ks) b = if b' == b then ks else kid b' c (remove_slot ks b)

-- The last child comes first, with its byte.
unfoldable pub last_first : ℕ → Node → Kids → Kids
last_first b c nil = kid b c nil
last_first b c (kid b' c' ks) = elim (last_first b' c' ks) [
  | nil ↦ kid b c nil
  | kid l d rest ↦ kid l d (kid b c rest)
]

abbrev pub fill_hole : Kids → Kids
fill_hole nil = nil
fill_hole (kid b c ks) = last_first b c ks

-- The last child moves into a freed slot.
unfoldable pub swap_remove : Kids → ℕ → Kids
swap_remove nil b = nil
swap_remove (kid b' c ks) b = if b' == b then fill_hole ks else kid b' c (swap_remove ks b)

unfoldable pub remove_kid : Width → Kids → ℕ → Kids
remove_kid w48 ks b = swap_remove ks b
remove_kid w ks b = remove_slot ks b

-- The node that holds what is left: none without a child, a narrower one for few children.
unfoldable pub settle : Width → List ℕ → Kids → Option Node
settle w p nil = none
settle w4 p (kid b c ks) = some (inner w4 p (kid b c ks))
settle w16 p (kid b c ks) =
    some (
      if leb (length_kids (kid b c ks)) 4
      then inner w4 p (kid b c ks)
      else inner w16 p (kid b c ks))
settle w48 p (kid b c ks) = some (
    if leb (length_kids (kid b c ks)) 16
    then inner w16 p (in_byte_order (kid b c ks))
    else inner w48 p (kid b c ks))
settle w256 p (kid b c ks) = some (
    if leb (length_kids (kid b c ks)) 48
    then inner w48 p (kid b c ks)
    else inner w256 p (kid b c ks))

-- The node when no child has the byte: Inner4 and Inner16 return at once.
unfoldable pub settle_absent : Width → List ℕ → Kids → Option Node
settle_absent w4 p ks = some (inner w4 p ks)
settle_absent w16 p ks = some (inner w16 p ks)
settle_absent w p ks = settle w p ks

-- What became of the child of a byte: there was none, it is still there, it is gone.
pub data Outcome : Type 0 where
  absent : Outcome
  kept : Kids → ℕ → Outcome
  gone : ℕ → Outcome

abbrev pub behind : ℕ → Node → Outcome → Outcome
behind b c absent = absent
behind b c (kept ks len) = kept (kid b c ks) len
behind b c (gone len) = gone len

abbrev pub from_child : ℕ → Kids → Option Node × ℕ → Outcome
from_child b ks (none, len) = gone len
from_child b ks (some c, len) = kept (kid b c ks) len

unfoldable pub after_child : Width → List ℕ → Kids → ℕ → ℕ → Outcome → Option Node × ℕ
after_child w p ks b len absent = (settle_absent w p ks, len)
after_child w p ks b len (kept ks' len') = (settle w p ks', len')
after_child w p ks b len (gone len') = (settle w p (remove_kid w ks b), len')

unfoldable mutual
  pub delete_rec : Node → List ℕ → ℕ → ℕ → Option Node × ℕ
  delete_rec (leaf lk v) key depth len =
      if eq_bytes lk key then (none, len - 1) else (some (leaf lk v), len)
  delete_rec (inner w p ks) key depth len = elim (next_byte p key depth) [
    | none ↦ (some (inner w p ks), len)
    | some b ↦ after_child w p ks b len (delete_kids ks b key (depth + length p + 1) len)
  ]

  pub delete_kids : Kids → ℕ → List ℕ → ℕ → ℕ → Outcome
  delete_kids nil b key depth len = absent
  delete_kids (kid b' c ks) b key depth len = elim (b' == b) [
    | true ↦ from_child b' ks (delete_rec c key depth len)
    | false ↦ behind b' c (delete_kids ks b key depth len)
  ]
