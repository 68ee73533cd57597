-- ===== src/Art.antt =====
-- The adaptive radix tree of src/art.rs. The arrays `keys` and `children` of an inner node are the
-- list of its children in slot order, each with its byte: of the first `n` slots for Inner4 and
-- Inner16, of all `n` slots for Inner48, where the array `keys` is the way back from a byte to its
-- slot, and in the order of the bytes for Inner256. The four inner variants are one constructor
-- with a width. A text is the list of its bytes.
use neural_sgdb.Prelude.{
  ℕ, zero, suc, ◌+◌, ◌-◌, Bool, true, false, ◌||◌, Option, none, some, List, [], ◌∷◌, ◌++◌, length,
  take, drop, ltb, leb, ◌==◌, if◌then◌else◌,
}
use neural_sgdb.Prelude.Bytes.{eq_bytes}
mod Removal
mod Index
mod Slots
mod Paths
mod Changes
mod Insertion
mod Wf
mod Reordering
mod Shrinking
mod Growing
mod Deletion
mod Sizes
mod Count
mod Stored
mod Laws
mod Refinement
mod Guard
mod Missed
mod Rows
mod Scan
mod Entries
mod Freedom
mod Pages
mod Runs

-- Which of Inner4, Inner16, Inner48 and Inner256 a node is.
pub data Width : Type 0 where
  w4 w16 w48 w256 : Width

mutual
  pub data Node : Type 0 where
    leaf : List ℕ → ℕ → Node
    inner : Width → List ℕ → Kids → Node

  pub data Kids : Type 0 where
    nil : Kids
    kid : ℕ → Node → Kids → Kids

-- The number `n` of children.
unfoldable pub length_kids : Kids → ℕ
length_kids nil = 0
length_kids (kid b c ks) = suc (length_kids ks)

-- `key[i]`, if `i < key.len()`.
unfoldable pub byte_at : List ℕ → ℕ → Option ℕ
byte_at [] i = none
byte_at (x ∷ xs) zero = some x
byte_at (x ∷ xs) (suc i) = byte_at xs i

abbrev pub byte_or_zero : Option ℕ → ℕ
byte_or_zero none = 0
byte_or_zero (some b) = b

-- `key.starts_with(prefix)`
unfoldable pub begins : List ℕ → List ℕ → Bool
begins [] key = true
begins (x ∷ p) [] = false
begins (x ∷ p) (y ∷ key) = if x == y then begins p key else false

unfoldable pub common_prefix : List ℕ → List ℕ → ℕ
common_prefix [] b = 0
common_prefix (x ∷ a) [] = 0
common_prefix (x ∷ a) (y ∷ b) = if x == y then suc (common_prefix a b) else 0

-- The byte at which the key goes on below a node with this prefix, at `depth` bytes of the key.
unfoldable pub next_byte : List ℕ → List ℕ → ℕ → Option ℕ
next_byte p key depth = if begins p (drop depth key) then byte_at key (depth + length p) else none

unfoldable mutual
  pub get_rec : Node → List ℕ → ℕ → Option ℕ
  get_rec (leaf lk v) key depth = if eq_bytes lk key then some v else none
  get_rec (inner w p ks) key depth = elim (next_byte p key depth) [
    | none ↦ none
    | some b ↦ get_kids ks b key (depth + length p + 1)
  ]

  pub get_kids : Kids → ℕ → List ℕ → ℕ → Option ℕ
  get_kids nil b key depth = none
  get_kids (kid b' c ks) b key depth = elim (b' == b) [
    | true ↦ get_rec c key depth
    | false ↦ get_kids ks b key depth
  ]

-- How many children a width holds.
abbrev pub capacity : Width → ℕ
capacity w4 = 4
capacity w16 = 16
capacity w48 = 48
capacity w256 = 256

abbrev pub wider : Width → Width
wider w4 = w16
wider w16 = w48
wider w48 = w256
wider w256 = w256

-- A child in the slot behind the last.
unfoldable pub add_last : Kids → ℕ → Node → Kids
add_last nil b c = kid b c nil
add_last (kid b' c' ks) b c = kid b' c' (add_last ks b c)

-- A child at the place of its byte.
unfoldable pub add_at_byte : ℕ → Node → Kids → Kids
add_at_byte b c nil = kid b c nil
add_at_byte b c (kid b' c' ks) =
    if ltb b b' then kid b c (kid b' c' ks) else kid b' c' (add_at_byte b c ks)

-- The children as a loop over all bytes meets them.
unfoldable pub in_byte_order : Kids → Kids
in_byte_order nil = nil
in_byte_order (kid b c ks) = add_at_byte b c (in_byte_order ks)

-- A new child for a byte that has none: the node grows if it is full.
unfoldable pub add_child : Width → List ℕ → Kids → ℕ → Node → Node
add_child w256 p ks b c = inner w256 p (add_at_byte b c ks)
add_child w48 p ks b c =
    if ltb (length_kids ks) 48
    then inner w48 p (add_last ks b c)
    else inner w256 p (add_at_byte b c (in_byte_order ks))
add_child w p ks b c =
    if ltb (length_kids ks) (capacity w)
    then inner w p (add_last ks b c)
    else inner (wider w) p (add_last ks b c)

-- The split of a leaf: a node with the common part of the two keys, and both leaves. The slice
-- `lk[depth..]` is out of range where `lk` ends above `depth`, which no tree that satisfies IsWf
-- of Art/Wf.antt reaches.
unfoldable pub split_leaf : List ℕ → ℕ → List ℕ → ℕ → ℕ → Node
split_leaf lk old_v key depth v =
    let cp = common_prefix (drop depth lk) (drop depth key) in
    let b1 = byte_or_zero (byte_at lk (depth + cp)) in
    let b2 = byte_or_zero (byte_at key (depth + cp)) in
    inner w4 (take cp (drop depth lk)) (kid b1 (leaf lk old_v) (kid b2 (leaf key v) nil))

-- Where the key leaves the node's prefix: a parent with the shared part, or the node unchanged if
-- the key ends inside the prefix.
unfoldable pub split_prefix : Width → List ℕ → Kids → List ℕ → ℕ → ℕ → ℕ → Node × ℕ
split_prefix w np ks key depth v len =
    let kr = drop depth key in
    let cp = common_prefix np kr in
    if leb (length np) cp || leb (length kr) cp then (inner w np ks, len) else (
      inner w4 (take cp np) (
          kid (byte_or_zero (byte_at np cp)) (inner w (drop (cp + 1) np) ks)
            (kid (byte_or_zero (byte_at kr cp)) (leaf key v) nil)),
      len + 1,
    )

unfoldable mutual
  pub insert_rec : Node → List ℕ → ℕ → ℕ → ℕ → Node × ℕ
  insert_rec (leaf lk old_v) key depth v len =
      if eq_bytes lk key then (leaf key v, len) else (split_leaf lk old_v key depth v, len + 1)
  insert_rec (inner w p ks) key depth v len =
      if begins p (drop depth key)
      then elim (byte_at key (depth + length p)) [
        | none ↦ (inner w p ks, len)
        | some b ↦ elim (insert_kids ks b key (depth + length p + 1) v len) [
          | some (ks', len') ↦ (inner w p ks', len')
          | none ↦ (add_child w p ks b (leaf key v), len + 1)
        ]
      ]
      else split_prefix w p ks key depth v len

  -- The insertion into the child of a byte, if there is one.
  pub insert_kids : Kids → ℕ → List ℕ → ℕ → ℕ → ℕ → Option (Kids × ℕ)
  insert_kids nil b key depth v len = none
  insert_kids (kid b' c ks) b key depth v len = elim (b' == b) [
    | true ↦ let r = insert_rec c key depth v len in some (kid b' r.0 ks, r.1)
    | false ↦ elim (insert_kids ks b key depth v len) [
      | none ↦ none
      | some (ks', len') ↦ some (kid b' c ks', len')
    ]
  ]
