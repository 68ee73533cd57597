-- ===== src/Art/Sizes.antt =====
-- The count `len` of src/art.rs: what an insertion and a deletion add to it, and the leaves.
use neural_sgdb.Prelude.{
  ℕ, ◌+◌, Option, none, some, List, length, drop, leb, ◌==◌, ◌||◌, ◌≡◌, refl, inl, inr, arith,
  Bool-cases, Option-cases,
}
use neural_sgdb.Prelude.Bytes.{eq_bytes}
use neural_sgdb.Art.{
  Width, w4, w16, w48, w256, Node, leaf, inner, Kids, nil, kid, byte_at, begins, common_prefix,
  add_last, add_at_byte, in_byte_order, add_child, split_leaf, split_prefix, insert_rec,
  insert_kids,
}

unfoldable mutual
  pub leaves : Node → ℕ
  leaves (leaf lk v) = 1
  leaves (inner w p ks) = leaves_kids ks

  pub leaves_kids : Kids → ℕ
  leaves_kids nil = 0
  leaves_kids (kid b c ks) = leaves c + leaves_kids ks

abbrev pub leaves_maybe : Option Node → ℕ
leaves_maybe none = 0
leaves_maybe (some n) = leaves n

leaves-add_last :
    (ks : Kids) (b : ℕ) (c : Node) → leaves_kids (add_last ks b c) ≡ leaves c + leaves_kids ks
unfolding leaves_kids add_last
leaves-add_last nil b c = refl
leaves-add_last (kid b' c' ks) b c = omega (arith, leaves-add_last ks b c)

leaves-add_at_byte :
    (ks : Kids) (b : ℕ) (c : Node) → leaves_kids (add_at_byte b c ks) ≡ leaves c + leaves_kids ks
unfolding leaves_kids add_at_byte
leaves-add_at_byte nil b c = refl
leaves-add_at_byte (kid b' c' ks) b c = ground (arith, leaves-add_at_byte ks b c)

pub leaves-in_byte_order : (ks : Kids) → leaves_kids (in_byte_order ks) ≡ leaves_kids ks
unfolding leaves_kids in_byte_order
leaves-in_byte_order nil = refl
leaves-in_byte_order (kid b c ks) =
    omega (arith, leaves-add_at_byte (in_byte_order ks) b c, leaves-in_byte_order ks)

leaves-add_child :
    (w : Width) (p : List ℕ) (ks : Kids) (b : ℕ) (c : Node)
    → leaves (add_child w p ks b c) ≡ leaves c + leaves_kids ks
unfolding leaves add_child
leaves-add_child w4 p ks b c = ground (arith, leaves-add_last ks b c)
leaves-add_child w16 p ks b c = ground (arith, leaves-add_last ks b c)
leaves-add_child w48 p ks b c = ground (
  arith,
  leaves-add_last ks b c,
  leaves-add_at_byte (in_byte_order ks) b c,
  leaves-in_byte_order ks,
)
leaves-add_child w256 p ks b c = leaves-add_at_byte ks b c

pub leaves-leaf : (key : List ℕ) (v : ℕ) → leaves (leaf key v) ≡ 1
unfolding leaves
leaves-leaf key v = refl

leaves-split_leaf :
    (lk : List ℕ) (u : ℕ) (key : List ℕ) (d v : ℕ) → leaves (split_leaf lk u key d v) ≡ 2
unfolding leaves leaves_kids split_leaf
leaves-split_leaf lk u key d v = refl

leaves-split_prefix :
    (w : Width) (p : List ℕ) (ks : Kids) (key : List ℕ) (d v len : ℕ)
    → (split_prefix w p ks key d v len).1 + leaves_kids ks
      ≡ len + leaves (split_prefix w p ks key d v len).0
unfolding leaves leaves_kids split_prefix
leaves-split_prefix w p ks key d v len =
    let cp = common_prefix p (drop d key) in
    elim (Bool-cases (leb (length p) cp || leb (length (drop d key)) cp)) [
      | inl e ↦ rw e refl
      | inr e ↦ rw e (omega arith)
    ]

mutual
  unfolding insert_rec insert_kids leaves leaves_kids

  pub leaves-insert_rec :
      (n : Node) (key : List ℕ) (d v len : ℕ)
      → (insert_rec n key d v len).1 + leaves n ≡ len + leaves (insert_rec n key d v len).0
  leaves-insert_rec (leaf lk u) key d v len = elim (Bool-cases (eq_bytes lk key)) [
    | inl e ↦ rw e refl
    | inr e ↦ rw e (omega (arith, leaves-split_leaf lk u key d v))
  ]
  leaves-insert_rec (inner w p ks) key d v len = elim (Bool-cases (begins p (drop d key))) [
    | inl e ↦ elim (Option-cases (byte_at key (d + length p))) [
      | inl o ↦ rw (e, o) refl
      | inr (b, o) ↦ elim (Option-cases (insert_kids ks b key (d + length p + 1) v len)) [
        | inl f ↦
            rw (e, o, f) (omega (arith, leaves-add_child w p ks b (leaf key v), leaves-leaf key v))
        | inr ((ks', l), f) ↦
            rw (e, o, f) (leaves-insert_kids ks b key (d + length p + 1) v len ks' l f)
      ]
    ]
    | inr e ↦ rw e (leaves-split_prefix w p ks key d v len)
  ]

  leaves-insert_kids :
      (ks : Kids) (b : ℕ) (key : List ℕ) (d v len : ℕ) (ks' : Kids) (l : ℕ)
      → insert_kids ks b key d v len ≡ some (ks', l)
      → l + leaves_kids ks ≡ len + leaves_kids ks'
  leaves-insert_kids nil b key d v len ks' l e = absurd cc
  leaves-insert_kids (kid b' c ks) b key d v len ks' l e = elim (Bool-cases (b' == b)) [
    | inl f ↦
        let k : ks' ≡ kid b' (insert_rec c key d v len).0 ks = ground (arith, e) in
        let k' : l ≡ (insert_rec c key d v len).1 = ground (arith, e) in
        rw (k, k') (omega (arith, leaves-insert_rec c key d v len))
    | inr f ↦ elim (Option-cases (insert_kids ks b key d v len)) [
      | inl g ↦ absurd (ground (arith, e))
      | inr ((ks'', l'), g) ↦
          let k : ks' ≡ kid b' c ks'' = ground (arith, e) in
          let k' : l ≡ l' = ground (arith, e) in
          rw (k, k') (omega (arith, leaves-insert_kids ks b key d v len ks'' l' g))
    ]
  ]
