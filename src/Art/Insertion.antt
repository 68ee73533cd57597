-- ===== src/Art/Insertion.antt =====
-- What `insert_rec` of src/art.rs does to the lookups below a node.
use neural_sgdb.Prelude.{
  ℕ, ◌+◌, true, false, none, some, List, [], ◌∷◌, ◌++◌, length, drop, ◌==◌, ◌≡◌, refl, inl, inr,
  ◌⊎◌, arith, Bool-cases, Option-cases,
}
use neural_sgdb.Prelude.Bytes.{eq_bytes, eq_bytes→eq}
use neural_sgdb.Art.{
  Node, leaf, inner, Kids, nil, kid, byte_at, begins, get_rec, insert_rec, insert_kids,
}
use neural_sgdb.Art.Paths.{byte_after, byte_after-byte_at}
use neural_sgdb.Art.Slots.{find_kid}
use neural_sgdb.Art.Wf.{IsNode, IsKids, IsKids-Distinct}
use neural_sgdb.Art.Changes.{
  Parts, with_value, Updates, get-Updates, get-add_leaf, get-split_leaf, get-split_prefix,
}

-- Where the key ends above a node, or the text of a leaf does, `insert_rec` has no place for it. A
-- node has room for a key if that happens nowhere on the key's way.
unfoldable mutual
  pub Room : Node → List ℕ → ℕ → Type 0
  Room (leaf lk v) key d = (eq_bytes lk key ≡ true) ⊎ Parts (drop d lk) (drop d key)
  Room (inner w p ks) key d =
      (begins p (drop d key) ≡ true
        → (b : ℕ) × (byte_at key (d + length p) ≡ some b) × RoomBelow ks b key (d + length p + 1))
      × (begins p (drop d key) ≡ false → Parts p (drop d key))

  pub RoomBelow : Kids → ℕ → List ℕ → ℕ → Type 0
  RoomBelow nil b key d = Unit
  RoomBelow (kid b' c ks) b key d =
      ((b' == b) ≡ true → Room c key d) × ((b' == b) ≡ false → RoomBelow ks b key d)

pub insert_kids-none :
    (ks : Kids) (b : ℕ) (key : List ℕ) (d v len : ℕ)
    → insert_kids ks b key d v len ≡ none
    → find_kid ks b ≡ none
unfolding insert_kids find_kid
insert_kids-none nil b key d v len h = refl
insert_kids-none (kid b' c ks) b key d v len h = ground (arith, insert_kids-none ks b key d v len)

with_value-leaf :
    (lk key j : List ℕ) (u v d : ℕ)
    → eq_bytes lk key ≡ true
    → get_rec (leaf key v) j d ≡ with_value key v j (get_rec (leaf lk u) j d)
unfolding get_rec
with_value-leaf lk key j u v d e = ground (arith, eq_bytes→eq lk key e)

mutual
  unfolding Room RoomBelow IsNode IsKids insert_rec insert_kids Updates find_kid

  pub get-insert_rec :
      (n : Node) (path key : List ℕ) (d v len : ℕ) (j : List ℕ)
      → IsNode n path
      → Room n key d
      → get_rec (insert_rec n key d v len).0 j d ≡ with_value key v j (get_rec n j d)
  get-insert_rec (leaf lk u) path key d v len j h r = elim (Bool-cases (eq_bytes lk key)) [
    | inl e ↦ rw e (with_value-leaf lk key j u v d e)
    | inr e ↦ rw e (get-split_leaf lk u key d v j (elim r [ inl f ↦ absurd cc | inr h ↦ h ]))
  ]
  get-insert_rec (inner w p ks) path key d v len j h r = elim (Bool-cases (begins p (drop d key))) [
    | inl e ↦
        let (b, o, room) = r.0 e in
        let own : byte_after p (drop d key) ≡ some b = byte_after-byte_at p key d b e o in
        elim (Option-cases (insert_kids ks b key (d + length p + 1) v len)) [
          | inl f ↦
              let free = insert_kids-none ks b key (d + length p + 1) v len f in
              rw (e, o, f)
                (get-add_leaf w p ks b key v j d own free (IsKids-Distinct ks (path ++ p) h.1))
          | inr ((ks', l), f) ↦
              rw (e, o, f)
                (get-Updates w p ks ks' b key v j d own (
                  get-insert_kids ks (path ++ p) b key (d + length p + 1) v len j ks' l h.1 room f))
        ]
    | inr e ↦ rw e (get-split_prefix w p ks key d v len j (r.1 e))
  ]

  get-insert_kids :
      (ks : Kids) (path : List ℕ) (b : ℕ) (key : List ℕ) (d v len : ℕ) (j : List ℕ) (ks' : Kids)
      (len' : ℕ)
      → IsKids ks path
      → RoomBelow ks b key d
      → insert_kids ks b key d v len ≡ some (ks', len')
      → Updates ks ks' b key v j d
  get-insert_kids nil path b key d v len j ks' len' h r e = absurd cc
  get-insert_kids (kid b' c ks) path b key d v len j ks' len' h r e = elim (Bool-cases (b' == b)) [
    | inl f ↦ λ x own.
        let k : ks' ≡ kid b' (insert_rec c key d v len).0 ks = ground (arith, e) in
        rw k (ground (arith, get-insert_rec c (path ++ b' ∷ []) key d v len j h.1 (r.0 f)))
    | inr f ↦ elim (Option-cases (insert_kids ks b key d v len)) [
      | inl g ↦ λ x own. ground (arith, e)
      | inr ((ks'', l), g) ↦ λ x own.
          let k : ks' ≡ kid b' c ks'' = ground (arith, e) in
          rw k (ground (arith, get-insert_kids ks path b key d v len j ks'' l h.2 (r.1 f) g x))
    ]
  ]
