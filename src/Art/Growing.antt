-- ===== src/Art/Growing.antt =====
-- `insert_rec` of src/art.rs leaves a well-formed node.
use neural_sgdb.Prelude.{
  ℕ, suc, ◌+◌, true, false, none, some, List, [], ◌∷◌, ◌++◌, length, length-append, take, drop, ltb,
  ◌==◌, ◌≡◌, refl, sym, ap, ◌∙◌, inl, inr, arith, Bool-cases, Option-cases, append_assoc,
  gt→not_leb,
}
use neural_sgdb.Prelude.Bytes.{eq_bytes}
use neural_sgdb.Art.{
  Width, w4, w16, w48, w256, Node, leaf, inner, Kids, nil, kid, length_kids, byte_at, byte_or_zero,
  begins, common_prefix, in_byte_order, add_child, split_leaf, split_prefix, insert_rec,
  insert_kids,
}
use neural_sgdb.Art.Paths.{
  byte_at-drop, begins-append, begins_own_byte, byte_after-append, byte_after-byte_at, around,
  take-common_prefix, byte_at-common_prefix,
}
use neural_sgdb.Art.Slots.{find_kid, find_kid-in_byte_order}
use neural_sgdb.Art.Wf.{IsNode, IsKids, IsKids-Distinct}
use neural_sgdb.Art.Reordering.{
  IsKids-add_last, IsKids-add_at_byte, IsKids-in_byte_order, length_kids-add_last,
  length_kids-add_at_byte, length_kids-in_byte_order,
}
use neural_sgdb.Art.Changes.{Parts}
use neural_sgdb.Art.Insertion.{Room, RoomBelow, insert_kids-none}

-- A key that goes on with a part and a byte begins with the path, the part and the byte.
begins_deeper :
    (path s r key : List ℕ) (x : ℕ)
    → begins path key ≡ true
    → drop (length path) key ≡ s ++ x ∷ r
    → begins ((path ++ s) ++ x ∷ []) key ≡ true
begins_deeper path s r key x on e =
    let whole : key ≡ (path ++ s) ++ x ∷ r =
      begins-append path key on ∙ ap (λ l. path ++ l) e ∙ sym (append_assoc path s (x ∷ r)) in
    rw whole (begins_own_byte (path ++ s) r x)

fork-IsNode :
    (s path : List ℕ) (x y : ℕ) (m n : Node)
    → (x == y) ≡ false
    → IsNode m ((path ++ s) ++ x ∷ [])
    → IsNode n ((path ++ s) ++ y ∷ [])
    → IsNode (inner w4 s (kid x m (kid y n nil))) path
unfolding IsNode IsKids find_kid length_kids
fork-IsNode s path x y m n new hm hn = (refl, (ground arith, hm, (refl, hn, tt)))

split_leaf-IsNode :
    (lk path key : List ℕ) (u v : ℕ)
    → begins path lk ≡ true
    → begins path key ≡ true
    → Parts (drop (length path) lk) (drop (length path) key)
    → IsNode (split_leaf lk u key (length path) v) path
unfolding split_leaf IsNode
split_leaf-IsNode lk path key u v hl hk h =
    let d = length path in
    let a = drop d lk in
    let b = drop d key in
    let cp = common_prefix a b in
    let eb : b ≡ take cp a ++ byte_or_zero (byte_at b cp) ∷ drop (suc cp) b =
      rw (take-common_prefix a b) (around cp b h.1) in
    rw (byte_at-drop d cp lk, byte_at-drop d cp key)
      (fork-IsNode (take cp a) path _ _ (leaf lk u) (leaf key v) (byte_at-common_prefix a b h.0 h.1)
        (begins_deeper path (take cp a) _ lk _ hl (around cp a h.0))
        (begins_deeper path (take cp a) _ key _ hk eb))

split_prefix-IsNode :
    (w : Width) (p : List ℕ) (ks : Kids) (path key : List ℕ) (v len : ℕ)
    → IsNode (inner w p ks) path
    → begins path key ≡ true
    → Parts p (drop (length path) key)
    → IsNode (split_prefix w p ks key (length path) v len).0 path
unfolding split_prefix IsNode
split_prefix-IsNode w p ks path key v len wf hk h =
    let b = drop (length path) key in
    let cp = common_prefix p b in
    let s = take cp p in
    let x = byte_or_zero (byte_at p cp) in
    let r = drop (suc cp) p in
    let eb : b ≡ s ++ byte_or_zero (byte_at b cp) ∷ drop (suc cp) b =
      rw (take-common_prefix p b) (around cp b h.1) in
    let one : cp + 1 ≡ suc cp = omega arith in
    let same : ((path ++ s) ++ x ∷ []) ++ r ≡ path ++ p =
      append_assoc (path ++ s) (x ∷ []) r
      ∙ append_assoc path s (x ∷ r)
      ∙ ap (λ l. path ++ l) (sym (around cp p h.0)) in
    rw (gt→not_leb (length p) cp h.0, gt→not_leb (length b) cp h.1, one)
      (fork-IsNode s path x _ (inner w r ks) (leaf key v) (byte_at-common_prefix p b h.0 h.1)
        (wf.0, rw same wf.1) (begins_deeper path s _ key _ hk eb))

add_child-IsNode :
    (w : Width) (p : List ℕ) (ks : Kids) (b : ℕ) (c : Node) (path : List ℕ)
    → IsNode (inner w p ks) path
    → IsNode c ((path ++ p) ++ b ∷ [])
    → find_kid ks b ≡ none
    → IsNode (add_child w p ks b c) path
unfolding add_child IsNode
add_child-IsNode w4 p ks b c path wf h free =
    let more = length_kids-add_last ks b c in
    let shape = IsKids-add_last (path ++ p) ks b c wf.1 h free in
    elim (Bool-cases (ltb (length_kids ks) 4)) [
      | inl e ↦ rw e (ground (arith, more, wf.0), shape)
      | inr e ↦ rw e (ground (arith, more, wf.0), shape)
    ]
add_child-IsNode w16 p ks b c path wf h free =
    let more = length_kids-add_last ks b c in
    let shape = IsKids-add_last (path ++ p) ks b c wf.1 h free in
    elim (Bool-cases (ltb (length_kids ks) 16)) [
      | inl e ↦ rw e (ground (arith, more, wf.0), shape)
      | inr e ↦ rw e (ground (arith, more, wf.0), shape)
    ]
add_child-IsNode w48 p ks b c path wf h free =
    let more = length_kids-add_last ks b c in
    let sorted = in_byte_order ks in
    let more' = length_kids-add_at_byte sorted b c ∙ ap suc (length_kids-in_byte_order ks) in
    elim (Bool-cases (ltb (length_kids ks) 48)) [
      | inl e ↦ rw e (ground (arith, more, wf.0), IsKids-add_last (path ++ p) ks b c wf.1 h free)
      | inr e ↦ rw e (
        ground (arith, more', wf.0),
        IsKids-add_at_byte (path ++ p) sorted b c (IsKids-in_byte_order (path ++ p) ks wf.1) h
            (find_kid-in_byte_order ks b (IsKids-Distinct ks (path ++ p) wf.1) ∙ free),
      )
    ]
add_child-IsNode w256 p ks b c path wf h free = (
  ground (arith, length_kids-add_at_byte ks b c, wf.0),
  IsKids-add_at_byte (path ++ p) ks b c wf.1 h free,
)

insert_leaf-IsNode :
    (lk path key : List ℕ) (u v len : ℕ)
    → begins path lk ≡ true
    → begins path key ≡ true
    → Room (leaf lk u) key (length path)
    → IsNode (insert_rec (leaf lk u) key (length path) v len).0 path
unfolding insert_rec Room IsNode
insert_leaf-IsNode lk path key u v len hl hk room = elim (Bool-cases (eq_bytes lk key)) [
  | inl e ↦ rw e hk
  | inr e ↦
      rw e (split_leaf-IsNode lk path key u v hl hk (elim room [ inl f ↦ absurd cc | inr h ↦ h ]))
]

-- The slots after an insertion into the child of a byte.
abbrev Grown : Kids → List ℕ → Kids → Type 0
Grown ks path ks' =
    IsKids ks' path
    × (length_kids ks' ≡ length_kids ks)
    × ((x : ℕ) → find_kid ks x ≡ none → find_kid ks' x ≡ none)

mutual
  unfolding Room RoomBelow IsNode IsKids insert_rec insert_kids find_kid length_kids

  pub insert_rec-IsNode :
      (n : Node) (path key : List ℕ) (v len : ℕ)
      → IsNode n path
      → begins path key ≡ true
      → Room n key (length path)
      → IsNode (insert_rec n key (length path) v len).0 path
  insert_rec-IsNode (leaf lk u) path key v len h on room =
      insert_leaf-IsNode lk path key u v len h on room
  insert_rec-IsNode (inner w p ks) path key v len h on room =
      let d = length path in
      elim (Bool-cases (begins p (drop d key))) [
        | inl e ↦
            let (b, o, room') = room.0 e in
            let rest = byte_after-append p (drop d key) b (byte_after-byte_at p key d b e o) in
            let deeper = begins_deeper path p _ key b on rest in
            let deep : length (path ++ p) + 1 ≡ d + length p + 1 =
              omega (arith, length-append path p) in
            elim (Option-cases (insert_kids ks b key (d + length p + 1) v len)) [
              | inl f ↦
                  rw (e, o, f)
                    (add_child-IsNode w p ks b (leaf key v) path h deeper
                      (insert_kids-none ks b key (d + length p + 1) v len f))
              | inr ((ks', l), f) ↦
                  let grown : Grown ks (path ++ p) ks' =
                    insert_kids-Grown ks (path ++ p) b key v len ks' l h.1 deeper (rw deep room')
                      (rw deep f) in
                  rw (e, o, f) (rw grown.1 h.0, grown.0)
            ]
        | inr e ↦ rw e (split_prefix-IsNode w p ks path key v len h on (room.1 e))
      ]

  insert_kids-Grown :
      (ks : Kids) (path : List ℕ) (b : ℕ) (key : List ℕ) (v len : ℕ) (ks' : Kids) (l : ℕ)
      → IsKids ks path
      → begins (path ++ b ∷ []) key ≡ true
      → RoomBelow ks b key (length path + 1)
      → insert_kids ks b key (length path + 1) v len ≡ some (ks', l)
      → Grown ks path ks'
  insert_kids-Grown nil path b key v len ks' l h on room e = absurd cc
  insert_kids-Grown (kid b' c ks) path b key v len ks' l h on room e =
      let d = length path + 1 in
      elim (Bool-cases (b' == b)) [
        | inl f ↦
            let k : ks' ≡ kid b' (insert_rec c key d v len).0 ks = ground (arith, e) in
            let here : b' ≡ b = ground (arith, f) in
            let deep : length (path ++ b' ∷ []) ≡ length path + 1 = length-append path (b' ∷ []) in
            let ih =
              insert_rec-IsNode c (path ++ b' ∷ []) key v len h.1 (rw here on)
                (rw deep (room.0 f)) in
            rw k ((h.0, rw (← deep) ih, h.2), refl, λ x free. ground arith)
        | inr f ↦ elim (Option-cases (insert_kids ks b key d v len)) [
          | inl g ↦ absurd (ground (arith, e))
          | inr ((ks'', l'), g) ↦
              let k : ks' ≡ kid b' c ks'' = ground (arith, e) in
              let ih = insert_kids-Grown ks path b key v len ks'' l' h.2 on (room.1 f) g in
              rw k ((ih.2 b' h.0, h.1, ih.0), ap suc ih.1, λ x free. ground (arith, ih.2 x))
        ]
      ]
