-- ===== src/Art/Reordering.antt =====
-- The changes of the slots of src/art.rs keep their bytes different and the paths below them, and
-- count as one child more or one child less.
use neural_sgdb.Prelude.{
  ℕ, suc, none, some, List, [], ◌∷◌, ◌++◌, ltb, ◌==◌, ◌≡◌, refl, ap, ◌∙◌, inl, inr, arith,
  Bool-cases,
}
use neural_sgdb.Art.{
  Width, w4, w16, w48, w256, Node, Kids, nil, kid, length_kids, add_last, add_at_byte,
  in_byte_order,
}
use neural_sgdb.Art.Removal.{remove_slot, last_first, swap_remove, remove_kid}
use neural_sgdb.Art.Slots.{
  find_kid, Kids-cases, find_kid-add_last, find_kid-add_at_byte, find_kid-in_byte_order,
  find_kid-remove_slot, find_kid-last_first, find_kid-swap_remove,
}
use neural_sgdb.Art.Wf.{IsNode, IsKids, IsKids-Distinct}

module _ (path : List ℕ) where
  pub IsKids-add_last :
      (ks : Kids) (b : ℕ) (c : Node)
      → IsKids ks path
      → IsNode c (path ++ b ∷ [])
      → find_kid ks b ≡ none
      → IsKids (add_last ks b c) path
  unfolding IsKids add_last find_kid
  IsKids-add_last nil b c h k f = (refl, k, tt)
  IsKids-add_last (kid b' c' ks) b c h k f = (
    ground (arith, find_kid-add_last ks b c b', h.0),
    h.1,
    IsKids-add_last ks b c h.2 k (ground (arith, f)),
  )

  pub IsKids-add_at_byte :
      (ks : Kids) (b : ℕ) (c : Node)
      → IsKids ks path
      → IsNode c (path ++ b ∷ [])
      → find_kid ks b ≡ none
      → IsKids (add_at_byte b c ks) path
  unfolding IsKids add_at_byte find_kid
  IsKids-add_at_byte nil b c h k f = (refl, k, tt)
  IsKids-add_at_byte (kid b' c' ks) b c h k f = elim (Bool-cases (ltb b b')) [
    | inl e ↦ rw e (f, k, h)
    | inr e ↦ rw e (
      ground (arith, find_kid-add_at_byte ks b c b', h.0),
      h.1,
      IsKids-add_at_byte ks b c h.2 k (ground (arith, f)),
    )
  ]

  pub IsKids-in_byte_order : (ks : Kids) → IsKids ks path → IsKids (in_byte_order ks) path
  unfolding IsKids in_byte_order
  IsKids-in_byte_order nil h = tt
  IsKids-in_byte_order (kid b c ks) h =
      IsKids-add_at_byte (in_byte_order ks) b c (IsKids-in_byte_order ks h.2) h.1
        (find_kid-in_byte_order ks b (IsKids-Distinct ks path h.2) ∙ h.0)

  IsKids-remove_slot : (ks : Kids) (b : ℕ) → IsKids ks path → IsKids (remove_slot ks b) path
  unfolding IsKids remove_slot
  IsKids-remove_slot nil b h = tt
  IsKids-remove_slot (kid b' c ks) b h = elim (Bool-cases (b' == b)) [
    | inl e ↦ rw e h.2
    | inr e ↦ rw e (
      ground (arith, find_kid-remove_slot ks b b' (IsKids-Distinct ks path h.2), h.0),
      h.1,
      IsKids-remove_slot ks b h.2,
    )
  ]

  IsKids-last_first :
      (ks : Kids) (b : ℕ) (c : Node) → IsKids (kid b c ks) path → IsKids (last_first b c ks) path
  unfolding IsKids last_first find_kid
  IsKids-last_first nil b c h = h
  IsKids-last_first (kid b' c' ks) b c h =
      let ih : IsKids (last_first b' c' ks) path = IsKids-last_first ks b' c' h.2 in
      let same : (y : ℕ) → find_kid (last_first b' c' ks) y ≡ find_kid (kid b' c' ks) y =
        λ y. find_kid-last_first ks b' c' y h.2.0 (IsKids-Distinct ks path h.2.2) in
      elim (Kids-cases (last_first b' c' ks)) [
        | inl e ↦ rw e (refl, h.1, tt)
        | inr (l, d, rest, e) ↦
            let below : IsKids (kid l d rest) path = rw e at ih in
            rw e (
              ground (arith, h.0, same b, ap (λ o. find_kid o b) e, below.0),
              below.1,
              (ground (arith, h.0, same b, ap (λ o. find_kid o b) e), h.1, below.2),
            )
      ]

  IsKids-swap_remove : (ks : Kids) (b : ℕ) → IsKids ks path → IsKids (swap_remove ks b) path
  unfolding IsKids swap_remove find_kid
  IsKids-swap_remove nil b h = tt
  IsKids-swap_remove (kid b' c nil) b h = elim (Bool-cases (b' == b)) [
    | inl e ↦ rw e tt
    | inr e ↦ rw e h
  ]
  IsKids-swap_remove (kid b' c (kid b'' c' ks)) b h = elim (Bool-cases (b' == b)) [
    | inl e ↦ rw e (IsKids-last_first ks b'' c' h.2)
    | inr e ↦
        let less =
          find_kid-swap_remove (kid b'' c' ks) b b' (IsKids-Distinct (kid b'' c' ks) path h.2) in
        rw e (ground (arith, less, h.0), h.1, IsKids-swap_remove (kid b'' c' ks) b h.2)
  ]

  pub IsKids-remove_kid :
      (w : Width) (ks : Kids) (b : ℕ) → IsKids ks path → IsKids (remove_kid w ks b) path
  unfolding remove_kid
  IsKids-remove_kid w4 ks b h = IsKids-remove_slot ks b h
  IsKids-remove_kid w16 ks b h = IsKids-remove_slot ks b h
  IsKids-remove_kid w48 ks b h = IsKids-swap_remove ks b h
  IsKids-remove_kid w256 ks b h = IsKids-remove_slot ks b h

pub length_kids-add_last :
    (ks : Kids) (b : ℕ) (c : Node) → length_kids (add_last ks b c) ≡ suc (length_kids ks)
unfolding length_kids add_last
length_kids-add_last nil b c = refl
length_kids-add_last (kid b' c' ks) b c = ap suc (length_kids-add_last ks b c)

pub length_kids-add_at_byte :
    (ks : Kids) (b : ℕ) (c : Node) → length_kids (add_at_byte b c ks) ≡ suc (length_kids ks)
unfolding length_kids add_at_byte
length_kids-add_at_byte nil b c = refl
length_kids-add_at_byte (kid b' c' ks) b c = ground (arith, length_kids-add_at_byte ks b c)

pub length_kids-in_byte_order : (ks : Kids) → length_kids (in_byte_order ks) ≡ length_kids ks
unfolding length_kids in_byte_order
length_kids-in_byte_order nil = refl
length_kids-in_byte_order (kid b c ks) =
    length_kids-add_at_byte (in_byte_order ks) b c ∙ ap suc (length_kids-in_byte_order ks)

length_kids-remove_slot :
    (ks : Kids) (b : ℕ) (c : Node)
    → find_kid ks b ≡ some c
    → length_kids ks ≡ suc (length_kids (remove_slot ks b))
unfolding length_kids remove_slot find_kid
length_kids-remove_slot nil b c h = absurd cc
length_kids-remove_slot (kid b' c' ks) b c h = ground (arith, length_kids-remove_slot ks b c)

length_kids-last_first :
    (ks : Kids) (b : ℕ) (c : Node) → length_kids (last_first b c ks) ≡ suc (length_kids ks)
unfolding length_kids last_first
length_kids-last_first nil b c = refl
length_kids-last_first (kid b' c' ks) b c = elim (Kids-cases (last_first b' c' ks)) [
  | inl e ↦ rw e (ground (arith, length_kids-last_first ks b' c', ap length_kids e))
  | inr (l, d, rest, e) ↦ rw e (ground (arith, length_kids-last_first ks b' c', ap length_kids e))
]

length_kids-swap_remove :
    (ks : Kids) (b : ℕ) (c : Node)
    → find_kid ks b ≡ some c
    → length_kids ks ≡ suc (length_kids (swap_remove ks b))
unfolding length_kids swap_remove find_kid
length_kids-swap_remove nil b c h = absurd cc
length_kids-swap_remove (kid b' c' nil) b c h = ground arith
length_kids-swap_remove (kid b' c' (kid b'' c'' ks)) b c h =
    ground (arith, length_kids-last_first ks b'' c'', length_kids-swap_remove (kid b'' c'' ks) b c)

pub length_kids-remove_kid :
    (w : Width) (ks : Kids) (b : ℕ) (c : Node)
    → find_kid ks b ≡ some c
    → length_kids ks ≡ suc (length_kids (remove_kid w ks b))
unfolding remove_kid
length_kids-remove_kid w4 ks b c h = length_kids-remove_slot ks b c h
length_kids-remove_kid w16 ks b c h = length_kids-remove_slot ks b c h
length_kids-remove_kid w48 ks b c h = length_kids-swap_remove ks b c h
length_kids-remove_kid w256 ks b c h = length_kids-remove_slot ks b c h
