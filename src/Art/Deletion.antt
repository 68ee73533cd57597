-- ===== src/Art/Deletion.antt =====
-- What `delete_rec` of src/art.rs does to the lookups below a node.
use neural_sgdb.Prelude.{
  ℕ, ◌+◌, true, false, Option, none, some, List, [], ◌∷◌, ◌++◌, length, drop, leb, ◌==◌,
  if◌then◌else◌, ◌≡◌, refl, sym, ap, ◌∙◌, inl, inr, arith, Bool-cases, Option-cases,
}
use neural_sgdb.Prelude.Bytes.{eq_bytes, eq_bytes→eq}
use neural_sgdb.Art.{
  Width, w4, w16, w48, w256, Node, leaf, inner, Kids, nil, kid, length_kids, next_byte,
  in_byte_order, get_rec,
}
use neural_sgdb.Art.Removal.{
  Outcome, absent, kept, gone, behind, from_child, after_child, settle, settle_absent, remove_kid,
  delete_rec, delete_kids,
}
use neural_sgdb.Art.Paths.{byte_after, next_byte-byte_after}
use neural_sgdb.Art.Slots.{
  find_kid, Distinct, get_found, get_below, get_rec-inner, find_kid-in_byte_order,
  find_kid-remove_slot, find_kid-swap_remove,
}
use neural_sgdb.Art.Reordering.{IsKids-remove_kid}
use neural_sgdb.Art.Shrinking.{
  Kept, delete_kids-Kept, delete_rec-off, delete_rec-on, delete_kids-hit, delete_kids-miss,
}
use neural_sgdb.Art.Wf.{IsNode, IsKids, IsKids-Distinct}

-- The lookup of `j` when `key` has no value and all else is as in `o`.
abbrev pub without : List ℕ → List ℕ → Option ℕ → Option ℕ
without key j o = if eq_bytes key j then none else o

find_kid-remove_kid :
    (w : Width) (ks : Kids) (b x : ℕ)
    → Distinct ks
    → find_kid (remove_kid w ks b) x ≡ (if b == x then none else find_kid ks x)
unfolding remove_kid
find_kid-remove_kid w4 ks b x h = find_kid-remove_slot ks b x h
find_kid-remove_kid w16 ks b x h = find_kid-remove_slot ks b x h
find_kid-remove_kid w48 ks b x h = find_kid-swap_remove ks b x h
find_kid-remove_kid w256 ks b x h = find_kid-remove_slot ks b x h

get_below-nil : (o : Option ℕ) (j : List ℕ) (d : ℕ) → get_below o nil j d ≡ none
unfolding find_kid
get_below-nil none j d = refl
get_below-nil (some x) j d = refl

get_below-in_byte_order :
    (o : Option ℕ) (ks : Kids) (j : List ℕ) (d : ℕ)
    → Distinct ks
    → get_below o (in_byte_order ks) j d ≡ get_below o ks j d
get_below-in_byte_order none ks j d h = refl
get_below-in_byte_order (some x) ks j d h = rw (find_kid-in_byte_order ks x h) refl

-- A node of another width, or none, answers the same.
get-settle :
    (w : Width) (p : List ℕ) (ks : Kids) (j : List ℕ) (d : ℕ)
    → Distinct ks
    → get_found (settle w p ks) j d ≡ get_below (byte_after p (drop d j)) ks j (d + length p + 1)
unfolding settle
get-settle w p nil j d h = sym (get_below-nil (byte_after p (drop d j)) j (d + length p + 1))
get-settle w4 p (kid b c ks) j d h = get_rec-inner w4 p (kid b c ks) j d
get-settle w16 p (kid b c ks) j d h = elim (Bool-cases (leb (length_kids (kid b c ks)) 4)) [
  | inl e ↦ rw e (get_rec-inner w4 p (kid b c ks) j d)
  | inr e ↦ rw e (get_rec-inner w16 p (kid b c ks) j d)
]
get-settle w48 p (kid b c ks) j d h = elim (Bool-cases (leb (length_kids (kid b c ks)) 16)) [
  | inl e ↦ rw e (
      get_rec-inner w16 p (in_byte_order (kid b c ks)) j d
      ∙ get_below-in_byte_order (byte_after p (drop d j)) (kid b c ks) j (d + length p + 1) h)
  | inr e ↦ rw e (get_rec-inner w48 p (kid b c ks) j d)
]
get-settle w256 p (kid b c ks) j d h = elim (Bool-cases (leb (length_kids (kid b c ks)) 48)) [
  | inl e ↦ rw e (get_rec-inner w48 p (kid b c ks) j d)
  | inr e ↦ rw e (get_rec-inner w256 p (kid b c ks) j d)
]

get-settle_absent :
    (w : Width) (p : List ℕ) (ks : Kids) (j : List ℕ) (d : ℕ)
    → Distinct ks
    → get_found (settle_absent w p ks) j d
      ≡ get_below (byte_after p (drop d j)) ks j (d + length p + 1)
unfolding settle_absent
get-settle_absent w4 p ks j d h = get_rec-inner w4 p ks j d
get-settle_absent w16 p ks j d h = get_rec-inner w16 p ks j d
get-settle_absent w48 p ks j d h = get-settle w48 p ks j d h
get-settle_absent w256 p ks j d h = get-settle w256 p ks j d h

-- What an outcome says of the lookups below the slots.
unfoldable After : Kids → ℕ → List ℕ → List ℕ → ℕ → Outcome → Type 0
After ks b key j d absent = find_kid ks b ≡ none
After ks b key j d (kept ks' len) =
    (x : ℕ)
    → (eq_bytes key j ≡ true → x ≡ b)
    → get_found (find_kid ks' x) j d ≡ without key j (get_found (find_kid ks x) j d)
After ks b key j d (gone len) = without key j (get_found (find_kid ks b) j d) ≡ none

After-behind :
    (o : Outcome) (b' : ℕ) (c : Node) (ks : Kids) (b : ℕ) (key j : List ℕ) (d : ℕ)
    → (b' == b) ≡ false
    → After ks b key j d o
    → After (kid b' c ks) b key j d (behind b' c o)
unfolding After find_kid
After-behind absent b' c ks b key j d e h = rw e h
After-behind (kept ks' len) b' c ks b key j d e h = λ x own. ground (arith, h x, own)
After-behind (gone len) b' c ks b key j d e h = rw e h

get_below-without :
    (ks ks' : Kids) (b : ℕ) (key j : List ℕ) (d : ℕ) (o : Option ℕ)
    → (eq_bytes key j ≡ true → o ≡ some b)
    → ((x : ℕ)
        → (eq_bytes key j ≡ true → x ≡ b)
        → get_found (find_kid ks' x) j d ≡ without key j (get_found (find_kid ks x) j d))
    → get_below o ks' j d ≡ without key j (get_below o ks j d)
get_below-without ks ks' b key j d none own up = elim (Bool-cases (eq_bytes key j)) [
  | inl e ↦ rw e refl
  | inr e ↦ rw e refl
]
get_below-without ks ks' b key j d (some x) own up = up x (λ same. ground (arith, own same))

get-after_child :
    (o : Outcome) (w : Width) (p : List ℕ) (ks : Kids) (b len : ℕ) (key j : List ℕ) (d : ℕ)
    → (path : List ℕ) → IsKids ks path
    → Kept ks b path o
    → byte_after p (drop d key) ≡ some b
    → After ks b key j (d + length p + 1) o
    → get_found (after_child w p ks b len o).0 j d ≡ without key j (get_rec (inner w p ks) j d)
unfolding after_child After Kept
get-after_child absent w p ks b len key j d path wf shape own h =
    get-settle_absent w p ks j d (IsKids-Distinct ks path wf)
    ∙ get_below-without ks ks b key j (d + length p + 1) (byte_after p (drop d j))
        (λ same. rw (← eq_bytes→eq key j same) own) (λ x at_b. ground (arith, at_b, h))
    ∙ ap (without key j) (sym (get_rec-inner w p ks j d))
get-after_child (kept ks' len') w p ks b len key j d path wf shape own h =
    get-settle w p ks' j d (IsKids-Distinct ks' path shape.0)
    ∙ get_below-without ks ks' b key j (d + length p + 1) (byte_after p (drop d j))
        (λ same. rw (← eq_bytes→eq key j same) own) h
    ∙ ap (without key j) (sym (get_rec-inner w p ks j d))
get-after_child (gone len') w p ks b len key j d path wf shape own h =
    let left = remove_kid w ks b in
    let k = IsKids-Distinct ks path wf in
    get-settle w p left j d (IsKids-Distinct left path (IsKids-remove_kid path w ks b wf))
    ∙ get_below-without ks left b key j (d + length p + 1) (byte_after p (drop d j))
        (λ same. rw (← eq_bytes→eq key j same) own)
        (λ x at_b. ground (arith, find_kid-remove_kid w ks b x k, at_b, h))
    ∙ ap (without key j) (sym (get_rec-inner w p ks j d))

After-from_child :
    (r : Option Node × ℕ) (b' : ℕ) (c : Node) (ks : Kids) (b : ℕ) (key j : List ℕ) (d : ℕ)
    → (b' == b) ≡ true
    → get_found r.0 j d ≡ without key j (get_rec c j d)
    → After (kid b' c ks) b key j d (from_child b' ks r)
unfolding After find_kid
After-from_child (none, l) b' c ks b key j d e h = rw e (sym h)
After-from_child (some m, l) b' c ks b key j d e h = λ x own. ground (arith, h, own)

without-leaf :
    (lk key j : List ℕ) (v d len : ℕ)
    → get_found (delete_rec (leaf lk v) key d len).0 j d ≡ without key j (get_rec (leaf lk v) j d)
unfolding delete_rec get_rec
without-leaf lk key j v d len = elim (Bool-cases (eq_bytes lk key)) [
  | inl e ↦ rw (e, eq_bytes→eq lk key e) (ground arith)
  | inr e ↦ rw e (elim (Bool-cases (eq_bytes key j)) [
    | inl same ↦ rw (same, ← eq_bytes→eq key j same, e) refl
    | inr other ↦ rw other refl
  ])
]

get_rec-absent :
    (w : Width) (p : List ℕ) (ks : Kids) (key j : List ℕ) (d : ℕ)
    → next_byte p key d ≡ none
    → get_rec (inner w p ks) j d ≡ without key j (get_rec (inner w p ks) j d)
get_rec-absent w p ks key j d e =
    let off : get_rec (inner w p ks) key d ≡ none =
      get_rec-inner w p ks key d
      ∙ ap (λ o. get_below o ks key (d + length p + 1)) (sym (next_byte-byte_after p key d) ∙ e) in
    elim (Bool-cases (eq_bytes key j)) [
      | inl same ↦ rw (same, ← eq_bytes→eq key j same) off
      | inr other ↦ rw other refl
    ]

After-nil : (b : ℕ) (key j : List ℕ) (d len : ℕ) → After nil b key j d (delete_kids nil b key d len)
unfolding After delete_kids find_kid
After-nil b key j d len = refl

mutual
  unfolding IsNode IsKids

  pub get-delete_rec :
      (n : Node) (path key : List ℕ) (d len : ℕ) (j : List ℕ)
      → IsNode n path
      → get_found (delete_rec n key d len).0 j d ≡ without key j (get_rec n j d)
  get-delete_rec (leaf lk v) path key d len j h = without-leaf lk key j v d len
  get-delete_rec (inner w p ks) path key d len j h = elim (Option-cases (next_byte p key d)) [
    | inl e ↦ rw (delete_rec-off w p ks key d len e) (get_rec-absent w p ks key j d e)
    | inr (b, e) ↦ rw (delete_rec-on w p ks key d len b e) (
        get-after_child _ w p ks b len key j d (path ++ p) h.1
          (delete_kids-Kept ks (path ++ p) b key (d + length p + 1) len h.1)
          (sym (next_byte-byte_after p key d) ∙ e)
          (get-delete_kids ks (path ++ p) b key (d + length p + 1) len j h.1))
  ]

  get-delete_kids :
      (ks : Kids) (path : List ℕ) (b : ℕ) (key : List ℕ) (d len : ℕ) (j : List ℕ)
      → IsKids ks path
      → After ks b key j d (delete_kids ks b key d len)
  get-delete_kids nil path b key d len j h = After-nil b key j d len
  get-delete_kids (kid b' c ks) path b key d len j h = elim (Bool-cases (b' == b)) [
    | inl e ↦ rw (delete_kids-hit b' c ks b key d len e) (
        After-from_child (delete_rec c key d len) b' c ks b key j d e
          (get-delete_rec c (path ++ b' ∷ []) key d len j h.1))
    | inr e ↦ rw (delete_kids-miss b' c ks b key d len e) (
        After-behind (delete_kids ks b key d len) b' c ks b key j d e
          (get-delete_kids ks path b key d len j h.2))
  ]
