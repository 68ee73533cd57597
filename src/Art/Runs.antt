-- ===== src/Art/Runs.antt =====
-- Runs of the radix tree, and its theorems at concrete trees.
use neural_sgdb.Prelude.{
  ℕ, true, false, none, some, List, [], ◌∷◌, length, ◌≡◌, ◌↔◌, refl, sym, ◌∙◌, inl, inr, arith,
  Bool-cases,
}
use neural_sgdb.Prelude.Bytes.{eq_bytes, eq_bytes_refl, eq_bytes→eq}
use neural_sgdb.Wire.Utf8.{is_utf8}
use neural_sgdb.Art.{
  Kids, insert_kids, w4, Node, leaf, inner, nil, kid, begins, get_rec, insert_rec, split_leaf,
  common_prefix, byte_at, add_child, length_kids, add_last, split_prefix, next_byte,
}
use neural_sgdb.Art.Removal.{delete_rec, after_child, settle, remove_kid, remove_slot}
use neural_sgdb.Art.Index.{ArtIndex, new, get, insert, delete, has_prefix_conflict, scan_prefix}
use neural_sgdb.Art.Freedom.{Apart}
use neural_sgdb.Art.Count.{taken}
use neural_sgdb.Art.Laws.{IsIndex, KeysApart, is_some, get-insert, get-delete, delete_lem}
use neural_sgdb.Art.Refinement.{
  ArtOp, put_key, apply_op, run_ops, map_value, Held, Held-KeysApart, run_ops-Held, run_ops_lem,
}
use neural_sgdb.Art.Guard.{has_prefix_conflict-KeysApart}
use neural_sgdb.Art.Missed.{there, down, has_prefix_conflict_misses}
use neural_sgdb.Art.Entries.{In, scan_prefix_iff}

-- Keys of one length are apart.
same_length-begins : (a b : List ℕ) → length a ≡ length b → begins a b ≡ eq_bytes a b
unfolding begins eq_bytes
same_length-begins [] [] h = refl
same_length-begins [] (y ∷ b) h = absurd (omega arith)
same_length-begins (x ∷ a) [] h = absurd (omega arith)
same_length-begins (x ∷ a) (y ∷ b) h = ground (arith, same_length-begins a b (omega arith))

abbrev IsPair : List ℕ → Type 0
IsPair k = length k ≡ 2

IsPair-Apart : (a b : List ℕ) → IsPair a → IsPair b → Apart a b
IsPair-Apart a b h k = elim (Bool-cases (eq_bytes a b)) [
  | inl e ↦ inl e
  | inr e ↦ inr (
    same_length-begins a b (h ∙ sym k) ∙ e,
    same_length-begins b a (k ∙ sym h) ∙ elim (Bool-cases (eq_bytes b a)) [
      | inl f ↦ let g : eq_bytes a b ≡ true = rw (eq_bytes→eq b a f) (eq_bytes_refl a) in absurd cc
      | inr f ↦ f
    ],
  )
]

-- "ab", "ac", "ad", "ae", "af" and "bb": the node under `a` grows to 16.
abbrev six : List ArtOp
six =
    put_key (97 ∷ 98 ∷ []) 1
    ∷ put_key (97 ∷ 99 ∷ []) 2
    ∷ put_key (97 ∷ 100 ∷ []) 3
    ∷ put_key (97 ∷ 101 ∷ []) 4
    ∷ put_key (97 ∷ 102 ∷ []) 5
    ∷ put_key (98 ∷ 98 ∷ []) 6
    ∷ []

abbrev tree : ArtIndex
tree = run_ops new six

tree-Held : Held IsPair IsPair-Apart tree
tree-Held = run_ops-Held IsPair IsPair-Apart six (refl, (refl, (refl, (refl, (refl, (refl, tt))))))

tree_ad : get tree (97 ∷ 100 ∷ []) ≡ some 3
unfolding run_ops apply_op get insert get_rec insert_rec eq_bytes split_leaf begins common_prefix
    byte_at add_child length_kids add_last split_prefix next_byte
tree_ad = refl

-- A deletion from five children shrinks the node to 4.
tree_without_ad : get (delete tree (97 ∷ 100 ∷ [])).0 (97 ∷ 100 ∷ []) ≡ none
unfolding run_ops apply_op get insert get_rec insert_rec eq_bytes split_leaf begins common_prefix
    byte_at add_child length_kids add_last split_prefix next_byte delete delete_rec after_child
    settle remove_kid remove_slot
tree_without_ad = refl

tree-KeysApart : KeysApart tree (98 ∷ 99 ∷ [])
tree-KeysApart = Held-KeysApart IsPair IsPair-Apart tree (98 ∷ 99 ∷ []) tree-Held refl

get-insert_example : get (insert tree (98 ∷ 99 ∷ []) 7) (97 ∷ 98 ∷ []) ≡ get tree (97 ∷ 98 ∷ [])
unfolding eq_bytes
get-insert_example = get-insert tree (98 ∷ 99 ∷ []) 7 (97 ∷ 98 ∷ []) tree-Held.0 tree-KeysApart

get-delete_example : get (delete tree (97 ∷ 100 ∷ [])).0 (97 ∷ 100 ∷ []) ≡ none
unfolding eq_bytes
get-delete_example = get-delete tree (97 ∷ 100 ∷ []) (97 ∷ 100 ∷ []) tree-Held.0

delete_lem_example :
    ((delete tree (97 ∷ 100 ∷ [])).1 ≡ is_some (get tree (97 ∷ 100 ∷ [])))
    × ((delete tree (97 ∷ 100 ∷ [])).0.len ≡ taken (get tree (97 ∷ 100 ∷ [])) tree.len)
delete_lem_example = delete_lem tree (97 ∷ 100 ∷ []) tree-Held.0

run_ops_lem_example : (get tree (98 ∷ 98 ∷ []) ≡ map_value none (98 ∷ 98 ∷ []) six) × IsIndex tree
run_ops_lem_example =
    run_ops_lem IsPair IsPair-Apart six (98 ∷ 98 ∷ [])
      (refl, (refl, (refl, (refl, (refl, (refl, tt))))))

has_prefix_conflict-KeysApart_example : has_prefix_conflict tree (98 ∷ 99 ∷ []) ≡ false
has_prefix_conflict-KeysApart_example =
    has_prefix_conflict-KeysApart tree (98 ∷ 99 ∷ []) tree-Held.0 tree-KeysApart

-- "abx", "aby" and "c", and the key "a".
-- The keys "abx", "aby" and "c".
abbrev fork : Kids
fork = kid 120 (leaf (97 ∷ 98 ∷ 120 ∷ []) 1) (kid 121 (leaf (97 ∷ 98 ∷ 121 ∷ []) 2) nil)

abbrev top : Node
top = inner w4 [] (kid 97 (inner w4 (98 ∷ []) fork) (kid 99 (leaf (99 ∷ []) 3) nil))

top_inserted :
    insert (insert (insert new (97 ∷ 98 ∷ 120 ∷ []) 1) (97 ∷ 98 ∷ 121 ∷ []) 2) (99 ∷ []) 3
    ≡ record { root = some top; len = 3 }
unfolding insert insert_rec insert_kids split_leaf split_prefix common_prefix begins byte_at
    eq_bytes
top_inserted = refl

-- The key "a", with which two of them begin, ends at the node of "b".
has_prefix_conflict_misses_example :
    let t : ArtIndex = record { root = some top; len = 3 } in
    (has_prefix_conflict t (97 ∷ []) ≡ false)
    × (insert t (97 ∷ []) 9 ≡ t)
    × (get (insert t (97 ∷ []) 9) (97 ∷ []) ≡ none)
has_prefix_conflict_misses_example = has_prefix_conflict_misses w4 98 [] fork top 3 9 (97 ∷ []) (
    down w4 [] (kid 97 (inner w4 (98 ∷ []) fork) (kid 99 (leaf (99 ∷ []) 3) nil)) 97
      (inner w4 (98 ∷ []) fork) [] (inl (refl, refl)) there)

scan_prefix_iff_example :
    In (97 ∷ 100 ∷ [], 3) (scan_prefix tree (97 ∷ []))
    ↔ ((begins (97 ∷ []) (97 ∷ 100 ∷ []) ≡ true) × (get tree (97 ∷ 100 ∷ []) ≡ some 3))
unfolding is_utf8
scan_prefix_iff_example = scan_prefix_iff tree (97 ∷ []) (97 ∷ 100 ∷ []) 3 tree-Held.0 refl
