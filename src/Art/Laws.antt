-- ===== src/Art/Laws.antt =====
-- The index of src/art.rs as a map: what an insertion and a deletion do to the lookups and to the
-- count, and the trees they leave.
use neural_sgdb.Prelude.{
  ℕ, ◌≤◌, ◌++◌, Bool, true, false, Option, none, some, List, [], ◌∷◌, if◌then◌else◌, ◌≡◌, refl, sym,
  ◌∙◌, inl, inr, arith, Option-cases,
}
use neural_sgdb.Prelude.Bytes.{eq_bytes}
use neural_sgdb.Art.{Node, leaf, inner, nil, kid, length_kids, begins, get_rec}
use neural_sgdb.Art.Index.{ArtIndex, new, get, insert, delete}
use neural_sgdb.Art.Slots.{get_found}
use neural_sgdb.Art.Wf.{IsNode, IsKids}
use neural_sgdb.Art.Insertion.{Room, get-insert_rec}
use neural_sgdb.Art.Freedom.{Apart, fits_empty, Free, Free-Room}
use neural_sgdb.Art.Growing.{insert_rec-IsNode}
use neural_sgdb.Art.Shrinking.{IsMaybe, delete_rec-IsMaybe}
use neural_sgdb.Art.Deletion.{get-delete_rec}
use neural_sgdb.Art.Sizes.{leaves, leaves_kids, leaves_maybe, leaves-leaf, leaves-insert_rec}
use neural_sgdb.Art.Count.{taken, count-delete_rec, leaves-delete_rec}
use neural_sgdb.Art.Stored.{FoundApart, FoundApart-Free}

-- A well-formed tree, and the number of its leaves.
unfoldable pub IsIndex : ArtIndex → Type 0
IsIndex t = IsMaybe t.root [] × (t.len ≡ leaves_maybe t.root)

-- Every key that the index holds is apart from the key.
unfoldable pub KeysApart : ArtIndex → List ℕ → Type 0
KeysApart t key = (lk : List ℕ) (v : ℕ) → get t lk ≡ some v → Apart lk key

pub new-IsIndex : IsIndex new
unfolding IsIndex
new-IsIndex = (tt, refl)

-- An index of a root, where the proofs split on the root.
abbrev of_root : Option Node → ℕ → ArtIndex
of_root o len = record { root = o; len = len }

pub begins_nil : (key : List ℕ) → begins [] key ≡ true
unfolding begins
begins_nil key = refl

found_root :
    (n : Node) (key : List ℕ)
    → ((lk : List ℕ) (v : ℕ) → get_rec n lk 0 ≡ some v → Apart lk key)
    → FoundApart n [] key
unfolding FoundApart
found_root n key f lk v on got = f lk v got

first_leaf :
    (key : List ℕ) (v : ℕ) (j : List ℕ)
    → get_rec (leaf key v) j 0 ≡ (if eq_bytes key j then some v else none)
unfolding get_rec
first_leaf key v j = refl

leaf-IsNode : (key : List ℕ) (v : ℕ) → IsNode (leaf key v) []
unfolding IsNode begins
leaf-IsNode key v = refl

leaves_pos : (n : Node) (path : List ℕ) → IsNode n path → 1 ≤ leaves n
unfolding IsNode IsKids leaves leaves_kids length_kids
leaves_pos (leaf lk v) path h = omega arith
leaves_pos (inner w p nil) path h = absurd (fits_empty w h.0)
leaves_pos (inner w p (kid b c ks)) path h =
    omega (arith, leaves_pos c ((path ++ p) ++ b ∷ []) h.1.1)

-- `get` on a root is the lookup of `get_found`.
get_found_lem :
    (o : Option Node) (j : List ℕ)
    → elim o [ none ↦ none | some n ↦ get_rec n j 0 ] ≡ get_found o j 0
get_found_lem none j = refl
get_found_lem (some n) j = refl

abbrev pub is_some : Option ℕ → Bool
is_some none = false
is_some (some v) = true

pub root_Free :
    (n : Node) (len : ℕ) (key : List ℕ)
    → IsIndex (record { root = some n; len = len })
    → KeysApart (record { root = some n; len = len }) key
    → Free n key
unfolding IsIndex KeysApart get
root_Free n len key h f = FoundApart-Free n [] key h.0 (found_root n key f)

root-Room :
    (n : Node) (len : ℕ) (key : List ℕ)
    → IsIndex (of_root (some n) len)
    → KeysApart (of_root (some n) len) key
    → Room n key 0
unfolding IsIndex
root-Room n len key h f = Free-Room n [] key h.0 (root_Free n len key h f) (begins_nil key)

get-insert_root :
    (o : Option Node) (len : ℕ) (key : List ℕ) (v : ℕ) (j : List ℕ)
    → IsIndex (of_root o len)
    → KeysApart (of_root o len) key
    → get (insert (of_root o len) key v) j
      ≡ (if eq_bytes key j then some v else get (of_root o len) j)
unfolding get insert IsIndex
get-insert_root none len key v j h f = first_leaf key v j
get-insert_root (some n) len key v j h f =
    get-insert_rec n [] key 0 v len j h.0 (root-Room n len key h f)

-- In a well-formed index whose keys are apart from the key, an insertion changes the lookup of the
-- key to the new value and no other lookup.
pub get-insert :
    (t : ArtIndex) (key : List ℕ) (v : ℕ) (j : List ℕ)
    → IsIndex t
    → KeysApart t key
    → get (insert t key v) j ≡ (if eq_bytes key j then some v else get t j)
get-insert t key v j h f = get-insert_root t.root t.len key v j h f

insert-IsIndex_root :
    (o : Option Node) (len : ℕ) (key : List ℕ) (v : ℕ)
    → IsIndex (of_root o len)
    → KeysApart (of_root o len) key
    → IsIndex (insert (of_root o len) key v)
unfolding insert IsIndex
insert-IsIndex_root none len key v h f = (leaf-IsNode key v, sym (leaves-leaf key v))
insert-IsIndex_root (some n) len key v h f = (
  insert_rec-IsNode n [] key v len h.0 (begins_nil key) (root-Room n len key h f),
  omega (arith, leaves-insert_rec n key 0 v len, h.1),
)

-- An insertion of a key that is apart from the keys of a well-formed index leaves a well-formed
-- index, whose count is the number of its leaves.
pub insert-IsIndex :
    (t : ArtIndex) (key : List ℕ) (v : ℕ) → IsIndex t → KeysApart t key → IsIndex (insert t key v)
insert-IsIndex t key v h f = insert-IsIndex_root t.root t.len key v h f

get-delete_root :
    (o : Option Node) (len : ℕ) (key j : List ℕ)
    → IsIndex (of_root o len)
    → get (delete (of_root o len) key).0 j
      ≡ (if eq_bytes key j then none else get (of_root o len) j)
unfolding get delete IsIndex
get-delete_root none len key j h = ground arith
get-delete_root (some n) len key j h = get_found_lem _ j ∙ get-delete_rec n [] key 0 len j h.0

-- In a well-formed index a deletion takes the value of the key and changes no other lookup.
pub get-delete :
    (t : ArtIndex) (key j : List ℕ)
    → IsIndex t
    → get (delete t key).0 j ≡ (if eq_bytes key j then none else get t j)
get-delete t key j h = get-delete_root t.root t.len key j h

delete-IsIndex_root :
    (o : Option Node) (len : ℕ) (key : List ℕ)
    → IsIndex (of_root o len)
    → IsIndex (delete (of_root o len) key).0
unfolding delete IsIndex
delete-IsIndex_root none len key h = h
delete-IsIndex_root (some n) len key h = (
  delete_rec-IsMaybe n [] key 0 len h.0,
  omega (arith, leaves-delete_rec n key 0 len (omega (arith, h.1)), h.1),
)

-- A deletion leaves a well-formed index, whose count is the number of its leaves: no inner node is
-- empty, too full or wider than it must be.
pub delete-IsIndex : (t : ArtIndex) (key : List ℕ) → IsIndex t → IsIndex (delete t key).0
delete-IsIndex t key h = delete-IsIndex_root t.root t.len key h

delete_root :
    (o : Option Node) (len : ℕ) (key : List ℕ)
    → IsIndex (of_root o len)
    → ((delete (of_root o len) key).1 ≡ is_some (get (of_root o len) key))
      × ((delete (of_root o len) key).0.len ≡ taken (get (of_root o len) key) len)
unfolding get delete IsIndex
delete_root none len key h = (refl, refl)
delete_root (some n) len key h =
    let down = count-delete_rec n key 0 len in
    let some_leaf = leaves_pos n [] h.0 in
    elim (Option-cases (get_rec n key 0)) [
      | inl e ↦ rw (down, e) (ground arith, refl)
      | inr (v, e) ↦ rw (down, e) (ground (arith, some_leaf, h.1), refl)
    ]

-- In a well-formed index a deletion reports whether the key had a value, and the count goes down by
-- one if it had.
pub delete_lem :
    (t : ArtIndex) (key : List ℕ)
    → IsIndex t
    → ((delete t key).1 ≡ is_some (get t key)) × ((delete t key).0.len ≡ taken (get t key) t.len)
delete_lem t key h = delete_root t.root t.len key h
