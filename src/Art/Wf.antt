-- ===== src/Art/Wf.antt =====
-- The well-formed trees of src/art.rs: each key lies on the path to its leaf, the bytes of the slots
-- of a node differ, and each inner node has the width for the number of its children.
use neural_sgdb.Prelude.{ℕ, Bool, true, none, List, [], ◌∷◌, ◌++◌, leb, ◌&&◌, ◌≡◌}
use neural_sgdb.Art.{
  Width, w4, w16, w48, w256, Node, leaf, inner, Kids, nil, kid, length_kids, begins,
}
use neural_sgdb.Art.Slots.{find_kid, Distinct}

-- A node of a width has that many children: no array overflows, no inner node is empty, and none is
-- wider than it must be.
abbrev pub fits : Width → ℕ → Bool
fits w4 n = leb 1 n && leb n 4
fits w16 n = leb 5 n && leb n 16
fits w48 n = leb 17 n && leb n 48
fits w256 n = leb 49 n

unfoldable mutual
  pub IsNode : Node → List ℕ → Type 0
  IsNode (leaf lk v) path = begins path lk ≡ true
  IsNode (inner w p ks) path = (fits w (length_kids ks) ≡ true) × IsKids ks (path ++ p)

  pub IsKids : Kids → List ℕ → Type 0
  IsKids nil path = Unit
  IsKids (kid b c ks) path = (find_kid ks b ≡ none) × IsNode c (path ++ b ∷ []) × IsKids ks path

pub IsKids-Distinct : (ks : Kids) (path : List ℕ) → IsKids ks path → Distinct ks
unfolding IsKids Distinct
IsKids-Distinct nil path h = tt
IsKids-Distinct (kid b c ks) path h = (h.0, IsKids-Distinct ks path h.2)
