-- ===== src/Art/Stored.antt =====
-- The keys stored in a tree of src/art.rs are those that a lookup finds.
use neural_sgdb.Prelude.{
  ℕ, ◌+◌, true, none, some, List, [], ◌∷◌, ◌++◌, length, length-append, drop, ◌≡◌, refl, ap, ◌∙◌,
  arith, append_assoc, ==_refl, drop-length_append,
}
use neural_sgdb.Prelude.Bytes.{eq_bytes_refl}
use neural_sgdb.Art.{Width, Node, leaf, inner, Kids, nil, kid, begins, get_rec}
use neural_sgdb.Art.Paths.{byte_after, byte_after_own, begins-append}
use neural_sgdb.Art.Slots.{find_kid, get_rec-inner}
use neural_sgdb.Art.Wf.{IsNode, IsKids}
use neural_sgdb.Art.Freedom.{Apart, Free, FreeKids, begins_above}

-- Every key that a lookup finds below a node is apart from the key.
unfoldable pub FoundApart : Node → List ℕ → List ℕ → Type 0
FoundApart n path key =
    (lk : List ℕ) (v : ℕ)
    → begins path lk ≡ true
    → get_rec n lk (length path) ≡ some v
    → Apart lk key

-- A key on the way to a child is looked up in that child.
pub get_rec-child :
    (w : Width) (p : List ℕ) (ks : Kids) (path : List ℕ) (b : ℕ) (c : Node) (lk : List ℕ)
    → find_kid ks b ≡ some c
    → begins ((path ++ p) ++ b ∷ []) lk ≡ true
    → get_rec (inner w p ks) lk (length path) ≡ get_rec c lk (length ((path ++ p) ++ b ∷ []))
get_rec-child w p ks path b c lk found on =
    let q = (path ++ p) ++ b ∷ [] in
    let rest = drop (length q) lk in
    let whole : lk ≡ path ++ (p ++ b ∷ rest) =
      begins-append q lk on
      ∙ append_assoc (path ++ p) (b ∷ []) rest
      ∙ append_assoc path p (b ∷ rest) in
    let left : drop (length path) lk ≡ p ++ b ∷ rest =
      ap (drop (length path)) whole ∙ drop-length_append path (p ++ b ∷ rest) in
    let next : byte_after p (drop (length path) lk) ≡ some b =
      ap (byte_after p) left ∙ byte_after_own p rest b in
    let deep : length path + length p + 1 ≡ length q =
      omega (arith, length-append (path ++ p) (b ∷ []), length-append path p) in
    get_rec-inner w p ks lk (length path) ∙ rw (next, found, deep) refl

pub get_rec_own : (lk : List ℕ) (v d : ℕ) → get_rec (leaf lk v) lk d ≡ some v
unfolding get_rec
get_rec_own lk v d = rw (eq_bytes_refl lk) refl

pub find_first : (b : ℕ) (c : Node) (ks : Kids) → find_kid (kid b c ks) b ≡ some c
unfolding find_kid
find_first b c ks = rw (==_refl b) refl

pub find_next :
    (b : ℕ) (c : Node) (ks : Kids) (x : ℕ) (m : Node)
    → find_kid ks b ≡ none
    → find_kid ks x ≡ some m
    → find_kid (kid b c ks) x ≡ some m
unfolding find_kid
find_next b c ks x m free found = ground (arith, free, found)

mutual
  unfolding Free FreeKids IsNode IsKids FoundApart

  pub FoundApart-Free :
      (n : Node) (path key : List ℕ) → IsNode n path → FoundApart n path key → Free n key
  FoundApart-Free (leaf lk v) path key h f = f lk v h (get_rec_own lk v (length path))
  FoundApart-Free (inner w p ks) path key h f =
      FoundApart-FreeKids ks (path ++ p) key h.1 (λ b c found lk v on got.
        f lk v (begins_above path p lk b on) (get_rec-child w p ks path b c lk found on ∙ got))

  FoundApart-FreeKids :
      (ks : Kids) (path key : List ℕ)
      → IsKids ks path
      → ((b : ℕ) (c : Node) → find_kid ks b ≡ some c → FoundApart c (path ++ b ∷ []) key)
      → FreeKids ks key
  FoundApart-FreeKids nil path key h f = tt
  FoundApart-FreeKids (kid b c ks) path key h f = (
    FoundApart-Free c (path ++ b ∷ []) key h.1 (f b c (find_first b c ks)),
    FoundApart-FreeKids ks path key h.2 (λ x m found. f x m (find_next b c ks x m h.0 found)),
  )
