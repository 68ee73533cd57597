-- ===== src/Art/Guard.antt =====
-- `has_prefix_conflict` of src/art.rs: it raises no false alarm.
use neural_sgdb.Prelude.{
  ℕ, suc, ◌+◌, true, false, Option, none, some, List, [], ◌∷◌, ◌++◌, length, length-append, drop,
  min, ◌==◌, if◌then◌else◌, ◌≡◌, refl, ap, ◌∙◌, inl, inr, arith, Bool-cases,
}
use neural_sgdb.Prelude.Bytes.{eq_bytes}
use neural_sgdb.Art.{Width, Node, leaf, inner, Kids, nil, kid, byte_at, begins}
use neural_sgdb.Art.Index.{ArtIndex, has_prefix_conflict, overlaps, conflict_rec, conflict_kids}
use neural_sgdb.Art.Wf.{IsNode, IsKids}
use neural_sgdb.Art.Freedom.{Apart, Free, FreeKids, goes_on, no_end, begins_under}
use neural_sgdb.Art.Paths.{begins-append}
use neural_sgdb.Art.Laws.{IsIndex, KeysApart, root_Free, begins_nil}

overlaps-apart : (a b : List ℕ) → begins a b ≡ false → begins b a ≡ false → overlaps a b ≡ false
unfolding overlaps begins eq_bytes
overlaps-apart [] b h k = absurd cc
overlaps-apart (x ∷ a) [] h k = absurd cc
overlaps-apart (x ∷ a) (y ∷ b) h k =
    let m : min (suc (length a)) (suc (length b)) ≡ suc (min (length a) (length b)) = omega arith in
    elim (Bool-cases (x == y)) [
      | inl e ↦ rw m (rw e (overlaps-apart a b (ground (arith, h)) (ground (arith, k))))
      | inr e ↦ rw m (rw e refl)
    ]

-- A key that begins with the path but leaves the node's prefix inside does not end in it.
kept_apart :
    (w : Width) (p : List ℕ) (ks : Kids) (path key : List ℕ)
    → IsNode (inner w p ks) path
    → Free (inner w p ks) key
    → begins path key ≡ true
    → begins (drop (length path) key) p ≡ false
kept_apart w p ks path key h f on =
    let kr = drop (length path) key in
    elim (Bool-cases (begins kr p)) [
      | inl e ↦ absurd (
          no_end w p ks path key h f (
            ap (λ k. begins k (path ++ p)) (begins-append path key on)
            ∙ begins_under path kr p
            ∙ e))
      | inr e ↦ e
    ]

conflict_leaf : (lk key : List ℕ) (v d : ℕ) → Apart lk key → conflict_rec (leaf lk v) key d ≡ false
unfolding conflict_rec
conflict_leaf lk key v d (inl e) = rw e refl
conflict_leaf lk key v d (inr (h, k)) = rw (overlaps-apart lk key h k) (ground arith)

pub conflict-on :
    (w : Width) (p : List ℕ) (ks : Kids) (key : List ℕ) (d b : ℕ)
    → begins p (drop d key) ≡ true
    → byte_at key (d + length p) ≡ some b
    → conflict_rec (inner w p ks) key d ≡ conflict_kids ks b key (d + length p + 1)
unfolding conflict_rec
conflict-on w p ks key d b e o = ground arith

conflict-away :
    (w : Width) (p : List ℕ) (ks : Kids) (key : List ℕ) (d : ℕ)
    → begins p (drop d key) ≡ false
    → begins (drop d key) p ≡ false
    → conflict_rec (inner w p ks) key d ≡ false
unfolding conflict_rec
conflict-away w p ks key d e o = ground arith

pub conflict_kids_lem :
    (b' : ℕ) (c : Node) (ks : Kids) (b : ℕ) (key : List ℕ) (d : ℕ)
    → conflict_kids (kid b' c ks) b key d
      ≡ (if b' == b then conflict_rec c key d else conflict_kids ks b key d)
unfolding conflict_kids
conflict_kids_lem b' c ks b key d = ground arith

conflict_nil : (b : ℕ) (key : List ℕ) (d : ℕ) → conflict_kids nil b key d ≡ false
unfolding conflict_kids
conflict_nil b key d = refl

mutual
  unfolding Free FreeKids IsNode IsKids

  conflict-Free :
      (n : Node) (path key : List ℕ)
      → IsNode n path
      → Free n key
      → begins path key ≡ true
      → conflict_rec n key (length path) ≡ false
  conflict-Free (leaf lk v) path key h f on = conflict_leaf lk key v (length path) f
  conflict-Free (inner w p ks) path key h f on =
      elim (Bool-cases (begins p (drop (length path) key))) [
        | inl e ↦
            let (b, next, on') = goes_on w p ks path key h f on e in
            let deep : length (path ++ p) + 1 ≡ length path + length p + 1 =
              omega (arith, length-append path p) in
            conflict-on w p ks key (length path) b e next
            ∙ rw (← deep) (conflict-FreeKids ks (path ++ p) b key h.1 f on')
        | inr e ↦ conflict-away w p ks key (length path) e (kept_apart w p ks path key h f on)
      ]

  conflict-FreeKids :
      (ks : Kids) (path : List ℕ) (b : ℕ) (key : List ℕ)
      → IsKids ks path
      → FreeKids ks key
      → begins (path ++ b ∷ []) key ≡ true
      → conflict_kids ks b key (length path + 1) ≡ false
  conflict-FreeKids nil path b key h f on = conflict_nil b key (length path + 1)
  conflict-FreeKids (kid b' c ks) path b key h f on =
      conflict_kids_lem b' c ks b key (length path + 1) ∙ elim (Bool-cases (b' == b)) [
        | inl e ↦
            let here : b' ≡ b = ground (arith, e) in
            let deep : length (path ++ b ∷ []) ≡ length path + 1 = length-append path (b ∷ []) in
            rw (e, ← deep) (conflict-Free c (path ++ b ∷ []) key (rw (← here) h.1) f.0 on)
        | inr e ↦ rw e (conflict-FreeKids ks path b key h.2 f.1 on)
      ]

conflict_root :
    (o : Option Node) (len : ℕ) (key : List ℕ)
    → IsIndex (record { root = o; len = len })
    → KeysApart (record { root = o; len = len }) key
    → has_prefix_conflict (record { root = o; len = len }) key ≡ false
unfolding has_prefix_conflict IsIndex
conflict_root none len key h f = refl
conflict_root (some n) len key h f =
    conflict-Free n [] key h.0 (root_Free n len key h f) (begins_nil key)

-- The guard raises no false alarm: in a well-formed index it lets every key pass that is apart from
-- the keys the index holds.
pub has_prefix_conflict-KeysApart :
    (t : ArtIndex) (key : List ℕ) → IsIndex t → KeysApart t key → has_prefix_conflict t key ≡ false
has_prefix_conflict-KeysApart t key h f = conflict_root t.root t.len key h f
