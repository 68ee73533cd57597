-- ===== src/Art/Scan.antt =====
-- `scan_prefix` of src/art.rs: the subtrees it prunes hold no key of the prefix.
use neural_sgdb.Prelude.{
  ℕ, suc, ◌+◌, ◌||◌, Bool, true, false, Option, none, some, List, [], ◌∷◌, ◌++◌, length,
  length-append, take, min, All, ◌≡◌, refl, sym, ◌∙◌, inl, inr, arith, Bool-cases,
}
use neural_sgdb.Prelude.Bytes.{eq_bytes}
use neural_sgdb.Wire.Utf8.{is_utf8}
use neural_sgdb.Art.{Width, Node, leaf, inner, Kids, nil, kid, byte_at, begins, get_rec}
use neural_sgdb.Art.Index.{
  ArtIndex, scan_prefix, path_matches, descends, collect_prefix, collect_kids, join_kids,
}
use neural_sgdb.Art.Slots.{find_kid}
use neural_sgdb.Art.Stored.{find_first, find_next, get_rec-child, get_rec_own}
use neural_sgdb.Art.Wf.{IsNode, IsKids}
use neural_sgdb.Art.Freedom.{begins_above, begins_trans}
use neural_sgdb.Art.Paths.{begins_own}
use neural_sgdb.Art.Rows.{
  Entry, with_prefix, with_prefix_none, rows_with_prefix, join_kids-rows_with_prefix, AllRows,
  join_kids-All,
}
use neural_sgdb.Art.Laws.{IsIndex}

-- One of the two texts begins with the other.
near : List ℕ → List ℕ → Bool
near a b = begins a b || begins b a

near_nil : (a : List ℕ) → near a [] ≡ true
unfolding near begins
near_nil [] = refl
near_nil (x ∷ a) = refl

far : (a q lk : List ℕ) → near a q ≡ false → begins q lk ≡ true → begins a lk ≡ false
unfolding near begins
far [] q lk h on = absurd cc
far (x ∷ a) [] lk h on = absurd (ground arith)
far (x ∷ a) (y ∷ q) [] h on = refl
far (x ∷ a) (y ∷ q) (z ∷ lk) h on = ground (arith, far a q lk)

near_takes :
    (a b : List ℕ)
    → eq_bytes (take (min (length b) (length a)) a) (take (min (length b) (length a)) b) ≡ near a b
unfolding near begins eq_bytes
near_takes [] b = let m : min (length b) 0 ≡ 0 = omega arith in rw m refl
near_takes (x ∷ a) [] = let m : min 0 (suc (length a)) ≡ 0 = omega arith in rw m refl
near_takes (x ∷ a) (y ∷ b) =
    let m : min (suc (length b)) (suc (length a)) ≡ suc (min (length b) (length a)) = omega arith in
    rw m (ground (arith, near_takes a b))

path_matches_nil : (p : List ℕ) (d : ℕ) → path_matches p [] d ≡ true
unfolding path_matches eq_bytes
path_matches_nil p d =
    let m : min d 0 ≡ 0 = omega arith in
    let n : min (length p) 0 ≡ 0 = omega arith in rw (path_matches, m) (rw n refl)

near_path :
    (prefix path p : List ℕ)
    → near prefix path ≡ true
    → path_matches p prefix (length path) ≡ near prefix (path ++ p)
unfolding near begins path_matches
near_path prefix [] p h =
    let m : min 0 (length prefix) ≡ 0 = omega arith in rw (path_matches, m) (near_takes prefix p)
near_path [] (x ∷ path) p h = path_matches_nil p (suc (length path))
near_path (y ∷ prefix) (x ∷ path) p h =
    let m : min (suc (length path)) (suc (length prefix))
        ≡ suc (min (length path) (length prefix)) =
      omega arith in
    let step : path_matches p (y ∷ prefix) (suc (length path))
        ≡ path_matches p prefix (length path) =
      rw (path_matches, m) refl in
    step ∙ ground (arith, near_path prefix path p)

near_byte :
    (prefix q : List ℕ) (b : ℕ)
    → near prefix q ≡ true
    → descends prefix (length q) b ≡ near prefix (q ++ b ∷ [])
unfolding near begins descends byte_at
near_byte [] q b h = refl
near_byte (y ∷ prefix) [] b h = ground arith
near_byte (y ∷ prefix) (x ∷ q) b h = ground (arith, near_byte prefix q b)

pub collect_whole :
    (w : Width) (p : List ℕ) (ks : Kids) (d : ℕ)
    → collect_prefix (inner w p ks) [] d ≡ join_kids w (collect_kids ks [] (d + length p))
unfolding collect_prefix
collect_whole w p ks d = rw (path_matches_nil p d) refl

collect_on :
    (prefix : List ℕ) (w : Width) (p : List ℕ) (ks : Kids) (d : ℕ)
    → path_matches p prefix d ≡ true
    → collect_prefix (inner w p ks) prefix d ≡ join_kids w (collect_kids ks prefix (d + length p))
unfolding collect_prefix
collect_on prefix w p ks d e = rw e refl

collect_pruned :
    (prefix : List ℕ) (w : Width) (p : List ℕ) (ks : Kids) (d : ℕ)
    → path_matches p prefix d ≡ false
    → collect_prefix (inner w p ks) prefix d ≡ []
unfolding collect_prefix
collect_pruned prefix w p ks d e = rw e refl

pub collect_nil : (prefix : List ℕ) (d : ℕ) → collect_kids nil prefix d ≡ []
unfolding collect_kids
collect_nil prefix d = refl

pub collect_kid :
    (prefix : List ℕ) (b : ℕ) (c : Node) (ks : Kids) (d : ℕ)
    → descends prefix d b ≡ true
    → collect_kids (kid b c ks) prefix d
      ≡ (b, collect_prefix c prefix (d + 1)) ∷ collect_kids ks prefix d
unfolding collect_kids
collect_kid prefix b c ks d e = ground arith

collect_kid_pruned :
    (prefix : List ℕ) (b : ℕ) (c : Node) (ks : Kids) (d : ℕ)
    → descends prefix d b ≡ false
    → collect_kids (kid b c ks) prefix d ≡ (b, []) ∷ collect_kids ks prefix d
unfolding collect_kids
collect_kid_pruned prefix b c ks d e = ground arith

pub descends_nil : (d b : ℕ) → descends [] d b ≡ true
unfolding descends byte_at
descends_nil d b = refl

collect_leaf-All :
    (P : Entry → Type 0) (lk : List ℕ) (v d : ℕ)
    → P (lk, v)
    → All P (collect_prefix (leaf lk v) [] d)
unfolding collect_prefix begins
collect_leaf-All P lk v d h = elim (Bool-cases (is_utf8 lk)) [
  | inl e ↦ rw e (h, tt)
  | inr e ↦ rw e tt
]

scan_leaf :
    (prefix lk : List ℕ) (v d : ℕ)
    → collect_prefix (leaf lk v) prefix d ≡ with_prefix prefix (collect_prefix (leaf lk v) [] d)
unfolding collect_prefix begins with_prefix
scan_leaf prefix lk v d = elim (Bool-cases (is_utf8 lk)) [
  | inl e ↦ rw e (ground arith)
  | inr e ↦ rw e (ground arith)
]

-- All entries below a node have a property that holds of what a lookup finds on its path.
mutual
  unfolding IsNode IsKids

  pub collect-All :
      (P : Entry → Type 0) (n : Node) (path : List ℕ) (d : ℕ)
      → IsNode n path
      → ((lk : List ℕ) (v : ℕ)
          → begins path lk ≡ true
          → get_rec n lk (length path) ≡ some v
          → P (lk, v))
      → All P (collect_prefix n [] d)
  collect-All P (leaf lk v) path d h f =
      collect_leaf-All P lk v d (f lk v h (get_rec_own lk v (length path)))
  collect-All P (inner w p ks) path d h f = rw (collect_whole w p ks d) (
      join_kids-All P w (collect_kids ks [] (d + length p)) (
        collect_kids-All P ks (path ++ p) (d + length p) h.1 (λ b c found lk v on got.
          f lk v (begins_above path p lk b on) (get_rec-child w p ks path b c lk found on ∙ got))))

  collect_kids-All :
      (P : Entry → Type 0) (ks : Kids) (path : List ℕ) (d : ℕ)
      → IsKids ks path
      → ((b : ℕ) (c : Node)
          → find_kid ks b ≡ some c
          → (lk : List ℕ) (v : ℕ) → begins (path ++ b ∷ []) lk ≡ true
          → get_rec c lk (length (path ++ b ∷ [])) ≡ some v
          → P (lk, v))
      → AllRows P (collect_kids ks [] d)
  collect_kids-All P nil path d h f = rw (collect_nil [] d) tt
  collect_kids-All P (kid b c ks) path d h f = rw (collect_kid [] b c ks d (descends_nil d b)) (
    collect-All P c (path ++ b ∷ []) (d + 1) h.1 (f b c (find_first b c ks)),
    collect_kids-All P ks path d h.2 (λ x m found. f x m (find_next b c ks x m h.0 found)),
  )

mutual
  unfolding IsNode IsKids rows_with_prefix

  scan_node :
      (prefix : List ℕ) (n : Node) (path : List ℕ)
      → IsNode n path
      → near prefix path ≡ true
      → collect_prefix n prefix (length path)
        ≡ with_prefix prefix (collect_prefix n [] (length path))
  scan_node prefix (leaf lk v) path h k = scan_leaf prefix lk v (length path)
  scan_node prefix (inner w p ks) path h k =
      let d = length path in
      rw (collect_whole w p ks d) (elim (Bool-cases (near prefix (path ++ p))) [
        | inl e ↦
            let rows : collect_kids ks prefix (d + length p)
                ≡ rows_with_prefix prefix (collect_kids ks [] (d + length p)) =
              rw (← length-append path p) (scan_kids prefix ks (path ++ p) h.1 e) in
            collect_on prefix w p ks d (near_path prefix path p k ∙ e)
            ∙ rw rows (join_kids-rows_with_prefix prefix w (collect_kids ks [] (d + length p)))
        | inr e ↦
            collect_pruned prefix w p ks d (near_path prefix path p k ∙ e)
            ∙ sym (
                with_prefix_none prefix _ (
                  join_kids-All (λ e. begins prefix e.0 ≡ false) w
                    (collect_kids ks [] (d + length p))
                    (collect_kids-All (λ e. begins prefix e.0 ≡ false) ks (path ++ p) (d + length p)
                      h.1
                      (λ b c found lk v on got. far prefix (path ++ p) lk e (
                        begins_trans (path ++ p) ((path ++ p) ++ b ∷ []) lk
                          (begins_own (path ++ p) (b ∷ [])) on)))))
      ])

  scan_kids :
      (prefix : List ℕ) (ks : Kids) (q : List ℕ)
      → IsKids ks q
      → near prefix q ≡ true
      → collect_kids ks prefix (length q) ≡ rows_with_prefix prefix (collect_kids ks [] (length q))
  scan_kids prefix nil q h k = rw (collect_nil prefix (length q), collect_nil [] (length q)) refl
  scan_kids prefix (kid b c ks) q h k =
      let d = length q in
      let deep : length (q ++ b ∷ []) ≡ d + 1 = length-append q (b ∷ []) in
      let others = scan_kids prefix ks q h.2 k in
      rw (collect_kid [] b c ks d (descends_nil d b))
        (elim (Bool-cases (near prefix (q ++ b ∷ []))) [
          | inl e ↦
              let this : collect_prefix c prefix (d + 1)
                  ≡ with_prefix prefix (collect_prefix c [] (d + 1)) =
                rw (← deep) (scan_node prefix c (q ++ b ∷ []) h.1 e) in
              rw (collect_kid prefix b c ks d (near_byte prefix q b k ∙ e), this, others) refl
          | inr e ↦
              let none_here : with_prefix prefix (collect_prefix c [] (d + 1)) ≡ [] =
                with_prefix_none prefix (collect_prefix c [] (d + 1)) (
                  collect-All (λ e. begins prefix e.0 ≡ false) c (q ++ b ∷ []) (d + 1) h.1
                    (λ lk v on got. far prefix (q ++ b ∷ []) lk e on)) in
              rw
                (collect_kid_pruned prefix b c ks d (near_byte prefix q b k ∙ e), none_here, others)
                refl
        ])

scan_root :
    (o : Option Node) (len : ℕ) (prefix : List ℕ)
    → IsIndex (record { root = o; len = len })
    → scan_prefix (record { root = o; len = len }) prefix
      ≡ with_prefix prefix (scan_prefix (record { root = o; len = len }) [])
unfolding scan_prefix IsIndex with_prefix
scan_root none len prefix h = refl
scan_root (some n) len prefix h = scan_node prefix n [] h.0 (near_nil prefix)

-- In a well-formed index the scan of a prefix, which leaves out the subtrees whose path departs from
-- the prefix, gives the entries of the full scan whose key begins with the prefix, in its order.
pub scan_prefix-with_prefix :
    (t : ArtIndex) (prefix : List ℕ)
    → IsIndex t
    → scan_prefix t prefix ≡ with_prefix prefix (scan_prefix t [])
scan_prefix-with_prefix t prefix h = scan_root t.root t.len prefix h
