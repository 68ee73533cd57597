-- ===== src/Clock/Order.antt =====
-- The comparisons of clocks (`==`, `happens_before`, `concurrent` of src/memory_doc.rs) against
-- the order of the counters.
use neural_sgdb.Prelude.{
  ℕ, ◌≤◌, ◌<◌, ◌≡◌, ◌↔◌, refl, sym, inl, inr, Bool, true, false, not, ◌&&◌, ◌||◌, none, some, [],
  ◌∷◌, arith, ltb, leb, ◌==◌, if◌then◌else◌, Bool-cases, Option-cases,
}
use neural_sgdb.Prelude.Assoc.{Pairs, find, Distinct, KeysBelow}
use neural_sgdb.Clock.{
  VectorClock, free, entries, counter_of, all_pairs, eq, compare_own, compare_other, happens_before,
}
use neural_sgdb.Clock.Counter.{counter_of-entries}
use neural_sgdb.Clock.Invariant.{IsWf}

-- Every counter of `a` is at most the one of `b`.
abbrev pub Le : VectorClock → VectorClock → Type 0
Le a b = (n : ℕ) → n < free → counter_of a n ≤ counter_of b n

-- The two clocks have the same counters.
abbrev pub Same : VectorClock → VectorClock → Type 0
Same a b = (n : ℕ) → n < free → counter_of a n ≡ counter_of b n

find-below : (s : Pairs) (n c k : ℕ) → find s n ≡ some c → KeysBelow k s → n < k
unfolding find
find-below [] n c k e b = cc
find-below ((m, d) ∷ s) n c k e b = ground (arith, find-below s n c k)

all_pairs-find :
    (p : ℕ → ℕ → Bool) (s : Pairs) (n c : ℕ)
    → all_pairs p s ≡ true
    → find s n ≡ some c
    → p n c ≡ true
unfolding all_pairs find
all_pairs-find p [] n c h e = cc
all_pairs-find p ((m, d) ∷ s) n c h e = elim (Bool-cases (m == n)) [
  | inl same ↦ ground arith
  | inr other ↦ all_pairs-find p s n c (ground arith) (ground arith)
]

all_pairs_intro :
    (p : ℕ → ℕ → Bool) (s : Pairs)
    → Distinct s
    → ((n c : ℕ) → find s n ≡ some c → p n c ≡ true)
    → all_pairs p s ≡ true
unfolding all_pairs find
all_pairs_intro p [] d h = refl
all_pairs_intro p ((m, c) ∷ s) d h =
    let ih = all_pairs_intro p s d.1 λ n x e. h n x (ground (arith, d.0)) in
    ground (arith, h m c, ih)

-- Whether every pair of the list is at most the counter in `b`.
pub dominated : VectorClock → Pairs → Bool
dominated b s = all_pairs (λ n c. leb c (counter_of b n)) s

pub dominated-iff-Le : (a b : VectorClock) → IsWf a → (dominated b (entries a) ≡ true) ↔ Le a b
unfolding dominated
dominated-iff-Le a b wa = (
  λ h n hn.
      let e = counter_of-entries a n (omega arith) in
      elim (Option-cases (find (entries a) n)) [
        | inl absent ↦ ground (arith, e)
        | inr (c, found) ↦
            ground
              (arith, e, all_pairs-find (λ n c. leb c (counter_of b n)) (entries a) n c h found)
      ],
  λ h.
      all_pairs_intro (λ n c. leb c (counter_of b n)) (entries a) wa.distinct
        λ n c e.
          let hn = find-below (entries a) n c free e wa.below in
          ground (arith, h n hn, counter_of-entries a n (omega arith)),
)

compare_other-dominated :
    (a : VectorClock) (s : Pairs) (flag : Bool)
    → compare_other a s flag ≡ (flag || not (dominated a s))
unfolding compare_other dominated all_pairs
compare_other-dominated a [] flag = ground arith
compare_other-dominated a ((n, c) ∷ s) flag =
    ground (arith, compare_other-dominated a s (if ltb (counter_of a n) c then true else flag))

exceeded : VectorClock → Pairs → Bool
exceeded b s = not (all_pairs (λ n c. leb (counter_of b n) c) s)

compare_own-dominated :
    (b : VectorClock) (s : Pairs) (flag : Bool)
    → compare_own b s flag ≡ (if dominated b s then some (flag || exceeded b s) else none)
unfolding compare_own dominated exceeded all_pairs
compare_own-dominated b [] flag = ground arith
compare_own-dominated b ((n, c) ∷ s) flag =
    ground (arith, compare_own-dominated b s (if ltb c (counter_of b n) then true else flag))

Same-agree :
    (a b : VectorClock)
    → IsWf a
    → Same a b
    → all_pairs (λ n c. counter_of b n == c) (entries a) ≡ true
Same-agree a b wa h =
    all_pairs_intro (λ n c. counter_of b n == c) (entries a) wa.distinct
      λ n c e.
        let hn = find-below (entries a) n c free e wa.below in
        ground (arith, h n hn, counter_of-entries a n (omega arith))

-- On well-formed clocks `==` holds exactly when every node has the same counter in both, in
-- whatever order the nodes came in.
pub eq_iff : (a b : VectorClock) → IsWf a → IsWf b → (eq a b ≡ true) ↔ Same a b
unfolding eq
eq_iff a b wa wb = (
  λ h n hn.
      let ea = counter_of-entries a n (omega arith) in
      let eb = counter_of-entries b n (omega arith) in
      let ha = all_pairs-find (λ n c. counter_of b n == c) (entries a) n in
      let hb = all_pairs-find (λ n c. counter_of a n == c) (entries b) n in
      elim (Option-cases (find (entries a) n)) [
        | inl absent ↦ elim (Option-cases (find (entries b) n)) [
          | inl absent' ↦ ground (arith, ea, eb)
          | inr (c, found) ↦ ground (arith, hb c (ground arith) found, eb)
        ]
        | inr (c, found) ↦ ground (arith, ha c (ground arith) found, ea)
      ],
  λ h. ground (arith, Same-agree a b wa h, Same-agree b a wb (λ n hn. sym (h n hn))),
)

pub eq-dominated :
    (a b : VectorClock)
    → IsWf a
    → IsWf b
    → eq a b ≡ (dominated b (entries a) && dominated a (entries b))
eq-dominated a b wa wb =
    let same = eq_iff a b wa wb in
    let le = dominated-iff-Le a b wa in
    let ge = dominated-iff-Le b a wb in
    elim (Bool-cases (eq a b)) [
      | inl yes_eq ↦
          let h = same.0 yes_eq in
          ground (
            arith,
            yes_eq,
            le.1 (λ n hn. omega (arith, h n hn)),
            ge.1 (λ n hn. omega (arith, h n hn)),
          )
      | inr not_eq ↦ ground (
        arith,
        not_eq,
        λ (p : dominated b (entries a) ≡ true) (q : dominated a (entries b) ≡ true).
            same.1 (λ n hn. omega (arith, le.0 p n hn, ge.0 q n hn)),
      )
    ]

-- The two loops of `happens_before` decide domination one way and not the other.
pub happens_before-dominated :
    (a b : VectorClock)
    → IsWf a
    → IsWf b
    → happens_before a b ≡ (dominated b (entries a) && not (dominated a (entries b)))
unfolding happens_before
happens_before-dominated a b wa wb = ground (
  arith,
  eq-dominated a b wa wb,
  compare_own-dominated b (entries a) false,
  compare_other-dominated a (entries b) (exceeded b (entries a)),
)

-- On well-formed clocks `happens_before` is the strict part of the order of the counters.
pub happens_before_iff :
    (a b : VectorClock) → IsWf a → IsWf b → (happens_before a b ≡ true) ↔ (Le a b × ¬ (Le b a))
happens_before_iff a b wa wb =
    let e = happens_before-dominated a b wa wb in
    let le = dominated-iff-Le a b wa in
    let ge = dominated-iff-Le b a wb in
    (
      λ h. (le.0 (ground (arith, e)), λ k. ground (arith, e, ge.1 k)),
      λ h. elim (Bool-cases (dominated a (entries b))) [
        | inl both ↦ absurd (h.1 (ge.0 both))
        | inr only ↦ ground (arith, e, le.1 h.0)
      ],
    )
