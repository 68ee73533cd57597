-- ===== src/Clock/Causality.antt =====
-- Concurrency, and the order and the join that `happens_before` and `merge` of
-- src/memory_doc.rs make of the clocks.
use neural_sgdb.Prelude.{◌≡◌, ◌↔◌, inl, inr, true, false, arith, Bool-cases}
use neural_sgdb.Clock.{VectorClock, entries, eq, happens_before, concurrent, merge}
use neural_sgdb.Clock.Invariant.{IsWf}
use neural_sgdb.Clock.Laws.{counter_of-merge, merge-IsWf}
use neural_sgdb.Clock.Order.{
  Le, eq_iff, eq-dominated, happens_before_iff, happens_before-dominated, dominated,
  dominated-iff-Le,
}

-- On well-formed clocks `concurrent` holds exactly when neither clock is at most the other.
pub concurrent_iff :
    (a b : VectorClock) → IsWf a → IsWf b → (concurrent a b ≡ true) ↔ (¬ (Le a b) × ¬ (Le b a))
unfolding concurrent
concurrent_iff a b wa wb =
    let e = eq-dominated a b wa wb in
    let f = happens_before-dominated a b wa wb in
    let g = happens_before-dominated b a wb wa in
    let le = dominated-iff-Le a b wa in
    let ge = dominated-iff-Le b a wb in
    (
      λ h. (λ k. ground (arith, e, f, g, le.1 k), λ k. ground (arith, e, f, g, ge.1 k)),
      λ h. elim (Bool-cases (dominated b (entries a))) [
        | inl below ↦ absurd (h.0 (le.0 below))
        | inr not_below ↦ elim (Bool-cases (dominated a (entries b))) [
          | inl above ↦ absurd (h.1 (ge.0 above))
          | inr not_above ↦ ground (arith, e, f, g)
        ]
      ],
    )

-- On well-formed clocks `happens_before` is transitive, and holds one way at most.
pub happens_before_trans :
    (a b c : VectorClock)
    → IsWf a
    → IsWf b
    → IsWf c
    → happens_before a b ≡ true
    → happens_before b c ≡ true
    → (happens_before a c ≡ true) × (happens_before c a ≡ false)
happens_before_trans a b c wa wb wc h k =
    let p = (happens_before_iff a b wa wb).0 h in
    let q = (happens_before_iff b c wb wc).0 k in
    let le : Le a c = λ n hn. omega (arith, p.0 n hn, q.0 n hn) in
    let not_ge : ¬ (Le c a) = λ r. p.1 (λ n hn. omega (arith, q.0 n hn, r n hn)) in
    (
      (happens_before_iff a c wa wc).1 (le, not_ge),
      elim (Bool-cases (happens_before c a)) [
        | inl back ↦ absurd (not_ge ((happens_before_iff c a wc wa).0 back).0)
        | inr no_back ↦ no_back
      ],
    )

-- On well-formed clocks `merge` is the least upper bound: both clocks are at most the merged one,
-- and it is at most any clock that both are at most.
pub merge_lub :
    (a b c : VectorClock)
    → IsWf a
    → IsWf b
    → Le a (merge a b) × Le b (merge a b) × (Le a c → Le b c → Le (merge a b) c)
merge_lub a b c wa wb = (
  λ n hn. omega (arith, counter_of-merge a b n wa wb hn),
  λ n hn. omega (arith, counter_of-merge a b n wa wb hn),
  λ h k n hn. omega (arith, counter_of-merge a b n wa wb hn, h n hn, k n hn),
)

-- Up to the code's `==`, `merge` of well-formed clocks is commutative, associative and
-- idempotent: replicas that exchange clocks in any order agree.
pub merge_semilattice :
    (a b c : VectorClock)
    → IsWf a
    → IsWf b
    → IsWf c
    → (eq (merge a b) (merge b a) ≡ true)
      × (eq (merge (merge a b) c) (merge a (merge b c)) ≡ true)
      × (eq (merge a a) a ≡ true)
merge_semilattice a b c wa wb wc =
    let ab = merge-IsWf a b wa wb in
    let ba = merge-IsWf b a wb wa in
    let bc = merge-IsWf b c wb wc in
    (
      (eq_iff _ _ ab ba).1
          (λ n hn. omega (arith, counter_of-merge a b n wa wb hn, counter_of-merge b a n wb wa hn)),
      (eq_iff _ _ (merge-IsWf _ c ab wc) (merge-IsWf a _ wa bc)).1 (λ n hn. omega (
        arith,
        counter_of-merge (merge a b) c n ab wc hn,
        counter_of-merge a b n wa wb hn,
        counter_of-merge a (merge b c) n wa bc hn,
        counter_of-merge b c n wb wc hn,
      )),
      (eq_iff _ _ (merge-IsWf a a wa wa) wa).1
          (λ n hn. omega (arith, counter_of-merge a a n wa wa hn)),
    )
