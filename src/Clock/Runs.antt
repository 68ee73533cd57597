-- ===== src/Clock/Runs.antt =====
-- Runs of the clock operations, and their theorems at concrete clocks.
use neural_sgdb.Prelude.{◌≡◌, ◌↔◌, refl, true, false, [], ◌∷◌, arith, max}
use neural_sgdb.Prelude.Assoc.{find}
use neural_sgdb.Clock.{
  VectorClock, free, new, tick, set_counter, counter_of, entries, eq, happens_before, concurrent,
  merge, all_pairs, compare_own, compare_other,
}
use neural_sgdb.Clock.Invariant.{IsWf, new-IsWf, set_counter-IsWf}
use neural_sgdb.Clock.Laws.{tick-IsWf, counter_of-merge}
use neural_sgdb.Clock.Order.{Le, happens_before_iff}
use neural_sgdb.Clock.Causality.{concurrent_iff, merge_semilattice}
use neural_sgdb.Clock.Reserved.{tick_reserved}

-- Node 1 wrote twice, and node 2 once beside it.
abbrev one : VectorClock
one = tick new 1

abbrev two : VectorClock
two = tick one 1

abbrev beside : VectorClock
beside = tick one 2

one-IsWf : IsWf one
one-IsWf = tick-IsWf new 1 (omega arith) new-IsWf

two-IsWf : IsWf two
two-IsWf = tick-IsWf one 1 (omega arith) one-IsWf

beside-IsWf : IsWf beside
beside-IsWf = tick-IsWf one 2 (omega arith) one-IsWf

-- Nine nodes: the ninth goes to the overflow.
abbrev nine : VectorClock
nine = tick (tick (tick (tick (tick (tick (tick (tick (tick new 1) 2) 3) 4) 5) 6) 7) 8) 9

nine_overflows : nine.overflow ≡ (9, 1) ∷ []
unfolding tick new
nine_overflows = refl

before_two : (happens_before one two ≡ true) × (happens_before two one ≡ false)
unfolding happens_before eq tick new merge all_pairs compare_own compare_other
before_two = (refl, refl)

apart_run : concurrent two beside ≡ true
unfolding concurrent happens_before eq tick new merge all_pairs compare_own compare_other
apart_run = refl

joined : merge two beside ≡ set_counter two 2 1
unfolding merge tick new
joined = refl

-- A clock of the node 0xFF is equal to the empty clock.
reserved_is_lost : eq (tick new free) new ≡ true
unfolding eq tick new merge all_pairs
reserved_is_lost = refl

set_counter-IsWf_example : IsWf (set_counter two 2 7)
set_counter-IsWf_example = set_counter-IsWf two 2 7 (omega arith) two-IsWf

counter_of-merge_example :
    counter_of (merge two beside) 2 ≡ max (counter_of two 2) (counter_of beside 2)
counter_of-merge_example = counter_of-merge two beside 2 two-IsWf beside-IsWf (omega arith)

happens_before_iff_example : (happens_before one two ≡ true) ↔ (Le one two × ¬ (Le two one))
happens_before_iff_example = happens_before_iff one two one-IsWf two-IsWf

concurrent_iff_example : (concurrent two beside ≡ true) ↔ (¬ (Le two beside) × ¬ (Le beside two))
concurrent_iff_example = concurrent_iff two beside two-IsWf beside-IsWf

merge_semilattice_example :
    (eq (merge one two) (merge two one) ≡ true)
    × (eq (merge (merge one two) beside) (merge one (merge two beside)) ≡ true)
    × (eq (merge one one) one ≡ true)
merge_semilattice_example = merge_semilattice one two beside one-IsWf two-IsWf beside-IsWf

tick_reserved_example : entries (tick two free) ≡ entries two
unfolding tick new find
tick_reserved_example = tick_reserved two (λ p. cc)
