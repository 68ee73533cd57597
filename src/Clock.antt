-- ===== src/Clock.antt =====
-- `VectorClock` of src/memory_doc.rs.
--
-- The arrays `nodes` and `counts` are the list `slots` of the pairs (nodes[i], counts[i]); a slot
-- with the node 0xFF is free. Node ids are u8 values, so 0xFF is also the id of a node that the
-- slots cannot hold: the laws are about the ids below 0xFF.
pub mod Invariant
mod Writes
mod NewEntry
mod Runs
pub mod Laws
pub mod Reserved
pub mod Wire
pub mod Order
pub mod Causality
pub mod Counter
use neural_sgdb.Prelude.{
  ℕ, ◌+◌, ◌-◌, ◌^◌, Bool, true, false, not, ◌&&◌, Option, none, some, [], ◌∷◌, ◌++◌, foldl, length,
  replicate, ltb, ◌==◌, if◌then◌else◌,
}
use neural_sgdb.Prelude.Assoc.{Pairs, find, or_zero}

abbrev pub free : ℕ
free = 0xff

abbrev pub max_overflow_nodes : ℕ
max_overflow_nodes = 248

abbrev pub u64_max : ℕ
u64_max = 2 ^ 64 - 1

-- `u64::saturating_add`
abbrev pub saturating_add : ℕ → ℕ → ℕ
saturating_add a b = if ltb u64_max (a + b) then u64_max else a + b

pub record VectorClock : Type 0 where
  pub slots : Pairs
  pub overflow : Pairs

unfoldable pub new : VectorClock
new = record { slots = replicate 8 (free, 0); overflow = [] }

-- The slots in use.
unfoldable pub used : Pairs → Pairs
used [] = []
used ((n, c) ∷ s) = if n == free then used s else (n, c) ∷ used s

-- `iter_nodes`, and `entries`, which collects it
unfoldable pub entries : VectorClock → Pairs
entries vc = used vc.slots ++ vc.overflow

-- Writes the counter of the first pair with the node; `none` if there is no such pair.
pub set_first : Pairs → ℕ → ℕ → Option Pairs
set_first [] n c = none
set_first ((m, k) ∷ s) n c =
    if m == n
    then some ((m, c) ∷ s)
    else elim (set_first s n c) [ none ↦ none | some s' ↦ some ((m, k) ∷ s') ]

-- Puts the pair into the first free slot; `none` if no slot is free.
pub take_free : Pairs → ℕ → ℕ → Option Pairs
take_free [] n c = none
take_free ((m, k) ∷ s) n c =
    if m == free
    then some ((n, c) ∷ s)
    else elim (take_free s n c) [ none ↦ none | some s' ↦ some ((m, k) ∷ s') ]

-- The overflow's part of `set_counter`.
pub set_overflow : VectorClock → ℕ → ℕ → VectorClock
unfolding set_first
set_overflow vc n c = elim (set_first vc.overflow n c) [
  | some o ↦ record vc { overflow = o }
  | none ↦
      if ltb (length vc.overflow) max_overflow_nodes
      then record vc { overflow = vc.overflow ++ ((n, c) ∷ []) }
      else vc
]

unfoldable pub set_counter : VectorClock → ℕ → ℕ → VectorClock
unfolding set_first take_free set_overflow
set_counter vc n c = elim (set_first vc.slots n c) [
  | some s ↦ record vc { slots = s }
  | none ↦ elim (take_free vc.slots n c) [
    | some s ↦ record vc { slots = s }
    | none ↦ set_overflow vc n c
  ]
]

unfoldable pub counter_of : VectorClock → ℕ → ℕ
unfolding find
counter_of vc n = elim (find vc.slots n) [ some c ↦ c | none ↦ or_zero (find vc.overflow n) ]

unfoldable pub tick : VectorClock → ℕ → VectorClock
unfolding counter_of set_counter
tick vc n =
    let c = counter_of vc n in if c == u64_max then vc else set_counter vc n (saturating_add c 1)

-- Every pair of the list has in `vc` the counter that the test asks for.
pub all_pairs : (ℕ → ℕ → Bool) → Pairs → Bool
all_pairs p [] = true
all_pairs p ((n, c) ∷ s) = p n c && all_pairs p s

unfoldable pub is_vacuous : VectorClock → Bool
unfolding all_pairs entries used
is_vacuous vc = all_pairs (λ n c. c == 0) (entries vc)

unfoldable pub is_zero_at : VectorClock → ℕ → Bool
unfolding counter_of
is_zero_at vc n = counter_of vc n == 0

-- `PartialEq::eq`
unfoldable pub eq : VectorClock → VectorClock → Bool
eq a b =
    all_pairs (λ n c. counter_of b n == c) (entries a)
    && all_pairs (λ n c. counter_of a n == c) (entries b)

-- The first loop of `happens_before`: `none` is its early `return false`, and the flag is
-- `strictly_less`.
pub compare_own : VectorClock → Pairs → Bool → Option Bool
unfolding counter_of
compare_own b [] strictly_less = some strictly_less
compare_own b ((n, c) ∷ s) strictly_less =
    let oc = counter_of b n in
    let rest = compare_own b s (if ltb c oc then true else strictly_less) in
    if ltb oc c then none else rest

-- The second loop.
pub compare_other : VectorClock → Pairs → Bool → Bool
unfolding counter_of
compare_other a [] strictly_less = strictly_less
compare_other a ((n, c) ∷ s) strictly_less =
    compare_other a s (if ltb (counter_of a n) c then true else strictly_less)

unfoldable pub happens_before : VectorClock → VectorClock → Bool
happens_before a b = if eq a b then false else elim (compare_own b (entries a) false) [
  | none ↦ false
  | some strictly_less ↦ compare_other a (entries b) strictly_less
]

unfoldable pub concurrent : VectorClock → VectorClock → Bool
concurrent a b = not (eq a b) && not (happens_before a b) && not (happens_before b a)

-- One round of `merge`.
pub merge_pair : VectorClock → ℕ × ℕ → VectorClock
unfolding counter_of set_counter
merge_pair vc (n, c) = if ltb (counter_of vc n) c then set_counter vc n c else vc

unfoldable pub merge : VectorClock → VectorClock → VectorClock
unfolding merge_pair entries used
merge vc other = foldl merge_pair vc (entries other)
