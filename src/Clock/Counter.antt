-- ===== src/Clock/Counter.antt =====
-- `counter_of` against the entries, and what a write does to each counter.
use neural_sgdb.Prelude.{
  ℕ, ◌<◌, ◌≡◌, ◌≢◌, refl, inl, inr, none, some, [], ◌∷◌, arith, length, ◌==◌, if◌then◌else◌,
  Option-cases,
}
use neural_sgdb.Prelude.Assoc.{Pairs, find, find-append, or_zero, or_else}
use neural_sgdb.Clock.{
  VectorClock, free, used, entries, set_first, take_free, set_overflow, set_counter, counter_of,
}

pub find-used : (s : Pairs) (n : ℕ) → n ≢ free → find (used s) n ≡ find s n
unfolding find used
find-used [] n h = refl
find-used ((m, c) ∷ s) n h = ground (arith, find-used s n h)

-- The counter of a node is its first entry's, or 0.
pub counter_of-entries :
    (vc : VectorClock) (n : ℕ) → n ≢ free → counter_of vc n ≡ or_zero (find (entries vc) n)
unfolding counter_of entries
counter_of-entries vc n h =
    ground (arith, find-append (used vc.slots) vc.overflow n, find-used vc.slots n h)

pub find-one : (n c m : ℕ) → find ((n, c) ∷ []) m ≡ (if n == m then some c else none)
unfolding find
find-one n c m = refl

pub find-set_first :
    (s : Pairs) (n c m : ℕ) (t : Pairs)
    → set_first s n c ≡ some t
    → find t m ≡ (if n == m then some c else find s m)
unfolding find set_first
find-set_first [] n c m t e = cc
find-set_first ((k, d) ∷ s) n c m t e = elim (Option-cases (set_first s n c)) [
  | inl none_left ↦ ground arith
  | inr (s', found) ↦ ground (arith, find-set_first s n c m s' found)
]

pub set_first-none : (s : Pairs) (n c : ℕ) → set_first s n c ≡ none → find s n ≡ none
unfolding find set_first
set_first-none [] n c e = refl
set_first-none ((k, d) ∷ s) n c e = ground (arith, set_first-none s n c)

pub find-take_free :
    (s : Pairs) (n c m : ℕ) (t : Pairs)
    → take_free s n c ≡ some t
    → m ≢ free
    → find s n ≡ none
    → find t m ≡ (if n == m then some c else find s m)
unfolding find take_free
find-take_free [] n c m t e h a = cc
find-take_free ((k, d) ∷ s) n c m t e h a = elim (Option-cases (take_free s n c)) [
  | inl none_left ↦ ground arith
  | inr (s', found) ↦ ground (arith, find-take_free s n c m s' found h)
]

pub slots-set_overflow : (vc : VectorClock) (n c : ℕ) → (set_overflow vc n c).slots ≡ vc.slots
unfolding set_overflow
slots-set_overflow vc n c = ground arith

pub find-set_overflow :
    (vc : VectorClock) (n c m : ℕ)
    → (find vc.overflow n ≡ none → length vc.overflow < 248)
    → find (set_overflow vc n c).overflow m ≡ (if n == m then some c else find vc.overflow m)
unfolding set_overflow
find-set_overflow vc n c m room = elim (Option-cases (set_first vc.overflow n c)) [
  | inl absent ↦
      let a = set_first-none vc.overflow n c absent in
      ground (arith, room a, find-append vc.overflow ((n, c) ∷ []) m, find-one n c m)
  | inr (o, found) ↦ ground (arith, find-set_first vc.overflow n c m o found)
]

pub find-entries :
    (vc : VectorClock) (n : ℕ)
    → n ≢ free
    → find (entries vc) n ≡ or_else (find vc.slots n) (find vc.overflow n)
unfolding entries
find-entries vc n h = rw (find-append (used vc.slots) vc.overflow n, find-used vc.slots n h)

-- A write to `n` is read back, and leaves every other counter alone, when the overflow has room.
pub counter_of-set_counter_room :
    (vc : VectorClock) (n c m : ℕ)
    → n ≢ free
    → m ≢ free
    → (find (entries vc) n ≡ none → length vc.overflow < 248)
    → counter_of (set_counter vc n c) m ≡ (if n == m then c else counter_of vc m)
unfolding counter_of set_counter
counter_of-set_counter_room vc n c m hn hm room = elim (Option-cases (set_first vc.slots n c)) [
  | inl absent ↦ elim (Option-cases (take_free vc.slots n c)) [
    | inl full ↦
        let a = set_first-none vc.slots n c absent in
        let e = find-entries vc n hn in
        ground (
          arith,
          a,
          slots-set_overflow vc n c,
          find-set_overflow vc n c m (λ o. room (ground (arith, a, o, e))),
        )
    | inr (s, found) ↦
        ground
          (arith, find-take_free vc.slots n c m s found hm (set_first-none vc.slots n c absent))
  ]
  | inr (s, found) ↦ ground (arith, find-set_first vc.slots n c m s found)
]
