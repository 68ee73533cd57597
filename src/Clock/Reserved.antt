-- ===== src/Clock/Reserved.antt =====
-- The node id 0xFF, which `VectorClock` of src/memory_doc.rs also uses as the mark of a free slot.
use neural_sgdb.Prelude.{
  ℕ, ◌≡◌, ◌≢◌, inl, inr, none, some, [], ◌∷◌, arith, ◌==◌, Bool-cases, Option-cases,
}
use neural_sgdb.Prelude.Assoc.{Pairs, find}
use neural_sgdb.Clock.{
  VectorClock, free, used, entries, set_first, set_counter, counter_of, tick, u64_max,
  saturating_add,
}
use neural_sgdb.Clock.Counter.{set_first-none}

used-reserved : (s : Pairs) (c : ℕ) (t : Pairs) → set_first s free c ≡ some t → used t ≡ used s
unfolding set_first used
used-reserved [] c t e = cc
used-reserved ((k, d) ∷ s) c t e = elim (Option-cases (set_first s free c)) [
  | inl absent ↦ ground arith
  | inr (s', found) ↦ ground (arith, used-reserved s c s' found)
]

entries-reserved :
    (vc : VectorClock) (c : ℕ)
    → find vc.slots free ≢ none
    → entries (set_counter vc free c) ≡ entries vc
unfolding entries
entries-reserved vc c h = elim (Option-cases (set_first vc.slots free c)) [
  | inl absent ↦ absurd (h (set_first-none vc.slots free c absent))
  | inr (s, found) ↦
      let e : set_counter vc free c ≡ record vc { slots = s } =
        unfold set_counter in rw (found, set_counter) in
      rw (e, used-reserved vc.slots c s found)
]

-- While a slot is free, a tick of the node 0xFF leaves the entries of the clock as they were.
pub tick_reserved :
    (vc : VectorClock) → find vc.slots free ≢ none → entries (tick vc free) ≡ entries vc
unfolding tick
tick_reserved vc h = elim (Bool-cases (counter_of vc free == u64_max)) [
  | inl full ↦ rw full
  | inr room ↦ rw room (entries-reserved vc (saturating_add (counter_of vc free) 1) h)
]
