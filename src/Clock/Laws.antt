-- ===== src/Clock/Laws.antt =====
-- Reads after writes, on well-formed clocks: `set_counter`, `tick` and `merge` of
-- src/memory_doc.rs.
use neural_sgdb.Prelude.{
  ℕ, ◌<◌, ◌≡◌, inl, inr, none, [], ◌∷◌, arith, ltb, ◌==◌, if◌then◌else◌, foldl, max, Bool-cases,
}
use neural_sgdb.Prelude.Assoc.{Pairs, find, or_zero, Distinct, KeysBelow}
use neural_sgdb.Clock.{
  VectorClock, free, entries, set_counter, counter_of, tick, merge, merge_pair, u64_max,
  saturating_add,
}
use neural_sgdb.Clock.Counter.{counter_of-set_counter_room, counter_of-entries}
use neural_sgdb.Clock.Invariant.{IsWf, overflow-room, set_counter-IsWf}

-- On a well-formed clock a write to a node id that the slots can hold is never dropped: it is
-- read back, and every other counter is as before.
pub counter_of-set_counter :
    (vc : VectorClock) (n c m : ℕ)
    → IsWf vc
    → n < free
    → m < free
    → counter_of (set_counter vc n c) m ≡ (if n == m then c else counter_of vc m)
counter_of-set_counter vc n c m wf hn hm =
    counter_of-set_counter_room vc n c m (omega arith) (omega arith) (λ _. elim wf.full [
      | inl none_yet ↦ rw none_yet (omega arith)
      | inr full ↦ overflow-room vc wf full
    ])

-- `tick` keeps a clock well-formed.
pub tick-IsWf : (vc : VectorClock) (n : ℕ) → n < free → IsWf vc → IsWf (tick vc n)
unfolding tick
tick-IsWf vc n h wf = elim (Bool-cases (counter_of vc n == u64_max)) [
  | inl full ↦ rw full wf
  | inr room ↦ rw room (set_counter-IsWf vc n (saturating_add (counter_of vc n) 1) h wf)
]

-- `tick` adds one to the node's counter, which stays at the largest u64, and changes no other.
pub counter_of-tick :
    (vc : VectorClock) (n m : ℕ)
    → IsWf vc
    → n < free
    → m < free
    → counter_of (tick vc n) m
      ≡ (if n == m then saturating_add (counter_of vc n) 1 else counter_of vc m)
unfolding tick
counter_of-tick vc n m wf hn hm =
    ground (arith, counter_of-set_counter vc n (saturating_add (counter_of vc n) 1) m wf hn hm)

merge_pair-IsWf : (vc : VectorClock) (p : ℕ × ℕ) → p.0 < free → IsWf vc → IsWf (merge_pair vc p)
unfolding merge_pair
merge_pair-IsWf vc (n, c) h wf = elim (Bool-cases (ltb (counter_of vc n) c)) [
  | inl more ↦ rw more (set_counter-IsWf vc n c h wf)
  | inr same ↦ rw same wf
]

counter_of-merge_pair :
    (vc : VectorClock) (n c m : ℕ)
    → IsWf vc
    → n < free
    → m < free
    → counter_of (merge_pair vc (n, c)) m
      ≡ (if n == m then max (counter_of vc m) c else counter_of vc m)
unfolding merge_pair
counter_of-merge_pair vc n c m wf hn hm = ground (arith, counter_of-set_counter vc n c m wf hn hm)

merge_loop-IsWf :
    (vc : VectorClock) (es : Pairs) → KeysBelow free es → IsWf vc → IsWf (foldl merge_pair vc es)
merge_loop-IsWf vc [] h wf = wf
merge_loop-IsWf vc (p ∷ es) h wf =
    merge_loop-IsWf (merge_pair vc p) es h.1 (merge_pair-IsWf vc p h.0 wf)

counter_of-merge_loop :
    (vc : VectorClock) (es : Pairs) (m : ℕ)
    → IsWf vc
    → KeysBelow free es
    → Distinct es
    → m < free
    → counter_of (foldl merge_pair vc es) m ≡ max (counter_of vc m) (or_zero (find es m))
unfolding find
counter_of-merge_loop vc [] m wf b d hm = omega arith
counter_of-merge_loop vc ((n, c) ∷ es) m wf b d hm =
    let ih =
      counter_of-merge_loop (merge_pair vc (n, c)) es m (merge_pair-IsWf vc (n, c) b.0 wf) b.1 d.1
        hm in
    let step = counter_of-merge_pair vc n c m wf b.0 hm in
    elim (Bool-cases (n == m)) [
      | inl same ↦
          let e : n ≡ m = ground arith in
          let absent : find es m ≡ none = rw (← e) d.0 in ground (arith, ih, step, absent)
      | inr other ↦ ground (arith, ih, step)
    ]

-- `merge` keeps a clock well-formed.
pub merge-IsWf : (a b : VectorClock) → IsWf a → IsWf b → IsWf (merge a b)
unfolding merge
merge-IsWf a b wa wb = merge_loop-IsWf a (entries b) wb.below wa

-- `merge` of well-formed clocks takes the larger of the two counters of each node other than 0xFF.
pub counter_of-merge :
    (a b : VectorClock) (m : ℕ)
    → IsWf a
    → IsWf b
    → m < free
    → counter_of (merge a b) m ≡ max (counter_of a m) (counter_of b m)
unfolding merge
counter_of-merge a b m wa wb hm =
    rw (counter_of-entries b m (omega arith))
      (counter_of-merge_loop a (entries b) m wa wb.below wb.distinct hm)
