-- ===== src/Clock/Invariant.antt =====
-- The well-formedness of a clock: eight slots, each node at most once, overflow only when the
-- slots are full. `VectorClock` of src/memory_doc.rs states the last two in its comments.
use neural_sgdb.Prelude.{
  ℕ, ◌<◌, ◌≡◌, refl, ◌∙◌, ◌⊎◌, inl, inr, none, some, [], ◌∷◌, ◌++◌, arith, length, length-append,
  All-append, Option-cases, lt→ltb, append_assoc,
}
use neural_sgdb.Prelude.Assoc.{Pairs, find, Distinct, KeysBelow, length-le_of_Distinct}
use neural_sgdb.Clock.{
  VectorClock, free, new, used, entries, set_first, take_free, set_overflow, set_counter,
}
use neural_sgdb.Clock.Counter.{find-used, find-set_first, set_first-none}
use neural_sgdb.Clock.Writes.{
  length-set_first, length-take_free, take_free-none, take_free-some, set_first-Distinct,
  set_first-KeysBelow, set_first-used, set_first-overflow, find-used_append,
}
use neural_sgdb.Clock.NewEntry.{take_free-Distinct, take_free-KeysBelow, Distinct-append_one}

pub record IsWf (vc : VectorClock) : Type 0 where
  pub eight : length vc.slots ≡ 8
  pub distinct : Distinct (entries vc)
  pub below : KeysBelow free (entries vc)
  pub full : (vc.overflow ≡ []) ⊎ (find vc.slots free ≡ none)

pub new-IsWf : IsWf new
unfolding new entries used
new-IsWf = record { eight = refl; distinct = tt; below = tt; full = inl refl }

used-full : (s : Pairs) → find s free ≡ none → used s ≡ s
unfolding used find
used-full [] h = refl
used-full ((k, x) ∷ s) h = ground (arith, used-full s)

-- A well-formed clock has room for every node id that the slots can hold: 247 ids at most are
-- left for the 248 places of the overflow.
pub overflow-room :
    (vc : VectorClock) → IsWf vc → find vc.slots free ≡ none → length vc.overflow < 248
unfolding entries
overflow-room vc wf full =
    let e = used-full vc.slots full in
    let b = length-le_of_Distinct free (entries vc) wf.distinct wf.below in
    omega (arith, rw e at b, length-append vc.slots vc.overflow, wf.eight)

push-IsWf :
    (vc : VectorClock) (n c : ℕ)
    → n < free
    → IsWf vc
    → find vc.slots n ≡ none
    → find vc.overflow n ≡ none
    → find vc.slots free ≡ none
    → IsWf (record vc { overflow = vc.overflow ++ ((n, c) ∷ []) })
unfolding entries
push-IsWf vc n c h wf in_slots in_overflow full =
    let e = append_assoc (used vc.slots) vc.overflow ((n, c) ∷ []) in
    let a = find-used_append vc.slots vc.overflow n (omega arith) in
    record {
      eight = wf.eight;
      distinct = rw (← e) (Distinct-append_one _ n c (ground (arith, a)) wf.distinct);
      below = rw (← e) (
          All-append (λ p. p.0 < free) (used vc.slots ++ vc.overflow) ((n, c) ∷ []) wf.below
            (h, tt));
      full = inr full;
    }

overflow-IsWf :
    (vc : VectorClock) (n c : ℕ) (o : Pairs)
    → n < free
    → IsWf vc
    → find vc.slots n ≡ none
    → find vc.slots free ≡ none
    → set_first vc.overflow n c ≡ some o
    → IsWf (record vc { overflow = o })
unfolding entries
overflow-IsWf vc n c o h wf absent full found =
    let a : find (used vc.slots) n ≡ none = rw (find-used vc.slots n (omega arith)) absent in
    let e = set_first-overflow (used vc.slots) vc.overflow n c o a found in
    record {
      eight = wf.eight;
      distinct = rw e at (set_first-Distinct (entries vc) n c wf.distinct);
      below = rw e at (set_first-KeysBelow free (entries vc) n c wf.below);
      full = inr full;
    }

slot-IsWf :
    (vc : VectorClock) (n c : ℕ) (s : Pairs)
    → n < free
    → IsWf vc
    → set_first vc.slots n c ≡ some s
    → IsWf (record vc { slots = s })
unfolding entries
slot-IsWf vc n c s h wf found =
    let e = set_first-used vc.slots vc.overflow n c s (omega arith) found in
    let f = find-set_first vc.slots n c free s found in
    record {
      eight = length-set_first vc.slots n c s found ∙ wf.eight;
      distinct = rw e at (set_first-Distinct (entries vc) n c wf.distinct);
      below = rw e at (set_first-KeysBelow free (entries vc) n c wf.below);
      full = elim wf.full [ inl none_yet ↦ inl none_yet | inr full ↦ inr (ground (arith, f)) ];
    }

find-nil : (n : ℕ) → find [] n ≡ none
unfolding find
find-nil n = refl

free_slot-IsWf :
    (vc : VectorClock) (n c : ℕ) (s : Pairs)
    → n < free
    → IsWf vc
    → find vc.slots n ≡ none
    → take_free vc.slots n c ≡ some s
    → IsWf (record vc { slots = s })
unfolding entries
free_slot-IsWf vc n c s h wf absent found =
    let none_yet : vc.overflow ≡ [] =
      ground (arith, wf.full, take_free-some vc.slots n c s found) in
    let f = find-used_append vc.slots vc.overflow n (omega arith) in
    let a : find (entries vc) n ≡ none = ground (arith, f, none_yet, find-nil n) in
    record {
      eight = length-take_free vc.slots n c s found ∙ wf.eight;
      distinct =
          rw found at (take_free-Distinct vc.slots vc.overflow n c (omega arith) a wf.distinct);
      below =
          rw found at (take_free-KeysBelow free vc.slots vc.overflow n c (omega arith) h wf.below);
      full = inl none_yet;
    }

-- `set_counter` for a node other than 0xFF keeps a clock well-formed.
pub set_counter-IsWf : (vc : VectorClock) (n c : ℕ) → n < free → IsWf vc → IsWf (set_counter vc n c)
unfolding set_counter set_overflow
set_counter-IsWf vc n c h wf = elim (Option-cases (set_first vc.slots n c)) [
  | inl absent ↦
      let a = set_first-none vc.slots n c absent in
      elim (Option-cases (take_free vc.slots n c)) [
        | inl no_slot ↦
            let full = take_free-none vc.slots n c no_slot in
            elim (Option-cases (set_first vc.overflow n c)) [
              | inl new_node ↦
                  rw
                    (
                      absent,
                      set_counter,
                      no_slot,
                      set_overflow,
                      new_node,
                      lt→ltb _ _ (overflow-room vc wf full),
                    )
                    (push-IsWf vc n c h wf a (set_first-none vc.overflow n c new_node) full)
              | inr (o, found) ↦
                  rw (absent, set_counter, no_slot, set_overflow, found)
                    (overflow-IsWf vc n c o h wf a full found)
            ]
        | inr (s, found) ↦ rw (absent, set_counter, found) (free_slot-IsWf vc n c s h wf a found)
      ]
  | inr (s, found) ↦ rw (found, set_counter) (slot-IsWf vc n c s h wf found)
]
