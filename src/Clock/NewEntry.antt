-- ===== src/Clock/NewEntry.antt =====
-- What a new pair does to the entries of a clock (`set_counter` of src/memory_doc.rs).
use neural_sgdb.Prelude.{
  ℕ, ◌<◌, ◌≡◌, ◌≢◌, refl, inl, inr, false, none, [], ◌∷◌, ◌++◌, arith, ◌==◌, Bool-cases,
  Option-cases,
}
use neural_sgdb.Prelude.Assoc.{Pairs, find, Distinct, KeysBelow, find-append}
use neural_sgdb.Clock.{free, used, take_free}
use neural_sgdb.Clock.Counter.{find-one, find-take_free}
use neural_sgdb.Clock.Writes.{OnSome, find-used_append}

-- A new node in a free slot is a new entry.
pub take_free-Distinct :
    (s o : Pairs) (n c : ℕ)
    → n ≢ free
    → find (used s ++ o) n ≡ none
    → Distinct (used s ++ o)
    → OnSome (λ t. Distinct (used t ++ o)) (take_free s n c)
unfolding take_free used find
take_free-Distinct [] o n c h a d = tt
take_free-Distinct ((k, x) ∷ s) o n c h a d = elim (Bool-cases (k == free)) [
  | inl is_free ↦
      let hn : n == free ≡ false = ground arith in
      rw (is_free, hn) (rw is_free at a, rw is_free at d)
  | inr is_used ↦ elim (Option-cases (take_free s n c)) [
    | inl full ↦ rw (is_used, full) tt
    | inr (s', found) ↦
        let hn : n == free ≡ false = ground arith in
        let a' : find ((k, x) ∷ (used s ++ o)) n ≡ none = rw is_used at a in
        let d' : Distinct ((k, x) ∷ (used s ++ o)) = rw is_used at d in
        let hk : k ≢ free = ground arith in
        let e = find-used_append s' o k hk in
        let e' = find-used_append s o k hk in
        let f = find-take_free s n c k s' found hk (ground (arith, find-used_append s o n h)) in
        let ih = take_free-Distinct s o n c h (ground arith) d'.1 in
        rw (is_used, found) (rw is_used (ground (arith, e, e', f, d'.0), rw found at ih))
  ]
]

pub take_free-KeysBelow :
    (b : ℕ) (s o : Pairs) (n c : ℕ)
    → n ≢ free
    → n < b
    → KeysBelow b (used s ++ o)
    → OnSome (λ t. KeysBelow b (used t ++ o)) (take_free s n c)
unfolding take_free used
take_free-KeysBelow b [] o n c h l d = tt
take_free-KeysBelow b ((k, x) ∷ s) o n c h l d = elim (Bool-cases (k == free)) [
  | inl is_free ↦ let hn : n == free ≡ false = ground arith in rw (is_free, hn) (l, rw is_free at d)
  | inr is_used ↦ elim (Option-cases (take_free s n c)) [
    | inl full ↦ rw (is_used, full) tt
    | inr (s', found) ↦
        let d' : KeysBelow b ((k, x) ∷ (used s ++ o)) = rw is_used at d in
        let ih = take_free-KeysBelow b s o n c h l d'.1 in
        rw (is_used, found) (rw is_used (d'.0, rw found at ih))
  ]
]

pub Distinct-append_one :
    (s : Pairs) (n c : ℕ) → find s n ≡ none → Distinct s → Distinct (s ++ ((n, c) ∷ []))
unfolding find
Distinct-append_one [] n c a d = (refl, tt)
Distinct-append_one ((k, x) ∷ s) n c a d =
    let e = find-append s ((n, c) ∷ []) k in
    let f = find-one n c k in
    (ground (arith, e, f, d.0), Distinct-append_one s n c (ground arith) d.1)
