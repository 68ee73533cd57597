-- ===== src/Clock/Writes.antt =====
-- What the two scans of `set_counter` (src/memory_doc.rs) do to keys, lengths and entries.
use neural_sgdb.Prelude.{
  ℕ, ◌≡◌, ◌≢◌, refl, ◌∙◌, inl, inr, Option, none, some, [], ◌∷◌, ◌++◌, arith, length, ◌==◌,
  Bool-cases, Option-cases,
}
use neural_sgdb.Prelude.Assoc.{Pairs, find, Distinct, KeysBelow, find-append, or_else}
use neural_sgdb.Clock.{free, used, set_first, take_free}
use neural_sgdb.Clock.Counter.{find-used, find-set_first}

-- The predicate holds of the value, if there is one.
abbrev pub OnSome : (Pairs → Type 0) → Option Pairs → Type 0
OnSome P none = Unit
OnSome P (some s) = P s

pub length-set_first :
    (s : Pairs) (n c : ℕ) (t : Pairs) → set_first s n c ≡ some t → length t ≡ length s
unfolding set_first
length-set_first [] n c t e = cc
length-set_first ((k, d) ∷ s) n c t e = elim (Option-cases (set_first s n c)) [
  | inl absent ↦ ground arith
  | inr (s', found) ↦ ground (arith, length-set_first s n c s' found)
]

pub length-take_free :
    (s : Pairs) (n c : ℕ) (t : Pairs) → take_free s n c ≡ some t → length t ≡ length s
unfolding take_free
length-take_free [] n c t e = cc
length-take_free ((k, d) ∷ s) n c t e = elim (Option-cases (take_free s n c)) [
  | inl absent ↦ ground arith
  | inr (s', found) ↦ ground (arith, length-take_free s n c s' found)
]

pub take_free-none : (s : Pairs) (n c : ℕ) → take_free s n c ≡ none → find s free ≡ none
unfolding take_free find
take_free-none [] n c e = refl
take_free-none ((k, d) ∷ s) n c e = ground (arith, take_free-none s n c)

pub take_free-some :
    (s : Pairs) (n c : ℕ) (t : Pairs) → take_free s n c ≡ some t → find s free ≢ none
unfolding take_free find
take_free-some [] n c t e = cc
take_free-some ((k, d) ∷ s) n c t e = elim (Option-cases (take_free s n c)) [
  | inl absent ↦ ground arith
  | inr (s', found) ↦ ground (arith, take_free-some s n c s' found)
]

-- A write to a present node changes no key.
pub set_first-some : (s : Pairs) (n c : ℕ) (t : Pairs) → set_first s n c ≡ some t → find s n ≢ none
unfolding set_first find
set_first-some [] n c t e = cc
set_first-some ((k, d) ∷ s) n c t e = elim (Option-cases (set_first s n c)) [
  | inl absent ↦ ground arith
  | inr (s', found) ↦ ground (arith, set_first-some s n c s' found)
]

pub set_first-absent :
    (s : Pairs) (n c m : ℕ) (t : Pairs)
    → set_first s n c ≡ some t
    → find s m ≡ none
    → find t m ≡ none
set_first-absent s n c m t e h = elim (Bool-cases (n == m)) [
  | inl same ↦ let eq : n ≡ m = ground arith in absurd (set_first-some s n c t e (rw eq h))
  | inr other ↦ find-set_first s n c m t e ∙ rw other h
]

pub set_first-Distinct : (s : Pairs) (n c : ℕ) → Distinct s → OnSome Distinct (set_first s n c)
unfolding set_first
set_first-Distinct [] n c d = tt
set_first-Distinct ((k, x) ∷ s) n c d = elim (Bool-cases (k == n)) [
  | inl same ↦ rw same d
  | inr other ↦ elim (Option-cases (set_first s n c)) [
    | inl absent ↦ rw (other, absent) tt
    | inr (s', found) ↦
        rw (other, found)
          (set_first-absent s n c k s' found d.0, rw found at (set_first-Distinct s n c d.1))
  ]
]

pub set_first-KeysBelow :
    (b : ℕ) (s : Pairs) (n c : ℕ) → KeysBelow b s → OnSome (KeysBelow b) (set_first s n c)
unfolding set_first
set_first-KeysBelow b [] n c d = tt
set_first-KeysBelow b ((k, x) ∷ s) n c d = elim (Bool-cases (k == n)) [
  | inl same ↦ rw same d
  | inr other ↦ elim (Option-cases (set_first s n c)) [
    | inl absent ↦ rw (other, absent) tt
    | inr (s', found) ↦ rw (other, found) (d.0, rw found at (set_first-KeysBelow b s n c d.1))
  ]
]

-- A write to a slot in use is the same write to the entries.
pub set_first-used :
    (s o : Pairs) (n c : ℕ) (t : Pairs)
    → n ≢ free
    → set_first s n c ≡ some t
    → set_first (used s ++ o) n c ≡ some (used t ++ o)
unfolding set_first used
set_first-used [] o n c t h e = cc
set_first-used ((k, x) ∷ s) o n c t h e = elim (Option-cases (set_first s n c)) [
  | inl absent ↦ ground arith
  | inr (s', found) ↦ ground (arith, set_first-used s o n c s' h found)
]

-- A write that reaches the overflow is the same write to the entries.
pub set_first-overflow :
    (s o : Pairs) (n c : ℕ) (t : Pairs)
    → find s n ≡ none
    → set_first o n c ≡ some t
    → set_first (s ++ o) n c ≡ some (s ++ t)
unfolding set_first find
set_first-overflow [] o n c t h e = e
set_first-overflow ((k, x) ∷ s) o n c t h e = ground (arith, set_first-overflow s o n c t)

pub find-used_append :
    (s o : Pairs) (n : ℕ) → n ≢ free → find (used s ++ o) n ≡ or_else (find s n) (find o n)
find-used_append s o n h = rw (find-append (used s) o n, find-used s n h)
