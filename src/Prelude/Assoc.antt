-- ===== src/Prelude/Assoc.antt =====
-- Lists of (node, counter) pairs, searched from the front.
use neural_sgdb.Prelude.Tests.{◌==◌, if◌then◌else◌, Bool-cases}
use neural_sgdb.Prelude.Lists.{length, All}
use Prim.Native.Nat.{ℕ, zero, suc, ◌≤◌, ◌<◌}
use mathlib.Core.Path.{◌≡◌, refl}
use mathlib.Core.Logic.{inl, inr}
use mathlib.Core.Option.{Option, none, some}
use mathlib.Core.List.{List, [], ◌∷◌, ◌++◌}
use native.Mathlib.Omega.{arith}

abbrev pub Pairs : Type 0
Pairs = List (ℕ × ℕ)

-- The value of the first pair with the key.
unfoldable pub find : Pairs → ℕ → Option ℕ
find [] n = none
find ((m, c) ∷ s) n = if m == n then some c else find s n

-- `o.unwrap_or(0)`
abbrev pub or_zero : Option ℕ → ℕ
or_zero none = 0
or_zero (some c) = c

abbrev pub or_else : Option ℕ → Option ℕ → Option ℕ
or_else none o = o
or_else (some c) o = some c

-- No key occurs twice.
abbrev pub Distinct : Pairs → Type 0
Distinct [] = Unit
Distinct ((n, c) ∷ s) = (find s n ≡ none) × Distinct s

abbrev pub KeysBelow : ℕ → Pairs → Type 0
KeysBelow k s = All (λ p. p.0 < k) s

pub find-append : (s t : Pairs) (n : ℕ) → find (s ++ t) n ≡ or_else (find s n) (find t n)
unfolding find
find-append [] t n = refl
find-append ((m, c) ∷ s) t n = ground (arith, find-append s t n)

without : ℕ → Pairs → Pairs
without n [] = []
without n ((m, c) ∷ s) = if m == n then s else (m, c) ∷ without n s

find-without : (n m : ℕ) (s : Pairs) → find s m ≡ none → find (without n s) m ≡ none
unfolding find without
find-without n m [] h = refl
find-without n m ((k, c) ∷ s) h = ground (arith, find-without n m s)

without-Distinct : (n : ℕ) (s : Pairs) → Distinct s → Distinct (without n s)
unfolding without
without-Distinct n [] d = tt
without-Distinct n ((m, c) ∷ s) d = ground (arith, find-without n m s, without-Distinct n s)

below_of_absent : (n : ℕ) (s : Pairs) → find s n ≡ none → KeysBelow (suc n) s → KeysBelow n s
unfolding find
below_of_absent n [] e h = tt
below_of_absent n ((m, c) ∷ s) e h = ground (arith, below_of_absent n s)

without_below : (n : ℕ) (s : Pairs) → Distinct s → KeysBelow (suc n) s → KeysBelow n (without n s)
unfolding without find
without_below n [] d h = tt
without_below n ((m, c) ∷ s) d h = elim (Bool-cases (m == n)) [
  | inl e ↦ rw e (below_of_absent n s (ground arith) h.1)
  | inr e ↦ rw e (ground arith, without_below n s d.1 h.1)
]

length-without : (n : ℕ) (s : Pairs) → length s ≤ suc (length (without n s))
unfolding without
length-without n [] = omega arith
length-without n ((m, c) ∷ s) = ground (arith, length-without n s)

-- The pigeonhole principle: distinct keys below `k` are at most `k`.
pub length-le_of_Distinct : (k : ℕ) (s : Pairs) → Distinct s → KeysBelow k s → length s ≤ k
length-le_of_Distinct zero [] d h = omega arith
length-le_of_Distinct zero (p ∷ s) d h = absurd (omega arith)
length-le_of_Distinct (suc k) s d h = omega (
  arith,
  length-without k s,
  length-le_of_Distinct k (without k s) (without-Distinct k s d) (without_below k s d h),
)
