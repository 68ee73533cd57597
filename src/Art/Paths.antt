-- ===== src/Art/Paths.antt =====
-- The bytes of a key below a node of src/art.rs: prefixes, the byte that follows one, and the place
-- where two keys part.
use neural_sgdb.Prelude.{
  ℕ, zero, suc, ◌+◌, true, false, Option, none, some, List, [], ◌∷◌, ◌++◌, length, take, drop, ◌==◌,
  if◌then◌else◌, ◌≡◌, refl, ap, inl, inr, arith, Bool-cases, ◌<◌,
}
use neural_sgdb.Art.{byte_at, byte_or_zero, begins, common_prefix, next_byte}
use Prim.Native.Nat.add

pub byte_at-drop : (d n : ℕ) (k : List ℕ) → byte_at k (d + n) ≡ byte_at (drop d k) n
unfolding byte_at
byte_at-drop zero n k = rw add.zero refl
byte_at-drop (suc d) n [] = refl
byte_at-drop (suc d) n (x ∷ k) = rw add.suc (byte_at-drop d n k)

pub drop-drop {ℓ} : {A : Type ℓ} (d n : ℕ) (k : List A) → drop n (drop d k) ≡ drop (d + n) k
drop-drop zero n k = rw add.zero refl
drop-drop (suc d) zero [] = rw add.suc refl
drop-drop (suc d) (suc n) [] = rw add.suc refl
drop-drop (suc d) n (x ∷ k) = rw add.suc (drop-drop d n k)

-- `next_byte` on what is left of the key.
unfoldable pub byte_after : List ℕ → List ℕ → Option ℕ
byte_after p js = if begins p js then byte_at js (length p) else none

pub next_byte-byte_after : (p key : List ℕ) (d : ℕ) → next_byte p key d ≡ byte_after p (drop d key)
unfolding next_byte byte_after
next_byte-byte_after p key d = rw (byte_at-drop d (length p) key) refl

pub byte_after-byte_at :
    (p key : List ℕ) (d b : ℕ)
    → begins p (drop d key) ≡ true
    → byte_at key (d + length p) ≡ some b
    → byte_after p (drop d key) ≡ some b
unfolding byte_after
byte_after-byte_at p key d b e o = ground (arith, byte_at-drop d (length p) key)

pub begins_own : (p r : List ℕ) → begins p (p ++ r) ≡ true
unfolding begins
begins_own [] r = refl
begins_own (x ∷ p) r = ground (arith, begins_own p r)

pub byte_at_own : (q r : List ℕ) (b : ℕ) → byte_at (q ++ b ∷ r) (length q) ≡ some b
unfolding byte_at
byte_at_own [] r b = refl
byte_at_own (x ∷ q) r b = byte_at_own q r b

pub begins_own_byte : (q r : List ℕ) (b : ℕ) → begins (q ++ b ∷ []) (q ++ b ∷ r) ≡ true
unfolding begins
begins_own_byte [] r b = ground arith
begins_own_byte (x ∷ q) r b = ground (arith, begins_own_byte q r b)

pub begins-append : (p js : List ℕ) → begins p js ≡ true → js ≡ p ++ drop (length p) js
unfolding begins
begins-append [] js h = refl
begins-append (x ∷ p) [] h = cc
begins-append (x ∷ p) (y ∷ js) h = ground (arith, begins-append p js)

pub byte_after_own : (p r : List ℕ) (z : ℕ) → byte_after p (p ++ z ∷ r) ≡ some z
unfolding byte_after begins byte_at
byte_after_own [] r z = refl
byte_after_own (x ∷ p) r z = ground (arith, byte_after_own p r z)

pub byte_after-append :
    (p js : List ℕ) (z : ℕ) → byte_after p js ≡ some z → js ≡ p ++ z ∷ drop (suc (length p)) js
unfolding byte_after begins byte_at
byte_after-append [] [] z h = cc
byte_after-append [] (y ∷ js) z h = ground arith
byte_after-append (x ∷ p) [] z h = cc
byte_after-append (x ∷ p) (y ∷ js) z h = ground (arith, byte_after-append p js z)

-- A prefix in two parts, with a byte between them.
abbrev pub then_byte : Option ℕ → ℕ → Option ℕ → Option ℕ
then_byte none x o = none
then_byte (some y) x o = if x == y then o else none

pub byte_after-split :
    (s r js : List ℕ) (x : ℕ)
    → byte_after (s ++ x ∷ r) js
      ≡ then_byte (byte_after s js) x (byte_after r (drop (suc (length s)) js))
unfolding byte_after begins byte_at
byte_after-split [] r [] x = refl
byte_after-split [] r (y ∷ js) x = ground arith
byte_after-split (z ∷ s) r [] x = refl
byte_after-split (z ∷ s) r (y ∷ js) x = ground (arith, byte_after-split s r js x)

-- The list around one of its bytes.
pub around :
    (n : ℕ) (a : List ℕ)
    → n < length a
    → a ≡ take n a ++ byte_or_zero (byte_at a n) ∷ drop (suc n) a
unfolding byte_at
around n [] h = absurd (omega arith)
around zero (x ∷ a) h = refl
around (suc n) (x ∷ a) h = ap (λ l. x ∷ l) (around n a (omega arith))

pub take-common_prefix : (a b : List ℕ) → take (common_prefix a b) a ≡ take (common_prefix a b) b
unfolding common_prefix
take-common_prefix [] b = refl
take-common_prefix (x ∷ a) [] = refl
take-common_prefix (x ∷ a) (y ∷ b) = ground (arith, take-common_prefix a b)

-- Behind the common part the two go on with different bytes.
pub byte_at-common_prefix :
    (a b : List ℕ)
    → common_prefix a b < length a
    → common_prefix a b < length b
    → (byte_or_zero (byte_at a (common_prefix a b)) == byte_or_zero (byte_at b (common_prefix a b)))
      ≡ false
unfolding common_prefix byte_at
byte_at-common_prefix [] b h k = absurd (omega arith)
byte_at-common_prefix (x ∷ a) [] h k = absurd (omega arith)
byte_at-common_prefix (x ∷ a) (y ∷ b) h k = elim (Bool-cases (x == y)) [
  | inl e ↦
      let o : (if x == y then suc (common_prefix a b) else 0) ≡ suc (common_prefix a b) =
        rw e refl in
      rw e (byte_at-common_prefix a b (omega (arith, h, o)) (omega (arith, k, o)))
  | inr e ↦ rw e e
]
