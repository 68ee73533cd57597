-- ===== src/Wire.antt =====
-- Reading a byte slice from front to back, as every `decode` of src/memory_doc.rs and
-- src/crdt.rs does. The slice from the cursor `off` on is the list of the bytes still to be read,
-- so a reader returns its value with the bytes behind it.
pub mod Utf8
use neural_sgdb.Prelude.{
  ℕ, zero, suc, ◌+◌, ◌*◌, ◌^◌, ◌≤◌, ◌<◌, ◌≡◌, ◌⊎◌, inl, inr, refl, Bool, true, false, ◌&&◌, Option,
  none, some, List, [], ◌∷◌, ◌++◌, arith, length, length-append, take, drop, take-length_append,
  drop-length_append, ltb, if◌then◌else◌, ge→not_ltb,
}
use neural_sgdb.Prelude.Bytes.{
  le_bytes, of_le, length-le_bytes, of_le-le_bytes, eq_bytes, eq_bytes_refl,
}
use neural_sgdb.Wire.Utf8.{is_utf8}

-- `Result<A, E>`
pub data Result (E A : Type 0) : Type 0 where
  ok : A → Result E A
  err : E → Result E A

infixl 5 ◌>>=◌
abbrev pub ◌>>=◌ : {E A B : Type 0} → Result E A → (A → Result E B) → Result E B
ok a >>= f = f a
err e >>= f = err e

pub Result-cases :
    {E A : Type 0} (r : Result E A) → ((a : A) × (r ≡ ok a)) ⊎ ((e : E) × (r ≡ err e))
Result-cases (ok a) = inl (a, refl)
Result-cases (err e) = inr (e, refl)

abbrev pub ok_or : {E A : Type 0} → Option A → E → Result E A
ok_or none e = err e
ok_or (some a) e = ok a

-- `if !test { return Err(e) }`
abbrev pub guard : {E : Type 0} → Bool → E → Result E (Unit {0})
guard true e = ok tt
guard false e = err e

infixl 5 ◌>>◌
abbrev pub ◌>>◌ : {E B : Type 0} → Result E (Unit {0}) → Result E B → Result E B
m >> k = m >>= λ _. k

-- `data.get(off)`
unfoldable pub read_u8 : List ℕ → Option (ℕ × List ℕ)
read_u8 [] = none
read_u8 (b ∷ rest) = some (b, rest)

-- The next `n` bytes, unless `off + n > data.len()`.
unfoldable pub split_at : ℕ → List ℕ → Option (List ℕ × List ℕ)
split_at n data_left =
    if ltb (length data_left) n then none else some (take n data_left, drop n data_left)

-- `rd_u16`, `rd_u32`, `rd_u64`, and `rd_f32` by its bit pattern: `k` bytes, lowest first.
unfoldable pub read_le : ℕ → List ℕ → Option (ℕ × List ℕ)
read_le k data_left = elim (split_at k data_left) [
  | none ↦ none
  | some (bs, rest) ↦ some (of_le bs, rest)
]

-- `data.len() < min || &data[0..4] != magic` and then `off = 4`.
unfoldable pub read_magic : {E : Type 0} → List ℕ → ℕ → E → List ℕ → Result E (List ℕ)
read_magic magic least e data_left = do
  guard (if ltb (length data_left) least then false else eq_bytes (take 4 data_left) magic) e
  ok (drop 4 data_left)

-- A length in `k` bytes and as many bytes.
unfoldable pub read_block : {E : Type 0} → ℕ → E → E → List ℕ → Result E (List ℕ × List ℕ)
read_block k no_length too_short data_left = do
  (n, rest) ← ok_or (read_le k data_left) no_length
  ok_or (split_at n rest) too_short

-- The same, checked by `core::str::from_utf8`.
unfoldable pub read_text : {E : Type 0} → ℕ → E → E → E → List ℕ → Result E (List ℕ × List ℕ)
read_text k no_length too_short bad_utf8 data_left = do
  (bs, rest) ← read_block k no_length too_short data_left
  guard (is_utf8 bs) bad_utf8
  ok (bs, rest)

-- What the writers put before a block.
abbrev pub block : ℕ → List ℕ → List ℕ → List ℕ
block k bs rest = le_bytes k (length bs) ++ (bs ++ rest)

pub split_at-append : (bs rest : List ℕ) → split_at (length bs) (bs ++ rest) ≡ some (bs, rest)
unfolding split_at
split_at-append bs rest =
    ground (arith, length-append bs rest, take-length_append bs rest, drop-length_append bs rest)

pub read_le-le_bytes :
    (k n : ℕ) (rest : List ℕ) → n < 256 ^ k → read_le k (le_bytes k n ++ rest) ≡ some (n, rest)
unfolding read_le
read_le-le_bytes k n rest h =
    let e = rw (length-le_bytes k n) at (split_at-append (le_bytes k n) rest) in
    rw (e, read_le, of_le-le_bytes k n h)

pub read_block-block :
    {E : Type 0} (k : ℕ) (e f : E) (bs rest : List ℕ)
    → length bs < 256 ^ k
    → read_block k e f (block k bs rest) ≡ ok (bs, rest)
unfolding read_block
read_block-block k e f bs rest h =
    rw (read_le-le_bytes k (length bs) (bs ++ rest) h, split_at-append bs rest)

pub read_text-block :
    {E : Type 0} (k : ℕ) (e f g : E) (bs rest : List ℕ)
    → length bs < 256 ^ k
    → is_utf8 bs ≡ true
    → read_text k e f g (block k bs rest) ≡ ok (bs, rest)
unfolding read_text
read_text-block k e f g bs rest h u = rw (read_block-block k e f bs rest h, u)

pub read_magic-append :
    {E : Type 0} (magic : List ℕ) (least : ℕ) (e : E) (rest : List ℕ)
    → length magic ≡ 4
    → least ≤ length (magic ++ rest)
    → read_magic magic least e (magic ++ rest) ≡ ok rest
unfolding read_magic
read_magic-append magic least e rest four long =
    let t = rw four at (take-length_append magic rest) in
    let d = rw four at (drop-length_append magic rest) in
    rw (t, d, eq_bytes_refl magic, ge→not_ltb _ _ long)

pub read_magic-cons :
    {E : Type 0} (magic : List ℕ) (least : ℕ) (e : E) (x : ℕ) (rest : List ℕ)
    → length magic ≡ 4
    → least ≤ 5
    → read_magic magic least e (magic ++ (x ∷ rest)) ≡ ok (x ∷ rest)
read_magic-cons magic least e x rest four h =
    read_magic-append magic least e (x ∷ rest) four (omega (arith, length-append magic (x ∷ rest)))

-- Whether the next `n` bytes are there.
pub split_at-le :
    (n : ℕ) (bytes : List ℕ)
    → n ≤ length bytes
    → split_at n bytes ≡ some (take n bytes, drop n bytes)
unfolding split_at
split_at-le n bytes h = rw (ge→not_ltb _ _ h)

pub split_at-lt : (n : ℕ) (bytes : List ℕ) → length bytes < n → split_at n bytes ≡ none
unfolding split_at
split_at-lt n bytes h = ground arith
