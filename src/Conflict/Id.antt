-- ===== src/Conflict/Id.antt =====
-- `generate_conflict_id` of src/conflict.rs: the id of a conflict depends on the set of its candidates
-- and not on their order.
use Prim.Native.Nat.{bit_xor}
use mathlib.Core.List.{Permᴰ}
use neural_sgdb.Prelude.{
  ℕ, zero, suc, ◌+◌, ◌*◌, ◌/◌, ◌%◌, ◌^◌, true, false, List, [], ◌∷◌, ◌++◌, foldl, ltb,
  if◌then◌else◌, ◌≡◌, refl, ◌∙◌, inl, inr, arith, Bool-cases,
}
use neural_sgdb.Prelude.Bytes.{eq_bytes, eq_bytes→eq}
use neural_sgdb.Storage.Map.{lt_bytes, lt_bytes_irrefl, lt_bytes_trans, lt_bytes_total}

-- `candidates.sort()`
unfoldable pub insert_text : List ℕ → List (List ℕ) → List (List ℕ)
insert_text x [] = x ∷ []
insert_text x (y ∷ ys) = if lt_bytes y x then y ∷ insert_text x ys else x ∷ y ∷ ys

unfoldable pub sort_texts : List (List ℕ) → List (List ℕ)
sort_texts [] = []
sort_texts (x ∷ xs) = insert_text x (sort_texts xs)

-- `candidates.dedup()`: of equal neighbours the first stays.
unfoldable pub dedup_from : List ℕ → List (List ℕ) → List (List ℕ)
dedup_from x [] = []
dedup_from x (y ∷ ys) = if eq_bytes x y then dedup_from x ys else y ∷ dedup_from y ys

unfoldable pub dedup_texts : List (List ℕ) → List (List ℕ)
dedup_texts [] = []
dedup_texts (x ∷ xs) = x ∷ dedup_from x xs

abbrev pub fnv_offset : ℕ
fnv_offset = 0xcbf29ce484222325

abbrev pub fnv_prime : ℕ
fnv_prime = 0x100000001b3

-- `feed`, on the two halves h0 and h1.
unfoldable pub feed : ℕ × ℕ → ℕ → ℕ × ℕ
feed (h0, h1) b =
    let h = bit_xor h0 b * fnv_prime % 2 ^ 64 in
    (h, (bit_xor h1 b * fnv_prime % 2 ^ 64 + h) % 2 ^ 64)

unfoldable pub feed_candidates : ℕ × ℕ → List (List ℕ) → ℕ × ℕ
feed_candidates h [] = h
feed_candidates h (c ∷ cs) = feed_candidates (foldl feed (feed h 0xFF) c) cs

-- A digit of "0123456789abcdef".
abbrev pub hex_digit : ℕ → ℕ
hex_digit n = if ltb n 10 then 48 + n else 87 + n

-- The digits of the lowest `k` bytes of a word, lowest byte first.
unfoldable pub hex_bytes : ℕ → ℕ → List ℕ
hex_bytes zero h = []
hex_bytes (suc k) h = hex_digit (h % 256 / 16) ∷ hex_digit (h % 16) ∷ hex_bytes k (h / 256)

-- The id, and the candidates that the function leaves, sorted and without duplicates.
unfoldable pub generate_conflict_id : List ℕ → List (List ℕ) → List ℕ × List (List ℕ)
generate_conflict_id subject candidates =
    let cs = dedup_texts (sort_texts candidates) in
    let h = feed_candidates (foldl feed (fnv_offset, fnv_offset) subject) cs in
    (hex_bytes 8 h.0 ++ hex_bytes 8 h.1, cs)

-- Of two texts neither of which is below the other, both are the same.
same_text : (a b : List ℕ) → lt_bytes a b ≡ false → lt_bytes b a ≡ false → a ≡ b
same_text a b h k = elim (Bool-cases (eq_bytes a b)) [
  | inl e ↦ eq_bytes→eq a b e
  | inr e ↦ absurd (let l = lt_bytes_total a b e k in cc)
]

not_both : (a b : List ℕ) → lt_bytes a b ≡ true → lt_bytes b a ≡ true → ⊥
not_both a b h k = let l = lt_bytes_trans a b a h k in let m = lt_bytes_irrefl a in cc

-- Below a text is below every text that is not below that one.
lt_not_lt : (y a b : List ℕ) → lt_bytes y a ≡ true → lt_bytes y b ≡ false → lt_bytes b a ≡ true
lt_not_lt y a b h k = elim (Bool-cases (lt_bytes b y)) [
  | inl e ↦ lt_bytes_trans b y a e h
  | inr e ↦ rw (← same_text y b k e) h
]

insert_text_pair :
    (a b : List ℕ) (l : List (List ℕ))
    → (if lt_bytes b a then b ∷ a ∷ l else a ∷ b ∷ l)
      ≡ (if lt_bytes a b then a ∷ b ∷ l else b ∷ a ∷ l)
insert_text_pair a b l = elim (Bool-cases (lt_bytes b a)) [
  | inl e ↦ elim (Bool-cases (lt_bytes a b)) [
    | inl f ↦ absurd (not_both a b f e)
    | inr f ↦ rw (e, f) refl
  ]
  | inr e ↦ elim (Bool-cases (lt_bytes a b)) [
    | inl f ↦ rw (e, f) refl
    | inr f ↦ rw (e, f, same_text a b f e) refl
  ]
]

insert_text_comm :
    (a b : List ℕ) (l : List (List ℕ))
    → insert_text a (insert_text b l) ≡ insert_text b (insert_text a l)
unfolding insert_text
insert_text_comm a b [] = insert_text_pair a b []
insert_text_comm a b (y ∷ l) = elim (Bool-cases (lt_bytes y a)) [
  | inl e ↦ elim (Bool-cases (lt_bytes y b)) [
    | inl f ↦ ground (arith, insert_text_comm a b l)
    | inr f ↦ let below = lt_not_lt y a b e f in ground (arith, not_both a b)
  ]
  | inr e ↦ elim (Bool-cases (lt_bytes y b)) [
    | inl f ↦ let below = lt_not_lt y b a f e in ground (arith, not_both a b)
    | inr f ↦ ground (arith, insert_text_pair a b (y ∷ l))
  ]
]

sort_texts-Perm : (xs ys : List (List ℕ)) → Permᴰ xs ys → sort_texts xs ≡ sort_texts ys
unfolding sort_texts
sort_texts-Perm _ _ Permᴰ.nil = refl
sort_texts-Perm (a ∷ xs) (b ∷ ys) (Permᴰ.cons e p) = rw (e, sort_texts-Perm xs ys p) refl
sort_texts-Perm (a ∷ b ∷ l) (c ∷ d ∷ m) (Permᴰ.swap e f) =
    rw (e, f) (insert_text_comm d c (sort_texts l))
sort_texts-Perm xs ys (Permᴰ.trans {l₂ = zs} p q) =
    sort_texts-Perm xs zs p ∙ sort_texts-Perm zs ys q

-- Candidates in another order give the same id, and the function leaves the same list of candidates.
pub generate_conflict_id-Perm :
    (subject : List ℕ) (xs ys : List (List ℕ))
    → Permᴰ xs ys
    → generate_conflict_id subject xs ≡ generate_conflict_id subject ys
unfolding generate_conflict_id
generate_conflict_id-Perm subject xs ys p = rw (sort_texts-Perm xs ys p) refl
