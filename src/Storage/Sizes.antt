-- ===== src/Storage/Sizes.antt =====
-- How many bytes the recovery of src/storage.rs takes for a record.
use neural_sgdb.Prelude.{
  ℕ, ◌+◌, ◌≡◌, Bool, true, false, List, arith, length, length-append, leb, ◌==◌, if◌then◌else◌,
  Option-cases, inl, inr,
}
use neural_sgdb.Wire.{Result, ok, guard, ◌>>=◌, ◌>>◌, Result-cases, split_at, read_le}
use neural_sgdb.Storage.Crc.{crc32, crc32_parts}
use neural_sgdb.Storage.File.{
  Change, written, deleted, Break, broken, max_klen, max_vlen, tombstone, read_word, read_slice,
  read_tombstone, read_record, size,
}
use neural_sgdb.Storage.Log.{split_at-splits}

-- After `n` bytes, the reader takes so many that all together are the size of its change.
abbrev Costs : ℕ → (List ℕ → Result Break (Change × List ℕ)) → Type 0
Costs n f =
    (bytes rest : List ℕ) (c : Change)
    → f bytes ≡ ok (c, rest)
    → n + length bytes ≡ size c + length rest

slice_size :
    (n : ℕ) (bytes a rest : List ℕ)
    → read_slice n bytes ≡ ok (a, rest)
    → (length a ≡ n) × (length bytes ≡ n + length rest)
slice_size n bytes a rest h = elim (Option-cases (split_at n bytes)) [
  | inl e ↦ cc
  | inr ((b, r), e) ↦
      let (s, l) = split_at-splits n bytes b r e in ground (arith, length-append b r)
]

word_size :
    (bytes rest : List ℕ) (a : ℕ) → read_word bytes ≡ ok (a, rest) → length bytes ≡ 4 + length rest
unfolding read_le
word_size bytes rest a h = elim (Option-cases (split_at 4 bytes)) [
  | inl e ↦ absurd (ground arith)
  | inr ((b, r), e) ↦
      let (s, l) = split_at-splits 4 bytes b r e in ground (arith, length-append b r)
]

word-Costs :
    (n : ℕ) (g : ℕ → List ℕ → Result Break (Change × List ℕ))
    → ((a : ℕ) → Costs (n + 4) (g a))
    → Costs n (λ bytes. read_word bytes >>= λ p. g p.0 p.1)
word-Costs n g hg bytes rest c h = elim (Result-cases (read_word bytes)) [
  | inl ((a, r), e) ↦ omega (arith, word_size bytes r a e, hg a r rest c (rw e at h))
  | inr (x, e) ↦ cc (rw e at h)
]

slice-Costs :
    (n k : ℕ) (g : List ℕ → List ℕ → Result Break (Change × List ℕ))
    → ((a : List ℕ) → length a ≡ k → Costs (n + k) (g a))
    → Costs n (λ bytes. read_slice k bytes >>= λ p. g p.0 p.1)
slice-Costs n k g hg bytes rest c h = elim (Result-cases (read_slice k bytes)) [
  | inl ((a, r), e) ↦
      let (l, t) = slice_size k bytes a r e in omega (arith, t, hg a l r rest c (rw e at h))
  | inr (x, e) ↦ cc (rw e at h)
]

guard-Costs :
    (n : ℕ) (test : Bool) (g : List ℕ → Result Break (Change × List ℕ))
    → Costs n g
    → Costs n (λ bytes. guard test broken >> g bytes)
guard-Costs n true g hg bytes rest c h = hg bytes rest c h
guard-Costs n false g hg bytes rest c h = cc

if-Costs :
    (n : ℕ) (test : Bool) (f g : List ℕ → Result Break (Change × List ℕ))
    → Costs n f
    → Costs n g
    → Costs n (λ bytes. if test then f bytes else g bytes)
if-Costs n true f g hf hg = hf
if-Costs n false f g hf hg = hg

pure-Costs : (n : ℕ) (c : Change) → n ≡ size c → Costs n (λ bytes. ok (c, bytes))
pure-Costs n c e bytes rest d h = ground arith

-- A record that is read takes the bytes of its change.
pub read_record-size : Costs 0 read_record
unfolding read_record size
read_record-size = word-Costs 0 _ (λ klen. word-Costs 4 _ (λ vlen. word-Costs 8 _ (λ crc.
    guard-Costs 12 (leb klen max_klen) _ (
      if-Costs 12 (vlen == tombstone) (read_tombstone klen crc) _
        (slice-Costs 12 klen _ (λ key.
          λ k. guard-Costs _ (crc32 key == crc) _ (pure-Costs _ (deleted key) (omega arith))))
        (guard-Costs 12 (leb vlen max_vlen) _ (
          slice-Costs 12 klen _ (λ key. λ k. slice-Costs (12 + klen) vlen _ (λ val. λ v.
            guard-Costs _ (crc32_parts key val == crc) _
              (pure-Costs _ (written key val) (omega arith))))))))))
