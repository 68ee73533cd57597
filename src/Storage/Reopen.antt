-- ===== src/Storage/Reopen.antt =====
-- The recovery of any contents at all: src/storage.rs opens every file, and opening what it has
-- kept changes nothing more.
use neural_sgdb.Prelude.{
  ℕ, zero, suc, ◌+◌, ◌≤◌, ◌≡◌, refl, sym, ap, ◌∙◌, Bool, true, false, some, List, [], ◌++◌,
  append_assoc, append-nil, arith, length, length-append, take, take-length_append, take_all, leb,
  ltb, ◌==◌, if◌then◌else◌, Bool-cases, Option-cases, inl, inr,
}
use neural_sgdb.Wire.{
  Result, ok, guard, ◌>>=◌, ◌>>◌, Result-cases, split_at, read_le, split_at-append,
}
use neural_sgdb.Storage.Map.{Map}
use neural_sgdb.Storage.Crc.{crc32, crc32_parts}
use neural_sgdb.Storage.File.{
  Change, written, deleted, Break, broken, max_klen, max_vlen, tombstone, read_word, read_slice,
  read_tombstone, read_record, size, apply, recover, open_file, FileStorage,
}
use neural_sgdb.Storage.Log.{
  Grows, read_record-Grows, read_record-nil, split_at-splits, read_word-Grows, read_slice-Grows,
}
use neural_sgdb.Storage.Recovery.{works, size_pos}
use neural_sgdb.Storage.Sizes.{read_record-size}

-- A reader that succeeds has its value from the bytes that it takes away alone.
abbrev Splits : {A : Type 0} → (List ℕ → Result Break (A × List ℕ)) → Type 0
Splits {A = A} f =
    (bytes rest : List ℕ) (a : A)
    → f bytes ≡ ok (a, rest)
    → (p : List ℕ) × ((bytes ≡ p ++ rest) × (f p ≡ ok (a, [])))

bind-Splits :
    {A B : Type 0} (f : List ℕ → Result Break (A × List ℕ))
    (g : A → List ℕ → Result Break (B × List ℕ))
    → Grows f
    → Splits f
    → ((a : A) → Splits (g a))
    → Splits (λ bytes. f bytes >>= λ p. g p.0 p.1)
bind-Splits f g grows hf hg bytes rest b h = elim (Result-cases (f bytes)) [
  | inl ((a, r), e) ↦
      let (p, (ep, fp)) = hf bytes r a e in
      let (q, (eq, gq)) = hg a r rest b (rw e at h) in
      (p ++ q, (rw (ep, eq) (sym (append_assoc p q rest)), rw (grows p q [] a fp) gq))
  | inr (x, e) ↦ cc (rw e at h)
]

guard-Splits :
    {A : Type 0} (test : Bool) (g : List ℕ → Result Break (A × List ℕ))
    → Splits g
    → Splits (λ bytes. guard test broken >> g bytes)
guard-Splits true g hg bytes rest b h = hg bytes rest b h
guard-Splits false g hg bytes rest b h = cc

if-Splits :
    {A : Type 0} (test : Bool) (f g : List ℕ → Result Break (A × List ℕ))
    → Splits f
    → Splits g
    → Splits (λ bytes. if test then f bytes else g bytes)
if-Splits true f g hf hg = hf
if-Splits false f g hf hg = hg

pure-Splits : {A : Type 0} (a : A) → Splits (λ bytes. ok (a, bytes))
pure-Splits a bytes rest b h = ([], ground arith)

split_at_self : (n : ℕ) (a : List ℕ) → length a ≡ n → split_at n a ≡ some (a, [])
split_at_self n a h = rw (sym h) (rw append-nil at (split_at-append a []))

read_slice-Splits : (n : ℕ) → Splits (read_slice n)
read_slice-Splits n bytes rest a h = elim (Option-cases (split_at n bytes)) [
  | inl e ↦ cc
  | inr ((b, r), e) ↦
      let (s, l) = split_at-splits n bytes b r e in (b, ground (arith, split_at_self n b l))
]

read_word-Splits : Splits read_word
unfolding read_le
read_word-Splits bytes rest a h = elim (Option-cases (split_at 4 bytes)) [
  | inl e ↦ absurd (ground arith)
  | inr ((b, r), e) ↦
      let (s, l) = split_at-splits 4 bytes b r e in (b, ground (arith, split_at_self 4 b l))
]

read_record-Splits : Splits read_record
unfolding read_record
read_record-Splits = bind-Splits read_word _ read_word-Grows read_word-Splits (λ klen.
    bind-Splits read_word _ read_word-Grows read_word-Splits (λ vlen.
      bind-Splits read_word _ read_word-Grows read_word-Splits (λ crc.
        guard-Splits (leb klen max_klen) _ (
          if-Splits (vlen == tombstone) (read_tombstone klen crc) _
            (bind-Splits (read_slice klen) _ (read_slice-Grows klen) (read_slice-Splits klen)
              (λ key. guard-Splits (crc32 key == crc) _ (pure-Splits (deleted key))))
            (guard-Splits (leb vlen max_vlen) _ (
              bind-Splits (read_slice klen) _ (read_slice-Grows klen) (read_slice-Splits klen)
                (λ key.
                  bind-Splits (read_slice vlen) _ (read_slice-Grows vlen) (read_slice-Splits vlen)
                    (λ val.
                      guard-Splits (crc32_parts key val == crc) _
                        (pure-Splits (written key val))))))))))

recover-nil : (fuel : ℕ) (m : Map) (valid_end : ℕ) → recover fuel m valid_end [] ≡ (m, valid_end)
unfolding recover
recover-nil zero m valid_end = refl
recover-nil (suc fuel) m valid_end = rw (recover, read_record-nil)

recover_again_step :
    (c : Change) (p q : List ℕ) (m m' : Map) (fuel v : ℕ)
    → read_record p ≡ ok (c, [])
    → ((f w : ℕ) → length q ≤ f → recover f (apply m c) w q ≡ (m', w + length q))
    → length (p ++ q) ≤ fuel
    → recover fuel m v (p ++ q) ≡ (m', v + length (p ++ q))
unfolding recover size
recover_again_step c p q m m' zero v e again enough =
    absurd (omega (arith, read_record-size p [] c e, length-append p q, size_pos c))
recover_again_step c p q m m' (suc fuel) v e again enough =
    let counted = read_record-size p [] c e in
    let both = length-append p q in
    let grown = read_record-Grows p q [] c e in
    let ih = again fuel (v + size c) (omega (arith, counted, both, size_pos c)) in
    let sum : v + size c + length q ≡ v + length (p ++ q) = omega (arith, counted, both) in
    rw (recover, grown, ih, sum)

-- The bytes before `valid_end` are enough for the loop to find the same map again.
recover_again :
    (fuel : ℕ) (m : Map) (v : ℕ) (bytes : List ℕ)
    → length bytes ≤ fuel
    → (p : List ℕ) × ((tail : List ℕ) × ((bytes ≡ p ++ tail)
          × ((recover fuel m v bytes).1 ≡ v + length p)
          × ((f w : ℕ)
              → length p ≤ f
              → recover f m w p ≡ ((recover fuel m v bytes).0, w + length p))))
unfolding recover
recover_again zero m v bytes enough = (
  [],
  (bytes, (refl, omega arith, λ f. λ w. λ h. recover-nil f m w ∙ ap (λ k. (m, k)) (omega arith))),
)
recover_again (suc fuel) m v bytes enough = elim (Result-cases (read_record bytes)) [
  | inr (b, e) ↦ (
    [],
    (
      bytes,
      (
        refl,
        rw (recover, e) (omega arith),
        λ f. λ w. λ h. rw (recover, e) (recover-nil f m w ∙ ap (λ k. (m, k)) (omega arith)),
      ),
    ),
  )
  | inl ((c, rest), e) ↦
      let (p, (ep, rp)) = read_record-Splits bytes rest c e in
      let (q, (tail, (eq, end, again))) =
        recover_again fuel (apply m c) (v + size c) rest
          (omega (arith, read_record-size bytes rest c e, size_pos c)) in
      let counted = read_record-size p [] c rp in
      let sum : v + size c + length q ≡ v + length (p ++ q) =
        omega (arith, counted, length-append p q) in
      (
        p ++ q,
        (
          tail,
          (
            ep ∙ ap (λ r. p ++ r) eq ∙ sym (append_assoc p q tail),
            rw (recover, e) (end ∙ sum),
            λ f. λ w. λ h.
                rw (recover, e)
                  (recover_again_step c p q m (recover fuel (apply m c) (v + size c) rest).0 f w rp
                    again h),
          ),
        ),
      )
]

open_file_opens :
    (contents : List ℕ)
    → open_file works contents
      ≡ ok (record {
        map = (recover (length contents) [] 0 contents).0;
        file = false;
        disk = take (recover (length contents) [] 0 contents).1 contents;
      })
unfolding open_file
open_file_opens contents =
    elim (Bool-cases (ltb (recover (length contents) [] 0 contents).1 (length contents))) [
      | inl b ↦ rw b
      | inr b ↦ rw b
    ]

take-prefix :
    (contents p tail : List ℕ) (n : ℕ)
    → contents ≡ p ++ tail
    → n ≡ 0 + length p
    → take n contents ≡ p
take-prefix contents p tail n e l =
    let same : n ≡ length p = omega (arith, l) in rw (e, same) (take-length_append p tail)

open_file-whole :
    (p : List ℕ) (m : Map)
    → recover (length p) [] 0 p ≡ (m, 0 + length p)
    → open_file works p ≡ ok (record { map = m; file = false; disk = p })
open_file-whole p m e =
    let all = take_all (0 + length p) p (omega arith) in rw all at (rw e at (open_file_opens p))

-- Every file opens, whatever stands in it, and what `open` leaves of the file opens to the same
-- store again, with nothing more cut off.
pub open_file_again :
    (contents : List ℕ)
    → (s : FileStorage) × ((open_file works contents ≡ ok s) × (open_file works s.disk ≡ ok s))
open_file_again contents =
    let (p, (tail, (e, end, again))) =
      recover_again (length contents) [] 0 contents (omega arith) in
    let m = (recover (length contents) [] 0 contents).0 in
    let same : take (recover (length contents) [] 0 contents).1 contents ≡ p =
      take-prefix contents p tail _ e end in
    (
      record { map = m; file = false; disk = p },
      (
        rw same at (open_file_opens contents),
        open_file-whole p m (again (length p) 0 (omega arith)),
      ),
    )
