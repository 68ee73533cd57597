-- ===== src/Conflict/Wire.antt =====
-- The format CFL1 of src/conflict.rs: what fits is written and read back, what does not is refused.
use neural_sgdb.Prelude.{
  ℕ, ◌-◌, ◌^◌, ◌≤◌, true, false, not, ◌||◌, Option, none, some, List, [], ◌∷◌, ◌++◌, length,
  length-append, append_assoc, All, ltb, ◌==◌, ◌≡◌, refl, ap, ◌∙◌, inl, inr, arith, Bool-cases,
  ge→not_ltb,
}
use neural_sgdb.Prelude.Bytes.{le_bytes, IsU16, IsU32, IsU64, length-le_bytes}
use neural_sgdb.Wire.{
  ok, read_u8, read_magic-append, read_le-le_bytes, read_block-block, read_text-block, block,
}
use neural_sgdb.Wire.Utf8.{is_utf8}
use neural_sgdb.Conflict.{
  ConflictStatus, open_conflict, resolved, ConflictRecord, cfl_magic, status_code, status_of,
  any_longer, push_str, push_strs, push_winner, winner_flag, winner_longer, put_blobs,
  encode_conflict, read_str, read_strs, read_nodes, read_winner, read_blobs, decode_conflict,
  trunc_slen, trunc_s, utf8_s, bad_cfl_magic,
}

-- A text that fits behind a u16 length.
abbrev pub IsText : List ℕ → Type 0
IsText s = (is_utf8 s ≡ true) × IsU16 (length s)

abbrev pub IsWinner : Option (List ℕ) → Type 0
IsWinner none = Unit
IsWinner (some w) = IsText w

abbrev pub IsBlob : List ℕ → Type 0
IsBlob r = IsU32 (length r)

-- Every length fits its field.
pub record ConflictFits (c : ConflictRecord) : Type 0 where
  pub id : IsText c.conflict_id
  pub subject : IsText c.subject
  pub few_candidates : IsU16 (length c.candidates)
  pub candidates : All IsText c.candidates
  pub few_nodes : length c.nodes ≤ 255
  pub tick : IsU64 c.created_tick
  pub winner : IsWinner c.resolved_winner
  pub few_records : length c.records ≤ 255
  pub records : All IsBlob c.records

push_str_fits : (s : List ℕ) → IsText s → push_str s ≡ ok (block 2 s [])
unfolding push_str
push_str_fits s h = rw (ge→not_ltb (2 ^ 16 - 1) (length s) (omega (arith, h.1)))

read_str-block : (s rest : List ℕ) → IsText s → read_str (block 2 s rest) ≡ ok (s, rest)
read_str-block s rest h = read_text-block 2 trunc_slen trunc_s utf8_s s rest h.1 h.0

block-append : (k : ℕ) (s a b : List ℕ) → block k s a ++ b ≡ block k s (a ++ b)
block-append k s a b =
    append_assoc (le_bytes k (length s)) (s ++ a) b
    ∙ ap (λ l. le_bytes k (length s) ++ l) (append_assoc s a b)

-- The texts as they are written, in front of what follows.
unfoldable put_strs : List (List ℕ) → List ℕ → List ℕ
put_strs [] rest = rest
put_strs (s ∷ ss) rest = block 2 s (put_strs ss rest)

push_strs_fits : (ss : List (List ℕ)) → All IsText ss → push_strs ss ≡ ok (put_strs ss [])
unfolding push_strs put_strs
push_strs_fits [] h = refl
push_strs_fits (s ∷ ss) h =
    rw (push_str_fits s h.0, push_strs_fits ss h.1, block-append 2 s [] (put_strs ss []))

put_strs-append : (ss : List (List ℕ)) (a b : List ℕ) → put_strs ss a ++ b ≡ put_strs ss (a ++ b)
unfolding put_strs
put_strs-append [] a b = refl
put_strs-append (s ∷ ss) a b =
    block-append 2 s (put_strs ss a) b ∙ ap (block 2 s) (put_strs-append ss a b)

read_strs-put_strs :
    (ss : List (List ℕ)) (rest : List ℕ)
    → All IsText ss
    → read_strs (length ss) (put_strs ss rest) ≡ ok (ss, rest)
unfolding read_strs put_strs
read_strs-put_strs [] rest h = refl
read_strs-put_strs (s ∷ ss) rest h =
    rw (read_str-block s (put_strs ss rest) h.0, read_strs-put_strs ss rest h.1)

read_nodes-append : (ns rest : List ℕ) → read_nodes (length ns) (ns ++ rest) ≡ ok (ns, rest)
unfolding read_nodes read_u8
read_nodes-append [] rest = refl
read_nodes-append (n ∷ ns) rest = rw (read_nodes-append ns rest)

read_blobs-put_blobs :
    (rs : List (List ℕ)) → All IsBlob rs → read_blobs (length rs) (put_blobs rs) ≡ ok (rs, [])
unfolding read_blobs put_blobs
read_blobs-put_blobs [] h = refl
read_blobs-put_blobs (r ∷ rs) h =
    rw (read_block-block 4 _ _ r (put_blobs rs) h.0, read_blobs-put_blobs rs h.1)

abbrev put_winner : Option (List ℕ) → List ℕ → List ℕ
put_winner none rest = rest
put_winner (some w) rest = block 2 w rest

push_winner_fits : (w : Option (List ℕ)) → IsWinner w → push_winner w ≡ ok (put_winner w [])
push_winner_fits none h = refl
push_winner_fits (some w) h = push_str_fits w h

put_winner-append :
    (w : Option (List ℕ)) (rest : List ℕ) → put_winner w [] ++ rest ≡ put_winner w rest
put_winner-append none rest = refl
put_winner-append (some w) rest = block-append 2 w [] rest

read_winner-put_winner :
    (w : Option (List ℕ)) (rest : List ℕ)
    → IsWinner w
    → read_winner (not (winner_flag w == 0)) (put_winner w rest) ≡ ok (w, rest)
unfolding read_winner
read_winner-put_winner none rest h = refl
read_winner-put_winner (some w) rest h = rw (read_str-block w rest h)

any_longer_texts : (xs : List (List ℕ)) → All IsText xs → any_longer (2 ^ 16 - 1) xs ≡ false
unfolding any_longer
any_longer_texts [] h = refl
any_longer_texts (x ∷ xs) h =
    rw (ge→not_ltb (2 ^ 16 - 1) (length x) (omega (arith, h.0.1))) (any_longer_texts xs h.1)

any_longer_blobs : (xs : List (List ℕ)) → All IsBlob xs → any_longer (2 ^ 32 - 1) xs ≡ false
unfolding any_longer
any_longer_blobs [] h = refl
any_longer_blobs (x ∷ xs) h =
    rw (ge→not_ltb (2 ^ 32 - 1) (length x) (omega (arith, h.0))) (any_longer_blobs xs h.1)

winner_fits : (w : Option (List ℕ)) → IsWinner w → winner_longer (2 ^ 16 - 1) w ≡ false
winner_fits none h = refl
winner_fits (some w) h = ge→not_ltb (2 ^ 16 - 1) (length w) (omega (arith, h.1))

status_of-status_code : (s : ConflictStatus) → status_of (status_code s) ≡ some s
status_of-status_code open_conflict = refl
status_of-status_code resolved = refl

-- The bytes of a record that fits.
conflict_body : ConflictRecord → List ℕ
conflict_body c =
    le_bytes 8 c.created_tick
    ++ block 2 c.conflict_id (
        block 2 c.subject (
          le_bytes 2 (length c.candidates)
          ++ put_strs c.candidates (
              length c.nodes
              ∷ (c.nodes
                  ++ put_winner c.resolved_winner (length c.records ∷ put_blobs c.records)))))

abbrev conflict_bytes : ConflictRecord → List ℕ
conflict_bytes c =
    cfl_magic ++ (1 ∷ status_code c.status ∷ winner_flag c.resolved_winner ∷ conflict_body c)

encode_fits : (c : ConflictRecord) → ConflictFits c → encode_conflict c ≡ ok (conflict_bytes c)
unfolding encode_conflict conflict_body
encode_fits c h =
    rw
      (
        ge→not_ltb (2 ^ 16 - 1) (length c.conflict_id) (omega (arith, h.id.1)),
        ge→not_ltb (2 ^ 16 - 1) (length c.subject) (omega (arith, h.subject.1)),
        ge→not_ltb (2 ^ 16 - 1) (length c.candidates) (omega (arith, h.few_candidates)),
        ge→not_ltb (2 ^ 8 - 1) (length c.nodes) (omega (arith, h.few_nodes)),
        ge→not_ltb (2 ^ 8 - 1) (length c.records) (omega (arith, h.few_records)),
        any_longer_texts c.candidates h.candidates,
        winner_fits c.resolved_winner h.winner,
        any_longer_blobs c.records h.records,
        push_str_fits c.conflict_id h.id,
        push_str_fits c.subject h.subject,
        push_strs_fits c.candidates h.candidates,
        push_winner_fits c.resolved_winner h.winner,
      )
      (rw
        (
          block-append 2 c.conflict_id [] _,
          block-append 2 c.subject [] _,
          put_strs-append c.candidates [] _,
          put_winner-append c.resolved_winner _,
        )
        refl)

decode_bytes : (c : ConflictRecord) → ConflictFits c → decode_conflict (conflict_bytes c) ≡ ok c
unfolding decode_conflict read_u8 conflict_body
decode_bytes c h =
    let tail = 1 ∷ status_code c.status ∷ winner_flag c.resolved_winner ∷ conflict_body c in
    let long : 15 ≤ length (cfl_magic ++ tail) = omega (
      arith,
      length-append (le_bytes 8 c.created_tick) (
          block 2 c.conflict_id (
            block 2 c.subject (
              le_bytes 2 (length c.candidates)
              ++ put_strs c.candidates (
                  length c.nodes
                  ∷ (c.nodes
                      ++ put_winner c.resolved_winner (length c.records ∷ put_blobs c.records)))))),
      length-le_bytes 8 c.created_tick,
    ) in
    rw (
      read_magic-append cfl_magic 15 bad_cfl_magic tail refl long,
      status_of-status_code c.status,
      read_le-le_bytes 8 c.created_tick _ h.tick,
      read_str-block c.conflict_id _ h.id,
      read_str-block c.subject _ h.subject,
      read_le-le_bytes 2 (length c.candidates) _ h.few_candidates,
      read_strs-put_strs c.candidates _ h.candidates,
      read_nodes-append c.nodes _,
      read_winner-put_winner c.resolved_winner _ h.winner,
      read_blobs-put_blobs c.records h.records,
    )

-- A conflict record whose texts are UTF-8 and whose lengths and tick fit their fields is written,
-- and read back as it was.
pub decode_conflict-encode_conflict :
    (c : ConflictRecord)
    → ConflictFits c
    → (bytes : List ℕ) × (encode_conflict c ≡ ok bytes) × (decode_conflict bytes ≡ ok c)
decode_conflict-encode_conflict c h = (conflict_bytes c, encode_fits c h, decode_bytes c h)

-- A winner, if there is one, is of at most that length.
abbrev pub WinnerWithin : ℕ → Option (List ℕ) → Type 0
WinnerWithin most none = Unit
WinnerWithin most (some w) = length w ≤ most

winner_longer-WinnerWithin :
    (most : ℕ) (w : Option (List ℕ)) → winner_longer most w ≡ false → WinnerWithin most w
winner_longer-WinnerWithin most none h = tt
winner_longer-WinnerWithin most (some w) h = ground (arith, h)

-- Every length and count fits its field, whatever the texts are.
abbrev pub Sizes : ConflictRecord → Type 0
Sizes c =
    (length c.conflict_id ≤ 2 ^ 16 - 1)
    × (length c.subject ≤ 2 ^ 16 - 1)
    × (length c.candidates ≤ 2 ^ 16 - 1)
    × (length c.nodes ≤ 2 ^ 8 - 1)
    × (length c.records ≤ 2 ^ 8 - 1)
    × All (λ s. length s ≤ 2 ^ 16 - 1) c.candidates
    × WinnerWithin (2 ^ 16 - 1) c.resolved_winner
    × All (λ r. length r ≤ 2 ^ 32 - 1) c.records

any_longer-All :
    (most : ℕ) (xs : List (List ℕ)) → any_longer most xs ≡ false → All (λ x. length x ≤ most) xs
unfolding any_longer
any_longer-All most [] h = tt
any_longer-All most (x ∷ xs) h = (ground (arith, h), any_longer-All most xs (ground (arith, h)))

-- Where the encoder writes a conflict record, the lengths of its id, its subject, each candidate, its
-- winner if there is one, and each record, and the numbers of its candidates, nodes and records, all fit
-- their fields, so no cast cuts one of them off.
pub encode_conflict-Sizes :
    (c : ConflictRecord) (bytes : List ℕ) → encode_conflict c ≡ ok bytes → Sizes c
unfolding encode_conflict
encode_conflict-Sizes c bytes h =
    elim (Bool-cases (
      ltb (2 ^ 16 - 1) (length c.conflict_id)
      || ltb (2 ^ 16 - 1) (length c.subject)
      || ltb (2 ^ 16 - 1) (length c.candidates)
      || ltb (2 ^ 8 - 1) (length c.nodes)
      || ltb (2 ^ 8 - 1) (length c.records))) [
        | inl e ↦ absurd (let k = rw e at h in cc)
        | inr e ↦ elim (Bool-cases (any_longer (2 ^ 16 - 1) c.candidates)) [
          | inl f ↦ absurd (let k = rw (e, f) at h in cc)
          | inr f ↦ elim (Bool-cases (winner_longer (2 ^ 16 - 1) c.resolved_winner)) [
            | inl g ↦ absurd (let k = rw (e, f, g) at h in cc)
            | inr g ↦ elim (Bool-cases (any_longer (2 ^ 32 - 1) c.records)) [
              | inl i ↦ absurd (let k = rw (e, f, g, i) at h in cc)
              | inr i ↦ (
                ground (arith, e),
                ground (arith, e),
                ground (arith, e),
                ground (arith, e),
                ground (arith, e),
                any_longer-All (2 ^ 16 - 1) c.candidates f,
                winner_longer-WinnerWithin (2 ^ 16 - 1) c.resolved_winner g,
                any_longer-All (2 ^ 32 - 1) c.records i,
              )
            ]
          ]
        ]
      ]
