-- ===== src/Tickv/Records.antt =====
-- What the scan of src/tickv.rs finds at a record: the key and the value that were written, or, once
-- the record is invalidated in place, a dead record of the same size.
use neural_sgdb.Prelude.{
  ℕ, zero, suc, ◌+◌, ◌-◌, ◌≤◌, true, false, List, [], ◌∷◌, ◌++◌, length, length-append, take, drop,
  replicate, take-length_append, drop-length_append, append_assoc, append-nil, ltb, ge→not_ltb,
  ==_refl, ◌≡◌, refl, ap, ◌∙◌, arith,
}
use neural_sgdb.Prelude.Bytes.{le_bytes, of_le, of_le-le_bytes, eq_bytes, IsU32}
use neural_sgdb.Wire.Utf8.{is_utf8}
use neural_sgdb.Storage.Crc.{crc32, crc32_parts-IsU32, crc32_parts-nil}
use neural_sgdb.Storage.File.{max_klen, max_vlen}
use neural_sgdb.Tickv.{
  ckpt_key, header_len, record_size, encode_tklv, invalidate, hdr_shaped, dead, written,
  header_word, found_body, found_record, find_record,
}

-- A key and a value that the writer accepts; the checkpoint's key is its own.
pub record Writable (key val : List ℕ) : Type 0 where
  pub short_key : length key ≤ max_klen
  pub short_val : length val ≤ max_vlen
  pub text : is_utf8 key ≡ true
  pub ordinary : eq_bytes key ckpt_key ≡ false

pub record_size_ge : (klen vlen : ℕ) → header_len + (klen + vlen) ≤ record_size klen vlen
unfolding record_size
record_size_ge klen vlen = omega arith

-- A header with its four words, and what follows.
abbrev pub framed : ℕ → ℕ → ℕ → ℕ → List ℕ → List ℕ
framed mark a b c rest =
    84 ∷ 75 ∷ 76 ∷ mark ∷ (le_bytes 4 a ++ (le_bytes 4 b ++ (le_bytes 4 c ++ rest)))

module _ (mark a b c : ℕ) (rest : List ℕ) where
  pub word_4 : header_word 4 (framed mark a b c rest) ≡ of_le (le_bytes 4 a)
  unfolding le_bytes
  word_4 = refl

  pub word_8 : header_word 8 (framed mark a b c rest) ≡ of_le (le_bytes 4 b)
  unfolding le_bytes
  word_8 = refl

  word_12 : header_word 12 (framed mark a b c rest) ≡ of_le (le_bytes 4 c)
  unfolding le_bytes
  word_12 = refl

  body_16 : drop header_len (framed mark a b c rest) ≡ rest
  unfolding le_bytes
  body_16 = refl

  pub length-framed : length (framed mark a b c rest) ≡ 16 + length rest
  unfolding le_bytes
  length-framed = omega arith

pub shaped_valid :
    (a b c : ℕ) (rest : List ℕ) → hdr_shaped (take header_len (framed 86 a b c rest)) ≡ true
unfolding le_bytes hdr_shaped eq_bytes
shaped_valid a b c rest = refl

shaped_dead :
    (a b c : ℕ) (rest : List ℕ) → hdr_shaped (take header_len (framed 0 a b c rest)) ≡ true
unfolding le_bytes hdr_shaped eq_bytes
shaped_dead a b c rest = refl

length-replicate : (n : ℕ) → length {A = ℕ} (replicate n 0) ≡ n
length-replicate zero = refl
length-replicate (suc n) = ap suc (length-replicate n)

module _ (key val : List ℕ) where
  abbrev pub padding : List ℕ
  padding = replicate (record_size (length key) (length val) - (header_len + length (key ++ val))) 0

  abbrev frame : ℕ → List ℕ → List ℕ
  frame mark rest =
      framed mark (length key) (length val) (crc32 (key ++ val)) ((key ++ val) ++ (padding ++ rest))

  pub encode_tklv-frame : (rest : List ℕ) → encode_tklv key val ++ rest ≡ frame 86 rest
  unfolding encode_tklv le_bytes
  encode_tklv-frame rest =
      ap (framed 86 (length key) (length val) (crc32 (key ++ val)))
        (append_assoc (key ++ val) padding rest)

  invalidate-frame : (rest : List ℕ) → invalidate (encode_tklv key val) ++ rest ≡ frame 0 rest
  unfolding encode_tklv le_bytes invalidate
  invalidate-frame rest =
      ap (framed 0 (length key) (length val) (crc32 (key ++ val)))
        (append_assoc (key ++ val) padding rest)

  length-frame :
      (mark : ℕ) (rest : List ℕ)
      → length (frame mark rest) ≡ record_size (length key) (length val) + length rest
  length-frame mark rest =
      let l = record_size_ge (length key) (length val) in
      omega (
        arith,
        length-framed mark (length key) (length val) (crc32 (key ++ val))
            ((key ++ val) ++ (padding ++ rest)),
        length-append (key ++ val) (padding ++ rest),
        length-append padding rest,
        length-append key val,
        length-replicate
            (record_size (length key) (length val) - (header_len + length (key ++ val))),
      )

pub find_record_lem :
    (bytes : List ℕ) (klen vlen : ℕ)
    → header_word 4 bytes ≡ klen
    → header_word 8 bytes ≡ vlen
    → hdr_shaped (take header_len bytes) ≡ true
    → klen ≤ max_klen
    → vlen ≤ max_vlen
    → find_record bytes ≡ found_record klen vlen bytes
unfolding find_record
find_record_lem bytes klen vlen e f shaped hk hv =
    rw (e, f, shaped, ge→not_ltb max_klen klen hk, ge→not_ltb max_vlen vlen hv) refl

crc-IsU32 : (bs : List ℕ) → IsU32 (crc32 bs)
crc-IsU32 bs = rw (← crc32_parts-nil bs) (crc32_parts-IsU32 bs [])

module _ (key val : List ℕ) (w : Writable key val) (rest : List ℕ) where
  found_at :
      (mark : ℕ)
      → hdr_shaped (take header_len (frame key val mark rest)) ≡ true
      → find_record (frame key val mark rest)
        ≡ found_record (length key) (length val) (frame key val mark rest)
  found_at mark shaped =
      let behind = (key ++ val) ++ (padding key val ++ rest) in
      let crc = crc32 (key ++ val) in
      find_record_lem (frame key val mark rest) (length key) (length val)
        (word_4 mark (length key) (length val) crc behind
          ∙ of_le-le_bytes 4 (length key) (omega (arith, w.short_key)))
        (word_8 mark (length key) (length val) crc behind
          ∙ of_le-le_bytes 4 (length val) (omega (arith, w.short_val)))
        shaped w.short_key w.short_val

  whole :
      (mark : ℕ)
      → ltb (length (frame key val mark rest)) (record_size (length key) (length val)) ≡ false
  whole mark =
      ge→not_ltb (length (frame key val mark rest)) (record_size (length key) (length val))
        (omega (arith, length-frame key val mark rest))

  pub find_record-invalidate :
      find_record (invalidate (encode_tklv key val) ++ rest)
      ≡ dead (record_size (length key) (length val))
  unfolding found_record
  find_record-invalidate =
      let behind = (key ++ val) ++ (padding key val ++ rest) in
      rw (invalidate-frame key val rest) (
        found_at 0 (shaped_dead (length key) (length val) (crc32 (key ++ val)) behind)
        ∙ rw (whole 0) refl)

  pub find_record-encode_tklv :
      find_record (encode_tklv key val ++ rest)
      ≡ written (record_size (length key) (length val)) key val
  unfolding found_record found_body
  find_record-encode_tklv =
      let behind = (key ++ val) ++ (padding key val ++ rest) in
      let crc = crc32 (key ++ val) in
      let body : take (length key + length val) (drop header_len (frame key val 86 rest))
          ≡ key ++ val =
        ap (take (length key + length val)) (body_16 86 (length key) (length val) crc behind)
        ∙ rw (← length-append key val)
            (take-length_append (key ++ val) (padding key val ++ rest)) in
      let want : header_word 12 (frame key val 86 rest) ≡ crc =
        word_12 86 (length key) (length val) crc behind
        ∙ of_le-le_bytes 4 crc (crc-IsU32 (key ++ val)) in
      rw (encode_tklv-frame key val rest) (
        found_at 86 (shaped_valid (length key) (length val) crc behind)
        ∙ rw
            (
              whole 86,
              body,
              want,
              ==_refl crc,
              take-length_append key val,
              drop-length_append key val,
              w.text,
              w.ordinary,
            )
            refl)

  pub length-encode_tklv : length (encode_tklv key val) ≡ record_size (length key) (length val)
  length-encode_tklv =
      let e = ap length (append-nil (encode_tklv key val)) in
      omega (arith, e, ap length (encode_tklv-frame key val []), length-frame key val 86 [])

  pub length-invalidate :
      length (invalidate (encode_tklv key val)) ≡ record_size (length key) (length val)
  length-invalidate =
      let e = ap length (append-nil (invalidate (encode_tklv key val))) in
      omega (arith, e, ap length (invalidate-frame key val []), length-frame key val 0 [])
