-- ===== src/Tickv/Torn.antt =====
-- The scan of src/tickv.rs over a volume that ends in a record of which an append wrote only a part.
use neural_sgdb.Prelude.{
  ℕ, suc, zero, ◌+◌, ◌-◌, ◌≤◌, ◌<◌, true, false, ◌||◌, some, List, [], ◌++◌, length, length-append,
  length-take, take, append-nil, All, ltb, ◌≡◌, refl, sym, ap, ◌∙◌, inl, inr, arith, Bool-cases,
}
use neural_sgdb.Prelude.Bytes.{le_bytes, of_le-le_bytes}
use neural_sgdb.Storage.Crc.{crc32}
use neural_sgdb.Tickv.{
  header_len, record_size, encode_tklv, ScanResult, cut, cut_off, find_record, found_record,
  scan_from, scan_or_none, scan_volume,
}
use neural_sgdb.Tickv.Records.{
  Writable, framed, padding, word_4, word_8, length-framed, shaped_valid, find_record_lem,
  encode_tklv-frame, length-encode_tklv,
}
use neural_sgdb.Tickv.Volume.{
  Written, volume, IsWritable, map_of, offsets_of, scanned, scan_records,
}

take-framed :
    (k a b c : ℕ) (rest : List ℕ)
    → take (16 + k) (framed 86 a b c rest) ≡ framed 86 a b c (take k rest)
unfolding le_bytes
take-framed k a b c rest =
    let e : 16 + k
        ≡ suc (
            suc (
              suc
                (suc (suc (suc (suc (suc (suc (suc (suc (suc (suc (suc (suc (suc k))))))))))))))) =
      omega arith in
    ap (λ n. take n (framed 86 a b c rest)) e

module _ (key val : List ℕ) (w : Writable key val) where
  -- A part of a record, the header at least.
  find_record-part :
      (k : ℕ)
      → 16 + k < record_size (length key) (length val)
      → find_record (take (16 + k) (encode_tklv key val)) ≡ cut_off
  unfolding found_record
  find_record-part k h =
      let crc = crc32 (key ++ val) in
      let behind = (key ++ val) ++ (padding key val ++ []) in
      let part = framed 86 (length key) (length val) crc (take k behind) in
      let e : take (16 + k) (encode_tklv key val) ≡ part =
        ap (take (16 + k)) (sym (append-nil (encode_tklv key val)) ∙ encode_tklv-frame key val [])
        ∙ take-framed k (length key) (length val) crc behind in
      let short : ltb (length part) (record_size (length key) (length val)) ≡ true = ground (
        arith,
        length-framed 86 (length key) (length val) crc (take k behind),
        length-take k behind,
        h,
      ) in
      ap find_record e
      ∙ (find_record_lem part (length key) (length val)
            (word_4 86 (length key) (length val) crc (take k behind)
              ∙ of_le-le_bytes 4 (length key) (omega (arith, w.short_key)))
            (word_8 86 (length key) (length val) crc (take k behind)
              ∙ of_le-le_bytes 4 (length val) (omega (arith, w.short_val)))
            (shaped_valid (length key) (length val) crc (take k behind)) w.short_key w.short_val
          ∙ rw short refl)

  -- What is left of a record of which not all was written ends the scan, and changes nothing but the
  -- mark of a torn end.
  pub scan_from-part :
      (n fuel off : ℕ) (s : ScanResult)
      → n < length (encode_tklv key val)
      → 0 < fuel
      → scan_from fuel off (take n (encode_tklv key val)) s ≡ some (cut (ltb 0 n || s.truncated) s)
  unfolding scan_from
  scan_from-part n zero off s h f = absurd (omega arith)
  scan_from-part n (suc fuel) off s h f =
      let total = length-encode_tklv key val w in
      let part = take n (encode_tklv key val) in
      let l : length part ≡ n = omega (arith, length-take n (encode_tklv key val), h) in
      elim (Bool-cases (ltb (length part) header_len)) [
        | inl e ↦ rw e (ap (λ i. some (cut (ltb 0 i || s.truncated) s)) l)
        | inr e ↦
            let big : 16 ≤ n = ground (arith, e, l) in
            let n16 : 16 + (n - 16) ≡ n = omega (arith, big) in
            let found : find_record part ≡ cut_off =
              ap (λ i. find_record (take i (encode_tklv key val))) (sym n16)
              ∙ find_record-part (n - 16) (omega (arith, h, total, big)) in
            let some_bytes : ltb 0 n ≡ true = ground (arith, big) in rw (e, found, some_bytes) refl
      ]

-- A record counts as writable if its key is UTF-8 and not the checkpoint's, and key and value are
-- within the limits. The scan of whole writable records, valid or invalidated, with the first `n`
-- bytes but not all of one more writable record behind them, finds what the whole records hold and
-- where appends should go on, behind the last whole record, and marks a torn end exactly if `n` is
-- not 0.
pub scan_volume-part :
    (rs : List Written) (key val : List ℕ) (n : ℕ)
    → All IsWritable rs
    → Writable key val
    → n < length (encode_tklv key val)
    → scan_volume (volume rs ++ take n (encode_tklv key val))
      ≡ cut (ltb 0 n) (scanned (map_of rs []) (offsets_of 0 rs []) (length (volume rs)))
unfolding scan_volume
scan_volume-part rs key val n h w short =
    let part = take n (encode_tklv key val) in
    let found = scanned (map_of rs []) (offsets_of 0 rs []) in
    let end = length (volume rs) in
    let (left, enough, e) =
      scan_records rs part (suc (length (volume rs ++ part))) 0 [] [] h
        (omega (arith, length-append (volume rs) part)) in
    let f =
      scan_from-part key val w n left (0 + end) (found (0 + end)) short (omega (arith, enough)) in
    let m : (ltb 0 n || false) ≡ ltb 0 n = ground arith in
    ap scan_or_none (e ∙ f)
    ∙ ap (λ b. cut b (found (0 + end))) m
    ∙ ap (λ i. cut (ltb 0 n) (found i)) (omega arith)
