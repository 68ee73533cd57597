-- ===== src/Tickv/Volume.antt =====
-- The scan of src/tickv.rs over a volume of records, some of them invalidated in place.
use neural_sgdb.Prelude.{
  ℕ, zero, suc, ◌+◌, ◌≤◌, ◌<◌, false, List, [], ◌∷◌, ◌++◌, length, length-append, drop,
  drop-length_append, append_assoc, append-nil, All, some, ltb, ge→not_ltb, ◌≡◌, refl, sym, ap, ◌∙◌,
  arith,
}
use neural_sgdb.Storage.Map.{Map, insert, remove}
use neural_sgdb.Tickv.{
  header_len, record_size, encode_tklv, invalidate, Offsets, set_offset, drop_offset, ScanResult,
  extend, index_record, scan_from, scan_or_none, scan_volume,
}
use neural_sgdb.Tickv.Records.{
  Writable, record_size_ge, find_record-encode_tklv, find_record-invalidate, length-encode_tklv,
  length-invalidate,
}

-- A record on the volume, valid or invalidated.
pub data Written : Type 0 where
  valid invalidated : List ℕ → List ℕ → Written

abbrev pub bytes_of : Written → List ℕ
bytes_of (valid key val) = encode_tklv key val
bytes_of (invalidated key val) = invalidate (encode_tklv key val)

unfoldable pub volume : List Written → List ℕ
volume [] = []
volume (r ∷ rs) = bytes_of r ++ volume rs

abbrev pub IsWritable : Written → Type 0
IsWritable (valid key val) = Writable key val
IsWritable (invalidated key val) = Writable key val

abbrev pub size_of : Written → ℕ
size_of (valid key val) = record_size (length key) (length val)
size_of (invalidated key val) = record_size (length key) (length val)

-- The map that the records mean: a valid record sets its key, or takes it away if its value is empty.
abbrev pub map_with : Written → Map → Map
map_with (valid key []) m = remove key m
map_with (valid key (x ∷ val)) m = insert key (x ∷ val) m
map_with (invalidated key val) m = m

unfoldable pub map_of : List Written → Map → Map
map_of [] m = m
map_of (r ∷ rs) m = map_of rs (map_with r m)

abbrev pub offsets_with : ℕ → Written → Offsets → Offsets
offsets_with off (valid key []) o = drop_offset key o
offsets_with off (valid key (x ∷ val)) o = set_offset key off o
offsets_with off (invalidated key val) o = o

-- The offset of the last valid record of each key.
unfoldable pub offsets_of : ℕ → List Written → Offsets → Offsets
offsets_of off [] o = o
offsets_of off (r ∷ rs) o = offsets_of (off + size_of r) rs (offsets_with off r o)

abbrev pub scanned : Map → Offsets → ℕ → ScanResult
scanned m o off = record { map = m; corrupt = 0; truncated = false; offsets = o; append_off = off }

length-bytes_of : (r : Written) → IsWritable r → length (bytes_of r) ≡ size_of r
length-bytes_of (valid key val) w = length-encode_tklv key val w []
length-bytes_of (invalidated key val) w = length-invalidate key val w []

long :
    (r : Written) (rest : List ℕ)
    → IsWritable r
    → ltb (length (bytes_of r ++ rest)) header_len ≡ false
long (valid key val) rest w = ge→not_ltb (length (encode_tklv key val ++ rest)) header_len (
    omega (
      arith,
      record_size_ge (length key) (length val),
      length-bytes_of (valid key val) w,
      length-append (encode_tklv key val) rest,
    ))
long (invalidated key val) rest w =
    ge→not_ltb (length (invalidate (encode_tklv key val) ++ rest)) header_len (
      omega (
        arith,
        record_size_ge (length key) (length val),
        length-bytes_of (invalidated key val) w,
        length-append (invalidate (encode_tklv key val)) rest,
      ))

behind : (r : Written) (rest : List ℕ) → IsWritable r → drop (size_of r) (bytes_of r ++ rest) ≡ rest
behind r rest w = rw (← length-bytes_of r w) (drop-length_append (bytes_of r) rest)

index_scanned :
    (key val : List ℕ) (m : Map) (o : Offsets) (off end : ℕ)
    → index_record off key val (scanned m o end)
      ≡ scanned (map_with (valid key val) m) (offsets_with off (valid key val) o) end
unfolding index_record
index_scanned key [] m o off end = refl
index_scanned key (x ∷ val) m o off end = refl

extend-scanned :
    (m : Map) (o : Offsets) (off n : ℕ) → extend (off + n) (scanned m o off) ≡ scanned m o (off + n)
extend-scanned m o off n = ap (scanned m o) (omega arith)

-- One record of the scan.
scan_step :
    (fuel off : ℕ) (r : Written) (rest : List ℕ) (m : Map) (o : Offsets)
    → IsWritable r
    → scan_from (suc fuel) off (bytes_of r ++ rest) (scanned m o off)
      ≡ scan_from fuel
          (off + size_of r)
          rest
          (scanned (map_with r m) (offsets_with off r o) (off + size_of r))
unfolding scan_from
scan_step fuel off (valid key val) rest m o w =
    rw
      (
        long (valid key val) rest w,
        find_record-encode_tklv key val w rest,
        behind (valid key val) rest w,
      )
      (ap (scan_from fuel (off + size_of (valid key val)) rest) (
        ap (index_record off key val) (extend-scanned m o off (size_of (valid key val)))
        ∙ index_scanned key val m o off (off + size_of (valid key val))))
scan_step fuel off (invalidated key val) rest m o w =
    rw
      (
        long (invalidated key val) rest w,
        find_record-invalidate key val w rest,
        behind (invalidated key val) rest w,
      )
      (ap (scan_from fuel (off + size_of (invalidated key val)) rest)
        (extend-scanned m o off (size_of (invalidated key val))))

size_pos : (r : Written) → 1 ≤ size_of r
size_pos (valid key val) = omega (arith, record_size_ge (length key) (length val))
size_pos (invalidated key val) = omega (arith, record_size_ge (length key) (length val))

-- The scan gets to what is behind the records, with fuel left for it.
pub scan_records :
    (rs : List Written) (rest : List ℕ) (fuel off : ℕ) (m : Map) (o : Offsets)
    → All IsWritable rs
    → length (volume rs) + length rest < fuel
    → (left : ℕ) × (length rest < left)
      × (scan_from fuel off (volume rs ++ rest) (scanned m o off)
          ≡ scan_from left
              (off + length (volume rs))
              rest
              (scanned (map_of rs m) (offsets_of off rs o) (off + length (volume rs))))
unfolding volume map_of offsets_of
scan_records rs rest zero off m o h f = absurd (omega arith)
scan_records [] rest (suc fuel) off m o h f = (
  suc fuel,
  omega (arith, f),
  ap (λ n. scan_from (suc fuel) n rest (scanned m o n)) (omega arith),
)
scan_records (r ∷ rs) rest (suc fuel) off m o h f =
    let l = length-append (bytes_of r) (volume rs) in
    let k = length-bytes_of r h.0 in
    let p = size_pos r in
    let (left, enough, e) =
      scan_records rs rest fuel (off + size_of r) (map_with r m) (offsets_with off r o) h.1
        (omega (arith, l, k, p, f)) in
    (
      left,
      enough,
      rw (append_assoc (bytes_of r) (volume rs) rest) (
          scan_step fuel off r (volume rs ++ rest) m o h.0
          ∙ e
          ∙ ap
              (λ n. scan_from left n rest (
                scanned (map_of rs (map_with r m))
                  (offsets_of (off + size_of r) rs (offsets_with off r o)) n))
              (omega (arith, l, k))),
    )

scan_end :
    (fuel off : ℕ) (m : Map) (o : Offsets) (end : ℕ)
    → 0 < fuel
    → scan_from fuel off [] (scanned m o end) ≡ some (scanned m o end)
unfolding scan_from
scan_end zero off m o end h = absurd (omega arith)
scan_end (suc fuel) off m o end h = refl

pub scan_volume-volume :
    (rs : List Written)
    → All IsWritable rs
    → scan_volume (volume rs) ≡ scanned (map_of rs []) (offsets_of 0 rs []) (length (volume rs))
unfolding scan_volume
scan_volume-volume rs h =
    let m = map_of rs [] in
    let o = offsets_of 0 rs [] in
    let (left, enough, e) = scan_records rs [] (suc (length (volume rs))) 0 [] [] h (omega arith) in
    ap scan_or_none (
      ap (λ d. scan_from (suc (length (volume rs))) 0 d (scanned [] [] 0))
        (sym (append-nil (volume rs)))
      ∙ e
      ∙ scan_end left (0 + length (volume rs)) m o (0 + length (volume rs)) enough)
    ∙ ap (scanned m o) (omega arith)
