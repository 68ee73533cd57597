-- ===== src/Tickv.antt =====
-- The volume format TKLV of src/tickv.rs: its records, their invalidation in place, and the scan of a
-- volume. The rest of the volume at the scan's offset is the list of the bytes still to be read.
mod Records
mod Volume
mod Fuel
mod Torn
mod File
mod Durable
mod Runs
use neural_sgdb.Prelude.{
  ℕ, zero, suc, ◌+◌, ◌-◌, ◌*◌, ◌/◌, Bool, true, false, ◌&&◌, ◌||◌, Option, none, some, List, [],
  ◌∷◌, ◌++◌, length, take, drop, replicate, ltb, ◌==◌, if◌then◌else◌, max,
}
use neural_sgdb.Prelude.Bytes.{le_bytes, of_le, eq_bytes}
use neural_sgdb.Prelude.Text.{codes}
use neural_sgdb.Wire.Utf8.{is_utf8}
use neural_sgdb.Storage.Crc.{crc32}
use neural_sgdb.Storage.Map.{Map, lt_bytes, insert, remove}
use neural_sgdb.Storage.File.{max_klen, max_vlen}

abbrev pub tklv_magic : List ℕ
tklv_magic = codes "TKLV"

abbrev pub ckpt_key : List ℕ
ckpt_key = codes "sys/tickv_ckpt"

-- `HEADER`
abbrev pub header_len : ℕ
header_len = 16

-- A multiple of 512 bytes.
unfoldable pub record_size : ℕ → ℕ → ℕ
record_size klen vlen =
    let body_padded = (klen + vlen + 15) / 16 * 16 in (header_len + body_padded + 511) / 512 * 512

-- The padding of the body and of the record are zeros.
unfoldable pub encode_tklv : List ℕ → List ℕ → List ℕ
encode_tklv key val =
    tklv_magic
    ++ (le_bytes 4 (length key)
        ++ (le_bytes 4 (length val)
            ++ (le_bytes 4 (crc32 (key ++ val))
                ++ ((key ++ val)
                    ++ replicate
                        (record_size (length key) (length val) - (header_len + length (key ++ val)))
                        0))))

-- `invalidate_in_place`, at the start of a record: its fourth byte becomes 0.
unfoldable pub invalidate : List ℕ → List ℕ
invalidate (a ∷ b ∷ c ∷ d ∷ rest) = a ∷ b ∷ c ∷ 0 ∷ rest
invalidate bytes = bytes

-- The magic of a record, of one that is invalidated, or of one with the mark 1.
unfoldable pub hdr_shaped : List ℕ → Bool
hdr_shaped (a ∷ b ∷ c ∷ d ∷ rest) =
    eq_bytes (a ∷ b ∷ c ∷ []) (codes "TKL") && (d == 86 || d == 1 || d == 0)
hdr_shaped bytes = false

-- Every byte is 0 or 0xFF.
unfoldable pub is_blank : List ℕ → Bool
is_blank [] = true
is_blank (b ∷ bs) = if b == 0 || b == 0xFF then is_blank bs else false

-- What the scan finds at its offset: the end of the data, a place to hunt for the next record from, a
-- record cut off by the end of the volume, or a record of that size: invalidated, with a key that is no
-- text, a checkpoint, or a key with its value.
pub data Found : Type 0 where
  blank hunt cut_off : Found
  dead bad_text checkpoint : ℕ → Found
  written : ℕ → List ℕ → List ℕ → Found

-- A word of the header.
abbrev pub header_word : ℕ → List ℕ → ℕ
header_word at bytes = of_le (take 4 (drop at bytes))

abbrev pub fourth : List ℕ → ℕ
fourth (a ∷ b ∷ c ∷ d ∷ rest) = d
fourth bytes = 0

unfoldable pub found_body : ℕ → ℕ → List ℕ → Found
found_body klen total body =
    if is_utf8 (take klen body)
    then if eq_bytes (take klen body) ckpt_key
      then checkpoint total
      else written total (take klen body) (drop klen body)
    else bad_text total

unfoldable pub found_record : ℕ → ℕ → List ℕ → Found
found_record klen vlen bytes =
    let total = record_size klen vlen in
    let body = take (klen + vlen) (drop header_len bytes) in
    if ltb (length bytes) total
    then cut_off
    else if fourth bytes == 0
    then dead total
    else if crc32 body == header_word 12 bytes
    then found_body klen total body
    else hunt

unfoldable pub find_record : List ℕ → Found
find_record bytes =
    let klen = header_word 4 bytes in
    let vlen = header_word 8 bytes in
    if hdr_shaped (take header_len bytes)
    then if ltb max_klen klen || ltb max_vlen vlen then hunt else found_record klen vlen bytes
    else if is_blank (take header_len bytes)
    then blank
    else hunt

abbrev pub Offsets : Type 0
Offsets = List (List ℕ × ℕ)

unfoldable pub set_offset : List ℕ → ℕ → Offsets → Offsets
set_offset k v [] = (k, v) ∷ []
set_offset k v ((j, w) ∷ m) =
    if eq_bytes j k
    then (j, v) ∷ m
    else if lt_bytes k j
    then (k, v) ∷ (j, w) ∷ m
    else (j, w) ∷ set_offset k v m

unfoldable pub drop_offset : List ℕ → Offsets → Offsets
drop_offset k [] = []
drop_offset k ((j, w) ∷ m) = if eq_bytes j k then drop_offset k m else (j, w) ∷ drop_offset k m

pub record ScanResult : Type 0 where
  pub map : Map
  pub corrupt : ℕ
  pub truncated : Bool
  pub offsets : Offsets
  pub append_off : ℕ

abbrev pub no_scan : ScanResult
no_scan = record { map = []; corrupt = 0; truncated = false; offsets = []; append_off = 0 }

-- A record up to `end` extends the valid part of the volume.
abbrev pub extend : ℕ → ScanResult → ScanResult
extend end s = record {
  map = s.map;
  corrupt = s.corrupt;
  truncated = s.truncated;
  offsets = s.offsets;
  append_off = max s.append_off end;
}

abbrev pub count_corrupt : ScanResult → ScanResult
count_corrupt s = record {
  map = s.map;
  corrupt = s.corrupt + 1;
  truncated = s.truncated;
  offsets = s.offsets;
  append_off = s.append_off;
}

abbrev pub cut : Bool → ScanResult → ScanResult
cut b s = record {
  map = s.map;
  corrupt = s.corrupt;
  truncated = b;
  offsets = s.offsets;
  append_off = s.append_off;
}

-- The last record of a key counts; the empty value takes the key away.
unfoldable pub index_record : ℕ → List ℕ → List ℕ → ScanResult → ScanResult
index_record off key [] s = record {
  map = remove key s.map;
  corrupt = s.corrupt;
  truncated = s.truncated;
  offsets = drop_offset key s.offsets;
  append_off = s.append_off;
}
index_record off key (x ∷ val) s = record {
  map = insert key (x ∷ val) s.map;
  corrupt = s.corrupt;
  truncated = s.truncated;
  offsets = set_offset key off s.offsets;
  append_off = s.append_off;
}

-- The next boundary of 512 bytes.
unfoldable pub next_boundary : ℕ → ℕ
next_boundary off = (off + 512) / 512 * 512

-- The loop of `scan_volume` at an offset, on fuel: nothing where the fuel runs out.
unfoldable pub scan_from : ℕ → ℕ → List ℕ → ScanResult → Option ScanResult
scan_from zero off bytes s = none
scan_from (suc fuel) off bytes s =
    if ltb (length bytes) header_len
    then some (cut (ltb 0 (length bytes) || s.truncated) s)
    else elim (find_record bytes) [
      | blank ↦ some s
      | hunt ↦
          scan_from fuel (next_boundary off) (drop (next_boundary off - off) bytes)
            (count_corrupt s)
      | cut_off ↦ some (cut true s)
      | dead total ↦ scan_from fuel (off + total) (drop total bytes) (extend (off + total) s)
      | bad_text total ↦
          scan_from fuel (off + total) (drop total bytes) (count_corrupt (extend (off + total) s))
      | checkpoint total ↦ scan_from fuel (off + total) (drop total bytes) (extend (off + total) s)
      | written total key val ↦
          scan_from fuel (off + total) (drop total bytes)
            (index_record off key val (extend (off + total) s))
    ]

abbrev pub scan_or_none : Option ScanResult → ScanResult
scan_or_none none = no_scan
scan_or_none (some s) = s

-- Each step takes a byte at least, so the length of the volume is fuel enough.
unfoldable pub scan_volume : List ℕ → ScanResult
scan_volume bytes = scan_or_none (scan_from (suc (length bytes)) 0 bytes no_scan)
