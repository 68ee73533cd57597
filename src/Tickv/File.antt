-- ===== src/Tickv/File.antt =====
-- `TickvFile::put`, `delete` and `get` of src/tickv.rs without the buffered mode, for keys that are
-- UTF-8, where `from_utf8_lossy` changes nothing. What the writes to the file come to is an argument.
use neural_sgdb.Prelude.{
  ℕ, ◌<◌, ◌+◌, false, ◌||◌, Option, none, some, List, [], ◌∷◌, ◌++◌, length, take, drop,
  take-length_append, drop-length_append, append_assoc, All, All-append, ltb, ge→not_ltb,
  if◌then◌else◌, ◌≡◌, refl, sym, ap, ◌∙◌, arith,
}
use neural_sgdb.Prelude.Bytes.{eq_bytes}
use neural_sgdb.Storage.Map.{Map, get, insert, remove, get-insert, get-remove}
use neural_sgdb.Storage.File.{max_klen, max_vlen}
use neural_sgdb.Tickv.{encode_tklv, invalidate, Offsets, set_offset, drop_offset, scan_volume}
use neural_sgdb.Tickv.Records.{Writable}
use neural_sgdb.Tickv.Torn.{scan_volume-part}
use neural_sgdb.Tickv.Volume.{
  Written, valid, invalidated, bytes_of, volume, IsWritable, map_with, map_of,
}

pub record TickvFile : Type 0 where
  pub disk : List ℕ
  pub map : Map
  pub offsets : Offsets
  pub append_off : ℕ

pub data TickvError : Type 0 where
  tickv_limits invalidate_failed write_failed : TickvError

-- What the operating system lets happen: all, no overwrite of the old record, or only these bytes of the
-- new record.
pub data TickvIo : Type 0 where
  all_written no_invalidation : TickvIo
  torn_append : List ℕ → TickvIo

unfoldable pub find_offset : Offsets → List ℕ → Option ℕ
find_offset [] key = none
find_offset ((k, off) ∷ o) key = if eq_bytes k key then some off else find_offset o key

-- `invalidate_in_place`
unfoldable pub invalidate_at : ℕ → List ℕ → List ℕ
invalidate_at off disk = take off disk ++ invalidate (drop off disk)

-- The map and the offsets after a record of the key was appended at `off`.
unfoldable pub remember : List ℕ → List ℕ → TickvFile → TickvFile
remember key [] s = record {
  disk = s.disk ++ encode_tklv key [];
  map = remove key s.map;
  offsets = drop_offset key s.offsets;
  append_off = s.append_off + length (encode_tklv key []);
}
remember key (x ∷ val) s = record {
  disk = s.disk ++ encode_tklv key (x ∷ val);
  map = insert key (x ∷ val) s.map;
  offsets = set_offset key s.append_off s.offsets;
  append_off = s.append_off + length (encode_tklv key (x ∷ val));
}

abbrev pub with_disk : List ℕ → TickvFile → TickvFile
with_disk d s = record { disk = d; map = s.map; offsets = s.offsets; append_off = s.append_off }

-- `append` and what follows it.
unfoldable pub append_tklv : TickvFile → List ℕ → List ℕ → TickvIo → TickvFile × Option TickvError
append_tklv s key val all_written = (remember key val s, none)
append_tklv s key val no_invalidation = (remember key val s, none)
append_tklv s key val (torn_append bytes) = (with_disk (s.disk ++ bytes) s, some write_failed)

-- The overwrite of the old record at an offset, and the append.
unfoldable pub replace_tklv :
    ℕ → TickvFile → List ℕ → List ℕ → TickvIo → TickvFile × Option TickvError
replace_tklv off s key val no_invalidation = (s, some invalidate_failed)
replace_tklv off s key val all_written =
    append_tklv (with_disk (invalidate_at off s.disk) s) key val all_written
replace_tklv off s key val (torn_append bytes) =
    append_tklv (with_disk (invalidate_at off s.disk) s) key val (torn_append bytes)

-- The record that takes the place of the one before it, if there is one.
unfoldable pub write_tklv : TickvFile → List ℕ → List ℕ → TickvIo → TickvFile × Option TickvError
write_tklv s key val io = elim (find_offset s.offsets key) [
  | none ↦ append_tklv s key val io
  | some off ↦ replace_tklv off s key val io
]

unfoldable pub put_tickv : TickvFile → List ℕ → List ℕ → TickvIo → TickvFile × Option TickvError
put_tickv s key val io =
    if ltb max_klen (length key) || ltb max_vlen (length val)
    then (s, some tickv_limits)
    else write_tklv s key val io

-- A deletion writes the empty value, and checks no limit.
unfoldable pub delete_tickv : TickvFile → List ℕ → TickvIo → TickvFile × Option TickvError
delete_tickv s key io = write_tklv s key [] io

pub volume-append : (a b : List Written) → volume (a ++ b) ≡ volume a ++ volume b
unfolding volume
volume-append [] b = refl
volume-append (r ∷ a) b =
    ap (λ l. bytes_of r ++ l) (volume-append a b)
    ∙ sym (append_assoc (bytes_of r) (volume a) (volume b))

invalidate-encode_tklv :
    (key val rest : List ℕ)
    → invalidate (encode_tklv key val ++ rest) ≡ invalidate (encode_tklv key val) ++ rest
unfolding invalidate encode_tklv
invalidate-encode_tklv key val rest = refl

pub invalidate_at-volume :
    (a b : List Written) (key val : List ℕ)
    → invalidate_at (length (volume a)) (volume (a ++ valid key val ∷ b))
      ≡ volume (a ++ invalidated key val ∷ b)
unfolding invalidate_at volume
invalidate_at-volume a b key val =
    rw
      (
        volume-append a (valid key val ∷ b),
        volume-append a (invalidated key val ∷ b),
        take-length_append (volume a) (encode_tklv key val ++ volume b),
        drop-length_append (volume a) (encode_tklv key val ++ volume b),
        invalidate-encode_tklv key val (volume b),
      )
      refl

-- No valid record of the key.
abbrev pub Lacks : List ℕ → Written → Type 0
Lacks key (valid k v) = eq_bytes k key ≡ false
Lacks key (invalidated k v) = Unit

pub get-map_with :
    (r : Written) (key : List ℕ) (m : Map) → Lacks key r → get (map_with r m) key ≡ get m key
get-map_with (valid k []) key m h = get-remove k key m ∙ rw h refl
get-map_with (valid k (x ∷ v)) key m h = get-insert k (x ∷ v) key m ∙ rw h refl
get-map_with (invalidated k v) key m h = refl

get-map_of :
    (rs : List Written) (key : List ℕ) (m : Map)
    → All (Lacks key) rs
    → get (map_of rs m) key ≡ get m key
unfolding map_of
get-map_of [] key m h = refl
get-map_of (r ∷ rs) key m h = get-map_of rs key (map_with r m) h.1 ∙ get-map_with r key m h.0

get_empty : (key : List ℕ) → get [] key ≡ none
unfolding get
get_empty key = refl

put_tickv_torn :
    (s : TickvFile) (key val bytes : List ℕ) (off : ℕ)
    → Writable key val
    → find_offset s.offsets key ≡ some off
    → put_tickv s key val (torn_append bytes)
      ≡ (with_disk (invalidate_at off s.disk ++ bytes) s, some write_failed)
unfolding put_tickv write_tklv replace_tklv append_tklv
put_tickv_torn s key val bytes off w f =
    let fits = ge→not_ltb max_klen (length key) w.short_key in
    let fits' = ge→not_ltb max_vlen (length val) w.short_val in
    rw (fits, fits', write_tklv) (ground (arith, f))

-- A record counts as writable if its key is UTF-8 and not the checkpoint's, and key and value are
-- within the limits. A disk consists of whole writable records, valid or invalidated, and holds one
-- valid record of a key, to which the key's offset points. A put of a writable record of the key
-- overwrites that record, and its append fails with only the first `n` bytes of the new record
-- written, not all of them: the caller gets an error and the open file answers for the key what it
-- answered before, but a scan of the disk finds no value of the key, neither the old one nor the
-- new one.
pub put_tickv_loses :
    (a b : List Written) (key old val : List ℕ) (n : ℕ) (s : TickvFile)
    → s.disk ≡ volume (a ++ valid key old ∷ b)
    → find_offset s.offsets key ≡ some (length (volume a))
    → All IsWritable a
    → All IsWritable b
    → Writable key old
    → Writable key val
    → All (Lacks key) a
    → All (Lacks key) b
    → n < length (encode_tklv key val)
    → let r = put_tickv s key val (torn_append (take n (encode_tklv key val))) in
      (r.1 ≡ some write_failed)
      × (get r.0.map key ≡ get s.map key)
      × (get (scan_volume r.0.disk).map key ≡ none)
put_tickv_loses a b key old val n s e f wa wb w w' la lb short =
    let rs = a ++ invalidated key old ∷ b in
    let part = take n (encode_tklv key val) in
    let after : invalidate_at (length (volume a)) s.disk ++ part ≡ volume rs ++ part =
      ap (λ d. invalidate_at (length (volume a)) d ++ part) e
      ∙ ap (λ d. d ++ part) (invalidate_at-volume a b key old) in
    let writable = All-append IsWritable a (invalidated key old ∷ b) wa (w, wb) in
    rw (put_tickv_torn s key val part (length (volume a)) w' f) (
      refl,
      refl,
      rw (after, scan_volume-part rs key val n writable w' short)
          (get-map_of rs key [] (All-append (Lacks key) a (invalidated key old ∷ b) la (tt, lb))
            ∙ get_empty key),
    )
