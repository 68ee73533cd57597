-- ===== src/Tickv/Runs.antt =====
-- Runs of the volume scan, and its theorems at concrete volumes.
use neural_sgdb.Prelude.{
  true, ◌++◌, Option, ℕ, List, [], take, ◌∷◌, length, ◌≤◌, none, some, ◌≡◌, refl, arith,
}
use neural_sgdb.Prelude.Bytes.{eq_bytes, le_bytes, of_le}
use neural_sgdb.Prelude.Text.{codes}
use neural_sgdb.Wire.Utf8.{is_utf8}
use neural_sgdb.Storage.Crc.{crc32, not_u32, crc32_update, crc32_table, crc32_round}
use neural_sgdb.Storage.Map.{get, insert, remove}
use neural_sgdb.Tickv.{
  cut, encode_tklv, invalidate, record_size, find_record, hdr_shaped, is_blank, found_record,
  found_body, index_record, set_offset, drop_offset, next_boundary, scan_from, scan_volume, no_scan,
}
use neural_sgdb.Tickv.Records.{Writable}
use neural_sgdb.Tickv.Volume.{
  Written, valid, invalidated, volume, map_of, offsets_of, scanned, scan_volume-volume,
}
use neural_sgdb.Tickv.Torn.{scan_volume-part}
use neural_sgdb.Tickv.Fuel.{scan_volume_fuel}
use neural_sgdb.Tickv.Durable.{scan_volume-put_tickv}
use neural_sgdb.Tickv.File.{
  TickvError, invalidate_at, remember, append_tklv, replace_tklv, write_tklv, all_written,
  TickvFile, put_tickv, torn_append, write_failed, find_offset, put_tickv_loses,
}

-- "e/a" is overwritten, its first record invalidated, and "e/b" is deleted.
abbrev three : List Written
three =
    invalidated (codes "e/a") (1 ∷ [])
    ∷ valid (codes "e/a") (2 ∷ 3 ∷ [])
    ∷ valid (codes "e/b") []
    ∷ []

ea-Writable : (val : List ℕ) → length val ≤ 2 → Writable (codes "e/a") val
unfolding is_utf8 eq_bytes
ea-Writable val h = record {
  short_key = omega arith;
  short_val = omega (arith, h);
  text = refl;
  ordinary = refl;
}

eb-Writable : Writable (codes "e/b") []
unfolding is_utf8 eq_bytes
eb-Writable = record {
  short_key = omega arith;
  short_val = omega arith;
  text = refl;
  ordinary = refl;
}

-- Only "e/a" is there, with its second value, at the second record.
three_map : map_of three [] ≡ (codes "e/a", 2 ∷ 3 ∷ []) ∷ []
unfolding map_of insert remove eq_bytes
three_map = refl

volume-three : length (volume three) ≡ 1536
unfolding volume encode_tklv invalidate record_size le_bytes
volume-three = refl

scan_volume_fuel_example :
    scan_from 1600 0 (volume three) no_scan ≡ some (scan_volume (volume three))
scan_volume_fuel_example = scan_volume_fuel 1600 (volume three) (omega (arith, volume-three))

-- The file after "e/a" was put with the value 1.
abbrev one_put : TickvFile
one_put = record {
  disk = volume (valid (codes "e/a") (1 ∷ []) ∷ []);
  map = (codes "e/a", 1 ∷ []) ∷ [];
  offsets = (codes "e/a", 0) ∷ [];
  append_off = 512;
}

one_put_offset : find_offset one_put.offsets (codes "e/a") ≡ some (length (volume []))
unfolding find_offset eq_bytes volume
one_put_offset = refl

torn_record : length (encode_tklv (codes "e/a") (4 ∷ [])) ≡ 512
unfolding encode_tklv record_size le_bytes
torn_record = refl

scan_volume-part_example :
    scan_volume (volume three ++ take 100 (encode_tklv (codes "e/a") (4 ∷ [])))
    ≡ cut true (scanned (map_of three []) (offsets_of 0 three []) (length (volume three)))
scan_volume-part_example =
    scan_volume-part three (codes "e/a") (4 ∷ []) 100
      (
        ea-Writable (1 ∷ []) (omega arith),
        (ea-Writable (2 ∷ 3 ∷ []) (omega arith), (eb-Writable, tt)),
      )
      (ea-Writable (4 ∷ []) (omega arith)) (omega (arith, torn_record))

new_record : length (encode_tklv (codes "e/a") (2 ∷ 3 ∷ [])) ≡ 512
unfolding encode_tklv record_size le_bytes
new_record = refl

-- The append stops after 100 bytes.
put_tickv_loses_example :
    let r =
      put_tickv one_put
        (codes "e/a")
        (2 ∷ 3 ∷ [])
        (torn_append (take 100 (encode_tklv (codes "e/a") (2 ∷ 3 ∷ [])))) in
    (r.1 ≡ some write_failed)
    × (get r.0.map (codes "e/a") ≡ get one_put.map (codes "e/a"))
    × (get (scan_volume r.0.disk).map (codes "e/a") ≡ none)
put_tickv_loses_example =
    put_tickv_loses [] [] (codes "e/a") (1 ∷ []) (2 ∷ 3 ∷ []) 100 one_put refl one_put_offset tt tt
      (ea-Writable (1 ∷ []) (omega arith)) (ea-Writable (2 ∷ 3 ∷ []) (omega arith)) tt tt
      (omega (arith, new_record))

one_put_scanned : (k : List ℕ) → get (scan_volume one_put.disk).map k ≡ get one_put.map k
unfolding map_of insert
one_put_scanned k =
    rw
      (scan_volume-volume (valid (codes "e/a") (1 ∷ []) ∷ [])
        (ea-Writable (1 ∷ []) (omega arith), tt))
      refl

scan_volume-put_tickv_example :
    let r = put_tickv one_put (codes "e/a") (2 ∷ 3 ∷ []) all_written in
    (r.1 ≡ none) × ((k : List ℕ) → get (scan_volume r.0.disk).map k ≡ get r.0.map k)
scan_volume-put_tickv_example =
    scan_volume-put_tickv [] [] (codes "e/a") (1 ∷ []) (2 ∷ 3 ∷ []) one_put refl one_put_offset tt
      tt (ea-Writable (1 ∷ []) (omega arith)) (ea-Writable (2 ∷ 3 ∷ []) (omega arith))
      one_put_scanned

-- An append of "e/b" stops after 100 bytes, and the open file goes on: a put over "e/a" behind the torn
-- bytes returns no error, but a scan of the disk finds neither value of "e/a".
abbrev gone_on : TickvFile × Option TickvError
gone_on =
    let torn =
      put_tickv one_put (codes "e/b") (7 ∷ [])
        (torn_append (take 100 (encode_tklv (codes "e/b") (7 ∷ [])))) in
    put_tickv torn.0 (codes "e/a") (2 ∷ 3 ∷ []) all_written

lost_behind_torn :
    (gone_on.1 ≡ none)
    × (get gone_on.0.map (codes "e/a") ≡ some (2 ∷ 3 ∷ []))
    × (get (scan_volume gone_on.0.disk).map (codes "e/a") ≡ none)
unfolding put_tickv write_tklv append_tklv replace_tklv find_offset invalidate_at invalidate
    remember encode_tklv record_size le_bytes of_le eq_bytes get insert remove volume scan_volume
    scan_from find_record hdr_shaped is_blank found_record found_body index_record set_offset
    drop_offset next_boundary is_utf8 crc32 not_u32 crc32_update crc32_table crc32_round
lost_behind_torn = (refl, refl, refl)
