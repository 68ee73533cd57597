-- ===== src/Tickv/Durable.antt =====
-- A put of `TickvFile` in src/tickv.rs that replaces a record, and what a scan of the file finds then.
use neural_sgdb.Prelude.{
  ℕ, true, false, none, some, List, [], ◌∷◌, ◌++◌, length, append-nil, All, All-append, ge→not_ltb,
  ◌≡◌, refl, sym, ap, ◌∙◌, inl, inr, arith, Bool-cases,
}
use neural_sgdb.Prelude.Bytes.{eq_bytes}
use neural_sgdb.Storage.Map.{Map, get, get-insert, get-remove}
use neural_sgdb.Storage.File.{max_klen, max_vlen}
use neural_sgdb.Tickv.{encode_tklv, scan_volume}
use neural_sgdb.Tickv.Records.{Writable}
use neural_sgdb.Tickv.Volume.{
  Written, valid, invalidated, volume, IsWritable, map_with, map_of, scan_volume-volume,
}
use neural_sgdb.Tickv.File.{
  TickvFile, all_written, find_offset, invalidate_at, remember, with_disk, append_tklv,
  replace_tklv, write_tklv, put_tickv, volume-append, invalidate_at-volume, get-map_with,
}

map_of-append : (a b : List Written) (m : Map) → map_of (a ++ b) m ≡ map_of b (map_of a m)
unfolding map_of
map_of-append [] b m = refl
map_of-append (r ∷ a) b m = map_of-append a b (map_with r m)

-- What a map answers for a key after a record depends only on what it answered for that key.
get-map_with_at :
    (r : Written) (key : List ℕ) (m m' : Map)
    → get m key ≡ get m' key
    → get (map_with r m) key ≡ get (map_with r m') key
get-map_with_at (valid k []) key m m' e = get-remove k key m ∙ rw e refl ∙ sym (get-remove k key m')
get-map_with_at (valid k (x ∷ v)) key m m' e =
    get-insert k (x ∷ v) key m ∙ rw e refl ∙ sym (get-insert k (x ∷ v) key m')
get-map_with_at (invalidated k v) key m m' e = e

get-map_of_at :
    (rs : List Written) (key : List ℕ) (m m' : Map)
    → get m key ≡ get m' key
    → get (map_of rs m) key ≡ get (map_of rs m') key
unfolding map_of
get-map_of_at [] key m m' e = e
get-map_of_at (r ∷ rs) key m m' e =
    get-map_of_at rs key (map_with r m) (map_with r m') (get-map_with_at r key m m' e)

get-map_with_same :
    (key val k : List ℕ) (m m' : Map)
    → eq_bytes key k ≡ true
    → get (map_with (valid key val) m) k ≡ get (map_with (valid key val) m') k
get-map_with_same key [] k m m' same = get-remove key k m ∙ rw same refl ∙ sym (get-remove key k m')
get-map_with_same key (x ∷ v) k m m' same =
    get-insert key (x ∷ v) k m ∙ rw same refl ∙ sym (get-insert key (x ∷ v) k m')

-- The record of the key itself answers the same whatever came before it.
get-map_with_own :
    (key val k : List ℕ) (m m' : Map)
    → (eq_bytes key k ≡ false → get m k ≡ get m' k)
    → get (map_with (valid key val) m) k ≡ get (map_with (valid key val) m') k
get-map_with_own key val k m m' e = elim (Bool-cases (eq_bytes key k)) [
  | inl same ↦ get-map_with_same key val k m m' same
  | inr apart ↦ get-map_with_at (valid key val) k m m' (e apart)
]

-- An overwritten record takes the values of no other key.
get-invalidated :
    (a b : List Written) (key old k : List ℕ)
    → eq_bytes key k ≡ false
    → get (map_of (a ++ invalidated key old ∷ b) []) k ≡ get (map_of (a ++ valid key old ∷ b) []) k
unfolding map_of
get-invalidated a b key old k apart =
    let m = map_of a [] in
    rw (map_of-append a (invalidated key old ∷ b) [], map_of-append a (valid key old ∷ b) [])
      (get-map_of_at b k m (map_with (valid key old) m)
        (sym (get-map_with (valid key old) k m apart)))

disk-remember :
    (key val : List ℕ) (s : TickvFile) → (remember key val s).disk ≡ s.disk ++ encode_tklv key val
unfolding remember
disk-remember key [] s = refl
disk-remember key (x ∷ val) s = refl

map-remember :
    (key val : List ℕ) (s : TickvFile) → (remember key val s).map ≡ map_with (valid key val) s.map
unfolding remember
map-remember key [] s = refl
map-remember key (x ∷ val) s = refl

put_tickv_written :
    (s : TickvFile) (key val : List ℕ) (off : ℕ)
    → Writable key val
    → find_offset s.offsets key ≡ some off
    → put_tickv s key val all_written
      ≡ (remember key val (with_disk (invalidate_at off s.disk) s), none)
unfolding put_tickv write_tklv replace_tklv append_tklv
put_tickv_written s key val off w f =
    let fits = ge→not_ltb max_klen (length key) w.short_key in
    let fits' = ge→not_ltb max_vlen (length val) w.short_val in
    rw (fits, fits', write_tklv) (ground (arith, f))

volume-snoc :
    (rs : List Written) (key val : List ℕ)
    → volume rs ++ encode_tklv key val ≡ volume (rs ++ valid key val ∷ [])
unfolding volume
volume-snoc rs key val =
    rw (volume-append rs (valid key val ∷ [])) (ap (λ l. volume rs ++ l) (sym (append-nil _)))

-- A record counts as writable if its key is UTF-8 and not the checkpoint's, and key and value are
-- within the limits. A disk consists of whole writable records, valid or invalidated, nothing torn
-- among or behind them; one is a valid record of a key, to which the key's offset points, and the
-- open file answers for every key what a scan of the disk finds. A put of a writable record of the
-- key, of which every write succeeds, returns no error, and a scan of the disk after it finds for
-- every key what the open file then answers.
pub scan_volume-put_tickv :
    (a b : List Written) (key old val : List ℕ) (s : TickvFile)
    → s.disk ≡ volume (a ++ valid key old ∷ b)
    → find_offset s.offsets key ≡ some (length (volume a))
    → All IsWritable a
    → All IsWritable b
    → Writable key old
    → Writable key val
    → ((k : List ℕ) → get (scan_volume s.disk).map k ≡ get s.map k)
    → let r = put_tickv s key val all_written in
      (r.1 ≡ none) × ((k : List ℕ) → get (scan_volume r.0.disk).map k ≡ get r.0.map k)
unfolding map_of
scan_volume-put_tickv a b key old val s e f wa wb w w' same =
    let rs = a ++ invalidated key old ∷ b in
    let t = with_disk (invalidate_at (length (volume a)) s.disk) s in
    let new =
      All-append IsWritable rs (valid key val ∷ [])
        (All-append IsWritable a (invalidated key old ∷ b) wa (w, wb)) (w', tt) in
    let before : (k : List ℕ) → get s.map k ≡ get (map_of (a ++ valid key old ∷ b) []) k = λ k.
      sym (same k)
      ∙ rw
          (
            e,
            scan_volume-volume (a ++ valid key old ∷ b)
                (All-append IsWritable a (valid key old ∷ b) wa (w, wb)),
          )
          refl in
    let after : (remember key val t).disk ≡ volume (rs ++ valid key val ∷ []) =
      disk-remember key val t
      ∙ ap (λ d. invalidate_at (length (volume a)) d ++ encode_tklv key val) e
      ∙ ap (λ d. d ++ encode_tklv key val) (invalidate_at-volume a b key old)
      ∙ volume-snoc rs key val in
    rw (put_tickv_written s key val (length (volume a)) w' f) (
      refl,
      λ k.
          rw
            (
              after,
              scan_volume-volume (rs ++ valid key val ∷ []) new,
              map_of-append rs (valid key val ∷ []) [],
              map-remember key val t,
            )
            (get-map_with_own key val k (map_of rs []) s.map
              (λ apart. get-invalidated a b key old k apart ∙ sym (before k))),
    )
