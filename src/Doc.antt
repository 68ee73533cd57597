-- ===== src/Doc.antt =====
-- `MemoryDoc`, `MemoryRecord` and `MemoryDocView` of src/memory_doc.rs: the formats NMD1 and MDR1.
pub mod RoundTrip
pub mod Runs
pub mod View
use neural_sgdb.Prelude.{
  ℕ, zero, suc, ◌+◌, ◌*◌, Bool, true, false, not, ◌&&◌, ◌||◌, Option, none, some, List, [], ◌∷◌,
  ◌++◌, length, take, drop, ltb, leb, ◌==◌, if◌then◌else◌,
}
use neural_sgdb.Prelude.Bytes.{le_bytes}
use neural_sgdb.Prelude.Text.{codes}
use neural_sgdb.Wire.{
  Result, ok, err, ◌>>=◌, ◌>>◌, guard, ok_or, read_u8, read_le, read_magic, read_block, read_text,
  split_at, block,
}
use neural_sgdb.Clock.{VectorClock, new, tick}
use neural_sgdb.Clock.Wire
use neural_sgdb.Layer.{
  MemoryLayer, layer_code, layer_of, layer_str, MemoryState, state_code, state_of,
}
use neural_sgdb.Meta.{MemoryMeta, encode_meta, decode_meta}

pub record MemoryDoc : Type 0 where
  pub layer : MemoryLayer
  pub key : List ℕ
  pub clock : VectorClock
  pub payload : List ℕ
  pub bitvec : Option (List ℕ)
  pub meta : Option MemoryMeta

unfoldable pub new_doc : MemoryLayer → List ℕ → List ℕ → MemoryDoc
new_doc layer key payload = record {
  layer = layer;
  key = key;
  clock = new;
  payload = payload;
  bitvec = none;
  meta = none;
}

-- `storage_key`: "md/", the layer's label, "/" and the key.
unfoldable pub storage_key : MemoryDoc → List ℕ
storage_key d = codes "md/" ++ (layer_str d.layer ++ (codes "/" ++ d.key))

unfoldable pub patch_payload : MemoryDoc → List ℕ → ℕ → MemoryDoc
patch_payload d payload node = record d { payload = payload; clock = tick d.clock node }

abbrev pub doc_magic : List ℕ
doc_magic = codes "NMD1"

unfoldable pub put_words : List ℕ → List ℕ
put_words [] = []
put_words (w ∷ ws) = le_bytes 8 w ++ put_words ws

-- The flag byte, and the words behind it.
unfoldable pub put_bitvec : Option (List ℕ) → List ℕ
unfolding put_words
put_bitvec none = 0 ∷ []
put_bitvec (some bv) = 1 ∷ (le_bytes 4 (length bv) ++ put_words bv)

-- `MemoryDoc::encode`
unfoldable pub encode_doc : MemoryDoc → List ℕ
encode_doc d =
    doc_magic
    ++ (layer_code d.layer
        ∷ block 4 d.key (Wire.encode d.clock ++ block 4 d.payload (put_bitvec d.bitvec)))

abbrev pub max_klen : ℕ
max_klen = 4096

abbrev pub max_vlen : ℕ
max_vlen = 1024 * 1024

pub data LimitError : Type 0 where
  key_exceeds_max_klen payload_exceeds_max_vlen : LimitError

-- `MemoryDoc::try_encode`
unfoldable pub try_encode_doc : MemoryDoc → Result LimitError (List ℕ)
try_encode_doc d =
    if ltb max_klen (length d.key)
    then err key_exceeds_max_klen
    else if ltb max_vlen (length d.payload)
    then err payload_exceeds_max_vlen
    else ok (encode_doc d)

-- The messages of `MemoryDoc::decode`.
pub data DocError : Type 0 where
  bad_magic bad_layer trunc_keylen trunc_key utf8 trunc_clock trunc_plen : DocError
  trunc_payload trunc_bitflag trunc_bvlen trunc_bv : DocError

-- `for _ in 0..n { bv.push(rd_u64(..)?) }`
unfoldable pub read_words : ℕ → List ℕ → Result DocError (List ℕ × List ℕ)
read_words zero bytes = ok ([], bytes)
read_words (suc n) bytes = do
  (w, r) ← ok_or (read_le 8 bytes) trunc_bv
  (ws, rest) ← read_words n r
  ok (w ∷ ws, rest)

-- `has_bv == 1` and its words; any other flag byte is no bit vector.
unfoldable pub read_bitvec : List ℕ → Result DocError (Option (List ℕ))
read_bitvec bytes = do
  (has_bv, r1) ← ok_or (read_u8 bytes) trunc_bitflag
  if has_bv == 1
      then (do
        (n, r2) ← ok_or (read_le 4 r1) trunc_bvlen
        guard (not (ltb (length r2) (n * 8))) trunc_bv
        (bv, rest) ← read_words n r2
        ok (some bv))
      else ok none

-- How `decode` and `parse` both begin: the magic, the layer and the key. With five bytes at hand
-- the layer byte is there.
unfoldable pub read_prefix : List ℕ → Result DocError ((MemoryLayer × List ℕ) × List ℕ)
read_prefix bytes = do
  r0 ← read_magic doc_magic 5 bad_magic bytes
  (code, r1) ← ok_or (read_u8 r0) bad_magic
  layer ← ok_or (layer_of code) bad_layer
  (key, r2) ← read_text 4 trunc_keylen trunc_key utf8 r1
  ok ((layer, key), r2)

-- `MemoryDoc::decode`
unfoldable pub decode_doc : List ℕ → Result DocError MemoryDoc
decode_doc bytes = do
  (prefix, r2) ← read_prefix bytes
  (clock, r3) ← ok_or (Wire.decode r2) trunc_clock
  (payload, r4) ← read_block 4 trunc_plen trunc_payload r3
  bitvec ← read_bitvec r4
  ok (record {
    layer = prefix.0;
    key = prefix.1;
    clock = clock;
    payload = payload;
    bitvec = bitvec;
    meta = none;
  })

-- The overlay: what `parse` finds without copying. `clock_bytes` are the 72 bytes at `clock_off`.
pub record MemoryDocView : Type 0 where
  pub bytes : List ℕ
  pub layer : MemoryLayer
  pub key : List ℕ
  pub payload : List ℕ
  pub clock_bytes : List ℕ

-- `MemoryDocView::parse`
unfoldable pub parse_view : List ℕ → Result DocError MemoryDocView
parse_view bytes = do
  (prefix, r2) ← read_prefix bytes
  (clock_bytes, r3) ← ok_or (split_at 72 r2) trunc_clock
  (payload, r4) ← read_block 4 trunc_plen trunc_payload r3
  ok (record {
    bytes = bytes;
    layer = prefix.0;
    key = prefix.1;
    payload = payload;
    clock_bytes = clock_bytes;
  })

-- `MemoryDocView::to_owned_doc`
unfoldable pub to_owned_doc : MemoryDocView → Result DocError MemoryDoc
to_owned_doc v = decode_doc v.bytes

pub record MemoryRecord : Type 0 where
  pub doc : MemoryDoc
  pub state : MemoryState
  pub validity : Option (ℕ × ℕ)

abbrev pub record_magic : List ℕ
record_magic = codes "MDR1"

unfoldable pub put_validity : Option (ℕ × ℕ) → List ℕ → List ℕ
put_validity none rest = 0 ∷ rest
put_validity (some (from, until)) rest = 1 ∷ (le_bytes 8 from ++ (le_bytes 8 until ++ rest))

unfoldable pub put_meta : Option MemoryMeta → List ℕ → List ℕ
put_meta none rest = 0 ∷ rest
put_meta (some m) rest = 1 ∷ block 4 (encode_meta m) rest

-- `MemoryRecord::encode`
unfoldable pub encode_record : MemoryRecord → List ℕ
encode_record r =
    record_magic
    ++ (state_code r.state ∷ put_validity r.validity (put_meta r.doc.meta (encode_doc r.doc)))

-- The messages of `MemoryRecord::decode`.
pub data RecordError : Type 0 where
  bad_record_magic bad_record_state trunc_validity bad_validity_flag trunc_metaflag : RecordError
  trunc_metalen trunc_meta bad_meta bad_meta_flag trunc_nmd1 : RecordError

-- `map_err(|_| e)`
abbrev pub map_err : {E F A : Type 0} → Result E A → F → Result F A
map_err (ok a) f = ok a
map_err (err e) f = err f

unfoldable pub read_validity : List ℕ → Result RecordError (Option (ℕ × ℕ) × List ℕ)
read_validity bytes = do
  (vflag, r1) ← ok_or (read_u8 bytes) bad_record_magic
  if vflag == 0
      then ok (none, r1)
      else if vflag == 1
      then (do
        (from, r2) ← ok_or (read_le 8 r1) trunc_validity
        (until, r3) ← ok_or (read_le 8 r2) trunc_validity
        ok (some (from, until), r3))
      else err bad_validity_flag

unfoldable pub read_meta : List ℕ → Result RecordError (Option MemoryMeta × List ℕ)
read_meta bytes = do
  (flag, r1) ← ok_or (read_u8 bytes) trunc_metaflag
  if flag == 0
      then ok (none, r1)
      else if flag == 1
      then (do
        (body, r2) ← read_block 4 trunc_metalen trunc_meta r1
        m ← map_err (decode_meta body) bad_meta
        ok (some m, r2))
      else err bad_meta_flag

-- `MemoryRecord::decode`; with six bytes at hand the state and the flag are there.
unfoldable pub decode_record : List ℕ → Result RecordError MemoryRecord
decode_record bytes = do
  r0 ← read_magic record_magic 6 bad_record_magic bytes
  (code, r1) ← ok_or (read_u8 r0) bad_record_magic
  state ← ok_or (state_of code) bad_record_state
  (validity, r2) ← read_validity r1
  (meta, r3) ← read_meta r2
  doc ← map_err (decode_doc r3) trunc_nmd1
  ok (record { doc = record doc { meta = meta }; state = state; validity = validity })
