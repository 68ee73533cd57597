-- ===== src/Doc/RoundTrip.antt =====
-- NMD1 and MDR1 are read back: `encode` and `decode` of `MemoryDoc` and `MemoryRecord`
-- (src/memory_doc.rs).
use neural_sgdb.Prelude.{
  ℕ, ◌*◌, ◌≤◌, ◌≡◌, refl, true, Option, none, some, List, [], ◌∷◌, ◌++◌, append_assoc, append-nil,
  arith, length, length-append, All, ge→not_ltb,
}
use neural_sgdb.Prelude.Bytes.{le_bytes, IsU32, IsU64, length-le_bytes}
use neural_sgdb.Wire.{
  ok, read_u8, read_le-le_bytes, read_block-block, read_text-block, read_magic-append,
  read_magic-cons,
}
use neural_sgdb.Wire.Utf8.{is_utf8}
use neural_sgdb.Clock.Wire.{CountsU64, decode-encode}
use neural_sgdb.Layer.{layer_code, state_code}
use neural_sgdb.Layer.Labels.{layer_of_iff, state_of_iff}
use neural_sgdb.Meta.{MemoryMeta, encode_meta}
use neural_sgdb.Meta.RoundTrip.{Fits, seen, decode_meta-encode_meta}
use neural_sgdb.Doc.{
  MemoryDoc, doc_magic, bad_magic, put_words, put_bitvec, encode_doc, read_words, read_bitvec,
  decode_doc, read_prefix, MemoryRecord, record_magic, bad_record_magic, put_validity, put_meta,
  encode_record, read_validity, read_meta, decode_record,
}

-- The words of a bit vector, if there is one, are u64 values, and their number fits a u32.
abbrev pub BitvecFits : Option (List ℕ) → Type 0
BitvecFits none = Unit
BitvecFits (some bv) = IsU32 (length bv) × All IsU64 bv

-- The lengths that `encode` writes as u32 fit, and the fields have their Rust types.
pub record DocFits (d : MemoryDoc) : Type 0 where
  pub key : IsU32 (length d.key)
  pub key_utf8 : is_utf8 d.key ≡ true
  pub slots : length d.clock.slots ≡ 8
  pub counts : CountsU64 d.clock.slots
  pub payload : IsU32 (length d.payload)
  pub bitvec : BitvecFits d.bitvec

words_read :
    (ws rest : List ℕ)
    → All IsU64 ws
    → read_words (length ws) (put_words ws ++ rest) ≡ ok (ws, rest)
unfolding read_words put_words
words_read [] rest h = refl
words_read (w ∷ ws) rest h = rw (append_assoc, read_le-le_bytes 8 w _ h.0, words_read ws rest h.1)

length-put_words : (ws : List ℕ) → length (put_words ws) ≡ length ws * 8
unfolding put_words
length-put_words [] = refl
length-put_words (w ∷ ws) =
    omega
      (arith, length-append (le_bytes 8 w) (put_words ws), length-le_bytes 8 w, length-put_words ws)

bitvec_read :
    (o : Option (List ℕ)) (rest : List ℕ) → BitvecFits o → read_bitvec (put_bitvec o ++ rest) ≡ ok o
unfolding read_bitvec put_bitvec read_u8
bitvec_read none rest h = refl
bitvec_read (some bv) rest h =
    let long : length bv * 8 ≤ length (put_words bv ++ rest) =
      omega (arith, length-append (put_words bv) rest, length-put_words bv) in
    rw (
      append_assoc,
      read_le-le_bytes 4 (length bv) _ h.0,
      ge→not_ltb _ _ long,
      words_read bv rest h.1,
    )

-- A document whose fields fit their lengths is read back from what `encode` wrote, whatever
-- follows it, but for the overflow of its clock and its metadata, which NMD1 does not hold.
pub decode_doc-encode_doc :
    (d : MemoryDoc) (rest : List ℕ)
    → DocFits d
    → decode_doc (encode_doc d ++ rest)
      ≡ ok (record d { clock = record d.clock { overflow = [] }; meta = none })
unfolding decode_doc read_prefix encode_doc read_u8
decode_doc-encode_doc d rest h =
    let layer = (layer_of_iff (layer_code d.layer) d.layer).1 refl in
    simp append_assoc (
      rw (
        read_magic-cons doc_magic 5 bad_magic _ _ refl (omega arith),
        layer,
        read_text-block 4 _ _ _ d.key _ h.key h.key_utf8,
        decode-encode d.clock _ h.slots h.counts,
        read_block-block 4 _ _ d.payload _ h.payload,
        bitvec_read d.bitvec rest h.bitvec,
      ))

abbrev pub ValidityFits : Option (ℕ × ℕ) → Type 0
ValidityFits none = Unit
ValidityFits (some (from, until)) = IsU64 from × IsU64 until

-- The metadata can be written, and its blob's length fits a u32.
abbrev pub MetaFits : Option MemoryMeta → Type 0
MetaFits none = Unit
MetaFits (some m) = Fits m × IsU32 (length (encode_meta m))

pub record RecordFits (r : MemoryRecord) : Type 0 where
  pub doc : DocFits r.doc
  pub meta : MetaFits r.doc.meta
  pub validity : ValidityFits r.validity

validity_read :
    (o : Option (ℕ × ℕ)) (rest : List ℕ)
    → ValidityFits o
    → read_validity (put_validity o rest) ≡ ok (o, rest)
unfolding read_validity put_validity read_u8
validity_read none rest h = refl
validity_read (some (from, until)) rest h =
    rw (read_le-le_bytes 8 from _ h.0, read_le-le_bytes 8 until _ h.1)

validity_written : (o : Option (ℕ × ℕ)) (rest : List ℕ) → 1 ≤ length (put_validity o rest)
unfolding put_validity
validity_written none rest = omega arith
validity_written (some (from, until)) rest = omega arith

-- What the reader sees of the metadata.
abbrev pub seen_meta : Option MemoryMeta → Option MemoryMeta
seen_meta none = none
seen_meta (some m) = some (seen m)

meta_read :
    (o : Option MemoryMeta) (rest : List ℕ)
    → MetaFits o
    → read_meta (put_meta o rest) ≡ ok (seen_meta o, rest)
unfolding read_meta put_meta read_u8
meta_read none rest h = refl
meta_read (some m) rest h =
    rw (read_block-block 4 _ _ (encode_meta m) rest h.1, decode_meta-encode_meta m h.0)

-- A record whose fields fit their lengths is read back from what `encode` wrote, with its state,
-- its validity window and its metadata, as a reader sees them; only the overflow of the clock
-- stays behind.
pub decode_record-encode_record :
    (r : MemoryRecord)
    → RecordFits r
    → decode_record (encode_record r)
      ≡ ok (record r {
        doc = record r.doc {
          clock = record r.doc.clock { overflow = [] };
          meta = seen_meta r.doc.meta;
        };
      })
unfolding decode_record encode_record read_u8
decode_record-encode_record r h =
    let state = (state_of_iff (state_code r.state) r.state).1 refl in
    let rest = put_validity r.validity (put_meta r.doc.meta (encode_doc r.doc)) in
    let doc = rw append-nil at (decode_doc-encode_doc r.doc [] h.doc) in
    rw (
      read_magic-append record_magic 6 bad_record_magic (state_code r.state ∷ rest) refl
          (omega (arith, validity_written r.validity (put_meta r.doc.meta (encode_doc r.doc)))),
      state,
      validity_read r.validity _ h.validity,
      meta_read r.doc.meta _ h.meta,
      doc,
    )
