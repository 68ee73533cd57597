-- ===== src/Doc/Runs.antt =====
-- A record that is written and read, and the theorems of its formats there.
use neural_sgdb.Prelude.{◌≡◌, refl, none, some, [], ◌∷◌, ◌++◌, arith, length}
use neural_sgdb.Prelude.Bytes.{IsU32, le_bytes}
use neural_sgdb.Prelude.Text.{codes}
use neural_sgdb.Wire.{ok}
use neural_sgdb.Wire.Utf8.{is_utf8}
use neural_sgdb.Clock.{new, tick}
use neural_sgdb.Clock.Wire
use neural_sgdb.Layer.{l3_episodic_long, layer_code, state_code, active}
use neural_sgdb.Meta.{encode_meta, put_head, put_tail, put_dims, put_texts, put_pairs}
use neural_sgdb.Meta.Runs.{meta, meta-Fits}
use neural_sgdb.Doc.{
  MemoryDoc, MemoryRecord, MemoryDocView, encode_doc, parse_view, to_owned_doc, encode_record,
  decode_record, put_validity, put_meta, put_bitvec, put_words,
}
use neural_sgdb.Doc.RoundTrip.{
  DocFits, RecordFits, seen_meta, decode_doc-encode_doc, decode_record-encode_record,
}
use neural_sgdb.Doc.View.{parse_view-decode_doc}

abbrev pub doc : MemoryDoc
doc = record {
  layer = l3_episodic_long;
  key = codes "k";
  clock = tick new 7;
  payload = codes "hello";
  bitvec = some (5 ∷ 6 ∷ []);
  meta = some meta;
}

abbrev pub sample : MemoryRecord
sample = record { doc = doc; state = active; validity = some (10, 20) }

doc-DocFits : DocFits doc
unfolding is_utf8 tick new
doc-DocFits = record {
  key = omega arith;
  key_utf8 = refl;
  slots = refl;
  counts = (
    omega arith,
    (
      omega arith,
      (omega arith, (omega arith, (omega arith, (omega arith, (omega arith, (omega arith, tt)))))),
    ),
  );
  payload = omega arith;
  bitvec = (omega arith, (omega arith, (omega arith, tt)));
}

pub sample-RecordFits : RecordFits sample
unfolding encode_meta put_head put_tail put_dims put_texts put_pairs le_bytes
sample-RecordFits = record {
  doc = doc-DocFits;
  meta = (meta-Fits, omega arith);
  validity = (omega arith, omega arith);
}

pub sample_short : IsU32 (length (encode_record sample))
unfolding encode_record put_validity put_meta encode_meta put_head put_tail put_dims put_texts
    put_pairs encode_doc put_bitvec put_words Wire.encode le_bytes tick new state_code layer_code
sample_short = omega arith

decode_record-encode_record_example :
    decode_record (encode_record sample)
    ≡ ok (record sample {
      doc = record doc { clock = record doc.clock { overflow = [] }; meta = seen_meta doc.meta };
    })
decode_record-encode_record_example = decode_record-encode_record sample sample-RecordFits

abbrev read_doc : MemoryDoc
read_doc = record doc { clock = record doc.clock { overflow = [] }; meta = none }

parse_view-decode_doc_example :
    (v : MemoryDocView) × (parse_view (encode_doc doc ++ (9 ∷ [])) ≡ ok v)
    × (v.layer ≡ read_doc.layer)
    × (v.key ≡ read_doc.key)
    × (v.payload ≡ read_doc.payload)
    × (Wire.decode v.clock_bytes ≡ some (read_doc.clock, []))
    × (to_owned_doc v ≡ ok read_doc)
parse_view-decode_doc_example =
    parse_view-decode_doc (encode_doc doc ++ (9 ∷ [])) read_doc
      (decode_doc-encode_doc doc (9 ∷ []) doc-DocFits)
