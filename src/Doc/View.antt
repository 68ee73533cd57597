-- ===== src/Doc/View.antt =====
-- The overlay agrees with `decode`: `MemoryDocView` of src/memory_doc.rs.
use neural_sgdb.Prelude.{
  ℕ, ◌≡◌, inl, inr, some, List, [], arith, length, take, drop, ltb, Bool-cases,
}
use neural_sgdb.Wire.{ok, err, read_block, split_at-le, split_at-lt, Result-cases}
use neural_sgdb.Clock.Wire
use neural_sgdb.Clock.Wire.{clock_at, decode-take, decode_long, decode_short}
use neural_sgdb.Doc.{
  MemoryDoc, DocError, decode_doc, MemoryDocView, parse_view, to_owned_doc, read_prefix, trunc_plen,
  trunc_payload,
}

-- Where `decode` gives a document, `parse` gives a view with the same layer, key and payload,
-- whose 72 clock bytes are those of the document's clock, and which gives the document back.
pub parse_view-decode_doc :
    (bytes : List ℕ) (d : MemoryDoc)
    → decode_doc bytes ≡ ok d
    → (v : MemoryDocView) × (parse_view bytes ≡ ok v)
      × (v.layer ≡ d.layer)
      × (v.key ≡ d.key)
      × (v.payload ≡ d.payload)
      × (Wire.decode v.clock_bytes ≡ some (d.clock, []))
      × (to_owned_doc v ≡ ok d)
unfolding decode_doc parse_view to_owned_doc
parse_view-decode_doc bytes d e = elim (Result-cases (read_prefix bytes)) [
  | inr (x, p) ↦ absurd (ground (arith, p))
  | inl ((prefix, r2), p) ↦ elim (Bool-cases (ltb (length r2) 72)) [
    | inl short ↦ absurd (ground (arith, p, decode_short r2))
    | inr long ↦
        let at = decode-take r2 (ground arith) in
        let cut = split_at-le 72 r2 (ground arith) in
        elim (Result-cases (read_block 4 trunc_plen trunc_payload (drop 72 r2))) [
          | inr (x, y) ↦ absurd (ground (arith, p, at, y))
          | inl ((payload, r4), y) ↦ (
            record {
              bytes = bytes;
              layer = prefix.0;
              key = prefix.1;
              payload = payload;
              clock_bytes = take 72 r2;
            },
            rw (p, cut, y),
            ground (arith, p, at, y),
            ground (arith, p, at, y),
            ground (arith, p, at, y),
            ground (arith, p, at, y),
            e,
          )
        ]
  ]
]

-- Where `parse` fails, `decode` fails with the same message.
pub parse_view-err :
    (bytes : List ℕ) (e : DocError) → parse_view bytes ≡ err e → decode_doc bytes ≡ err e
unfolding decode_doc parse_view
parse_view-err bytes e h = elim (Result-cases (read_prefix bytes)) [
  | inr (x, p) ↦ ground (arith, p)
  | inl ((prefix, r2), p) ↦ elim (Bool-cases (ltb (length r2) 72)) [
    | inl short ↦ ground (arith, p, decode_short r2, split_at-lt 72 r2)
    | inr long ↦ ground (arith, p, decode-take r2 (ground arith), split_at-le 72 r2 (ground arith))
  ]
]
