-- ===== src/Packets/Runs.antt =====
-- Packets that are written and read, and the theorems of their formats there.
use neural_sgdb.Prelude.{ℕ, ◌≡◌, refl, List, [], ◌∷◌, map, arith}
use neural_sgdb.Prelude.Text.{codes}
use neural_sgdb.Wire.{ok}
use neural_sgdb.Crdt.{CrdtState}
use neural_sgdb.Doc.Runs.{sample, sample_short, sample-RecordFits}
use neural_sgdb.Packets.{SignedEnvelope, delta_magic, Batch, encode_batch, decode_batch}
use neural_sgdb.Packets.RoundTrip.{StateFits, BatchFits, seen_record, decode_batch-encode_batch}

abbrev envelope : SignedEnvelope
envelope = record { node_id = 4; payload = codes "data"; auth = codes "tag" }

abbrev state : CrdtState
state = record { node_id = 1; local_version = 3; own_writes = 3; node_versions = (2, 5) ∷ [] }

state-StateFits : StateFits state
state-StateFits = record { local = omega arith; own = omega arith; versions = (omega arith, tt) }

abbrev delta : Batch
delta = record { versions = (1, 3) ∷ (2, 5) ∷ []; records = sample ∷ [] }

delta-BatchFits : BatchFits delta
delta-BatchFits = record {
  few_versions = omega arith;
  versions = (omega arith, (omega arith, tt));
  few_records = omega arith;
  records = (record { fits = sample-RecordFits; size = sample_short }, tt);
}

decode_batch-encode_batch_example :
    (bytes : List ℕ) × (encode_batch delta_magic delta ≡ ok bytes)
    × (decode_batch delta_magic bytes
        ≡ ok (record delta { records = map seen_record delta.records }))
decode_batch-encode_batch_example = decode_batch-encode_batch delta_magic delta refl delta-BatchFits
