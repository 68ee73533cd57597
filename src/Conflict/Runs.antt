-- ===== src/Conflict/Runs.antt =====
-- Runs of the conflict records, and their theorems at a concrete record.
use mathlib.Core.List.{Permᴰ}
use neural_sgdb.Prelude.{ℕ, some, List, [], ◌∷◌, ◌≡◌, refl, arith}
use neural_sgdb.Prelude.Text.{codes}
use neural_sgdb.Wire.{ok}
use neural_sgdb.Wire.Utf8.{is_utf8}
use neural_sgdb.Prelude.Bytes.{eq_bytes}
use neural_sgdb.Storage.Map.{lt_bytes}
use neural_sgdb.Conflict.{ConflictRecord, resolved, encode_conflict, decode_conflict}
use neural_sgdb.Conflict.Wire.{
  ConflictFits, Sizes, decode_conflict-encode_conflict, encode_conflict-Sizes,
}
use neural_sgdb.Conflict.Id.{
  generate_conflict_id, generate_conflict_id-Perm, sort_texts, insert_text, dedup_texts, dedup_from,
}

abbrev settled : ConflictRecord
settled = record {
  conflict_id = codes "c0ff";
  subject = codes "e/k";
  candidates = codes "v1" ∷ codes "v2" ∷ [];
  nodes = 1 ∷ 2 ∷ [];
  created_tick = 7;
  status = resolved;
  resolved_winner = some (codes "v2");
  records = (1 ∷ 2 ∷ 3 ∷ []) ∷ [] ∷ [];
}

settled-ConflictFits : ConflictFits settled
unfolding is_utf8
settled-ConflictFits = record {
  id = (refl, omega arith);
  subject = (refl, omega arith);
  few_candidates = omega arith;
  candidates = ((refl, omega arith), ((refl, omega arith), tt));
  few_nodes = omega arith;
  tick = omega arith;
  winner = (refl, omega arith);
  few_records = omega arith;
  records = (omega arith, (omega arith, tt));
}

decode_conflict-encode_conflict_example :
    (bytes : List ℕ) × (encode_conflict settled ≡ ok bytes) × (decode_conflict bytes ≡ ok settled)
decode_conflict-encode_conflict_example =
    decode_conflict-encode_conflict settled settled-ConflictFits

encode_conflict-Sizes_example : Sizes settled
encode_conflict-Sizes_example =
    encode_conflict-Sizes settled (decode_conflict-encode_conflict settled settled-ConflictFits).0
      (decode_conflict-encode_conflict settled settled-ConflictFits).1

generate_conflict_id-Perm_example :
    generate_conflict_id (codes "e/k") (codes "v2" ∷ codes "v1" ∷ [])
    ≡ generate_conflict_id (codes "e/k") (codes "v1" ∷ codes "v2" ∷ [])
generate_conflict_id-Perm_example =
    generate_conflict_id-Perm (codes "e/k") (codes "v2" ∷ codes "v1" ∷ [])
      (codes "v1" ∷ codes "v2" ∷ []) (Permᴰ.swap refl refl)

-- Sorted, and each candidate once.
candidates_once :
    dedup_texts (sort_texts (codes "v2" ∷ codes "v1" ∷ codes "v2" ∷ []))
    ≡ codes "v1" ∷ codes "v2" ∷ []
unfolding sort_texts insert_text dedup_texts dedup_from lt_bytes eq_bytes
candidates_once = refl
