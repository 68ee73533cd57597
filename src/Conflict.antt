-- ===== src/Conflict.antt =====
-- The conflict records of src/conflict.rs and their format CFL1. An id, a subject and a candidate are
-- the bytes of their text.
pub mod Wire
mod Id
mod Runs
use neural_sgdb.Prelude.{
  ℕ, zero, suc, ◌-◌, ◌^◌, Bool, true, false, not, ◌||◌, Option, none, some, List, [], ◌∷◌, ◌++◌,
  length, ltb, ◌==◌, if◌then◌else◌,
}
use neural_sgdb.Prelude.Bytes.{le_bytes}
use neural_sgdb.Prelude.Text.{codes}
use neural_sgdb.Wire.{
  Result, ok, err, ◌>>=◌, ◌>>◌, guard, ok_or, read_u8, read_le, read_magic, read_block, read_text,
  block,
}

pub data ConflictStatus : Type 0 where
  open_conflict resolved : ConflictStatus

-- `status as u8`
abbrev pub status_code : ConflictStatus → ℕ
status_code open_conflict = 0
status_code resolved = 1

-- `ConflictStatus::from_u8`
abbrev pub status_of : ℕ → Option ConflictStatus
status_of zero = some open_conflict
status_of (suc zero) = some resolved
status_of (suc (suc v)) = none

pub record ConflictRecord : Type 0 where
  pub conflict_id : List ℕ
  pub subject : List ℕ
  pub candidates : List (List ℕ)
  pub nodes : List ℕ
  pub created_tick : ℕ
  pub status : ConflictStatus
  pub resolved_winner : Option (List ℕ)
  pub records : List (List ℕ)

-- The messages of `try_encode`, `push_str`, `decode` and `read_str`.
pub data CflError : Type 0 where
  field_count_overflow candidate_too_long winner_too_long record_too_long str_too_long : CflError
  trunc_slen trunc_s utf8_s bad_cfl_magic bad_cfl_version bad_cfl_status : CflError
  trunc_cfl_created trunc_cfl_n trunc_cfl_nn trunc_cfl_node trunc_cfl_nr trunc_cfl_rl
        trunc_cfl_rec :
      CflError

abbrev pub cfl_magic : List ℕ
cfl_magic = codes "CFL1"

abbrev pub cfl_version : ℕ
cfl_version = 1

-- Whether one of the byte strings is longer than `most`.
unfoldable pub any_longer : ℕ → List (List ℕ) → Bool
any_longer most [] = false
any_longer most (x ∷ xs) = if ltb most (length x) then true else any_longer most xs

unfoldable pub push_str : List ℕ → Result CflError (List ℕ)
push_str s = do guard (not (ltb (2 ^ 16 - 1) (length s))) str_too_long; ok (block 2 s [])

unfoldable pub push_strs : List (List ℕ) → Result CflError (List ℕ)
push_strs [] = ok []
push_strs (s ∷ ss) = do bs ← push_str s; rest ← push_strs ss; ok (bs ++ rest)

abbrev pub push_winner : Option (List ℕ) → Result CflError (List ℕ)
push_winner none = ok []
push_winner (some w) = push_str w

unfoldable pub put_blobs : List (List ℕ) → List ℕ
put_blobs [] = []
put_blobs (r ∷ rs) = block 4 r (put_blobs rs)

-- `resolved_winner.is_some() as u8`
abbrev pub winner_flag : Option (List ℕ) → ℕ
winner_flag none = 0
winner_flag (some w) = 1

abbrev pub winner_longer : ℕ → Option (List ℕ) → Bool
winner_longer most none = false
winner_longer most (some w) = ltb most (length w)

-- `try_encode`
unfoldable pub encode_conflict : ConflictRecord → Result CflError (List ℕ)
encode_conflict c = do
  guard
      (not (
        ltb (2 ^ 16 - 1) (length c.conflict_id)
        || ltb (2 ^ 16 - 1) (length c.subject)
        || ltb (2 ^ 16 - 1) (length c.candidates)
        || ltb (2 ^ 8 - 1) (length c.nodes)
        || ltb (2 ^ 8 - 1) (length c.records)))
      field_count_overflow
  guard (not (any_longer (2 ^ 16 - 1) c.candidates)) candidate_too_long
  guard (not (winner_longer (2 ^ 16 - 1) c.resolved_winner)) winner_too_long
  guard (not (any_longer (2 ^ 32 - 1) c.records)) record_too_long
  id ← push_str c.conflict_id
  subject ← push_str c.subject
  candidates ← push_strs c.candidates
  winner ← push_winner c.resolved_winner
  ok (
      cfl_magic
      ++ (cfl_version
          ∷ status_code c.status
          ∷ winner_flag c.resolved_winner
          ∷ (le_bytes 8 c.created_tick
              ++ (id
                  ++ (subject
                      ++ (le_bytes 2 (length c.candidates)
                          ++ (candidates
                              ++ (length c.nodes
                                  ∷ (c.nodes
                                      ++ (winner
                                          ++ (length c.records ∷ put_blobs c.records)))))))))))

-- `read_str`
abbrev pub read_str : List ℕ → Result CflError (List ℕ × List ℕ)
read_str bytes = read_text 2 trunc_slen trunc_s utf8_s bytes

unfoldable pub read_strs : ℕ → List ℕ → Result CflError (List (List ℕ) × List ℕ)
read_strs zero bytes = ok ([], bytes)
read_strs (suc n) bytes = do
  (s, r1) ← read_str bytes
  (ss, rest) ← read_strs n r1
  ok (s ∷ ss, rest)

unfoldable pub read_nodes : ℕ → List ℕ → Result CflError (List ℕ × List ℕ)
read_nodes zero bytes = ok ([], bytes)
read_nodes (suc n) bytes = do
  (node, r1) ← ok_or (read_u8 bytes) trunc_cfl_node
  (nodes, rest) ← read_nodes n r1
  ok (node ∷ nodes, rest)

unfoldable pub read_winner : Bool → List ℕ → Result CflError (Option (List ℕ) × List ℕ)
read_winner false bytes = ok (none, bytes)
read_winner true bytes = do (w, rest) ← read_str bytes; ok (some w, rest)

unfoldable pub read_blobs : ℕ → List ℕ → Result CflError (List (List ℕ) × List ℕ)
read_blobs zero bytes = ok ([], bytes)
read_blobs (suc n) bytes = do
  (r, r1) ← read_block 4 trunc_cfl_rl trunc_cfl_rec bytes
  (rs, rest) ← read_blobs n r1
  ok (r ∷ rs, rest)

-- `decode`; with fifteen bytes at hand the version, the status and the flag are there.
unfoldable pub decode_conflict : List ℕ → Result CflError ConflictRecord
decode_conflict bytes = do
  r0 ← read_magic cfl_magic 15 bad_cfl_magic bytes
  (version, r1) ← ok_or (read_u8 r0) bad_cfl_magic
  guard (version == cfl_version) bad_cfl_version
  (code, r2) ← ok_or (read_u8 r1) bad_cfl_magic
  status ← ok_or (status_of code) bad_cfl_status
  (flag, r3) ← ok_or (read_u8 r2) bad_cfl_magic
  (created_tick, r4) ← ok_or (read_le 8 r3) trunc_cfl_created
  (conflict_id, r5) ← read_str r4
  (subject, r6) ← read_str r5
  (n, r7) ← ok_or (read_le 2 r6) trunc_cfl_n
  (candidates, r8) ← read_strs n r7
  (nn, r9) ← ok_or (read_u8 r8) trunc_cfl_nn
  (nodes, r10) ← read_nodes nn r9
  (resolved_winner, r11) ← read_winner (not (flag == 0)) r10
  (nr, r12) ← ok_or (read_u8 r11) trunc_cfl_nr
  (records, rest) ← read_blobs nr r12
  ok (record {
    conflict_id = conflict_id;
    subject = subject;
    candidates = candidates;
    nodes = nodes;
    created_tick = created_tick;
    status = status;
    resolved_winner = resolved_winner;
    records = records;
  })
