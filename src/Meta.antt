-- ===== src/Meta.antt =====
-- `ScopeDims` and `MemoryMeta` of src/memory_doc.rs: the provenance of a memory and its wire
-- format MDM1. A text is the list of its bytes, and an f32 is its bit pattern.
pub mod RoundTrip
pub mod Runs
use neural_sgdb.Prelude.{
  ℕ, zero, suc, Bool, true, false, not, ◌&&◌, Option, none, some, List, [], ◌∷◌, ◌++◌, length, leb,
  ◌==◌, if◌then◌else◌,
}
use neural_sgdb.Prelude.Bytes.{le_bytes}
use neural_sgdb.Prelude.Assoc.{Pairs}
use neural_sgdb.Prelude.Text.{codes}
use neural_sgdb.Wire.{
  Result, ok, err, ◌>>=◌, ◌>>◌, guard, ok_or, read_u8, read_le, read_magic, read_text, block,
}

abbrev pub is_empty : List ℕ → Bool
is_empty [] = true
is_empty (x ∷ xs) = false

pub record ScopeDims : Type 0 where
  pub user : List ℕ
  pub agent : List ℕ
  pub app : List ℕ
  pub run : List ℕ

abbrev pub no_dims : ScopeDims
no_dims = record { user = []; agent = []; app = []; run = [] }

-- `ScopeDims::is_global`
abbrev pub is_global : ScopeDims → Bool
is_global d = is_empty d.user && is_empty d.agent && is_empty d.app && is_empty d.run

pub record MemoryMeta : Type 0 where
  pub memory_id : List ℕ
  pub version_id : List ℕ
  pub source : ℕ
  pub confidence : ℕ
  pub importance : ℕ
  pub created_tick : ℕ
  pub parent_ids : List (List ℕ)
  pub clock_overflow : Pairs
  pub last_reinforced : ℕ
  pub scope : List ℕ
  pub entities : List (List ℕ)
  pub content_type : Option (List ℕ)
  pub scope_dims : ScopeDims
  pub model_id : List ℕ
  pub authority : ℕ

abbrev pub meta_magic : List ℕ
meta_magic = codes "MDM1"

abbrev pub meta_version : ℕ
meta_version = 8

-- The messages of `MemoryMeta::decode`.
pub data MetaError : Type 0 where
  bad_meta_magic bad_meta_version trunc_idlen trunc_id utf8_id trunc_source : MetaError
  trunc_confidence trunc_importance trunc_created trunc_nparents trunc_plen : MetaError
  trunc_parent utf8_p trunc_nover trunc_over_node trunc_over_count trunc_vidlen : MetaError
  trunc_vid utf8_vid trunc_last_reinforced trunc_scopelen trunc_scope utf8_scope : MetaError
  trunc_nentities trunc_entlen trunc_entity utf8_ent trunc_ctlen trunc_content_type : MetaError
  utf8_ct trunc_scopedimlen trunc_scopedim utf8_scopedim trunc_modelidlen : MetaError
  trunc_modelid utf8_modelid trunc_authority : MetaError

-- The loop over `parent_ids` or `entities`, each text behind its u16 length.
unfoldable pub put_texts : List (List ℕ) → List ℕ → List ℕ
put_texts [] rest = rest
put_texts (t ∷ ts) rest = block 2 t (put_texts ts rest)

-- The loop over `clock_overflow`: node u8, count u64.
unfoldable pub put_pairs : Pairs → List ℕ → List ℕ
put_pairs [] rest = rest
put_pairs ((n, c) ∷ ps) rest = n ∷ (le_bytes 8 c ++ put_pairs ps rest)

abbrev pub text_or_empty : Option (List ℕ) → List ℕ
text_or_empty none = []
text_or_empty (some s) = s

-- The fields of v7 and v8.
unfoldable pub put_dims : MemoryMeta → List ℕ
put_dims m = block 2 m.scope_dims.user (
    block 2 m.scope_dims.agent
      (block 2 m.scope_dims.app (block 2 m.scope_dims.run (block 2 m.model_id (m.authority ∷ [])))))

-- The fields of v2 to v6, and what follows.
unfoldable pub put_tail : MemoryMeta → List ℕ
unfolding put_texts put_dims
put_tail m = block 2 m.version_id (
    le_bytes 8 m.last_reinforced
    ++ block 2 m.scope (
        le_bytes 2 (length m.entities)
        ++ put_texts m.entities (block 2 (text_or_empty m.content_type) (put_dims m))))

-- The fields of v1.
unfoldable pub put_head : MemoryMeta → List ℕ → List ℕ
unfolding put_texts put_pairs
put_head m rest = block 2 m.memory_id (
    m.source
    ∷ (le_bytes 4 m.confidence
        ++ (le_bytes 4 m.importance
            ++ (le_bytes 8 m.created_tick
                ++ (le_bytes 2 (length m.parent_ids)
                    ++ put_texts m.parent_ids (
                        le_bytes 2 (length m.clock_overflow)
                        ++ put_pairs m.clock_overflow rest))))))

-- `MemoryMeta::encode`
unfoldable pub encode_meta : MemoryMeta → List ℕ
encode_meta m = meta_magic ++ (meta_version ∷ put_head m (put_tail m))

-- `for _ in 0..n` over texts.
unfoldable pub read_texts :
    MetaError → MetaError → MetaError → ℕ → List ℕ → Result MetaError (List (List ℕ) × List ℕ)
read_texts no_length too_short bad_utf8 zero bytes = ok ([], bytes)
read_texts no_length too_short bad_utf8 (suc n) bytes = do
  (t, rest) ← read_text 2 no_length too_short bad_utf8 bytes
  (ts, left) ← read_texts no_length too_short bad_utf8 n rest
  ok (t ∷ ts, left)

-- `for _ in 0..nover`.
unfoldable pub read_pairs : ℕ → List ℕ → Result MetaError (Pairs × List ℕ)
read_pairs zero bytes = ok ([], bytes)
read_pairs (suc n) bytes = do
  (node, r) ← ok_or (read_u8 bytes) trunc_over_node
  (count, rest) ← ok_or (read_le 8 r) trunc_over_count
  (ps, left) ← read_pairs n rest
  ok ((node, count) ∷ ps, left)

-- `if ver >= since { read } else { default }`
abbrev pub since :
    {A : Type 0}
    → ℕ
    → ℕ
    → A
    → Result MetaError (A × List ℕ)
    → List ℕ
    → Result MetaError (A × List ℕ)
since first ver fallback reading bytes = if leb first ver then reading else ok (fallback, bytes)

-- `clen == 0` is `None`.
abbrev pub declared : List ℕ → Option (List ℕ)
declared [] = none
declared (c ∷ cs) = some (c ∷ cs)

-- The fields of v1.
pub record HeadFields : Type 0 where
  pub memory_id : List ℕ
  pub source : ℕ
  pub confidence : ℕ
  pub importance : ℕ
  pub created_tick : ℕ
  pub parent_ids : List (List ℕ)
  pub clock_overflow : Pairs

unfoldable pub read_head : List ℕ → Result MetaError (HeadFields × List ℕ)
read_head bytes = do
  (memory_id, r1) ← read_text 2 trunc_idlen trunc_id utf8_id bytes
  (source, r2) ← ok_or (read_u8 r1) trunc_source
  (confidence, r3) ← ok_or (read_le 4 r2) trunc_confidence
  (importance, r4) ← ok_or (read_le 4 r3) trunc_importance
  (created_tick, r5) ← ok_or (read_le 8 r4) trunc_created
  (nparents, r6) ← ok_or (read_le 2 r5) trunc_nparents
  (parent_ids, r7) ← read_texts trunc_plen trunc_parent utf8_p nparents r6
  (nover, r8) ← ok_or (read_le 2 r7) trunc_nover
  (clock_overflow, r9) ← read_pairs nover r8
  ok (
    record {
      memory_id = memory_id;
      source = source;
      confidence = confidence;
      importance = importance;
      created_tick = created_tick;
      parent_ids = parent_ids;
      clock_overflow = clock_overflow;
    },
    r9,
  )

-- v5: the entities.
unfoldable pub read_entities : List ℕ → Result MetaError (List (List ℕ) × List ℕ)
read_entities bytes = do
  (n, r) ← ok_or (read_le 2 bytes) trunc_nentities
  read_texts trunc_entlen trunc_entity utf8_ent n r

-- v6: the declared content type.
unfoldable pub read_content_type : List ℕ → Result MetaError (Option (List ℕ) × List ℕ)
read_content_type bytes = do
  (s, r) ← read_text 2 trunc_ctlen trunc_content_type utf8_ct bytes
  ok (declared s, r)

unfoldable pub read_dim : List ℕ → Result MetaError (List ℕ × List ℕ)
read_dim bytes = read_text 2 trunc_scopedimlen trunc_scopedim utf8_scopedim bytes

-- v7: the scope dimensions and the model.
unfoldable pub read_dims : List ℕ → Result MetaError ((ScopeDims × List ℕ) × List ℕ)
unfolding read_dim
read_dims bytes = do
  (user, r1) ← read_dim bytes
  (agent, r2) ← read_dim r1
  (app, r3) ← read_dim r2
  (run, r4) ← read_dim r3
  (model_id, r5) ← read_text 2 trunc_modelidlen trunc_modelid utf8_modelid r4
  ok ((record { user = user; agent = agent; app = app; run = run }, model_id), r5)

-- The last step of `decode`: global dimensions take the legacy scope as their user.
unfoldable pub inherit_scope : List ℕ → ScopeDims → ScopeDims
inherit_scope scope dims =
    if is_global dims && not (is_empty scope)
    then record { user = scope; agent = []; app = []; run = [] }
    else dims

-- The fields behind those of v1, for a blob of version `ver`.
unfoldable pub read_tail : ℕ → HeadFields → List ℕ → Result MetaError MemoryMeta
unfolding inherit_scope
read_tail ver head bytes = do
  (version_id, r1) ←
      since 2 ver head.memory_id (read_text 2 trunc_vidlen trunc_vid utf8_vid bytes) bytes
  (last_reinforced, r2) ← since 3 ver 0 (ok_or (read_le 8 r1) trunc_last_reinforced) r1
  (scope, r3) ← since 4 ver [] (read_text 2 trunc_scopelen trunc_scope utf8_scope r2) r2
  (entities, r4) ← since 5 ver [] (read_entities r3) r3
  (content_type, r5) ← since 6 ver none (read_content_type r4) r4
  (dims_model, r6) ← since 7 ver (no_dims, []) (read_dims r5) r5
  (authority, r7) ← since 8 ver 0 (ok_or (read_u8 r6) trunc_authority) r6
  ok (record {
    memory_id = head.memory_id;
    version_id = version_id;
    source = head.source;
    confidence = head.confidence;
    importance = head.importance;
    created_tick = head.created_tick;
    parent_ids = head.parent_ids;
    clock_overflow = head.clock_overflow;
    last_reinforced = last_reinforced;
    scope = scope;
    entities = entities;
    content_type = content_type;
    scope_dims = inherit_scope scope dims_model.0;
    model_id = dims_model.1;
    authority = authority;
  })

-- `MemoryMeta::decode`; with five bytes at hand the version is there.
unfoldable pub decode_meta : List ℕ → Result MetaError MemoryMeta
decode_meta bytes = do
  r0 ← read_magic meta_magic 5 bad_meta_magic bytes
  (ver, r1) ← ok_or (read_u8 r0) bad_meta_magic
  guard (leb 1 ver && leb ver 8) bad_meta_version
  (head, r2) ← read_head r1
  read_tail ver head r2
