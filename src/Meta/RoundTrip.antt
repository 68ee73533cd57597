-- ===== src/Meta/RoundTrip.antt =====
-- MDM1 is read back: `encode` and `decode` of `MemoryMeta` (src/memory_doc.rs).
use neural_sgdb.Prelude.{ℕ, ◌≡◌, refl, ap, ◌∙◌, true, none, List, [], ◌∷◌, ◌++◌, arith, length, All}
use neural_sgdb.Prelude.Bytes.{le_bytes, IsU16, IsU32, IsU64}
use neural_sgdb.Prelude.Assoc.{Pairs}
use neural_sgdb.Wire.{
  ok, read_u8, read_text, block, read_le-le_bytes, read_text-block, read_magic-append,
}
use neural_sgdb.Wire.Utf8.{is_utf8}
use neural_sgdb.Meta.{
  trunc_ctlen, trunc_content_type, utf8_ct, MemoryMeta, MetaError, HeadFields, meta_magic,
  meta_version, bad_meta_magic, no_dims, text_or_empty, declared, put_texts, put_pairs, put_dims,
  put_tail, put_head, encode_meta, read_texts, read_pairs, read_head, read_entities,
  read_content_type, read_dims, inherit_scope, read_tail, decode_meta,
}

-- A Rust string that a u16 length can announce.
pub record IsText (t : List ℕ) : Type 0 where
  pub fits : IsU16 (length t)
  pub utf8 : is_utf8 t ≡ true

pub record IsPair (p : ℕ × ℕ) : Type 0 where
  pub count : IsU64 p.1

-- The lengths that `encode` writes as u16 fit, and the fields have their Rust types.
pub record Fits (m : MemoryMeta) : Type 0 where
  pub memory_id : IsText m.memory_id
  pub version_id : IsText m.version_id
  pub confidence : IsU32 m.confidence
  pub importance : IsU32 m.importance
  pub created_tick : IsU64 m.created_tick
  pub nparents : IsU16 (length m.parent_ids)
  pub parents : All IsText m.parent_ids
  pub noverflow : IsU16 (length m.clock_overflow)
  pub overflow : All IsPair m.clock_overflow
  pub last_reinforced : IsU64 m.last_reinforced
  pub scope : IsText m.scope
  pub nentities : IsU16 (length m.entities)
  pub entities : All IsText m.entities
  pub content_type : IsText (text_or_empty m.content_type)
  pub user : IsText m.scope_dims.user
  pub agent : IsText m.scope_dims.agent
  pub app : IsText m.scope_dims.app
  pub run : IsText m.scope_dims.run
  pub model_id : IsText m.model_id

text_read :
    {E : Type 0} (e f g : E) (t rest : List ℕ)
    → IsText t
    → read_text 2 e f g (block 2 t rest) ≡ ok (t, rest)
text_read e f g t rest h = read_text-block 2 e f g t rest h.fits h.utf8

texts_read :
    (e f g : MetaError) (ts : List (List ℕ)) (rest : List ℕ)
    → All IsText ts
    → read_texts e f g (length ts) (put_texts ts rest) ≡ ok (ts, rest)
unfolding read_texts put_texts
texts_read e f g [] rest h = refl
texts_read e f g (t ∷ ts) rest h =
    rw (text_read e f g t (put_texts ts rest) h.0, texts_read e f g ts rest h.1)

pairs_read :
    (ps : Pairs) (rest : List ℕ)
    → All IsPair ps
    → read_pairs (length ps) (put_pairs ps rest) ≡ ok (ps, rest)
unfolding read_pairs put_pairs read_u8
pairs_read [] rest h = refl
pairs_read ((n, c) ∷ ps) rest h =
    rw (read_le-le_bytes 8 c (put_pairs ps rest) h.0.count, pairs_read ps rest h.1)

abbrev head_of : MemoryMeta → HeadFields
head_of m = record {
  memory_id = m.memory_id;
  source = m.source;
  confidence = m.confidence;
  importance = m.importance;
  created_tick = m.created_tick;
  parent_ids = m.parent_ids;
  clock_overflow = m.clock_overflow;
}

head_read :
    (m : MemoryMeta) (rest : List ℕ) → Fits m → read_head (put_head m rest) ≡ ok (head_of m, rest)
unfolding read_head put_head read_u8
head_read m rest h = rw (
  text_read _ _ _ m.memory_id _ h.memory_id,
  read_le-le_bytes 4 m.confidence _ h.confidence,
  read_le-le_bytes 4 m.importance _ h.importance,
  read_le-le_bytes 8 m.created_tick _ h.created_tick,
  read_le-le_bytes 2 (length m.parent_ids) _ h.nparents,
  texts_read _ _ _ m.parent_ids _ h.parents,
  read_le-le_bytes 2 (length m.clock_overflow) _ h.noverflow,
  pairs_read m.clock_overflow _ h.overflow,
)

dims_read :
    (m : MemoryMeta)
    → Fits m
    → read_dims (put_dims m) ≡ ok ((m.scope_dims, m.model_id), m.authority ∷ [])
unfolding read_dims put_dims
dims_read m h = rw (
  text_read _ _ _ m.scope_dims.user _ h.user,
  text_read _ _ _ m.scope_dims.agent _ h.agent,
  text_read _ _ _ m.scope_dims.app _ h.app,
  text_read _ _ _ m.scope_dims.run _ h.run,
  text_read _ _ _ m.model_id _ h.model_id,
)

entities_read :
    (m : MemoryMeta) (rest : List ℕ)
    → Fits m
    → read_entities (le_bytes 2 (length m.entities) ++ put_texts m.entities rest)
      ≡ ok (m.entities, rest)
unfolding read_entities
entities_read m rest h =
    rw (
      read_le-le_bytes 2 (length m.entities) _ h.nentities,
      texts_read _ _ _ m.entities _ h.entities,
    )

content_type_read :
    (m : MemoryMeta) (rest : List ℕ)
    → Fits m
    → read_content_type (block 2 (text_or_empty m.content_type) rest)
      ≡ ok (declared (text_or_empty m.content_type), rest)
unfolding read_content_type
content_type_read m rest h = rw (
    text_read trunc_ctlen trunc_content_type utf8_ct (text_or_empty m.content_type) rest
      h.content_type)

-- What a reader of the blob sees: an empty declared content type is none, and where all the
-- dimensions are global the legacy scope is the user.
abbrev pub seen : MemoryMeta → MemoryMeta
seen m = record m {
  content_type = declared (text_or_empty m.content_type);
  scope_dims = inherit_scope m.scope m.scope_dims;
}

tail_read : (m : MemoryMeta) → Fits m → read_tail 8 (head_of m) (put_tail m) ≡ ok (seen m)
unfolding read_tail put_tail read_u8
tail_read m h = rw (
  text_read _ _ _ m.version_id _ h.version_id,
  read_le-le_bytes 8 m.last_reinforced _ h.last_reinforced,
  text_read _ _ _ m.scope _ h.scope,
  entities_read m _ h,
  content_type_read m _ h,
  dims_read m h,
)

pub decode_meta-encode_meta : (m : MemoryMeta) → Fits m → decode_meta (encode_meta m) ≡ ok (seen m)
unfolding decode_meta encode_meta read_u8
decode_meta-encode_meta m h = rw (
  read_magic-append meta_magic 5 bad_meta_magic (meta_version ∷ put_head m (put_tail m)) refl
      (omega arith),
  head_read m _ h,
  tail_read m h,
)

-- A v1 blob, of fields that fit their lengths, is read with the defaults of the later fields: its
-- version is the memory itself, it was never reinforced, and it has no scope, no entities, no
-- declared type, no model and no authority.
pub decode_meta_v1 :
    (m : MemoryMeta) (rest : List ℕ)
    → Fits m
    → decode_meta (meta_magic ++ (1 ∷ put_head m rest))
      ≡ ok (record m {
        version_id = m.memory_id;
        last_reinforced = 0;
        scope = [];
        entities = [];
        content_type = none;
        scope_dims = no_dims;
        model_id = [];
        authority = 0;
      })
unfolding decode_meta read_u8 read_tail
decode_meta_v1 m rest h = rw (
  read_magic-append meta_magic 5 bad_meta_magic (1 ∷ put_head m rest) refl (omega arith),
  head_read m rest h,
)

-- Where the fields fit, all dimensions are global and the legacy scope is not empty, a blob of the
-- present version is not read back as it was written: the scope has become the user.
pub scope_moves_to_user :
    (m : MemoryMeta) (c : ℕ) (cs : List ℕ)
    → Fits m
    → m.scope ≡ c ∷ cs
    → m.scope_dims ≡ no_dims
    → decode_meta (encode_meta m)
      ≡ ok (record m {
        content_type = declared (text_or_empty m.content_type);
        scope_dims = record { user = m.scope; agent = []; app = []; run = [] };
      })
unfolding inherit_scope
scope_moves_to_user m c cs h scoped global =
    decode_meta-encode_meta m h
    ∙ ap
        (λ d.
          ok (record m { content_type = declared (text_or_empty m.content_type); scope_dims = d }))
        (ground (arith, scoped, global))
