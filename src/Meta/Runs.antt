-- ===== src/Meta/Runs.antt =====
-- A metadata blob that is written and read, and the theorems of its format there.
use neural_sgdb.Prelude.{◌≡◌, refl, some, [], ◌∷◌, arith}
use neural_sgdb.Prelude.Text.{codes}
use neural_sgdb.Wire.{ok}
use neural_sgdb.Wire.Utf8.{is_utf8}
use neural_sgdb.Meta.{MemoryMeta, no_dims, encode_meta, decode_meta, text_or_empty, declared}
use neural_sgdb.Meta.RoundTrip.{Fits, scope_moves_to_user}

-- A memory with a parent, an overflow node, an entity and a legacy scope.
abbrev pub meta : MemoryMeta
meta = record {
  memory_id = codes "m1";
  version_id = codes "m1v2";
  source = 3;
  confidence = 0x3F000000;
  importance = 0x3F800000;
  created_tick = 77;
  parent_ids = codes "m0" ∷ [];
  clock_overflow = (9, 1) ∷ [];
  last_reinforced = 78;
  scope = codes "u";
  entities = codes "Ana" ∷ [];
  content_type = some (codes "fact");
  scope_dims = no_dims;
  model_id = codes "bge";
  authority = 2;
}

pub meta-Fits : Fits meta
unfolding is_utf8
meta-Fits = record {
  memory_id = record { fits = omega arith; utf8 = refl };
  version_id = record { fits = omega arith; utf8 = refl };
  confidence = omega arith;
  importance = omega arith;
  created_tick = omega arith;
  nparents = omega arith;
  parents = (record { fits = omega arith; utf8 = refl }, tt);
  noverflow = omega arith;
  overflow = (record { count = omega arith }, tt);
  last_reinforced = omega arith;
  scope = record { fits = omega arith; utf8 = refl };
  nentities = omega arith;
  entities = (record { fits = omega arith; utf8 = refl }, tt);
  content_type = record { fits = omega arith; utf8 = refl };
  user = record { fits = omega arith; utf8 = refl };
  agent = record { fits = omega arith; utf8 = refl };
  app = record { fits = omega arith; utf8 = refl };
  run = record { fits = omega arith; utf8 = refl };
  model_id = record { fits = omega arith; utf8 = refl };
}

scope_moves_to_user_example :
    decode_meta (encode_meta meta)
    ≡ ok (record meta {
      content_type = declared (text_or_empty meta.content_type);
      scope_dims = record { user = meta.scope; agent = []; app = []; run = [] };
    })
scope_moves_to_user_example = scope_moves_to_user meta 117 [] meta-Fits refl refl
