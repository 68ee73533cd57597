-- ===== src/Layer/Labels.antt =====
-- Codes and labels are read back: `from_u8`, `from_label` and `from_str` of src/memory_doc.rs.
use neural_sgdb.Prelude.{ℕ, ◌≡◌, ◌↔◌, refl, some, arith}
use neural_sgdb.Layer.{
  MemoryLayer, l0_sensory, layer_code, layer_of, layer_str, long_name, layer_from_label,
  MemoryState, active, state_code, state_of, RelationKind, related_to, kind_code, kind_of, kind_str,
  kind_from_str,
}

-- A byte is read as a layer exactly if it is that layer's code.
pub layer_of_iff : (v : ℕ) (l : MemoryLayer) → (layer_of v ≡ some l) ↔ (v ≡ layer_code l)
unfolding layer_of layer_code
layer_of_iff v l0_sensory = ground arith
layer_of_iff v _ = ground arith

pub state_of_iff : (v : ℕ) (s : MemoryState) → (state_of v ≡ some s) ↔ (v ≡ state_code s)
unfolding state_of state_code
state_of_iff v active = ground arith
state_of_iff v _ = ground arith

pub kind_of_iff : (v : ℕ) (k : RelationKind) → (kind_of v ≡ some k) ↔ (v ≡ kind_code k)
unfolding kind_of kind_code
kind_of_iff v related_to = ground arith
kind_of_iff v _ = ground arith

-- Both labels of a layer, the short one and the long one, are read back as the layer.
pub layer_labels :
    (l : MemoryLayer)
    → (layer_from_label (layer_str l) ≡ some l) × (layer_from_label (long_name l) ≡ some l)
unfolding layer_from_label layer_str
layer_labels l0_sensory = (refl, refl)
layer_labels _ = (refl, refl)

pub kind_from_str-kind_str : (k : RelationKind) → kind_from_str (kind_str k) ≡ some k
unfolding kind_from_str
kind_from_str-kind_str related_to = refl
kind_from_str-kind_str _ = refl
