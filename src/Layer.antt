-- ===== src/Layer.antt =====
-- `MemoryLayer`, `MemoryState` and `RelationKind` of src/memory_doc.rs: the codes and labels by
-- which they are stored. A text is the list of its bytes.
pub mod Labels
use neural_sgdb.Prelude.{
  ℕ, ◌+◌, ◌-◌, ◌%◌, Bool, ◌&&◌, Option, none, some, List, [], ◌∷◌, ◌++◌, length, ◌==◌,
  if◌then◌else◌,
}
use neural_sgdb.Prelude.Bytes.{eq_bytes}
use neural_sgdb.Prelude.Text.{codes}

pub data MemoryLayer : Type 0 where
  l0_sensory l1_working l2_episodic_short l3_episodic_long : MemoryLayer
  l4_semantic l5_procedural l6_reserved l7_identity : MemoryLayer

-- `layer as u8`
unfoldable pub layer_code : MemoryLayer → ℕ
layer_code l0_sensory = 0
layer_code l1_working = 1
layer_code l2_episodic_short = 2
layer_code l3_episodic_long = 3
layer_code l4_semantic = 4
layer_code l5_procedural = 5
layer_code l6_reserved = 6
layer_code l7_identity = 7

-- `MemoryLayer::from_u8`
unfoldable pub layer_of : ℕ → Option MemoryLayer
layer_of v =
    if v == 0
    then some l0_sensory
    else if v == 1
    then some l1_working
    else if v == 2
    then some l2_episodic_short
    else if v == 3
    then some l3_episodic_long
    else if v == 4
    then some l4_semantic
    else if v == 5
    then some l5_procedural
    else if v == 6
    then some l6_reserved
    else if v == 7
    then some l7_identity
    else none

-- `MemoryLayer::as_str`
unfoldable pub layer_str : MemoryLayer → List ℕ
layer_str l0_sensory = codes "L0"
layer_str l1_working = codes "L1"
layer_str l2_episodic_short = codes "L2"
layer_str l3_episodic_long = codes "L3"
layer_str l4_semantic = codes "L4"
layer_str l5_procedural = codes "L5"
layer_str l6_reserved = codes "L6"
layer_str l7_identity = codes "L7"

pub all_layers : List MemoryLayer
all_layers =
    l0_sensory ∷ l1_working ∷ l2_episodic_short ∷ l3_episodic_long ∷ l4_semantic ∷ l5_procedural
    ∷ l6_reserved ∷ l7_identity ∷ []

unfoldable pub long_name : MemoryLayer → List ℕ
long_name l0_sensory = codes "L0Sensory"
long_name l1_working = codes "L1Working"
long_name l2_episodic_short = codes "L2EpisodicShort"
long_name l3_episodic_long = codes "L3EpisodicLong"
long_name l4_semantic = codes "L4Semantic"
long_name l5_procedural = codes "L5Procedural"
long_name l6_reserved = codes "L6Reserved"
long_name l7_identity = codes "L7Identity"

find_long_name : List ℕ → List MemoryLayer → Option MemoryLayer
find_long_name s [] = none
find_long_name s (l ∷ rest) = if eq_bytes (long_name l) s then some l else find_long_name s rest

-- `MemoryLayer::from_label`; the subtraction of b'0' wraps in a u8.
unfoldable pub layer_from_label : List ℕ → Option MemoryLayer
unfolding find_long_name all_layers layer_of long_name eq_bytes
layer_from_label (c ∷ d ∷ []) =
    if c == b'L' then layer_of ((d + 256 - b'0') % 256) else find_long_name (c ∷ d ∷ []) all_layers
layer_from_label s = find_long_name s all_layers

-- `MemoryLayer::carries_embedding`
unfoldable pub carries_embedding : MemoryLayer → Bool
carries_embedding l4_semantic = Bool.true
carries_embedding l5_procedural = Bool.true
carries_embedding _ = Bool.false

pub data MemoryState : Type 0 where
  active superseded archived invalidated decayed : MemoryState

unfoldable pub state_code : MemoryState → ℕ
state_code active = 0
state_code superseded = 1
state_code archived = 2
state_code invalidated = 3
state_code decayed = 4

-- `MemoryState::from_u8`
unfoldable pub state_of : ℕ → Option MemoryState
state_of v =
    if v == 0
    then some active
    else if v == 1
    then some superseded
    else if v == 2
    then some archived
    else if v == 3
    then some invalidated
    else if v == 4
    then some decayed
    else none

pub data RelationKind : Type 0 where
  related_to causes supports contradicts derived_from supersedes : RelationKind

pub all_kinds : List RelationKind
all_kinds = related_to ∷ causes ∷ supports ∷ contradicts ∷ derived_from ∷ supersedes ∷ []

unfoldable pub kind_code : RelationKind → ℕ
kind_code related_to = 0
kind_code causes = 1
kind_code supports = 2
kind_code contradicts = 3
kind_code derived_from = 4
kind_code supersedes = 5

-- `RelationKind::from_u8`
unfoldable pub kind_of : ℕ → Option RelationKind
kind_of v =
    if v == 0
    then some related_to
    else if v == 1
    then some causes
    else if v == 2
    then some supports
    else if v == 3
    then some contradicts
    else if v == 4
    then some derived_from
    else if v == 5
    then some supersedes
    else none

-- `RelationKind::as_str`
unfoldable pub kind_str : RelationKind → List ℕ
kind_str related_to = codes "related_to"
kind_str causes = codes "causes"
kind_str supports = codes "supports"
kind_str contradicts = codes "contradicts"
kind_str derived_from = codes "derived_from"
kind_str supersedes = codes "supersedes"

find_kind : List ℕ → List RelationKind → Option RelationKind
find_kind s [] = none
find_kind s (k ∷ rest) = if eq_bytes (kind_str k) s then some k else find_kind s rest

-- `RelationKind::from_str`
unfoldable pub kind_from_str : List ℕ → Option RelationKind
unfolding find_kind all_kinds kind_str eq_bytes
kind_from_str s = find_kind s all_kinds
