-- ===== src/Art/Index.antt =====
-- `ArtIndex` of src/art.rs: the index over the tree, its prefix guard and its scans. The count of
-- visited nodes, a diagnostic, is left out.
use neural_sgdb.Prelude.{
  ℕ, ◌+◌, ◌-◌, Bool, true, false, ◌&&◌, Option, none, some, List, [], ◌∷◌, ◌++◌, length, take, drop,
  ltb, leb, ◌==◌, if◌then◌else◌, min,
}
use neural_sgdb.Prelude.Bytes.{eq_bytes}
use neural_sgdb.Wire.Utf8.{is_utf8}
use neural_sgdb.Art.{
  Width, w48, Node, leaf, inner, Kids, nil, kid, byte_at, begins, get_rec, insert_rec,
}
use neural_sgdb.Art.Removal.{delete_rec}

pub record ArtIndex : Type 0 where
  pub root : Option Node
  pub len : ℕ

abbrev pub new : ArtIndex
new = record { root = none; len = 0 }

-- From any index.
abbrev pub clear : ArtIndex → ArtIndex
clear t = new

unfoldable pub get : ArtIndex → List ℕ → Option ℕ
get t key = elim t.root [ none ↦ none | some n ↦ get_rec n key 0 ]

unfoldable pub insert : ArtIndex → List ℕ → ℕ → ArtIndex
insert t key v = elim t.root [
  | none ↦ record { root = some (leaf key v); len = 1 }
  | some n ↦ let r = insert_rec n key 0 v t.len in record { root = some r.0; len = r.1 }
]

-- With whether the key was there.
unfoldable pub delete : ArtIndex → List ℕ → ArtIndex × Bool
delete t key = elim t.root [
  | none ↦ (t, false)
  | some n ↦ let r = delete_rec n key 0 t.len in (record { root = r.0; len = r.1 }, ltb r.1 t.len)
]

-- One of the two texts begins with the other.
unfoldable pub overlaps : List ℕ → List ℕ → Bool
overlaps lk key = let m = min (length lk) (length key) in eq_bytes (take m lk) (take m key)

unfoldable mutual
  pub conflict_rec : Node → List ℕ → ℕ → Bool
  conflict_rec (leaf lk v) key depth = if eq_bytes lk key then false else overlaps lk key
  conflict_rec (inner w p ks) key depth =
      if begins p (drop depth key)
      then elim (byte_at key (depth + length p)) [
        | none ↦ true
        | some b ↦ conflict_kids ks b key (depth + length p + 1)
      ]
      else if ltb depth (length key) && ltb (length key - depth) (length p)
      then begins (drop depth key) p
      else false

  pub conflict_kids : Kids → ℕ → List ℕ → ℕ → Bool
  conflict_kids nil b key depth = false
  conflict_kids (kid b' c ks) b key depth = elim (b' == b) [
    | true ↦ conflict_rec c key depth
    | false ↦ conflict_kids ks b key depth
  ]

unfoldable pub has_prefix_conflict : ArtIndex → List ℕ → Bool
has_prefix_conflict t key = elim t.root [ none ↦ false | some n ↦ conflict_rec n key 0 ]

unfoldable pub path_matches : List ℕ → List ℕ → ℕ → Bool
path_matches p prefix depth =
    let sp = drop (min depth (length prefix)) prefix in
    let n = min (length p) (length sp) in eq_bytes (take n sp) (take n p)

-- What the children gave, each with its byte, at the place of the byte.
unfoldable pub row_at_byte {ℓ} : {A : Type ℓ} → ℕ × A → List (ℕ × A) → List (ℕ × A)
row_at_byte r [] = r ∷ []
row_at_byte r (r' ∷ rs) = if ltb r.0 r'.0 then r ∷ r' ∷ rs else r' ∷ row_at_byte r rs

unfoldable pub rows_in_byte_order {ℓ} : {A : Type ℓ} → List (ℕ × A) → List (ℕ × A)
rows_in_byte_order [] = []
rows_in_byte_order (r ∷ rs) = row_at_byte r (rows_in_byte_order rs)

unfoldable pub join_rows {ℓ} : {A : Type ℓ} → List (ℕ × List A) → List A
join_rows [] = []
join_rows (r ∷ rs) = r.1 ++ join_rows rs

-- The loop over an Inner48 is in the order of the bytes, the others are in the order of the slots.
unfoldable pub join_kids {ℓ} : {A : Type ℓ} → Width → List (ℕ × List A) → List A
join_kids w48 rs = join_rows (rows_in_byte_order rs)
join_kids w rs = join_rows rs

-- Whether the scan goes on into the child of a byte.
unfoldable pub descends : List ℕ → ℕ → ℕ → Bool
descends prefix d2 b = elim (byte_at prefix d2) [ none ↦ true | some x ↦ b == x ]

unfoldable mutual
  pub collect_prefix : Node → List ℕ → ℕ → List (List ℕ × ℕ)
  collect_prefix (leaf lk v) prefix depth =
      if begins prefix lk && is_utf8 lk then (lk, v) ∷ [] else []
  collect_prefix (inner w p ks) prefix depth =
      if path_matches p prefix depth
      then join_kids w (collect_kids ks prefix (depth + length p))
      else []

  -- For each child its byte and what it gives, nothing where the scan does not descend.
  pub collect_kids : Kids → List ℕ → ℕ → List (ℕ × List (List ℕ × ℕ))
  collect_kids nil prefix d2 = []
  collect_kids (kid b c ks) prefix d2 = elim (descends prefix d2 b) [
    | true ↦ (b, collect_prefix c prefix (d2 + 1)) ∷ collect_kids ks prefix d2
    | false ↦ (b, []) ∷ collect_kids ks prefix d2
  ]

unfoldable pub scan_prefix : ArtIndex → List ℕ → List (List ℕ × ℕ)
scan_prefix t prefix = elim t.root [ none ↦ [] | some n ↦ collect_prefix n prefix 0 ]

-- The order of two strings, by their bytes.
unfoldable pub le_key : List ℕ → List ℕ → Bool
le_key [] b = true
le_key (x ∷ a) [] = false
le_key (x ∷ a) (y ∷ b) = if x == y then le_key a b else ltb x y

-- The order of two pairs of a string and a number.
unfoldable pub le_entry : List ℕ × ℕ → List ℕ × ℕ → Bool
le_entry a b = if eq_bytes a.0 b.0 then leb a.1 b.1 else le_key a.0 b.0

unfoldable pub insert_entry : List ℕ × ℕ → List (List ℕ × ℕ) → List (List ℕ × ℕ)
insert_entry e [] = e ∷ []
insert_entry e (x ∷ xs) = if le_entry e x then e ∷ x ∷ xs else x ∷ insert_entry e xs

-- `all.sort()`
unfoldable pub sort_entries : List (List ℕ × ℕ) → List (List ℕ × ℕ)
sort_entries [] = []
sort_entries (x ∷ xs) = insert_entry x (sort_entries xs)

unfoldable pub scan_prefix_page : ArtIndex → List ℕ → ℕ → ℕ → List (List ℕ × ℕ)
scan_prefix_page t prefix offset limit =
    let all = sort_entries (scan_prefix t prefix) in
    if leb (length all) offset then [] else take limit (drop offset all)
