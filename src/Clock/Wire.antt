-- ===== src/Clock/Wire.antt =====
-- The 72 bytes of a clock inside a document: `encode` and `decode` of `VectorClock`
-- (src/memory_doc.rs). The overflow is not written.
use neural_sgdb.Prelude.{
  ℕ, suc, ◌+◌, ◌*◌, ◌≤◌, ◌<◌, ◌≡◌, refl, ap, ◌∙◌, Option, none, some, List, [], ◌∷◌, ◌++◌, arith,
  length, length-append, take, drop, take-length_append, drop-length_append, take-add_take,
  drop-add_take, length-take, All, ltb, if◌then◌else◌, append_assoc, ge→not_ltb,
}
use neural_sgdb.Prelude.Bytes.{le_bytes, of_le, length-le_bytes, of_le-le_bytes, IsU64}
use neural_sgdb.Prelude.Assoc.{Pairs}
use neural_sgdb.Clock.{VectorClock}

pub slot_nodes : Pairs → List ℕ
slot_nodes [] = []
slot_nodes ((n, c) ∷ s) = n ∷ slot_nodes s

pub slot_counts : Pairs → List ℕ
slot_counts [] = []
slot_counts ((n, c) ∷ s) = le_bytes 8 c ++ slot_counts s

unfoldable pub encode : VectorClock → List ℕ
unfolding slot_nodes slot_counts
encode vc = slot_nodes vc.slots ++ slot_counts vc.slots

-- Each node with the next eight bytes.
pub decode_slots : List ℕ → List ℕ → Pairs
decode_slots [] counts = []
decode_slots (n ∷ nodes) counts = (n, of_le (take 8 counts)) ∷ decode_slots nodes (drop 8 counts)

-- The clock, and the bytes behind the 72 that it takes.
unfoldable pub decode : List ℕ → Option (VectorClock × List ℕ)
unfolding decode_slots
decode bytes =
    if ltb (length bytes) 72
    then none
    else some (
      record { slots = decode_slots (take 8 bytes) (drop 8 bytes); overflow = [] },
      drop 72 bytes,
    )

length-slot_nodes : (s : Pairs) → length (slot_nodes s) ≡ length s
unfolding slot_nodes
length-slot_nodes [] = refl
length-slot_nodes ((n, c) ∷ s) = ap suc (length-slot_nodes s)

length-slot_counts : (s : Pairs) → length (slot_counts s) ≡ 8 * length s
unfolding slot_counts
length-slot_counts [] = refl
length-slot_counts ((n, c) ∷ s) =
    omega (
      arith,
      length-append (le_bytes 8 c) (slot_counts s),
      length-le_bytes 8 c,
      length-slot_counts s,
    )

-- The counters are u64 values.
abbrev pub CountsU64 : Pairs → Type 0
CountsU64 s = All (λ p. IsU64 p.1) s

decode_slots-encode :
    (s : Pairs) (rest : List ℕ)
    → CountsU64 s
    → decode_slots (slot_nodes s) (slot_counts s ++ rest) ≡ s
unfolding decode_slots slot_nodes slot_counts
decode_slots-encode [] rest h = refl
decode_slots-encode ((n, c) ∷ s) rest h =
    let l = length-le_bytes 8 c in
    let more = slot_counts s ++ rest in
    let t = rw l at (take-length_append (le_bytes 8 c) more) in
    let d = rw l at (drop-length_append (le_bytes 8 c) more) in
    rw (append_assoc, t, d, of_le-le_bytes 8 c h.0, decode_slots-encode s rest h.1)

pub length-encode : (vc : VectorClock) → length vc.slots ≡ 8 → length (encode vc) ≡ 72
unfolding encode
length-encode vc eight = omega (
  arith,
  length-append (slot_nodes vc.slots) (slot_counts vc.slots),
  length-slot_nodes vc.slots,
  length-slot_counts vc.slots,
  eight,
)

-- A clock of eight slots with u64 counters is read back from the 72 bytes, all but its
-- overflow, and what follows is left.
pub decode-encode :
    (vc : VectorClock) (rest : List ℕ)
    → length vc.slots ≡ 8
    → CountsU64 vc.slots
    → decode (encode vc ++ rest) ≡ some (record vc { overflow = [] }, rest)
unfolding decode
decode-encode vc rest eight fit =
    let l = length-encode vc eight in
    let n = length-slot_nodes vc.slots ∙ eight in
    let a = append_assoc (slot_nodes vc.slots) (slot_counts vc.slots) rest in
    let more = slot_counts vc.slots ++ rest in
    let d72 = rw l at (drop-length_append (encode vc) rest) in
    let t8 = rw n at (take-length_append (slot_nodes vc.slots) more) in
    let d8 = rw n at (drop-length_append (slot_nodes vc.slots) more) in
    let long : 72 ≤ length (encode vc ++ rest) = omega (arith, length-append (encode vc) rest, l) in
    rw (ge→not_ltb _ _ long, d72)
      (unfold encode in rw (a, t8, d8, decode_slots-encode vc.slots rest fit))

-- The clock in the first 72 bytes.
abbrev pub clock_at : List ℕ → VectorClock
clock_at bytes = record { slots = decode_slots (take 8 bytes) (drop 8 bytes); overflow = [] }

decode_slots-take :
    (nodes counts : List ℕ) (k : ℕ)
    → k ≡ 8 * length nodes
    → decode_slots nodes (take k counts) ≡ decode_slots nodes counts
unfolding decode_slots
decode_slots-take [] counts k e = refl
decode_slots-take (n ∷ nodes) counts k e =
    let f : k ≡ 8 + 8 * length nodes = omega arith in
    let t = take-add_take 8 (8 * length nodes) counts in
    let d = drop-add_take 8 (8 * length nodes) counts in
    rw (f, t, d, decode_slots-take nodes (drop 8 counts) _ refl)

-- `decode` reads the 72 bytes that it takes and no others.
pub decode-take :
    (bytes : List ℕ)
    → 72 ≤ length bytes
    → (decode bytes ≡ some (clock_at bytes, drop 72 bytes))
      × (decode (take 72 bytes) ≡ some (clock_at bytes, []))
unfolding decode
decode-take bytes long =
    let l : length (take 72 bytes) ≡ 72 = omega (arith, length-take 72 bytes) in
    let t = take-add_take 8 64 bytes in
    let d = drop-add_take 8 64 bytes in
    let n : 64 ≡ 8 * length (take 8 bytes) = omega (arith, length-take 8 bytes) in
    let none_left : drop 72 (take 72 bytes) ≡ [] = drop-add_take 72 0 bytes in
    (
      rw (ge→not_ltb _ _ long),
      rw (ge→not_ltb (length (take 72 bytes)) 72 (omega (arith, l)), t, d, none_left)
          (rw (decode_slots-take (take 8 bytes) (drop 8 bytes) 64 n)),
    )

-- A clock is found exactly where 72 bytes are left.
pub decode_long :
    (bytes : List ℕ) (r : VectorClock × List ℕ) → decode bytes ≡ some r → 72 ≤ length bytes
unfolding decode
decode_long bytes r e = ground arith

pub decode_short : (bytes : List ℕ) → length bytes < 72 → decode bytes ≡ none
unfolding decode
decode_short bytes h = ground arith
