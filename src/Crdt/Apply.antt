-- ===== src/Crdt/Apply.antt =====
-- One received version: what `apply_remote_version` of src/crdt.rs answers, and what it does to
-- the known versions.
use neural_sgdb.Prelude.{
  ℕ, ◌<◌, ◌≡◌, ◌≢◌, ◌↔◌, ◌⊎◌, inl, inr, refl, true, false, none, some, [], ◌∷◌, arith, length, ltb,
  ◌==◌, if◌then◌else◌, max, Bool-cases,
}
use neural_sgdb.Prelude.Assoc.{Pairs, find, or_zero, Distinct}
use neural_sgdb.Crdt.{
  CrdtMemorySync, applied, conflict, adopt, apply_remote_version, upsert, has_other_state,
  knows_node,
}

-- The version of a node that `s` knows of a peer, 0 if it knows none.
abbrev pub known : CrdtMemorySync → ℕ → ℕ
known s n = or_zero (find s.node_versions n)

pub find-upsert :
    (s : Pairs) (n v m : ℕ) → find (upsert s n v) m ≡ (if n == m then some v else find s m)
unfolding find upsert
find-upsert [] n v m = refl
find-upsert ((k, d) ∷ s) n v m = ground (arith, find-upsert s n v m)

-- The state of a node is well formed if it knows each peer once and never itself as a peer.
pub record IsWf (s : CrdtMemorySync) : Type 0 where
  pub distinct : Distinct s.node_versions
  pub not_self : find s.node_versions s.node_id ≡ none

upsert-Distinct : (s : Pairs) (n v : ℕ) → Distinct s → Distinct (upsert s n v)
unfolding upsert find
upsert-Distinct [] n v d = (refl, tt)
upsert-Distinct ((k, x) ∷ s) n v d = elim (Bool-cases (k == n)) [
  | inl same ↦ rw same d
  | inr other ↦ rw other (ground (arith, find-upsert s n v k, d.0), upsert-Distinct s n v d.1)
]

pub versions-adopt :
    (s : CrdtMemorySync) (node v : ℕ)
    → (adopt s node v).0.node_versions ≡ upsert s.node_versions node v
unfolding adopt
versions-adopt s node v = ground arith

pub node_id-adopt : (s : CrdtMemorySync) (node v : ℕ) → (adopt s node v).0.node_id ≡ s.node_id
unfolding adopt
node_id-adopt s node v = ground arith

-- A packet is adopted or changes nothing.
pub apply_cases :
    (s : CrdtMemorySync) (node v : ℕ)
    → (apply_remote_version s node v ≡ adopt s node v) × (node ≢ s.node_id) × (known s node < v)
      ⊎ ((apply_remote_version s node v).0 ≡ s) × ((apply_remote_version s node v).1 ≢ conflict)
unfolding apply_remote_version
apply_cases s node v = ground arith

-- A received version keeps the state well formed.
pub apply_remote_version-IsWf :
    (s : CrdtMemorySync) (node v : ℕ) → IsWf s → IsWf (apply_remote_version s node v).0
apply_remote_version-IsWf s node v wf = elim (apply_cases s node v) [
  | inr (same, _) ↦ rw same wf
  | inl (new, other, more) ↦
      let f = find-upsert s.node_versions node v s.node_id in
      rw new (record {
        distinct =
            rw (versions-adopt s node v) (upsert-Distinct s.node_versions node v wf.distinct);
        not_self =
            rw (versions-adopt s node v, node_id-adopt s node v) (ground (arith, f, wf.not_self));
      })
]

known-adopt :
    (s : CrdtMemorySync) (node v m : ℕ)
    → known (adopt s node v).0 m ≡ (if node == m then v else known s m)
unfolding adopt
known-adopt s node v m = ground (arith, find-upsert s.node_versions node v m)

-- After one packet a node knows of each peer the larger of what it knew and what came; its own
-- packets change nothing.
pub known-apply_remote_version :
    (s : CrdtMemorySync) (node v m : ℕ)
    → known (apply_remote_version s node v).0 m ≡ (
        if node == s.node_id then known s m else if node == m then max (known s m) v else known s m)
unfolding apply_remote_version
known-apply_remote_version s node v m = ground (arith, known-adopt s node v m)

knows_node-find : (s : Pairs) (n : ℕ) → knows_node s n ≡ false → find s n ≡ none
unfolding knows_node find
knows_node-find [] n h = refl
knows_node-find ((m, k) ∷ s) n h = ground (arith, knows_node-find s n)

-- Another peer than `node` is known.
abbrev pub KnowsOther : CrdtMemorySync → ℕ → Type 0
KnowsOther s node = (m : ℕ) × (m ≢ node) × (find s.node_versions m ≢ none)

other_of_two :
    (s : Pairs) (n : ℕ) → Distinct s → 1 < length s → (m : ℕ) × (m ≢ n) × (find s m ≢ none)
unfolding find
other_of_two [] n d h = absurd (omega arith)
other_of_two (p ∷ []) n d h = absurd (omega arith)
other_of_two ((a, x) ∷ (b, y) ∷ s) n d h = elim (Bool-cases (a == n)) [
  | inl same ↦ (b, ground (arith, d.0), ground arith)
  | inr other ↦ (a, ground arith, ground arith)
]

other_of_one :
    (s : Pairs) (n : ℕ)
    → length s ≡ 1
    → knows_node s n ≡ false
    → (m : ℕ) × (m ≢ n) × (find s m ≢ none)
unfolding find knows_node
other_of_one [] n l h = absurd (omega arith)
other_of_one ((a, x) ∷ s) n l h = (a, ground arith, ground arith)

one_of_other :
    (s : Pairs) (n m : ℕ)
    → m ≢ n
    → find s m ≢ none
    → (0 < length s) × (length s ≡ 1 → knows_node s n ≡ false)
unfolding find knows_node
one_of_other [] n m h f = absurd (f refl)
one_of_other ((a, x) ∷ []) n m h f = (omega arith, λ l. ground arith)
one_of_other ((a, x) ∷ p ∷ s) n m h f = (omega arith, λ l. absurd (omega arith))

pub has_other_state_iff :
    (s : CrdtMemorySync) (node : ℕ)
    → IsWf s
    → (has_other_state s node ≡ true) ↔ ((0 < s.own_writes) ⊎ KnowsOther s node)
unfolding has_other_state
has_other_state_iff s node wf = (
  λ h. elim (Bool-cases (ltb 0 s.own_writes)) [
    | inl wrote ↦ inl (ground arith)
    | inr silent ↦ elim (Bool-cases (ltb 1 (length s.node_versions))) [
      | inl two ↦ inr (other_of_two s.node_versions node wf.distinct (ground arith))
      | inr one ↦ inr (other_of_one s.node_versions node (ground arith) (ground arith))
    ]
  ],
  elim [
    | inl wrote ↦ ground arith
    | inr (m, other, seen) ↦
        let one = one_of_other s.node_versions node m other seen in ground (arith, one)
  ],
)

new_version_verdict :
    (s : CrdtMemorySync) (node v : ℕ)
    → node ≢ s.node_id
    → known s node < v
    → (apply_remote_version s node v).1 ≡ (if has_other_state s node then conflict else applied)
unfolding apply_remote_version adopt
new_version_verdict s node v other more = ground arith

-- For a well-formed state, a version of a peer that is newer than the known one is a conflict
-- exactly if the node has writes of its own or knows another peer; else it is applied.
pub new_version_iff :
    (s : CrdtMemorySync) (node v : ℕ)
    → IsWf s
    → node ≢ s.node_id
    → known s node < v
    → (((apply_remote_version s node v).1 ≡ conflict) ↔ ((0 < s.own_writes) ⊎ KnowsOther s node))
      × (((apply_remote_version s node v).1 ≡ applied) ↔ ¬ ((0 < s.own_writes) ⊎ KnowsOther s node))
new_version_iff s node v wf other more =
    let e = new_version_verdict s node v other more in
    let iff = has_other_state_iff s node wf in
    elim (Bool-cases (has_other_state s node)) [
      | inl beside ↦ (
        (λ _. iff.0 beside, λ _. rw (e, beside) refl),
        (λ p. absurd (ground (arith, e, beside)), λ none_such. absurd (none_such (iff.0 beside))),
      )
      | inr alone ↦ (
        (λ p. absurd (ground (arith, e, alone)), λ x. absurd (ground (arith, iff.1 x, alone))),
        (λ _ x. ground (arith, iff.1 x, alone), λ _. rw (e, alone) refl),
      )
    ]
