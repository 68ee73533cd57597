-- ===== src/Crdt/Conflicts.antt =====
-- The concurrent versions that `apply_remote_version` of src/crdt.rs preserves.
use neural_sgdb.Prelude.{
  ℕ, ◌≡◌, ◌↔◌, ◌⊎◌, inl, inr, refl, true, false, ◌&&◌, ◌||◌, [], ◌∷◌, ◌++◌, arith, ◌==◌, Bool-cases,
}
use neural_sgdb.Prelude.Assoc.{Pairs}
use neural_sgdb.Crdt.{
  CrdtMemorySync, conflict, adopt, apply_remote_version, has_version, has_other_state,
}
use neural_sgdb.Crdt.Apply.{apply_cases}

pub has_version-append :
    (s t : Pairs) (n v : ℕ) → has_version (s ++ t) n v ≡ (has_version s n v || has_version t n v)
unfolding has_version
has_version-append [] t n v = refl
has_version-append ((m, k) ∷ s) t n v = ground (arith, has_version-append s t n v)

has_version-one : (n v m k : ℕ) → has_version ((n, v) ∷ []) m k ≡ (n == m && v == k || false)
unfolding has_version
has_version-one n v m k = refl

conflicts-adopt :
    (s : CrdtMemorySync) (node v n k : ℕ)
    → (has_version (adopt s node v).0.conflicts n k ≡ true) ↔ (
        (has_version s.conflicts n k ≡ true)
        ⊎ (((adopt s node v).1 ≡ conflict) × (node ≡ n) × (v ≡ k)))
unfolding adopt
conflicts-adopt s node v n k =
    let e = has_version-append s.conflicts ((node, v) ∷ []) n k in
    let f = has_version-one node v n k in
    elim (Bool-cases (has_other_state s node)) [
      | inr alone ↦ rw alone (λ h. inl h, λ h. ground arith)
      | inl beside ↦ elim (Bool-cases (has_version s.conflicts node v)) [
        | inl old ↦ rw (beside, old) (λ h. inl h, λ h. ground (arith, old))
        | inr new ↦ rw (beside, new) (λ h. ground (arith, e, f), λ h. ground (arith, e, f))
      ]
    ]

-- A packet loses no conflict that was preserved, and preserves its own version exactly where it
-- answers `conflict`.
pub conflicts-apply_remote_version :
    (s : CrdtMemorySync) (node v n k : ℕ)
    → (has_version (apply_remote_version s node v).0.conflicts n k ≡ true) ↔ (
        (has_version s.conflicts n k ≡ true)
        ⊎ (((apply_remote_version s node v).1 ≡ conflict) × (node ≡ n) × (v ≡ k)))
conflicts-apply_remote_version s node v n k = elim (apply_cases s node v) [
  | inl (new, _, _) ↦ rw new (conflicts-adopt s node v n k)
  | inr (same, kept) ↦
      rw same (λ h. inl h, elim [ inl old ↦ old | inr (c, _, _) ↦ absurd (kept c) ])
]
