-- ===== src/Crdt/Gossip.antt =====
-- What nodes know after exchanging packets: the receiving loop of `sync`, `announce` and
-- `missing_after` of src/crdt.rs.
use neural_sgdb.Prelude.{
  ℕ, ◌≤◌, ◌<◌, ◌≡◌, ◌≢◌, inl, inr, refl, sym, ◌∙◌, true, none, [], ◌∷◌, ◌++◌, arith, ltb, ◌==◌,
  if◌then◌else◌, max, Bool-cases,
}
use neural_sgdb.Prelude.Assoc.{Pairs, find, or_zero, Distinct}
use neural_sgdb.Crdt.{
  CrdtMemorySync, apply_remote_version, receive, announce, has_version, missing_of, insert_version,
  sort_versions, missing_after,
}
use neural_sgdb.Crdt.Apply.{
  known, IsWf, apply_cases, apply_remote_version-IsWf, known-apply_remote_version, node_id-adopt,
}

-- The newest version of a node among some packets, 0 if there is none.
unfoldable pub best : Pairs → ℕ → ℕ
best [] m = 0
best ((n, v) ∷ ps) m = if n == m then max v (best ps m) else best ps m

node_id-apply :
    (s : CrdtMemorySync) (node v : ℕ) → (apply_remote_version s node v).0.node_id ≡ s.node_id
node_id-apply s node v = elim (apply_cases s node v) [
  | inl (new, _, _) ↦ rw new (node_id-adopt s node v)
  | inr (same, _) ↦ rw same
]

-- After any packets a node knows of each peer the newest of what it knew and what came.
pub known-receive :
    (s : CrdtMemorySync) (ps : Pairs) (m : ℕ)
    → m ≢ s.node_id
    → known (receive s ps) m ≡ max (known s m) (best ps m)
unfolding receive best
known-receive s [] m h = omega arith
known-receive s ((n, v) ∷ ps) m h =
    let s' = (apply_remote_version s n v).0 in
    let e = node_id-apply s n v in
    let ih = known-receive s' ps m (rw e h) in
    ground (arith, ih, known-apply_remote_version s n v m)

receive-IsWf : (s : CrdtMemorySync) (ps : Pairs) → IsWf s → IsWf (receive s ps)
unfolding receive
receive-IsWf s [] wf = wf
receive-IsWf s ((n, v) ∷ ps) wf =
    receive-IsWf (apply_remote_version s n v).0 ps (apply_remote_version-IsWf s n v wf)

le-best : (ps : Pairs) (n v : ℕ) → has_version ps n v ≡ true → v ≤ best ps n
unfolding has_version best
le-best [] n v h = cc
le-best ((m, k) ∷ ps) n v h = ground (arith, le-best ps n v)

best_sent : (ps : Pairs) (n : ℕ) → 0 < best ps n → has_version ps n (best ps n) ≡ true
unfolding has_version best
best_sent [] n h = absurd (omega arith)
best_sent ((m, k) ∷ ps) n h = ground (arith, best_sent ps n)

best_mono :
    (ps qs : Pairs) (m : ℕ)
    → ((v : ℕ) → has_version ps m v ≡ true → has_version qs m v ≡ true)
    → best ps m ≤ best qs m
best_mono ps qs m h = elim (Bool-cases (ltb 0 (best ps m))) [
  | inl sent ↦ le-best qs m (best ps m) (h (best ps m) (best_sent ps m (ground arith)))
  | inr nothing ↦ ground arith
]

-- Two deliveries of the same packets, in any order and with any repetition, leave a node with the
-- same knowledge of every node but itself.
pub receive_converges :
    (s : CrdtMemorySync) (ps qs : Pairs) (m : ℕ)
    → ((n v : ℕ) → has_version ps n v ≡ has_version qs n v)
    → m ≢ s.node_id
    → known (receive s ps) m ≡ known (receive s qs) m
receive_converges s ps qs m same h =
    let le = best_mono ps qs m (λ v e. sym (same m v) ∙ e) in
    let ge = best_mono qs ps m (λ v e. same m v ∙ e) in
    omega (arith, known-receive s ps m h, known-receive s qs m h, le, ge)

best-append : (ps qs : Pairs) (m : ℕ) → best (ps ++ qs) m ≡ max (best ps m) (best qs m)
unfolding best
best-append [] qs m = omega arith
best-append ((n, v) ∷ ps) qs m = ground (arith, best-append ps qs m)

best-insert_version :
    (p : ℕ × ℕ) (ps : Pairs) (m : ℕ) → best (insert_version p ps) m ≡ best (p ∷ ps) m
unfolding best insert_version
best-insert_version p [] m = refl
best-insert_version p (q ∷ ps) m = ground (arith, best-insert_version p ps m)

best-sort_versions : (ps : Pairs) (m : ℕ) → best (sort_versions ps) m ≡ best ps m
unfolding best sort_versions
best-sort_versions [] m = refl
best-sort_versions (p ∷ ps) m =
    ground (arith, best-insert_version p (sort_versions ps) m, best-sort_versions ps m)

best-missing_of :
    (peer s : Pairs) (m : ℕ)
    → Distinct s
    → best (missing_of peer s) m
      ≡ (if ltb (or_zero (find peer m)) (or_zero (find s m)) then or_zero (find s m) else 0)
unfolding best missing_of find
best-missing_of peer [] m d = ground arith
best-missing_of peer ((n, k) ∷ s) m d =
    let ih = best-missing_of peer s m d.1 in
    elim (Bool-cases (n == m)) [
      | inr other ↦ ground (arith, ih)
      | inl same ↦
          let e : n ≡ m = ground arith in
          let absent : find s m ≡ none = rw (← e) d.0 in
          let f : find peer n ≡ find peer m = rw e in ground (arith, ih, absent, f)
    ]

best-missing_after :
    (a : CrdtMemorySync) (peer : Pairs) (n : ℕ)
    → IsWf a
    → best (missing_after a peer) n ≡ (
        if ltb (or_zero (find peer n)) (or_zero (find (announce a) n))
        then or_zero (find (announce a) n)
        else 0)
unfolding missing_after announce best find
best-missing_after a peer n wa =
    let own : Pairs =
      if ltb (or_zero (find peer a.node_id)) a.local_version
      then (a.node_id, a.local_version) ∷ []
      else [] in
    let e = best-sort_versions (missing_of peer a.node_versions ++ own) n in
    let f = best-append (missing_of peer a.node_versions) own n in
    let g = best-missing_of peer a.node_versions n wa.distinct in
    elim (Bool-cases (a.node_id == n)) [
      | inr other ↦ ground (arith, e, f, g)
      | inl same ↦
          let i : a.node_id ≡ n = ground arith in
          let absent : find a.node_versions n ≡ none = rw (← i) wa.not_self in
          let p : find peer a.node_id ≡ find peer n = rw i in ground (arith, e, f, g, absent, p)
    ]

-- Where a node that knows each peer once sends another the versions that it lacks, the other then
-- knows, of every node but itself, the newest version that either side knew.
pub missing_after_suffices :
    (a b : CrdtMemorySync) (n : ℕ)
    → IsWf a
    → n ≢ b.node_id
    → known (receive b (missing_after a (announce b))) n
      ≡ max (known b n) (or_zero (find (announce a) n))
unfolding announce find
missing_after_suffices a b n wa h =
    let e = known-receive b (missing_after a (announce b)) n h in
    let f = best-missing_after a (announce b) n wa in ground (arith, e, f)
