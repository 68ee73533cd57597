-- ===== src/Crdt/Runs.antt =====
-- Runs of the sync operations, and their theorems at concrete states.
use neural_sgdb.Prelude.{
  ℕ, ◌<◌, ◌≡◌, ◌↔◌, ◌⊎◌, refl, true, false, some, List, [], ◌∷◌, ◌++◌, arith, max,
}
use neural_sgdb.Prelude.Assoc.{Pairs, find, or_zero}
use neural_sgdb.Crdt.{
  CrdtMemorySync, applied, conflict, announce, has_version, apply_remote_version, receive,
  missing_of, insert_version, sort_versions, missing_after, Transport, too_soon, send_pending,
  publish, sync, needs_delta, any_behind,
}
use neural_sgdb.Crdt.Apply.{known, IsWf, KnowsOther, new_version_iff}
use neural_sgdb.Crdt.Conflicts.{conflicts-apply_remote_version}
use neural_sgdb.Crdt.Gossip.{receive_converges, missing_after_suffices}
use neural_sgdb.Crdt.Sync.{sync_drops_pending}

-- Node 1 wrote three times and knows node 2; node 2 knows nodes 1 and 3.
abbrev here : CrdtMemorySync
here = record {
  node_id = 1;
  local_version = 3;
  own_writes = 3;
  node_versions = (2, 5) ∷ [];
  conflicts = [];
  pending = 2 ∷ 3 ∷ [];
  last_sync_at = some 1000;
  active = true;
}

abbrev there : CrdtMemorySync
there = record {
  node_id = 2;
  local_version = 6;
  own_writes = 6;
  node_versions = (1, 2) ∷ (3, 4) ∷ [];
  conflicts = [];
  pending = [];
  last_sync_at = some 1000;
  active = true;
}

here-IsWf : IsWf here
unfolding find
here-IsWf = record { distinct = (refl, tt); not_self = refl }

there-IsWf : IsWf there
unfolding find
there-IsWf = record { distinct = (refl, (refl, tt)); not_self = refl }

-- A medium that holds what is to be received and what was sent, and sends all.
abbrev Medium : Type 0
Medium = Pairs × List ℕ

abbrev medium : Transport Medium
medium = record {
  send_crdt = λ t. λ n. λ v. ((t.0, t.1 ++ (v ∷ [])), true);
  recv_crdt = λ t. (([], t.1), t.0);
  send_delta = λ t. λ n. λ v. λ b. ((t.0, t.1 ++ (v ∷ [])), true);
}

missing_run : missing_after there (announce here) ≡ (2, 6) ∷ (3, 4) ∷ []
unfolding missing_after missing_of announce sort_versions insert_version find
missing_run = refl

same_packets :
    (n v : ℕ)
    → has_version ((2, 6) ∷ (3, 1) ∷ []) n v ≡ has_version ((3, 1) ∷ (2, 6) ∷ (2, 6) ∷ []) n v
unfolding has_version
same_packets n v = ground arith

receive_converges_example :
    known (receive here ((2, 6) ∷ (3, 1) ∷ [])) 2
    ≡ known (receive here ((3, 1) ∷ (2, 6) ∷ (2, 6) ∷ [])) 2
receive_converges_example =
    receive_converges here ((2, 6) ∷ (3, 1) ∷ []) ((3, 1) ∷ (2, 6) ∷ (2, 6) ∷ []) 2 same_packets
      (omega arith)

missing_after_suffices_example :
    known (receive there (missing_after here (announce there))) 1
    ≡ max (known there 1) (or_zero (find (announce here) 1))
missing_after_suffices_example = missing_after_suffices here there 1 here-IsWf (omega arith)

new_version_iff_example :
    (((apply_remote_version here 2 6).1 ≡ conflict) ↔ ((0 < 3) ⊎ KnowsOther here 2))
    × (((apply_remote_version here 2 6).1 ≡ applied) ↔ ¬ ((0 < 3) ⊎ KnowsOther here 2))
unfolding find
new_version_iff_example = new_version_iff here 2 6 here-IsWf (omega arith) (omega arith)

conflicts-apply_remote_version_example :
    (has_version (apply_remote_version here 2 6).0.conflicts 2 6 ≡ true) ↔ (
      (has_version [] 2 6 ≡ true)
      ⊎ (((apply_remote_version here 2 6).1 ≡ conflict) × ◌≡◌ {A = ℕ} 2 2 × ◌≡◌ {A = ℕ} 6 6))
conflicts-apply_remote_version_example = conflicts-apply_remote_version here 2 6 2 6

late : too_soon here.last_sync_at 1200 ≡ false
unfolding too_soon
late = refl

-- The node 2 is known only up to version 2, so the pending version 3 is sent.
abbrev lagging : CrdtMemorySync
lagging = record here { node_versions = (2, 2) ∷ [] }

lagging_run : (sync medium lagging 1200 ([], [])).1.1 ≡ 3 ∷ 3 ∷ []
unfolding sync receive too_soon publish send_pending needs_delta any_behind
lagging_run = refl

-- The node 2 has seen version 2 and 3 of node 1's, so only the heartbeat goes out.
sync_run : (sync medium here 1200 ([], [])).1.1 ≡ 3 ∷ []
unfolding sync receive too_soon publish send_pending needs_delta any_behind
sync_run = refl

sync_drops_pending_example : (sync medium here 1200 ([], [])).0.pending ≡ []
unfolding receive
sync_drops_pending_example = sync_drops_pending medium here 1200 ([], []) late
