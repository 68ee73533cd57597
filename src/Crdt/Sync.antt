-- ===== src/Crdt/Sync.antt =====
-- `sync`, `record_change` and `restore` of src/crdt.rs: rate limit, pending deltas, durable state.
use neural_sgdb.Prelude.{
  ℕ, ◌+◌, ◌%◌, ◌^◌, ◌<◌, ◌≡◌, ◌≢◌, ◌↔◌, ◌⊎◌, Bool, true, false, some, List, [], ◌∷◌, arith,
}
use neural_sgdb.Prelude.Bytes.{IsU64}
use neural_sgdb.Prelude.Assoc.{Pairs}
use neural_sgdb.Crdt.{
  CrdtMemorySync, durable_state, restore, receive, Transport, too_soon, publish, sync,
}

-- Within 200 ticks of the last sync the limit holds, from then on it does not, also where the u64
-- clock wraps between.
pub too_soon_iff :
    (last elapsed : ℕ)
    → IsU64 last
    → IsU64 elapsed
    → (too_soon (some last) ((last + elapsed) % 2 ^ 64) ≡ true) ↔ (elapsed < 200)
unfolding too_soon
too_soon_iff last elapsed hl he = ground arith

-- Some peer of the list is known only up to a version below `v`.
abbrev pub Behind : Pairs → ℕ → Type 0
Behind [] v = ⊥
Behind ((peer, known) ∷ peers) v = (known < v) ⊎ Behind peers v

-- A version that is to be sent: a known peer lacks it, or no peer is known.
abbrev pub Wanted : Pairs → ℕ → Type 0
Wanted peers v = (peers ≡ []) ⊎ Behind peers v

-- The second list has the versions of the first that are wanted, in their order, and no other.
pub data Selected (peers : Pairs) : List ℕ → List ℕ → Type 0 where
  nothing : Selected peers [] []
  chosen :
      (v : ℕ) (vs ws : List ℕ)
      → Wanted peers v
      → Selected peers vs ws
      → Selected peers (v ∷ vs) (v ∷ ws)
  passed :
      (v : ℕ) (vs ws : List ℕ)
      → ¬ (Wanted peers v)
      → Selected peers vs ws
      → Selected peers (v ∷ vs) ws

module _ {T : Type 0} (tr : Transport T) where
  -- Every delta is sent.
  abbrev pub SendsDeltas : Type 0
  SendsDeltas = (t : T) (n v : ℕ) → (tr.send_delta t n v []).1 ≡ true

  -- The medium after the deltas have been sent in turn.
  abbrev pub sent_deltas : ℕ → T → List ℕ → T
  sent_deltas node t [] = t
  sent_deltas node t (v ∷ vs) = sent_deltas node (tr.send_delta t node v []).0 vs

  -- The state that `sync` leaves behind a publication.
  abbrev pub published : CrdtMemorySync → ℕ → CrdtMemorySync
  published s now = record s { last_sync_at = some now; active = true; pending = [] }

  -- The heartbeat behind the deltas that were sent.
  abbrev pub heartbeat : CrdtMemorySync → T → List ℕ → T × Bool
  heartbeat s t ws = tr.send_crdt (sent_deltas s.node_id t ws) s.node_id s.local_version

  pending-publish : (s : CrdtMemorySync) (now : ℕ) (t : T) → (publish tr s now t).0.pending ≡ []
  unfolding publish
  pending-publish s now t = ground arith

  -- Outside the interval `sync` leaves no pending delta, whether or not the medium sent them: the
  -- deltas of a failed send are not sent again.
  pub sync_drops_pending :
      (s : CrdtMemorySync) (now : ℕ) (t : T)
      → too_soon (receive s (tr.recv_crdt t).1).last_sync_at now ≡ false
      → (sync tr s now t).0.pending ≡ []
  unfolding sync
  sync_drops_pending s now t late =
      rw late (pending-publish (receive s (tr.recv_crdt t).1) now (tr.recv_crdt t).0)

  -- Within the interval `sync` only takes up what came in.
  pub sync_waits :
      (s : CrdtMemorySync) (now : ℕ) (t : T)
      → too_soon (receive s (tr.recv_crdt t).1).last_sync_at now ≡ true
      → sync tr s now t ≡ (receive s (tr.recv_crdt t).1, (tr.recv_crdt t).0, true)
  unfolding sync
  sync_waits s now t early = rw early

-- A node that is restored from its own durable state has the counters and the known versions back;
-- the state of another node is refused and changes nothing.
pub restore_lem :
    (s t : CrdtMemorySync)
    → (s.node_id ≡ t.node_id
        → ((restore t (durable_state s)).1 ≡ true)
          × (durable_state (restore t (durable_state s)).0 ≡ durable_state s))
      × (s.node_id ≢ t.node_id → restore t (durable_state s) ≡ (t, false))
unfolding restore durable_state
restore_lem s t = ground arith
