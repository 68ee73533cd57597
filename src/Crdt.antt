-- ===== src/Crdt.antt =====
-- `CrdtMemorySync` of src/crdt.rs: which versions of which nodes a node knows, and how it takes up
-- and publishes versions. A `MemoryVersion` is the pair of its node and its version.
mod Runs
pub mod Apply
pub mod Sync
pub mod Gossip
pub mod Conflicts
use neural_sgdb.Prelude.{
  ℕ, ◌+◌, ◌-◌, ◌%◌, ◌^◌, Bool, true, false, not, ◌&&◌, ◌||◌, Option, none, some, List, [], ◌∷◌,
  ◌++◌, length, ltb, leb, ◌==◌, if◌then◌else◌,
}
use neural_sgdb.Prelude.Assoc.{Pairs, find, or_zero}
use neural_sgdb.Clock.{saturating_add}
use neural_sgdb.Layer.{
  MemoryLayer, l0_sensory, l1_working, l2_episodic_short, l3_episodic_long, l4_semantic,
  l5_procedural, l6_reserved, l7_identity,
}

abbrev pub sync_interval : ℕ
sync_interval = 200

pub data MergeVerdict : Type 0 where
  self_packet stale duplicate applied conflict rejected rejected_by_authority : MergeVerdict

pub data MergePolicy : Type 0 where
  local_only local_working multi_value_register causal_lww_with_history : MergePolicy
  controlled_lww reserved : MergePolicy

-- `MergePolicy::for_layer`
unfoldable pub for_layer : MemoryLayer → MergePolicy
for_layer l0_sensory = local_only
for_layer l1_working = local_working
for_layer l2_episodic_short = multi_value_register
for_layer l3_episodic_long = multi_value_register
for_layer l4_semantic = causal_lww_with_history
for_layer l5_procedural = controlled_lww
for_layer l7_identity = controlled_lww
for_layer l6_reserved = reserved

-- `MergePolicy::accepts_remote`
unfoldable pub accepts_remote : MergePolicy → Bool
accepts_remote local_only = false
accepts_remote local_working = false
accepts_remote reserved = false
accepts_remote _ = true

pub record CrdtMemorySync : Type 0 where
  pub node_id : ℕ
  pub local_version : ℕ
  pub own_writes : ℕ
  pub node_versions : Pairs
  pub conflicts : Pairs
  pub pending : List ℕ
  pub last_sync_at : Option ℕ
  pub active : Bool

-- `CrdtMemorySync::new`
abbrev pub new_sync : ℕ → CrdtMemorySync
new_sync node = record {
  node_id = node;
  local_version = 0;
  own_writes = 0;
  node_versions = [];
  conflicts = [];
  pending = [];
  last_sync_at = none;
  active = false;
}

-- `announce`, and `known_clock`, which is the same.
unfoldable pub announce : CrdtMemorySync → Pairs
announce s = (s.node_id, s.local_version) ∷ s.node_versions

pub record CrdtState : Type 0 where
  pub node_id : ℕ
  pub local_version : ℕ
  pub own_writes : ℕ
  pub node_versions : Pairs

-- `state`
unfoldable pub durable_state : CrdtMemorySync → CrdtState
durable_state s = record {
  node_id = s.node_id;
  local_version = s.local_version;
  own_writes = s.own_writes;
  node_versions = s.node_versions;
}

unfoldable pub restore : CrdtMemorySync → CrdtState → CrdtMemorySync × Bool
restore s d = if not (d.node_id == s.node_id) then (s, false) else (
  record s {
    local_version = d.local_version;
    own_writes = d.own_writes;
    node_versions = d.node_versions;
  },
  true,
)

unfoldable pub record_change : CrdtMemorySync → CrdtMemorySync
record_change s =
    let v = saturating_add s.local_version 1 in
    record s {
      local_version = v;
      own_writes = saturating_add s.own_writes 1;
      pending = s.pending ++ (v ∷ []);
    }

-- `upsert_peer_version`, on the list
unfoldable pub upsert : Pairs → ℕ → ℕ → Pairs
upsert [] n v = (n, v) ∷ []
upsert ((m, k) ∷ s) n v = if m == n then (m, v) ∷ s else (m, k) ∷ upsert s n v

-- `conflicts.iter().any(..)`
unfoldable pub has_version : Pairs → ℕ → ℕ → Bool
has_version [] n v = false
has_version ((m, k) ∷ s) n v = (m == n && k == v) || has_version s n v

unfoldable pub knows_node : Pairs → ℕ → Bool
knows_node [] n = false
knows_node ((m, k) ∷ s) n = m == n || knows_node s n

-- The state that makes a new version of `node` concurrent.
unfoldable pub has_other_state : CrdtMemorySync → ℕ → Bool
unfolding knows_node
has_other_state s node =
    ltb 0 s.own_writes
    || (ltb 1 (length s.node_versions)
        || (length s.node_versions == 1 && not (knows_node s.node_versions node)))

-- `apply_remote_version` past its early returns.
unfoldable pub adopt : CrdtMemorySync → ℕ → ℕ → CrdtMemorySync × MergeVerdict
adopt s node v =
    let s' = record s { node_versions = upsert s.node_versions node v } in
    if has_other_state s node
    then (
      record s' {
        conflicts =
            if has_version s.conflicts node v then s.conflicts else s.conflicts ++ ((node, v) ∷ []);
      },
      conflict,
    )
    else (s', applied)

unfoldable pub apply_remote_version : CrdtMemorySync → ℕ → ℕ → CrdtMemorySync × MergeVerdict
apply_remote_version s node v =
    if node == s.node_id
    then (s, self_packet)
    else if v == 0
    then (s, duplicate)
    else elim (find s.node_versions node) [
      | none ↦ adopt s node v
      | some k ↦ if ltb v k then (s, stale) else if v == k then (s, duplicate) else adopt s node v
    ]

unfoldable pub apply_remote_version_with_policy :
    CrdtMemorySync → ℕ → ℕ → MergePolicy → CrdtMemorySync × MergeVerdict
apply_remote_version_with_policy s node v policy =
    if not (accepts_remote policy) then (s, rejected) else apply_remote_version s node v

-- The receiving loop of `sync`.
unfoldable pub receive : CrdtMemorySync → Pairs → CrdtMemorySync
receive s [] = s
receive s ((node, v) ∷ rest) = receive (apply_remote_version s node v).0 rest

-- The loop of `missing_after` over `node_versions`.
unfoldable pub missing_of : Pairs → Pairs → Pairs
unfolding find
missing_of peer [] = []
missing_of peer ((n, k) ∷ s) =
    if ltb (or_zero (find peer n)) k then (n, k) ∷ missing_of peer s else missing_of peer s

-- `sort_by_key(|v| (v.node_id, v.version))`, a stable sort.
unfoldable pub insert_version : ℕ × ℕ → Pairs → Pairs
insert_version p [] = p ∷ []
insert_version p (q ∷ s) =
    if ltb q.0 p.0 || (q.0 == p.0 && ltb q.1 p.1) then q ∷ insert_version p s else p ∷ q ∷ s

unfoldable pub sort_versions : Pairs → Pairs
unfolding insert_version
sort_versions [] = []
sort_versions (p ∷ s) = insert_version p (sort_versions s)

unfoldable pub missing_after : CrdtMemorySync → Pairs → Pairs
missing_after s peer = sort_versions (
    missing_of peer s.node_versions
    ++ (if ltb (or_zero (find peer s.node_id)) s.local_version
        then (s.node_id, s.local_version) ∷ []
        else []))

-- What `sync` asks of the medium. A send says whether it succeeded.
pub record Transport (T : Type 0) : Type 0 where
  pub send_crdt : T → ℕ → ℕ → T × Bool
  pub recv_crdt : T → T × Pairs
  pub send_delta : T → ℕ → ℕ → List ℕ → T × Bool

-- Whether some known peer has not seen version `v`.
unfoldable pub any_behind : Pairs → ℕ → Bool
any_behind [] v = false
any_behind ((n, k) ∷ s) v = ltb k v || any_behind s v

unfoldable pub needs_delta : Pairs → ℕ → Bool
unfolding any_behind
needs_delta [] v = true
needs_delta (p ∷ s) v = any_behind (p ∷ s) v

-- `now.wrapping_sub(last) < SYNC_INTERVAL`
unfoldable pub too_soon : Option ℕ → ℕ → Bool
too_soon none now = false
too_soon (some last) now = ltb ((now + 2 ^ 64 - last) % 2 ^ 64) sync_interval

module _ {T : Type 0} (tr : Transport T) where
  -- The sending loop; `false` is its early return by `?`.
  unfoldable pub send_pending : CrdtMemorySync → T → List ℕ → T × Bool
  unfolding needs_delta
  send_pending s t [] = (t, true)
  send_pending s t (v ∷ vs) = elim (needs_delta s.node_versions v) [
    | false ↦ send_pending s t vs
    | true ↦
        let (t', sent) = tr.send_delta t s.node_id v [] in
        elim sent [ false ↦ (t', false) | true ↦ send_pending s t' vs ]
  ]

  -- The sending half of `sync`, behind the rate limit.
  unfoldable pub publish : CrdtMemorySync → ℕ → T → CrdtMemorySync × T × Bool
  publish s now t =
      let s' = record s { last_sync_at = some now; active = true; pending = [] } in
      let (t', sent) = send_pending s' t s.pending in
      elim sent [
        | false ↦ (s', t', false)
        | true ↦ let r = tr.send_crdt t' s.node_id s.local_version in (s', r.0, r.1)
      ]

  unfoldable pub sync : CrdtMemorySync → ℕ → T → CrdtMemorySync × T × Bool
  sync s now t =
      let r = tr.recv_crdt t in
      let s' = receive s r.1 in
      if too_soon s'.last_sync_at now then (s', r.0, true) else publish s' now r.0
