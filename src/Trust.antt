-- ===== src/Trust.antt =====
-- `TrustStore` of src/trust.rs: the bounded registry of peers. An identity and a capability are
-- texts, lists of their bytes.
pub mod Laws
mod Runs
use neural_sgdb.Prelude.{
  ℕ, Bool, true, false, ◌&&◌, Option, none, some, List, [], ◌∷◌, ◌++◌, length, ltb, leb, ◌==◌,
  if◌then◌else◌,
}

pub data AuthStatus : Type 0 where
  unauthenticated authenticated revoked : AuthStatus

pub data TrustLevel : Type 0 where
  untrusted trusted highly_trusted : TrustLevel

pub record Peer : Type 0 where
  pub node_id : ℕ
  pub identity : List ℕ
  pub auth : AuthStatus
  pub trust : TrustLevel
  pub capabilities : List (List ℕ)

pub record TrustStore : Type 0 where
  pub peers : List Peer
  pub max_peers : ℕ

abbrev pub default_max_peers : ℕ
default_max_peers = 64

abbrev pub new_store : TrustStore
new_store = record { peers = []; max_peers = default_max_peers }

-- The place of a level in the derived order.
unfoldable pub rank : TrustLevel → ℕ
rank untrusted = 0
rank trusted = 1
rank highly_trusted = 2

unfoldable pub is_authenticated : AuthStatus → Bool
is_authenticated authenticated = true
is_authenticated _ = false

-- `iter().find(|p| p.node_id == node_id)`
unfoldable pub find_peer : List Peer → ℕ → Option Peer
find_peer [] n = none
find_peer (p ∷ ps) n = if p.node_id == n then some p else find_peer ps n

-- `iter_mut().find(..)` and a change of the peer that it finds; `none` if there is none.
unfoldable pub change_peer : (Peer → Peer) → List Peer → ℕ → Option (List Peer)
change_peer f [] n = none
change_peer f (p ∷ ps) n =
    if p.node_id == n
    then some (f p ∷ ps)
    else elim (change_peer f ps n) [ none ↦ none | some qs ↦ some (p ∷ qs) ]

unfoldable pub upsert_peer : TrustStore → Peer → TrustStore × Bool
upsert_peer s peer = elim (change_peer (λ p. peer) s.peers peer.node_id) [
  | some ps ↦ (record s { peers = ps }, true)
  | none ↦
      if leb s.max_peers (length s.peers)
      then (s, false)
      else (record s { peers = s.peers ++ (peer ∷ []) }, true)
]

unfoldable pub get_peer : TrustStore → ℕ → Option Peer
get_peer s n = find_peer s.peers n

-- `p.auth == Authenticated && p.trust >= min`
unfoldable pub passes : TrustLevel → Peer → Bool
passes least p = is_authenticated p.auth && leb (rank least) (rank p.trust)

unfoldable pub trusted_of : TrustLevel → List Peer → List Peer
trusted_of least [] = []
trusted_of least (p ∷ ps) = if passes least p then p ∷ trusted_of least ps else trusted_of least ps

unfoldable pub trusted_peers : TrustStore → TrustLevel → List Peer
trusted_peers s least = trusted_of least s.peers

unfoldable pub is_trusted : TrustStore → ℕ → TrustLevel → Bool
is_trusted s n least = elim (get_peer s n) [ none ↦ false | some p ↦ passes least p ]

unfoldable pub revoke : TrustStore → ℕ → TrustStore
revoke s n = elim (change_peer (λ p. record p { auth = revoked }) s.peers n) [
  | none ↦ s
  | some ps ↦ record s { peers = ps }
]

unfoldable pub set_trust : TrustStore → ℕ → TrustLevel → TrustStore × Bool
set_trust s n level = elim (change_peer (λ p. record p { trust = level }) s.peers n) [
  | none ↦ (s, false)
  | some ps ↦ (record s { peers = ps }, true)
]
