-- ===== src/Trust/Laws.antt =====
-- The registry of peers of src/trust.rs: what its operations do to lookups and to trust.
use neural_sgdb.Prelude.{
  ℕ, ◌≤◌, ◌≡◌, refl, true, false, Option, none, some, List, [], ◌∷◌, ◌++◌, arith, length,
  length-append, ◌==◌, if◌then◌else◌, Bool-cases, Option-cases, inl, inr,
}
use neural_sgdb.Trust.{
  Peer, TrustStore, TrustLevel, revoked, find_peer, change_peer, upsert_peer, get_peer, passes,
  is_trusted, revoke, is_authenticated,
}

find-change_none :
    (f : Peer → Peer) (ps : List Peer) (n : ℕ) → change_peer f ps n ≡ none → find_peer ps n ≡ none
unfolding change_peer find_peer
find-change_none f [] n e = refl
find-change_none f (p ∷ ps) n e = elim (Option-cases (change_peer f ps n)) [
  | inl absent ↦ ground (arith, find-change_none f ps n absent)
  | inr (qs, found) ↦ ground arith
]

change_peer-none :
    (f : Peer → Peer) (ps : List Peer) (n : ℕ) → find_peer ps n ≡ none → change_peer f ps n ≡ none
unfolding change_peer find_peer
change_peer-none f [] n e = refl
change_peer-none f (p ∷ ps) n e = ground (arith, change_peer-none f ps n)

abbrev changed : (Peer → Peer) → Option Peer → Option Peer
changed f none = none
changed f (some p) = some (f p)

find-change_some :
    (f : Peer → Peer) (ps qs : List Peer) (n m : ℕ)
    → ((p : Peer) → p.node_id ≡ n → (f p).node_id ≡ n)
    → change_peer f ps n ≡ some qs
    → find_peer qs m ≡ (if n == m then changed f (find_peer ps n) else find_peer ps m)
unfolding change_peer find_peer
find-change_some f [] qs n m keeps e = cc
find-change_some f (p ∷ ps) qs n m keeps e = elim (Bool-cases (p.node_id == n)) [
  | inl here ↦ let same : p.node_id ≡ n = ground arith in let id = keeps p same in ground arith
  | inr there ↦ elim (Option-cases (change_peer f ps n)) [
    | inl absent ↦ ground arith
    | inr (rs, found) ↦ ground (arith, find-change_some f ps rs n m keeps found)
  ]
]

length-change :
    (f : Peer → Peer) (ps qs : List Peer) (n : ℕ)
    → change_peer f ps n ≡ some qs
    → length qs ≡ length ps
unfolding change_peer
length-change f [] qs n e = cc
length-change f (p ∷ ps) qs n e = elim (Option-cases (change_peer f ps n)) [
  | inl absent ↦ ground arith
  | inr (rs, found) ↦ ground (arith, length-change f ps rs n found)
]

find_peer-append :
    (ps : List Peer) (peer : Peer) (m : ℕ)
    → find_peer ps peer.node_id ≡ none
    → find_peer (ps ++ (peer ∷ [])) m ≡ (if peer.node_id == m then some peer else find_peer ps m)
unfolding find_peer
find_peer-append [] peer m e = refl
find_peer-append (p ∷ ps) peer m e = ground (arith, find_peer-append ps peer m)

-- A revoked peer is trusted at no level, and the trust in every other peer is as before.
pub is_trusted-revoke :
    (s : TrustStore) (n m : ℕ) (least : TrustLevel)
    → is_trusted (revoke s n) m least ≡ (if n == m then false else is_trusted s m least)
unfolding is_trusted revoke get_peer passes is_authenticated
is_trusted-revoke s n m least =
    elim (Option-cases (change_peer (λ p. record p { auth = revoked }) s.peers n)) [
      | inl absent ↦
          ground (arith, find-change_none (λ p. record p { auth = revoked }) s.peers n absent)
      | inr (qs, found) ↦ ground (
        arith,
        find-change_some (λ p. record p { auth = revoked }) s.peers qs n m (λ p. λ e. e) found,
      )
    ]

-- A registration keeps the registry within its bound. It is refused exactly if the registry is
-- full and does not know the node, and then changes nothing; else the node is found as registered,
-- and every other as before.
pub upsert_peer_lem :
    (s : TrustStore) (peer : Peer) (m : ℕ)
    → (length s.peers ≤ s.max_peers → length (upsert_peer s peer).0.peers ≤ s.max_peers)
      × ((upsert_peer s peer).1 ≡ false
          → (find_peer s.peers peer.node_id ≡ none)
            × (s.max_peers ≤ length s.peers)
            × ((upsert_peer s peer).0 ≡ s))
      × ((upsert_peer s peer).1 ≡ true
          → get_peer (upsert_peer s peer).0 m
            ≡ (if peer.node_id == m then some peer else get_peer s m))
unfolding upsert_peer get_peer
upsert_peer_lem s peer m = elim (Option-cases (change_peer (λ p. peer) s.peers peer.node_id)) [
  | inl absent ↦
      let gone = find-change_none (λ p. peer) s.peers peer.node_id absent in
      ground (arith, gone, length-append s.peers (peer ∷ []), find_peer-append s.peers peer m gone)
  | inr (qs, found) ↦
      let reads = find-change_some (λ p. peer) s.peers qs peer.node_id m (λ p. λ e. refl) found in
      elim (Option-cases (find_peer s.peers peer.node_id)) [
        | inl absent ↦ cc (change_peer-none (λ p. peer) s.peers peer.node_id absent)
        | inr (old, here) ↦
            ground (arith, reads, length-change (λ p. peer) s.peers qs peer.node_id found)
      ]
]
