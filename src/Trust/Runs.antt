-- ===== src/Trust/Runs.antt =====
-- A registry of two peers, and its theorems there.
use neural_sgdb.Prelude.{◌≡◌, refl, false, [], ◌∷◌, ◌==◌, if◌then◌else◌}
use neural_sgdb.Prelude.Text.{codes}
use neural_sgdb.Trust.{
  Peer, TrustStore, authenticated, unauthenticated, trusted, highly_trusted, is_trusted, revoke,
  trusted_peers, trusted_of, passes, is_authenticated, rank,
}
use neural_sgdb.Trust.Laws.{is_trusted-revoke}

abbrev ana : Peer
ana = record {
  node_id = 1;
  identity = codes "ana";
  auth = authenticated;
  trust = highly_trusted;
  capabilities = [];
}

abbrev bob : Peer
bob = record {
  node_id = 2;
  identity = codes "bob";
  auth = unauthenticated;
  trust = trusted;
  capabilities = [];
}

-- It holds two peers at most.
abbrev registry : TrustStore
registry = record { peers = ana ∷ bob ∷ []; max_peers = 2 }

only_ana : trusted_peers registry trusted ≡ ana ∷ []
unfolding trusted_peers trusted_of passes is_authenticated rank
only_ana = refl

is_trusted-revoke_example :
    is_trusted (revoke registry 2) 1 trusted
    ≡ (if 2 == 1 then false else is_trusted registry 1 trusted)
is_trusted-revoke_example = is_trusted-revoke registry 2 1 trusted
