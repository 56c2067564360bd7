-- ===== src/Router/Registry/Tests.antt =====
-- Runs of the registry of src/mycellm/router/registry.py, and its theorems at these inputs.
use mycellm.Prelude.{◌≡◌, refl, String, none, some, List, [], ◌∷◌, ◌++◌, map, any, All}
use mycellm.Router.Registry.{
  PeerEntry, new_registry, Change, registers, unregisters, apply_changes, get_peer, is_peer,
  peers_for_model,
}
use mycellm.Router.Registry.Consistency.{Indexed, apply_changes-Indexed}
use mycellm.Router.Registry.Isolation.{found_to, may_serve, peers_for_model_exact}
use mycellm.Router.Samples.{arrivals, two_peers}

program : Unit {0}
unfolding apply_changes peers_for_model get_peer two_peers
program = tt

-- A requester at home is offered the peer at home only.
at_home :
    map (λ (e : PeerEntry). e.peer_id) (peers_for_model "qwen" ("home" ∷ []) two_peers) ≡ "p1" ∷ []
unfolding program
at_home = refl

anywhere :
    map (λ (e : PeerEntry). e.peer_id) (peers_for_model "qwen" [] two_peers) ≡ "p1" ∷ "p2" ∷ []
unfolding program
anywhere = refl

-- The first peer moves its models away, and the second leaves.
abbrev moves : List Change
moves =
    arrivals
    ++ registers "p1" 30 (record {
      connection = none;
      capabilities = some (record { models = []; est_tok_s = 0 });
      addresses = [];
      network_ids = none;
    })
      ∷ unregisters "p2"
      ∷ []

nobody_left : (apply_changes moves new_registry).index "qwen" ≡ []
unfolding program
nobody_left = refl

apply_changes-Indexed_example : Indexed (apply_changes moves new_registry)
apply_changes-Indexed_example = apply_changes-Indexed moves

two_peers-Indexed : Indexed two_peers
two_peers-Indexed = unfold two_peers in apply_changes-Indexed arrivals

peers_for_model_exact_example :
    ((id : String)
      → any (is_peer id) (peers_for_model "qwen" ("home" ∷ []) two_peers)
        ≡ found_to (may_serve "qwen" ("home" ∷ [])) (get_peer id two_peers.peers))
    × All
        (λ e. get_peer e.peer_id two_peers.peers ≡ some e)
        (peers_for_model "qwen" ("home" ∷ []) two_peers)
peers_for_model_exact_example =
    peers_for_model_exact "qwen" ("home" ∷ []) two_peers two_peers-Indexed
