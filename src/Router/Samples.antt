-- ===== src/Router/Samples.antt =====
-- Two peers that serve one model, on two networks, and the registry that holds them.
use mycellm.Prelude.{ℕ, String, some, false, List, [], ◌∷◌}
use mycellm.Router.Registry.{
  PeerConnection, ModelCapability, Registration, Registry, routable, Change, registers,
  new_registry, apply_changes,
}

abbrev pub connection : ℕ → PeerConnection
connection active = record {
  state = routable;
  closed = some false;
  active_requests = active;
  max_concurrent = 4;
  avg_rtt = 0;
}

abbrev pub capability : String → ModelCapability
capability scope = record { name = "qwen"; scope = scope; visible_networks = [] }

abbrev pub joins : String → ℕ → ℕ → Registration
joins network speed active = record {
  connection = some (connection active);
  capabilities = some (record { models = capability "home" ∷ []; est_tok_s = speed });
  addresses = [];
  network_ids = some (network ∷ []);
}

abbrev pub arrivals : List Change
arrivals = registers "p1" 10 (joins "home" 5000 0) ∷ registers "p2" 20 (joins "office" 9000 0) ∷ []

unfoldable pub two_peers : Registry
unfolding apply_changes
two_peers = apply_changes arrivals new_registry
