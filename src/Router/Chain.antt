-- ===== src/Router/Chain.antt =====
-- src/mycellm/router/chain.py: the candidates for a request, best first.
-- A score is a product of thousandths, halved once for each failure, so scores are compared exactly.
-- The health of a peer, where there is a checker, is its score in thousandths. The weighted random
-- choice is left out.
mod Ranking
mod Tests
use mycellm.Prelude.{
  ℕ, ◌+◌, ◌-◌, ◌*◌, ◌^◌, max, String, Option, none, some, Bool, true, false, ◌&&◌, List, [], ◌∷◌,
  map, filter, take, leb, ltb, negb, is_nil, if◌then◌else◌,
}
use mycellm.Prelude.Sort.{sort_by}
use mycellm.Router.Registry.{PeerConnection, PeerEntry, Registry, peers_for_model, connected_peers}

pub record Score : Type 0 where
  pub value : ℕ
  pub halvings : ℕ

pub record PeerTarget : Type 0 where
  pub peer_id : String
  pub entry : PeerEntry
  pub score : Score

unfoldable pub rtt_factor : Option PeerConnection → ℕ
rtt_factor none = 1000
rtt_factor (some c) = if ltb 0 c.avg_rtt then max 100 (1100 - c.avg_rtt) else 1000

unfoldable pub health_factor : Option (String → ℕ) → String → ℕ
health_factor none id = 1000
health_factor (some health) id = 500 + health id

unfoldable pub score_peer : Option (String → ℕ) → PeerEntry → Score
unfolding rtt_factor health_factor
score_peer health e = record {
  value =
      max e.capabilities.est_tok_s 1000 * rtt_factor e.connection * health_factor health e.peer_id;
  halvings = e.failure_count;
}

-- `x.score > y.score`
unfoldable pub beats : PeerTarget → PeerTarget → Bool
beats x y = ltb (y.score.value * 2 ^ x.score.halvings) (x.score.value * 2 ^ y.score.halvings)

unfoldable pub overloaded : PeerEntry → Bool
overloaded e = elim e.connection [ none ↦ false | some c ↦ leb c.max_concurrent c.active_requests ]

unfoldable pub target : Option (String → ℕ) → PeerEntry → PeerTarget
unfolding score_peer
target health e = record { peer_id = e.peer_id; entry = e; score = score_peer health e }

unfoldable pub route : Option (String → ℕ) → String → List String → Registry → List PeerTarget
unfolding overloaded target beats
route health model want r =
    sort_by beats
      (map (target health) (filter (λ e. negb (overloaded e)) (peers_for_model model want r)))

-- A relay counts half.
unfoldable pub relay : Option (String → ℕ) → PeerEntry → PeerTarget
unfolding target
relay health e =
    let t = target health e in
    record t { score = record (t.score) { halvings = t.score.halvings + 1 } }

abbrev pub can_relay : PeerEntry → Bool
can_relay e = elim e.connection [
  | none ↦ false
  | some c ↦ negb (leb c.max_concurrent c.active_requests)
]

unfoldable pub route_multihop : Option (String → ℕ) → String → ℕ → Registry → List PeerTarget
unfolding route relay beats connected_peers
route_multihop health model max_hops r =
    let direct = route health model [] r in
    if negb (is_nil direct)
    then direct
    else take max_hops (sort_by beats (map (relay health) (filter can_relay (connected_peers r))))
