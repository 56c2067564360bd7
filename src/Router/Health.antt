-- ===== src/Router/Health.antt =====
-- src/mycellm/router/health.py: periodic pings, and the peers that they mark as gone.
-- What a ping brings is an argument. Times and the activity log are left out, and the dict of metrics
-- is a function, with fresh metrics for a peer that has none. Delays are in thousandths of a second.
mod Threshold
mod Tests
use mycellm.Prelude.{
  ℕ, ◌+◌, ◌-◌, String, Option, none, some, Bool, true, false, ◌&&◌, List, [], ◌∷◌, ◌++◌, map,
  filter, drop, length, leb, ltb, ◌==◌, if◌then◌else◌,
}
use mycellm.Router.Registry.{
  PeerState, discovered, dialable, authenticated, routable, serving, disconnected, PeerEntry,
  Registry, is_peer, connected_peers,
}

pub record Metrics : Type 0 where
  pub rtt_samples : List ℕ
  pub success_history : List Bool
  pub consecutive_failures : ℕ

abbrev pub new_metrics : Metrics
new_metrics = record { rtt_samples = []; success_history = []; consecutive_failures = 0 }

-- `xs[-n:]`, where there are more than `n`.
unfoldable pub keep_last {ℓ} : {A : Type ℓ} → ℕ → List A → List A
keep_last n xs = if ltb n (length xs) then drop (length xs - n) xs else xs

unfoldable pub record_success : ℕ → Metrics → Metrics
unfolding keep_last
record_success rtt m = record m {
  rtt_samples = keep_last 10 (m.rtt_samples ++ rtt ∷ []);
  success_history = keep_last 20 (m.success_history ++ true ∷ []);
}

unfoldable pub record_failure : Metrics → Metrics
unfolding keep_last
record_failure m = record m { success_history = keep_last 20 (m.success_history ++ false ∷ []) }

-- A negative round trip is a ping that timed out.
pub data Ping : Type 0 where
  pong : ℕ → Ping
  missed broke : Ping

abbrev pub failure_threshold : ℕ
failure_threshold = 3

unfoldable pub note_miss : Metrics → PeerEntry → Metrics × PeerEntry
unfolding record_failure
note_miss m e =
    let failed = record_failure m in
    let misses = m.consecutive_failures + 1 in
    (
      record failed { consecutive_failures = misses },
      record e {
        failure_count = e.failure_count + 1;
        state = if leb failure_threshold misses then disconnected else e.state;
      },
    )

unfoldable pub check_peer : Ping → Metrics → PeerEntry → Metrics × PeerEntry
unfolding note_miss record_success
check_peer (pong rtt) m e = (
  record (record_success rtt m) { consecutive_failures = 0 },
  record e { state = routable; failure_count = 0 },
)
check_peer missed m e = note_miss m e
check_peer broke m e = note_miss m e

pub record Health : Type 0 where
  pub registry : Registry
  pub metrics : String → Metrics

abbrev pub is_disconnected : PeerState → Bool
is_disconnected disconnected = true
is_disconnected discovered = false
is_disconnected dialable = false
is_disconnected authenticated = false
is_disconnected routable = false
is_disconnected serving = false

abbrev pub has_connection : PeerEntry → Bool
has_connection e = elim e.connection [ none ↦ false | some c ↦ true ]

-- The peers of a round: those that are connected, then those that may come back.
unfoldable pub peers_to_check : Registry → List PeerEntry
unfolding connected_peers
peers_to_check r =
    connected_peers r ++ filter (λ e. is_disconnected e.state && has_connection e) r.peers

unfoldable pub check_entries : (String → Ping) → List PeerEntry → Health → Health
unfolding check_peer
check_entries ping [] h = h
check_entries ping (p ∷ ps) h =
    let checked = λ (e : PeerEntry). check_peer (ping p.peer_id) (h.metrics p.peer_id) e in
    let next : Health = record {
      registry = record (h.registry) {
        peers = map (λ e. if is_peer p.peer_id e then (checked e).1 else e) h.registry.peers;
      };
      metrics = λ id. if id == p.peer_id then (checked p).0 else h.metrics id;
    } in
    check_entries ping ps (if has_connection p then next else h)

unfoldable pub check_all : (String → Ping) → Health → Health
unfolding check_entries peers_to_check
check_all ping h = check_entries ping (peers_to_check h.registry) h
