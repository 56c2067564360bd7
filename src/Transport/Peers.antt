-- ===== src/Transport/Peers.antt =====
-- src/mycellm/transport/peer_manager.py: the outbound connections of a node.
-- A key "host:port" is the pair of both. What a dial and the heartbeats of a connection bring are
-- arguments. The entries that a connection adds to the registry and to the networks, time stamps and
-- the cancellation of a task are left out. Delays are in seconds.
mod Capacity
mod Persistence
mod Tests
use mycellm.Prelude.{
  ℕ, suc, ◌+◌, ◌*◌, ◌^◌, min, String, Bool, true, false, ◌&&◌, ◌||◌, List, [], ◌∷◌, ◌++◌, map, any,
  length, leb, eqb, negb, ◌==◌, if◌then◌else◌,
}

pub data ConnectionState : Type 0 where
  handshaking routable disconnected : ConnectionState

pub record ManagedPeer : Type 0 where
  pub host : String
  pub port : ℕ
  pub is_bootstrap : Bool
  pub state : ConnectionState
  pub connected : Bool
  pub peer_id : String
  pub reconnect_attempts : ℕ
  pub consecutive_ping_failures : ℕ

unfoldable pub new_peer : String → ℕ → Bool → ManagedPeer
new_peer host port is_bootstrap = record {
  host = host;
  port = port;
  is_bootstrap = is_bootstrap;
  state = disconnected;
  connected = false;
  peer_id = "";
  reconnect_attempts = 0;
  consecutive_ping_failures = 0;
}

unfoldable pub backoff_delay : ManagedPeer → ℕ
backoff_delay p = min (5 * 2 ^ p.reconnect_attempts) 60

pub record PeerManager : Type 0 where
  pub peers : List ManagedPeer
  pub running : Bool

unfoldable pub same_address : String → ℕ → ManagedPeer → Bool
same_address host port p = p.host == host && eqb p.port port

abbrev pub max_managed_peers : ℕ
max_managed_peers = 20

unfoldable pub add_bootstrap : List (String × ℕ) → List ManagedPeer → List ManagedPeer
unfolding same_address new_peer
add_bootstrap [] ps = ps
add_bootstrap ((host, port) ∷ rest) ps =
    add_bootstrap rest
      (if any (same_address host port) ps then ps else ps ++ new_peer host port true ∷ [])

unfoldable pub start_manager : List (String × ℕ) → PeerManager → PeerManager
unfolding add_bootstrap
start_manager addresses m = record { peers = add_bootstrap addresses m.peers; running = true }

unfoldable pub disconnect_peer : ManagedPeer → ManagedPeer
disconnect_peer p = record p { connected = false; state = disconnected }

unfoldable pub stop_manager : PeerManager → PeerManager
unfolding disconnect_peer
stop_manager m = record { peers = map disconnect_peer m.peers; running = false }

unfoldable pub add_peer : String → ℕ → String → PeerManager → PeerManager
unfolding same_address new_peer
add_peer host port peer_id m =
    if any (same_address host port) m.peers || negb m.running
    then m
    else if leb max_managed_peers (length m.peers)
    then m
    else if negb (peer_id == "") && any (λ p. p.peer_id == peer_id) m.peers
    then m
    else record m { peers = m.peers ++ new_peer host port false ∷ [] }

-- What a dial with its handshake brings.
pub data Dial : Type 0 where
  dial_failed refused handshake_failed : Dial
  welcomed : String → Dial

unfoldable pub connect_peer : Dial → ManagedPeer → ManagedPeer
connect_peer dial_failed p = record p { state = disconnected }
connect_peer refused p = record p { state = disconnected }
connect_peer handshake_failed p = record p { state = disconnected }
connect_peer (welcomed id) p = record p {
  connected = true;
  peer_id = id;
  state = routable;
  reconnect_attempts = 0;
  consecutive_ping_failures = 0;
}

-- One heartbeat: the connection is closed, or a ping is answered or not.
pub data Beat : Type 0 where
  closed pong missed : Beat

abbrev pub max_ping_failures : ℕ
max_ping_failures = 3

-- The loop ends when the connection is lost; a list that ends first is a manager that stops.
unfoldable pub heartbeat_loop : List Beat → ManagedPeer → ManagedPeer
unfolding disconnect_peer
heartbeat_loop [] p = p
heartbeat_loop (closed ∷ bs) p = disconnect_peer p
heartbeat_loop (pong ∷ bs) p = heartbeat_loop bs (record p { consecutive_ping_failures = 0 })
heartbeat_loop (missed ∷ bs) p =
    let failed = record p { consecutive_ping_failures = p.consecutive_ping_failures + 1 } in
    let rest = heartbeat_loop bs failed in
    if leb max_ping_failures failed.consecutive_ping_failures then disconnect_peer failed else rest

abbrev pub is_routable : ConnectionState → Bool
is_routable routable = true
is_routable handshaking = false
is_routable disconnected = false

abbrev pub is_down : ConnectionState → Bool
is_down disconnected = true
is_down handshaking = false
is_down routable = false

-- One round of the loop, up to its wait.
unfoldable pub manage_round : Dial → List Beat → ManagedPeer → ManagedPeer
unfolding connect_peer heartbeat_loop
manage_round dial beats p =
    let p' = if is_down p.state then connect_peer dial p else p in
    if is_routable p'.state then heartbeat_loop beats (record p' { reconnect_attempts = 0 }) else p'

abbrev pub max_reconnect_attempts : ℕ
max_reconnect_attempts = 5

unfoldable pub gives_up : ManagedPeer → Bool
gives_up p = negb p.is_bootstrap && leb max_reconnect_attempts p.reconnect_attempts

-- What the loop did: its waits, and whether it gave the peer up.
pub record Course : Type 0 where
  pub waits : List ℕ
  pub gave_up : Bool

unfoldable pub manage_peer : List (Dial × List Beat) → ManagedPeer → Course
unfolding manage_round gives_up backoff_delay
manage_peer [] p = record { waits = []; gave_up = false }
manage_peer ((dial, beats) ∷ rounds) p =
    let p' = manage_round dial beats p in
    let rest = manage_peer rounds (record p' { reconnect_attempts = p'.reconnect_attempts + 1 }) in
    if gives_up p'
    then record { waits = []; gave_up = true }
    else record { waits = backoff_delay p' ∷ rest.waits; gave_up = rest.gave_up }
