-- ===== src/Router/Registry.antt =====
-- src/mycellm/router/registry.py: the peers that a node knows, indexed by model.
-- The dict of peers is the list of its entries in the order of insertion. The dict of sets of the
-- model index is a function, empty on a missing key, and a set is a list in some order.
-- Scores of addresses are left out. Speeds and delays are in thousandths.
mod Consistency
mod Isolation
mod Tests
use mycellm.Prelude.{
  ℕ, ◌+◌, String, Option, none, some, Bool, true, false, ◌&&◌, ◌||◌, List, [], ◌∷◌, ◌++◌, map,
  filter, find, any, is_nil, negb, ◌==◌, if◌then◌else◌,
}

pub data PeerState : Type 0 where
  discovered dialable authenticated routable serving disconnected : PeerState

-- `closed` is `none` where the connection has no protocol.
pub record PeerConnection : Type 0 where
  pub state : PeerState
  pub closed : Option Bool
  pub active_requests : ℕ
  pub max_concurrent : ℕ
  pub avg_rtt : ℕ

pub record ModelCapability : Type 0 where
  pub name : String
  pub scope : String
  pub visible_networks : List String

pub record Capabilities : Type 0 where
  pub models : List ModelCapability
  pub est_tok_s : ℕ

pub record PeerEntry : Type 0 where
  pub peer_id : String
  pub connection : Option PeerConnection
  pub capabilities : Capabilities
  pub state : PeerState
  pub addresses : List String
  pub last_seen : ℕ
  pub failure_count : ℕ
  pub network_ids : List String

unfoldable pub is_live : PeerEntry → Bool
is_live e = elim e.connection [
  | none ↦ false
  | some c ↦ elim c.closed [ none ↦ false | some closed ↦ negb closed ]
]

pub record Registry : Type 0 where
  pub peers : List PeerEntry
  pub index : String → List String

abbrev pub is_peer : String → PeerEntry → Bool
is_peer id e = e.peer_id == id

unfoldable pub get_peer : String → List PeerEntry → Option PeerEntry
get_peer id peers = find (is_peer id) peers

-- `self._peers[peer_id] = entry`, or a change of the entry that is there.
unfoldable pub put_peer : PeerEntry → List PeerEntry → List PeerEntry
put_peer e [] = e ∷ []
put_peer e (x ∷ xs) = let rest = put_peer e xs in if is_peer e.peer_id x then e ∷ xs else x ∷ rest

unfoldable pub new_entry : String → ℕ → PeerEntry
new_entry id now = record {
  peer_id = id;
  connection = none;
  capabilities = record { models = []; est_tok_s = 0 };
  state = discovered;
  addresses = [];
  last_seen = now;
  failure_count = 0;
  network_ids = [];
}

-- `x in xs`
unfoldable pub has : String → List String → Bool
has x xs = any (λ y. y == x) xs

abbrev pub add_to : String → List String → List String
add_to x xs = if has x xs then xs else xs ++ x ∷ []

unfoldable pub remove_from_model_index : String → (String → List String) → String → List String
remove_from_model_index id index m = filter (λ x. negb (x == id)) (index m)

unfoldable pub index_models :
    String → List ModelCapability → (String → List String) → String → List String
unfolding has
index_models id [] index = index
index_models id (c ∷ cs) index =
    index_models id cs (λ m. if c.name == m then add_to id (index m) else index m)

-- What a registration brings; an empty list of addresses is none.
pub record Registration : Type 0 where
  pub connection : Option PeerConnection
  pub capabilities : Option Capabilities
  pub addresses : List String
  pub network_ids : Option (List String)

unfoldable pub connect : Option PeerConnection → PeerEntry → PeerEntry
connect none e = e
connect (some c) e = record e { connection = some c; state = c.state }

unfoldable pub describe : Option Capabilities → PeerEntry → PeerEntry
describe none e = e
describe (some c) e = record e { capabilities = c }

unfoldable pub join_networks : Option (List String) → PeerEntry → PeerEntry
join_networks none e = e
join_networks (some ns) e = record e { network_ids = ns }

unfoldable pub update_entry : ℕ → Registration → PeerEntry → PeerEntry
unfolding connect describe join_networks
update_entry now g e =
    let e' = join_networks g.network_ids (describe g.capabilities (connect g.connection e)) in
    record e' {
      addresses = if is_nil g.addresses then e.addresses else g.addresses;
      last_seen = now;
    }

unfoldable pub reindex :
    String → Option Capabilities → (String → List String) → String → List String
unfolding remove_from_model_index index_models
reindex id none index = index
reindex id (some c) index = index_models id c.models (remove_from_model_index id index)

unfoldable pub entry_or_new : String → ℕ → Option PeerEntry → PeerEntry
unfolding new_entry
entry_or_new id now none = new_entry id now
entry_or_new id now (some e) = e

unfoldable pub register : String → ℕ → Registration → Registry → Registry
unfolding get_peer put_peer entry_or_new update_entry reindex
register id now g r =
    let e = entry_or_new id now (get_peer id r.peers) in
    record {
      peers = put_peer (update_entry now g e) r.peers;
      index = reindex id g.capabilities r.index;
    }

unfoldable pub unregister : String → Registry → Registry
unfolding remove_from_model_index
unregister id r = record {
  peers = filter (λ e. negb (is_peer id e)) r.peers;
  index = remove_from_model_index id r.index;
}

-- A new registry, and a run of registrations and unregistrations.
abbrev pub new_registry : Registry
new_registry = record { peers = []; index = λ m. [] }

pub data Change : Type 0 where
  registers : String → ℕ → Registration → Change
  unregisters : String → Change

unfoldable pub apply_changes : List Change → Registry → Registry
unfolding register unregister
apply_changes [] r = r
apply_changes (registers id now g ∷ cs) r = apply_changes cs (register id now g r)
apply_changes (unregisters id ∷ cs) r = apply_changes cs (unregister id r)

-- `bool(want & set(networks))`
unfoldable pub meets : List String → List String → Bool
unfolding has
meets want networks = any (λ n. has n networks) want

unfoldable pub handshaked : PeerState → Bool
handshaked authenticated = true
handshaked routable = true
handshaked serving = true
handshaked _ = false

unfoldable pub visible_among : PeerEntry → String → List String → List ModelCapability → Bool
unfolding meets
visible_among e name want [] = true
visible_among e name want (c ∷ cs) =
    let rest = visible_among e name want cs in
    if negb (c.name == name)
    then rest
    else if c.scope == "public"
    then true
    else if c.scope == "networks"
    then meets want c.visible_networks
    else is_nil e.network_ids || meets want e.network_ids

unfoldable pub model_visible : PeerEntry → String → List String → Bool
unfolding visible_among
model_visible e name want = visible_among e name want e.capabilities.models

-- Whether a peer of the index is offered; no networks ask for no isolation.
unfoldable pub eligible_peer : String → List String → PeerEntry → Bool
unfolding handshaked is_live meets model_visible
eligible_peer name want e =
    if negb (handshaked e.state && is_live e)
    then false
    else if negb (is_nil want) && (negb (is_nil e.network_ids) && negb (meets want e.network_ids))
    then false
    else if negb (is_nil want) && negb (model_visible e name want)
    then false
    else true

unfoldable pub offer : String → List String → Option PeerEntry → List PeerEntry → List PeerEntry
unfolding eligible_peer
offer name want none rest = rest
offer name want (some e) rest = if eligible_peer name want e then e ∷ rest else rest

unfoldable pub collect : String → List String → List PeerEntry → List String → List PeerEntry
unfolding get_peer offer
collect name want peers [] = []
collect name want peers (id ∷ ids) =
    offer name want (get_peer id peers) (collect name want peers ids)

unfoldable pub peers_for_model : String → List String → Registry → List PeerEntry
unfolding collect
peers_for_model name want r = collect name want r.peers (r.index name)

unfoldable pub connected_peers : Registry → List PeerEntry
unfolding handshaked is_live
connected_peers r = filter (λ e. handshaked e.state && is_live e) r.peers
