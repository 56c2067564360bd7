-- ===== src/Router/Registry/Isolation.antt =====
-- src/mycellm/router/registry.py: which peers are offered for a model.
use mycellm.Prelude.{
  ◌≡◌, inl, inr, refl, ap, ◌∙◌, String, Option, none, some, Bool, true, false, negb, find,
  if◌then◌else◌, ◌&&◌, ◌||◌, List, [], ◌∷◌, any, is_nil, All, Bool-cases, ◌==◌, eq_iff, arith,
}
use mycellm.Router.Registry.{
  PeerEntry, Registry, is_peer, get_peer, has, is_live, handshaked, meets, model_visible, PeerState,
  discovered, dialable, authenticated, routable, serving, disconnected, PeerConnection,
  ModelCapability, visible_among, eligible_peer, offer, collect, peers_for_model,
}
use mycellm.Router.Registry.Consistency.{names, advertises, Indexed, peer_id-get_peer}

-- Some string stands in both lists.
abbrev pub shares : List String → List String → Bool
shares xs ys = any (λ x. any (λ y. y == x) ys) xs

abbrev pub past_handshake : PeerState → Bool
past_handshake discovered = false
past_handshake dialable = false
past_handshake authenticated = true
past_handshake routable = true
past_handshake serving = true
past_handshake disconnected = false

-- The connection has a protocol, and that is not closed.
abbrev pub is_open : Option PeerConnection → Bool
is_open none = false
is_open (some c) = elim c.closed [ none ↦ false | some closed ↦ negb closed ]

-- Whether a requester may see a model, by its scope: a public one always, one for networks if it is on
-- one of these, and a home model if it is on one of the peer's networks or the peer has none.
abbrev pub scope_admits : List String → List String → ModelCapability → Bool
scope_admits want nets c =
    if c.scope == "public"
    then true
    else if c.scope == "networks"
    then shares want c.visible_networks
    else is_nil nets || shares want nets

abbrev pub admits : List String → List String → Option ModelCapability → Bool
admits want nets none = true
admits want nets (some c) = scope_admits want nets c

-- The rule for one peer: its first model of that name admits the requester, it has shaken hands and is
-- live, and a requester with networks shares one with it, unless it has none.
abbrev pub sees : String → List String → List String → List ModelCapability → Bool
sees m want nets models = admits want nets (find (λ c. c.name == m) models)

abbrev pub may_serve : String → List String → PeerEntry → Bool
may_serve m want e =
    names m e.capabilities.models
    && (past_handshake e.state
        && is_open e.connection
        && (is_nil want
            || (is_nil e.network_ids || shares want e.network_ids)
              && sees m want e.network_ids e.capabilities.models))

handshaked-past_handshake : (s : PeerState) → handshaked s ≡ past_handshake s
unfolding handshaked
handshaked-past_handshake discovered = refl
handshaked-past_handshake dialable = refl
handshaked-past_handshake authenticated = refl
handshaked-past_handshake routable = refl
handshaked-past_handshake serving = refl
handshaked-past_handshake disconnected = refl

is_live-is_open : (e : PeerEntry) → is_live e ≡ is_open e.connection
unfolding is_live
is_live-is_open e = go e.connection
  where
    go :
        (o : Option PeerConnection)
        → elim o [
          | none ↦ false
          | some c ↦ elim c.closed [ none ↦ false | some closed ↦ negb closed ]
        ]
          ≡ is_open o
    go none = refl
    go (some c) = refl

meets-shares : (xs ys : List String) → meets xs ys ≡ shares xs ys
unfolding meets has
meets-shares xs ys = refl

-- The models are searched for the first of the name.
visible_among-sees :
    (e : PeerEntry) (m : String) (want : List String) (models : List ModelCapability)
    → visible_among e m want models ≡ sees m want e.network_ids models
unfolding visible_among meets has
visible_among-sees e m want [] = refl
visible_among-sees e m want (c ∷ cs) = elim (Bool-cases (c.name == m)) [
  | inl k ↦ rw k refl
  | inr k ↦ rw k (visible_among-sees e m want cs)
]

model_visible-sees :
    (e : PeerEntry) (m : String) (want : List String)
    → model_visible e m want ≡ sees m want e.network_ids e.capabilities.models
unfolding model_visible
model_visible-sees e m want = visible_among-sees e m want e.capabilities.models

abbrev pub found_to : (PeerEntry → Bool) → Option PeerEntry → Bool
found_to p none = false
found_to p (some e) = p e

module _ (m : String) (want : List String) (peers : List PeerEntry) where
  any-offer :
      (id i : String) (o : Option PeerEntry) (rest : List PeerEntry)
      → get_peer i peers ≡ o
      → any (is_peer id) (offer m want o rest)
        ≡ (i == id && found_to (eligible_peer m want) o || any (is_peer id) rest)
  unfolding offer
  any-offer id i none rest h = ground arith
  any-offer id i (some e) rest h =
      let named : e.peer_id ≡ i = peer_id-get_peer i peers e h in
      elim (Bool-cases (eligible_peer m want e)) [
        | inl ok ↦ rw ok (rw named (ground arith))
        | inr ok ↦ rw ok (ground arith)
      ]

  any-collect :
      (id : String) (ids : List String)
      → any (is_peer id) (collect m want peers ids)
        ≡ (has id ids && found_to (eligible_peer m want) (get_peer id peers))
  unfolding collect has
  any-collect id [] = refl
  any-collect id (i ∷ ids) =
      any-offer id i (get_peer i peers) (collect m want peers ids) refl
      ∙ rw (any-collect id ids) (elim (Bool-cases (i == id)) [
        | inl k ↦ let same : i ≡ id = (eq_iff i id).0 k in rw k (rw same (ground arith))
        | inr k ↦ rw k refl
      ])

  offer_registered :
      (i : String) (o : Option PeerEntry) (rest : List PeerEntry)
      → get_peer i peers ≡ o
      → All (λ e. get_peer e.peer_id peers ≡ some e) rest
      → All (λ e. get_peer e.peer_id peers ≡ some e) (offer m want o rest)
  unfolding offer
  offer_registered i none rest h a = a
  offer_registered i (some e) rest h a = elim (Bool-cases (eligible_peer m want e)) [
    | inl ok ↦ rw ok (ap (λ z. get_peer z peers) (peer_id-get_peer i peers e h) ∙ h, a)
    | inr ok ↦ rw ok a
  ]

  collect_registered :
      (ids : List String) → All (λ e. get_peer e.peer_id peers ≡ some e) (collect m want peers ids)
  unfolding collect
  collect_registered [] = tt
  collect_registered (i ∷ ids) =
      offer_registered i (get_peer i peers) (collect m want peers ids) refl (collect_registered ids)

advertises-and :
    (m : String) (want : List String) (o : Option PeerEntry)
    → (advertises m o && found_to (eligible_peer m want) o) ≡ found_to (may_serve m want) o
unfolding eligible_peer
advertises-and m want none = refl
advertises-and m want (some e) =
    rw
      (
        handshaked-past_handshake e.state,
        is_live-is_open e,
        meets-shares want e.network_ids,
        model_visible-sees e m want,
      )
      (ground arith)

-- With an exact index, the peers offered for a model are the registered entries that the rule admits,
-- all of them and no other.
pub peers_for_model_exact :
    (m : String) (want : List String) (r : Registry)
    → Indexed r
    → ((id : String)
        → any (is_peer id) (peers_for_model m want r)
          ≡ found_to (may_serve m want) (get_peer id r.peers))
      × All (λ e. get_peer e.peer_id r.peers ≡ some e) (peers_for_model m want r)
unfolding peers_for_model
peers_for_model_exact m want r h = (
  λ id.
      any-collect m want r.peers id (r.index m)
      ∙ ap (λ b. b && found_to (eligible_peer m want) (get_peer id r.peers)) (h id m)
      ∙ advertises-and m want (get_peer id r.peers),
  collect_registered m want r.peers (r.index m),
)
