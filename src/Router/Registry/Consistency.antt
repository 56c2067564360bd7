-- ===== src/Router/Registry/Consistency.antt =====
-- src/mycellm/router/registry.py: the model index says what the registered peers advertise.
use mycellm.Prelude.{
  ℕ, ◌≡◌, inl, inr, refl, sym, ap, ◌∙◌, subst, String, Option, none, some, Bool, true, false, ◌&&◌,
  ◌||◌, List, [], ◌∷◌, ◌++◌, filter, any, Bool-cases, Option-cases, negb, ◌==◌, eq_iff, arith,
  if◌then◌else◌,
}
use mycellm.Prelude.Text.{eq_flip}
use mycellm.Router.Registry.{
  PeerEntry, PeerConnection, ModelCapability, Capabilities, Registration, Registry, is_peer,
  get_peer, put_peer, new_entry, entry_or_new, has, add_to, remove_from_model_index, index_models,
  connect, describe, join_networks, update_entry, reindex, register, unregister, new_registry,
  Change, registers, unregisters, apply_changes,
}

abbrev pub names : String → List ModelCapability → Bool
names m cs = any (λ c. c.name == m) cs

-- Whether a peer is registered and advertises a model.
abbrev pub advertises : String → Option PeerEntry → Bool
advertises m none = false
advertises m (some e) = names m e.capabilities.models

-- The index holds a peer under a model exactly if the peer is registered and advertises it.
abbrev pub Indexed : Registry → Type 0
Indexed r = (id m : String) → has id (r.index m) ≡ advertises m (get_peer id r.peers)

eq_refl : (s : String) → (s == s) ≡ true
eq_refl s = (eq_iff s s).1 refl

has-append : (x y : String) (xs : List String) → has x (xs ++ y ∷ []) ≡ (has x xs || y == x)
unfolding has
has-append x y [] = ground arith
has-append x y (z ∷ xs) = ground (arith, has-append x y xs)

has-add_to : (x y : String) (xs : List String) → has x (add_to y xs) ≡ (has x xs || y == x)
has-add_to x y xs = elim (Bool-cases (has y xs)) [
  | inr e ↦ rw e (has-append x y xs)
  | inl e ↦ rw e (elim (Bool-cases (y == x)) [
    | inl k ↦
        let same : y ≡ x = (eq_iff y x).0 k in
        let there : has x xs ≡ true = sym (ap (λ z. has z xs) same) ∙ e in rw (there) refl
    | inr k ↦ rw k (ground arith)
  ])
]

has-filter :
    (x id : String) (xs : List String)
    → has x (filter (λ y. negb (y == id)) xs) ≡ (has x xs && negb (x == id))
unfolding has
has-filter x id [] = refl
has-filter x id (y ∷ xs) = elim (Bool-cases (y == x)) [
  | inl k ↦
      let same : y ≡ x = (eq_iff y x).0 k in rw same (ground (arith, has-filter x id xs, eq_refl x))
  | inr k ↦ ground (arith, has-filter x id xs)
]

-- After a peer's models are added.
has-index_models :
    (x id m : String) (cs : List ModelCapability) (index : String → List String)
    → has x (index_models id cs index m) ≡ (has x (index m) || id == x && names m cs)
unfolding index_models
has-index_models x id m [] index = ground arith
has-index_models x id m (c ∷ cs) index =
    has-index_models x id m cs _ ∙ elim (Bool-cases (c.name == m)) [
      | inl e ↦ rw e (rw (has-add_to x id (index m)) (ground arith))
      | inr e ↦ rw e (ground arith)
    ]

get_peer-put_peer :
    (x : String) (e : PeerEntry) (peers : List PeerEntry)
    → get_peer x (put_peer e peers) ≡ (if e.peer_id == x then some e else get_peer x peers)
unfolding get_peer put_peer
get_peer-put_peer x e [] = refl
get_peer-put_peer x e (y ∷ peers) = elim (Bool-cases (y.peer_id == e.peer_id)) [
  | inl k ↦
      let same : y.peer_id ≡ e.peer_id = (eq_iff y.peer_id e.peer_id).0 k in
      rw k (rw same (ground arith))
  | inr k ↦ rw k (elim (Bool-cases (y.peer_id == x)) [
    | inl h ↦
        let same : y.peer_id ≡ x = (eq_iff y.peer_id x).0 h in
        let apart : (e.peer_id == x) ≡ false =
          eq_flip x e.peer_id (subst (λ z. (z == e.peer_id) ≡ false) same k) in
        rw (h, apart) refl
    | inr h ↦ rw h (get_peer-put_peer x e peers)
  ])
]

get_peer-filter :
    (x id : String) (peers : List PeerEntry)
    → get_peer x (filter (λ e. negb (is_peer id e)) peers)
      ≡ (if x == id then none else get_peer x peers)
unfolding get_peer
get_peer-filter x id [] = elim (Bool-cases (x == id)) [ inl e ↦ rw e refl | inr e ↦ rw e refl ]
get_peer-filter x id (y ∷ peers) = elim (Bool-cases (y.peer_id == id)) [
  | inl k ↦
      let same : y.peer_id ≡ id = (eq_iff y.peer_id id).0 k in
      rw k (elim (Bool-cases (x == id)) [
        | inl h ↦ rw h (rw h at (get_peer-filter x id peers))
        | inr h ↦
            let apart : (y.peer_id == x) ≡ false = rw same (eq_flip x id h) in
            rw apart (get_peer-filter x id peers)
      ])
  | inr k ↦ rw k (elim (Bool-cases (y.peer_id == x)) [
    | inl h ↦
        let same : y.peer_id ≡ x = (eq_iff y.peer_id x).0 h in
        let apart : (x == id) ≡ false = subst (λ z. (z == id) ≡ false) same k in rw (h, apart) refl
    | inr h ↦ rw h (get_peer-filter x id peers)
  ])
]

pub peer_id-get_peer :
    (id : String) (peers : List PeerEntry) (e : PeerEntry)
    → get_peer id peers ≡ some e
    → e.peer_id ≡ id
unfolding get_peer
peer_id-get_peer id [] e h = absurd (cc)
peer_id-get_peer id (x ∷ peers) e h = elim (Bool-cases (x.peer_id == id)) [
  | inl k ↦
      let here : some x ≡ some e = rw k at h in
      let found : x ≡ e = ground arith in
      let named : x.peer_id ≡ id = (eq_iff x.peer_id id).0 k in
      sym (ap (λ (y : PeerEntry). y.peer_id) found) ∙ named
  | inr k ↦ peer_id-get_peer id peers e (rw k at h)
]

-- A part of a registration changes its own field only.
connect_keeps :
    (o : Option PeerConnection) (e : PeerEntry)
    → ((connect o e).peer_id ≡ e.peer_id) × ((connect o e).capabilities ≡ e.capabilities)
unfolding connect
connect_keeps none e = (refl, refl)
connect_keeps (some c) e = (refl, refl)

describe_keeps :
    (o : Option Capabilities) (e e' : PeerEntry)
    → (e'.peer_id ≡ e.peer_id) × (e'.capabilities ≡ e.capabilities)
    → ((describe o e').peer_id ≡ e.peer_id)
      × ((describe o e').capabilities ≡ (describe o e).capabilities)
unfolding describe
describe_keeps none e e' h = h
describe_keeps (some c) e e' h = (h.0, refl)

join_networks_keeps :
    (o : Option (List String)) (e : PeerEntry)
    → ((join_networks o e).peer_id ≡ e.peer_id)
      × ((join_networks o e).capabilities ≡ e.capabilities)
unfolding join_networks
join_networks_keeps none e = (refl, refl)
join_networks_keeps (some n) e = (refl, refl)

update_entry_keeps :
    (now : ℕ) (g : Registration) (e : PeerEntry)
    → ((update_entry now g e).peer_id ≡ e.peer_id)
      × ((update_entry now g e).capabilities ≡ (describe g.capabilities e).capabilities)
unfolding update_entry
update_entry_keeps now g e =
    let c = connect_keeps g.connection e in
    let d = describe_keeps g.capabilities e (connect g.connection e) c in
    let j = join_networks_keeps g.network_ids (describe g.capabilities (connect g.connection e)) in
    (j.0 ∙ d.0, j.1 ∙ d.1)

entry_or_new_lem :
    (id : String) (now : ℕ) (peers : List PeerEntry)
    → let e = entry_or_new id now (get_peer id peers) in
      (e.peer_id ≡ id)
      × ((m : String) → names m e.capabilities.models ≡ advertises m (get_peer id peers))
unfolding entry_or_new
entry_or_new_lem id now peers = elim (Option-cases (get_peer id peers)) [
  | inl h ↦ rw h (unfold new_entry in (refl, λ m. refl))
  | inr h ↦ rw (h.1) (peer_id-get_peer id peers (h.0) (h.1), λ m. refl)
]

-- The index under a registration's models, where it held what the peers advertise.
reindex_lem :
    (id : String) (o : Option Capabilities) (e : PeerEntry) (x m : String)
    (index : String → List String) (found : Option PeerEntry)
    → has x (index m) ≡ advertises m (if id == x then some e else found)
    → has x (reindex id o index m) ≡ advertises m (if id == x then some (describe o e) else found)
unfolding reindex describe
reindex_lem id none e x m index found h = h
reindex_lem id (some c) e x m index found h =
    has-index_models x id m c.models (remove_from_model_index id index)
    ∙ (unfold remove_from_model_index in
        rw (has-filter x id (index m)) (elim (Bool-cases (id == x)) [
          | inl k ↦
              let same : id ≡ x = (eq_iff id x).0 k in
              rw k (rw same (rw (eq_refl x) (ground arith)))
          | inr k ↦ rw k (
              rw (eq_flip id x k) (
                let kept : has x (index m) ≡ advertises m found = rw k at h in
                ground (arith, kept)))
        ]))

-- A registration keeps the index exact.
pub register-Indexed :
    (id : String) (now : ℕ) (g : Registration) (r : Registry)
    → Indexed r
    → Indexed (register id now g r)
unfolding register
register-Indexed id now g r h x m =
    let e = entry_or_new id now (get_peer id r.peers) in
    let e' = update_entry now g e in
    let base = entry_or_new_lem id now r.peers in
    let kept = update_entry_keeps now g e in
    let before : has x (r.index m) ≡ advertises m (if id == x then some e else get_peer x r.peers) =
      elim (Bool-cases (id == x)) [
        | inl k ↦
            let same : id ≡ x = (eq_iff id x).0 k in
            rw k (h x m ∙ ap (λ z. advertises m (get_peer z r.peers)) (sym same) ∙ sym (base.1 m))
        | inr k ↦ rw k (h x m)
      ] in
    let after = reindex_lem id g.capabilities e x m r.index (get_peer x r.peers) before in
    after
    ∙ sym (
        ap (advertises m) (get_peer-put_peer x e' r.peers)
        ∙ rw (kept.0 ∙ base.0) (elim (Bool-cases (id == x)) [
          | inl k ↦ rw k (ap (λ c. names m c.models) kept.1)
          | inr k ↦ rw k refl
        ]))

-- An unregistration keeps it exact, and the peer is in no set of the index after it.
pub unregister-Indexed :
    (id : String) (r : Registry)
    → Indexed r
    → Indexed (unregister id r) × ((m : String) → has id ((unregister id r).index m) ≡ false)
unfolding unregister remove_from_model_index
unregister-Indexed id r h = (
  λ x m.
      has-filter x id (r.index m)
      ∙ (rw (get_peer-filter x id r.peers, h x m)
          (elim (Bool-cases (x == id)) [
            | inl k ↦ rw k (ground arith)
            | inr k ↦ rw k (ground arith)
          ])),
  λ m. has-filter id id (r.index m) ∙ rw (eq_refl id) (ground arith),
)

apply_changes_keep : (cs : List Change) (r : Registry) → Indexed r → Indexed (apply_changes cs r)
unfolding apply_changes
apply_changes_keep [] r h = h
apply_changes_keep (registers id now g ∷ cs) r h =
    apply_changes_keep cs (register id now g r) (register-Indexed id now g r h)
apply_changes_keep (unregisters id ∷ cs) r h =
    apply_changes_keep cs (unregister id r) ((unregister-Indexed id r h).0)

-- However peers register, with new models or without, and unregister, the model index of a registry
-- that was new holds a peer under a model exactly if the peer is registered and advertises it.
pub apply_changes-Indexed : (cs : List Change) → Indexed (apply_changes cs new_registry)
unfolding get_peer has
apply_changes-Indexed cs = apply_changes_keep cs new_registry (λ id m. refl)
