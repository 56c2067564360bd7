-- ===== src/Router/Chain/Ranking.antt =====
-- src/mycellm/router/chain.py: the order of the candidates.
use mathlib.Core.List.{Perm}
use mathlib.Core.List.Perm
use mycellm.Prelude.{
  ℕ, ◌+◌, ◌-◌, ◌*◌, ◌^◌, ◌≤◌, ◌<◌, ◌≡◌, inl, inr, refl, sym, ap, ◌∙◌, subst, max, String, Option,
  none, some, Bool, false, List, [], ◌∷◌, map, filter, All, Bool-cases, eqb, ltb, leb, negb,
  if◌then◌else◌, arith,
}
use native.Mathlib.Nat.{one-le-pow, mul-le-mul_left, le_of_mul-le-mul_left}
use mycellm.Prelude.Sort.{
  sort_by, All-sort_by, sort_by-perm, IsSortedBy, IsStrictWeak, sort_by-IsSortedBy,
}
use mycellm.Router.Registry.{PeerEntry, PeerConnection, Registry, peers_for_model}
use mycellm.Router.Chain.{
  PeerTarget, score_peer, rtt_factor, health_factor, beats, overloaded, target, route,
}

cross_trans : (x y z p q r : ℕ) → 0 < q → x * q ≤ y * p → y * r ≤ z * q → x * r ≤ z * p
cross_trans x y z p q r h a b =
    let left : r * (x * q) ≤ r * (y * p) = mul-le-mul_left r a in
    let right : p * (y * r) ≤ p * (z * q) = mul-le-mul_left p b in
    let scaled : q * (x * r) ≤ q * (z * p) = omega (arith, left, right) in
    le_of_mul-le-mul_left scaled h

pow_pos : (n : ℕ) → 0 < 2 ^ n
pow_pos n = one-le-pow n 2 (omega arith)

beats-IsStrictWeak : IsStrictWeak beats
unfolding beats
beats-IsStrictWeak = record {
  asym = λ x y h. ground arith;
  negtrans = λ x y z h k.
      let a : x.score.value * 2 ^ y.score.halvings ≤ y.score.value * 2 ^ x.score.halvings =
        ground arith in
      let b : y.score.value * 2 ^ z.score.halvings ≤ z.score.value * 2 ^ y.score.halvings =
        ground arith in
      let c : x.score.value * 2 ^ z.score.halvings ≤ z.score.value * 2 ^ x.score.halvings =
        cross_trans x.score.value y.score.value z.score.value (2 ^ x.score.halvings)
          (2 ^ y.score.halvings) (2 ^ z.score.halvings) (pow_pos y.score.halvings) a b in
      ground arith;
}

-- The factors of a score, in thousandths: of the speed, the round trip and the health.
abbrev pub speed : PeerEntry → ℕ
speed e = max e.capabilities.est_tok_s 1000

abbrev pub nearness : Option PeerConnection → ℕ
nearness none = 1000
nearness (some c) = if eqb c.avg_rtt 0 then 1000 else max 100 (1100 - c.avg_rtt)

abbrev pub fitness : Option (String → ℕ) → String → ℕ
fitness none id = 1000
fitness (some health) id = 500 + health id

abbrev pub points : Option (String → ℕ) → PeerEntry → ℕ
points health e = speed e * nearness e.connection * fitness health e.peer_id

-- The first peer has strictly more points, each failure halving them.
abbrev pub outranks : Option (String → ℕ) → PeerEntry → PeerEntry → Bool
outranks health x y =
    ltb (points health y * 2 ^ x.failure_count) (points health x * 2 ^ y.failure_count)

-- The connection has as many active requests as it takes.
abbrev pub at_limit : Option PeerConnection → Bool
at_limit none = false
at_limit (some c) = leb c.max_concurrent c.active_requests

rtt_factor-nearness : (o : Option PeerConnection) → rtt_factor o ≡ nearness o
unfolding rtt_factor
rtt_factor-nearness none = refl
rtt_factor-nearness (some c) = ground arith

health_factor-fitness :
    (health : Option (String → ℕ)) (id : String) → health_factor health id ≡ fitness health id
unfolding health_factor
health_factor-fitness none id = refl
health_factor-fitness (some h) id = refl

overloaded-at_limit : (e : PeerEntry) → overloaded e ≡ at_limit e.connection
unfolding overloaded
overloaded-at_limit e = go e.connection
  where
    go :
        (o : Option PeerConnection)
        → elim o [ none ↦ false | some c ↦ leb c.max_concurrent c.active_requests ] ≡ at_limit o
    go none = refl
    go (some c) = refl

module _ (health : Option (String → ℕ)) where
  -- A candidate with its entry's score.
  abbrev Scored : PeerTarget → Type 0
  Scored t = (t.score.value ≡ points health t.entry) × (t.score.halvings ≡ t.entry.failure_count)

  target-Scored : (e : PeerEntry) → Scored (target health e)
  unfolding target score_peer
  target-Scored e =
      (rw (rtt_factor-nearness e.connection, health_factor-fitness health e.peer_id) refl, refl)

  targets-Scored : (es : List PeerEntry) → All Scored (map (target health) es)
  targets-Scored [] = tt
  targets-Scored (e ∷ es) = (target-Scored e, targets-Scored es)

  beats-outranks :
      (x y : PeerTarget) → Scored x → Scored y → beats x y ≡ outranks health x.entry y.entry
  unfolding beats
  beats-outranks x y (a, b) (c, d) = rw (a, b, c, d) refl

  not_beaten :
      (x : PeerTarget) (ts : List PeerTarget)
      → Scored x
      → All Scored ts
      → All (λ y. beats y x ≡ false) ts
      → All (λ e. outranks health e x.entry ≡ false) (map (λ t. t.entry) ts)
  not_beaten x [] sx s h = tt
  not_beaten x (y ∷ ts) sx s h = (sym (beats-outranks y x s.0 sx) ∙ h.0, not_beaten x ts sx s.1 h.1)

  entries-IsSortedBy :
      (ts : List PeerTarget)
      → All Scored ts
      → IsSortedBy beats ts
      → IsSortedBy (outranks health) (map (λ t. t.entry) ts)
  entries-IsSortedBy [] s h = tt
  entries-IsSortedBy (x ∷ ts) s h = (not_beaten x ts s.0 s.1 h.0, entries-IsSortedBy ts s.1 h.1)

  entries_of_targets : (es : List PeerEntry) → map (λ t. t.entry) (map (target health) es) ≡ es
  unfolding target
  entries_of_targets [] = refl
  entries_of_targets (e ∷ es) = ap (λ l. e ∷ l) (entries_of_targets es)

filter_same {ℓ} :
    {A : Type ℓ} (p q : A → Bool)
    → ((x : A) → p x ≡ q x)
    → (xs : List A) → filter p xs ≡ filter q xs
filter_same p q h [] = refl
filter_same p q h (x ∷ xs) = elim (Bool-cases (q x)) [
  | inl e ↦ rw (h x, e) (ap (λ l. x ∷ l) (filter_same p q h xs))
  | inr e ↦ rw (h x, e) (filter_same p q h xs)
]

-- The candidates are those peers offered for the model that have room for a request, each as often as
-- it is offered, and none stands behind a peer that it outranks: by its speed, its round trip and its
-- health, halved for each failure.
pub route-IsSortedBy :
    (health : Option (String → ℕ)) (model : String) (want : List String) (r : Registry)
    → let entries = map (λ t. t.entry) (route health model want r) in
      IsSortedBy (outranks health) entries
      × Perm entries (filter (λ e. negb (at_limit e.connection)) (peers_for_model model want r))
unfolding route
route-IsSortedBy health model want r =
    let idle = filter (λ e. negb (overloaded e)) (peers_for_model model want r) in
    let ts = map (target health) idle in
    let same : map (λ t. t.entry) ts
        ≡ filter (λ e. negb (at_limit e.connection)) (peers_for_model model want r) =
      entries_of_targets health idle
      ∙ filter_same _ _ (λ e. ap negb (overloaded-at_limit e)) (peers_for_model model want r) in
    (
      entries-IsSortedBy health (sort_by beats ts)
          (All-sort_by beats (Scored health) ts (targets-Scored health idle))
          (sort_by-IsSortedBy beats beats-IsStrictWeak ts),
      subst (Perm (map (λ t. t.entry) (sort_by beats ts))) same
          (Perm.map (λ t. t.entry) (sort_by-perm beats ts)),
    )
