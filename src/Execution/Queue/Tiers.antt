-- ===== src/Execution/Queue/Tiers.antt =====
-- src/mycellm/execution/queue.py: the quality floor of a job and why it waits, with the tiers of
-- src/mycellm/router/model_resolver.py. Sizes are in thousandths of a billion parameters. What the
-- regular expressions read from a model's name is a parameter.
use mycellm.Prelude.{
  ℕ, ◌≤◌, ◌≡◌, ◌↔◌, inl, inr, refl, String, Option, none, some, Bool, true, false, ◌&&◌, List, [],
  ◌∷◌, filter, length, All, All-imp, All-filter_self, subst, eqb, leb, ltb, negb, ◌==◌, is_nil,
  arith, Bool-cases, if◌then◌else◌,
}
use mycellm.Execution.Models.{Target}
use mycellm.Execution.Queue.Row.{
  QueuedJob, WaitingReason, no_reason, no_node, no_tier, no_swarm, not_serving, no_match,
}

abbrev pub Sizes : Type 0
Sizes = String → Option ℕ

unfoldable pub tier_rank : String → ℕ
tier_rank t =
    if t == "frontier"
    then 4
    else if t == "capable"
    then 3
    else if t == "fast"
    then 2
    else if t == "tiny"
    then 1
    else 0

unfoldable pub derive_tier : ℕ → String
derive_tier params =
    if leb 65000 params
    then "frontier"
    else if leb 13000 params
    then "capable"
    else if leb 3000 params
    then "fast"
    else "tiny"

unfoldable pub tier_ok : String → ℕ → Bool
unfolding tier_rank derive_tier
tier_ok min_tier params =
    if eqb (tier_rank min_tier) 0
    then true
    else leb (tier_rank min_tier) (tier_rank (derive_tier params))

-- `params_b or parse_param_count(model)`, 0 for a size that is not known.
unfoldable pub size_of : Sizes → Target → ℕ
size_of sizes t =
    if ltb 0 t.params_b then t.params_b else elim (sizes t.model) [ none ↦ 0 | some n ↦ n ]

unfoldable pub admits : Sizes → String → Target → Bool
unfolding size_of tier_ok
admits sizes min_tier t = ltb 0 (size_of sizes t) && tier_ok min_tier (size_of sizes t)

unfoldable pub filter_targets : Sizes → List Target → String → List Target
unfolding admits
filter_targets sizes targets min_tier =
    if min_tier == "" then targets else filter (admits sizes min_tier) targets

unfoldable pub waiting_reason_for : QueuedJob → List Target → List Target → WaitingReason
waiting_reason_for job targets all_targets =
    if is_nil all_targets
    then no_node
    else if negb (job.min_tier == "") && is_nil targets
    then no_tier job.min_tier (length all_targets)
    else if negb (job.model == "") && is_nil targets
    then if job.model == "mycellm/swarm" then no_swarm else not_serving job.model
    else if is_nil targets
    then no_match
    else no_reason

-- The fewest parameters that a floor admits.
abbrev pub floor_size : String → ℕ
floor_size t =
    if t == "frontier"
    then 65000
    else if t == "capable"
    then 13000
    else if t == "fast"
    then 3000
    else 1

derived_rank : ℕ → ℕ
derived_rank params =
    if leb 65000 params then 4 else if leb 13000 params then 3 else if leb 3000 params then 2 else 1

tier_rank-derive_tier : (params : ℕ) → tier_rank (derive_tier params) ≡ derived_rank params
unfolding tier_rank derive_tier derived_rank
tier_rank-derive_tier params = elim (Bool-cases (leb 65000 params)) [
  | inl e ↦ rw e refl
  | inr e ↦ elim (Bool-cases (leb 13000 params)) [
    | inl f ↦ rw (e, f) refl
    | inr f ↦ elim (Bool-cases (leb 3000 params)) [
      | inl g ↦ rw (e, f, g) refl
      | inr g ↦ rw (e, f, g) refl
    ]
  ]
]

-- The ranks as numbers.
floor_of_ranks :
    (a b c d : Bool) (params : ℕ)
    → 1 ≤ params
    → (if eqb (if a then 4 else if b then 3 else if c then 2 else if d then 1 else 0) 0
        then true
        else leb
            (if a then 4 else if b then 3 else if c then 2 else if d then 1 else 0)
            (derived_rank params))
      ≡ true
    → (if a then 65000 else if b then 13000 else if c then 3000 else 1) ≤ params
unfolding derived_rank
floor_of_ranks true b c d params h k = ground arith
floor_of_ranks false true c d params h k = ground arith
floor_of_ranks false false true d params h k = ground arith
floor_of_ranks false false false d params h k = h

tier_ok-floor_size :
    (t : String) (params : ℕ) → 1 ≤ params → tier_ok t params ≡ true → floor_size t ≤ params
unfolding tier_ok tier_rank
tier_ok-floor_size t params h k =
    floor_of_ranks (t == "frontier") (t == "capable") (t == "fast") (t == "tiny") params h (
      subst (λ n. (if eqb (tier_rank t) 0 then true else leb (tier_rank t) n) ≡ true)
        (tier_rank-derive_tier params) k)

admits-floor_size :
    (sizes : Sizes) (min_tier : String) (t : Target)
    → admits sizes min_tier t ≡ true
    → floor_size min_tier ≤ size_of sizes t
unfolding admits
admits-floor_size sizes min_tier t h =
    tier_ok-floor_size min_tier (size_of sizes t) (ground arith) (ground arith)

-- Under a quality floor every target that is kept has a known size, at least the floor's.
pub filter_targets_floor :
    (sizes : Sizes) (targets : List Target) (min_tier : String)
    → (min_tier == "") ≡ false
    → All (λ t. floor_size min_tier ≤ size_of sizes t) (filter_targets sizes targets min_tier)
unfolding filter_targets
filter_targets_floor sizes targets min_tier h = rw h (
    All-imp _ _ (admits-floor_size sizes min_tier) _
      (All-filter_self (admits sizes min_tier) targets))

-- A job is given a reason to wait exactly when no target is left for it.
pub waiting_reason_for_lem :
    (job : QueuedJob) (targets all_targets : List Target)
    → (is_nil all_targets ≡ true → is_nil targets ≡ true)
    → (waiting_reason_for job targets all_targets ≡ no_reason) ↔ (is_nil targets ≡ false)
unfolding waiting_reason_for
waiting_reason_for_lem job [] [] sub = (λ h. absurd (cc), λ h. absurd (cc))
waiting_reason_for_lem job (t ∷ ts) [] sub = let none_left = sub refl in absurd (cc)
waiting_reason_for_lem job [] (a ∷ more) sub = elim (Bool-cases (negb (job.min_tier == ""))) [
  | inl e ↦ rw e (λ h. absurd (cc), λ h. absurd (cc))
  | inr e ↦ elim (Bool-cases (negb (job.model == ""))) [
    | inl f ↦ elim (Bool-cases (job.model == "mycellm/swarm")) [
      | inl g ↦ rw (e, f, g) (λ h. absurd (cc), λ h. absurd (cc))
      | inr g ↦ rw (e, f, g) (λ h. absurd (cc), λ h. absurd (cc))
    ]
    | inr f ↦ rw (e, f) (λ h. absurd (cc), λ h. absurd (cc))
  ]
]
waiting_reason_for_lem job (t ∷ ts) (a ∷ more) sub = elim (Bool-cases (negb (job.min_tier == ""))) [
  | inl e ↦ elim (Bool-cases (negb (job.model == ""))) [
    | inl f ↦ rw (e, f) (λ h. refl, λ h. refl)
    | inr f ↦ rw (e, f) (λ h. refl, λ h. refl)
  ]
  | inr e ↦ elim (Bool-cases (negb (job.model == ""))) [
    | inl f ↦ rw (e, f) (λ h. refl, λ h. refl)
    | inr f ↦ rw (e, f) (λ h. refl, λ h. refl)
  ]
]
