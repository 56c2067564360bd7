-- ===== src/Execution/Planner/Egress.antt =====
-- No plan of src/mycellm/execution/planner.py sends the prompt where the gate refuses it.
use mathlib.Core.Option
use mathlib.Core.Path.{fun_ext}
use mycellm.Prelude.Text.{Text}
use mycellm.Prelude.{
  ℕ, ◌+◌, ◌≡◌, refl, ap, ◌∙◌, subst, Bool, Option, none, some, List, [], ◌∷◌, ◌++◌, ltb, length,
  All, All-append, All-filter, Bool-cases, inl, inr, filter, negb, map, any, all,
}
use mycellm.Prelude.Sort.{sort_by, All-sort_by, max_from-of_All}
use mycellm.Privacy.{Finder, SensitiveMatch, scan_sensitive}
use mycellm.Execution.Models.{
  Target, WorkUnit, Job, Strategy, direct, replica, swarm, proposer, synthesizer, is_remote,
  target_eq,
}
use mycellm.Execution.Policy.{EgressPolicy, decide}
use mycellm.Execution.Policy.Gate.{SameRules, decide-SameRules}
use mycellm.Execution.Policy.Safety.{
  Watches, may_pass, may_pass_same, decide-allowed, decide-Watches,
}
use mycellm.Execution.Planner.{
  Plan, note_decision, screen, plan_direct, proposer_units, with_swarm, plan_swarm, dispatch,
  plan_eligible, eligible_for, degrade, strategy_of, comes_first, wanted,
}
use mycellm.Execution.Planner.Selection.{
  pick_proposers, pick_synthesizer, max_of, proven_pool, or_list, local_of, strongest, fastest_or,
  faster, stronger,
}
use mycellm.Execution.Planner.Draw.{All-pick_proposers}

-- What holds of the plan, if one is made.
abbrev pub OnSome {ℓ κ} : {A : Type ℓ} → (A → Type κ) → Option A → Type κ
OnSome Q none = Unit
OnSome Q (some a) = Q a

pub of_OnSome {ℓ κ} :
    {A : Type ℓ} (Q : A → Type κ) (o : Option A) (a : A) → OnSome Q o → o ≡ some a → Q a
of_OnSome Q none a h e = absurd (cc)
of_OnSome Q (some b) a h e = subst Q (cc) h

module _ (P : Target → Type 0) where
  abbrev Sends : List WorkUnit → Type 0
  Sends us = All (λ u. P u.target) us

  max_of-OnSome :
      (better : Target → Target → Bool) (ts : List Target) → All P ts → OnSome P (max_of better ts)
  unfolding max_of
  max_of-OnSome better [] h = tt
  max_of-OnSome better (t ∷ ts) h = max_from-of_All better P t ts h.0 h.1

  or_list-All : (xs ys : List Target) → All P xs → All P ys → All P (or_list xs ys)
  or_list-All [] ys h k = k
  or_list-All (x ∷ xs) ys h k = h

  proven_pool-All : (el chosen : List Target) → All P el → All P (proven_pool el chosen)
  unfolding proven_pool
  proven_pool-All el chosen h =
      or_list-All (filter (λ t. any (target_eq t) chosen) el) el (All-filter P _ el h) h

  strongest-OnSome : (el chosen : List Target) → All P el → OnSome P (strongest el chosen)
  unfolding strongest
  strongest-OnSome el chosen h =
      max_of-OnSome stronger (proven_pool el chosen) (proven_pool-All el chosen h)

  fastest_or-OnSome :
      (ts : List Target) (o : Option Target) → All P ts → OnSome P o → OnSome P (fastest_or ts o)
  unfolding fastest_or
  fastest_or-OnSome [] o h k = k
  fastest_or-OnSome (t ∷ ts) o h k = max_of-OnSome faster (t ∷ ts) h

  pick_synthesizer-OnSome :
      (el chosen : List Target) → All P el → OnSome P (pick_synthesizer el chosen)
  unfolding pick_synthesizer
  pick_synthesizer-OnSome el chosen h =
      let best = strongest-OnSome el chosen h in
      elim (Bool-cases (all (λ t. negb (is_remote t)) chosen)) [
        | inl e ↦
            rw e (fastest_or-OnSome (local_of el) (strongest el chosen) (All-filter P _ el h) best)
        | inr e ↦ rw e best
      ]

  proposer_units-Sends :
      (job : Job) (i : ℕ) (ts : List Target) → All P ts → Sends (proposer_units job i ts)
  unfolding proposer_units
  proposer_units-Sends job i [] h = tt
  proposer_units-Sends job i (t ∷ ts) h = (h.0, proposer_units-Sends job (i + 1) ts h.1)

  abbrev SendsPlan : Plan → Type 0
  SendsPlan p = Sends p.units

  plan_direct-Sends :
      (job : Job) (p : Plan) (el : List Target)
      → SendsPlan p
      → All P el
      → OnSome SendsPlan (plan_direct job p el)
  unfolding plan_direct
  plan_direct-Sends job p [] s h = tt
  plan_direct-Sends job p (t ∷ ts) s h = All-append (λ u. P u.target) p.units _ s (h.0, tt)

  with_swarm-Sends :
      (job : Job) (p : Plan) (chosen : List Target) (o : Option Target)
      → SendsPlan p
      → All P chosen
      → OnSome P o
      → OnSome SendsPlan (Option.map (with_swarm job p chosen) o)
  unfolding with_swarm
  with_swarm-Sends job p chosen none s h k = tt
  with_swarm-Sends job p chosen (some t) s h k =
      let staged =
        All-append (λ u. P u.target) p.units (proposer_units job 0 chosen) s
          (proposer_units-Sends job 0 chosen h) in
      All-append (λ u. P u.target) (p.units ++ proposer_units job 0 chosen) _ staged (k, tt)

  plan_swarm-Sends :
      (job : Job) (p : Plan) (el : List Target)
      → SendsPlan p
      → All P el
      → OnSome SendsPlan (plan_swarm job p el)
  unfolding plan_swarm
  plan_swarm-Sends job p el s h =
      let pool : All P (eligible_for el proposer) = unfold eligible_for in All-filter P _ el h in
      let pool' : All P (eligible_for el synthesizer) =
        unfold eligible_for in All-filter P _ el h in
      let chosen = pick_proposers (eligible_for el proposer) (wanted job) in
      elim (Bool-cases (ltb (length chosen) 2)) [
        | inl e ↦ rw e (unfold degrade in plan_direct-Sends job _ el s h)
        | inr e ↦ rw e (
            with_swarm-Sends job _ chosen _ s
              (All-pick_proposers P (eligible_for el proposer) (wanted job) pool)
              (pick_synthesizer-OnSome _ chosen
                (or_list-All (eligible_for el synthesizer) el pool' h)))
      ]

  dispatch-Sends :
      (job : Job) (st : Strategy) (p : Plan) (el : List Target)
      → SendsPlan p
      → All P el
      → OnSome SendsPlan (dispatch job st p el)
  unfolding dispatch
  dispatch-Sends job direct p el s h = plan_direct-Sends job p el s h
  dispatch-Sends job replica p el s h = plan_direct-Sends job p el s h
  dispatch-Sends job swarm p el s h = plan_swarm-Sends job p el s h

  pub plan_eligible-Sends :
      (job : Job) (cs : List Target) (p : Plan) (el : List Target)
      → SendsPlan p
      → All P el
      → OnSome SendsPlan (plan_eligible job cs p el)
  unfolding plan_eligible
  plan_eligible-Sends job cs p [] s h = s
  plan_eligible-Sends job cs p (t ∷ ts) s h =
      dispatch-Sends job (strategy_of job) p (sort_by comes_first (t ∷ ts)) s
        (All-sort_by comes_first P (t ∷ ts) h)

module _ (f : Finder) (text : Text) where
  may_pass-SameRules :
      (p q : EgressPolicy) (ms : List SensitiveMatch)
      → SameRules p q
      → may_pass q ms ≡ may_pass p ms
  may_pass-SameRules p q ms s = fun_ext (λ t. may_pass_same f text p q ms t s)

  -- The candidates that the gate lets pass are eligible, and the others are rejected, in order.
  pub screen_lem :
      (p : EgressPolicy) (ts : List Target)
      → Watches f text p
      → ((screen p ts).eligible ≡ filter (may_pass p (scan_sensitive f text)) ts)
        × (map (λ r. r.0) (screen p ts).rejected
            ≡ filter (λ t. negb (may_pass p (scan_sensitive f text) t)) ts)
  unfolding screen note_decision
  screen_lem p [] w = (refl, refl)
  screen_lem p (t ∷ ts) w =
      let ms = scan_sensitive f text in
      let next = (decide p t).1 in
      let ih = screen_lem next ts (decide-Watches f text p t w) in
      let same = may_pass-SameRules p next ms (decide-SameRules p t) in
      let kept : (screen next ts).eligible ≡ filter (may_pass p ms) ts = rw same at ih.0 in
      let dropped : map (λ r. r.0) (screen next ts).rejected
          ≡ filter (λ u. negb (may_pass p ms u)) ts =
        rw same at ih.1 in
      elim (Bool-cases (may_pass p ms t)) [
        | inl e ↦
            let d = decide-allowed f text p t w ∙ e in
            (rw (d, e) (ap (◌∷◌ t) kept), rw (d, e) dropped)
        | inr e ↦
            let d = decide-allowed f text p t w ∙ e in
            (rw (d, e) kept, rw (d, e) (ap (◌∷◌ t) dropped))
      ]
