-- ===== src/Execution/Planner/Preference.antt =====
-- Which target src/mycellm/execution/planner.py prefers: for a direct job, and for the synthesis.
use mycellm.Prelude.{
  ◌≡◌, ◌⊎◌, inl, inr, refl, ap, sym, subst, Bool, true, false, Option, none, some, List, [], ◌∷◌,
  ◌++◌, append_assoc, ◌≤◌, length, is_nil, arith, All, All-imp, All-filter_self, filter, negb, all,
  if◌then◌else◌,
}
use mycellm.Prelude.Sort.{
  sort_by, IsSortedBy, IsStrictWeak, irrefl, sort_by-IsSortedBy, All-of_sort_by, All-sort_by,
  length-sort_by, max_from, max_from-of_All, max_from-IsGreatest,
}
use mycellm.Privacy.{Finder, scan_sensitive}
use mycellm.Execution.Models.{Target, WorkUnit, Job, direct, is_remote, prompt_text}
use mycellm.Execution.Planner.{
  Plan, screen, plan_direct, dispatch, plan_eligible, plan, policy_of, start_plan, strategy_of,
  comes_first, is_swarm_request, direct_unit,
}
use mycellm.Execution.Planner.Selection.{
  pick_synthesizer, max_of, proven_pool, local_of, strongest, fastest_or, faster, stronger,
}
use mycellm.Execution.Planner.Egress.{OnSome, of_OnSome, screen_lem}
use mycellm.Execution.Planner.Safety.{policy_of-Watches}
use mycellm.Execution.Policy.Safety.{may_pass}

comes_first-IsStrictWeak : IsStrictWeak comes_first
unfolding comes_first
comes_first-IsStrictWeak = record {
  asym = λ x y h. ground arith;
  negtrans = λ x y z h k. ground arith;
}

faster-IsStrictWeak : IsStrictWeak faster
unfolding faster
faster-IsStrictWeak = record { asym = λ x y h. ground arith; negtrans = λ x y z h k. ground arith }

stronger-IsStrictWeak : IsStrictWeak stronger
unfolding stronger
stronger-IsStrictWeak = record {
  asym = λ x y h. ground arith;
  negtrans = λ x y z h k. ground arith;
}

-- The entry stands in the list.
abbrev pub Among : Target → List Target → Type 0
Among t el = (before : List Target) × (after : List Target) × (el ≡ before ++ t ∷ after)

Among-all : (xs ys : List Target) → All (λ t. Among t (ys ++ xs)) xs
Among-all [] ys = tt
Among-all (x ∷ xs) ys = (
  (ys, xs, refl),
  subst (λ l. All (λ t. Among t l) xs) (append_assoc ys (x ∷ []) xs) (Among-all xs (ys ++ x ∷ [])),
)

-- A remote target is only as good as other remote ones, and among equals the faster is better.
abbrev pub NoBetter : Target → Target → Type 0
NoBetter s t =
    (is_remote s ≡ true → is_remote t ≡ true) × (is_remote t ≡ is_remote s → t.tok_s ≤ s.tok_s)

-- A plan of one unit, at an entry of `el` than which no entry is better.
abbrev pub IsBest : List Target → Plan → Type 0
IsBest el p =
    (u : WorkUnit) × (p.units ≡ u ∷ []) × Among u.target el × All (λ t. NoBetter u.target t) el

comes_first-NoBetter : (s t : Target) → comes_first t s ≡ false → NoBetter s t
unfolding comes_first
comes_first-NoBetter s t h = (λ r. ground (arith, r), λ r. ground (arith, r))

-- The only unit of a direct plan has the first target.
abbrev HasHead : List Target → Plan → Type 0
HasHead [] p = p.units ≡ []
HasHead (t ∷ ts) p = (u : WorkUnit) × (p.units ≡ u ∷ []) × (u.target ≡ t)

plan_direct-HasHead :
    (job : Job) (p : Plan) (ts : List Target)
    → p.units ≡ []
    → OnSome (HasHead ts) (plan_direct job p ts)
unfolding plan_direct direct_unit
plan_direct-HasHead job p [] e = tt
plan_direct-HasHead job p (t ∷ ts) e =
    (direct_unit job t, ap (λ us. us ++ direct_unit job t ∷ []) e, refl)

abbrev IsDirectPlan : List Target → Plan → Type 0
IsDirectPlan el p = ((el ≡ []) × (p.units ≡ [])) ⊎ IsBest el p

-- The first of the sorted targets is best, and one of the targets.
head-IsBest :
    (el ts : List Target) (p : Plan)
    → All (λ t. Among t el) ts
    → IsSortedBy comes_first ts
    → ((P : Target → Bool) → All (λ t. P t ≡ false) ts → All (λ t. P t ≡ false) el)
    → is_nil ts ≡ false
    → HasHead ts p
    → IsBest el p
head-IsBest el [] p a s back n h = absurd (cc)
head-IsBest el (t ∷ ts) p a s back n (u, one, same) = (
  u,
  one,
  subst (λ x. Among x el) (sym same) a.0,
  All-imp (λ x. comes_first x t ≡ false) (λ x. NoBetter u.target x)
      (λ x h. comes_first-NoBetter u.target x (rw same h)) el
      (back (λ x. comes_first x t) (irrefl comes_first comes_first-IsStrictWeak t, s.0)),
)

OnSome-imp {ℓ κ μ} :
    {A : Type ℓ} (P : A → Type κ) (Q : A → Type μ) (o : Option A)
    → ((a : A) → P a → Q a)
    → OnSome P o
    → OnSome Q o
OnSome-imp P Q none g h = tt
OnSome-imp P Q (some a) g h = g a h

plan_eligible-IsDirectPlan :
    (job : Job) (cs : List Target) (p : Plan) (el : List Target)
    → p.units ≡ []
    → strategy_of job ≡ direct
    → OnSome (IsDirectPlan el) (plan_eligible job cs p el)
unfolding plan_eligible dispatch
plan_eligible-IsDirectPlan job cs p [] e s = inl (refl, e)
plan_eligible-IsDirectPlan job cs p (t ∷ ts) e s = rw s (
    OnSome-imp (HasHead (sort_by comes_first (t ∷ ts))) (IsDirectPlan (t ∷ ts)) _
      (λ q h. inr (
        head-IsBest (t ∷ ts) (sort_by comes_first (t ∷ ts)) q
          (All-sort_by comes_first (λ x. Among x (t ∷ ts)) (t ∷ ts) (Among-all (t ∷ ts) []))
          (sort_by-IsSortedBy comes_first comes_first-IsStrictWeak (t ∷ ts))
          (λ P. All-of_sort_by comes_first (λ x. P x ≡ false) (t ∷ ts))
          (nonempty (sort_by comes_first (t ∷ ts)) (length-sort_by comes_first (t ∷ ts))) h))
      (plan_direct-HasHead job p (sort_by comes_first (t ∷ ts)) e))
  where
    nonempty : (us : List Target) → length us ≡ length (t ∷ ts) → is_nil us ≡ false
    nonempty [] h = absurd (omega (arith, h))
    nonempty (u ∷ us) h = refl

-- The plan of a job that asks for no swarm has no units, and the gate lets no candidate pass, or it
-- has one, at a candidate that the gate lets pass: a local one if one that passes is local, and no
-- slower than any other that passes and is local, or remote, like it.
pub plan-IsDirectPlan :
    (f : Finder) (job : Job) (candidates : List Target) (override : Bool) (p : Plan)
    → plan f job candidates override ≡ some p
    → is_swarm_request job.model ≡ false
    → let passing =
        filter
          (may_pass (policy_of f job override) (scan_sensitive f (prompt_text job)))
          candidates in
      ((passing ≡ []) × (p.units ≡ [])) ⊎ IsBest passing p
unfolding plan start_plan
plan-IsDirectPlan f job candidates override p planned plain =
    let pol = policy_of f job override in
    let asked : strategy_of job ≡ direct = unfold strategy_of in rw plain in
    let eligible =
      (screen_lem f (prompt_text job) pol candidates (policy_of-Watches f job override)).0 in
    subst (λ el. IsDirectPlan el p) eligible
      (of_OnSome (IsDirectPlan (screen pol candidates).eligible) (plan f job candidates override) p
        (plan_eligible-IsDirectPlan job candidates _ (screen pol candidates).eligible refl asked)
        planned)

-- Who merges: `s` is the fastest local target of the pool, if all the proposers are local.
abbrev pub MergesLocally : List Target → List Target → Target → Type 0
MergesLocally pool chosen s =
    (all (λ t. negb (is_remote t)) chosen ≡ true)
    × (is_remote s ≡ false)
    × All (λ t. faster t s ≡ false) (local_of pool)

-- Otherwise it is the strongest of those that proposed, or of the pool.
abbrev pub MergesStrongest : List Target → List Target → Target → Type 0
MergesStrongest pool chosen s =
    ((all (λ t. negb (is_remote t)) chosen ≡ false) ⊎ (local_of pool ≡ []))
    × All (λ t. stronger t s ≡ false) (proven_pool pool chosen)

max_of-IsGreatest :
    (better : Target → Target → Bool) (ts : List Target)
    → IsStrictWeak better
    → OnSome (λ s. All (λ t. better t s ≡ false) ts) (max_of better ts)
unfolding max_of
max_of-IsGreatest better [] order = tt
max_of-IsGreatest better (t ∷ ts) order = max_from-IsGreatest better order t ts

strongest-MergesStrongest :
    (pool chosen : List Target)
    → ((all (λ t. negb (is_remote t)) chosen ≡ false) ⊎ (local_of pool ≡ []))
    → OnSome (MergesStrongest pool chosen) (strongest pool chosen)
unfolding strongest
strongest-MergesStrongest pool chosen why =
    OnSome-imp (λ s. All (λ t. stronger t s ≡ false) (proven_pool pool chosen))
      (MergesStrongest pool chosen) _ (λ s best. (why, best))
      (max_of-IsGreatest stronger (proven_pool pool chosen) stronger-IsStrictWeak)

All-local_of : (pool : List Target) → All (λ t. is_remote t ≡ false) (local_of pool)
All-local_of pool =
    All-imp (λ t. negb (is_remote t) ≡ true) (λ t. is_remote t ≡ false) (λ t h. ground arith)
      (local_of pool) (All-filter_self (λ t. negb (is_remote t)) pool)

fastest_or-Merges :
    (pool chosen ls : List Target)
    → local_of pool ≡ ls
    → all (λ t. negb (is_remote t)) chosen ≡ true
    → OnSome
        (λ s. MergesLocally pool chosen s ⊎ MergesStrongest pool chosen s)
        (fastest_or ls (strongest pool chosen))
unfolding fastest_or max_of
fastest_or-Merges pool chosen [] e h =
    OnSome-imp _ _ (strongest pool chosen) (λ s m. inr m)
      (strongest-MergesStrongest pool chosen (inr e))
fastest_or-Merges pool chosen (t ∷ ts) e h =
    let locals : All (λ u. is_remote u ≡ false) (t ∷ ts) =
      subst (All (λ u. is_remote u ≡ false)) e (All-local_of pool) in
    let s = max_from faster t ts in
    inl (
      h,
      max_from-of_All faster (λ u. is_remote u ≡ false) t ts locals.0 locals.1,
      subst (All (λ u. faster u s ≡ false)) (sym e)
          (max_from-IsGreatest faster faster-IsStrictWeak t ts),
    )

Merges-if :
    (pool chosen : List Target) (b : Bool)
    → all (λ t. negb (is_remote t)) chosen ≡ b
    → OnSome
        (λ s. MergesLocally pool chosen s ⊎ MergesStrongest pool chosen s)
        (if b then fastest_or (local_of pool) (strongest pool chosen) else strongest pool chosen)
Merges-if pool chosen true e = fastest_or-Merges pool chosen (local_of pool) refl e
Merges-if pool chosen false e =
    OnSome-imp _ _ (strongest pool chosen) (λ u m. inr m)
      (strongest-MergesStrongest pool chosen (inl e))

-- If every proposer is local and the pool has a local target, the fastest of the local targets
-- merges. Otherwise it is the target with the most parameters, and among those the fastest, of the
-- targets in the pool that proposed, or of the whole pool if none did.
pub pick_synthesizer-IsBest :
    (pool chosen : List Target) (s : Target)
    → pick_synthesizer pool chosen ≡ some s
    → MergesLocally pool chosen s ⊎ MergesStrongest pool chosen s
unfolding pick_synthesizer
pick_synthesizer-IsBest pool chosen s picked =
    of_OnSome (λ u. MergesLocally pool chosen u ⊎ MergesStrongest pool chosen u) _ s
      (Merges-if pool chosen _ refl) picked
