-- ===== src/Execution/Policy/Gate.antt =====
-- What the gate of src/mycellm/execution/policy.py promises: a decision does not depend on the
-- cache, and secrets and ceilings are kept.
use mycellm.Prelude.{
  ◌≡◌, refl, inl, inr, true, false, none, some, arith, if◌then◌else◌, Option-cases,
}
use mycellm.Privacy.{ScanResult, Trust, untrusted, trusted, full, local}
use mycellm.Execution.Models.{Target}
use mycellm.Execution.Policy.{
  EgressDecision, EgressPolicy, trust_for, trust_eq, under_ceiling, scan_cached, judge_scan,
  scan_and_judge, decide_remote, decide, override_acknowledged, local_execution, below_ceiling,
}

-- Every cached result is the scan's own.
abbrev pub IsConsistent : EgressPolicy → Type 0
IsConsistent p = (t : Trust) (r : ScanResult) → p.cache t ≡ some r → r ≡ p.scan t

-- The decision with no cache.
unfoldable pub verdict : EgressPolicy → Target → EgressDecision
unfolding trust_for under_ceiling judge_scan trust_eq
verdict p t =
    let trust = trust_for t p.own_networks in
    elim (under_ceiling p trust) [
      | some r ↦ record { allowed = false; trust = trust; reason = below_ceiling r trust }
      | none ↦
          if trust_eq trust local
          then record { allowed = true; trust = trust; reason = local_execution }
          else if p.override
          then record { allowed = true; trust = trust; reason = override_acknowledged }
          else judge_scan trust (p.scan trust)
    ]

trust_eq-eq : (s t : Trust) → trust_eq s t ≡ true → s ≡ t
unfolding trust_eq
trust_eq-eq untrusted untrusted h = refl
trust_eq-eq trusted trusted h = refl
trust_eq-eq full full h = refl
trust_eq-eq local local h = refl
trust_eq-eq s t h = cc

-- Two policies differ at most in their caches.
pub record SameRules (p q : EgressPolicy) : Type 0 where
  pub scan : q.scan ≡ p.scan
  pub requested : q.requested ≡ p.requested
  pub own_networks : q.own_networks ≡ p.own_networks
  pub override : q.override ≡ p.override

scan_cached-eq : (p : EgressPolicy) (t : Trust) → IsConsistent p → (scan_cached p t).0 ≡ p.scan t
unfolding scan_cached
scan_cached-eq p t c = elim (Option-cases (p.cache t)) [
  | inl e ↦ rw (e, scan_cached)
  | inr (r, e) ↦ rw (e, scan_cached) (c t r e)
]

scan_cached-IsConsistent :
    (p : EgressPolicy) (t : Trust) → IsConsistent p → IsConsistent (scan_cached p t).1
unfolding scan_cached
scan_cached-IsConsistent p t c u r = elim (Option-cases (p.cache t)) [
  | inl e ↦ λ h. ground (arith, c u r, trust_eq-eq u t)
  | inr (k, e) ↦ rw (e, scan_cached) (c u r)
]

scan_cached-SameRules : (p : EgressPolicy) (t : Trust) → SameRules p (scan_cached p t).1
unfolding scan_cached
scan_cached-SameRules p t = ground arith

-- A decision does not depend on what earlier calls put into the cache: with a cache of the scan's
-- own results it is the verdict that the rules alone give.
pub decide-eq-verdict :
    (p : EgressPolicy) (t : Target) → IsConsistent p → (decide p t).0 ≡ verdict p t
unfolding decide decide_remote scan_and_judge verdict
decide-eq-verdict p t c = ground (arith, scan_cached-eq p (trust_for t p.own_networks) c)

pub decide-IsConsistent :
    (p : EgressPolicy) (t : Target) → IsConsistent p → IsConsistent (decide p t).1
unfolding decide decide_remote scan_and_judge
decide-IsConsistent p t c u r h = ground (
  arith,
  c u r,
  scan_cached-IsConsistent p (trust_for t p.own_networks) c u r,
  scan_cached-SameRules p (trust_for t p.own_networks),
)

pub decide-SameRules : (p : EgressPolicy) (t : Target) → SameRules p (decide p t).1
unfolding decide decide_remote scan_and_judge
decide-SameRules p t = ground (arith, scan_cached-SameRules p (trust_for t p.own_networks))
