-- ===== src/Execution/Policy/Safety.antt =====
-- When the gate of src/mycellm/execution/policy.py lets a prompt pass, with the scan of
-- src/mycellm/privacy.py behind it.
use mycellm.Prelude.{
  ◌≡◌, refl, Bool, true, false, ◌&&◌, ◌||◌, Option, none, some, List, [], ◌∷◌, arith, leb, any,
  negb, String, ◌∙◌, is_nil,
}
use mycellm.Prelude.Text.{Text}
use mycellm.Privacy.{
  SensitiveMatch, Finder, Trust, untrusted, trusted, is_high, highest, action_for, judge,
  scan_sensitive, scan_with_policy,
}
use mycellm.Execution.Models.{Target, is_remote}
use mycellm.Execution.Policy.{
  EgressPolicy, trust_for, trust_order, trust_eq, under_ceiling, judge_scan, shares, decide,
  any_allowed, blocked_everywhere,
}
use mycellm.Execution.Policy.Gate.{
  IsConsistent, SameRules, verdict, decide-eq-verdict, decide-IsConsistent, decide-SameRules,
}

-- The target meets the caller's own ceiling.
unfoldable pub meets_ceiling : Option Trust → Trust → Bool
meets_ceiling requested trust = elim requested [
  | none ↦ true
  | some r ↦ leb (trust_order r) (trust_order trust)
]

-- The target stands inside one of the requester's networks.
unfoldable pub shares_network : Option (List String) → Target → Bool
shares_network nets t = elim nets [ none ↦ false | some own ↦ shares own t.network_ids ]

-- The gate as one condition over the ceiling, the place of the target and the matches in the text.
unfoldable pub may_pass : EgressPolicy → List SensitiveMatch → Target → Bool
may_pass p found t =
    meets_ceiling p.requested (trust_for t p.own_networks)
    && (negb (is_remote t)
        || (p.override || (shares_network p.own_networks t || negb (any is_high found))))

blocks_untrusted :
    (ms : List SensitiveMatch)
    → (judge_scan untrusted (judge untrusted ms)).allowed ≡ negb (any is_high ms)
unfolding judge_scan judge highest action_for
blocks_untrusted [] = refl
blocks_untrusted (m ∷ ms) = ground arith

passes_trusted : (ms : List SensitiveMatch) → (judge_scan trusted (judge trusted ms)).allowed ≡ true
unfolding judge_scan judge highest action_for
passes_trusted [] = refl
passes_trusted (m ∷ ms) = ground arith

scan_untrusted :
    (f : Finder) (text : Text)
    → (judge_scan untrusted (scan_with_policy f text untrusted)).allowed
      ≡ negb (any is_high (scan_sensitive f text))
unfolding scan_with_policy
scan_untrusted f text = blocks_untrusted (scan_sensitive f text)

scan_trusted :
    (f : Finder) (text : Text)
    → (judge_scan trusted (scan_with_policy f text trusted)).allowed ≡ true
unfolding scan_with_policy
scan_trusted f text = passes_trusted (scan_sensitive f text)

verdict-allowed :
    (f : Finder) (text : Text) (p : EgressPolicy) (t : Target)
    → p.scan ≡ scan_with_policy f text
    → (verdict p t).allowed ≡ may_pass p (scan_sensitive f text) t
unfolding may_pass meets_ceiling verdict under_ceiling trust_for trust_eq shares_network
verdict-allowed f text p t e = rw e (ground (arith, scan_untrusted f text, scan_trusted f text))

module _ (f : Finder) (text : Text) where
  -- A policy over the scan of this text, whose cache holds nothing but the scan's results.
  pub record Watches (p : EgressPolicy) : Type 0 where
    pub scan : p.scan ≡ scan_with_policy f text
    pub consistent : IsConsistent p

  -- The gate lets a prompt go to a target exactly when the target meets the caller's ceiling and
  -- one of these holds: it is this process, the override is set, it shares a network with the
  -- caller, or the text holds no match of high severity.
  pub decide-allowed :
      (p : EgressPolicy) (t : Target)
      → Watches p
      → (decide p t).0.allowed ≡ may_pass p (scan_sensitive f text) t
  decide-allowed p t w = rw (decide-eq-verdict p t w.consistent) (verdict-allowed f text p t w.scan)

  pub decide-Watches : (p : EgressPolicy) (t : Target) → Watches p → Watches (decide p t).1
  decide-Watches p t w = record {
    scan = (decide-SameRules p t).scan ∙ w.scan;
    consistent = decide-IsConsistent p t w.consistent;
  }

  pub may_pass_same :
      (p q : EgressPolicy) (ms : List SensitiveMatch) (t : Target)
      → SameRules p q
      → may_pass q ms t ≡ may_pass p ms t
  unfolding may_pass
  may_pass_same p q ms t s = simp (s.requested, s.own_networks, s.override)

  any-may_pass :
      (p q : EgressPolicy) (ms : List SensitiveMatch) (ts : List Target)
      → SameRules p q
      → any (may_pass q ms) ts ≡ any (may_pass p ms) ts
  any-may_pass p q ms [] s = refl
  any-may_pass p q ms (t ∷ ts) s = cc (may_pass_same p q ms t s, any-may_pass p q ms ts s)

  any_allowed-eq-any :
      (p : EgressPolicy) (ts : List Target)
      → Watches p
      → (any_allowed p ts).0 ≡ any (may_pass p (scan_sensitive f text)) ts
  unfolding any_allowed
  any_allowed-eq-any p [] w = refl
  any_allowed-eq-any p (t ∷ ts) w = ground (
    arith,
    decide-allowed p t w,
    any_allowed-eq-any (decide p t).1 ts (decide-Watches p t w),
    any-may_pass p (decide p t).1 (scan_sensitive f text) ts (decide-SameRules p t),
  )

  -- The caller is told that everything is blocked exactly when there are candidates and the gate
  -- lets none of them pass.
  pub blocked_everywhere_lem :
      (p : EgressPolicy) (ts : List Target)
      → Watches p
      → (blocked_everywhere p ts).0
        ≡ negb (is_nil ts) && negb (any (may_pass p (scan_sensitive f text)) ts)
  unfolding blocked_everywhere
  blocked_everywhere_lem p [] w = refl
  blocked_everywhere_lem p (t ∷ ts) w = cc (any_allowed-eq-any p (t ∷ ts) w)
