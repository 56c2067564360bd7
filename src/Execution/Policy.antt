-- ===== src/Execution/Policy.antt =====
-- src/mycellm/execution/policy.py: the gate on where a prompt may go. The policy keeps the result
-- of one scan for each trust level, as its `_cache` does; `scan` is `scan_with_policy` at the
-- policy's prompt. The text of a reason is a constructor with what the text shows.
pub mod Gate
pub mod Safety
pub mod Samples
mod Tests
use Prim.Native.String.{compare}
use text.Mathlib.Text.{is_lt}
use mycellm.Prelude.{
  ℕ, String, Bool, true, false, ◌&&◌, Option, none, some, List, [], ◌∷◌, map, ltb, any, filter,
  negb, if◌then◌else◌,
}
use mycellm.Prelude.Sort.{sort_by}
use mycellm.Prelude.Text.{Text, codes, strip, lower, text_eq}
use mycellm.Privacy.{
  Severity, Highest, ScanResult, Trust, untrusted, trusted, full, local, Action, allow, warn, block,
  is_high, SensitiveMatch,
}
use mycellm.Execution.Models.{Target, is_remote, member}

-- TRUST_ORDER
unfoldable pub trust_order : Trust → ℕ
trust_order untrusted = 0
trust_order trusted = 1
trust_order full = 2
trust_order local = 3

-- `requested in TRUST_ORDER`, with the entry that is found.
unfoldable pub requested_trust : String → Option Trust
unfolding strip lower text_eq
requested_trust s =
    let word = lower (strip (codes s)) in
    if text_eq word (codes "untrusted")
    then some untrusted
    else if text_eq word (codes "trusted")
    then some trusted
    else if text_eq word (codes "full")
    then some full
    else if text_eq word (codes "local")
    then some local
    else none

unfoldable pub shares : List String → List String → Bool
unfolding member
shares own theirs = any (λ n. member n theirs) own

unfoldable pub trust_for : Target → Option (List String) → Trust
unfolding shares
trust_for t own =
    if is_remote t
    then (elim own [
      | none ↦ untrusted
      | some nets ↦ if shares nets t.network_ids then trusted else untrusted
    ])
    else local

pub data EgressReason : Type 0 where
  below_ceiling : Trust → Trust → EgressReason
  local_execution override_acknowledged : EgressReason
  sensitive_blocked : Trust → List String → Highest → EgressReason
  allowed_with_warning : Highest → EgressReason
  egress_permitted : Trust → EgressReason

pub record EgressDecision : Type 0 where
  pub allowed : Bool
  pub trust : Trust
  pub reason : EgressReason

pub record EgressPolicy : Type 0 where
  pub scan : Trust → ScanResult
  pub requested : Option Trust
  pub own_networks : Option (List String)
  pub override : Bool
  pub cache : Trust → Option ScanResult

unfoldable pub new_policy :
    (Trust → ScanResult) → String → Option (List String) → Bool → EgressPolicy
unfolding requested_trust
new_policy scan requested own override = record {
  scan = scan;
  requested = requested_trust requested;
  own_networks = own;
  override = override;
  cache = λ t. none;
}

unfoldable pub trust_eq : Trust → Trust → Bool
trust_eq untrusted untrusted = true
trust_eq trusted trusted = true
trust_eq full full = true
trust_eq local local = true
trust_eq _ _ = false

-- `_scan`: the result, and the policy with the result in its cache.
unfoldable pub scan_cached : EgressPolicy → Trust → ScanResult × EgressPolicy
unfolding trust_eq
scan_cached p t = elim (p.cache t) [
  | some r ↦ (r, p)
  | none ↦ (p.scan t, record p { cache = λ u. if trust_eq u t then some (p.scan t) else p.cache u })
]

dedup : List String → List String
unfolding member
dedup [] = []
dedup (x ∷ xs) = let rest = dedup xs in if member x rest then rest else x ∷ rest

unfoldable pub high_labels : List SensitiveMatch → List String
unfolding dedup sort_by
high_labels ms =
    sort_by (λ a b. is_lt (compare a b)) (dedup (map (λ m. m.label) (filter is_high ms)))

unfoldable pub judge_scan : Trust → ScanResult → EgressDecision
unfolding high_labels
judge_scan trust r = elim r.action [
  | block ↦ record {
    allowed = false;
    trust = trust;
    reason = sensitive_blocked trust (high_labels r.matches) r.highest_severity;
  }
  | warn ↦ record {
    allowed = true;
    trust = trust;
    reason = allowed_with_warning r.highest_severity;
  }
  | allow ↦ record { allowed = true; trust = trust; reason = egress_permitted trust }
]

-- The caller's own ceiling.
unfoldable pub under_ceiling : EgressPolicy → Trust → Option Trust
unfolding trust_order
under_ceiling p trust = elim p.requested [
  | none ↦ none
  | some r ↦ if ltb (trust_order trust) (trust_order r) then some r else none
]

scan_and_judge : EgressPolicy → Trust → EgressDecision × EgressPolicy
unfolding scan_cached judge_scan
scan_and_judge p trust = let (r, p') = scan_cached p trust in (judge_scan trust r, p')

decide_remote : EgressPolicy → Trust → EgressDecision × EgressPolicy
unfolding scan_and_judge
decide_remote p trust =
    if p.override
    then (record { allowed = true; trust = trust; reason = override_acknowledged }, p)
    else scan_and_judge p trust

unfoldable pub decide : EgressPolicy → Target → EgressDecision × EgressPolicy
unfolding trust_for under_ceiling decide_remote trust_eq
decide p t =
    let trust = trust_for t p.own_networks in
    elim (under_ceiling p trust) [
      | some r ↦ (record { allowed = false; trust = trust; reason = below_ceiling r trust }, p)
      | none ↦
          if trust_eq trust local
          then (record { allowed = true; trust = trust; reason = local_execution }, p)
          else decide_remote p trust
    ]

-- `any(self.decide(t).allowed for t in targets)`: it stops at the first that passes.
unfoldable pub any_allowed : EgressPolicy → List Target → Bool × EgressPolicy
unfolding decide
any_allowed p [] = (false, p)
any_allowed p (t ∷ ts) =
    let (d, p') = decide p t in
    let rest = any_allowed p' ts in if d.allowed then (true, p') else rest

unfoldable pub blocked_everywhere : EgressPolicy → List Target → Bool × EgressPolicy
unfolding any_allowed
blocked_everywhere p [] = (false, p)
blocked_everywhere p (t ∷ ts) = let (found, p') = any_allowed p (t ∷ ts) in (negb found, p')
