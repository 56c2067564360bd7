-- ===== src/Execution/Scheduler/Attribution.antt =====
-- src/mycellm/execution/scheduler.py: who served a job, read back from the targets' texts, which
-- src/mycellm/execution/models.py prints.
use mycellm.Prelude.{
  ℕ, ◌≡◌, refl, String, true, false, ◌||◌, List, [], ◌∷◌, ◌++◌, inl, inr, eqb, ◌==◌, arith,
  if◌then◌else◌, Bool-cases, take, All, ap,
}
use mycellm.Prelude.Text.{Text, codes, starts_with}
use mycellm.Execution.Models.{Target}
use mycellm.Execution.Queue.Row.{UnitRecord}

-- What stands before the first `c`, and after it.
unfoldable pub before : ℕ → Text → Text
before c [] = []
before c (x ∷ xs) = let rest = x ∷ before c xs in if eqb x c then [] else rest

unfoldable pub after : ℕ → Text → Text
after c [] = []
after c (x ∷ xs) = let rest = after c xs in if eqb x c then xs else rest

-- `target.split(":")[1]`, where there is a colon.
unfoldable pub second_part : Text → Text
unfolding before after
second_part t = before 58 (after 58 t)

unfoldable pub attribution : List UnitRecord → List Target → Text × String
unfolding second_part starts_with
attribution [] [] = ([], "")
attribution [] (t ∷ ts) = (codes "local", t.model)
attribution (u ∷ us) targets =
    let rest = attribution us targets in
    if u.role == "direct" || u.role == "synthesizer"
    then if starts_with (codes "peer:") u.target || starts_with (codes "group:") u.target
      then (second_part u.target, u.model)
      else (codes "local", u.model)
    else rest

-- `str(target)`
unfoldable pub target_text : Target → Text
target_text t =
    if t.kind == "local"
    then codes "local:" ++ codes t.model
    else if t.kind == "group"
    then codes "group:"
      ++ (codes (if t.serving_group_id == "" then "external" else t.serving_group_id)
          ++ (codes ":" ++ codes t.model))
    else codes "peer:" ++ (take 8 (codes t.peer_id) ++ (codes ":" ++ codes t.model))

-- What a user is told of the node: `local`, the group, or the first eight letters of the peer.
unfoldable pub served_name : Target → Text
served_name t =
    if t.kind == "local"
    then codes "local"
    else if t.kind == "group"
    then codes (if t.serving_group_id == "" then "external" else t.serving_group_id)
    else take 8 (codes t.peer_id)

before_text : (c : ℕ) (s t : Text) → All (λ x. eqb x c ≡ false) s → before c (s ++ c ∷ t) ≡ s
unfolding before
before_text c [] t h = ground arith
before_text c (x ∷ xs) t h = rw h.0 (ap (λ r. x ∷ r) (before_text c xs t h.1))

attribution_peer :
    (name model : Text) (m role : String) (us : List UnitRecord) (ts : List Target)
    → All (λ x. eqb x 58 ≡ false) name
    → (role == "direct" || role == "synthesizer") ≡ true
    → attribution
        (record { role = role; target = codes "peer:" ++ (name ++ (codes ":" ++ model)); model = m }
          ∷ us)
        ts
      ≡ (name, m)
unfolding attribution second_part starts_with after
attribution_peer name model m role us ts h r = rw (r, before_text 58 name model h) refl

attribution_group :
    (name model : Text) (m role : String) (us : List UnitRecord) (ts : List Target)
    → All (λ x. eqb x 58 ≡ false) name
    → (role == "direct" || role == "synthesizer") ≡ true
    → attribution
        (record {
          role = role;
          target = codes "group:" ++ (name ++ (codes ":" ++ model));
          model = m;
        }
          ∷ us)
        ts
      ≡ (name, m)
unfolding attribution second_part starts_with after
attribution_group name model m role us ts h r = rw (r, before_text 58 name model h) refl

-- Where the first unit of a plan that answers names its target by the target's text, and the target's
-- name has no colon, the job is attributed to that name and to the unit's model.
pub attribution-target_text :
    (t : Target) (m role : String) (us : List UnitRecord) (ts : List Target)
    → All (λ x. eqb x 58 ≡ false) (served_name t)
    → (role == "direct" || role == "synthesizer") ≡ true
    → attribution (record { role = role; target = target_text t; model = m } ∷ us) ts
      ≡ (served_name t, m)
unfolding served_name target_text
attribution-target_text t m role us ts h r = elim (Bool-cases (t.kind == "local")) [
  | inl e ↦ rw e (unfold attribution starts_with in rw r refl)
  | inr e ↦ elim (Bool-cases (t.kind == "group")) [
    | inl g ↦ rw (e, g) (attribution_group _ (codes t.model) m role us ts (rw (e, g) at h) r)
    | inr g ↦ rw (e, g) (attribution_peer _ (codes t.model) m role us ts (rw (e, g) at h) r)
  ]
]
