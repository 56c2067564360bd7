-- ===== src/Execution/Queue/Roundtrip.antt =====
-- `claim` and `requeue` of src/mycellm/execution/queue.py.
use mycellm.Prelude.{
  ℕ, ◌+◌, ◌-◌, ◌≡◌, inl, inr, refl, sym, ap, ◌∙◌, String, true, false, [], ◌∷◌, map, filter, is_nil,
  negb, All, if◌then◌else◌, arith, Bool-cases, subst, eq_iff, ◌≢◌,
}
use mycellm.Execution.Queue.Row.{
  QueuedJob, Rows, JobState, WaitingReason, no_reason, queued, is_queued,
}
use mycellm.Execution.Queue.{
  has_id, update_where, claims, claim, claim_row, requeue, requeue_row, runs_as,
}
use mycellm.Execution.Queue.Stages.{queued_of, and_left, and_right}
use mycellm.Execution.Queue.Validity.{RowOk, Valid}

claims-claim_row : (id : String) (now : ℕ) (r : QueuedJob) → claims id (claim_row now r) ≡ false
unfolding claims
claims-claim_row id now r = ground arith

no_claims :
    (id : String) (now : ℕ) (rows : Rows)
    → negb (is_nil (filter (claims id) (update_where (claims id) (claim_row now) rows))) ≡ false
unfolding update_where
no_claims id now [] = refl
no_claims id now (r ∷ rows) = elim (Bool-cases (claims id r)) [
  | inl e ↦ rw e (rw (claims-claim_row id now r) (no_claims id now rows))
  | inr e ↦ rw e (rw e (no_claims id now rows))
]

-- Once a job is claimed, a second claim fails, whatever the times: after a claim no row is left to claim.
pub claim_twice :
    (id : String) (now later : ℕ) (rows : Rows) → (claim id later (claim id now rows).0).1 ≡ false
unfolding claim
claim_twice id now later rows = no_claims id now rows

-- A row without its time stamp and its reason to wait.
abbrev pub forget : QueuedJob → QueuedJob
forget r = record r { updated_at = 0; waiting_reason = no_reason }

claims-has_id : (id : String) (r : QueuedJob) → claims id r ≡ true → has_id id r ≡ true
unfolding claims
claims-has_id id r h = and_left (has_id id r) (is_queued r.state) h

claims-is_queued : (id : String) (r : QueuedJob) → claims id r ≡ true → is_queued r.state ≡ true
unfolding claims
claims-is_queued id r h = and_right (has_id id r) (is_queued r.state) h

-- Where no row has the identifier, there is none to claim.
unclaimed :
    (id : String) (rows : Rows)
    → All (λ s. has_id id s ≡ false) rows
    → negb (is_nil (filter (claims id) rows)) ≡ false
unfolding claims
unclaimed id [] h = refl
unclaimed id (r ∷ rows) h = rw h.0 (unclaimed id rows h.1)

claims_none :
    (id : String) (rows : Rows)
    → All (λ s. has_id id s ≡ false) rows
    → negb (is_nil (filter (claims id) rows)) ≢ true
claims_none id rows h k = let m = unclaimed id rows h in absurd (cc)

module _ (id : String) (now later : ℕ) (w : WaitingReason) where
  step : QueuedJob → QueuedJob
  step r =
      let y : QueuedJob = if claims id r then claim_row now r else r in
      if runs_as id y then requeue_row later w y else y

  step_other : (r : QueuedJob) → has_id id r ≡ false → step r ≡ r
  unfolding step claims
  step_other r h = rw h (rw h refl)

  step_others :
      (rows : Rows)
      → All (λ s. has_id id s ≡ false) rows
      → map forget (requeue id later w (update_where (claims id) (claim_row now) rows))
        ≡ map forget rows
  unfolding requeue update_where step
  step_others [] h = refl
  step_others (r ∷ rows) h =
      ap
        (λ x.
          forget x
          ∷ map forget (requeue id later w (update_where (claims id) (claim_row now) rows)))
        (step_other r h.0)
      ∙ ap (λ l. forget r ∷ l) (step_others rows h.1)

  -- A row with other values where a claim and a requeue write.
  with_values : QueuedJob → JobState → ℕ → ℕ → QueuedJob
  with_values r s t a = record r {
    state = s;
    started_at = t;
    attempts = a;
    updated_at = 0;
    waiting_reason = no_reason;
  }

  values_eq :
      (r : QueuedJob) (s : JobState) (t a : ℕ)
      → s ≡ r.state
      → t ≡ r.started_at
      → a ≡ r.attempts
      → with_values r s t a ≡ forget r
  unfolding with_values
  values_eq r s t a h k l =
      ap (λ x. with_values r x t a) h
      ∙ ap (λ x. with_values r r.state x a) k
      ∙ ap (λ x. with_values r r.state r.started_at x) l

  step_claimed : (r : QueuedJob) → claims id r ≡ true → RowOk r → forget (step r) ≡ forget r
  unfolding step with_values
  step_claimed r h ok =
      let same_id : has_id id r ≡ true = claims-has_id id r h in
      let waits : is_queued r.state ≡ true = claims-is_queued id r h in
      rw h (
        rw same_id (
          values_eq r queued 0 (r.attempts + 1 - 1) (sym (queued_of r.state waits))
            (sym (ok.1 waits)) (omega arith)))

  -- What a claim that succeeds and a requeue leave of the rows.
  restored :
      (rows : Rows)
      → Valid rows
      → negb (is_nil (filter (claims id) rows)) ≡ true
      → map forget (requeue id later w (update_where (claims id) (claim_row now) rows))
        ≡ map forget rows
  unfolding requeue update_where step
  restored [] v h = absurd (cc)
  restored (r ∷ rows) v h = elim (Bool-cases (claims id r)) [
    | inl e ↦
        ap
          (λ x. x ∷ map forget (requeue id later w (update_where (claims id) (claim_row now) rows)))
          (step_claimed r e v.1.0)
        ∙ ap (λ l. forget r ∷ l)
            (step_others rows (
              subst (λ i. All (λ s. has_id i s ≡ false) rows)
                ((eq_iff r.job_id id).0 (claims-has_id id r e)) v.0.0))
    | inr e ↦
        let rest = restored rows (v.0.1, v.1.1) (rw e at h) in
        elim (Bool-cases (has_id id r)) [
          | inl k ↦ absurd (
              claims_none id rows
                (subst (λ i. All (λ s. has_id i s ≡ false) rows) ((eq_iff r.job_id id).0 k) v.0.0)
                (rw e at h))
          | inr k ↦
              ap
                (λ x.
                  forget x
                  ∷ map forget (requeue id later w (update_where (claims id) (claim_row now) rows)))
                (step_other r k)
              ∙ ap (λ l. forget r ∷ l) rest
        ]
  ]

-- A job that is claimed and then put back is as it was before, its attempts and its start
-- included, but for its time stamp and its reason to wait, and so is every other job.
pub requeue-claim :
    (id : String) (now later : ℕ) (w : WaitingReason) (rows : Rows)
    → Valid rows
    → (claim id now rows).1 ≡ true
    → map forget (requeue id later w (claim id now rows).0) ≡ map forget rows
unfolding claim
requeue-claim id now later w rows v h = restored id now later w rows v h
