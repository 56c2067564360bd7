-- ===== src/Execution/Scheduler/Conservation.antt =====
-- src/mycellm/execution/scheduler.py: a tick neither makes nor loses credits.
use mycellm.Prelude.{
  ℕ, ◌≡◌, inl, inr, refl, ◌∙◌, String, some, false, List, [], ◌∷◌, Bool-cases, ◌==◌,
}
use mycellm.Execution.Models.{Target}
use mycellm.Execution.Queue.Row.{QueuedJob}
use mycellm.Execution.Queue.{claim, pending, pending_limit}
use mycellm.Execution.Queue.Validity.{Distinct}
use mycellm.Execution.Queue.Tiers.{Sizes, waiting_reason_for}
use mycellm.Accounting.Ledger.{Ledger}
use mycellm.Accounting.Tracker.Payment.{Open}
use mycellm.Execution.Scheduler.{
  Node, Scheduler, is_no_reason, is_full, eligible, targets_for, targets_of, spawn, claim_and_spawn,
  try_job, start_jobs, serve_pending, expire_and_refund, tick,
}
use mycellm.Execution.Scheduler.Stakes.{at_stake, at_stake-claim, at_stake-note_waiting}
use mycellm.Execution.Scheduler.Payback.{wealth, expire_and_refund_conserves}

module _ (owner : String) where
  -- The ledger and what the owner has at stake stay.
  abbrev Keeps : Scheduler → Scheduler → Type 0
  Keeps s s' = (s'.ledger ≡ s.ledger) × (at_stake owner s'.rows ≡ at_stake owner s.rows)

  claim_and_spawn-Keeps :
      (now : ℕ) (job : QueuedJob) (ts : List Target) (s : Scheduler)
      → Keeps s ((claim_and_spawn now job ts s).0)
  unfolding claim_and_spawn spawn
  claim_and_spawn-Keeps now job ts s = elim (Bool-cases (claim job.job_id now s.rows).1) [
    | inl e ↦ rw e (refl, at_stake-claim owner job.job_id now s.rows)
    | inr e ↦ rw e (refl, at_stake-claim owner job.job_id now s.rows)
  ]

  try_job-Keeps :
      (sizes : Sizes) (now : ℕ) (all_targets : List Target) (job : QueuedJob) (s : Scheduler)
      → Keeps s ((try_job sizes now all_targets job s).0)
  unfolding try_job
  try_job-Keeps sizes now all_targets job s =
      let targets = targets_for sizes all_targets job in
      let wait = waiting_reason_for job targets all_targets in
      elim (Bool-cases (is_no_reason wait)) [
        | inl e ↦ rw e (claim_and_spawn-Keeps now job targets s)
        | inr e ↦ rw e (refl, at_stake-note_waiting owner job.job_id now wait s.rows)
      ]

  start_jobs-Keeps :
      (sizes : Sizes) (now : ℕ) (all_targets : List Target) (jobs : List QueuedJob) (s : Scheduler)
      → Keeps s ((start_jobs sizes now all_targets jobs s).0)
  unfolding start_jobs
  start_jobs-Keeps sizes now all_targets [] s = (refl, refl)
  start_jobs-Keeps sizes now all_targets (job ∷ jobs) s = elim (Bool-cases (is_full s)) [
    | inl e ↦ rw e (refl, refl)
    | inr e ↦
        let first = try_job-Keeps sizes now all_targets job s in
        let rest =
          start_jobs-Keeps sizes now all_targets jobs (try_job sizes now all_targets job s).0 in
        rw e (rest.0 ∙ first.0, rest.1 ∙ first.1)
  ]

  serve_pending-Keeps :
      (sizes : Sizes) (node : Node) (now : ℕ) (jobs : List QueuedJob) (s : Scheduler)
      → Keeps s ((serve_pending sizes node now jobs s).0)
  unfolding serve_pending
  serve_pending-Keeps sizes node now [] s = (refl, refl)
  serve_pending-Keeps sizes node now (head ∷ jobs) s = elim (Bool-cases (eligible node s).0) [
    | inl e ↦ rw e (start_jobs-Keeps sizes now (targets_of node) (head ∷ jobs) _)
    | inr e ↦ rw e (refl, at_stake-note_waiting owner head.job_id now _ s.rows)
  ]

  -- Over a tick, the balance of an owner with an account and the stakes of its jobs that are not
  -- final add up to the same as before, if no two rows have one identifier.
  pub tick_conserves :
      (sizes : Sizes) (node : Node) (now : ℕ) (tx : String → String) (s : Scheduler) (l : Ledger)
      → (owner == "") ≡ false
      → s.ledger ≡ some l
      → Open owner "" l.accounts
      → Distinct s.rows
      → let s' = (tick sizes node now tx s).0 in
        (l' : Ledger) × (s'.ledger ≡ some l') × (wealth owner s'.rows l' ≡ wealth owner s.rows l)
  unfolding tick
  tick_conserves sizes node now tx s l named h o d =
      let mid = expire_and_refund node now tx s in
      let paid = expire_and_refund_conserves owner node now tx s l named h o d in
      let kept =
        serve_pending-Keeps sizes node now (pending mid.owner now pending_limit mid.rows) mid in
      (paid.0, kept.0 ∙ paid.1, rw (kept.1) (paid.3))
