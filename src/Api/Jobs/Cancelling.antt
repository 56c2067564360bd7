-- ===== src/Api/Jobs/Cancelling.antt =====
-- src/mycellm/api/jobs.py: what cancelling a job does to its state and its stake.
use mycellm.Prelude.{
  ℕ, ◌+◌, ◌≡◌, inl, inr, refl, ap, ◌∙◌, String, some, Bool, true, false, ◌||◌, [], ◌∷◌, filter,
  is_nil, Bool-cases, ltb, eq_iff, arith, if◌then◌else◌,
}
use mycellm.Execution.Queue.Row.{
  QueuedJob, Rows, JobState, terminal, is_queued, is_running, queued, running, done, failed,
  expired, cancelled,
}
use mycellm.Execution.Queue.{has_id, cancel, cancellable, cancel_row, get}
use mycellm.Execution.Queue.Validity.{Distinct}
use mycellm.Execution.Queue.Stages.{and_left}
use mycellm.Accounting.Ledger.{Ledger, balance_of, credit_account}
use mycellm.Accounting.Tracker.Payment.{Open, balance_of-credit}
use mycellm.Execution.Scheduler.Stakes.{stake_in, at_stake, at_stake_changes}
use mycellm.Execution.Scheduler.Payback.{wealth}
use mycellm.Execution.Scheduler.Outcome.{has_id_found, get-update_where_found}
use mycellm.Api.Jobs.{
  Node, return_stake, cancel_memo, cancel_found, cancel_in, cancel_job, Cancelled, cancellation,
}

filter_found :
    (id : String) (p : QueuedJob → Bool) (rows : Rows) (r : QueuedJob)
    → get id rows ≡ some r
    → p r ≡ true
    → is_nil (filter p rows) ≡ false
unfolding get
filter_found id p [] r h q = absurd (cc)
filter_found id p (x ∷ rows) r h q = elim (Bool-cases (p x)) [
  | inl e ↦ rw e refl
  | inr e ↦ rw e (elim (Bool-cases (has_id id x)) [
    | inl k ↦
        let here : some x ≡ some r = rw k at h in
        let found : x ≡ r = ground arith in let hit : p x ≡ true = rw found q in absurd (cc)
    | inr k ↦ filter_found id p rows r (rw k at h) q
  ])
]

open_states : (s : JobState) → terminal s ≡ false → (is_queued s || is_running s) ≡ true
unfolding terminal
open_states queued h = refl
open_states running h = refl
open_states done h = absurd (cc)
open_states failed h = absurd (cc)
open_states expired h = absurd (cc)
open_states cancelled h = absurd (cc)

module _ (id : String) (now : ℕ) (tx : String) (rows : Rows) (l : Ledger) (job : QueuedJob)
    (here : get id rows ≡ some job) where
  cancellable_here : terminal job.state ≡ false → cancellable id job ≡ true
  cancellable_here h = rw (has_id_found id rows job here, open_states job.state h) refl

  cancel_succeeds : terminal job.state ≡ false → (cancel id now rows).1 ≡ true
  unfolding cancel
  cancel_succeeds h = rw (filter_found id (cancellable id) rows job here (cancellable_here h)) refl

  get-cancel :
      terminal job.state ≡ false → get id ((cancel id now rows).0) ≡ some (cancel_row now job)
  unfolding cancel
  get-cancel h =
      get-update_where_found id (cancellable id) (cancel_row now) (λ r. refl) rows job here
      ∙ rw (cancellable_here h) refl

  at_stake-cancel :
      Distinct rows
      → terminal job.state ≡ false
      → at_stake job.owner_id ((cancel id now rows).0) + job.stake ≡ at_stake job.owner_id rows
  unfolding cancel
  at_stake-cancel d h =
      let changed =
        at_stake_changes job.owner_id (cancellable id) (cancel_row now) id
          (λ r e. and_left (has_id id r) _ e) rows job d here (cancellable_here h) in
      let before : stake_in job.owner_id job ≡ job.stake =
        rw ((eq_iff job.owner_id job.owner_id).1 refl, h) refl in
      let after : stake_in job.owner_id (cancel_row now job) ≡ 0 =
        unfold terminal in rw ((eq_iff job.owner_id job.owner_id).1 refl) refl in
      omega (arith, changed, before, after)

  -- The stake that a cancellation gives back.
  abbrev refunded : ℕ
  refunded = if is_queued job.state then job.stake else 0

  return_stake_lem :
      Open job.owner_id "" l.accounts
      → (l' : Ledger) × (return_stake tx true job (some l) ≡ (some l', refunded))
        × (balance_of job.owner_id "" l' ≡ balance_of job.owner_id "" l + refunded)
  unfolding return_stake
  return_stake_lem o = elim (Bool-cases (is_queued job.state)) [
    | inr e ↦ rw e (elim (Bool-cases (ltb 0 job.stake)) [
      | inl k ↦ rw k (l, refl, omega arith)
      | inr k ↦ rw k (l, refl, omega arith)
    ])
    | inl e ↦ rw e (elim (Bool-cases (ltb 0 job.stake)) [
      | inl k ↦ rw k (
        credit_account job.owner_id "" job.stake (cancel_memo tx) l,
        refl,
        balance_of-credit job.owner_id "" job.stake (cancel_memo tx) l o,
      )
      | inr k ↦
          let zero_stake : job.stake ≡ 0 = ground arith in
          rw k (l, rw zero_stake refl, rw zero_stake (omega arith))
    ])
  ]

  -- In a table with no identifier twice, and where the owner has an account, a job that is queued or
  -- running and is cancelled ends in the state CANCELLED. One that waited has its whole stake back, so that
  -- the owner's balance and stakes add up to the same as before; one that was running has nothing
  -- back, and the owner's sum is less by the stake.
  pub cancel_job_lem :
      (node : Node)
      → node.queue ≡ some rows
      → node.ledger ≡ some l
      → Distinct rows
      → Open job.owner_id "" l.accounts
      → terminal job.state ≡ false
      → let (node', a) = cancel_job id now tx node in
        (rows' : Rows) × (l' : Ledger) × (node'.queue ≡ some rows')
        × (node'.ledger ≡ some l')
        × ((r : QueuedJob) × (get id rows' ≡ some r)
            × (r.state ≡ cancelled)
            × (r.stake ≡ job.stake))
        × (a ≡ cancellation true (if is_queued job.state then job.stake else 0))
        × (wealth job.owner_id rows' l' + (if is_queued job.state then 0 else job.stake)
            ≡ wealth job.owner_id rows l)
  unfolding cancel_job
  cancel_job_lem node queue ledger d o h =
      let back = return_stake_lem o in
      let end : Node × Cancelled = (
        record node { queue = some ((cancel id now rows).0); ledger = some (back.0) },
        cancellation true refunded,
      ) in
      let runs : cancel_in id now tx node node.queue ≡ end =
        ap (cancel_in id now tx node) queue
        ∙ (unfold cancel_in in ap (cancel_found id now tx rows node) here)
        ∙ (unfold cancel_found in rw (h, cancel_succeeds h, ledger, back.1) refl) in
      let kept = at_stake-cancel d h in
      let sums : wealth job.owner_id ((cancel id now rows).0) (back.0)
            + (if is_queued job.state then 0 else job.stake)
          ≡ wealth job.owner_id rows l =
        rw (back.2) (elim (Bool-cases (is_queued job.state)) [
          | inl e ↦ rw e (omega (arith, kept))
          | inr e ↦ rw e (omega (arith, kept))
        ]) in
      (
        (cancel id now rows).0,
        back.0,
        ap (λ x. (x.0).queue) runs,
        ap (λ x. (x.0).ledger) runs,
        (cancel_row now job, get-cancel h, refl, refl),
        ap (λ x. x.1) runs,
        sums,
      )
