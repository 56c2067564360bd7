-- ===== src/Execution/Scheduler/Outcome.antt =====
-- src/mycellm/execution/scheduler.py: how a task leaves its job and its stake.
use mycellm.Prelude.{
  ℕ, ◌+◌, ◌≡◌, inl, inr, refl, ◌∙◌, String, some, Bool, true, false, ◌&&◌, List, [], ◌∷◌,
  Bool-cases, negb, if◌then◌else◌, arith,
}
use mycellm.Prelude.Text.{Text, is_empty}
use mycellm.Execution.Queue.Row.{
  QueuedJob, Rows, JobState, done, failed, running, queued, UnitRecord, interrupted_retry,
  no_failure,
}
use mycellm.Execution.Queue.{
  has_id, update_where, finish, finish_row, requeue, requeue_row, runs_as, get, Ending,
}
use mycellm.Accounting.Ledger.{Ledger, balance_of, credit_account}
use mycellm.Accounting.Tracker.Payment.{Open, balance_of-credit}
use mycellm.Execution.Scheduler.{Node, Scheduler, Task, refundable, refund_memo, refund}
use mycellm.Execution.Scheduler.Running.{
  Answer, answer, raised, interrupted, run, fail, complete, failure,
}
use mycellm.Execution.Scheduler.Attribution.{attribution}
use mycellm.Execution.Scheduler.Refunds.{refund-credit}

-- An update of every row with an identifier is seen by `get`.
pub get-update_where_found :
    (id : String) (p : QueuedJob → Bool) (f : QueuedJob → QueuedJob)
    → ((r : QueuedJob) → (f r).job_id ≡ r.job_id)
    → (rows : Rows) (r : QueuedJob) → get id rows ≡ some r
    → get id (update_where p f rows) ≡ some (if p r then f r else r)
unfolding get update_where
get-update_where_found id p f same [] r h = absurd (cc)
get-update_where_found id p f same (x ∷ rows) r h = elim (Bool-cases (has_id id x)) [
  | inl e ↦
      let here : some x ≡ some r = rw e at h in
      elim (Bool-cases (p x)) [ inl q ↦ ground (arith, same x) | inr q ↦ ground arith ]
  | inr e ↦
      let rest = get-update_where_found id p f same rows r (rw e at h) in
      elim (Bool-cases (p x)) [ inl q ↦ ground (arith, same x) | inr q ↦ ground arith ]
]

pub has_id_found :
    (id : String) (rows : Rows) (r : QueuedJob) → get id rows ≡ some r → has_id id r ≡ true
unfolding get
has_id_found id [] r h = absurd (cc)
has_id_found id (x ∷ rows) r h = elim (Bool-cases (has_id id x)) [
  | inl e ↦ let here : some x ≡ some r = rw e at h in ground arith
  | inr e ↦ has_id_found id rows r (rw e at h)
]

-- The run raised, or answered an error and no text.
abbrev pub fails : Answer → Bool
fails (raised e) = true
fails interrupted = false
fails (answer text error meta) = negb (is_empty error) && is_empty text

abbrev pub end_state : Answer → JobState
end_state interrupted = queued
end_state (raised e) = failed
end_state (answer text error meta) = if negb (is_empty error) && is_empty text then failed else done

module _ (node : Node) (now : ℕ) (tx : String) (t : Task) (s : Scheduler) (r : QueuedJob)
    (l : Ledger) (has_ledger : s.ledger ≡ some l) (here : get t.job.job_id s.rows ≡ some r) where
  -- What the run leaves: the job in a state, and the ledger.
  abbrev Leaves : JobState → Bool → Scheduler → Type 0
  Leaves state pays s' =
      (r' : QueuedJob) × (get t.job.job_id s'.rows ≡ some r')
      × (r'.state ≡ state)
      × (s'.ledger
          ≡ some (
              if pays
              then credit_account r.owner_id "" r.stake (refund_memo node "failed" tx) l
              else l))

  finish_found :
      (e : Ending) → get t.job.job_id (finish t.job.job_id now e s.rows) ≡ some (finish_row now e r)
  unfolding finish
  finish_found e =
      get-update_where_found t.job.job_id (has_id t.job.job_id) (finish_row now e) (λ r. refl)
        s.rows r here
      ∙ rw (has_id_found t.job.job_id s.rows r here) refl

  fail-Leaves :
      (error : Text) (meta : List UnitRecord)
      → refundable r ≡ true
      → Leaves failed true (fail node now tx t error meta s)
  unfolding fail
  fail-Leaves error meta pays =
      let e = failure error meta in
      (
        finish_row now e r,
        unfold refund in finish_found e,
        refl,
        refund-credit node "failed" tx t.job.job_id
            (record s { rows = finish t.job.job_id now e s.rows }) l (finish_row now e r) has_ledger
            (finish_found e) pays,
      )

  complete-Leaves :
      (text : Text) (meta : List UnitRecord) → Leaves done false (complete now t text meta s)
  unfolding complete
  complete-Leaves text meta =
      let (served_by, served_model) = attribution meta t.targets in
      let e : Ending = record {
        state = done;
        text = text;
        error = no_failure;
        served_by = served_by;
        served_model = served_model;
        meta = meta;
      } in
      (finish_row now e r, finish_found e, refl, has_ledger)

  run-Leaves :
      (a : Answer)
      → r.state ≡ running
      → refundable r ≡ true
      → Leaves (end_state a) (fails a) (run node now tx t a s)
  unfolding run
  run-Leaves (raised e) runs pays = fail-Leaves e [] pays
  run-Leaves interrupted runs pays = (
    requeue_row now interrupted_retry r,
    unfold requeue in
        (get-update_where_found t.job.job_id (runs_as t.job.job_id)
            (requeue_row now interrupted_retry) (λ r. refl) s.rows r here
          ∙ rw (has_id_found t.job.job_id s.rows r here, runs) refl),
    refl,
    has_ledger,
  )
  run-Leaves (answer text error meta) runs pays =
      elim (Bool-cases (negb (is_empty error) && is_empty text)) [
        | inl e ↦ rw e (fail-Leaves error meta pays)
        | inr e ↦ rw e (complete-Leaves text meta)
      ]

  -- When the task of a job that is still running and has a stake to pay back to
  -- an account ends, its owner has the stake back if the task raised
  -- or answered an error and no text, and the job is failed; otherwise no balance changes, and the job
  -- is queued again if the task was interrupted and done if not.
  pub run_pays_back :
      (a : Answer)
      → r.state ≡ running
      → refundable r ≡ true
      → Open r.owner_id "" l.accounts
      → let s' = run node now tx t a s in
        (r' : QueuedJob) × (l' : Ledger) × (get t.job.job_id s'.rows ≡ some r')
        × (r'.state ≡ end_state a)
        × (s'.ledger ≡ some l')
        × (balance_of r.owner_id "" l'
            ≡ balance_of r.owner_id "" l + (if fails a then r.stake else 0))
        × (fails a ≡ false → l' ≡ l)
  run_pays_back a runs pays known =
      let left = run-Leaves a runs pays in
      elim (Bool-cases (fails a)) [
        | inl e ↦ (
          left.0,
          credit_account r.owner_id "" r.stake (refund_memo node "failed" tx) l,
          left.1,
          left.2,
          left.3 ∙ rw e refl,
          rw e (balance_of-credit r.owner_id "" r.stake (refund_memo node "failed" tx) l known),
          λ h. absurd (cc),
        )
        | inr e ↦ (left.0, l, left.1, left.2, left.3 ∙ rw e refl, rw e (omega arith), λ h. refl)
      ]
