-- ===== src/Execution/Scheduler/Eligibility.antt =====
-- src/mycellm/execution/scheduler.py: a device that is not fit for work starts none.
use mycellm.Prelude.{
  ℕ, ◌≤◌, ◌≡◌, ◌⊎◌, inl, inr, refl, String, Option, none, some, Bool, true, false, ◌||◌, List, [],
  ◌∷◌, filter, length, Bool-cases, Option-cases, arith, subst, ◌∙◌,
}
use mycellm.Execution.Queue.Row.{QueuedJob, Rows, is_running, WaitingReason}
use mycellm.Execution.Queue.{
  update_where, note_waiting, claims, note_row, expire_due, listed, expire_row, pending,
  pending_limit,
}
use mycellm.Execution.Queue.Tiers.{Sizes}
use mycellm.Execution.Scheduler.{
  Hardware, Node, Scheduler, is_full, eligible, serve_pending, expire_and_refund, tick,
}
use mycellm.Execution.Scheduler.Refunds.{refund_all_frame}

-- How many rows are running.
abbrev pub runs : Rows → ℕ
runs rows = length (filter (λ r. is_running r.state) rows)

runs-update_where :
    (p : QueuedJob → Bool) (f : QueuedJob → QueuedJob)
    → ((r : QueuedJob) → is_running r.state ≡ false → is_running ((f r).state) ≡ false)
    → (rows : Rows) → runs (update_where p f rows) ≤ runs rows
unfolding update_where
runs-update_where p f stays [] = omega arith
runs-update_where p f stays (r ∷ rows) = ground (arith, stays r, runs-update_where p f stays rows)

pub runs-expire_due : (now : ℕ) (rows : Rows) → runs ((expire_due now rows).0) ≤ runs rows
unfolding expire_due
runs-expire_due now rows = runs-update_where (listed _) (expire_row now) (λ r h. refl) rows

pub runs-note_waiting :
    (id : String) (now : ℕ) (reason : WaitingReason) (rows : Rows)
    → runs (note_waiting id now reason rows) ≤ runs rows
unfolding note_waiting
runs-note_waiting id now reason rows =
    runs-update_where (claims id) (note_row now reason) (λ r h. h) rows

-- What the device says of itself.
abbrev pub constrained : Option Hardware → Bool
constrained none = false
constrained (some h) = h.power_constrained || h.thermal_constrained

eligible-constrained :
    (node : Node) (s : Scheduler)
    → (constrained node.hardware ≡ true) ⊎ (is_full s ≡ true)
    → (eligible node s).0 ≡ false
unfolding eligible
eligible-constrained node s (inr h) = rw h refl
eligible-constrained node s (inl h) = elim (Bool-cases (is_full s)) [
  | inl e ↦ rw e refl
  | inr e ↦ rw e (elim (Option-cases node.hardware) [
    | inl k ↦ absurd (cc)
    | inr (d, k) ↦
        let bad : (d.power_constrained || d.thermal_constrained) ≡ true =
          subst (λ x. constrained x ≡ true) k h in
        rw k (ground arith)
  ])
]

serve_pending-constrained :
    (sizes : Sizes) (node : Node) (now : ℕ) (jobs : List QueuedJob) (s : Scheduler)
    → (eligible node s).0 ≡ false
    → let (s', started) = serve_pending sizes node now jobs s in
      (started ≡ false) × (s'.tasks ≡ s.tasks) × (runs s'.rows ≤ runs s.rows)
unfolding serve_pending
serve_pending-constrained sizes node now [] s h = (refl, refl, omega arith)
serve_pending-constrained sizes node now (head ∷ jobs) s h =
    rw h (refl, refl, runs-note_waiting head.job_id now _ s.rows)

-- A tick of a device that is short of power, hot or full starts nothing: its tasks are the same, and
-- no more rows are running than before.
pub tick-constrained :
    (sizes : Sizes) (node : Node) (now : ℕ) (tx : String → String) (s : Scheduler)
    → (constrained node.hardware ≡ true) ⊎ (is_full s ≡ true)
    → let (s', started) = tick sizes node now tx s in
      (started ≡ false) × (s'.tasks ≡ s.tasks) × (runs s'.rows ≤ runs s.rows)
unfolding tick expire_and_refund
tick-constrained sizes node now tx s h =
    let mid = expire_and_refund node now tx s in
    let frame : mid ≡ record s { rows = (expire_due now s.rows).0; ledger = mid.ledger } =
      refund_all_frame node "expired" tx (expire_due now s.rows).1 _ in
    let waits =
      serve_pending-constrained sizes node now (pending mid.owner now pending_limit mid.rows) mid
        (eligible-constrained node mid (rw frame (unfold is_full in h))) in
    let fewer = runs-expire_due now s.rows in
    let rows : mid.rows ≡ (expire_due now s.rows).0 = rw frame refl in
    let tasks : mid.tasks ≡ s.tasks = rw frame refl in
    (waits.0, waits.1 ∙ tasks, ground (arith, waits.2, rows, fewer))
