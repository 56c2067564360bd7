-- ===== src/Execution/Scheduler/Payback.antt =====
-- src/mycellm/execution/scheduler.py: the jobs that expire give their stakes back, each once.
use mycellm.Prelude.{
  ℕ, ◌+◌, ◌≡◌, inl, inr, refl, sym, ap, ◌∙◌, subst, String, some, true, false, [], ◌∷◌, map, filter,
  All, All-filter, sum_of, Bool-cases, ◌==◌, eq_iff, arith, if◌then◌else◌,
}
use mycellm.Prelude.Text.{eq_flip}
use mycellm.Execution.Queue.Row.{QueuedJob, Rows, terminal, is_queued}
use mycellm.Execution.Queue.{has_id, get, expire_due, expire_row, is_due}
use mycellm.Execution.Queue.Validity.{Distinct, has_id_refl}
use mycellm.Execution.Queue.Stages.{queued_of, and_left}
use mycellm.Execution.Queue.Expiry.{expire_due_exact}
use mycellm.Accounting.Ledger.{Ledger, Memo, balance_of}
use mycellm.Accounting.Tracker.Payment.{
  Open, balance_of-credit, balance_of-credit_other, credit_account-Open,
}
use mycellm.Execution.Scheduler.{
  Node, Scheduler, refundable, pay_back, refund, refund_memo, refund_all, expire_and_refund,
}
use mycellm.Execution.Scheduler.Refunds.{refund_all_frame}
use mycellm.Execution.Scheduler.Stakes.{at_stake}

-- An owner's credits: the balance, and the stakes of the jobs that are not final.
abbrev pub wealth : String → Rows → Ledger → ℕ
wealth owner rows l = balance_of owner "" l + at_stake owner rows

abbrev pub owned : String → QueuedJob → ℕ
owned owner r = if r.owner_id == owner then r.stake else 0

module _ (owner : String) (named : (owner == "") ≡ false) where
  pub balance_of-pay_back :
      (m : Memo) (job : QueuedJob) (l : Ledger)
      → Open owner "" l.accounts
      → Open owner "" (pay_back m (some job) l).accounts
        × (balance_of owner "" (pay_back m (some job) l) ≡ balance_of owner "" l + owned owner job)
  unfolding pay_back
  balance_of-pay_back m job l o = elim (Bool-cases (refundable job)) [
    | inl e ↦ rw e (
      credit_account-Open owner "" job.owner_id "" job.stake m l o,
      elim (Bool-cases (job.owner_id == owner)) [
        | inl k ↦
            let same : job.owner_id ≡ owner = (eq_iff job.owner_id owner).0 k in
            rw (k, same) (balance_of-credit owner "" job.stake m l o)
        | inr k ↦ rw k (
            balance_of-credit_other job.owner_id "" job.stake m l owner "" (rw k refl)
            ∙ omega arith)
      ],
    )
    | inr e ↦ rw e (
      o,
      elim (Bool-cases (job.owner_id == owner)) [
        | inl k ↦
            let same : job.owner_id ≡ owner = (eq_iff job.owner_id owner).0 k in
            let has_name : (job.owner_id == "") ≡ false = rw same named in ground arith
        | inr k ↦ rw k (omega arith)
      ],
    )
  ]

  refund_all_pays :
      (node : Node) (why : String) (tx : String → String) (now : ℕ) (ds : Rows) (s : Scheduler)
      (l : Ledger)
      → s.ledger ≡ some l
      → Open owner "" l.accounts
      → All (λ r. get r.job_id s.rows ≡ some (expire_row now r)) ds
      → (l' : Ledger) × ((refund_all node why tx (map (λ r. r.job_id) ds) s).ledger ≡ some l')
        × Open owner "" l'.accounts
        × (balance_of owner "" l' ≡ balance_of owner "" l + sum_of (owned owner) ds)
  unfolding refund_all
  refund_all_pays node why tx now [] s l h o a = (l, h, o, omega arith)
  refund_all_pays node why tx now (r ∷ ds) s l h o a =
      let m = refund_memo node why (tx r.job_id) in
      let paid = balance_of-pay_back m (expire_row now r) l o in
      let next : (refund node why (tx r.job_id) r.job_id s).ledger
          ≡ some (pay_back m (some (expire_row now r)) l) =
        unfold refund in rw (h, a.0) refl in
      let rest =
        refund_all_pays node why tx now ds (refund node why (tx r.job_id) r.job_id s)
          (pay_back m (some (expire_row now r)) l) next paid.0 (unfold refund in a.1) in
      (rest.0, rest.1, rest.2, rest.3 ∙ rw paid.1 (omega arith))

  -- The rows that expire take their stakes with them.
  at_stake-expired :
      (now : ℕ) (rows : Rows)
      → at_stake owner (map (λ r. if is_due now r then expire_row now r else r) rows)
          + sum_of (owned owner) (filter (is_due now) rows)
        ≡ at_stake owner rows
  at_stake-expired now [] = omega arith
  at_stake-expired now (r ∷ rows) = elim (Bool-cases (is_due now r)) [
    | inl e ↦
        let waits : terminal r.state ≡ false =
          ap terminal (queued_of r.state (unfold is_due in and_left (is_queued r.state) _ e))
          ∙ unfold terminal in refl in
        let gone : terminal ((expire_row now r).state) ≡ true = unfold terminal in refl in
        rw e (rw (waits, gone) (ground (arith, at_stake-expired now rows)))
    | inr e ↦ rw e (omega (arith, at_stake-expired now rows))
  ]

-- With distinct identifiers, each row that expires is found again by its identifier.
found_later :
    (now : ℕ) (x : QueuedJob) (rows : Rows) (ds : Rows)
    → All (λ s. has_id x.job_id s ≡ false) ds
    → All
        (λ r.
          get r.job_id (map (λ r. if is_due now r then expire_row now r else r) rows)
          ≡ some (expire_row now r))
        ds
    → All
        (λ r.
          get r.job_id (map (λ r. if is_due now r then expire_row now r else r) (x ∷ rows))
          ≡ some (expire_row now r))
        ds
unfolding get
found_later now x rows [] h a = tt
found_later now x rows (r ∷ ds) h a =
    let apart : has_id r.job_id x ≡ false = eq_flip r.job_id x.job_id (h.0) in
    (
      elim (Bool-cases (is_due now x)) [
        | inl e ↦ rw e (rw apart (a.0))
        | inr e ↦ rw e (rw apart (a.0))
      ],
      found_later now x rows ds h.1 a.1,
    )

due_found :
    (now : ℕ) (rows : Rows)
    → Distinct rows
    → All
        (λ r.
          get r.job_id (map (λ r. if is_due now r then expire_row now r else r) rows)
          ≡ some (expire_row now r))
        (filter (is_due now) rows)
unfolding get
due_found now [] d = tt
due_found now (r ∷ rows) d =
    let later =
      found_later now r rows (filter (is_due now) rows)
        (All-filter (λ s. has_id r.job_id s ≡ false) (is_due now) rows d.0)
        (due_found now rows d.1) in
    elim (Bool-cases (is_due now r)) [
      | inl e ↦ rw e (rw (has_id_refl r) refl, rw e at later)
      | inr e ↦ rw e (rw e at later)
    ]

-- When jobs expire, an owner's balance and stakes add up to the same as before: each expired job
-- pays its stake back once.
pub expire_and_refund_conserves :
    (owner : String) (node : Node) (now : ℕ) (tx : String → String) (s : Scheduler) (l : Ledger)
    → (owner == "") ≡ false
    → s.ledger ≡ some l
    → Open owner "" l.accounts
    → Distinct s.rows
    → let s' = expire_and_refund node now tx s in
      (l' : Ledger) × (s'.ledger ≡ some l')
      × (s'.rows ≡ (expire_due now s.rows).0)
      × (wealth owner s'.rows l' ≡ wealth owner s.rows l)
unfolding expire_and_refund
expire_and_refund_conserves owner node now tx s l named h o d =
    let exact = expire_due_exact now s.rows d in
    let start = record s { rows = (expire_due now s.rows).0 } in
    let frame = refund_all_frame node "expired" tx (expire_due now s.rows).1 start in
    let found =
      subst (λ t. All (λ r. get r.job_id t ≡ some (expire_row now r)) (filter (is_due now) s.rows))
        (sym exact) (due_found now s.rows d) in
    let paid =
      refund_all_pays owner named node "expired" tx now (filter (is_due now) s.rows) start l h o
        found in
    let left = at_stake-expired owner named now s.rows in
    (
      paid.0,
      unfold expire_due in paid.1,
      ap (λ (x : Scheduler). x.rows) frame,
      rw (ap (λ (x : Scheduler). x.rows) frame, exact, paid.3) (omega (arith, left)),
    )
