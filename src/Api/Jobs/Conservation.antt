-- ===== src/Api/Jobs/Conservation.antt =====
-- src/mycellm/api/jobs.py: a refused request changes nothing, and stakes are neither made nor lost.
use mycellm.Prelude.{
  ℕ, ◌+◌, ◌≡◌, ◌≤◌, ◌<◌, inl, inr, refl, sym, ◌∙◌, subst, String, Option, none, some, false, [],
  ◌∷◌, ◌++◌, any, is_nil, sum_of-append, Bool-cases, Option-cases, negb, ltb, ◌==◌, eq_iff, arith,
}
use mycellm.Execution.Queue.Row.{Rows, terminal, new_job}
use mycellm.Execution.Queue.{has_id, submit}
use mycellm.Accounting.Ledger.{Ledger, balance_of, balance_or_zero, account_of}
use mycellm.Accounting.Tracker.Payment.{Open, debit-debited, balance_of-debited}
use mycellm.Execution.Scheduler.Stakes.{stake_in, at_stake}
use mycellm.Execution.Scheduler.Payback.{wealth}
use mycellm.Api.Jobs.{
  Node, Request, Submitted, refused, accepted, Floor, bad_floor, no_floor, floor, Stake, staked,
  too_poor, take_stake, stake_memo, submission, enqueue, submit_floor, submit_into, submit_job,
  read_floor, read_model,
}

abbrev pub IsRefused : Submitted → Type 0
IsRefused (refused r) = Unit
IsRefused (accepted i p e k) = ⊥

abbrev pub Untouched : Node → Node × Submitted → Type 0
Untouched node (node', a) = IsRefused a → node' ≡ node

enqueue-Untouched :
    (q : Request) (model tier : String) (rows : Rows) (node : Node) (k : Stake)
    → Untouched node (enqueue q model tier rows node k)
unfolding enqueue
enqueue-Untouched q model tier rows node (too_poor b) h = refl
enqueue-Untouched q model tier rows node (staked k l) h = absurd h

submit_floor-Untouched :
    (q : Request) (model : String) (rows : Rows) (node : Node) (f : Floor)
    → Untouched node (submit_floor q model rows node f)
unfolding submit_floor
submit_floor-Untouched q model rows node (bad_floor t) = λ h. refl
submit_floor-Untouched q model rows node no_floor = enqueue-Untouched q model "" rows node _
submit_floor-Untouched q model rows node (floor t) = elim (Bool-cases (negb (model == ""))) [
  | inl e ↦ rw e (λ h. refl)
  | inr e ↦ rw e (enqueue-Untouched q model t rows node _)
]

submit_into-Untouched :
    (q : Request) (node : Node) (o : Option Rows) → Untouched node (submit_into q node o)
unfolding submit_into
submit_into-Untouched q node none = λ h. refl
submit_into-Untouched q node (some rows) = elim (Bool-cases (is_nil q.body.messages)) [
  | inl e ↦ rw e (λ h. refl)
  | inr e ↦
      rw e
        (submit_floor-Untouched q (read_model q.body.model) rows node (read_floor q.body.min_tier))
]

submit_job-Untouched : (q : Request) (node : Node) → Untouched node (submit_job q node)
unfolding submit_job
submit_job-Untouched q node = submit_into-Untouched q node node.queue

-- What is staked has left the balance.
abbrev Fair : String → Ledger → Stake → Type 0
Fair owner l (too_poor b) = Unit
Fair owner l (staked k none) = ⊥
Fair owner l (staked k (some l')) = balance_of owner "" l' + k ≡ balance_of owner "" l

rich-Open :
    (owner : String) (l : Ledger) (n : ℕ) → n < balance_of owner "" l → Open owner "" l.accounts
unfolding balance_of balance_or_zero
rich-Open owner l n h = elim (Option-cases (account_of owner "" l.accounts)) [
  | inl e ↦ let poor : n < 0 = subst (λ o. n < balance_or_zero o) e h in absurd (omega arith)
  | inr (a, e) ↦ (a, e)
]

take_stake-Fair :
    (owner : String) (stake : ℕ) (tx : String) (l : Ledger)
    → Fair owner l (take_stake owner stake tx (some l))
unfolding take_stake
take_stake-Fair owner stake tx l = elim (Bool-cases (ltb 0 stake)) [
  | inr e ↦ rw e (ground arith)
  | inl e ↦ rw e (elim (Bool-cases (ltb (balance_of owner "" l) stake)) [
    | inl k ↦ rw k tt
    | inr k ↦
        let enough : stake ≤ balance_of owner "" l = ground arith in
        let open_account = rich-Open owner l 0 (ground arith) in
        let left = balance_of-debited owner "" stake (stake_memo tx) l open_account in
        rw k (
          rw (debit-debited owner "" stake (stake_memo tx) l open_account enough)
            (rw left (omega (arith, enough))))
  ])
]

stake_in-new_job :
    (owner id model tier : String) (now k : ℕ) (q : Request)
    → stake_in owner (new_job owner id now (submission owner model tier q.body k)) ≡ k
unfolding new_job submission terminal
stake_in-new_job owner id model tier now k q = elim (Bool-cases (owner == "")) [
  | inl e ↦ rw e (rw ((eq_iff owner owner).1 refl) refl)
  | inr e ↦ rw e (rw ((eq_iff owner owner).1 refl) refl)
]

module _ (q : Request) (node : Node) (rows : Rows) (l : Ledger)
    (fresh : any (has_id q.job_id) rows ≡ false) (same : node.ledger ≡ some l)
    (there : node.queue ≡ some rows) where
  -- The table and the ledger after a call, with the owner's credits as before.
  abbrev pub Conserves : Node → Type 0
  Conserves n =
      (rows' : Rows) × (l' : Ledger) × (n.queue ≡ some rows')
      × (n.ledger ≡ some l')
      × (wealth node.peer_id rows' l' ≡ wealth node.peer_id rows l)

  unchanged : Conserves node
  unchanged = (rows, l, there, same, refl)

  enqueue-Conserves :
      (model tier : String) (k : Stake)
      → Fair node.peer_id l k
      → Conserves ((enqueue q model tier rows node k).0)
  unfolding enqueue submit
  enqueue-Conserves model tier (too_poor b) f = unchanged
  enqueue-Conserves model tier (staked k none) f = absurd f
  enqueue-Conserves model tier (staked k (some l')) f =
      let job = new_job node.peer_id q.job_id q.now (submission node.peer_id model tier q.body k) in
      let added : at_stake node.peer_id (rows ++ job ∷ []) ≡ at_stake node.peer_id rows + k =
        sum_of-append (stake_in node.peer_id) rows (job ∷ [])
        ∙ rw (stake_in-new_job node.peer_id q.job_id model tier q.now k q) (omega arith) in
      (rows ++ job ∷ [], l', rw fresh refl, refl, rw added (omega (arith, f)))

  taken : Fair node.peer_id l (take_stake node.peer_id q.body.stake q.tx node.ledger)
  taken =
      subst (λ o. Fair node.peer_id l (take_stake node.peer_id q.body.stake q.tx o)) (sym same)
        (take_stake-Fair node.peer_id q.body.stake q.tx l)

  submit_floor-Conserves :
      (model : String) (f : Floor) → Conserves ((submit_floor q model rows node f).0)
  unfolding submit_floor
  submit_floor-Conserves model (bad_floor t) = unchanged
  submit_floor-Conserves model no_floor =
      enqueue-Conserves model "" (take_stake node.peer_id q.body.stake q.tx node.ledger) taken
  submit_floor-Conserves model (floor t) = elim (Bool-cases (negb (model == ""))) [
    | inl e ↦ rw e (unchanged)
    | inr e ↦
        rw e
          (enqueue-Conserves model t (take_stake node.peer_id q.body.stake q.tx node.ledger) taken)
  ]

  submit_into-Conserves : Conserves ((submit_into q node (some rows)).0)
  unfolding submit_into
  submit_into-Conserves = elim (Bool-cases (is_nil q.body.messages)) [
    | inl e ↦ rw e (unchanged)
    | inr e ↦ rw e (submit_floor-Conserves (read_model q.body.model) (read_floor q.body.min_tier))
  ]

  -- A submission under a new identifier keeps the sum of the node's balance and of the stakes of its
  -- jobs that are not final, so a job is queued with no stake that the ledger did not give up; if
  -- it is refused, the queue and the ledger are as they were.
  pub submit_job-Conserves : Conserves ((submit_job q node).0) × Untouched node (submit_job q node)
  submit_job-Conserves = (
    unfold submit_job in
        subst (λ o. Conserves ((submit_into q node o).0)) (sym there) submit_into-Conserves,
    submit_job-Untouched q node,
  )
