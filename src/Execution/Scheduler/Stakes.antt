-- ===== src/Execution/Scheduler/Stakes.antt =====
-- src/mycellm/execution/queue.py: the stakes of the jobs that are not final, as updates change them.
use mycellm.Prelude.{
  ℕ, ◌+◌, ◌≡◌, inl, inr, refl, subst, String, some, Bool, true, false, ◌&&◌, [], ◌∷◌, All, sum_of,
  Bool-cases, negb, ◌==◌, eq_iff, arith, if◌then◌else◌,
}
use mycellm.Execution.Queue.Row.{QueuedJob, Rows, terminal}
use mycellm.Execution.Queue.{
  has_id, update_where, get, claim, claims, claim_row, note_waiting, note_row,
}
use mycellm.Execution.Queue.Row.{WaitingReason}
use mycellm.Execution.Queue.Validity.{Distinct}
use mycellm.Execution.Queue.Stages.{queued_of, and_right}

-- What an owner has at stake in a row.
abbrev pub stake_in : String → QueuedJob → ℕ
stake_in owner r = if r.owner_id == owner && negb (terminal r.state) then r.stake else 0

abbrev pub at_stake : String → Rows → ℕ
at_stake owner rows = sum_of (stake_in owner) rows

module _ (owner : String) (p : QueuedJob → Bool) (f : QueuedJob → QueuedJob) where
  -- An update that keeps the stakes of the rows that it changes.
  pub at_stake-update_where :
      ((r : QueuedJob) → p r ≡ true → stake_in owner (f r) ≡ stake_in owner r)
      → (rows : Rows) → at_stake owner (update_where p f rows) ≡ at_stake owner rows
  unfolding update_where
  at_stake-update_where same [] = refl
  at_stake-update_where same (r ∷ rows) = elim (Bool-cases (p r)) [
    | inl e ↦ rw e (rw (same r e, at_stake-update_where same rows) refl)
    | inr e ↦ rw e (rw (at_stake-update_where same rows) refl)
  ]

  at_stake_untouched :
      (id : String)
      → ((r : QueuedJob) → p r ≡ true → has_id id r ≡ true)
      → (rows : Rows) → All (λ r. has_id id r ≡ false) rows
      → at_stake owner (update_where p f rows) ≡ at_stake owner rows
  unfolding update_where
  at_stake_untouched id only [] h = refl
  at_stake_untouched id only (r ∷ rows) h = elim (Bool-cases (p r)) [
    | inl e ↦ let other = h.0 in let same = only r e in absurd (cc)
    | inr e ↦ rw e (rw (at_stake_untouched id only rows h.1) refl)
  ]

  -- An update of the one row that has an identifier.
  pub at_stake_changes :
      (id : String)
      → ((r : QueuedJob) → p r ≡ true → has_id id r ≡ true)
      → (rows : Rows) (r : QueuedJob) → Distinct rows
      → get id rows ≡ some r
      → p r ≡ true
      → at_stake owner (update_where p f rows) + stake_in owner r
        ≡ at_stake owner rows + stake_in owner (f r)
  unfolding update_where get
  at_stake_changes id only [] r d h q = absurd (cc)
  at_stake_changes id only (x ∷ rows) r d h q = elim (Bool-cases (has_id id x)) [
    | inl e ↦
        let here : some x ≡ some r = rw e at h in
        let found : x ≡ r = ground arith in
        let same_id : x.job_id ≡ id = (eq_iff x.job_id id).0 e in
        let rest : at_stake owner (update_where p f rows) ≡ at_stake owner rows =
          at_stake_untouched id only rows
            (subst (λ i. All (λ s. has_id i s ≡ false) rows) same_id d.0) in
        let hit : p x ≡ true = rw found q in rw hit (rw (rest, found) (omega arith))
    | inr e ↦
        let rest = at_stake_changes id only rows r d.1 (rw e at h) q in
        elim (Bool-cases (p x)) [
          | inl k ↦ let no = only x k in absurd (cc)
          | inr k ↦ rw k (omega (arith, rest))
        ]
  ]

-- A claim and a note leave every stake.
pub at_stake-claim :
    (owner id : String) (now : ℕ) (rows : Rows)
    → at_stake owner ((claim id now rows).0) ≡ at_stake owner rows
unfolding claim
at_stake-claim owner id now rows =
    at_stake-update_where owner (claims id) (claim_row now)
      (λ r e.
        unfold claims in
        rw (queued_of r.state (and_right (has_id id r) _ e)) (unfold terminal in refl))
      rows

pub at_stake-note_waiting :
    (owner id : String) (now : ℕ) (reason : WaitingReason) (rows : Rows)
    → at_stake owner (note_waiting id now reason rows) ≡ at_stake owner rows
unfolding note_waiting
at_stake-note_waiting owner id now reason rows =
    at_stake-update_where owner (claims id) (note_row now reason) (λ r e. refl) rows
