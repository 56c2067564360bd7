-- ===== src/Execution/Queue/Validity.antt =====
-- The table of src/mycellm/execution/queue.py is kept valid by every operation.
use mycellm.Prelude.{
  ℕ, ◌≤◌, ◌≡◌, inl, inr, refl, ap, ◌∙◌, String, Bool, true, false, List, [], ◌∷◌, ◌++◌, map, filter,
  any, All, All-append, ◌==◌, eq_iff, arith, Bool-cases, if◌then◌else◌,
}
use mycellm.Prelude.Text.{eq_flip}
use mycellm.Execution.Queue.Row.{
  JobState, queued, running, done, failed, expired, cancelled, terminal, is_queued, is_running,
  QueuedJob, Rows, Submission, WaitingReason, new_job,
}
use mycellm.Execution.Queue.{
  has_id, submit, update_where, claims, claim, claim_row, Ending, finish, finish_row, requeue,
  requeue_row, runs_as, note_waiting, note_row, cancel, cancellable, cancel_row, is_due, listed,
  expire_due, expire_row, is_stale, reclaim_stale_running, reclaim_row, Operation, op_submit,
  op_claim, op_cancel, op_finish, op_requeue, op_note, op_expire, op_reclaim, apply,
}

-- No two rows have the same identifier.
abbrev pub Distinct : Rows → Type 0
Distinct [] = Unit
Distinct (r ∷ rs) = All (λ s. has_id r.job_id s ≡ false) rs × Distinct rs

-- A running job counts its attempt, and one that waits has no start.
abbrev pub RowOk : QueuedJob → Type 0
RowOk r =
    (is_running r.state ≡ true → 1 ≤ r.attempts) × (is_queued r.state ≡ true → r.started_at ≡ 0)

abbrev pub Valid : Rows → Type 0
Valid rows = Distinct rows × All RowOk rows

-- A job ends in a state that is final, as the scheduler ends it.
abbrev pub Allowed : Operation → Type 0
Allowed (op_finish id now e) = terminal e.state ≡ true
Allowed (op_submit o i n s) = Unit
Allowed (op_claim i n) = Unit
Allowed (op_cancel i n) = Unit
Allowed (op_requeue i n w) = Unit
Allowed (op_note i n w) = Unit
Allowed (op_expire n) = Unit
Allowed (op_reclaim n o) = Unit

-- A change that keeps the identifier, and the validity of the rows that it touches.
pub record Keeps (p : QueuedJob → Bool) (f : QueuedJob → QueuedJob) : Type 0 where
  pub same_id : (r : QueuedJob) → (f r).job_id ≡ r.job_id
  pub row_ok : (r : QueuedJob) → p r ≡ true → RowOk r → RowOk (f r)

module _ (p : QueuedJob → Bool) (f : QueuedJob → QueuedJob) (k : Keeps p f) where
  changed_id : (i : String) (r : QueuedJob) → has_id i (if p r then f r else r) ≡ has_id i r
  changed_id i r = elim (Bool-cases (p r)) [
    | inl e ↦ rw e (ap (λ j. j == i) (k.same_id r))
    | inr e ↦ rw e refl
  ]

  changed_ids :
      (i : String) (rs : Rows)
      → All (λ s. has_id i s ≡ false) rs
      → All (λ s. has_id i s ≡ false) (update_where p f rs)
  unfolding update_where
  changed_ids i [] h = tt
  changed_ids i (s ∷ rs) h = (changed_id i s ∙ h.0, changed_ids i rs h.1)

  update_where-Distinct : (rs : Rows) → Distinct rs → Distinct (update_where p f rs)
  unfolding update_where
  update_where-Distinct [] h = tt
  update_where-Distinct (r ∷ rs) h = (
    elim (Bool-cases (p r)) [
      | inl e ↦ rw e (rw (k.same_id r) (changed_ids r.job_id rs h.0))
      | inr e ↦ rw e (changed_ids r.job_id rs h.0)
    ],
    update_where-Distinct rs h.1,
  )

  update_where-RowOk : (rs : Rows) → All RowOk rs → All RowOk (update_where p f rs)
  unfolding update_where
  update_where-RowOk [] h = tt
  update_where-RowOk (r ∷ rs) h = elim (Bool-cases (p r)) [
    | inl e ↦ (rw e (k.row_ok r e h.0), update_where-RowOk rs h.1)
    | inr e ↦ (rw e h.0, update_where-RowOk rs h.1)
  ]

  update_where-Valid : (rs : Rows) → Valid rs → Valid (update_where p f rs)
  update_where-Valid rs h = (update_where-Distinct rs h.0, update_where-RowOk rs h.1)

any-false :
    (id : String) (rows : Rows) → any (has_id id) rows ≡ false → All (λ r. has_id id r ≡ false) rows
any-false id [] h = tt
any-false id (r ∷ rs) h = elim (Bool-cases (has_id id r)) [
  | inl e ↦ absurd (cc)
  | inr e ↦ (e, any-false id rs (rw e at h))
]

pub has_id_refl : (r : QueuedJob) → has_id r.job_id r ≡ true
has_id_refl r = (eq_iff r.job_id r.job_id).1 refl

snoc-Distinct :
    (rows : Rows) (n : QueuedJob)
    → All (λ r. has_id n.job_id r ≡ false) rows
    → Distinct rows
    → Distinct (rows ++ n ∷ [])
snoc-Distinct [] n h d = (tt, tt)
snoc-Distinct (r ∷ rs) n h d =
    (All-append _ rs (n ∷ []) d.0 (eq_flip r.job_id n.job_id h.0, tt), snoc-Distinct rs n h.1 d.1)

-- Each update keeps what it must.
claims-Keeps : (id : String) (now : ℕ) → Keeps (claims id) (claim_row now)
claims-Keeps id now = record {
  same_id = λ r. refl;
  row_ok = λ r h k. (λ s. omega arith, λ s. absurd (cc));
}

cancel-Keeps : (id : String) (now : ℕ) → Keeps (cancellable id) (cancel_row now)
cancel-Keeps id now = record {
  same_id = λ r. refl;
  row_ok = λ r h k. (λ s. absurd (cc), λ s. absurd (cc));
}

terminal_waits : (s : JobState) → terminal s ≡ true → (is_running s ≡ false) × (is_queued s ≡ false)
unfolding terminal
terminal_waits queued h = absurd (cc)
terminal_waits running h = absurd (cc)
terminal_waits done h = (refl, refl)
terminal_waits failed h = (refl, refl)
terminal_waits expired h = (refl, refl)
terminal_waits cancelled h = (refl, refl)

finish-Keeps :
    (id : String) (now : ℕ) (e : Ending)
    → terminal e.state ≡ true
    → Keeps (has_id id) (finish_row now e)
finish-Keeps id now e t = record {
  same_id = λ r. refl;
  row_ok = λ r h k. let n = terminal_waits e.state t in (λ s. absurd (cc), λ s. absurd (cc));
}

requeue-Keeps : (id : String) (now : ℕ) (w : WaitingReason) → Keeps (runs_as id) (requeue_row now w)
requeue-Keeps id now w = record {
  same_id = λ r. refl;
  row_ok = λ r h k. (λ s. absurd (cc), λ s. refl);
}

note-Keeps : (id : String) (now : ℕ) (w : WaitingReason) → Keeps (claims id) (note_row now w)
note-Keeps id now w = record { same_id = λ r. refl; row_ok = λ r h k. k }

expire-Keeps : (ids : List String) (now : ℕ) → Keeps (listed ids) (expire_row now)
expire-Keeps ids now = record {
  same_id = λ r. refl;
  row_ok = λ r h k. (λ s. absurd (cc), λ s. absurd (cc));
}

reclaim-Keeps : (now older : ℕ) → Keeps (is_stale now older) (reclaim_row now)
reclaim-Keeps now older = record {
  same_id = λ r. refl;
  row_ok = λ r h k. (λ s. absurd (cc), λ s. refl);
}

submit-Valid :
    (owner id : String) (now : ℕ) (s : Submission) (rows : Rows)
    → Valid rows
    → Valid (submit owner id now s rows)
unfolding submit new_job
submit-Valid owner id now s rows h = elim (Bool-cases (any (has_id id) rows)) [
  | inl e ↦ rw e h
  | inr e ↦ rw e (
    snoc-Distinct rows (new_job owner id now s) (any-false id rows e) h.0,
    All-append RowOk rows (new_job owner id now s ∷ []) h.1 ((λ q. absurd (cc), λ q. refl), tt),
  )
]

-- Every operation keeps the table valid, where a `finish` gives a final state: no two rows have the same identifier, a running job counts
-- its attempt and a waiting one has no start.
pub apply-Valid : (o : Operation) (rows : Rows) → Allowed o → Valid rows → Valid (apply o rows)
unfolding apply claim cancel finish requeue note_waiting expire_due reclaim_stale_running
apply-Valid (op_submit owner id now s) rows a h = submit-Valid owner id now s rows h
apply-Valid (op_claim id now) rows a h = update_where-Valid _ _ (claims-Keeps id now) rows h
apply-Valid (op_cancel id now) rows a h = update_where-Valid _ _ (cancel-Keeps id now) rows h
apply-Valid (op_finish id now e) rows a h = update_where-Valid _ _ (finish-Keeps id now e a) rows h
apply-Valid (op_requeue id now w) rows a h = update_where-Valid _ _ (requeue-Keeps id now w) rows h
apply-Valid (op_note id now w) rows a h = update_where-Valid _ _ (note-Keeps id now w) rows h
apply-Valid (op_expire now) rows a h =
    update_where-Valid _ _ (expire-Keeps (map (λ r. r.job_id) (filter (is_due now) rows)) now) rows
      h
apply-Valid (op_reclaim now older) rows a h =
    update_where-Valid _ _ (reclaim-Keeps now older) rows h
