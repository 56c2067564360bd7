-- ===== src/Execution/Queue/Stages.antt =====
-- What becomes of a job in the table of src/mycellm/execution/queue.py.
use mycellm.Prelude.{
  ℕ, ◌≡◌, inl, inr, refl, sym, ap, ◌∙◌, subst, String, some, Bool, true, false, ◌&&◌, ◌||◌, [], ◌∷◌,
  ◌++◌, any, ◌==◌, arith, Bool-cases, if◌then◌else◌,
}
use mycellm.Execution.Queue.Row.{
  JobState, queued, running, done, failed, expired, cancelled, terminal, is_queued, is_running,
  QueuedJob, Rows, Submission, new_job,
}
use mycellm.Execution.Queue.{
  has_id, submit, update_where, claims, claim, claim_row, requeue, requeue_row, runs_as,
  note_waiting, note_row, cancel, cancellable, cancel_row, is_due, expire_due, expire_row, is_stale,
  reclaim_stale_running, reclaim_row, get, Operation, op_submit, op_claim, op_cancel, op_finish,
  op_requeue, op_note, op_expire, op_reclaim, apply,
}
use mycellm.Execution.Queue.Validity.{Valid}
use mycellm.Execution.Queue.Expiry.{expire_due_exact}

-- The moves of a job's state, but for the one that `finish` makes.
pub data Moves : JobState → JobState → Type 0 where
  stays : (s : JobState) → Moves s s
  starts : Moves queued running
  withdrawn : Moves queued cancelled
  lapses : Moves queued expired
  returns : Moves running queued
  stops : Moves running cancelled

-- All that was submitted is the same.
abbrev pub SameJob : QueuedJob → QueuedJob → Type 0
SameJob r s =
    (s.job_id ≡ r.job_id)
    × (s.messages ≡ r.messages)
    × (s.owner_id ≡ r.owner_id)
    × (s.model ≡ r.model)
    × (s.min_tier ≡ r.min_tier)
    × (s.trust ≡ r.trust)
    × (s.temperature ≡ r.temperature)
    × (s.max_tokens ≡ r.max_tokens)
    × (s.token_budget ≡ r.token_budget)
    × (s.fanout ≡ r.fanout)
    × (s.stake ≡ r.stake)
    × (s.created_at ≡ r.created_at)
    × (s.expires_at ≡ r.expires_at)

abbrev pub Evolves : QueuedJob → QueuedJob → Type 0
Evolves r s = SameJob r s × Moves r.state s.state × (terminal r.state ≡ true → s ≡ r)

unfoldable pub is_finish : Operation → Bool
is_finish (op_finish i n e) = true
is_finish (op_submit o i n s) = false
is_finish (op_claim i n) = false
is_finish (op_cancel i n) = false
is_finish (op_requeue i n w) = false
is_finish (op_note i n w) = false
is_finish (op_expire n) = false
is_finish (op_reclaim n o) = false

pub queued_of : (s : JobState) → is_queued s ≡ true → s ≡ queued
queued_of queued h = refl
queued_of running h = absurd (cc)
queued_of done h = absurd (cc)
queued_of failed h = absurd (cc)
queued_of expired h = absurd (cc)
queued_of cancelled h = absurd (cc)

running_of : (s : JobState) → is_running s ≡ true → s ≡ running
running_of running h = refl
running_of queued h = absurd (cc)
running_of done h = absurd (cc)
running_of failed h = absurd (cc)
running_of expired h = absurd (cc)
running_of cancelled h = absurd (cc)

pub same : (r : QueuedJob) → SameJob r r
same r = (refl, refl, refl, refl, refl, refl, refl, refl, refl, refl, refl, refl, refl)

-- A row of which the state is known to be one that is not final.
open_row :
    (r s : QueuedJob) (from : JobState)
    → r.state ≡ from
    → terminal from ≡ false
    → SameJob r s
    → Moves from s.state
    → Evolves r s
open_row r s from e n same_job m =
    (same_job, subst (λ x. Moves x s.state) (sym e) m, λ t. absurd (cc))

idle : (r : QueuedJob) → Evolves r r
idle r = (same r, stays r.state, λ t. refl)

some_injective : (r s : QueuedJob) → some r ≡ some s → r ≡ s
some_injective r s h = cc

get_here :
    (id : String) (y : QueuedJob) (rows : Rows) → has_id id y ≡ true → get id (y ∷ rows) ≡ some y
unfolding get
get_here id y rows e = rw e refl

get_later :
    (id : String) (y : QueuedJob) (rows : Rows)
    → has_id id y ≡ false
    → get id (y ∷ rows) ≡ get id rows
unfolding get
get_later id y rows e = rw e refl

module _ (id : String) (p : QueuedJob → Bool) (f : QueuedJob → QueuedJob) where
  touched {κ} :
      (Q : QueuedJob → QueuedJob → Type κ)
      → ((r : QueuedJob) → (f r).job_id ≡ r.job_id)
      → ((r : QueuedJob) → Q r r)
      → ((r : QueuedJob) → p r ≡ true → Q r (f r))
      → (x : QueuedJob)
      → (has_id id (if p x then f x else x) ≡ has_id id x) × Q x (if p x then f x else x)
  touched Q k keep change x = elim (Bool-cases (p x)) [
    | inl e ↦ rw e (ap (λ j. j == id) (k x), change x e)
    | inr e ↦ rw e (refl, keep x)
  ]

  -- What an update does to the row that `get` finds, for a relation that holds of each row and its
  -- new value.
  pub get-update_where {κ} :
      (Q : QueuedJob → QueuedJob → Type κ)
      → ((r : QueuedJob) → (f r).job_id ≡ r.job_id)
      → ((r : QueuedJob) → Q r r)
      → ((r : QueuedJob) → p r ≡ true → Q r (f r))
      → (rows : Rows) (r : QueuedJob) → get id rows ≡ some r
      → (s : QueuedJob) × (get id (update_where p f rows) ≡ some s) × Q r s
  unfolding get update_where
  get-update_where Q k keep change [] r h = absurd (cc)
  get-update_where Q k keep change (x ∷ rows) r h =
      let y : QueuedJob = if p x then f x else x in
      let related : (has_id id y ≡ has_id id x) × Q x y = touched Q k keep change x in
      elim (Bool-cases (has_id id x)) [
        | inl e ↦
            let found : x ≡ r = some_injective x r (sym (get_here id x rows e) ∙ h) in
            (
              y,
              get_here id y (update_where p f rows) (related.0 ∙ e),
              subst (λ z. Q z y) found related.1,
            )
        | inr e ↦
            let rest = get-update_where Q k keep change rows r (sym (get_later id x rows e) ∙ h) in
            (rest.0, get_later id y (update_where p f rows) (related.0 ∙ e) ∙ rest.1, rest.2)
      ]

module _ {κ} (Q : QueuedJob → QueuedJob → Type κ) (keep : (r : QueuedJob) → Q r r) where
  get_added :
      (id : String) (rows : Rows) (n r : QueuedJob)
      → get id rows ≡ some r
      → (s : QueuedJob) × (get id (rows ++ n ∷ []) ≡ some s) × Q r s
  unfolding get
  get_added id [] n r h = absurd (cc)
  get_added id (x ∷ rows) n r h = elim (Bool-cases (has_id id x)) [
    | inl e ↦
        let found : x ≡ r = some_injective x r (sym (get_here id x rows e) ∙ h) in
        (x, get_here id x (rows ++ n ∷ []) e, subst (λ z. Q z x) found (keep x))
    | inr e ↦
        let rest = get_added id rows n r (sym (get_later id x rows e) ∙ h) in
        (rest.0, get_later id x (rows ++ n ∷ []) e ∙ rest.1, rest.2)
  ]

  get-submit :
      (owner i : String) (now : ℕ) (s : Submission) (id : String) (rows : Rows) (r : QueuedJob)
      → get id rows ≡ some r
      → (t : QueuedJob) × (get id (submit owner i now s rows) ≡ some t) × Q r t
  unfolding submit
  get-submit owner i now s id rows r h = elim (Bool-cases (any (has_id i) rows)) [
    | inl e ↦ rw e (r, h, keep r)
    | inr e ↦ rw e (get_added id rows (new_job owner i now s) r h)
  ]

pub and_left : (a b : Bool) → (a && b) ≡ true → a ≡ true
and_left a b h = ground arith

pub and_right : (a b : Bool) → (a && b) ≡ true → b ≡ true
and_right a b h = ground arith

or_second : (a b c : Bool) → (a && (b || c)) ≡ true → b ≡ false → c ≡ true
or_second a b c h e = ground arith

queued_row : (r : QueuedJob) (p : Bool) → (p && is_queued r.state) ≡ true → r.state ≡ queued
queued_row r p h = queued_of r.state (and_right p (is_queued r.state) h)

running_row : (r : QueuedJob) (p : Bool) → (p && is_running r.state) ≡ true → r.state ≡ running
running_row r p h = running_of r.state (and_right p (is_running r.state) h)

cancel-Evolves :
    (id : String) (now : ℕ) (r : QueuedJob) → cancellable id r ≡ true → Evolves r (cancel_row now r)
unfolding terminal
cancel-Evolves id now r h = elim (Bool-cases (is_queued r.state)) [
  | inl e ↦ open_row r _ queued (queued_of r.state e) refl (same r) withdrawn
  | inr e ↦
      open_row r _ running (running_of r.state (or_second (has_id id r) _ _ h e)) refl (same r)
        stops
]

-- What becomes of a job of a valid table under any operation but `finish`: it is still there with
-- all that was submitted, its state makes a move of the state machine or stays, and a job in a final state is
-- left as it was.
pub apply-Evolves :
    (o : Operation) (rows : Rows)
    → is_finish o ≡ false
    → Valid rows
    → (id : String) (r : QueuedJob) → get id rows ≡ some r
    → (s : QueuedJob) × (get id (apply o rows) ≡ some s) × Evolves r s
unfolding apply claim cancel requeue note_waiting expire_due reclaim_stale_running claims is_due
    is_stale terminal is_finish
apply-Evolves (op_submit owner i now s) rows f v id r h =
    get-submit Evolves idle owner i now s id rows r h
apply-Evolves (op_claim i now) rows f v id r h =
    get-update_where id (claims i) (claim_row now) Evolves (λ x. refl) idle
      (λ x e. open_row x _ queued (queued_row x _ e) refl (same x) starts) rows r h
apply-Evolves (op_cancel i now) rows f v id r h =
    get-update_where id (cancellable i) (cancel_row now) Evolves (λ x. refl) idle
      (cancel-Evolves i now) rows r h
apply-Evolves (op_finish i now e) rows f v id r h = absurd (cc)
apply-Evolves (op_requeue i now w) rows f v id r h =
    get-update_where id (runs_as i) (requeue_row now w) Evolves (λ x. refl) idle
      (λ x e. open_row x _ running (running_row x _ e) refl (same x) returns) rows r h
apply-Evolves (op_note i now w) rows f v id r h =
    get-update_where id (claims i) (note_row now w) Evolves (λ x. refl) idle
      (λ x e.
        open_row x _ queued (queued_row x _ e) refl (same x)
          (subst (Moves queued) (sym (queued_row x _ e)) (stays queued)))
      rows r h
apply-Evolves (op_expire now) rows f v id r h =
    subst (λ l. (s : QueuedJob) × (get id l ≡ some s) × Evolves r s)
      (sym (expire_due_exact now rows v.0))
      (get-update_where id (is_due now) (expire_row now) Evolves (λ x. refl) idle
        (λ x e. open_row x _ queued (queued_of x.state (and_left _ _ e)) refl (same x) lapses) rows
        r h)
apply-Evolves (op_reclaim now older) rows f v id r h =
    get-update_where id (is_stale now older) (reclaim_row now) Evolves (λ x. refl) idle
      (λ x e. open_row x _ running (running_of x.state (and_left _ _ e)) refl (same x) returns) rows
      r h
