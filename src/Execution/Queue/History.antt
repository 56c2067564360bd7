-- ===== src/Execution/Queue/History.antt =====
-- Runs of operations on the table of src/mycellm/execution/queue.py, in any order.
use mycellm.Prelude.{
  ◌≡◌, inl, inr, refl, ap, ◌∙◌, String, some, true, false, List, [], ◌∷◌, All, Bool-cases,
}
use mycellm.Execution.Queue.Row.{QueuedJob, Rows, terminal}
use mycellm.Execution.Queue.{
  has_id, get, finish, finish_row, Operation, op_submit, op_claim, op_cancel, op_finish, op_requeue,
  op_note, op_expire, op_reclaim, apply, apply_all,
}
use mycellm.Execution.Queue.Validity.{Valid, Allowed, apply-Valid}
use mycellm.Execution.Queue.Stages.{SameJob, same, is_finish, get-update_where, apply-Evolves}

apply_all-Valid :
    (os : List Operation) (rows : Rows) → All Allowed os → Valid rows → Valid (apply_all os rows)
unfolding apply_all
apply_all-Valid [] rows a v = v
apply_all-Valid (o ∷ os) rows a v = apply_all-Valid os (apply o rows) a.1 (apply-Valid o rows a.0 v)

not_finish-Allowed : (o : Operation) → is_finish o ≡ false → Allowed o
unfolding is_finish
not_finish-Allowed (op_finish i n e) h = absurd (cc)
not_finish-Allowed (op_submit o i n s) h = tt
not_finish-Allowed (op_claim i n) h = tt
not_finish-Allowed (op_cancel i n) h = tt
not_finish-Allowed (op_requeue i n w) h = tt
not_finish-Allowed (op_note i n w) h = tt
not_finish-Allowed (op_expire n) h = tt
not_finish-Allowed (op_reclaim n o) h = tt

-- A job in a final state is left as it is by every run of operations in which nothing finishes.
pub apply_all_keeps_final :
    (os : List Operation) (rows : Rows)
    → All (λ o. is_finish o ≡ false) os
    → Valid rows
    → (id : String) (r : QueuedJob) → get id rows ≡ some r
    → terminal r.state ≡ true
    → get id (apply_all os rows) ≡ some r
unfolding apply_all
apply_all_keeps_final [] rows a v id r h t = h
apply_all_keeps_final (o ∷ os) rows a v id r h t =
    let next = apply-Evolves o rows a.0 v id r h in
    apply_all_keeps_final os (apply o rows) a.1 (apply-Valid o rows (not_finish-Allowed o a.0) v) id
      r (next.1 ∙ ap some (next.2.2 t)) t

finish-SameJob :
    (o : Operation) (rows : Rows)
    → is_finish o ≡ true
    → (id : String) (r : QueuedJob) → get id rows ≡ some r
    → (s : QueuedJob) × (get id (apply o rows) ≡ some s) × SameJob r s
unfolding is_finish apply finish
finish-SameJob (op_finish i n e) rows k id r h =
    get-update_where id (has_id i) (finish_row n e) SameJob (λ x. refl) same
      (λ x q. (refl, refl, refl, refl, refl, refl, refl, refl, refl, refl, refl, refl, refl)) rows r
      h
finish-SameJob (op_submit a i n s) rows k id r h = absurd (cc)
finish-SameJob (op_claim i n) rows k id r h = absurd (cc)
finish-SameJob (op_cancel i n) rows k id r h = absurd (cc)
finish-SameJob (op_requeue i n w) rows k id r h = absurd (cc)
finish-SameJob (op_note i n w) rows k id r h = absurd (cc)
finish-SameJob (op_expire n) rows k id r h = absurd (cc)
finish-SameJob (op_reclaim n a) rows k id r h = absurd (cc)

-- The row of a job after one operation has what was submitted.
apply-SameJob :
    (o : Operation) (rows : Rows)
    → Valid rows
    → (id : String) (r : QueuedJob) → get id rows ≡ some r
    → (s : QueuedJob) × (get id (apply o rows) ≡ some s) × SameJob r s
apply-SameJob o rows v id r h = elim (Bool-cases (is_finish o)) [
  | inl e ↦ finish-SameJob o rows e id r h
  | inr e ↦ let next = apply-Evolves o rows e v id r h in (next.0, next.1, next.2.0)
]

SameJob-trans : (r s t : QueuedJob) → SameJob r s → SameJob s t → SameJob r t
SameJob-trans r s t h k = (
  k.0 ∙ h.0,
  k.1 ∙ h.1,
  k.2 ∙ h.2,
  k.3 ∙ h.3,
  k.4 ∙ h.4,
  k.5 ∙ h.5,
  k.6 ∙ h.6,
  k.7 ∙ h.7,
  k.8 ∙ h.8,
  k.9 ∙ h.9,
  k.10 ∙ h.10,
  k.11 ∙ h.11,
  k.12 ∙ h.12,
)

-- From a valid table, no run of operations in which each `finish` gives a final state loses a job: it
-- is found with all that was submitted.
pub apply_all_keeps_jobs :
    (os : List Operation) (rows : Rows)
    → All Allowed os
    → Valid rows
    → (id : String) (r : QueuedJob) → get id rows ≡ some r
    → (s : QueuedJob) × (get id (apply_all os rows) ≡ some s) × SameJob r s
unfolding apply_all
apply_all_keeps_jobs [] rows a v id r h = (r, h, same r)
apply_all_keeps_jobs (o ∷ os) rows a v id r h =
    let next = apply-SameJob o rows v id r h in
    let rest =
      apply_all_keeps_jobs os (apply o rows) a.1 (apply-Valid o rows a.0 v) id next.0 next.1 in
    (rest.0, rest.1, SameJob-trans r next.0 rest.0 next.2 rest.2)
