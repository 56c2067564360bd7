-- ===== src/Execution/Queue/Expiry.antt =====
-- `expire_due` of src/mycellm/execution/queue.py, which selects rows and then updates them by identifier.
use mycellm.Prelude.{
  ℕ, ◌≡◌, inl, inr, refl, sym, subst, ap, ◌∙◌, Bool, true, false, List, [], ◌∷◌, String, map,
  filter, All, if◌then◌else◌, Bool-cases,
}
use mycellm.Prelude.Text.{eq_flip}
use mycellm.Execution.Queue.Row.{QueuedJob, Rows}
use mycellm.Execution.Queue.{has_id, update_where, is_due, listed, expire_row, expire_due}
use mycellm.Execution.Queue.Validity.{Distinct, has_id_refl}

abbrev due_ids : ℕ → Rows → List String
due_ids now rows = map (λ r. r.job_id) (filter (is_due now) rows)

pub update_where_agree :
    (p q : QueuedJob → Bool) (f : QueuedJob → QueuedJob) (rows : Rows)
    → All (λ r. p r ≡ q r) rows
    → update_where p f rows ≡ update_where q f rows
unfolding update_where
update_where_agree p q f [] h = refl
update_where_agree p q f (r ∷ rs) h =
    ap (λ b. (if b then f r else r) ∷ update_where p f rs) h.0
    ∙ ap (λ l. (if q r then f r else r) ∷ l) (update_where_agree p q f rs h.1)

listed_none :
    (now : ℕ) (r : QueuedJob) (rs : Rows)
    → All (λ s. has_id r.job_id s ≡ false) rs
    → listed (due_ids now rs) r ≡ false
unfolding listed
listed_none now r [] h = refl
listed_none now r (s ∷ rs) h = elim (Bool-cases (is_due now s)) [
  | inl e ↦ rw e (rw (eq_flip s.job_id r.job_id h.0) (listed_none now r rs h.1))
  | inr e ↦ rw e (listed_none now r rs h.1)
]

listed_more :
    (i : String) (ids : List String) (now : ℕ) (rs : Rows)
    → All (λ s. has_id i s ≡ false) rs
    → All (λ s. listed ids s ≡ is_due now s) rs
    → All (λ s. listed (i ∷ ids) s ≡ is_due now s) rs
unfolding listed
listed_more i ids now [] h k = tt
listed_more i ids now (s ∷ rs) h k = (rw h.0 k.0, listed_more i ids now rs h.1 k.1)

due_ids_due :
    (now : ℕ) (r : QueuedJob) (rs : Rows)
    → is_due now r ≡ true
    → due_ids now (r ∷ rs) ≡ r.job_id ∷ due_ids now rs
due_ids_due now r rs e = rw e refl

due_ids_later :
    (now : ℕ) (r : QueuedJob) (rs : Rows)
    → is_due now r ≡ false
    → due_ids now (r ∷ rs) ≡ due_ids now rs
due_ids_later now r rs e = rw e refl

listed_first : (r : QueuedJob) (ids : List String) → listed (r.job_id ∷ ids) r ≡ true
unfolding listed
listed_first r ids = rw (has_id_refl r) refl

-- Of rows with distinct identifiers, those listed are those due.
listed_due :
    (now : ℕ) (rows : Rows)
    → Distinct rows
    → All (λ r. listed (due_ids now rows) r ≡ is_due now r) rows
listed_due now [] d = tt
listed_due now (r ∷ rs) d = elim (Bool-cases (is_due now r)) [
  | inl e ↦
      subst (λ ids. All (λ s. listed ids s ≡ is_due now s) (r ∷ rs)) (sym (due_ids_due now r rs e))
        (
          listed_first r (due_ids now rs) ∙ sym e,
          listed_more r.job_id (due_ids now rs) now rs d.0 (listed_due now rs d.1),
        )
  | inr e ↦
      subst (λ ids. All (λ s. listed ids s ≡ is_due now s) (r ∷ rs))
        (sym (due_ids_later now r rs e)) (listed_none now r rs d.0 ∙ sym e, listed_due now rs d.1)
]

-- The rows that expire are exactly the queued ones whose deadline has passed, and every other row
-- is left as it was.
pub expire_due_exact :
    (now : ℕ) (rows : Rows)
    → Distinct rows
    → (expire_due now rows).0 ≡ map (λ r. if is_due now r then expire_row now r else r) rows
unfolding expire_due update_where
expire_due_exact now rows d =
    update_where_agree (listed (due_ids now rows)) (is_due now) (expire_row now) rows
      (listed_due now rows d)
