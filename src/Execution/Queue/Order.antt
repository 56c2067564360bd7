-- ===== src/Execution/Queue/Order.antt =====
-- The order of `pending` in src/mycellm/execution/queue.py.
use mathlib.Core.List.{Perm}
use mathlib.Core.List.Perm
use mycellm.Prelude.{
  ℕ, ◌+◌, ◌*◌, ◌≤◌, ◌<◌, ◌≡◌, inl, inr, refl, sym, ap, subst, String, Bool, true, false, ◌&&◌, ◌||◌,
  List, [], ◌∷◌, filter, take, length, All, All-imp, All-take, zero, suc, All-filter_self, ltb, eqb,
  arith, Bool-cases, ◌==◌, negb,
}
use mycellm.Prelude.Sort.{
  sort_by, IsSortedBy, IsStrictWeak, sort_by-IsSortedBy, sort_by-perm, All-sort_by, length-sort_by,
}
use mycellm.Execution.Queue.Row.{
  QueuedJob, Rows, is_queued, own_class, priority, age_s, sorts_before,
}
use mycellm.Execution.Queue.{pending}

-- The lexicographic order of `sort_key`, on three numbers.
lex : (a1 b1 c1 a2 b2 c2 : ℕ) → Bool
lex a1 b1 c1 a2 b2 c2 = ltb a1 a2 || eqb a1 a2 && (ltb b2 b1 || eqb b2 b1 && ltb c1 c2)

lex_asym : (a1 b1 c1 a2 b2 c2 : ℕ) → lex a1 b1 c1 a2 b2 c2 ≡ true → lex a2 b2 c2 a1 b1 c1 ≡ false
unfolding lex
lex_asym a1 b1 c1 a2 b2 c2 h = ground arith

lex_negtrans :
    (a1 b1 c1 a2 b2 c2 a3 b3 c3 : ℕ)
    → lex a1 b1 c1 a2 b2 c2 ≡ false
    → lex a2 b2 c2 a3 b3 c3 ≡ false
    → lex a1 b1 c1 a3 b3 c3 ≡ false
unfolding lex
lex_negtrans a1 b1 c1 a2 b2 c2 a3 b3 c3 h k = ground arith

sorts_before-IsStrictWeak : (owner : String) (now : ℕ) → IsStrictWeak (sorts_before owner now)
unfolding sorts_before lex
sorts_before-IsStrictWeak owner now = record {
  asym = λ x y h. lex_asym (own_class owner x) (priority x now) x.created_at _ _ _ h;
  negtrans = λ x y z h k.
      lex_negtrans (own_class owner x) (priority x now) x.created_at (own_class owner y)
        (priority y now) y.created_at _ _ _ h k;
}

take_all {ℓ} : {A : Type ℓ} (n : ℕ) (xs : List A) → length xs ≤ n → take n xs ≡ xs
take_all zero [] h = refl
take_all zero (x ∷ xs) h = absurd (omega arith)
take_all (suc n) [] h = refl
take_all (suc n) (x ∷ xs) h = ap (λ l. x ∷ l) (take_all n xs (omega arith))

module _ (before coarse : QueuedJob → QueuedJob → Bool)
    (finer : (x y : QueuedJob) → coarse x y ≡ true → before x y ≡ true) where
  coarser_false : (x y : QueuedJob) → before x y ≡ false → coarse x y ≡ false
  coarser_false x y h = elim (Bool-cases (coarse x y)) [
    | inl e ↦ let m : before x y ≡ true = finer x y e in absurd (cc)
    | inr e ↦ e
  ]

  coarser-IsSortedBy : (rows : Rows) → IsSortedBy before rows → IsSortedBy coarse rows
  coarser-IsSortedBy [] h = tt
  coarser-IsSortedBy (x ∷ rows) h =
      (All-imp _ _ (λ y. coarser_false y x) rows h.0, coarser-IsSortedBy rows h.1)

-- The queue is best first, holds queued jobs only, and all of them unless there are more than the
-- limit.
pub pending-IsSortedBy :
    (owner : String) (now limit : ℕ) (rows : Rows)
    → IsSortedBy (sorts_before owner now) (pending owner now limit rows)
      × All (λ r. is_queued r.state ≡ true) (pending owner now limit rows)
      × (length (filter (λ r. is_queued r.state) rows) ≤ limit
          → Perm (pending owner now limit rows) (filter (λ r. is_queued r.state) rows))
unfolding pending
pending-IsSortedBy owner now limit rows =
    let by_age = λ (x y : QueuedJob). ltb x.created_at y.created_at in
    let waiting = filter (λ r. is_queued r.state) rows in
    (
      sort_by-IsSortedBy (sorts_before owner now) (sorts_before-IsStrictWeak owner now)
          (take limit (sort_by by_age waiting)),
      All-sort_by (sorts_before owner now) _ _ (
          All-take _ limit _
            (All-sort_by by_age _ waiting (All-filter_self (λ r. is_queued r.state) rows))),
      λ h.
          Perm.trans (sort_by-perm (sorts_before owner now) (take limit (sort_by by_age waiting))) (
            subst (λ l. Perm l waiting)
              (sym (
                take_all limit (sort_by by_age waiting)
                  (omega (arith, h, length-sort_by by_age waiting))))
              (sort_by-perm by_age waiting)),
    )

-- The order of two jobs that are both submitted does not change with time.
pub sorts_before_always :
    (owner : String) (now later : ℕ) (x y : QueuedJob)
    → x.created_at ≤ now
    → y.created_at ≤ now
    → now ≤ later
    → sorts_before owner later x y ≡ sorts_before owner now x y
unfolding sorts_before priority age_s
sorts_before_always owner now later x y h k l = ground arith

-- The job is the owner's own, or nobody's.
abbrev pub is_ours : String → QueuedJob → Bool
is_ours owner r = r.owner_id == "" || (negb (owner == "") && r.owner_id == owner)

ours_first :
    (owner : String) (now : ℕ) (x y : QueuedJob)
    → (is_ours owner x && negb (is_ours owner y)) ≡ true
    → sorts_before owner now x y ≡ true
unfolding sorts_before own_class
ours_first owner now x y h = ground arith

-- In the queue no job of another owner stands before one of the owner, or of nobody, whatever the
-- stakes and ages.
pub pending_owner_first :
    (owner : String) (now limit : ℕ) (rows : Rows)
    → IsSortedBy (λ x y. is_ours owner x && negb (is_ours owner y)) (pending owner now limit rows)
pending_owner_first owner now limit rows =
    coarser-IsSortedBy (sorts_before owner now) _ (ours_first owner now) _
      (pending-IsSortedBy owner now limit rows).0

-- Within a class, a job comes before one that is submitted later, whose stake exceeds its own by
-- less than one credit for each 360 seconds between the two.
pub patience_wins :
    (owner : String) (now : ℕ) (x y : QueuedJob)
    → own_class owner x ≡ own_class owner y
    → x.created_at ≤ y.created_at
    → y.created_at ≤ now
    → 360 * y.stake + x.created_at < 360 * x.stake + y.created_at
    → sorts_before owner now x y ≡ true
unfolding sorts_before priority age_s
patience_wins owner now x y c h k l = ground arith
