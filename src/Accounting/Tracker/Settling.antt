-- ===== src/Accounting/Tracker/Settling.antt =====
-- What a settlement of src/mycellm/accounting/tracker.py comes to.
use mathlib.Core.Option
use mycellm.Prelude.{
  ℕ, ◌+◌, ◌-◌, ◌≤◌, ◌≡◌, ◌≢◌, ◌⊎◌, inl, inr, refl, ap, ◌∙◌, String, some, false, if◌then◌else◌,
  ◌==◌, arith, Bool-cases,
}
use mycellm.Prelude.Text.{eq_flip}
use mycellm.Accounting.Ledger.{Ledger, balance_of, balance_or_zero, store_receipt, credit_account}
use mycellm.Accounting.Receipts.{
  Amount, finite, infinite, not_a_number, ReceiptData, Validator, check_replay, check_credit_rate,
}
use mycellm.Accounting.Tracker.{
  Receipt, settled, raised, storable, settle_amount, short_of, Settlement, seed_accounts,
  seed_balance, earn, consumer_memo, seeder_memo, pay, settle_checked,
}
use mycellm.Accounting.Tracker.Payment.{
  Open, Apart, balance_of-credit, balance_of-credit_other, debited, debit-debited,
  balance_of-debited, account_of-debited_other, ensure_account-Open, ensure_account-keeps_Open,
}

-- The consumer could pay the cost and has paid the cost to the seeder, and every other account is as it was.
abbrev pub Paid : ReceiptData → ℕ → Ledger → Ledger → Type 0
Paid d cost before after =
    (cost ≤ balance_of d.consumer d.network_id before)
    × (balance_of d.consumer d.network_id after ≡ balance_of d.consumer d.network_id before - cost)
    × (balance_of d.seeder d.network_id after ≡ balance_of d.seeder d.network_id before + cost)
    × ((p n : String)
        → Apart d.consumer d.network_id p n
        → Apart d.seeder d.network_id p n
        → balance_of p n after ≡ balance_of p n before)

module _ (ids : String × String) (r : Receipt) (d : ReceiptData) (cost : ℕ) (l : Ledger) where
  -- What is stored besides changes no balance.
  balance_of-earn :
      (p n : String) (m : Ledger)
      → balance_of p n (earn ids.1 r d cost m)
        ≡ balance_of p n (credit_account d.seeder d.network_id cost (seeder_memo ids.1 r d) m)
  unfolding earn store_receipt balance_of
  balance_of-earn p n m = elim (Bool-cases (storable d.tokens)) [
    | inl e ↦ rw e refl
    | inr e ↦ rw e refl
  ]

  pay-Paid :
      Open d.consumer d.network_id l.accounts
      → Open d.seeder d.network_id l.accounts
      → (d.seeder == d.consumer) ≡ false
      → cost ≤ balance_of d.consumer d.network_id l
      → (after : Ledger) × (pay ids r d cost l ≡ some after) × Paid d cost l after
  unfolding pay balance_of
  pay-Paid consumer seeder differ enough =
      let mid : Ledger = debited d.consumer d.network_id cost (consumer_memo ids.0 r d) l in
      let apart : Apart d.consumer d.network_id d.seeder d.network_id =
        rw (eq_flip d.seeder d.consumer differ) refl in
      let apart2 : Apart d.seeder d.network_id d.consumer d.network_id = rw differ refl in
      let kept =
        account_of-debited_other d.consumer d.network_id cost (consumer_memo ids.0 r d) l in
      (
        earn ids.1 r d cost mid,
        ap (Option.map (earn ids.1 r d cost)) (
            debit-debited d.consumer d.network_id cost (consumer_memo ids.0 r d) l consumer enough),
        (
          enough,
          balance_of-earn d.consumer d.network_id mid
              ∙ balance_of-credit_other d.seeder d.network_id cost (seeder_memo ids.1 r d) mid
                  d.consumer d.network_id apart2
              ∙ balance_of-debited d.consumer d.network_id cost (consumer_memo ids.0 r d) l
                  consumer,
          balance_of-earn d.seeder d.network_id mid
              ∙ balance_of-credit d.seeder d.network_id cost (seeder_memo ids.1 r d) mid
                  (seeder.0, kept d.seeder d.network_id apart ∙ seeder.1)
              ∙ ap (λ o. balance_or_zero o + cost) (kept d.seeder d.network_id apart),
          λ p n a b.
              balance_of-earn p n mid
              ∙ balance_of-credit_other d.seeder d.network_id cost (seeder_memo ids.1 r d) mid p n b
              ∙ ap balance_or_zero (kept p n a),
        ),
      )

-- What a settlement of the fields comes to. The cost is paid, and the receipt is settled or, if its
-- count of tokens cannot be stored, an exception is raised after the payment. Or it is not settled,
-- the balances are as the accounts were seeded, or untouched, and an exception means that the cost is
-- no number.
abbrev pub SettledOr : ReceiptData → Ledger → Settlement → Type 0
SettledOr d l s =
    ((cost : ℕ) × (d.cost ≡ finite cost)
      × (s.reason ≡ (if storable d.tokens then settled else raised))
      × Paid d cost (seed_accounts d.seeder d.consumer d.network_id l) s.ledger)
    ⊎ ((s.reason ≢ settled)
        × (s.reason ≡ raised → d.cost ≡ not_a_number)
        × ((s.ledger ≡ l) ⊎ (s.ledger ≡ seed_accounts d.seeder d.consumer d.network_id l)))

seeded-Open :
    (d : ReceiptData) (l : Ledger)
    → Open d.consumer d.network_id (seed_accounts d.seeder d.consumer d.network_id l).accounts
      × Open d.seeder d.network_id (seed_accounts d.seeder d.consumer d.network_id l).accounts
unfolding seed_accounts
seeded-Open d l = (
  ensure_account-Open d.consumer d.network_id seed_balance _,
  ensure_account-keeps_Open d.seeder d.network_id d.consumer d.network_id seed_balance _
      (ensure_account-Open d.seeder d.network_id seed_balance l),
)

-- Step 6, for a cost that the consumer is not short of.
settle_amount-SettledOr :
    (ids : String × String) (r : Receipt) (d : ReceiptData) (l : Ledger) (v : Validator)
    (a : Amount)
    → (d.seeder == d.consumer) ≡ false
    → d.cost ≡ a
    → let seeded = seed_accounts d.seeder d.consumer d.network_id l in
      short_of a (balance_of d.consumer d.network_id seeded) ≡ false
      → (s : Settlement) × (settle_amount ids r d seeded v a ≡ some s) × SettledOr d l s
unfolding settle_amount short_of
settle_amount-SettledOr ids r d l v (finite cost) differ e h =
    let seeded = seed_accounts d.seeder d.consumer d.network_id l in
    let paid =
      pay-Paid ids r d cost seeded (seeded-Open d l).0 (seeded-Open d l).1 differ (ground arith) in
    rw (paid.1) (_, refl, inl (cost, e, refl, paid.2))
settle_amount-SettledOr ids r d l v infinite differ e h = absurd (cc)
settle_amount-SettledOr ids r d l v not_a_number differ e h =
    (_, refl, inr ((λ k. cc), (λ k. e), inr refl))

pub settle_checked-SettledOr :
    (ids : String × String) (now : ℕ) (r : Receipt) (d : ReceiptData) (l : Ledger) (v : Validator)
    → (d.seeder == d.consumer) ≡ false
    → (s : Settlement) × (settle_checked ids now r d l v ≡ some s) × SettledOr d l s
unfolding settle_checked
settle_checked-SettledOr ids now r d l v differ =
    let rate = check_credit_rate d.seeder now v in
    let seeded = seed_accounts d.seeder d.consumer d.network_id l in
    let fresh = check_replay d.request_id now rate.0 in
    elim (Bool-cases rate.1) [
      | inr e ↦ rw e (_, refl, inr ((λ k. cc), (λ k. absurd (cc)), inl refl))
      | inl e ↦ elim (Bool-cases (short_of d.cost (balance_of d.consumer d.network_id seeded))) [
        | inl f ↦ rw (e, f) (_, refl, inr ((λ k. cc), (λ k. absurd (cc)), inr refl))
        | inr f ↦ elim (Bool-cases fresh.1) [
          | inr g ↦ rw (e, f, g) (_, refl, inr ((λ k. cc), (λ k. absurd (cc)), inr refl))
          | inl g ↦ rw (e, f, g) (settle_amount-SettledOr ids r d l fresh.0 d.cost differ refl f)
        ]
      ]
    ]
