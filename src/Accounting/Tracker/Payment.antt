-- ===== src/Accounting/Tracker/Payment.antt =====
-- What a settlement of src/mycellm/accounting/tracker.py does to the balances.
use mathlib.Core.Option
use mycellm.Prelude.{
  ℕ, ◌+◌, ◌-◌, ◌≤◌, ◌≡◌, inl, inr, refl, sym, ap, ◌∙◌, subst, String, some, true, false, ◌&&◌, List,
  [], ◌∷◌, ◌++◌, any, ltb, ◌==◌, eq_iff, arith, Bool-cases,
}
use mycellm.Accounting.Ledger.{
  Account, Ledger, Memo, is_account, account_of, balance_of, balance_or_zero, ensure_account,
  update_account, add_credit, take_debit, credit_account, debit_account, cannot_pay, transaction,
  debit,
}

-- An account is open.
abbrev pub Open : String → String → List Account → Type 0
Open p n l = (a : Account) × (account_of p n l ≡ some a)

module _ (p n : String) (f : Account → Account)
    (same : (q m : String) (a : Account) → is_account q m (f a) ≡ is_account q m a) where
  -- An update changes the account that it names.
  account-update :
      (l : List Account) → account_of p n (update_account p n f l) ≡ Option.map f (account_of p n l)
  unfolding account_of update_account
  account-update [] = refl
  account-update (a ∷ l) = elim (Bool-cases (is_account p n a)) [
    | inl e ↦ rw e (rw (same p n a ∙ e) refl)
    | inr e ↦ rw e (rw e (account-update l))
  ]

  -- It leaves every other account.
  account_of-other :
      (q m : String)
      → ((a : Account) → is_account p n a ≡ true → is_account q m a ≡ false)
      → (l : List Account) → account_of q m (update_account p n f l) ≡ account_of q m l
  unfolding account_of update_account
  account_of-other q m apart [] = refl
  account_of-other q m apart (a ∷ l) = elim (Bool-cases (is_account p n a)) [
    | inl e ↦ rw e (rw (same q m a ∙ apart a e) (rw (apart a e) (account_of-other q m apart l)))
    | inr e ↦ rw e (elim (Bool-cases (is_account q m a)) [
      | inl k ↦ rw k refl
      | inr k ↦ rw k (account_of-other q m apart l)
    ])
  ]

-- Two names of accounts differ.
abbrev pub Apart : String → String → String → String → Type 0
Apart p n q m = ((p == q) && (n == m)) ≡ false

is_account-Apart :
    (p n q m : String) (a : Account)
    → Apart p n q m
    → is_account p n a ≡ true
    → is_account q m a ≡ false
unfolding is_account
is_account-Apart p n q m a h k =
    let peer : a.peer_id ≡ p = (eq_iff a.peer_id p).0 (ground arith) in
    let net : a.network_id ≡ n = (eq_iff a.network_id n).0 (ground arith) in rw (peer, net) h

credit_same :
    (amount : ℕ) (q m : String) (a : Account)
    → is_account q m (add_credit amount a) ≡ is_account q m a
unfolding is_account
credit_same amount q m a = refl

debit_same :
    (amount : ℕ) (q m : String) (a : Account)
    → is_account q m (take_debit amount a) ≡ is_account q m a
unfolding is_account
debit_same amount q m a = refl

module _ (p n : String) (amount : ℕ) (m : Memo) (l : Ledger) where
  pub balance_of-credit :
      Open p n l.accounts
      → balance_of p n (credit_account p n amount m l) ≡ balance_of p n l + amount
  unfolding balance_of credit_account balance_or_zero
  balance_of-credit o =
      ap balance_or_zero (
        account-update p n (add_credit amount) (credit_same amount) l.accounts
        ∙ ap (Option.map (add_credit amount)) o.1)
      ∙ sym (ap (λ x. balance_or_zero x + amount) o.1)

  pub balance_of-credit_other :
      (q k : String)
      → Apart p n q k
      → balance_of q k (credit_account p n amount m l) ≡ balance_of q k l
  unfolding balance_of credit_account
  balance_of-credit_other q k apart = ap balance_or_zero (
      account_of-other p n (add_credit amount) (credit_same amount) q k
        (λ a. is_account-Apart p n q k a apart) l.accounts)

  -- What a debit leaves, where the account is open and holds enough.
  abbrev pub debited : Ledger
  debited = record l {
    accounts = update_account p n (take_debit amount) l.accounts;
    transactions = l.transactions ++ transaction p n amount debit m ∷ [];
  }

  pub debit-debited :
      Open p n l.accounts → amount ≤ balance_of p n l → debit_account p n amount m l ≡ some debited
  unfolding debit_account balance_of balance_or_zero cannot_pay
  debit-debited o enough =
      let fits : amount ≤ (o.0).balance = subst (λ x. amount ≤ balance_or_zero x) o.1 enough in
      let small : ltb (o.0).balance amount ≡ false = ground arith in rw o.1 (rw small refl)

  pub balance_of-debited : Open p n l.accounts → balance_of p n debited ≡ balance_of p n l - amount
  unfolding balance_of balance_or_zero
  balance_of-debited o =
      ap balance_or_zero (
        account-update p n (take_debit amount) (debit_same amount) l.accounts
        ∙ ap (Option.map (take_debit amount)) o.1)
      ∙ sym (ap (λ x. balance_or_zero x - amount) o.1)

  pub account_of-debited_other :
      (q k : String) → Apart p n q k → account_of q k debited.accounts ≡ account_of q k l.accounts
  account_of-debited_other q k apart =
      account_of-other p n (take_debit amount) (debit_same amount) q k
        (λ a. is_account-Apart p n q k a apart) l.accounts

add_account : (p n : String) (l : List Account) (b : Account) → Open p n l → Open p n (l ++ b ∷ [])
unfolding account_of
add_account p n [] b o = let none_found = o.1 in absurd (cc)
add_account p n (a ∷ l) b o = elim (Bool-cases (is_account p n a)) [
  | inl e ↦ rw e (a, refl)
  | inr e ↦ rw e (add_account p n l b (o.0, rw e at (o.1)))
]

any-Open : (p n : String) (l : List Account) → any (is_account p n) l ≡ true → Open p n l
unfolding account_of
any-Open p n [] h = absurd (cc)
any-Open p n (a ∷ l) h = elim (Bool-cases (is_account p n a)) [
  | inl e ↦ rw e (a, refl)
  | inr e ↦ rw e (any-Open p n l (rw e at h))
]

last-Open :
    (p n : String) (l : List Account) (b : Account)
    → is_account p n b ≡ true
    → Open p n (l ++ b ∷ [])
unfolding account_of
last-Open p n [] b h = rw h (b, refl)
last-Open p n (a ∷ l) b h = elim (Bool-cases (is_account p n a)) [
  | inl e ↦ rw e (a, refl)
  | inr e ↦ rw e (last-Open p n l b h)
]

is_account_self :
    (p n : String) (i : ℕ)
    → is_account p n
        (record { peer_id = p; network_id = n; balance = i; total_earned = 0; total_spent = 0 })
      ≡ true
unfolding is_account
is_account_self p n i = rw ((eq_iff p p).1 refl, (eq_iff n n).1 refl) refl

pub ensure_account-Open :
    (p n : String) (i : ℕ) (l : Ledger) → Open p n (ensure_account p i n l).accounts
unfolding ensure_account account_of
ensure_account-Open p n i l = elim (Bool-cases (any (is_account p n) l.accounts)) [
  | inl e ↦ rw e (any-Open p n l.accounts e)
  | inr e ↦ rw e (last-Open p n l.accounts _ (is_account_self p n i))
]

pub ensure_account-keeps_Open :
    (p n q m : String) (i : ℕ) (l : Ledger)
    → Open p n l.accounts
    → Open p n (ensure_account q i m l).accounts
unfolding ensure_account
ensure_account-keeps_Open p n q m i l o = elim (Bool-cases (any (is_account q m) l.accounts)) [
  | inl e ↦ rw e o
  | inr e ↦ rw e (add_account p n l.accounts _ o)
]

-- A credit closes no account.
credit_keeps_Open :
    (p n q k : String) (amount : ℕ) (l : List Account)
    → Open p n l
    → Open p n (update_account q k (add_credit amount) l)
unfolding account_of update_account
credit_keeps_Open p n q k amount [] o = absurd (cc (o.1))
credit_keeps_Open p n q k amount (a ∷ l) o = elim (Bool-cases (is_account q k a)) [
  | inl e ↦ rw e (elim (Bool-cases (is_account p n a)) [
    | inl h ↦ rw h (add_credit amount a, unfold is_account in refl)
    | inr h ↦ rw h (credit_keeps_Open p n q k amount l (o.0, rw h at (o.1)))
  ])
  | inr e ↦ rw e (elim (Bool-cases (is_account p n a)) [
    | inl h ↦ rw h (a, refl)
    | inr h ↦ rw h (credit_keeps_Open p n q k amount l (o.0, rw h at (o.1)))
  ])
]

pub credit_account-Open :
    (p n q k : String) (amount : ℕ) (m : Memo) (l : Ledger)
    → Open p n l.accounts
    → Open p n (credit_account q k amount m l).accounts
unfolding credit_account
credit_account-Open p n q k amount m l o = credit_keeps_Open p n q k amount l.accounts o
