-- ===== src/Accounting/Ledger.antt =====
-- src/mycellm/accounting/local_ledger.py: accounts, transactions and receipts of one node.
-- Credits are natural numbers of a small unit. The tables are lists in the order of insertion; the
-- identifier of a transaction (`uuid4`) is an argument, and time stamps are left out.
use mycellm.Prelude.{
  ℕ, ◌+◌, ◌-◌, String, Option, none, some, Bool, ◌&&◌, ◌||◌, List, [], ◌∷◌, ◌++◌, map, filter, find,
  any, take, ltb, negb, ◌==◌, if◌then◌else◌,
}
use mathlib.Core.List.{reverse}
use mycellm.Prelude.Text.{Text}

pub record Account : Type 0 where
  pub peer_id : String
  pub network_id : String
  pub balance : ℕ
  pub total_earned : ℕ
  pub total_spent : ℕ

pub data Direction : Type 0 where
  credit debit : Direction

-- The texts of `reason`.
pub data Reason : Type 0 where
  consumed served stake_refund : String → Reason
  queue_stake : Reason

pub record Transaction : Type 0 where
  pub id : String
  pub peer_id : String
  pub counterparty_id : String
  pub amount : ℕ
  pub direction : Direction
  pub reason : Reason
  pub receipt_signature : Text
  pub network_id : String

pub record StoredReceipt : Type 0 where
  pub tx_id : String
  pub consumer_id : String
  pub seeder_id : String
  pub model : String
  pub tokens : ℕ
  pub cost : ℕ
  pub signature : Text

pub record Ledger : Type 0 where
  pub accounts : List Account
  pub transactions : List Transaction
  pub receipts : List StoredReceipt

-- `WHERE peer_id = ? AND network_id = ?`
unfoldable pub is_account : String → String → Account → Bool
is_account peer network a = a.peer_id == peer && a.network_id == network

-- `INSERT OR IGNORE`
unfoldable pub ensure_account : String → ℕ → String → Ledger → Ledger
unfolding is_account
ensure_account peer initial network l =
    if any (is_account peer network) l.accounts then l else record l {
      accounts =
          l.accounts
          ++ record {
            peer_id = peer;
            network_id = network;
            balance = initial;
            total_earned = 0;
            total_spent = 0;
          }
            ∷ [];
    }

unfoldable pub account_of : String → String → List Account → Option Account
unfolding is_account
account_of peer network accounts = find (is_account peer network) accounts

unfoldable pub balance_or_zero : Option Account → ℕ
balance_or_zero none = 0
balance_or_zero (some a) = a.balance

unfoldable pub balance_of : String → String → Ledger → ℕ
unfolding balance_or_zero account_of
balance_of peer network l = balance_or_zero (account_of peer network l.accounts)

unfoldable pub update_account : String → String → (Account → Account) → List Account → List Account
unfolding is_account
update_account peer network f accounts =
    map (λ a. if is_account peer network a then f a else a) accounts

-- What a transaction says beside its party, amount and direction.
pub record Memo : Type 0 where
  pub tx_id : String
  pub reason : Reason
  pub counterparty_id : String
  pub receipt_signature : Text

unfoldable pub transaction : String → String → ℕ → Direction → Memo → Transaction
transaction peer network amount direction m = record {
  id = m.tx_id;
  peer_id = peer;
  counterparty_id = m.counterparty_id;
  amount = amount;
  direction = direction;
  reason = m.reason;
  receipt_signature = m.receipt_signature;
  network_id = network;
}

abbrev pub add_credit : ℕ → Account → Account
add_credit amount a = record a {
  balance = a.balance + amount;
  total_earned = a.total_earned + amount;
}

unfoldable pub credit_account : String → String → ℕ → Memo → Ledger → Ledger
unfolding update_account transaction
credit_account peer network amount m l = record l {
  accounts = update_account peer network (add_credit amount) l.accounts;
  transactions = l.transactions ++ transaction peer network amount credit m ∷ [];
}

-- `row and row[0] < amount`
unfoldable pub cannot_pay : ℕ → Option Account → Bool
cannot_pay amount o = elim o [ none ↦ Bool.false | some a ↦ ltb a.balance amount ]

abbrev pub take_debit : ℕ → Account → Account
take_debit amount a = record a {
  balance = a.balance - amount;
  total_spent = a.total_spent + amount;
}

-- `none` is the `ValueError` on a balance that is too small.
unfoldable pub debit_account : String → String → ℕ → Memo → Ledger → Option Ledger
unfolding update_account account_of cannot_pay transaction
debit_account peer network amount m l =
    if cannot_pay amount (account_of peer network l.accounts)
    then none
    else some (record l {
      accounts = update_account peer network (take_debit amount) l.accounts;
      transactions = l.transactions ++ transaction peer network amount debit m ∷ [];
    })

-- `INSERT OR REPLACE`: a receipt with the same identifier gives way. The tracker asks first whether
-- the column holds the count of tokens.
unfoldable pub store_receipt : StoredReceipt → Ledger → Ledger
store_receipt r l = record l {
  receipts = filter (λ s. negb (s.tx_id == r.tx_id)) l.receipts ++ r ∷ [];
}

-- `ORDER BY timestamp DESC LIMIT`: newest first.
unfoldable pub history : String → ℕ → Ledger → List Transaction
history peer limit l = take limit (reverse (filter (λ t. t.peer_id == peer) l.transactions))

unfoldable pub get_receipts : String → ℕ → Ledger → List StoredReceipt
get_receipts peer limit l =
    take limit (reverse (filter (λ r. r.consumer_id == peer || r.seeder_id == peer) l.receipts))
