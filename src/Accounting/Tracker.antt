-- ===== src/Accounting/Tracker.antt =====
-- src/mycellm/accounting/tracker.py: the settlement of a receipt that both parties signed.
pub mod Payment
mod Settling
mod Attested
mod Replay
mod Once
mod Tests
use mycellm.Prelude.{
  ℕ, String, Option, none, some, Bool, true, false, ◌||◌, List, [], ◌∷◌, ltb, negb, ◌==◌,
  if◌then◌else◌, ◌*◌, ◌^◌,
}
use mathlib.Core.Option
use mycellm.Prelude.Text.{Text}
use mycellm.Accounting.Ledger.{
  Ledger, Memo, consumed, served, ensure_account, balance_of, credit_account, debit_account,
  store_receipt,
}
use mycellm.Accounting.Receipts.{
  Crypto, Amount, finite, infinite, not_a_number, ReceiptData, Validator, build_receipt_data,
  verify_cosigned_receipt, check_replay, check_credit_rate,
}

-- A `cost` that `float` reads: below zero or not.
pub data Cost : Type 0 where
  negative : Cost
  costs : Amount → Cost

-- What `int` makes of the tokens: it raises a caught exception, or, for an infinite float, one that
-- is not caught. Counts and times below zero are left out.
pub data Tokens : Type 0 where
  unreadable overflowing : Tokens
  tokens_read : ℕ → Tokens

-- The dict of a receipt; a number is `none` where its conversion raises.
pub record Receipt : Type 0 where
  pub consumer : String
  pub seeder : String
  pub model : String
  pub tokens : Tokens
  pub cost : Option Cost
  pub request_id : String
  pub ts : Option ℕ
  pub network_id : String
  pub seeder_signature : Text
  pub consumer_signature : Text
  pub seeder_pubkey : Text
  pub consumer_pubkey : Text

pub data Verdict : Type 0 where
  malformed self_deal bad_pubkey_hex seeder_pubkey_mismatch consumer_pubkey_mismatch : Verdict
  bad_signature rate_limited insufficient_consumer_balance replay settled : Verdict
  -- An exception that the caller sees.
  raised : Verdict

pub record Settlement : Type 0 where
  pub reason : Verdict
  pub ledger : Ledger
  pub validator : Validator

-- 100 credits, in thousandths.
abbrev pub seed_balance : ℕ
seed_balance = 100 * 1000

unfoldable pub seed_accounts : String → String → String → Ledger → Ledger
seed_accounts seeder consumer network l =
    ensure_account consumer seed_balance network (ensure_account seeder seed_balance network l)

unfoldable pub cost_fields : Receipt → ℕ → ℕ → Cost → Option ReceiptData
cost_fields r tokens ts negative = none
cost_fields r tokens ts (costs cost) =
    if r.consumer == "" || r.seeder == ""
    then none
    else some (record {
      consumer = r.consumer;
      seeder = r.seeder;
      model = r.model;
      tokens = tokens;
      cost = cost;
      request_id = r.request_id;
      ts = ts;
      network_id = r.network_id;
    })

unfoldable pub token_count : Tokens → Option ℕ
token_count unreadable = none
token_count overflowing = none
token_count (tokens_read n) = some n

-- The cost is read, and then the conversion of the tokens raises `OverflowError`.
unfoldable pub overflows : Option Cost → Tokens → Bool
overflows (some c) overflowing = true
overflows _ _ = false

unfoldable pub read_fields : Receipt → Option Cost → Option ℕ → Option ℕ → Option ReceiptData
unfolding cost_fields
read_fields r none tokens ts = none
read_fields r (some c) none ts = none
read_fields r (some c) (some tokens) none = none
read_fields r (some c) (some tokens) (some ts) = cost_fields r tokens ts c

-- The fields that are signed, `none` where the receipt is malformed.
unfoldable pub signed_fields : Receipt → Option ReceiptData
unfolding read_fields token_count
signed_fields r = read_fields r r.cost (token_count r.tokens) r.ts

-- The two public keys, seeder's first.
unfoldable pub read_keys : Crypto → Receipt → Option (Text × Text)
read_keys c r = elim (c.from_hex r.seeder_pubkey) [
  | none ↦ none
  | some s ↦ elim (c.from_hex r.consumer_pubkey) [ none ↦ none | some k ↦ some (s, k) ]
]

-- Steps 1 and 2: what refuses the receipt, if anything.
unfoldable pub check_parties : Crypto → ℕ → Receipt → ReceiptData → Option Verdict
unfolding read_keys
check_parties c now r d = if d.seeder == d.consumer then some self_deal else elim (read_keys c r) [
  | none ↦ some bad_pubkey_hex
  | some keys ↦
      if negb (c.peer_id_of keys.0 == d.seeder)
      then some seeder_pubkey_mismatch
      else if negb (c.peer_id_of keys.1 == d.consumer)
      then some consumer_pubkey_mismatch
      else if verify_cosigned_receipt c (build_receipt_data c now d) r.seeder_signature keys.0
          r.consumer_signature keys.1
      then none
      else some bad_signature
]

unfoldable pub consumer_memo : String → Receipt → ReceiptData → Memo
consumer_memo id r d = record {
  tx_id = id;
  reason = consumed d.model;
  counterparty_id = d.seeder;
  receipt_signature = r.consumer_signature;
}

unfoldable pub seeder_memo : String → Receipt → ReceiptData → Memo
seeder_memo id r d = record {
  tx_id = id;
  reason = served d.model;
  counterparty_id = d.consumer;
  receipt_signature = r.seeder_signature;
}

-- A column of SQLite holds the count; the insertion of a greater one raises, with nothing stored.
unfoldable pub storable : ℕ → Bool
storable n = ltb n (2 ^ 63)

-- The seeder's part of step 6.
unfoldable pub earn : String → Receipt → ReceiptData → ℕ → Ledger → Ledger
unfolding seeder_memo storable
earn id r d cost l =
    let paid = credit_account d.seeder d.network_id cost (seeder_memo id r d) l in
    if storable d.tokens
    then store_receipt
        (record {
          tx_id = id;
          consumer_id = d.consumer;
          seeder_id = d.seeder;
          model = d.model;
          tokens = d.tokens;
          cost = cost;
          signature = r.seeder_signature;
        })
        paid
    else paid

-- Step 6.
unfoldable pub pay : String × String → Receipt → ReceiptData → ℕ → Ledger → Option Ledger
unfolding earn consumer_memo
pay ids r d cost l =
    Option.map (earn ids.1 r d cost)
      (debit_account d.consumer d.network_id cost (consumer_memo ids.0 r d) l)

-- Step 6 by the cost. A debit of no number makes a balance that the table refuses, and nothing is
-- committed; an infinite one is refused with an exception. With a finite cost both payments are
-- committed before the receipt is stored.
unfoldable pub settle_amount :
    String × String → Receipt → ReceiptData → Ledger → Validator → Amount → Option Settlement
unfolding pay storable
settle_amount ids r d l v (finite cost) =
    Option.map
      (λ after. record {
        reason = if storable d.tokens then settled else raised;
        ledger = after;
        validator = v;
      })
      (pay ids r d cost l)
settle_amount ids r d l v infinite = some (record { reason = raised; ledger = l; validator = v })
settle_amount ids r d l v not_a_number =
    some (record { reason = raised; ledger = l; validator = v })

-- `balance < cost`, which is false where the cost is no number.
unfoldable pub short_of : Amount → ℕ → Bool
short_of (finite cost) balance = ltb balance cost
short_of infinite balance = true
short_of not_a_number balance = false

-- Steps 3 to 6; `none` is the `ValueError` of a debit that is too large, which the checks prevent.
unfoldable pub settle_checked :
    String × String → ℕ → Receipt → ReceiptData → Ledger → Validator → Option Settlement
unfolding settle_amount short_of seed_accounts
settle_checked ids now r d l v =
    let rate = check_credit_rate d.seeder now v in
    let seeded = seed_accounts d.seeder d.consumer d.network_id l in
    let fresh = check_replay d.request_id now rate.0 in
    if negb rate.1
    then some (record { reason = rate_limited; ledger = l; validator = rate.0 })
    else if short_of d.cost (balance_of d.consumer d.network_id seeded)
    then some
        (record { reason = insufficient_consumer_balance; ledger = seeded; validator = rate.0 })
    else if negb fresh.1
    then some (record { reason = replay; ledger = seeded; validator = fresh.0 })
    else settle_amount ids r d seeded fresh.0 d.cost

-- Steps 3 to 6, unless the checks before them refuse the receipt.
unfoldable pub settle_parties :
    String × String
    → ℕ
    → Receipt
    → Ledger
    → Validator
    → ReceiptData
    → Option Verdict
    → Option Settlement
unfolding settle_checked
settle_parties ids now r l v d none = settle_checked ids now r d l v
settle_parties ids now r l v d (some verdict) =
    some (record { reason = verdict; ledger = l; validator = v })

unfoldable pub settle_fields :
    Crypto
    → String × String
    → ℕ
    → Receipt
    → Ledger
    → Validator
    → Option ReceiptData
    → Option Settlement
unfolding settle_parties check_parties
settle_fields c ids now r l v none = some (record { reason = malformed; ledger = l; validator = v })
settle_fields c ids now r l v (some d) = settle_parties ids now r l v d (check_parties c now r d)

-- `settle_cosigned_receipt`, with the identifiers of its two transactions and the time of its calls.
unfoldable pub settle_cosigned_receipt :
    Crypto → String × String → ℕ → Receipt → Ledger → Validator → Option Settlement
unfolding settle_fields signed_fields overflows
settle_cosigned_receipt c ids now r l v =
    if overflows r.cost r.tokens
    then some (record { reason = raised; ledger = l; validator = v })
    else settle_fields c ids now r l v (signed_fields r)
