-- ===== src/Accounting/Tracker/Tests.antt =====
-- Runs of the settlement of src/mycellm/accounting/tracker.py, and its theorems at these inputs.
use mycellm.Prelude.{
  ◌^◌, ◌-◌, ◌<◌, ◌≡◌, ◌≢◌, refl, none, some, false, [], ◌∷◌, All, arith, ◌==◌, if◌then◌else◌,
}
use mycellm.Prelude.Text.{Text, codes, text_eq, is_empty}
use mycellm.Accounting.Ledger.{
  Ledger, balance_of, ensure_account, debit_account, credit_account, store_receipt,
}
use mycellm.Accounting.Receipts.{
  Crypto, finite, not_a_number, Validator, request_id_ttl, verify_cosigned_receipt, check_replay,
  check_credit_rate,
}
use mycellm.Accounting.Tracker.{
  Receipt, costs, tokens_read, overflowing, raised, Settlement, settled, replay, bad_signature,
  signed_fields, check_parties, settle_cosigned_receipt, pay, seed_accounts,
}
use mycellm.Accounting.Tracker.Attested.{Attested}
use mycellm.Accounting.Tracker.Once.{Attempt, verdicts, settled_once}

program : Unit {0}
unfolding settle_cosigned_receipt pay balance_of ensure_account check_replay check_credit_rate
    seed_accounts signed_fields check_parties verdicts text_eq verify_cosigned_receipt debit_account
    credit_account store_receipt
program = tt

-- Keys are one letter, the identifier of a peer is its key, and a signature is the signer's key.
abbrev toy : Crypto
toy = record {
  from_hex = λ t. if is_empty t then none else some t;
  peer_id_of = λ k. if text_eq k (codes "a") then "alice" else "bob";
  encode = λ d. [];
  verifies = λ k s m. text_eq k s;
}

abbrev empty_ledger : Ledger
empty_ledger = record { accounts = []; transactions = []; receipts = [] }

abbrev new_validator : Validator
new_validator = record { seen = []; rates = []; max_rate = 100 }

-- Bob served Alice for 30 credits.
abbrev service : Text → Receipt
service signature = record {
  consumer = "alice";
  seeder = "bob";
  model = "qwen";
  tokens = tokens_read 500;
  cost = some (costs (finite 30000));
  request_id = "r1";
  ts = some 10;
  network_id = "home";
  seeder_signature = codes "b";
  consumer_signature = signature;
  seeder_pubkey = codes "b";
  consumer_pubkey = codes "a";
}

abbrev first_time : Attempt
first_time = record { ids = ("t1", "t2"); now = 100; receipt = service (codes "a") }

abbrev second_time : Attempt
second_time = record { ids = ("t3", "t4"); now = 200; receipt = service (codes "a") }

abbrev result : Receipt → Settlement
result r = elim (settle_cosigned_receipt toy ("t1", "t2") 100 r empty_ledger new_validator) [
  | some s ↦ s
  | none ↦ record { reason = replay; ledger = empty_ledger; validator = new_validator }
]

abbrev after_first : Settlement
after_first = result (service (codes "a"))

settles :
    settle_cosigned_receipt toy ("t1", "t2") 100 (service (codes "a")) empty_ledger new_validator
    ≡ some after_first
unfolding program
settles = refl

is_settled : after_first.reason ≡ settled
unfolding program
is_settled = refl

paid :
    (balance_of "bob" "home" after_first.ledger ≡ 130000)
    × (balance_of "alice" "home" after_first.ledger ≡ 70000)
unfolding program
paid = (refl, refl)

forged : (result (service (codes "x"))).reason ≡ bad_signature
unfolding program
forged = refl

-- A count that SQLite cannot hold raises after the payment, and nothing records the receipt.
abbrev vast : Settlement
vast = result (record (service (codes "a")) { tokens = tokens_read (2 ^ 63) })

vast_paid :
    (vast.reason ≡ raised)
    × (balance_of "bob" "home" vast.ledger ≡ 130000)
    × (vast.ledger.receipts ≡ [])
unfolding program
vast_paid = (refl, refl, refl)

-- A cost that is no number passes the checks; the request is spent, and nothing is paid.
abbrev odd : Settlement
odd = result (record (service (codes "a")) { cost = some (costs not_a_number) })

odd_raises :
    (odd.reason ≡ raised)
    × (balance_of "alice" "home" odd.ledger ≡ 100000)
    × (odd.validator.seen ≡ ("r1", 100) ∷ [])
unfolding program
odd_raises = (refl, refl, refl)

infinitely_many : (result (record (service (codes "a")) { tokens = overflowing })).reason ≡ raised
unfolding program
infinitely_many = refl

named : (first_time.receipt.request_id == "") ≡ false
named = refl

in_window : All (λ b. b.now - first_time.now < request_id_ttl) (second_time ∷ [])
in_window = (omega arith, tt)

settled_once_example :
    All
      (λ x. x.1 ≡ settled → x.0 ≢ "r1")
      (verdicts toy (second_time ∷ []) after_first.ledger after_first.validator)
settled_once_example =
    settled_once toy first_time empty_ledger new_validator after_first (second_time ∷ []) settles
      is_settled named in_window
