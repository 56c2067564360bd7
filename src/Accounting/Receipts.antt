-- ===== src/Accounting/Receipts.antt =====
-- src/mycellm/accounting/receipts.py: signatures of receipts, replay protection and the rate limit.
-- Times are seconds. CBOR, hexadecimal text, Ed25519 and the hash of a key are parameters.
use mycellm.Prelude.{
  ℕ, ◌-◌, String, Option, none, some, Bool, true, false, ◌&&◌, List, [], ◌∷◌, ◌++◌, filter, any,
  length, ltb, leb, ◌==◌, if◌then◌else◌,
}
use mycellm.Prelude.Text.{Text}

-- A float that is not below zero: it is infinite, or no number, or of that many credits.
pub data Amount : Type 0 where
  finite : ℕ → Amount
  infinite not_a_number : Amount

-- The fields that both parties sign.
pub record ReceiptData : Type 0 where
  pub consumer : String
  pub seeder : String
  pub model : String
  pub tokens : ℕ
  pub cost : Amount
  pub request_id : String
  pub ts : ℕ
  pub network_id : String

pub record Crypto : Type 0 where
  -- `bytes.fromhex`, `none` where it raises.
  pub from_hex : Text → Option Text
  -- `peer_id_from_bytes`
  pub peer_id_of : Text → String
  -- `cbor2.dumps` of the dict that the fields make.
  pub encode : ReceiptData → Text
  -- `verify` of the public key, `false` where it or the key's construction raises: key, signature, data.
  pub verifies : Text → Text → Text → Bool

-- `timestamp or time.time()`, the rest being the fields themselves.
unfoldable pub build_receipt_data : Crypto → ℕ → ReceiptData → Text
build_receipt_data c now d = c.encode (if ltb 0 d.ts then d else record d { ts = now })

unfoldable pub verify_receipt_signature : Crypto → Text → Text → Text → Bool
verify_receipt_signature c message signature_hex key = elim (c.from_hex signature_hex) [
  | none ↦ false
  | some s ↦ c.verifies key s message
]

unfoldable pub verify_cosigned_receipt : Crypto → Text → Text → Text → Text → Text → Bool
unfolding verify_receipt_signature
verify_cosigned_receipt c message seeder_signature seeder_key consumer_signature consumer_key =
    verify_receipt_signature c message seeder_signature seeder_key
    && verify_receipt_signature c message consumer_signature consumer_key

pub record Validator : Type 0 where
  pub seen : List (String × ℕ)
  pub rates : List (String × List ℕ)
  pub max_rate : ℕ

abbrev pub request_id_ttl : ℕ
request_id_ttl = 3600

unfoldable pub recent : ℕ → String × ℕ → Bool
recent now e = ltb (now - e.1) request_id_ttl

unfoldable pub seen_in : String → List (String × ℕ) → Bool
seen_in id l = any (λ e. e.0 == id) l

-- True if the identifier is new, or there is none.
unfoldable pub check_replay : String → ℕ → Validator → Validator × Bool
unfolding recent seen_in
check_replay id now v =
    let seen = filter (recent now) v.seen in
    if id == ""
    then (v, true)
    else if seen_in id seen
    then (record v { seen = seen }, false)
    else (record v { seen = seen ++ (id, now) ∷ [] }, true)

rates_of : String → List (String × List ℕ) → List ℕ
rates_of peer [] = []
rates_of peer (e ∷ es) = let rest = rates_of peer es in if e.0 == peer then e.1 else rest

set_rates : String → List ℕ → List (String × List ℕ) → List (String × List ℕ)
set_rates peer ts [] = (peer, ts) ∷ []
set_rates peer ts (e ∷ es) =
    let rest = set_rates peer ts es in if e.0 == peer then (peer, ts) ∷ es else e ∷ rest

unfoldable pub check_credit_rate : String → ℕ → Validator → Validator × Bool
unfolding rates_of set_rates
check_credit_rate peer now v =
    let kept = filter (λ t. ltb (now - t) 60) (rates_of peer v.rates) in
    if leb v.max_rate (length kept)
    then (record v { rates = set_rates peer kept v.rates }, false)
    else (record v { rates = set_rates peer (kept ++ now ∷ []) v.rates }, true)
