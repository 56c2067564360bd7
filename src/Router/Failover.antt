-- ===== src/Router/Failover.antt =====
-- src/mycellm/router/router.py: a request is tried at one candidate after another.
-- What a peer answers is an argument; a loop asks each peer at most once, so it is a function of the
-- peer's identifier.
mod Attempts
mod Tests
use mycellm.Prelude.{
  ℕ, suc, ◌+◌, ◌-◌, String, Option, none, some, Bool, true, false, List, [], ◌∷◌, ◌++◌, map, leb,
  ◌==◌, if◌then◌else◌,
}
use mycellm.Router.Registry.{PeerEntry, Registry, is_peer}
use mycellm.Router.Chain.{PeerTarget, route}

-- src/mycellm/protocol/errors.py
pub data ErrorCode : Type 0 where
  auth_failed cert_expired cert_revoked peer_unreachable model_unavailable overloaded timeout
        backend_error insufficient_credit protocol_version_mismatch invalid_message fleet_key_denied
        unknown :
      ErrorCode

-- `ErrorCode(value)`, `none` where it raises.
unfoldable pub error_code : String → Option ErrorCode
error_code s =
    if s == "auth_failed"
    then some auth_failed
    else if s == "cert_expired"
    then some cert_expired
    else if s == "cert_revoked"
    then some cert_revoked
    else if s == "peer_unreachable"
    then some peer_unreachable
    else if s == "model_unavailable"
    then some model_unavailable
    else if s == "overloaded"
    then some overloaded
    else if s == "timeout"
    then some timeout
    else if s == "backend_error"
    then some backend_error
    else if s == "insufficient_credit"
    then some insufficient_credit
    else if s == "protocol_version_mismatch"
    then some protocol_version_mismatch
    else if s == "invalid_message"
    then some invalid_message
    else if s == "fleet_key_denied"
    then some fleet_key_denied
    else if s == "unknown"
    then some unknown
    else none

-- What asking a peer brings: an envelope of another type, one of type ERROR, or an exception.
pub data Reply : Type 0 where
  response : String → Reply
  error : String → String → Reply
  timed_out : Reply
  raised : String → Reply

-- The texts of an error, as the data that they show.
pub data Detail : Type 0 where
  detail : String → Detail
  no_peers all_unreachable : Detail
  timeout_at invalid_code : String → Detail

pub record ProtocolError : Type 0 where
  pub code : ErrorCode
  pub text : Detail

-- What a reply does: it ends the loop, or adds to the peer's failures and may be the last error.
pub data Judged : Type 0 where
  accepted : String → Judged
  refused : ℕ → Option ProtocolError → Judged

-- An error code that is not known raises once the failure is counted, and is counted again.
unfoldable pub judge_code : String → String → Option ErrorCode → Judged
judge_code code message none =
    refused 2 (some (record { code = backend_error; text = invalid_code code }))
judge_code code message (some c) = refused 1 (some (record { code = c; text = detail message }))

unfoldable pub judge : String → Reply → Judged
unfolding judge_code error_code
judge id (response r) = accepted r
judge id (error code message) =
    if code == "overloaded"
    then refused 0 none
    else if code == ""
    then refused 1 (some (record { code = unknown; text = detail message }))
    else judge_code code message (error_code code)
judge id timed_out = refused 1 (some (record { code = timeout; text = timeout_at id }))
judge id (raised e) = refused 1 (some (record { code = backend_error; text = detail e }))

unfoldable pub latest : Option ProtocolError → Option ProtocolError → Option ProtocolError
latest none last = last
latest (some e) last = some e

unfoldable pub change_failures : String → (ℕ → ℕ) → Registry → Registry
change_failures id f r = record r {
  peers =
      map (λ e. if is_peer id e then record e { failure_count = f e.failure_count } else e) r.peers;
}

pub data Outcome : Type 0 where
  answered : String → Outcome
  failed : ProtocolError → Outcome

-- The outcome, the registry with its counts of failures, and the peers that were asked.
pub record Run : Type 0 where
  pub outcome : Outcome
  pub registry : Registry
  pub asked : List String

abbrev pub max_retry_attempts : ℕ
max_retry_attempts = 3

unfoldable pub give_up : Option ProtocolError → Outcome
give_up none = failed (record { code = peer_unreachable; text = all_unreachable })
give_up (some e) = failed e

unfoldable pub is_connected : PeerTarget → Bool
is_connected t = elim t.entry.connection [ none ↦ false | some c ↦ true ]

-- An answer ends the loop; `next` goes on after a refusal.
unfoldable pub proceed :
    Judged → String → Registry → List String → (ℕ → Option ProtocolError → Run) → Run
unfolding change_failures
proceed (accepted x) id r asked next = record {
  outcome = answered x;
  registry = change_failures id (λ n. n - 1) r;
  asked = asked ++ id ∷ [];
}
proceed (refused n e) id r asked next = next n e

-- `attempts` and `last_error` of the loop with what it has done.
unfoldable pub try_targets :
    (String → Reply) → List PeerTarget → ℕ → Option ProtocolError → Registry → List String → Run
unfolding give_up is_connected judge latest change_failures proceed
try_targets ask [] attempts last r asked = record {
  outcome = give_up last;
  registry = r;
  asked = asked;
}
try_targets ask (t ∷ ts) attempts last r asked =
    let skip = try_targets ask ts attempts last r asked in
    let next : ℕ → Option ProtocolError → Run = λ n e.
      try_targets ask ts (suc attempts) (latest e last) (change_failures t.peer_id (λ m. m + n) r)
        (asked ++ t.peer_id ∷ []) in
    if leb max_retry_attempts attempts
    then record { outcome = give_up last; registry = r; asked = asked }
    else if is_connected t
    then proceed (judge t.peer_id (ask t.peer_id)) t.peer_id r asked next
    else skip

unfoldable pub route_targets : (String → Reply) → List PeerTarget → Registry → Run
unfolding try_targets
route_targets ask [] r = record {
  outcome = failed (record { code = model_unavailable; text = no_peers });
  registry = r;
  asked = [];
}
route_targets ask (t ∷ ts) r = try_targets ask (t ∷ ts) 0 none r []

-- The router has no health checker and asks for no isolation.
unfoldable pub route_inference : (String → Reply) → String → Registry → Run
unfolding route_targets route
route_inference ask model r = route_targets ask (route none model [] r) r
