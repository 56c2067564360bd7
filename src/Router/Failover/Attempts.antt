-- ===== src/Router/Failover/Attempts.antt =====
-- src/mycellm/router/router.py: the outcome of a request is that of the first candidates in order.
use mycellm.Prelude.{
  ℕ, zero, suc, ◌+◌, ◌≤◌, ◌≡◌, ◌⊎◌, inl, inr, refl, ap, ◌∙◌, String, Option, none, some, Bool, ◌==◌,
  if◌then◌else◌, true, false, List, [], ◌∷◌, ◌++◌, map, filter, take, length, length-append, is_nil,
  leb, Bool-cases, arith,
}
use mycellm.Router.Registry.{Registry}
use mycellm.Router.Chain.{PeerTarget, route}
use mycellm.Router.Failover.{
  ErrorCode, error_code, peer_unreachable, timeout, backend_error, unknown, Reply, response, error,
  timed_out, raised, detail, all_unreachable, timeout_at, invalid_code, judge_code, failed,
  ProtocolError, Judged, accepted, refused, judge, latest, change_failures, Outcome, answered, Run,
  max_retry_attempts, give_up, is_connected, proceed, try_targets, route_targets, route_inference,
}

Judged-cases :
    (j : Judged)
    → ((x : String) × (j ≡ accepted x)) ⊎ ((n : ℕ) × (e : Option ProtocolError) × (j ≡ refused n e))
Judged-cases (accepted x) = inl (x, refl)
Judged-cases (refused n e) = inr (n, e, refl)

-- The first answer, or else the last error, by the code's own judgement.
abbrev settle : Option ProtocolError → List Judged → Outcome
settle last [] = give_up last
settle last (accepted x ∷ js) = answered x
settle last (refused n e ∷ js) = settle (latest e last) js

abbrev judged : (String → Reply) → List PeerTarget → List Judged
judged ask ts = map (λ t. judge t.peer_id (ask t.peer_id)) ts

abbrev tried : ℕ → List PeerTarget → List PeerTarget
tried n ts = take n (filter is_connected ts)

abbrev pub has_connection : PeerTarget → Bool
has_connection t = elim t.entry.connection [ none ↦ false | some c ↦ true ]

-- The first candidates that have a connection, with what they reply.
abbrev pub replies : (String → Reply) → ℕ → List PeerTarget → List (String × Reply)
replies ask n ts = map (λ t. (t.peer_id, ask t.peer_id)) (take n (filter has_connection ts))

-- A reply that is no error is an answer.
abbrev pub answer_of : String × Reply → Option String
answer_of (id, response x) = some x
answer_of (id, error code message) = none
answer_of (id, timed_out) = none
answer_of (id, raised e) = none

-- The code that an error names, or a failure of the backend where it names none that is known.
abbrev pub coded : String → String → Option ErrorCode → ProtocolError
coded code message none = record { code = backend_error; text = invalid_code code }
coded code message (some c) = record { code = c; text = detail message }

-- The error that a reply leaves: an overloaded peer leaves none.
abbrev pub fault_of : String × Reply → Option ProtocolError
fault_of (id, response x) = none
fault_of (id, error code message) =
    if code == "overloaded"
    then none
    else some (
        if code == ""
        then record { code = unknown; text = detail message }
        else coded code message (error_code code))
fault_of (id, timed_out) = some (record { code = timeout; text = timeout_at id })
fault_of (id, raised e) = some (record { code = backend_error; text = detail e })

abbrev pub or_else {ℓ} : {A : Type ℓ} → Option A → Option A → Option A
or_else none y = y
or_else (some x) y = some x

abbrev pub first_of {ℓ κ} : {A : Type ℓ} {B : Type κ} → (A → Option B) → List A → Option B
first_of f [] = none
first_of f (x ∷ xs) = or_else (f x) (first_of f xs)

abbrev pub last_of {ℓ κ} : {A : Type ℓ} {B : Type κ} → (A → Option B) → List A → Option B
last_of f [] = none
last_of f (x ∷ xs) = or_else (last_of f xs) (f x)

-- An answer, or else an error, or else that all peers are unreachable.
abbrev pub ends : Option String → Option ProtocolError → Outcome
ends (some x) e = answered x
ends none (some e) = failed e
ends none none = failed (record { code = peer_unreachable; text = all_unreachable })

abbrev no_answer : Option String
no_answer = none

-- A judgement accepts the answer, or there is none and it refuses with the error.
abbrev Agrees : Judged → Option String → Option ProtocolError → Type 0
Agrees j answer fault =
    ((x : String) × (j ≡ accepted x) × (answer ≡ some x))
    ⊎ ((n : ℕ) × (j ≡ refused n fault) × (answer ≡ none))

judge_code-Agrees :
    (code message : String) (busy empty : Bool) (o : Option ErrorCode)
    → Agrees
        (if busy
          then refused 0 none
          else if empty
          then refused 1 (some (record { code = unknown; text = detail message }))
          else judge_code code message o)
        no_answer
        (if busy
          then none
          else some (
              if empty
              then record { code = unknown; text = detail message }
              else coded code message o))
unfolding judge_code
judge_code-Agrees code message true empty o = inr (0, refl, refl)
judge_code-Agrees code message false true o = inr (1, refl, refl)
judge_code-Agrees code message false false none = inr (2, refl, refl)
judge_code-Agrees code message false false (some c) = inr (1, refl, refl)

judge-Agrees :
    (id : String) (r : Reply) → Agrees (judge id r) (answer_of (id, r)) (fault_of (id, r))
judge-Agrees id (response x) = unfold judge in inl (x, refl, refl)
judge-Agrees id timed_out = unfold judge in inr (1, refl, refl)
judge-Agrees id (raised e) = unfold judge in inr (1, refl, refl)
judge-Agrees id (error code message) =
    unfold judge in
    judge_code-Agrees code message (code == "overloaded") (code == "") (error_code code)

or_else_assoc {ℓ} :
    {A : Type ℓ} (x y z : Option A) → or_else (or_else x y) z ≡ or_else x (or_else y z)
or_else_assoc none y z = refl
or_else_assoc (some x) y z = refl

latest-or_else : (e last : Option ProtocolError) → latest e last ≡ or_else e last
unfolding latest
latest-or_else none last = refl
latest-or_else (some e) last = refl

give_up-ends : (last : Option ProtocolError) → give_up last ≡ ends none last
unfolding give_up
give_up-ends none = refl
give_up-ends (some e) = refl

settle-ends :
    (ask : String → Reply) (ts : List PeerTarget) (last : Option ProtocolError)
    → settle last (judged ask ts)
      ≡ ends
          (first_of answer_of (map (λ t. (t.peer_id, ask t.peer_id)) ts))
          (or_else (last_of fault_of (map (λ t. (t.peer_id, ask t.peer_id)) ts)) last)
settle-ends ask [] last = give_up-ends last
settle-ends ask (t ∷ ts) last = elim (judge-Agrees t.peer_id (ask t.peer_id)) [
  | inl (x, j, a) ↦ rw (j, a) refl
  | inr (n, j, a) ↦
      rw
        (
          j,
          a,
          latest-or_else (fault_of (t.peer_id, ask t.peer_id)) last,
          or_else_assoc (last_of fault_of (map (λ u. (u.peer_id, ask u.peer_id)) ts))
              (fault_of (t.peer_id, ask t.peer_id)) last,
        )
        (settle-ends ask ts (or_else (fault_of (t.peer_id, ask t.peer_id)) last))
]

connected_lem : (ts : List PeerTarget) → filter is_connected ts ≡ filter has_connection ts
unfolding is_connected
connected_lem ts = refl

or_else-none {ℓ} : {A : Type ℓ} (x : Option A) → or_else x none ≡ x
or_else-none none = refl
or_else-none (some x) = refl

give_up_lem :
    (ask : String → Reply) (ts : List PeerTarget) (attempts : ℕ) (last : Option ProtocolError)
    (r : Registry) (asked : List String)
    → attempts ≡ 3
    → try_targets ask ts attempts last r asked
      ≡ record { outcome = give_up last; registry = r; asked = asked }
unfolding try_targets
give_up_lem ask [] attempts last r asked h = refl
give_up_lem ask (t ∷ ts) attempts last r asked h =
    let stops : leb max_retry_attempts attempts ≡ true = ground arith in rw stops refl

-- What the loop does with the attempts that are left.
abbrev Tries :
    List PeerTarget → (String → Reply) → ℕ → Option ProtocolError → List String → Run → Type 0
Tries ts ask n last asked run =
    (run.outcome ≡ settle last (judged ask (tried n ts))) × (length run.asked ≤ length asked + n)

try_targets-Tries :
    (ask : String → Reply) (ts : List PeerTarget) (n attempts : ℕ) (last : Option ProtocolError)
    (r : Registry) (asked : List String)
    → attempts + n ≡ 3
    → Tries ts ask n last asked (try_targets ask ts attempts last r asked)
unfolding try_targets
try_targets-Tries ask [] zero attempts last r asked h = (refl, omega arith)
try_targets-Tries ask [] (suc n) attempts last r asked h = (refl, omega arith)
try_targets-Tries ask (t ∷ ts) zero attempts last r asked h =
    rw (give_up_lem ask (t ∷ ts) attempts last r asked (omega arith)) (refl, omega arith)
try_targets-Tries ask (t ∷ ts) (suc n) attempts last r asked h =
    let goes : leb max_retry_attempts attempts ≡ false = ground arith in
    rw goes (elim (Bool-cases (is_connected t)) [
      | inr e ↦ rw e (try_targets-Tries ask ts (suc n) attempts last r asked h)
      | inl e ↦ rw e (elim (Judged-cases (judge t.peer_id (ask t.peer_id))) [
        | inl (x, j) ↦ rw (j, proceed) (refl, omega (arith, length-append asked (t.peer_id ∷ [])))
        | inr (k, err, j) ↦
            let rest =
              try_targets-Tries ask ts n (suc attempts) (latest err last)
                (change_failures t.peer_id (λ m. m + k) r) (asked ++ t.peer_id ∷ [])
                (omega arith) in
            rw (j, proceed) (rest.0, omega (arith, rest.1, length-append asked (t.peer_id ∷ [])))
      ])
    ])

-- Where there is a candidate, a request ends as the first three connected candidates do, in order: with
-- the first answer among them, or else with the last error, or as unreachable if there is none; and
-- at most three peers are asked.
pub route_inference_lem :
    (ask : String → Reply) (model : String) (r : Registry)
    → is_nil (route none model [] r) ≡ false
    → let heard = replies ask 3 (route none model [] r) in
      ((route_inference ask model r).outcome
        ≡ ends (first_of answer_of heard) (last_of fault_of heard))
      × (length (route_inference ask model r).asked ≤ 3)
unfolding route_inference
route_inference_lem ask model r h = start (route none model [] r) h
  where
    start :
        (ts : List PeerTarget)
        → is_nil ts ≡ false
        → ((route_targets ask ts r).outcome
            ≡ ends (first_of answer_of (replies ask 3 ts)) (last_of fault_of (replies ask 3 ts)))
          × (length (route_targets ask ts r).asked ≤ 3)
    start [] e = absurd (cc)
    start (t ∷ ts) e =
        let run : Tries (t ∷ ts) ask 3 none [] (route_targets ask (t ∷ ts) r) =
          unfold route_targets in try_targets-Tries ask (t ∷ ts) 3 0 none r [] refl in
        (
          run.0
              ∙ ap (λ us. settle none (judged ask (take 3 us))) (connected_lem (t ∷ ts))
              ∙ settle-ends ask (take 3 (filter has_connection (t ∷ ts))) none
              ∙ ap (ends (first_of answer_of (replies ask 3 (t ∷ ts))))
                  (or_else-none (last_of fault_of (replies ask 3 (t ∷ ts)))),
          run.1,
        )
