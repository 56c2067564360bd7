-- ===== src/Training/Session.antt =====
-- src/mycellm/training/session.py: a round with its participants.
-- What a participant answers, and whether a result reaches it, are arguments; answers are taken in
-- the order of the participants, as `gather` gives them. The stream that a message uses is left out.
mod Contributions
mod Fitting
mod Tests
use mycellm.Prelude.{
  ℕ, suc, ◌+◌, String, Option, none, some, Bool, true, false, ◌&&◌, ◌||◌, List, [], ◌∷◌, ◌++◌, map,
  filter, any, ltb, negb, ◌==◌, if◌then◌else◌,
}
use mycellm.Training.Aggregate.{
  Numerics, Adapter, ParticipantUpdate, AggregationError, no_quorum, Result, ok, raised, key_error,
  validate_update, andthen,
}
use mycellm.Training.Round.{
  RoundConfig, RoundResult, TrainingRound, submit_update, has_quorum, aggregate,
}

-- The reply of a participant: `update_reply none` is an update that does not parse.
pub data Reply (np : Numerics) : Type 0 where
  no_reply other_reply : Reply np
  announce_broke error_reply : String → Reply np
  update_reply : Option (ParticipantUpdate np) → Reply np

-- Why a participant contributed nothing, as the data that the texts show.
pub data Failure : Type 0 where
  late unexpected malformed look_up carried_no_samples : Failure
  announce_failed peer_error claims_peer not_delivered : String → Failure
  incompatible : AggregationError → Failure

pub data Collected (np : Numerics) : Type 0 where
  got : ParticipantUpdate np → Collected np
  dropped_for : Failure → Collected np

abbrev pub Failures : Type 0
Failures = List (String × Failure)

-- `failures.setdefault(peer_id, reason)`
unfoldable pub note_failure : String → Failure → Failures → Failures
note_failure peer f fs = if any (λ i. i.0 == peer) fs then fs else fs ++ (peer, f) ∷ []

module _ (np : Numerics) where
  -- Validation never fails to find a tensor; that branch is not reached.
  unfoldable pub validated : ParticipantUpdate np → Result (Unit {0}) → Collected np
  validated u (ok _) = got u
  validated u (raised e) = dropped_for (incompatible e)
  validated u key_error = dropped_for look_up

  unfoldable pub collect_update : Adapter np → String → Reply np → Collected np
  unfolding validated validate_update
  collect_update base peer no_reply = dropped_for late
  collect_update base peer other_reply = dropped_for unexpected
  collect_update base peer (announce_broke e) = dropped_for (announce_failed e)
  collect_update base peer (error_reply e) = dropped_for (peer_error e)
  collect_update base peer (update_reply none) = dropped_for malformed
  collect_update base peer (update_reply (some u)) =
      if negb (u.peer_id == peer)
      then dropped_for (claims_peer u.peer_id)
      else validated u (validate_update np base u)

  -- The loop over what was collected.
  pub record Tally : Type 0 where
    pub round : TrainingRound np
    pub failures : Failures
    pub count : ℕ

  unfoldable pub tally_one : String → Collected np → Tally → Tally
  unfolding submit_update
  tally_one peer (got u) t = record t {
    round = submit_update np u t.round;
    count = if ltb 0 u.num_samples then suc t.count else t.count;
  }
  tally_one peer (dropped_for f) t = record t { failures = t.failures ++ (peer, f) ∷ [] }

  unfoldable pub tally : Adapter np → (String → Reply np) → List String → Tally → Tally
  unfolding tally_one collect_update
  tally base answer [] t = t
  tally base answer (p ∷ ps) t =
      tally base answer ps (tally_one p (collect_update base p (answer p)) t)

  unfoldable pub note_dropped : List String → Failures → Failures
  unfolding note_failure
  note_dropped [] fs = fs
  note_dropped (p ∷ ps) fs = note_dropped ps (note_failure p carried_no_samples fs)

  -- `none` is a delivery, and the text is the exception of one that failed.
  unfoldable pub publish_result :
      (String → Option String) → List String → Failures → Failures × List String
  unfolding note_failure
  publish_result deliver [] fs = (fs, [])
  publish_result deliver (p ∷ ps) fs = elim (deliver p) [
    | none ↦ let (fs', notified) = publish_result deliver ps fs in (fs', p ∷ notified)
    | some e ↦ publish_result deliver ps (note_failure p (not_delivered e) fs)
  ]

  pub record RoundOutcome : Type 0 where
    pub result : RoundResult np
    pub failures : Failures
    pub notified : List String

  unfoldable pub run_round :
      RoundConfig
      → Adapter np
      → ℕ
      → (String → Reply np)
      → (String → Option String)
      → List String
      → Result RoundOutcome
  unfolding tally has_quorum aggregate note_dropped publish_result
  run_round config base now answer deliver participants =
      let t = tally base answer participants (record {
        round = record { config = config; base = base; updates = []; started_at = now };
        failures = [];
        count = 0;
      }) in
      if negb (has_quorum np t.round)
      then raised (no_quorum t.count config.min_participants)
      else andthen np (aggregate np t.round) (λ result.
        let (failures, notified) =
          publish_result deliver participants (note_dropped result.dropped t.failures) in
        ok (record { result = result; failures = failures; notified = notified }))

  -- A participant: its results by job, newest first.
  abbrev pub Results : Type 0
  Results = List (String × RoundResult np)

  -- A message with a result: `none` where it does not parse, and the fingerprint, empty if there is
  -- none. The hash of an adapter is an argument.
  unfoldable pub handle_result :
      (Adapter np → String) → Option (RoundResult np) → String → Results → Results
  handle_result fingerprint none announced rs = rs
  handle_result fingerprint (some r) announced rs =
      if negb (announced == "") && negb (announced == fingerprint r.adapter)
      then rs
      else (r.job_id, r) ∷ filter (λ i. negb (i.0 == r.job_id)) rs
