-- ===== src/Training/Session/Contributions.antt =====
-- src/mycellm/training/session.py: who contributes to a round.
use mycellm.Prelude.{
  ℕ, suc, ◌≤◌, ◌<◌, ◌≡◌, inl, inr, refl, sym, ap, ◌∙◌, String, Option, none, some, Bool, true,
  false, ◌&&◌, List, [], ◌∷◌, ◌++◌, append-nil, append_assoc, map, filter, length, is_nil, All,
  All-append, Bool-cases, ltb, leb, ◌==◌, eq_iff, arith, if◌then◌else◌,
}
use mycellm.Prelude.Text.{eq_flip}
use mycellm.Training.Aggregate.{
  Numerics, Adapter, ParticipantUpdate, Result, ok, raised, key_error, no_quorum, usable,
  validate_update, federated_average,
}
use mycellm.Training.Aggregate.Totality.{Gives, andthen-Gives, federated_average_total}
use mycellm.Training.Session.Fitting.{sends, is_ok, validate_update-fits_base}
use mycellm.Training.Round.{
  RoundConfig, RoundResult, TrainingRound, put_update, submit_update, has_quorum, prepare,
  aggregate,
}
use mycellm.Training.Session.{
  Reply, no_reply, other_reply, announce_broke, error_reply, update_reply, Collected, got,
  dropped_for, collect_update, validated, Tally, tally_one, tally, RoundOutcome, run_round,
}

-- No name stands twice.
abbrev pub Apart : List String → Type 0
Apart [] = Unit
Apart (p ∷ ps) = All (λ q. (q == p) ≡ false) ps × Apart ps

module _ (np : Numerics) (base : Adapter np) (answer : String → Reply np) where
  abbrev add_got : Collected np → List (ParticipantUpdate np) → List (ParticipantUpdate np)
  add_got (got u) us = u ∷ us
  add_got (dropped_for f) us = us

  -- The updates that are accepted, in the order of the participants.
  abbrev pub accepted : List String → List (ParticipantUpdate np)
  accepted [] = []
  accepted (p ∷ ps) = add_got (collect_update np base p (answer p)) (accepted ps)

  abbrev has_samples : Collected np → Bool
  has_samples (got u) = ltb 0 u.num_samples
  has_samples (dropped_for f) = false

  -- The participant's own answer is an update under its name, with samples, that fits the base.
  abbrev pub contributes : String → Bool
  contributes p = sends np base p (answer p)

  Collected-own : String → Collected np → Type 0
  Collected-own p (got u) = (u.peer_id == p) ≡ true
  Collected-own p (dropped_for f) = Unit

  validated_own :
      (p : String) (u : ParticipantUpdate np) (r : Result (Unit {0}))
      → (u.peer_id == p) ≡ true
      → Collected-own p (validated np u r)
  unfolding validated Collected-own
  validated_own p u (ok a) h = h
  validated_own p u (raised e) h = tt
  validated_own p u key_error h = tt

  -- An update is accepted from its own peer only.
  collect_update_own : (p : String) (r : Reply np) → Collected-own p (collect_update np base p r)
  unfolding collect_update Collected-own
  collect_update_own p no_reply = tt
  collect_update_own p other_reply = tt
  collect_update_own p (announce_broke e) = tt
  collect_update_own p (error_reply e) = tt
  collect_update_own p (update_reply none) = tt
  collect_update_own p (update_reply (some u)) = elim (Bool-cases (u.peer_id == p)) [
    | inl e ↦ rw e (validated_own p u (validate_update np base u) e)
    | inr e ↦ rw e tt
  ]

  collected_sends :
      (p : String) (r : Reply np) → has_samples (collect_update np base p r) ≡ sends np base p r
  unfolding collect_update validated
  collected_sends p no_reply = refl
  collected_sends p other_reply = refl
  collected_sends p (announce_broke e) = refl
  collected_sends p (error_reply e) = refl
  collected_sends p (update_reply none) = refl
  collected_sends p (update_reply (some u)) =
      let fits = validate_update-fits_base np base u in
      elim (Bool-cases (u.peer_id == p)) [
        | inr e ↦ rw e refl
        | inl e ↦ rw e (rw⁻¹ fits (of_result (validate_update np base u)))
      ]
    where
      of_result :
          (v : Result (Unit {0}))
          → has_samples (validated np u v) ≡ (ltb 0 u.num_samples && is_ok v)
      of_result (ok a) = ground arith
      of_result (raised e) = ground arith
      of_result key_error = ground arith

  put_update-fresh :
      (u : ParticipantUpdate np) (us : List (ParticipantUpdate np))
      → All (λ v. (v.peer_id == u.peer_id) ≡ false) us
      → put_update np u us ≡ us ++ u ∷ []
  unfolding put_update
  put_update-fresh u [] h = refl
  put_update-fresh u (v ∷ us) h = rw h.0 (ap (λ l. v ∷ l) (put_update-fresh u us h.1))

  -- The names of updates are not among those of participants to come.
  abbrev Fresh : List (ParticipantUpdate np) → List String → Type 0
  Fresh us ps = All (λ p. All (λ v. (v.peer_id == p) ≡ false) us) ps

  Fresh-snoc :
      (us : List (ParticipantUpdate np)) (u : ParticipantUpdate np) (ps : List String)
      → Fresh us ps
      → All (λ q. (q == u.peer_id) ≡ false) ps
      → Fresh (us ++ u ∷ []) ps
  Fresh-snoc us u [] f h = tt
  Fresh-snoc us u (p ∷ ps) f h = (
    All-append (λ v. (v.peer_id == p) ≡ false) us (u ∷ []) f.0 (eq_flip p u.peer_id h.0, tt),
    Fresh-snoc us u ps f.1 h.1,
  )

  -- What a tally leaves: the round with the accepted updates.
  abbrev Tallied : Tally np → List String → Tally np → Type 0
  Tallied t ps t' =
      (t'.round.updates ≡ t.round.updates ++ accepted ps)
      × (t'.round.config ≡ t.round.config)
      × (t'.round.base ≡ t.round.base)

  tally-Tallied :
      (ps : List String) (t : Tally np)
      → Apart ps
      → Fresh t.round.updates ps
      → Tallied t ps (tally np base answer ps t)
  unfolding tally tally_one submit_update
  tally-Tallied [] t a f = (sym (append-nil t.round.updates), refl, refl)
  tally-Tallied (p ∷ ps) t a f =
      step (collect_update np base p (answer p)) (collect_update_own p (answer p))
        (λ t' f'. tally-Tallied ps t' a.1 f')
    where
      step :
          (c : Collected np)
          → Collected-own p c
          → ((t' : Tally np)
              → Fresh t'.round.updates ps
              → Tallied t' ps (tally np base answer ps t'))
          → (((tally np base answer ps (tally_one np p c t)).round).updates
              ≡ t.round.updates ++ add_got c (accepted ps))
            × (((tally np base answer ps (tally_one np p c t)).round).config ≡ t.round.config)
            × (((tally np base answer ps (tally_one np p c t)).round).base ≡ t.round.base)
      step (dropped_for e) own rec = rec (tally_one np p (dropped_for e) t) f.1
      step (got u) own rec =
          let same : u.peer_id ≡ p = unfold Collected-own in (eq_iff u.peer_id p).0 own in
          let fresh = put_update-fresh u t.round.updates (rw same f.0) in
          let rest =
            rec (tally_one np p (got u) t)
              (rw fresh (Fresh-snoc t.round.updates u ps f.1 (rw same a.0))) in
          (rest.0 ∙ rw fresh (append_assoc t.round.updates (u ∷ []) (accepted ps)), rest.1, rest.2)

  ids-usable :
      (ps : List String) → map (λ u. u.peer_id) (usable np (accepted ps)) ≡ filter contributes ps
  ids-usable [] = refl
  ids-usable (p ∷ ps) =
      step (collect_update np base p (answer p)) (collect_update_own p (answer p)) (ids-usable ps)
      ∙ ap (λ b. if b then p ∷ filter contributes ps else filter contributes ps)
          (collected_sends p (answer p))
    where
      step :
          (c : Collected np)
          → Collected-own p c
          → map (λ u. u.peer_id) (usable np (accepted ps)) ≡ filter contributes ps
          → map (λ u. u.peer_id) (usable np (add_got c (accepted ps)))
            ≡ (if has_samples c then p ∷ filter contributes ps else filter contributes ps)
      step (dropped_for e) own rest = rest
      step (got u) own rest =
          let same : u.peer_id ≡ p = unfold Collected-own in (eq_iff u.peer_id p).0 own in
          elim (Bool-cases (ltb 0 u.num_samples)) [
            | inl e ↦ rw e (rw (same, rest) refl)
            | inr e ↦ rw e rest
          ]

  length-map_ids : (us : List (ParticipantUpdate np)) → length (map (λ u. u.peer_id) us) ≡ length us
  length-map_ids [] = refl
  length-map_ids (u ∷ us) = ap suc (length-map_ids us)

  ids-prepare :
      (c : RoundConfig) (us : List (ParticipantUpdate np))
      → map (λ u. u.peer_id) (map (prepare np c) us) ≡ map (λ u. u.peer_id) us
  unfolding prepare
  ids-prepare c [] = refl
  ids-prepare c (u ∷ us) = ap (λ l. u.peer_id ∷ l) (ids-prepare c us)

  aggregate-Gives :
      (r : TrainingRound np)
      → Gives
          (λ (x : RoundResult np). x.contributors ≡ map (λ u. u.peer_id) (usable np r.updates))
          (aggregate np r)
  unfolding aggregate
  aggregate-Gives r =
      let prepared = map (prepare np r.config) (usable np r.updates) in
      elim (Bool-cases (is_nil prepared)) [
        | inl e ↦ rw e tt
        | inr e ↦ rw e (
            andthen-Gives np (λ (items : Adapter np). map (λ i. i.0) items ≡ map (λ i. i.0) r.base)
              (λ (x : RoundResult np). x.contributors ≡ map (λ u. u.peer_id) (usable np r.updates))
              (federated_average np r.base prepared r.config.server_lr) _
              (federated_average_total np r.base prepared r.config.server_lr)
              (λ _ _. ids-prepare r.config (usable np r.updates)))
      ]

  -- Among participants of which no two have one name, those that contribute to the result are exactly
  -- those whose own answer was an update under their own name that fits the base and carries
  -- samples, in order; a result needs as many of them as the round asks for, fewer are an error
  -- of the quorum, and no look-up fails.
  pub run_round_lem :
      (config : RoundConfig) (now : ℕ) (deliver : String → Option String)
      (participants : List String)
      → Apart participants
      → let able = filter contributes participants in
        Gives
          (λ (o : RoundOutcome np).
            (o.result.contributors ≡ able) × (config.min_participants ≤ length able))
          (run_round np config base now answer deliver participants)
        × (length able < config.min_participants
            → (n : ℕ) × (run_round np config base now answer deliver participants
                ≡ raised (no_quorum n config.min_participants)))
  unfolding run_round has_quorum
  run_round_lem config now deliver participants apart =
      let t0 : Tally np = record {
        round = record { config = config; base = base; updates = []; started_at = now };
        failures = [];
        count = 0;
      } in
      let t = tally np base answer participants t0 in
      let done = tally-Tallied participants t0 apart (none_yet participants) in
      let ids : map (λ u. u.peer_id) (usable np t.round.updates) ≡ filter contributes participants =
        ap (λ us. map (λ u. u.peer_id) (usable np us)) done.0 ∙ ids-usable participants in
      let many : length (usable np t.round.updates) ≡ length (filter contributes participants) =
        sym (length-map_ids (usable np t.round.updates)) ∙ ap length ids in
      let least : t.round.config.min_participants ≡ config.min_participants =
        ap (λ (c : RoundConfig). c.min_participants) done.1 in
      elim (Bool-cases (leb t.round.config.min_participants (length (usable np t.round.updates)))) [
        | inr e ↦ rw e (tt, λ _. (t.count, refl))
        | inl e ↦ rw e (
          andthen-Gives np
              (λ (x : RoundResult np).
                x.contributors ≡ map (λ u. u.peer_id) (usable np t.round.updates))
              (λ (o : RoundOutcome np).
                (o.result.contributors ≡ filter contributes participants)
                × (config.min_participants ≤ length (filter contributes participants)))
              (aggregate np t.round) _ (aggregate-Gives t.round)
              (λ x h. (h ∙ ids, ground (arith, many, least))),
          λ few. absurd (ground (arith, many, least)),
        )
      ]
    where
      none_yet : (ps : List String) → Fresh [] ps
      none_yet [] = tt
      none_yet (p ∷ ps) = (tt, none_yet ps)
