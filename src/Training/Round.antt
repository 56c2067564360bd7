-- ===== src/Training/Round.antt =====
-- src/mycellm/training/round.py: the coordinator's side of one round.
-- The dict of updates is the list of its values in the order of insertion. The parameters of the local
-- trainers and the wire payloads are left out.
use mycellm.Prelude.{
  ℕ, ◌-◌, String, Bool, true, ◌&&◌, List, [], ◌∷◌, map, filter, length, is_nil, any, sum_of, ltb,
  leb, eqb, ◌==◌, if◌then◌else◌,
}
use mycellm.Training.Aggregate.{
  Numerics, Adapter, ParticipantUpdate, Result, ok, raised, no_usable, usable, andthen,
  federated_average, clip_delta,
}

pub record RoundConfig : Type 0 where
  pub job_id : String
  pub round_index : ℕ
  pub min_participants : ℕ
  pub deadline_s : ℕ
  pub max_delta_norm : ℕ
  pub server_lr : ℕ

pub record RoundResult (np : Numerics) : Type 0 where
  pub job_id : String
  pub round_index : ℕ
  pub adapter : Adapter np
  pub contributors : List String
  pub dropped : List String
  pub total_samples : ℕ

pub record TrainingRound (np : Numerics) : Type 0 where
  pub config : RoundConfig
  pub base : Adapter np
  pub updates : List (ParticipantUpdate np)
  pub started_at : ℕ

module _ (np : Numerics) where
  -- `_updates[update.peer_id] = update`
  unfoldable pub put_update :
      ParticipantUpdate np → List (ParticipantUpdate np) → List (ParticipantUpdate np)
  put_update u [] = u ∷ []
  put_update u (v ∷ us) =
      let rest = put_update u us in if v.peer_id == u.peer_id then u ∷ us else v ∷ rest

  unfoldable pub submit_update : ParticipantUpdate np → TrainingRound np → TrainingRound np
  unfolding put_update
  submit_update u r = record r { updates = put_update u r.updates }

  unfoldable pub has_quorum : TrainingRound np → Bool
  has_quorum r = leb r.config.min_participants (length (usable np r.updates))

  unfoldable pub is_expired : ℕ → TrainingRound np → Bool
  is_expired now r = leb r.config.deadline_s (now - r.started_at)

  unfoldable pub ready : ℕ → TrainingRound np → Bool
  unfolding has_quorum is_expired
  ready now r =
      if has_quorum r then true else is_expired now r && any (λ u. ltb 0 u.num_samples) r.updates

  -- An update with its delta clipped, where the round has a bound.
  unfoldable pub prepare : RoundConfig → ParticipantUpdate np → ParticipantUpdate np
  unfolding clip_delta
  prepare c u = record u {
    delta =
        if ltb 0 c.max_delta_norm && ltb c.max_delta_norm (np.l2_norm u.delta)
        then clip_delta np u.delta c.max_delta_norm
        else u.delta;
  }

  unfoldable pub aggregate : TrainingRound np → Result (RoundResult np)
  unfolding prepare federated_average
  aggregate r =
      let prepared = map (prepare r.config) (usable np r.updates) in
      if is_nil prepared
      then raised no_usable
      else andthen np (federated_average np r.base prepared r.config.server_lr) (λ adapter.
        ok (record {
          job_id = r.config.job_id;
          round_index = r.config.round_index;
          adapter = adapter;
          contributors = map (λ u. u.peer_id) prepared;
          dropped = map (λ u. u.peer_id) (filter (λ u. eqb u.num_samples 0) r.updates);
          total_samples = sum_of (λ u. u.num_samples) prepared;
        }))
