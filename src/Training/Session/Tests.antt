-- ===== src/Training/Session/Tests.antt =====
-- Rounds of training of src/mycellm/training with numbers for tensors, and the theorems at these inputs.
use mycellm.Prelude.{
  ℕ, ◌+◌, ◌*◌, ◌/◌, ◌≤◌, ◌<◌, ◌≡◌, refl, String, Option, none, some, List, [], ◌∷◌, map, filter,
  length, ◌==◌, if◌then◌else◌,
}
use mycellm.Training.Aggregate.{
  Numerics, Adapter, ParticipantUpdate, ok, raised, no_quorum, federated_average,
}
use mycellm.Training.Aggregate.Totality.{Gives, federated_average_total}
use mycellm.Training.Round.{RoundConfig, aggregate, has_quorum}
use mycellm.Training.Session.{
  Reply, no_reply, update_reply, RoundOutcome, run_round, tally, collect_update,
}
use mycellm.Training.Session.Contributions.{contributes, run_round_lem}

program : Unit {0}
unfolding run_round federated_average aggregate has_quorum tally collect_update
program = tt

abbrev numbers : Numerics
numbers = record {
  Tensor = ℕ;
  shape = λ t. [];
  zeros_like = λ t. 0;
  plus = λ a b. a + b;
  times = λ n t. n * t;
  over = λ t n. t / n;
  times_rate = λ r t. r * t / 1000;
  scale = λ p q t. t * p / q;
  l2_norm = λ a. 0;
}

abbrev base : Adapter numbers
base = ("a", 10) ∷ ("b", 20) ∷ []

abbrev update : String → ℕ → ℕ → ParticipantUpdate numbers
update peer change n = record {
  peer_id = peer;
  delta = ("b", change) ∷ ("a", 0) ∷ [];
  num_samples = n;
}

-- Three samples that raise `b` by 8 and one that leaves it raise it by 6.
weighted :
    federated_average numbers base (update "p1" 8 3 ∷ update "p2" 0 1 ∷ []) 1000
    ≡ ok (("a", 10) ∷ ("b", 26) ∷ [])
unfolding program
weighted = refl

federated_average_total_example :
    Gives
      (λ (items : Adapter numbers). map (λ i. i.0) items ≡ "a" ∷ "b" ∷ [])
      (federated_average numbers base (update "p1" 8 3 ∷ update "p2" 0 1 ∷ []) 1000)
federated_average_total_example =
    federated_average_total numbers base (update "p1" 8 3 ∷ update "p2" 0 1 ∷ []) 1000

abbrev config : ℕ → RoundConfig
config least = record {
  job_id = "job";
  round_index = 1;
  min_participants = least;
  deadline_s = 300;
  max_delta_norm = 0;
  server_lr = 1000;
}

-- The second peer answers in the name of the first, and the third does not answer.
abbrev replies : String → Reply numbers
replies p = if p == "p3" then no_reply else update_reply (some (update "p1" 8 3))

abbrev team : List String
team = "p1" ∷ "p2" ∷ "p3" ∷ []

abbrev reached : String → Option String
reached p = none

impostor_refused : run_round numbers (config 2) base 0 replies reached team ≡ raised (no_quorum 1 2)
unfolding program
impostor_refused = refl

run_round_lem_example :
    Gives
      (λ (o : RoundOutcome numbers).
        (o.result.contributors ≡ filter (contributes numbers base replies) team)
        × (1 ≤ length (filter (contributes numbers base replies) team)))
      (run_round numbers (config 1) base 0 replies reached team)
    × (length (filter (contributes numbers base replies) team) < 1
        → (n : ℕ) × (run_round numbers (config 1) base 0 replies reached team
            ≡ raised (no_quorum n 1)))
run_round_lem_example =
    run_round_lem numbers base replies (config 1) 0 reached team
      ((refl, (refl, tt)), ((refl, tt), (tt, tt)))
