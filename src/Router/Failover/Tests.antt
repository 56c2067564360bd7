-- ===== src/Router/Failover/Tests.antt =====
-- Runs of the failover of src/mycellm/router/router.py, and its theorem at these inputs.
use mycellm.Prelude.{◌≤◌, ◌≡◌, refl, String, none, [], ◌∷◌, map, length, ◌==◌, if◌then◌else◌}
use mycellm.Prelude.Sort.{sort_by}
use mycellm.Router.Registry.{PeerEntry, peers_for_model}
use mycellm.Router.Chain.{route}
use mycellm.Router.Failover.{Reply, response, error, answered, route_inference}
use mycellm.Router.Failover.Attempts.{
  replies, answer_of, fault_of, first_of, last_of, ends, route_inference_lem,
}
use mycellm.Router.Samples.{two_peers}

program : Unit {0}
unfolding route_inference route two_peers sort_by peers_for_model
program = tt

-- The faster peer is overloaded, and the other one answers.
abbrev busy : String → Reply
busy id = if id == "p2" then error "overloaded" "" else response "hello"

second_answers : (route_inference busy "qwen" two_peers).outcome ≡ answered "hello"
unfolding program
second_answers = refl

both_asked : (route_inference busy "qwen" two_peers).asked ≡ "p2" ∷ "p1" ∷ []
unfolding program
both_asked = refl

-- An error whose code is not known counts as two failures.
abbrev odd : String → Reply
odd id = error "teapot" ""

counted_twice :
    map (λ (e : PeerEntry). e.failure_count) ((route_inference odd "qwen" two_peers).registry).peers
    ≡ 2 ∷ 2 ∷ []
unfolding program
counted_twice = refl

route_inference_lem_example :
    ((route_inference busy "qwen" two_peers).outcome
      ≡ ends
          (first_of answer_of (replies busy 3 (route none "qwen" [] two_peers)))
          (last_of fault_of (replies busy 3 (route none "qwen" [] two_peers))))
    × (length (route_inference busy "qwen" two_peers).asked ≤ 3)
route_inference_lem_example = route_inference_lem busy "qwen" two_peers (unfold program in refl)
