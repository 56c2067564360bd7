-- ===== src/Router/Chain/Tests.antt =====
-- A run of the ranking of src/mycellm/router/chain.py, and its theorem at this input.
use mathlib.Core.List.{Perm}
use mycellm.Prelude.{◌≡◌, refl, none, [], ◌∷◌, map, filter, negb}
use mycellm.Prelude.Sort.{IsSortedBy, sort_by}
use mycellm.Router.Registry.{peers_for_model}
use mycellm.Router.Chain.{PeerTarget, route}
use mycellm.Router.Chain.Ranking.{outranks, at_limit, route-IsSortedBy}
use mycellm.Router.Samples.{two_peers}

faster_first :
    map (λ (t : PeerTarget). t.peer_id) (route none "qwen" [] two_peers) ≡ "p2" ∷ "p1" ∷ []
unfolding route two_peers sort_by peers_for_model
faster_first = refl

route-IsSortedBy_example :
    IsSortedBy (outranks none) (map (λ t. t.entry) (route none "qwen" [] two_peers))
    × Perm
        (map (λ t. t.entry) (route none "qwen" [] two_peers))
        (filter (λ e. negb (at_limit e.connection)) (peers_for_model "qwen" [] two_peers))
route-IsSortedBy_example = route-IsSortedBy none "qwen" [] two_peers
