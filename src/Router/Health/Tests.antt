-- ===== src/Router/Health/Tests.antt =====
-- Runs of the checks of src/mycellm/router/health.py, and their theorem at these inputs.
use mycellm.Prelude.{◌≡◌, refl, List, [], ◌∷◌, arith}
use mycellm.Router.Registry.{PeerEntry, routable, disconnected, new_entry}
use mycellm.Router.Health.{Ping, pong, missed, broke, new_metrics}
use mycellm.Router.Health.Threshold.{misses, IsTracked, check_peer_all, check_peer_all-IsTracked}

abbrev seen : PeerEntry
seen = new_entry "p1" 0

abbrev three_misses : List Ping
three_misses = pong 20 ∷ missed ∷ broke ∷ missed ∷ []

gone : ((check_peer_all three_misses new_metrics seen).1).state ≡ disconnected
unfolding check_peer_all new_entry
gone = refl

back :
    ((check_peer_all (missed ∷ broke ∷ missed ∷ pong 30 ∷ []) new_metrics seen).1).state ≡ routable
unfolding check_peer_all new_entry
back = refl

check_peer_all-IsTracked_example :
    let (m', e') = check_peer_all three_misses new_metrics seen in
    IsTracked m' e' × (m'.consecutive_failures ≡ misses 0 three_misses)
unfolding new_entry
check_peer_all-IsTracked_example =
    check_peer_all-IsTracked three_misses new_metrics seen
      (record { samples = omega arith; history = omega arith; gone = refl })
