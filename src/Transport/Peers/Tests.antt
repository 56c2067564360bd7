-- ===== src/Transport/Peers/Tests.antt =====
-- Runs of the peer manager of src/mycellm/transport/peer_manager.py, and its theorems at these inputs.
use mycellm.Prelude.{◌≤◌, ◌≡◌, refl, true, false, List, [], ◌∷◌, length, All, min, ltb}
use mycellm.Transport.Peers.{
  PeerManager, new_peer, same_address, start_manager, add_peer, Dial, dial_failed, refused,
  welcomed, Beat, pong, missed, manage_peer,
}
use mycellm.Transport.Peers.Persistence.{delays, manage_peer_persists, manage_peer_gives_up}

program : Unit {0}
unfolding start_manager add_peer manage_peer new_peer same_address
program = tt

abbrev started : PeerManager
started = start_manager (("seed", 8421) ∷ []) (record { peers = []; running = false })

two_managed : length (add_peer "10.0.0.7" 8421 "" started).peers ≡ 2
unfolding program
two_managed = refl

-- Two addresses of one peer are both dialed, while the first has not said who it is.
both_addresses :
    length (add_peer "10.0.0.8" 8421 "p1" (add_peer "10.0.0.7" 8421 "p1" started)).peers ≡ 3
unfolding program
both_addresses = refl

-- A peer that is reached at its second dial, lost after three pings and never reached again.
abbrev course : List (Dial × List Beat)
course =
    (dial_failed, []) ∷ (welcomed "p1", pong ∷ missed ∷ missed ∷ missed ∷ []) ∷ (refused, []) ∷ []

waits_again : (manage_peer course (new_peer "10.0.0.7" 8421 false)).waits ≡ 5 ∷ 5 ∷ 10 ∷ []
unfolding program
waits_again = refl

manage_peer_persists_example :
    All (λ w. (5 ≤ w) × (w ≤ 60)) (manage_peer course (new_peer "seed" 8421 true)).waits
    × (true ≡ true → (manage_peer course (new_peer "seed" 8421 true)).gave_up ≡ false)
unfolding new_peer
manage_peer_persists_example = manage_peer_persists course (new_peer "seed" 8421 true)

abbrev never : List (Dial × List Beat)
never =
    (dial_failed, [])
    ∷ (refused, [])
    ∷ (dial_failed, [])
    ∷ (dial_failed, [])
    ∷ (dial_failed, [])
    ∷ (dial_failed, [])
    ∷ []

manage_peer_gives_up_example :
    manage_peer never (new_peer "10.0.0.7" 8421 false)
    ≡ record { waits = delays 0 (min 5 6); gave_up = ltb 5 6 }
manage_peer_gives_up_example =
    manage_peer_gives_up never "10.0.0.7" 8421 (refl, (refl, (refl, (refl, (refl, (refl, tt))))))
