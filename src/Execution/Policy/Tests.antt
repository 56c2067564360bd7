-- ===== src/Execution/Policy/Tests.antt =====
-- Runs of the gate of src/mycellm/execution/policy.py, and its theorems at these inputs.
use mycellm.Prelude.{◌≡◌, refl, true, false}
use mycellm.Privacy.{scan_sensitive, scan_with_policy, trusted, untrusted}
use mycellm.Execution.Policy.{
  decide, new_policy, blocked_everywhere, below_ceiling, local_execution,
}
use mycellm.Execution.Policy.Safety.{
  Watches, may_pass, meets_ceiling, shares_network, decide-allowed,
}
use mycellm.Execution.Policy.Samples.{key_finder, secret, laptop, home_peer, public_peer, guarded}

program : Unit {0}
unfolding decide blocked_everywhere new_policy scan_with_policy scan_sensitive may_pass
    meets_ceiling shares_network
program = tt

guarded-Watches : Watches key_finder secret guarded
unfolding new_policy
guarded-Watches = record { scan = refl; consistent = λ t r h. cc }

decide_runs :
    ((decide guarded laptop).0.reason ≡ local_execution)
    × ((decide guarded public_peer).0.reason ≡ below_ceiling trusted untrusted)
    × ((decide guarded home_peer).0.allowed ≡ true)
unfolding program
decide_runs = (refl, refl, refl)

may_pass_runs : may_pass guarded (scan_sensitive key_finder secret) public_peer ≡ false
unfolding program
may_pass_runs = refl

decide-allowed_example :
    (decide guarded home_peer).0.allowed
    ≡ may_pass guarded (scan_sensitive key_finder secret) home_peer
decide-allowed_example = decide-allowed key_finder secret guarded home_peer guarded-Watches
