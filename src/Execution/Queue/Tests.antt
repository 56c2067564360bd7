-- ===== src/Execution/Queue/Tests.antt =====
-- Runs of the queue of src/mycellm/execution/queue.py, and its theorems at these inputs.
use mycellm.Prelude.{
  ◌&&◌, negb, none, is_nil, ℕ, ◌+◌, ◌*◌, ◌≤◌, ◌<◌, ◌≡◌, refl, String, true, false, some, [], ◌∷◌,
  map, length, All, arith,
}
use mycellm.Prelude.Sort.{IsSortedBy}
use mycellm.Execution.Queue.Row.{
  done, queued, interrupted_retry, no_failure, QueuedJob, Rows, Submission, new_job, own_class,
  sorts_before, terminal,
}
use mycellm.Execution.Queue.{
  op_claim, op_cancel, op_finish, op_expire, Ending, apply, apply_all, get, claim, requeue, pending,
  position, expire_due, expire_row, is_due,
}
use mycellm.Execution.Queue.Validity.{Valid, Allowed, apply-Valid}
use mycellm.Execution.Queue.Stages.{Evolves, SameJob, is_finish, apply-Evolves}
use mycellm.Execution.Queue.History.{apply_all_keeps_jobs}
use mycellm.Execution.Queue.Order.{is_ours, pending_owner_first}
use mycellm.Execution.Policy.Samples.{fleet, laptop}
use mycellm.Execution.Queue.Tiers.{filter_targets}
use mycellm.Execution.Queue.Roundtrip.{claim_twice, forget, requeue-claim}

program : Unit {0}
unfolding apply apply_all get claim requeue pending position expire_due is_due sorts_before
    own_class terminal is_finish new_job
program = tt

abbrev wish : String → ℕ → ℕ → Submission
wish owner stake ttl = record {
  messages = [];
  owner_id = owner;
  model = "";
  min_tier = "";
  trust = "";
  temperature = 70;
  max_tokens = 256;
  token_budget = 0;
  fanout = 0;
  stake = stake;
  ttl_s = ttl;
}

-- A stranger's job with a high stake, then one of the owner's.
abbrev table : Rows
table = new_job "me" "q1" 100 (wish "stranger" 50 60) ∷ new_job "me" "q2" 200 (wish "" 0 0) ∷ []

abbrev first_job : QueuedJob
first_job = new_job "me" "q1" 100 (wish "stranger" 50 60)

abbrev won : Ending
won = record {
  state = done;
  text = [];
  error = no_failure;
  served_by = [];
  served_model = "qwen";
  meta = [];
}

table-Valid : Valid table
unfolding program
table-Valid = (
  ((refl, tt), (tt, tt)),
  (((λ h. absurd (cc)), λ h. refl), (((λ h. absurd (cc)), λ h. refl), tt)),
)

owner_leads : position "me" 300 "q2" table ≡ 1
unfolding program
owner_leads = refl

-- A result that arrives after the cancellation is written over it.
finished_after_cancel :
    map
      (λ r. r.state)
      (apply_all (op_claim "q2" 300 ∷ op_cancel "q2" 310 ∷ op_finish "q2" 320 won ∷ []) table)
    ≡ queued ∷ done ∷ []
unfolding program
finished_after_cancel = refl

apply-Valid_example : Valid (apply (op_claim "q2" 300) table)
apply-Valid_example = apply-Valid (op_claim "q2" 300) table tt table-Valid

found : get "q1" table ≡ some first_job
unfolding program
found = refl

not_finish : is_finish (op_expire 300) ≡ false
unfolding program
not_finish = refl

apply-Evolves_example :
    (s : QueuedJob) × (get "q1" (apply (op_expire 300) table) ≡ some s) × Evolves first_job s
apply-Evolves_example =
    apply-Evolves (op_expire 300) table not_finish table-Valid "q1" first_job found

abbrev expired_table : Rows
expired_table = apply (op_expire 300) table

expired_job : QueuedJob
expired_job = expire_row 300 first_job

expired_found : get "q1" expired_table ≡ some expired_job
unfolding program expired_job
expired_found = refl

final : terminal expired_job.state ≡ true
unfolding program expired_job
final = refl

only_others : All (λ o. is_finish o ≡ false) (op_cancel "q1" 310 ∷ op_claim "q1" 320 ∷ [])
unfolding program
only_others = (refl, (refl, tt))

allowed : All Allowed (op_claim "q1" 110 ∷ op_finish "q1" 120 won ∷ [])
unfolding program
allowed = (tt, (refl, tt))

apply_all_keeps_jobs_example :
    (s : QueuedJob) × (get "q1" (apply_all (op_claim "q1" 110 ∷ op_finish "q1" 120 won ∷ []) table)
      ≡ some s)
    × SameJob first_job s
apply_all_keeps_jobs_example =
    apply_all_keeps_jobs (op_claim "q1" 110 ∷ op_finish "q1" 120 won ∷ []) table allowed table-Valid
      "q1" first_job found

pending_owner_first_example :
    IsSortedBy (λ x y. is_ours "me" x && negb (is_ours "me" y)) (pending "me" 300 200 table)
pending_owner_first_example = pending_owner_first "me" 300 200 table

abbrev poor : QueuedJob
poor = new_job "me" "q3" 100 (wish "" 0 0)

abbrev rich : QueuedJob
rich = new_job "me" "q4" 4000 (wish "" 10 0)

poor_waited : 100 ≤ 4000
poor_waited = omega arith

submitted : 4000 ≤ 5000
submitted = omega arith

later : 5000 ≤ 9000
later = omega arith

poor_submitted : 100 ≤ 5000
poor_submitted = omega arith

one_class : own_class "me" poor ≡ own_class "me" rich
unfolding program
one_class = refl

enough : 360 * 10 + 100 < 360 * 0 + 4000
enough = omega arith

claim_twice_example : (claim "q2" 310 (claim "q2" 300 table).0).1 ≡ false
claim_twice_example = claim_twice "q2" 300 310 table

claimed : (claim "q2" 300 table).1 ≡ true
unfolding program
claimed = refl

requeue-claim_example :
    map forget (requeue "q2" 310 interrupted_retry (claim "q2" 300 table).0) ≡ map forget table
requeue-claim_example = requeue-claim "q2" 300 310 interrupted_retry table table-Valid claimed

-- Only the large model of the home peer meets the floor.
kept_by_floor : length (filter_targets (λ m. none) fleet "capable") ≡ 1
unfolding program filter_targets
kept_by_floor = refl

among : is_nil fleet ≡ true → is_nil (laptop ∷ []) ≡ true
among h = absurd (cc)
