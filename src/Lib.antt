-- ===== src/Lib.antt =====
-- Verification of mycellm, a fleet of personal machines that serve language models to one another
-- (src/mycellm in the repository).
--
-- The program's parts and the files that model them:
--
-- - Privacy is src/mycellm/privacy.py, the scan of a prompt for secrets and its policy by trust level.
-- - Execution is src/mycellm/execution, the inference fabric.
--   Models is models.py, Policy is policy.py, Planner is planner.py and Coordinator is
--   coordinator.py (its fan-out in Coordinator/Gather, its streaming in Coordinator/Stream). A job
--   and its candidate targets go to the planner, which asks the egress policy about each candidate,
--   and the policy scans the job's text. The coordinator runs the plan.
--   Queue is queue.py, with the rows of its table in Queue/Row and the quality floors
--   in Queue/Tiers: jobs that wait for a device.
--   Scheduler is scheduler.py, which expires, starts and ends the jobs of the queue and pays stakes
--   back (who served a job in Scheduler/Attribution, what becomes of a task in Scheduler/Running, ticks
--   that interleave in Scheduler/Overlap).
-- - Api/Jobs is src/mycellm/api/jobs.py: its handlers put jobs with their stakes into the queue and
--   cancel them.
-- - Router is src/mycellm/router: Registry is registry.py, the peers and the models that they serve, Chain
--   is chain.py, which ranks the candidates for a request, Failover is router.py, which tries one after
--   another, and Health is health.py.
-- - Transport/Peers is src/mycellm/transport/peer_manager.py: which addresses are dialed, and how long.
-- - Resilience is resilience.py (Watchdog: the thread that ends a process whose event loop is stuck) and
--   memory_watch.py (MemoryWatch: what is given back under memory pressure), both in src/mycellm.
-- - Training is src/mycellm/training: Aggregate is aggregate.py, Round is round.py and Session is
--   session.py, rounds of federated averaging between a coordinator and its participants.
-- - Accounting is src/mycellm/accounting: Ledger is local_ledger.py, Receipts is receipts.py and
--   Tracker is tracker.py, which settles a receipt in the ledger after the validator's checks.
-- - Prelude has names and lemmas that all modules share. Prelude/Sort has Python's stable sort and `max`,
--   Prelude/Text the text that the program walks.
--
-- Each file of a component has the definitions, one for each function of the source, and the
-- modules below it have the proofs.
--
-- Numbers. Times, stakes, prices, speeds and temperatures, which the program keeps as floats, are
-- natural numbers of a small fixed unit that each file names; they are compared and added exactly.
-- A receipt may also have an infinite cost, one that is no number, or more tokens than a column holds.
-- Fuel. The selection loop of the planner takes as many passes as proposers are wanted, since each
-- pass but the last picks a target. The decimal of a number takes one pass for each digit, of
-- which there are at most as many as the number and one more.
-- Interleaving. Calls are atomic, but for ticks in Scheduler/Overlap, where any order of their steps is
-- a list of events.
--
-- Taken as parameters: the regular-expression engine (the spans that `finditer` finds), and what the
-- runner of units returns, raises or streams, with the order in which concurrent units finish;
-- the clock, fresh identifiers, the size that a model's name tells, CBOR, hexadecimal text,
-- Ed25519 and the hash of a public key; what a peer answers to a request, a ping or a dial; and the
-- arithmetic of tensors.
--
-- Not modelled: the hash table, federation and storage, which stand beside these parts;
-- the other handlers of the HTTP API, the command line, the model backends, QUIC and the event loop,
-- NAT traversal, the menu bar, storage engines and settings, and texts made for people, which are data.
pub mod Prelude
pub mod Accounting
pub mod Api
pub mod Execution
pub mod Privacy
pub mod Resilience
pub mod Router
pub mod Training
pub mod Transport
