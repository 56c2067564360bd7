-- ===== src/Execution/Scheduler/Refunds.antt =====
-- src/mycellm/execution/scheduler.py: refunds touch the ledger only, and what they pay.
use mycellm.Prelude.{◌≡◌, refl, String, some, true, List, [], ◌∷◌}
use mycellm.Execution.Queue.Row.{QueuedJob}
use mycellm.Execution.Queue.{get}
use mycellm.Accounting.Ledger.{Ledger, credit_account}
use mycellm.Execution.Scheduler.{
  Node, Scheduler, refund, refund_all, refundable, pay_back, refund_memo,
}

module _ (node : Node) (why : String) where
  pub refund_all_frame :
      (tx : String → String) (ids : List String) (s : Scheduler)
      → refund_all node why tx ids s ≡ record s { ledger = (refund_all node why tx ids s).ledger }
  unfolding refund_all
  refund_all_frame tx [] s = refl
  refund_all_frame tx (id ∷ ids) s =
      unfold refund in refund_all_frame tx ids (refund node why (tx id) id s)

  -- Where there is something to pay back, the ledger takes one credit of the stake.
  pub refund-credit :
      (tx id : String) (s : Scheduler) (l : Ledger) (job : QueuedJob)
      → s.ledger ≡ some l
      → get id s.rows ≡ some job
      → refundable job ≡ true
      → (refund node why tx id s).ledger
        ≡ some (credit_account job.owner_id "" job.stake (refund_memo node why tx) l)
  unfolding refund pay_back
  refund-credit tx id s l job el eg er = rw (el, eg, er) refl
