-- ===== src/Execution/Coordinator/Stream.antt =====
-- src/mycellm/execution/coordinator.py: `execute_stream`, which runs a plan and yields events.
-- What a streaming runner yields for a unit, and how it ends, is a parameter.
use mycellm.Prelude.{
  ℕ, ◌+◌, Option, none, some, List, [], ◌∷◌, ◌++◌, map, length, take, negb, filter, if◌then◌else◌,
}
use mycellm.Prelude.Text.{Text, is_empty}
use mycellm.Execution.Models.{
  Target, WorkUnit, WorkUnitResult, Job, ExecutionPlan, is_ok, proposers, synthesizer_of,
}
use mycellm.Execution.Coordinator.Gather.{
  Runner, Arrival, Meta, Degradation, one_survived, no_synthesizer, budget_exhausted, no_output,
  synthesis_failed, stream_broke, plan_only, safe_run, exhausted, gather_proposals,
  synthesis_unit_of,
}
use mycellm.Execution.Coordinator.{
  JobError, Outcome, plan_error, run_direct, proposers_error, longest, degrade_by, is_swarm,
}

pub data StreamEnd : Type 0 where
  ended stream_cancelled : StreamEnd
  broke : Text → StreamEnd

pub record Fragments : Type 0 where
  pub yielded : List Text
  pub how : StreamEnd

pub data Event : Type 0 where
  proposing : List Target → Event
  synthesizing : Target → ℕ → Event
  text_event : Text → Event
  done_event : Meta → Event
  error_event : JobError → Meta → Event

unfoldable pub error_or_text : Outcome → List Event
error_or_text o = elim o.error [
  | some e ↦ error_event e o.meta ∷ []
  | none ↦ text_event o.text ∷ done_event o.meta ∷ []
]

-- One finished text, then the end.
unfoldable pub emit_once : Text → Meta → List Event
emit_once t meta = text_event t ∷ done_event meta ∷ []

unfoldable pub emit_salvaged :
    WorkUnitResult → List WorkUnitResult → Degradation → Meta → List Event
unfolding emit_once
emit_salvaged r rs d meta = emit_once (longest r rs).text (degrade_by d meta)

unfoldable pub emit_synthesis :
    WorkUnitResult → WorkUnitResult → List WorkUnitResult → ℕ → Meta → List Event
unfolding emit_once emit_salvaged
emit_synthesis synth r rs spent meta =
    if is_ok synth
    then emit_once synth.text (record meta {
      synthesized_by = some synth.target;
      completion_tokens_spent = spent + synth.completion_tokens;
    })
    else emit_salvaged r rs (synthesis_failed (take 120 synth.error)) meta

-- How the stream ends, `emitted` being the fragments that reached the client.
unfoldable pub close_stream :
    StreamEnd → Target → List Text → WorkUnitResult → List WorkUnitResult → Meta → List Event
unfolding emit_salvaged
close_stream stream_cancelled t emitted r rs meta = []
close_stream (broke e) t [] r rs meta = emit_salvaged r rs (synthesis_failed (take 120 e)) meta
close_stream (broke e) t (_ ∷ _) r rs meta = done_event (degrade_by (stream_broke e) meta) ∷ []
close_stream ended t [] r rs meta = emit_salvaged r rs no_output meta
close_stream ended t (_ ∷ _) r rs meta = done_event (record meta { synthesized_by = some t }) ∷ []

unfoldable pub stream_fragments :
    Fragments → Target → WorkUnitResult → List WorkUnitResult → Meta → List Event
unfolding close_stream
stream_fragments f t r rs meta =
    let emitted = filter (λ s. negb (is_empty s)) f.yielded in
    map text_event emitted ++ close_stream f.how t emitted r rs meta

abbrev pub StreamRunner : Type 0
StreamRunner = Option (WorkUnit → Fragments)

unfoldable pub synthesize_stream :
    Runner → StreamRunner → WorkUnit → WorkUnitResult → List WorkUnitResult → ℕ → Meta → List Event
unfolding emit_synthesis stream_fragments
synthesize_stream run none unit r rs spent meta = emit_synthesis (safe_run run unit) r rs spent meta
synthesize_stream run (some stream) unit r rs spent meta =
    stream_fragments (stream unit) unit.target r rs meta

unfoldable pub merge_stream :
    Runner
    → StreamRunner
    → Job
    → ℕ
    → Option WorkUnit
    → WorkUnitResult
    → List WorkUnitResult
    → ℕ
    → Meta
    → List Event
unfolding synthesize_stream emit_salvaged
merge_stream run stream job budget none r rs spent meta = emit_salvaged r rs no_synthesizer meta
merge_stream run stream job budget (some template) r rs spent meta =
    let unit = synthesis_unit_of template job (r ∷ rs) in
    if exhausted budget spent
    then emit_salvaged r rs budget_exhausted meta
    else synthesizing unit.target (length (r ∷ rs))
      ∷ synthesize_stream run stream unit r rs spent meta

unfoldable pub settle_stream :
    Runner
    → StreamRunner
    → Job
    → ℕ
    → Option WorkUnit
    → List WorkUnitResult
    → List WorkUnitResult
    → ℕ
    → Meta
    → List Event
unfolding merge_stream emit_once
settle_stream run stream job budget template [] failed spent meta =
    error_event (proposers_error failed) meta ∷ []
settle_stream run stream job budget template (r ∷ []) failed spent meta =
    emit_once r.text (degrade_by one_survived meta)
settle_stream run stream job budget template (r ∷ (s ∷ rs)) failed spent meta =
    merge_stream run stream job budget template r (s ∷ rs) spent meta

unfoldable pub stream_swarm {ℓ} :
    {R : Type ℓ} → Runner → StreamRunner → Job → ExecutionPlan R → List Arrival → List Event
unfolding settle_stream
stream_swarm run stream job plan arrivals =
    let p = gather_proposals run plan arrivals in
    proposing (map (λ u. u.target) (proposers plan))
    ∷ settle_stream run stream job plan.token_budget (synthesizer_of plan) p.good p.failed p.spent
        (record p.meta { proposals = p.notes })

unfoldable pub stream_units {ℓ} :
    {R : Type ℓ}
    → Runner
    → StreamRunner
    → Job
    → ExecutionPlan R
    → List Arrival
    → List WorkUnit
    → List Event
unfolding stream_swarm error_or_text
stream_units run stream job plan arrivals [] = error_event (plan_error plan.reasons) plan_only ∷ []
stream_units run stream job plan arrivals (u ∷ us) =
    if is_swarm plan.strategy
    then stream_swarm run stream job plan arrivals
    else error_or_text (run_direct run u)

unfoldable pub execute_stream {ℓ} :
    {R : Type ℓ} → Runner → StreamRunner → Job → ExecutionPlan R → List Arrival → List Event
unfolding stream_units
execute_stream run stream job plan arrivals = stream_units run stream job plan arrivals plan.units
