-- ===== src/Execution/Coordinator/Streaming.antt =====
-- What `execute_stream` of src/mycellm/execution/coordinator.py emits, beside `execute`.
use mycellm.Prelude.{ℕ, ◌≡◌, inl, inr, refl, Option, none, some, List, [], ◌∷◌, Bool-cases}
use mycellm.Prelude.Text.{Text}
use mycellm.Execution.Models.{WorkUnit, WorkUnitResult, Job, ExecutionPlan, is_ok}
use mycellm.Execution.Coordinator.Gather.{
  Runner, Arrival, Meta, safe_run, exhausted, synthesis_unit_of,
}
use mycellm.Execution.Coordinator.{
  JobError, Outcome, failure, success, run_direct, salvage, finish_synthesis, merge, settle_swarm,
  run_swarm, run_units, is_swarm, execute,
}
use mycellm.Execution.Coordinator.Stream.{
  Event, proposing, synthesizing, text_event, done_event, error_event, error_or_text, emit_once,
  emit_salvaged, emit_synthesis, synthesize_stream, merge_stream, settle_stream, stream_swarm,
  stream_units, execute_stream,
}

-- The texts that reach the client, in order.
abbrev pub texts : List Event → List Text
texts [] = []
texts (text_event t ∷ es) = t ∷ texts es
texts (proposing ts ∷ es) = texts es
texts (synthesizing t n ∷ es) = texts es
texts (done_event m ∷ es) = texts es
texts (error_event e m ∷ es) = texts es

abbrev pub stream_error : List Event → Option JobError
stream_error [] = none
stream_error (text_event t ∷ es) = stream_error es
stream_error (proposing ts ∷ es) = stream_error es
stream_error (synthesizing t n ∷ es) = stream_error es
stream_error (done_event m ∷ es) = stream_error es
stream_error (error_event e m ∷ es) = some e

-- What `execute` answers, as texts: none with an error.
abbrev pub answer_texts : Outcome → List Text
answer_texts o = elim o.error [ some e ↦ [] | none ↦ o.text ∷ [] ]

-- The events say what the outcome says.
abbrev Agrees : List Event → Outcome → Type 0
Agrees es o = (texts es ≡ answer_texts o) × (stream_error es ≡ o.error)

synthesis-Agrees :
    (synth r : WorkUnitResult) (rs : List WorkUnitResult) (spent : ℕ) (meta shown : Meta)
    → Agrees (emit_synthesis synth r rs spent shown) (finish_synthesis synth r rs spent meta)
unfolding emit_synthesis emit_once emit_salvaged finish_synthesis success salvage
synthesis-Agrees synth r rs spent meta shown = elim (Bool-cases (is_ok synth)) [
  | inl e ↦ rw e (refl, refl)
  | inr e ↦ rw e (refl, refl)
]

module _ (run : Runner) (job : Job) (budget : ℕ) where
  merge-Agrees :
      (template : Option WorkUnit) (r : WorkUnitResult) (rs : List WorkUnitResult) (spent : ℕ)
      (meta shown : Meta)
      → Agrees
          (merge_stream run none job budget template r rs spent shown)
          (merge run job budget template r rs spent meta)
  unfolding merge_stream merge emit_salvaged emit_once salvage success synthesize_stream
  merge-Agrees none r rs spent meta shown = (refl, refl)
  merge-Agrees (some t) r rs spent meta shown = elim (Bool-cases (exhausted budget spent)) [
    | inl e ↦ rw e (refl, refl)
    | inr e ↦
        rw e
          (synthesis-Agrees (safe_run run (synthesis_unit_of t job (r ∷ rs))) r rs spent meta shown)
  ]

  settle-Agrees :
      (template : Option WorkUnit) (good failed : List WorkUnitResult) (spent : ℕ)
      (meta shown : Meta)
      → Agrees
          (settle_stream run none job budget template good failed spent shown)
          (settle_swarm run job budget template good failed spent meta)
  unfolding settle_stream settle_swarm failure success emit_once
  settle-Agrees t [] failed spent meta shown = (refl, refl)
  settle-Agrees t (r ∷ []) failed spent meta shown = (refl, refl)
  settle-Agrees t (r ∷ (s ∷ rs)) failed spent meta shown =
      merge-Agrees t r (s ∷ rs) spent meta shown

module _ {ℓ} {R : Type ℓ} (run : Runner) (job : Job) (plan : ExecutionPlan R)
    (arrivals : List Arrival) where
  direct-Agrees : (u : WorkUnit) → Agrees (error_or_text (run_direct run u)) (run_direct run u)
  unfolding error_or_text run_direct failure success
  direct-Agrees u = elim (Bool-cases (is_ok (safe_run run u))) [
    | inl e ↦ rw e (refl, refl)
    | inr e ↦ rw e (refl, refl)
  ]

  units-Agrees :
      (us : List WorkUnit)
      → Agrees (stream_units run none job plan arrivals us) (run_units run job plan arrivals us)
  unfolding stream_units run_units failure stream_swarm run_swarm
  units-Agrees [] = (refl, refl)
  units-Agrees (u ∷ us) = elim (Bool-cases (is_swarm plan.strategy)) [
    | inl e ↦ rw e (settle-Agrees run job plan.token_budget _ _ _ _ _ _)
    | inr e ↦ rw e (direct-Agrees u)
  ]

  -- Without a streaming runner, the stream emits the text that `execute` answers, in one piece, or
  -- the error.
  pub execute_stream-eq-execute :
      (texts (execute_stream run none job plan arrivals)
        ≡ answer_texts (execute run job plan arrivals))
      × (stream_error (execute_stream run none job plan arrivals)
          ≡ (execute run job plan arrivals).error)
  unfolding execute_stream execute
  execute_stream-eq-execute = units-Agrees plan.units
