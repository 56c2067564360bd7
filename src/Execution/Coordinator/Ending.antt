-- ===== src/Execution/Coordinator/Ending.antt =====
-- How the events of `execute_stream` of src/mycellm/execution/coordinator.py end, and which texts they hold.
use mycellm.Prelude.{
  ℕ, ◌≡◌, ◌⊎◌, inl, inr, refl, ◌≢◌, ◌≤◌, Option, none, some, Bool, true, false, List, [], ◌∷◌, ◌++◌,
  map, filter, negb, length, is_nil, arith, Bool-cases, ap, ◌∙◌, append-nil,
}
use mycellm.Prelude.Text.{Text, is_empty}
use mycellm.Execution.Models.{
  WorkUnit, WorkUnitResult, Job, ExecutionPlan, is_ok, Target, synthesizer_of,
}
use mycellm.Execution.Coordinator.Gather.{
  Runner, Arrival, Meta, safe_run, exhausted, gather_proposals, synthesis_unit_of,
}
use mycellm.Execution.Coordinator.{failure, success, run_direct, is_swarm}
use mycellm.Execution.Coordinator.Stream.{
  Event, proposing, synthesizing, text_event, done_event, error_event, Fragments, StreamRunner,
  StreamEnd, ended, broke, stream_cancelled, error_or_text, emit_once, emit_salvaged,
  emit_synthesis, close_stream, stream_fragments, synthesize_stream, merge_stream, settle_stream,
  stream_swarm, stream_units, execute_stream,
}
use mycellm.Execution.Coordinator.Streaming.{texts}

-- The last event, and no other, is the end or an error.
abbrev pub ends_once : List Event → Bool
ends_once [] = false
ends_once (done_event m ∷ es) = is_nil es
ends_once (error_event e m ∷ es) = is_nil es
ends_once (text_event t ∷ es) = ends_once es
ends_once (proposing ts ∷ es) = ends_once es
ends_once (synthesizing t n ∷ es) = ends_once es

-- No unit's stream is cancelled.
abbrev pub NeverCancelled : StreamRunner → Type 0
NeverCancelled none = Unit
NeverCancelled (some stream) = (u : WorkUnit) → (stream u).how ≢ stream_cancelled

abbrev pub fragments_of : (WorkUnit → Fragments) → WorkUnit → List Text
fragments_of stream u = filter (λ s. negb (is_empty s)) (stream u).yielded

-- One text at most, or the fragments of one unit's stream that are not empty.
abbrev pub OneAnswer : StreamRunner → List Event → Type 0
OneAnswer none es = length (texts es) ≤ 1
OneAnswer (some stream) es =
    (length (texts es) ≤ 1) ⊎ ((u : WorkUnit) × (texts es ≡ fragments_of stream u))

at_most_one :
    (stream : StreamRunner) (es : List Event) → length (texts es) ≤ 1 → OneAnswer stream es
at_most_one none es h = h
at_most_one (some stream) es h = inl h

texts_fragments :
    (ts : List Text) (es : List Event) → texts (map text_event ts ++ es) ≡ ts ++ texts es
texts_fragments [] es = refl
texts_fragments (t ∷ ts) es = ap (λ l. t ∷ l) (texts_fragments ts es)

ends_once_fragments :
    (ts : List Text) (es : List Event) → ends_once (map text_event ts ++ es) ≡ ends_once es
ends_once_fragments [] es = refl
ends_once_fragments (t ∷ ts) es = ends_once_fragments ts es

close_stream-ends_once :
    (how : StreamEnd) (t : Target) (emitted : List Text) (r : WorkUnitResult)
    (rs : List WorkUnitResult) (meta : Meta)
    → how ≢ stream_cancelled
    → ends_once (close_stream how t emitted r rs meta) ≡ true
unfolding close_stream emit_salvaged emit_once
close_stream-ends_once stream_cancelled t em r rs meta h = absurd (h refl)
close_stream-ends_once (broke e) t [] r rs meta h = refl
close_stream-ends_once (broke e) t (x ∷ xs) r rs meta h = refl
close_stream-ends_once ended t [] r rs meta h = refl
close_stream-ends_once ended t (x ∷ xs) r rs meta h = refl

-- A stream that reached the client is followed by no other text; one that did not by one at most.
close_stream-texts :
    (how : StreamEnd) (t : Target) (emitted : List Text) (r : WorkUnitResult)
    (rs : List WorkUnitResult) (meta : Meta)
    → (length (emitted ++ texts (close_stream how t emitted r rs meta)) ≤ 1)
      ⊎ (emitted ++ texts (close_stream how t emitted r rs meta) ≡ emitted)
unfolding close_stream emit_salvaged emit_once
close_stream-texts stream_cancelled t em r rs meta = inr (append-nil em)
close_stream-texts (broke e) t [] r rs meta = inl (omega arith)
close_stream-texts (broke e) t (x ∷ xs) r rs meta = inr (append-nil (x ∷ xs))
close_stream-texts ended t [] r rs meta = inl (omega arith)
close_stream-texts ended t (x ∷ xs) r rs meta = inr (append-nil (x ∷ xs))

synthesis-ends_once :
    (synth r : WorkUnitResult) (rs : List WorkUnitResult) (spent : ℕ) (meta : Meta)
    → (ends_once (emit_synthesis synth r rs spent meta) ≡ true)
      × (length (texts (emit_synthesis synth r rs spent meta)) ≤ 1)
unfolding emit_synthesis emit_once emit_salvaged
synthesis-ends_once synth r rs spent meta = elim (Bool-cases (is_ok synth)) [
  | inl e ↦ rw e (refl, omega arith)
  | inr e ↦ rw e (refl, omega arith)
]

module _ (run : Runner) where
  synthesize_stream-ends_once :
      (stream : StreamRunner) (u : WorkUnit) (r : WorkUnitResult) (rs : List WorkUnitResult)
      (spent : ℕ) (meta : Meta)
      → NeverCancelled stream
      → ends_once (synthesize_stream run stream u r rs spent meta) ≡ true
  unfolding synthesize_stream stream_fragments
  synthesize_stream-ends_once none u r rs spent meta h =
      (synthesis-ends_once (safe_run run u) r rs spent meta).0
  synthesize_stream-ends_once (some s) u r rs spent meta h =
      ends_once_fragments (fragments_of s u) _
      ∙ close_stream-ends_once (s u).how u.target (fragments_of s u) r rs meta (h u)

  synthesize_stream-OneAnswer :
      (stream : StreamRunner) (u : WorkUnit) (r : WorkUnitResult) (rs : List WorkUnitResult)
      (spent : ℕ) (meta : Meta)
      → OneAnswer stream (synthesize_stream run stream u r rs spent meta)
  unfolding synthesize_stream stream_fragments
  synthesize_stream-OneAnswer none u r rs spent meta =
      (synthesis-ends_once (safe_run run u) r rs spent meta).1
  synthesize_stream-OneAnswer (some s) u r rs spent meta =
      rw
        (texts_fragments (fragments_of s u)
          (close_stream (s u).how u.target (fragments_of s u) r rs meta))
        (elim (close_stream-texts (s u).how u.target (fragments_of s u) r rs meta) [
          | inl few ↦ inl few
          | inr same ↦ inr (u, same)
        ])

  -- What holds of every stream of events.
  abbrev Sound : StreamRunner → List Event → Type 0
  Sound stream es = (NeverCancelled stream → ends_once es ≡ true) × OneAnswer stream es

  Sound-of :
      (stream : StreamRunner) (es : List Event)
      → ends_once es ≡ true
      → length (texts es) ≤ 1
      → Sound stream es
  Sound-of stream es h k = (λ n. h, at_most_one stream es k)

  step-OneAnswer :
      (stream : StreamRunner) (e : Event) (es : List Event)
      → texts (e ∷ es) ≡ texts es
      → OneAnswer stream es
      → OneAnswer stream (e ∷ es)
  step-OneAnswer none e es h o = rw h o
  step-OneAnswer (some s) e es h o = rw h o

  module _ (stream : StreamRunner) (job : Job) (budget : ℕ) where
    merge-Sound :
        (template : Option WorkUnit) (r : WorkUnitResult) (rs : List WorkUnitResult) (spent : ℕ)
        (meta : Meta)
        → Sound stream (merge_stream run stream job budget template r rs spent meta)
    unfolding merge_stream emit_salvaged emit_once
    merge-Sound none r rs spent meta = Sound-of stream _ refl (omega arith)
    merge-Sound (some t) r rs spent meta = elim (Bool-cases (exhausted budget spent)) [
      | inl e ↦ rw e (Sound-of stream _ refl (omega arith))
      | inr e ↦ rw e (
        synthesize_stream-ends_once stream (synthesis_unit_of t job (r ∷ rs)) r rs spent meta,
        step-OneAnswer stream _ _ refl
            (synthesize_stream-OneAnswer stream (synthesis_unit_of t job (r ∷ rs)) r rs spent meta),
      )
    ]

    settle-Sound :
        (template : Option WorkUnit) (good failed : List WorkUnitResult) (spent : ℕ) (meta : Meta)
        → Sound stream (settle_stream run stream job budget template good failed spent meta)
    unfolding settle_stream emit_once
    settle-Sound t [] failed spent meta = Sound-of stream _ refl (omega arith)
    settle-Sound t (r ∷ []) failed spent meta = Sound-of stream _ refl (omega arith)
    settle-Sound t (r ∷ (s ∷ rs)) failed spent meta = merge-Sound t r (s ∷ rs) spent meta

module _ {ℓ} {R : Type ℓ} (run : Runner) (stream : StreamRunner) (job : Job)
    (plan : ExecutionPlan R) (arrivals : List Arrival) where
  direct-Sound : (u : WorkUnit) → Sound run stream (error_or_text (run_direct run u))
  unfolding error_or_text run_direct failure success
  direct-Sound u = elim (Bool-cases (is_ok (safe_run run u))) [
    | inl e ↦ rw e (Sound-of run stream _ refl (omega arith))
    | inr e ↦ rw e (Sound-of run stream _ refl (omega arith))
  ]

  swarm-Sound : Sound run stream (stream_swarm run stream job plan arrivals)
  unfolding stream_swarm
  swarm-Sound =
      let p = gather_proposals run plan arrivals in
      let s =
        settle-Sound run stream job plan.token_budget (synthesizer_of plan) p.good p.failed p.spent
          (record p.meta { proposals = p.notes }) in
      (s.0, step-OneAnswer run stream _ _ refl s.1)

  units-Sound :
      (us : List WorkUnit) → Sound run stream (stream_units run stream job plan arrivals us)
  unfolding stream_units
  units-Sound [] = Sound-of run stream _ refl (omega arith)
  units-Sound (u ∷ us) = elim (Bool-cases (is_swarm plan.strategy)) [
    | inl e ↦ rw e swarm-Sound
    | inr e ↦ rw e (direct-Sound u)
  ]

  -- Every stream of events that is not cancelled has one end or error, which is its last event.
  pub execute_stream-ends_once :
      NeverCancelled stream → ends_once (execute_stream run stream job plan arrivals) ≡ true
  unfolding execute_stream
  execute_stream-ends_once = (units-Sound plan.units).0

  -- A client gets at most one text, or the fragments of one unit's stream and nothing after them:
  -- a fallback never follows a partial answer.
  pub execute_stream-OneAnswer : OneAnswer stream (execute_stream run stream job plan arrivals)
  unfolding execute_stream
  execute_stream-OneAnswer = (units-Sound plan.units).1
