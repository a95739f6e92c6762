-- ===== src/Agent/Outcomes.antt =====
-- What every outcome of a run looks like, whatever the model and the tools answer.
use kscribe.Prelude.{
  All, All-append, Bool-cases, Bytes, List, [], arith, false, inl, inr, is_empty, length,
  length-take-le, ltb, ltb_false→le, none, refl, some, suc, zero, ℕ, ℤ, ◌++◌, ◌∷◌, ◌≡◌, ◌≤◌, ◌⊎◌,
}
use kscribe.Api.{DiagnosisPhase, done, partial, failed}
use kscribe.Errors.{Error, Result, ok, err}
use kscribe.Agent.Schema.{RcaResult, ToolCall, Message, Choice, Response}
use kscribe.Agent.{
  TraceStep, Outcome, DiagnosisAgent, truncate_result, parse_rca, call_tool, tool_message,
  trace_step, run_tools, repair_rca, repair_choice, repaired, done_outcome, error_outcome, finish,
  after_message, after_choices, after_complete, Rest, round_request, repair_request, loop, run,
  first_messages, effective_max_iter, after_repair, add_tokens, check_rca,
}

-- A property of outcomes, from one of traces: it is enough to look at the places where an outcome is
-- built and where a step is traced.
module _ {W : Type 0} (a : DiagnosisAgent W) (snapshot : Bytes) (T : List TraceStep → Type 0)
    (P : Outcome → Type 0)
    (on_done : (content : Bytes) (rca : RcaResult) (tokens : ℤ) (trace : List TraceStep)
      → parse_rca a content ≡ ok rca
      → T trace
      → P (done_outcome a snapshot rca tokens trace))
    (on_error : (phase : DiagnosisPhase) (text : Bytes) (tokens : ℤ) (trace : List TraceStep)
      → (phase ≡ partial) ⊎ (phase ≡ failed)
      → T trace
      → P (error_outcome a snapshot phase text tokens trace))
    (on_tool : (tc : ToolCall) (result : Bytes) (trace : List TraceStep)
      → T trace
      → T (trace ++ trace_step a tc result ∷ [])) where
  run_tools-T :
      (calls : List ToolCall) (trace : List TraceStep) (messages : List Message) (w : W)
      → T trace
      → T (run_tools a calls trace messages w).0.0
  unfolding run_tools
  run_tools-T [] trace messages w t = t
  run_tools-T (tc ∷ rest) trace messages w t =
      run_tools-T rest (trace ++ trace_step a tc (call_tool a tc w).0 ∷ [])
        (messages ++ tool_message a tc (call_tool a tc w).0 ∷ []) (call_tool a tc w).1
        (on_tool tc (call_tool a tc w).0 trace t)

  repair_choice-P :
      (choices : List Choice) (e : Error) (tokens : ℤ) (trace : List TraceStep) (w : W)
      → T trace
      → P (repaired a snapshot trace e ((repair_choice a choices, tokens), w)).0
  repair_choice-P [] e tokens trace w t = on_error partial _ tokens trace (inl refl) t
  repair_choice-P (c ∷ others) e tokens trace w t = choose (parse_rca a c.message.content) refl
    where
      choose :
          (r : Result RcaResult)
          → parse_rca a c.message.content ≡ r
          → P (repaired a snapshot trace e ((r, tokens), w)).0
      choose (ok rca) parsed = on_done c.message.content rca tokens trace parsed t
      choose (err e') parsed = on_error partial _ tokens trace (inl refl) t

  repair-P :
      (messages : List Message) (e : Error) (tokens : ℤ) (trace : List TraceStep) (w : W)
      → T trace
      → P (repaired a snapshot trace e (repair_rca a messages tokens w)).0
  unfolding repair_rca
  repair-P messages e tokens trace w t = choose (a.provider.complete (repair_request a messages) w)
    where
      choose :
          (answer : Result Response × W)
          → P (repaired a snapshot trace e (after_repair a tokens answer.0, answer.1)).0
      choose (err e', w') = on_error partial _ tokens trace (inl refl) t
      choose (ok resp, w') =
          repair_choice-P resp.choices e (add_tokens tokens resp.usage) trace w' t

  finish-P :
      (messages : List Message) (content : Bytes) (tokens : ℤ) (trace : List TraceStep) (w : W)
      → T trace
      → P (finish a snapshot messages tokens trace w (parse_rca a content)).0
  finish-P messages content tokens trace w t = choose (parse_rca a content) refl
    where
      choose :
          (r : Result RcaResult)
          → parse_rca a content ≡ r
          → P (finish a snapshot messages tokens trace w r).0
      choose (ok rca) parsed = on_done content rca tokens trace parsed t
      choose (err e) parsed = repair-P messages e tokens trace w t

  loop-P :
      (n : ℕ) (messages : List Message) (tokens : ℤ) (trace : List TraceStep) (w : W)
      → T trace
      → P (loop a n snapshot messages tokens trace w).0
  unfolding loop
  loop-P zero messages tokens trace w t = on_error partial _ tokens trace (inl refl) t
  loop-P (suc n) messages tokens trace w t =
      choose (a.provider.complete (round_request a messages) w) (loop-P n)
    where
      Goes : Rest a → Type 0
      Goes rest =
          (ms : List Message) (k : ℤ) (tr : List TraceStep) (v : W) → T tr → P (rest ms k tr v).0

      message :
          (msg : Message) (ms : List Message) (k : ℤ) (v : W)
          → Goes (loop a n snapshot)
          → P (after_message a (loop a n snapshot) snapshot ms k trace v msg).0
      message msg ms k v go = elim (Bool-cases (is_empty msg.tool_calls)) [
        | inl last ↦ rw last (finish-P ms msg.content k trace v t)
        | inr calls ↦ rw calls (go _ k _ _ (run_tools-T msg.tool_calls trace ms v t))
      ]

      choose :
          (answer : Result Response × W)
          → Goes (loop a n snapshot)
          → P (after_complete a (loop a n snapshot) snapshot messages tokens trace answer).0
      choose (err e, w') go = on_error failed _ tokens trace (inr refl) t
      choose (ok resp, w') go = first resp.choices
        where
          first :
              (choices : List Choice)
              → P
                  (after_choices a
                    (loop a n snapshot)
                    snapshot
                    messages
                    (add_tokens tokens resp.usage)
                    trace
                    w'
                    choices).0
          first [] = on_error failed _ _ trace (inr refl) t
          first (c ∷ others) =
              message c.message (messages ++ c.message ∷ []) (add_tokens tokens resp.usage) w' go

-- A finished outcome carries a complete analysis, and any other carries none.
abbrev pub IsComplete : RcaResult → Type 0
IsComplete rca = (is_empty rca.summary ≡ false) × (is_empty rca.root_cause ≡ false)

abbrev pub Diagnosed : Outcome → Type 0
Diagnosed o =
    (rca : RcaResult) × (o.phase ≡ done)
    × (o.rca ≡ some rca)
    × IsComplete rca
    × (o.reasoning ≡ rca.reasoning)

abbrev pub Undiagnosed : Outcome → Type 0
Undiagnosed o = ((o.phase ≡ partial) ⊎ (o.phase ≡ failed)) × (o.rca ≡ none)

parse_rca-IsComplete :
    {W : Type 0} (a : DiagnosisAgent W) (content : Bytes) (rca : RcaResult)
    → parse_rca a content ≡ ok rca
    → IsComplete rca
unfolding parse_rca
parse_rca-IsComplete a content rca parsed = checked (a.unmarshal content) parsed
  where
    checked : (r : Result RcaResult) → check_rca r ≡ ok rca → IsComplete rca
    checked (err e) h = cc
    checked (ok r) h = ground arith

truncate_result_short : (result : Bytes) → length (truncate_result result) ≤ 200
unfolding truncate_result
truncate_result_short result = elim (Bool-cases (ltb 200 (length result))) [
  | inl long ↦ rw long (length-take-le 200 result)
  | inr short ↦ rw short (ltb_false→le 200 (length result) short)
]

module _ {W : Type 0} (a : DiagnosisAgent W) (snapshot : Bytes) (w : W) where
  -- Every run ends in one of two ways: in phase Done with an analysis whose summary and root cause
  -- are not empty and whose reasoning is reported, or in phase Partial or Failed with none.
  pub run_outcome : Diagnosed (run a snapshot w).0 ⊎ Undiagnosed (run a snapshot w).0
  unfolding run
  run_outcome =
      loop-P a snapshot (λ _. Unit) (λ o. Diagnosed o ⊎ Undiagnosed o)
        (λ content rca tokens trace parsed _.
          inl (rca, refl, refl, parse_rca-IsComplete a content rca parsed, refl))
        (λ phase text tokens trace which _. inr (which, refl)) (λ tc result trace _. tt)
        (effective_max_iter a.max_iter) (first_messages a snapshot) (ℤ.pos 0) [] w tt

  abbrev pub IsShort : TraceStep → Type 0
  IsShort s = length s.result ≤ 200

  -- No step of the trace that a run reports keeps more than 200 bytes of a tool's result.
  pub trace-IsShort : All IsShort (run a snapshot w).0.trace
  unfolding run
  trace-IsShort =
      loop-P a snapshot (All IsShort) (λ o. All IsShort o.trace)
        (λ content rca tokens trace parsed t. t) (λ phase text tokens trace which t. t)
        (λ tc result trace t. All-append IsShort trace _ t (truncate_result_short result, tt))
        (effective_max_iter a.max_iter) (first_messages a snapshot) (ℤ.pos 0) [] w tt
