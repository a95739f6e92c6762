-- ===== src/Agent/Keeps.antt =====
-- What a run of the agent leaves true: whatever the model's and the tools' calls leave true.
use kscribe.Prelude.{
  Bool-cases, Bytes, List, Option, String, [], inl, inr, is_empty, none, refl, some, suc, zero, ℕ,
  ℤ, ◌++◌, ◌∷◌, ◌≡◌,
}
use kscribe.Errors.{Error, Result, ok, err}
use kscribe.Agent.Schema.{RcaResult, ToolCall, Message, Request, Choice, Response, ToolExecutor}
use kscribe.Agent.{
  TraceStep, DiagnosisAgent, add_tokens, parse_rca, call_with, call_tool, tool_message, trace_step,
  run_tools, repair_rca, repair_request, after_repair, repaired, finish, after_message,
  after_choices, after_complete, Rest, round_request, loop, run, first_messages, effective_max_iter,
}

module _ {W : Type 0} (P : W → Type 0) where
  -- The calls that an agent can make keep `P`.
  pub record AgentKeeps (a : DiagnosisAgent W) : Type 0 where
    pub completes : (req : Request) (w : W) → P w → P (a.provider.complete req w).1
    pub executes :
        (x : ToolExecutor W) (name : String) (args : Bytes) (w : W)
        → a.executor ≡ some x
        → P w
        → P (x.execute name args w).1

  module _ (a : DiagnosisAgent W) (keeps : AgentKeeps a) where
    call_with-keeps :
        (x : Option (ToolExecutor W)) (tc : ToolCall) (w : W)
        → a.executor ≡ x
        → P w
        → P (call_with a x tc w).1
    call_with-keeps none tc w same h = h
    call_with-keeps (some x) tc w same h =
        keeps.executes x tc.function.name tc.function.arguments w same h

    run_tools-keeps :
        (calls : List ToolCall) (trace : List TraceStep) (messages : List Message) (w : W)
        → P w
        → P (run_tools a calls trace messages w).1
    unfolding run_tools call_tool
    run_tools-keeps [] trace messages w h = h
    run_tools-keeps (tc ∷ rest) trace messages w h =
        run_tools-keeps rest (trace ++ trace_step a tc (call_tool a tc w).0 ∷ [])
          (messages ++ tool_message a tc (call_tool a tc w).0 ∷ []) (call_tool a tc w).1
          (call_with-keeps a.executor tc w refl h)

    -- the repair turn's world is that of its call
    repaired-keeps :
        (snapshot : Bytes) (trace : List TraceStep) (e : Error) (r : Result RcaResult) (k : ℤ)
        (w : W)
        → P w
        → P (repaired a snapshot trace e ((r, k), w)).1
    repaired-keeps snapshot trace e (ok rca) k w h = h
    repaired-keeps snapshot trace e (err e') k w h = h

    finish-keeps :
        (snapshot : Bytes) (messages : List Message) (tokens : ℤ) (trace : List TraceStep) (w : W)
        (r : Result RcaResult)
        → P w
        → P (finish a snapshot messages tokens trace w r).1
    unfolding repair_rca
    finish-keeps snapshot messages tokens trace w (ok rca) h = h
    finish-keeps snapshot messages tokens trace w (err e) h =
        let answer = a.provider.complete (repair_request a messages) w in
        repaired-keeps snapshot trace e (after_repair a tokens answer.0).0
          (after_repair a tokens answer.0).1 answer.1
          (keeps.completes (repair_request a messages) w h)

    abbrev Kept : Rest a → Type 0
    Kept rest =
        (messages : List Message) (tokens : ℤ) (trace : List TraceStep) (w : W)
        → P w
        → P (rest messages tokens trace w).1

    message-keeps :
        (rest : Rest a) (snapshot : Bytes) (messages : List Message) (tokens : ℤ)
        (trace : List TraceStep) (w : W) (msg : Message)
        → Kept rest
        → P w
        → P (after_message a rest snapshot messages tokens trace w msg).1
    message-keeps rest snapshot messages tokens trace w msg go h =
        elim (Bool-cases (is_empty msg.tool_calls)) [
          | inl last ↦
              rw last (finish-keeps snapshot messages tokens trace w (parse_rca a msg.content) h)
          | inr calls ↦ rw calls (
              go _ tokens _ (run_tools a msg.tool_calls trace messages w).1
                (run_tools-keeps msg.tool_calls trace messages w h))
        ]

    choices-keeps :
        (rest : Rest a) (snapshot : Bytes) (messages : List Message) (tokens : ℤ)
        (trace : List TraceStep) (w : W) (choices : List Choice)
        → Kept rest
        → P w
        → P (after_choices a rest snapshot messages tokens trace w choices).1
    choices-keeps rest snapshot messages tokens trace w [] go h = h
    choices-keeps rest snapshot messages tokens trace w (c ∷ others) go h =
        message-keeps rest snapshot (messages ++ c.message ∷ []) tokens trace w c.message go h

    complete-keeps :
        (rest : Rest a) (snapshot : Bytes) (messages : List Message) (tokens : ℤ)
        (trace : List TraceStep) (answer : Result Response) (w : W)
        → Kept rest
        → P w
        → P (after_complete a rest snapshot messages tokens trace (answer, w)).1
    complete-keeps rest snapshot messages tokens trace (err e) w go h = h
    complete-keeps rest snapshot messages tokens trace (ok resp) w go h =
        choices-keeps rest snapshot messages (add_tokens tokens resp.usage) trace w resp.choices go
          h

    loop-Kept : (n : ℕ) (snapshot : Bytes) → Kept (loop a n snapshot)
    unfolding loop
    loop-Kept zero snapshot messages tokens trace w h = h
    loop-Kept (suc n) snapshot messages tokens trace w h =
        let answer = a.provider.complete (round_request a messages) w in
        complete-keeps (loop a n snapshot) snapshot messages tokens trace answer.0 answer.1
          (loop-Kept n snapshot) (keeps.completes (round_request a messages) w h)

    -- A run keeps what its calls keep.
    pub run-keeps : (snapshot : Bytes) (w : W) → P w → P (run a snapshot w).1
    unfolding run
    run-keeps snapshot w h =
        loop-Kept (effective_max_iter a.max_iter) snapshot (first_messages a snapshot) (ℤ.pos 0) []
          w h
