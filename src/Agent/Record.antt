-- ===== src/Agent/Record.antt =====
-- The calls of the model that a run makes, seen by a provider that records the answers.
use kscribe.Prelude.{
  Bool-cases, Bytes, List, Option, [], ap, arith, inl, inr, is_empty, length, none, refl, some, suc,
  sym, to_int64, zero, ℕ, ℤ, ◌++◌, ◌+ℤ◌, ◌+◌, ◌∙◌, ◌∷◌, ◌≡◌, ◌≤◌,
}
use mathlib.Core.Option
use mathlib.Core.Path.{subst}
use kscribe.Errors.{Error, Result, ok, err}
use kscribe.Agent.Schema.{RcaResult, ToolCall, Message, Choice, Response, Provider, ToolExecutor}
use kscribe.Agent.{
  TraceStep, Outcome, DiagnosisAgent, add_tokens, parse_rca, call_with, call_tool, tool_message,
  trace_step, run_tools, repair_rca, repair_choice, repair_request, after_repair, repaired, finish,
  after_message, after_choices, after_complete, Rest, round_request, loop, run, first_messages,
  effective_max_iter,
}

-- The answers so far, the last one first, beside the state of the world.
abbrev pub Recorded : Type 0 → Type 0
Recorded W = List (Result Response) × W

module _ {W : Type 0} where
  abbrev pub record_provider : Provider W → Provider (Recorded W)
  record_provider p = record {
    complete =
        λ req s. ((p.complete req s.1).0, ((p.complete req s.1).0 ∷ s.0, (p.complete req s.1).1));
  }

  abbrev pub lift_executor : ToolExecutor W → ToolExecutor (Recorded W)
  lift_executor x = record {
    execute = λ name args s. ((x.execute name args s.1).0, (s.0, (x.execute name args s.1).1));
  }

  -- The same agent, with its provider's answers recorded.
  abbrev pub recording : DiagnosisAgent W → DiagnosisAgent (Recorded W)
  recording a = record {
    provider = record_provider a.provider;
    executor = Option.map lift_executor a.executor;
    tools = a.tools;
    max_iter = a.max_iter;
    unmarshal = a.unmarshal;
  }

-- The total_tokens of the recorded answers, added up as 64-bit integers from the oldest on; a failed
-- call adds nothing.
abbrev pub tokens_of : List (Result Response) → ℤ
tokens_of [] = ℤ.pos 0
tokens_of (err e ∷ older) = tokens_of older
tokens_of (ok resp ∷ older) = to_int64 (tokens_of older +ℤ to_int64 resp.usage.total_tokens)

module _ {W : Type 0} (a : DiagnosisAgent W) where
  abbrev spy : DiagnosisAgent (Recorded W)
  spy = recording a

  log-call_with :
      (x : Option (ToolExecutor W)) (tc : ToolCall) (s : Recorded W)
      → (call_with spy (Option.map lift_executor x) tc s).1.0 ≡ s.0
  log-call_with none tc s = refl
  log-call_with (some x) tc s = refl

  -- tools leave the record alone
  log-run_tools :
      (calls : List ToolCall) (trace : List TraceStep) (messages : List Message) (s : Recorded W)
      → (run_tools spy calls trace messages s).1.0 ≡ s.0
  unfolding run_tools call_tool
  log-run_tools [] trace messages s = refl
  log-run_tools (tc ∷ rest) trace messages s =
      log-run_tools rest (trace ++ trace_step spy tc (call_tool spy tc s).0 ∷ [])
        (messages ++ tool_message spy tc (call_tool spy tc s).0 ∷ []) (call_tool spy tc s).1
      ∙ log-call_with a.executor tc s

  -- What a result owes to the record before it, with so many calls left.
  record Accounts (before : List (Result Response)) (left : ℕ) (r : Outcome × Recorded W)
      : Type 0 where
    calls : length r.1.0 ≤ length before + left
    tokens : r.0.tokens_used ≡ tokens_of r.1.0

  abbrev Accounted : ℕ → Rest spy → Type 0
  Accounted n rest =
      (messages : List Message) (tokens : ℤ) (trace : List TraceStep) (s : Recorded W)
      → tokens ≡ tokens_of s.0
      → Accounts s.0 (suc n) (rest messages tokens trace s)

  -- one more answer, and whatever is left of it
  repaired-Accounts :
      (snapshot : Bytes) (messages : List Message) (tokens : ℤ) (trace : List TraceStep) (e : Error)
      (s : Recorded W) (n : ℕ)
      → tokens ≡ tokens_of s.0
      → Accounts s.0 (suc n) (repaired spy snapshot trace e (repair_rca spy messages tokens s))
  unfolding repair_rca
  repaired-Accounts snapshot messages tokens trace e s n t =
      choose (a.provider.complete (repair_request spy messages) s.1)
    where
      parsed :
          (r : Result RcaResult) (k : ℤ) (answer : Result Response) (w : W)
          → k ≡ tokens_of (answer ∷ s.0)
          → Accounts s.0 (suc n) (repaired spy snapshot trace e ((r, k), (answer ∷ s.0, w)))
      parsed (ok rca) k answer w h = record { calls = omega arith; tokens = h }
      parsed (err e') k answer w h = record { calls = omega arith; tokens = h }

      choose :
          (answer : Result Response × W)
          → Accounts s.0 (suc n) (
              repaired spy snapshot trace e
                (after_repair spy tokens answer.0, (answer.0 ∷ s.0, answer.1)))
      choose (err e', w) = parsed (err e') tokens (err e') w t
      choose (ok resp, w) =
          parsed (repair_choice spy resp.choices) (add_tokens tokens resp.usage) (ok resp) w
            (ap (λ k. add_tokens k resp.usage) t)

  finish-Accounts :
      (snapshot : Bytes) (messages : List Message) (tokens : ℤ) (trace : List TraceStep)
      (s : Recorded W) (n : ℕ) (r : Result RcaResult)
      → tokens ≡ tokens_of s.0
      → Accounts s.0 (suc n) (finish spy snapshot messages tokens trace s r)
  finish-Accounts snapshot messages tokens trace s n (ok rca) t = record {
    calls = omega arith;
    tokens = t;
  }
  finish-Accounts snapshot messages tokens trace s n (err e) t =
      repaired-Accounts snapshot messages tokens trace e s n t

  message-Accounts :
      (rest : Rest spy) (snapshot : Bytes) (messages : List Message) (tokens : ℤ)
      (trace : List TraceStep) (s : Recorded W) (n : ℕ) (msg : Message)
      → Accounted n rest
      → tokens ≡ tokens_of s.0
      → Accounts s.0 (suc n) (after_message spy rest snapshot messages tokens trace s msg)
  message-Accounts rest snapshot messages tokens trace s n msg go t =
      elim (Bool-cases (is_empty msg.tool_calls)) [
        | inl last ↦
            rw last
              (finish-Accounts snapshot messages tokens trace s n (parse_rca spy msg.content) t)
        | inr calls ↦ rw calls (
            subst
              (λ log. Accounts log (suc n) (
                rest (run_tools spy msg.tool_calls trace messages s).0.1 tokens
                  (run_tools spy msg.tool_calls trace messages s).0.0
                  (run_tools spy msg.tool_calls trace messages s).1))
              (log-run_tools msg.tool_calls trace messages s)
              (go _ tokens _ (run_tools spy msg.tool_calls trace messages s).1
                (t ∙ ap tokens_of (sym (log-run_tools msg.tool_calls trace messages s)))))
      ]

  complete-Accounts :
      (rest : Rest spy) (snapshot : Bytes) (messages : List Message) (tokens : ℤ)
      (trace : List TraceStep) (s : Recorded W) (n : ℕ) (answer : Result Response) (w : W)
      → Accounted n rest
      → tokens ≡ tokens_of s.0
      → Accounts s.0
          (suc (suc n))
          (after_complete spy rest snapshot messages tokens trace (answer, (answer ∷ s.0, w)))
  complete-Accounts rest snapshot messages tokens trace s n (err e) w go t = record {
    calls = omega arith;
    tokens = t;
  }
  complete-Accounts rest snapshot messages tokens trace s n (ok resp) w go t = first resp.choices
    where
      first :
          (choices : List Choice)
          → Accounts s.0 (suc (suc n)) (
              after_choices spy rest snapshot messages
                (add_tokens tokens resp.usage)
                trace
                (ok resp ∷ s.0, w)
                choices)
      first [] = record { calls = omega arith; tokens = ap (λ k. add_tokens k resp.usage) t }
      first (c ∷ others) =
          let later =
            message-Accounts rest snapshot (messages ++ c.message ∷ [])
              (add_tokens tokens resp.usage) trace (ok resp ∷ s.0, w) n c.message go
              (ap (λ k. add_tokens k resp.usage) t) in
          record { calls = omega (arith, later.calls); tokens = later.tokens }

  loop-Accounted : (n : ℕ) (snapshot : Bytes) → Accounted n (loop spy n snapshot)
  unfolding loop
  loop-Accounted zero snapshot messages tokens trace s t = record {
    calls = omega arith;
    tokens = t;
  }
  loop-Accounted (suc n) snapshot messages tokens trace s t =
      complete-Accounts (loop spy n snapshot) snapshot messages tokens trace s n
        (a.provider.complete (round_request spy messages) s.1).0
        (a.provider.complete (round_request spy messages) s.1).1 (loop-Accounted n snapshot) t

  run-Accounts :
      (snapshot : Bytes) (w : W)
      → Accounts [] (suc (effective_max_iter a.max_iter)) (run spy snapshot ([], w))
  unfolding run
  run-Accounts snapshot w =
      loop-Accounted (effective_max_iter a.max_iter) snapshot (first_messages spy snapshot)
        (ℤ.pos 0) [] ([], w) refl

-- A run calls the model at most once more than it has rounds (the repair turn).
pub calls_bounded :
    {W : Type 0} (a : DiagnosisAgent W) (snapshot : Bytes) (w : W)
    → length (run (recording a) snapshot ([], w)).1.0 ≤ suc (effective_max_iter a.max_iter)
calls_bounded a snapshot w = omega (arith, (run-Accounts a snapshot w).calls)

-- The tokens that a run reports are those of all the answers that it was given, the repair turn and
-- the answers before a failure included.
pub tokens_accounted :
    {W : Type 0} (a : DiagnosisAgent W) (snapshot : Bytes) (w : W)
    → (run (recording a) snapshot ([], w)).0.tokens_used
      ≡ tokens_of (run (recording a) snapshot ([], w)).1.0
tokens_accounted a snapshot w = (run-Accounts a snapshot w).tokens
