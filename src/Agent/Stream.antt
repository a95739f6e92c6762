-- ===== src/Agent/Stream.antt =====
-- internal/agent/llm.go: streaming, and its fallback for a provider without it.
--
-- A streaming provider calls `on_delta` some finite number of times and sees each of its errors: that
-- is a tree of `Calls`. The function `on_delta` acts on a state `V` of its caller.
use kscribe.Prelude.{Bytes, List, Option, [], none, some, ◌∷◌}
use kscribe.Errors.{Error, Result, ok, err}
use kscribe.Agent.Schema.{Request, Response, Choice, Provider}

pub data Calls (W : Type 0) : Type 0 where
  finished : Result Response × W → Calls W
  delta : Bytes → (Option Error → Calls W) → Calls W

-- A Provider, or a StreamingProvider.
pub data AnyProvider (W : Type 0) : Type 0 where
  plain : Provider W → AnyProvider W
  streaming : (Request → W → Calls W) → AnyProvider W

module _ {V W : Type 0} (on_delta : Bytes → V → Option Error × V) where
  unfoldable pub run_calls : Calls W → V → Result Response × V × W
  run_calls (finished (answer, w)) v = (answer, v, w)
  run_calls (delta text next) v = let (e, v') = on_delta text v in run_calls (next e) v'

  abbrev pub after_delta : Response → W → Option Error × V → Result Response × V × W
  after_delta resp w (none, v) = (ok resp, v, w)
  after_delta resp w (some e, v) = (err e, v, w)

  abbrev pub deliver_choice : Response → V → W → List Choice → Result Response × V × W
  deliver_choice resp v w [] = (ok resp, v, w)
  deliver_choice resp v w (c ∷ rest) = after_delta resp w (on_delta c.message.content v)

  abbrev pub after_complete : V → Result Response × W → Result Response × V × W
  after_complete v (err e, w) = (err e, v, w)
  after_complete v (ok resp, w) = deliver_choice resp v w resp.choices

  unfoldable pub stream_or_complete : AnyProvider W → Request → V → W → Result Response × V × W
  stream_or_complete (streaming stream) req v w = run_calls (stream req w) v
  stream_or_complete (plain p) req v w = after_complete v (p.complete req w)
