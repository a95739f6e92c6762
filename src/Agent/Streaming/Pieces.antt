-- ===== src/Agent/Streaming/Pieces.antt =====
-- The pieces that a stream delivers are the text that it returns, and connecting ends.
use kscribe.Prelude.{
  Bool-cases, Bytes, List, Option, String, [], arith, if◌then◌else◌, inl, inr, leb, none, not, refl,
  some, suc, zero, ℕ, ◌++◌, ◌+◌, ◌==◌, ◌||◌, ◌∷◌, ◌≡◌, ◌≤◌,
}
use kscribe.Agent.OpenAi.{OpenAiClient}
use kscribe.Agent.Schema.{Request, Response, Choice}
use kscribe.Agent.Stream.{run_calls}
use kscribe.Agent.Streaming.{
  HttpStream, Endpoint, Token, Line, ignored, done, piece, read_line, end_of, on_line, consume,
  after_connect, Connection, connected, cancelled, unfinished, connect_fuel, is_retryable,
  after_wait, connect, after_connection, stream_url, perform_built, after_marshal, complete_stream,
}
use kscribe.Errors.{Error, Result, ok, err}

-- The callback that puts the pieces behind one another.
abbrev pub collect : Bytes → Bytes → Option Error × Bytes
collect text collected = (none, collected ++ text)

abbrev pub first_content : List Choice → Bytes
first_content [] = []
first_content (c ∷ rest) = c.message.content

-- An answer whose text is what was delivered, or an error.
abbrev pub Delivered : {W : Type 0} → Result Response × Bytes × W → Type 0
Delivered (ok resp, collected, w) = first_content resp.choices ≡ collected
Delivered (err e, collected, w) = Unit

module _ {W : Type 0} where
  end_of-Delivered :
      (end : Option Error) (accumulated : Bytes) (w : W)
      → Delivered (end_of end accumulated, accumulated, w)
  end_of-Delivered none accumulated w = refl
  end_of-Delivered (some e) accumulated w = tt

  consume-Delivered :
      (chunk : Bytes → Option (List Bytes)) (tokens : List Token) (end : Option Error) (w : W)
      (accumulated : Bytes)
      → Delivered (run_calls collect (consume chunk tokens end w accumulated) accumulated)
  unfolding consume run_calls
  consume-Delivered chunk [] end w accumulated = end_of-Delivered end accumulated w
  consume-Delivered chunk ((line, reported) ∷ rest) end w accumulated =
      at_line (read_line chunk line) (consume-Delivered chunk rest end w)
    where
      at_line :
          (l : Line)
          → ((text : Bytes) → Delivered (run_calls collect (consume chunk rest end w text) text))
          → Delivered (
              run_calls collect
                (on_line (consume chunk rest end w) accumulated w reported l)
                accumulated)
      at_line ignored later = later accumulated
      at_line done later = end_of-Delivered reported accumulated w
      at_line (piece text) later = later (accumulated ++ text)

  after_connect-Delivered :
      (chunk : Bytes → Option (List Bytes)) (answer : Result HttpStream × W)
      → Delivered (run_calls collect (after_connect chunk answer) [])
  unfolding run_calls
  after_connect-Delivered chunk (err e, w) = tt
  after_connect-Delivered chunk (ok s, w) = elim (Bool-cases (leb 300 s.status)) [
    | inl refused ↦ rw refused tt
    | inr accepted ↦ rw accepted (consume-Delivered chunk _ _ w [])
  ]

module _ {W : Type 0} (endpoint : Endpoint W) (c : OpenAiClient) where
  after_connection-Delivered :
      (connection : Connection W)
      → Delivered (run_calls collect (after_connection endpoint c connection) [])
  unfolding run_calls
  after_connection-Delivered (cancelled e w) = tt
  after_connection-Delivered (unfinished w) = tt
  after_connection-Delivered (connected answer) = after_connect-Delivered endpoint.chunk answer

  perform_built-Delivered :
      (body : Bytes) (fault : Option Error) (w : W)
      → Delivered (run_calls collect (perform_built endpoint c body fault w) [])
  unfolding run_calls
  perform_built-Delivered body (some e) w = tt
  perform_built-Delivered body none w = after_connection-Delivered (
      connect endpoint (stream_url endpoint c) (if c.api_key == "" then none else some c.api_key)
        body connect_fuel 0 w)

  after_marshal-Delivered :
      (marshalled : Result Bytes) (w : W)
      → Delivered (run_calls collect (after_marshal endpoint c marshalled w) [])
  unfolding run_calls
  after_marshal-Delivered (err e) w = tt
  after_marshal-Delivered (ok body) w = perform_built-Delivered body _ w

  -- A stream that succeeds returns the pieces that it has delivered, one behind the other.
  pub stream-Delivered :
      (req : Request) (w : W) → Delivered (run_calls collect (complete_stream endpoint c req w) [])
  unfolding complete_stream
  stream-Delivered req w = after_marshal-Delivered _ w

-- The same endpoint, with a counter of the requests that it performs.
abbrev pub counting : {W : Type 0} → Endpoint W → Endpoint (ℕ × W)
counting endpoint = record {
  marshal = endpoint.marshal;
  build = endpoint.build;
  perform = λ url key body counted. (
    (endpoint.perform url key body counted.1).0,
    (suc counted.0, (endpoint.perform url key body counted.1).1),
  );
  wait = λ time counted.
      ((endpoint.wait time counted.1).0, (counted.0, (endpoint.wait time counted.1).1));
  chunk = endpoint.chunk;
}

-- the state in which connecting ends
abbrev pub end_state : {W : Type 0} → Connection W → W
end_state (connected (answer, w)) = w
end_state (cancelled e w) = w
end_state (unfinished w) = w

abbrev pub Finishes : {W : Type 0} → Connection W → Type 0
Finishes (connected answer) = Unit
Finishes (cancelled e w) = Unit
Finishes (unfinished w) = ⊥

module _ {W : Type 0} (endpoint : Endpoint W) (url : String) (key : Option String)
    (body : Bytes) where
  -- Connecting has ended, with so many requests performed at most.
  abbrev Ends : ℕ → Connection (ℕ × W) → Type 0
  Ends bound connection = Finishes connection × ((end_state connection).0 ≤ bound)

  after_wait-Ends :
      (m bound : ℕ) (fault : Option Error) (w : W) (again : ℕ × W → Connection (ℕ × W))
      → m ≤ bound
      → Ends bound (again (m, w))
      → Ends bound (after_wait (counting endpoint) url key body again (fault, (m, w)))
  after_wait-Ends m bound none w again le h = h
  after_wait-Ends m bound (some e) w again le h = (tt, le)

  connect-Ends :
      (fuel attempt n bound : ℕ) (w : W)
      → 3 ≤ fuel + attempt
      → attempt ≤ 2
      → n + 3 ≤ bound + attempt
      → Ends bound (connect (counting endpoint) url key body fuel attempt (n, w))
  unfolding connect
  connect-Ends zero attempt n bound w enough turn room = absurd (omega (arith, enough, turn))
  connect-Ends (suc fuel) attempt n bound w enough turn room =
      let answer = (endpoint.perform url key body w).0 in
      elim (Bool-cases (not (is_retryable answer) || leb 2 attempt)) [
        | inl final ↦ rw final (tt, omega (arith, turn, room))
        | inr again ↦
            let more : suc attempt ≤ 2 = ground (arith, again) in
            rw again (
              after_wait-Ends (suc n) bound _ _
                (connect (counting endpoint) url key body fuel (suc attempt))
                (omega (arith, turn, room))
                (connect-Ends fuel (suc attempt) (suc n) bound _ (omega (arith, enough)) more
                  (omega (arith, room))))
      ]

  -- The loop of attempts ends on its own, whatever the endpoint answers: with fuel for three turns, or more,
  -- it comes to an answer or a cancellation, and performs three requests at most.
  pub connect-bounded :
      (fuel n : ℕ) (w : W)
      → connect_fuel ≤ fuel
      → let connection = connect (counting endpoint) url key body fuel 0 (n, w) in
        Finishes connection × ((end_state connection).0 ≤ n + 3)
  connect-bounded fuel n w enough =
      connect-Ends fuel 0 n (n + 3) w (omega (arith, enough)) (omega arith) (omega arith)
