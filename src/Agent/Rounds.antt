-- ===== src/Agent/Rounds.antt =====
-- What a run of the agent leaves in the conversation, turn by turn, and what it returns.
use kalua.Prelude.{
  ℕ, zero, suc, ◌<◌, ◌≡◌, refl, sym, ap, ◌∙◌, ◌⊎◌, inl, inr, Option, none, some, List, [], ◌∷◌,
  ◌++◌, append_assoc, append-nil, length, Option-cases, arith,
}
use kalua.Prelude.Text.{Text, bytes}
use kalua.Agent.{
  ChatMessage, ToolCall, ToolResult, str, other, tool_content, json_marshal, marshalled, Outside,
  stream_error, turn_error, turn_bound, AgentResult, answer, failure, AgentState, Turn, returns,
  continues, error_json, assistant, tool, notify, notify_deltas, append, out_of_turns, with_system,
  next_turn, extract_tool_calls, run_call, run_calls, on_calls, on_reply, on_stream, turn,
  agent_loop, agent_run, delta, status, concat, ellipsis,
}

-- A turn that the loop goes on from: a reply with a call that cannot be read, or one with calls, each
-- with the content of its result.
pub data Round (O : Type 0) : Type 0 where
  malformed : Text → Text → Round O
  called : Text → ToolCall O × Text → List (ToolCall O × Text) → Round O

pub answers : {O : Type 0} → List (ToolCall O × Text) → List ChatMessage
answers [] = []
answers (r ∷ rs) = tool r.0.name r.1 ∷ answers rs

pub messages_of : {O : Type 0} → Round O → List ChatMessage
unfolding answers
messages_of (malformed reply e) = assistant reply ∷ tool (bytes "unknown") (error_json e) ∷ []
messages_of (called reply r rs) = assistant reply ∷ answers (r ∷ rs)

pub all_messages : {O : Type 0} → List (Round O) → List ChatMessage
unfolding messages_of
all_messages [] = []
all_messages (r ∷ rs) = messages_of r ++ all_messages rs

-- The error of the last turn that had one, whatever was called since.
pub last_error : {O : Type 0} → Option Text → List (Round O) → Option Text
last_error err [] = err
last_error err (malformed reply e ∷ rs) = last_error (some e) rs
last_error err (called reply c cs ∷ rs) = last_error err rs

pub calls_of : {O : Type 0} → List (ToolCall O × Text) → List (ToolCall O)
calls_of [] = []
calls_of (r ∷ rs) = r.0 ∷ calls_of rs

last_error-cons :
    {O : Type 0} (rd : Round O) (rs : List (Round O)) (err : Option Text)
    → last_error err (rd ∷ rs) ≡ last_error (last_error err (rd ∷ [])) rs
unfolding last_error
last_error-cons (malformed reply e) rs err = refl
last_error-cons (called reply c cs) rs err = refl

module _ {W O : Type 0} (out : Outside W O) where
  -- The model, in a world and after a conversation, replies with a text, a part at a time.
  pub Says : W → List ChatMessage → Text → W → Type 0
  Says w conv reply v =
      (ds : List Text) × (out.completion_stream w conv ≡ (v, inr ds)) × (concat ds ≡ reply)

  -- What the conversation has of a tool's result: its error in an object, a string as it is, and any other
  -- value as JSON, or nothing where there is none.
  pub IsContent : Text ⊎ ToolResult O → Text → Type 0
  IsContent (inl e) t = t ≡ bytes "{\"error\":\"" ++ (e ++ bytes "\"}")
  IsContent (inr (str s)) t = t ≡ s
  IsContent (inr (other v)) t = (out.marshal v ≡ some t) ⊎ ((out.marshal v ≡ none) × (t ≡ []))

  -- The tools are called one after the other, each in the world that the one before leaves.
  pub AreExecuted : W → List (ToolCall O × Text) → W → Type 0
  unfolding IsContent
  AreExecuted w [] u = w ≡ u
  AreExecuted w ((c, t) ∷ rs) u =
      (v : W) × (x : Text ⊎ ToolResult O) × (out.executor w c.name c.arguments ≡ (v, x))
      × IsContent x t
      × AreExecuted v rs u

  pub IsRound : W → List ChatMessage → Round O → W → Type 0
  unfolding Says AreExecuted
  IsRound w conv (malformed reply e) u =
      Says w conv reply u × (extract_tool_calls out reply ≡ inl e)
  IsRound w conv (called reply r rs) u =
      (v : W) × Says w conv reply v
      × (extract_tool_calls out reply ≡ inr (calls_of (r ∷ rs)))
      × AreExecuted v (r ∷ rs) u

  -- Rounds from one world to another, each after the conversation that the ones before it leave.
  pub AreRounds : W → List ChatMessage → List (Round O) → W → Type 0
  unfolding IsRound
  AreRounds w conv [] u = w ≡ u
  AreRounds w conv (rd ∷ rs) u =
      (v : W) × (c : List ChatMessage) × (c ≡ conv ++ messages_of rd)
      × IsRound w conv rd v
      × AreRounds v c rs u

  -- The result, with the messages behind the last round and the world at the end; w and conv are those after
  -- the last round.
  pub IsFinal :
      ℕ
      → List (Round O)
      → Option Text
      → W
      → List ChatMessage
      → AgentResult
      → List ChatMessage
      → W
      → Type 0
  unfolding Says
  IsFinal n rs err w conv (answer []) end u = (end ≡ []) × Says w conv [] u × (length rs < n)
  IsFinal n rs err w conv (answer (b ∷ s)) end u =
      (end ≡ assistant (b ∷ s) ∷ [])
      × Says w conv (b ∷ s) u
      × (extract_tool_calls out (b ∷ s) ≡ inr [])
      × (length rs < n)
  IsFinal n rs err w conv (failure (stream_error e)) end u =
      (end ≡ []) × (out.completion_stream w conv ≡ (u, inl e)) × (length rs < n)
  IsFinal n rs err w conv (failure (turn_error e)) end u =
      (end ≡ []) × (w ≡ u) × (length rs ≡ n) × (last_error err rs ≡ some e)
  IsFinal n rs err w conv (failure turn_bound) end u =
      (end ≡ []) × (w ≡ u) × (length rs ≡ n) × (last_error err rs ≡ none)

  pub HasTranscript : ℕ → W → List ChatMessage → Option Text → AgentState W × AgentResult → Type 0
  unfolding AreRounds IsFinal
  HasTranscript n w conv err (r, res) =
      (rs : List (Round O)) × (end : List ChatMessage) × (v : W) × (c : List ChatMessage) × (c
        ≡ conv ++ all_messages rs)
      × (r.conv ≡ c ++ end)
      × AreRounds w conv rs v
      × IsFinal n rs err v c res end r.world

  tool_content-IsContent : (x : Text ⊎ ToolResult O) → IsContent x (tool_content out x)
  unfolding IsContent tool_content json_marshal error_json
  tool_content-IsContent (inl e) = refl
  tool_content-IsContent (inr (str s)) = refl
  tool_content-IsContent (inr (other v)) = elim (Option-cases (out.marshal v)) [
    | inl e ↦ inr (e, rw e (unfold marshalled in refl))
    | inr (t, e) ↦ inl (rw e (unfold marshalled in refl))
  ]

  -- One call: the text that it adds, and what the executor gave.
  run_call-answer :
      (r : AgentState W) (c : ToolCall O)
      → (t : Text) × (x : Text ⊎ ToolResult O) × ((run_call out r c).conv
          ≡ r.conv ++ tool c.name t ∷ [])
        × (out.executor r.world c.name c.arguments ≡ ((run_call out r c).world, x))
        × IsContent x t
  unfolding run_call append notify
  run_call-answer r c =
      (_, _, refl, refl, tool_content-IsContent (out.executor r.world c.name c.arguments).1)

  run_calls-answers :
      (r : AgentState W) (cs : List (ToolCall O))
      → (rs : List (ToolCall O × Text)) × (calls_of rs ≡ cs)
        × ((run_calls out r cs).conv ≡ r.conv ++ answers rs)
        × AreExecuted r.world rs (run_calls out r cs).world
  unfolding run_calls answers calls_of AreExecuted
  run_calls-answers r [] = ([], refl, sym (append-nil r.conv), refl)
  run_calls-answers r (c ∷ cs) =
      let (t, x, e, f, g) = run_call-answer r c in
      let (rs, e0, e1, e2) = run_calls-answers (run_call out r c) cs in
      (
        (c, t) ∷ rs,
        ap (λ xs. c ∷ xs) e0,
        e1 ∙ ap (λ xs. xs ++ answers rs) e ∙ append_assoc r.conv (tool c.name t ∷ []) (answers rs),
        (_, x, f, g, e2),
      )

  -- What one turn does to the conversation and the world.
  GoesOn : W → List ChatMessage → Option Text → Turn W → Type 0
  unfolding IsRound IsFinal
  GoesOn w conv err (returns r res) =
      (end : List ChatMessage) × (r.conv ≡ conv ++ end)
      × ((n : ℕ) → IsFinal (suc n) [] err w conv res end r.world)
  GoesOn w conv err (continues r err2) =
      (rd : Round O) × (r.conv ≡ conv ++ messages_of rd)
      × IsRound w conv rd r.world
      × (err2 ≡ last_error err (rd ∷ []))

  on_calls-GoesOn :
      (r : AgentState W) (w : W) (conv : List ChatMessage) (err : Option Text) (b : ℕ) (s : Text)
      (x : Text ⊎ List (ToolCall O))
      → r.conv ≡ conv ++ assistant (b ∷ s) ∷ []
      → Says w conv (b ∷ s) r.world
      → extract_tool_calls out (b ∷ s) ≡ x
      → GoesOn w conv err (on_calls out r err (b ∷ s) x)
  unfolding GoesOn on_calls append notify messages_of IsRound IsFinal last_error answers calls_of
      AreExecuted
  on_calls-GoesOn r w conv err b s (inl e) h says x = (
    malformed (b ∷ s) e,
    ap (λ c. c ++ tool (bytes "unknown") (error_json e) ∷ []) h
        ∙ append_assoc conv (assistant (b ∷ s) ∷ []) _,
    (says, x),
    refl,
  )
  on_calls-GoesOn r w conv err b s (inr []) h says x =
      (assistant (b ∷ s) ∷ [], h, λ n. (refl, says, x, omega arith))
  on_calls-GoesOn r w conv err b s (inr (c ∷ cs)) h says x =
      let (t, y, e, f, g) = run_call-answer r c in
      let (rs, e0, e1, e2) = run_calls-answers (run_call out r c) cs in
      let a = assistant (b ∷ s) in
      (
        called (b ∷ s) (c, t) rs,
        e1
            ∙ ap (λ xs. xs ++ answers rs) e
            ∙ ap (λ xs. (xs ++ tool c.name t ∷ []) ++ answers rs) h
            ∙ ap (λ xs. xs ++ answers rs) (append_assoc conv (a ∷ []) (tool c.name t ∷ []))
            ∙ append_assoc conv (a ∷ tool c.name t ∷ []) (answers rs),
        (r.world, says, x ∙ ap (λ xs. inr (c ∷ xs)) (sym e0), (_, y, f, g, e2)),
        refl,
      )

  notify_deltas-conv : (r : AgentState W) (ds : List Text) → (notify_deltas r ds).conv ≡ r.conv
  unfolding notify_deltas notify
  notify_deltas-conv r [] = refl
  notify_deltas-conv r (d ∷ ds) = notify_deltas-conv (notify r (delta d)) ds

  notify_deltas-world : (r : AgentState W) (ds : List Text) → (notify_deltas r ds).world ≡ r.world
  unfolding notify_deltas notify
  notify_deltas-world r [] = refl
  notify_deltas-world r (d ∷ ds) = notify_deltas-world (notify r (delta d)) ds

  on_reply-GoesOn :
      (r : AgentState W) (w : W) (conv : List ChatMessage) (err : Option Text) (reply : Text)
      → r.conv ≡ conv
      → Says w conv reply r.world
      → GoesOn w conv err (on_reply out r err reply)
  unfolding GoesOn on_reply IsFinal append
  on_reply-GoesOn r w conv err [] h says =
      ([], h ∙ sym (append-nil conv), λ n. (refl, says, omega arith))
  on_reply-GoesOn r w conv err (b ∷ s) h says =
      on_calls-GoesOn (append r (assistant (b ∷ s))) w conv err b s (extract_tool_calls out (b ∷ s))
        (ap (λ xs. xs ++ assistant (b ∷ s) ∷ []) h) says refl

  on_stream-GoesOn :
      (r : AgentState W) (w : W) (err : Option Text) (x : Text ⊎ List Text)
      → out.completion_stream w r.conv ≡ (r.world, x)
      → GoesOn w r.conv err (on_stream out r err x)
  unfolding GoesOn on_stream IsFinal Says
  on_stream-GoesOn r w err (inl e) h = ([], sym (append-nil r.conv), λ n. (refl, h, omega arith))
  on_stream-GoesOn r w err (inr ds) h =
      on_reply-GoesOn (notify_deltas r ds) w r.conv err (concat ds) (notify_deltas-conv r ds)
        (ds, h ∙ ap (λ v. (v, inr ds)) (sym (notify_deltas-world r ds)), refl)

  turn-GoesOn : (r : AgentState W) (err : Option Text) → GoesOn r.world r.conv err (turn out r err)
  unfolding turn notify
  turn-GoesOn r err =
      let thinking = notify r (status (bytes "Thinking" ++ ellipsis)) in
      let s = out.completion_stream thinking.world thinking.conv in
      on_stream-GoesOn (record thinking { world = s.0 }) r.world err s.1 refl

  -- A round in front of the rounds that are left.
  IsFinal-suc :
      (n : ℕ) (rd : Round O) (rs : List (Round O)) (err err2 : Option Text) (w u : W)
      (conv : List ChatMessage) (res : AgentResult) (end : List ChatMessage)
      → err2 ≡ last_error err (rd ∷ [])
      → IsFinal n rs err2 w conv res end u
      → IsFinal (suc n) (rd ∷ rs) err w conv res end u
  unfolding IsFinal
  IsFinal-suc n rd rs err err2 w u conv (answer []) end e v = (v.0, v.1, omega (arith, v.2))
  IsFinal-suc n rd rs err err2 w u conv (answer (b ∷ s)) end e v =
      (v.0, v.1, v.2, omega (arith, v.3))
  IsFinal-suc n rd rs err err2 w u conv (failure (stream_error f)) end e v =
      (v.0, v.1, omega (arith, v.2))
  IsFinal-suc n rd rs err err2 w u conv (failure (turn_error f)) end e v =
      (v.0, v.1, ap suc v.2, last_error-cons rd rs err ∙ ap (λ o. last_error o rs) (sym e) ∙ v.3)
  IsFinal-suc n rd rs err err2 w u conv (failure turn_bound) end e v =
      (v.0, v.1, ap suc v.2, last_error-cons rd rs err ∙ ap (λ o. last_error o rs) (sym e) ∙ v.3)

  next_turn-HasTranscript :
      (n : ℕ) (loop : AgentState W → Option Text → AgentState W × AgentResult) (w : W)
      (conv : List ChatMessage) (err : Option Text) (t : Turn W)
      → ((r : AgentState W) (err2 : Option Text)
          → HasTranscript n r.world r.conv err2 (loop r err2))
      → GoesOn w conv err t
      → HasTranscript (suc n) w conv err (next_turn loop t)
  unfolding GoesOn HasTranscript next_turn all_messages AreRounds
  next_turn-HasTranscript n loop w conv err (returns r res) ih (end, e, f) =
      ([], end, w, conv, sym (append-nil conv), e, refl, f n)
  next_turn-HasTranscript n loop w conv err (continues r err2) ih (rd, e, v, f) =
      let (rs, end, u, c, e1, e2, vs, g) = ih r err2 in
      (
        rd ∷ rs,
        end,
        u,
        c,
        e1
            ∙ ap (λ xs. xs ++ all_messages rs) e
            ∙ append_assoc conv (messages_of rd) (all_messages rs),
        e2,
        (r.world, r.conv, e, v, vs),
        IsFinal-suc n rd rs err err2 u (loop r err2).0.world c (loop r err2).1 end f g,
      )

  out_of_turns-IsFinal :
      (err : Option Text) (w : W) (conv : List ChatMessage)
      → IsFinal zero [] err w conv (out_of_turns err) [] w
  unfolding IsFinal out_of_turns last_error
  out_of_turns-IsFinal none w conv = (refl, refl, refl, refl)
  out_of_turns-IsFinal (some e) w conv = (refl, refl, refl, refl)

  agent_loop-HasTranscript :
      (n : ℕ) (r : AgentState W) (err : Option Text)
      → HasTranscript n r.world r.conv err (agent_loop out n r err)
  unfolding HasTranscript agent_loop all_messages AreRounds
  agent_loop-HasTranscript zero r err = (
    [],
    [],
    r.world,
    r.conv,
    sym (append-nil r.conv),
    sym (append-nil r.conv),
    refl,
    out_of_turns-IsFinal err r.world r.conv,
  )
  agent_loop-HasTranscript (suc n) r err =
      next_turn-HasTranscript n (agent_loop out n) r.world r.conv err (turn out r err)
        (agent_loop-HasTranscript n) (turn-GoesOn r err)

  -- The conversation after a run is the system message, the messages that it was given, rounds, and what
  -- is behind them. Each round begins with the reply that the model gives, in the world and to the
  -- conversation at that time. Either the reply has a call that cannot be read, and the round ends with
  -- a message on that error; or it has calls, the executor runs them in their order, each in the world
  -- that the one before leaves, and the round has for each a message of the name of the tool and its
  -- result: an error in an object, a string as it is, another value as JSON. A run that returns a text
  -- or an error of the stream, which is what the model gives after the last round, has fewer rounds than
  -- the bound; the text, if it is not empty, has no call and is the last message. Any other run has as
  -- many rounds as the bound and leaves the world of the last; it returns the last error of a call that
  -- could not be read, also if later rounds had none, and the error of the bound if there never was one.
  pub agent_run-HasTranscript :
      (instruction : Text) (w : W) (system : Text) (messages : List ChatMessage) (max_turns : ℕ)
      → HasTranscript max_turns w
          (record { role = bytes "system"; name = []; content = with_system instruction system }
            ∷ messages)
          none
          (agent_run out instruction w system messages max_turns)
  unfolding agent_run with_system
  agent_run-HasTranscript instruction w system messages max_turns =
      agent_loop-HasTranscript max_turns _ none
