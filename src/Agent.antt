-- ===== src/Agent.antt =====
-- internal/ai/agent.go and tools.go: the loop in which a model calls the tools of a script. The model's
-- stream, the executor of the tools, the expression that finds the calls and JSON are fields of a
-- parameter. W is the state of the world outside, O stands for the values of JSON. A bound on the
-- turns that is negative is the same as zero.
pub mod Rounds
mod Tests
use kalua.Prelude.{
  ℕ, zero, suc, ◌≡◌, ◌⊎◌, inl, inr, Bool, true, false, Option, none, some, List, [], ◌∷◌, ◌++◌,
  ◌==◌, if◌then◌else◌,
}
use kalua.Prelude.Text.{Text, bytes, is_empty}

-- common.ChatMessage; a name that is not set is empty.
pub record ChatMessage : Type 0 where
  pub role : Text
  pub name : Text
  pub content : Text

pub record ToolCall (O : Type 0) : Type 0 where
  pub name : Text
  pub arguments : List (Text × O)

-- The result of a tool: a string, or another value.
pub data ToolResult (O : Type 0) : Type 0 where
  str : Text → ToolResult O
  other : O → ToolResult O

pub record Outside (W O : Type 0) : Type 0 where
  pub completion_stream : W → List ChatMessage → W × (Text ⊎ List Text)
  pub executor : W → Text → List (Text × O) → W × (Text ⊎ ToolResult O)
  pub find_all_string : Text → List Text
  pub unmarshal : Text → Text ⊎ ToolCall O
  pub marshal : O → Option Text
  pub quote : Text → Text
  pub show : O → Text

-- The error of the stream, the last error of a turn, or the bound on the turns.
pub data AgentError : Type 0 where
  stream_error : Text → AgentError
  turn_error : Text → AgentError
  turn_bound : AgentError

pub data AgentResult : Type 0 where
  answer : Text → AgentResult
  failure : AgentError → AgentResult

-- What the callbacks are given.
pub data Notice : Type 0 where
  delta : Text → Notice
  status : Text → Notice

-- The variables of the loop, and what the callbacks have been given, the last first.
pub record AgentState (W : Type 0) : Type 0 where
  pub world : W
  pub conv : List ChatMessage
  pub notices : List Notice

pub data Turn (W : Type 0) : Type 0 where
  returns : AgentState W → AgentResult → Turn W
  continues : AgentState W → Option Text → Turn W

abbrev pub ellipsis : Text
ellipsis = 226 ∷ 128 ∷ 166 ∷ []

unfoldable pub concat : List Text → Text
concat [] = []
concat (d ∷ ds) = d ++ concat ds

unfoldable pub error_json : Text → Text
error_json e = bytes "{\"error\":\"" ++ (e ++ bytes "\"}")

abbrev pub assistant : Text → ChatMessage
assistant reply = record { role = bytes "assistant"; name = []; content = reply }

abbrev pub tool : Text → Text → ChatMessage
tool name content = record { role = bytes "tool"; name = name; content = content }

-- strings.TrimPrefix
unfoldable pub trim_prefix : Text → Text → Text → Text
trim_prefix [] s whole = s
trim_prefix (p ∷ ps) [] whole = whole
trim_prefix (p ∷ ps) (c ∷ s) whole =
    let rest = trim_prefix ps s whole in if c == p then rest else whole

unfoldable pub marshalled : Option Text → Text
marshalled none = []
marshalled (some s) = s

-- ExtractToolCalls after one match, with what the matches behind it give.
unfoldable pub parsed :
    {O : Type 0} → Text ⊎ ToolCall O → Text ⊎ List (ToolCall O) → Text ⊎ List (ToolCall O)
parsed (inl e) rest = inl e
parsed (inr call) (inl e) = inl e
parsed (inr call) (inr calls) = inr (call ∷ calls)

unfoldable pub notify : {W : Type 0} → AgentState W → Notice → AgentState W
notify r n = record r { notices = n ∷ r.notices }

unfoldable pub notify_deltas : {W : Type 0} → AgentState W → List Text → AgentState W
unfolding notify
notify_deltas r [] = r
notify_deltas r (d ∷ ds) = notify_deltas (notify r (delta d)) ds

unfoldable pub append : {W : Type 0} → AgentState W → ChatMessage → AgentState W
append r msg = record r { conv = r.conv ++ msg ∷ [] }

-- The instruction on the tools is a parameter, since only the system text in front of it varies.
unfoldable pub with_system : Text → Text → Text
with_system instruction [] = instruction
with_system instruction (b ∷ system) = (b ∷ system) ++ (10 ∷ 10 ∷ instruction)

-- The turns are used up.
unfoldable pub out_of_turns : Option Text → AgentResult
out_of_turns none = failure turn_bound
out_of_turns (some e) = failure (turn_error e)

unfoldable pub next_turn :
    {W : Type 0}
    → (AgentState W → Option Text → AgentState W × AgentResult)
    → Turn W
    → AgentState W × AgentResult
next_turn loop (returns r res) = (r, res)
next_turn loop (continues r turn_err) = loop r turn_err

module _ {W O : Type 0} (out : Outside W O) where
  unfoldable pub json_marshal : ToolResult O → Text
  unfolding marshalled
  json_marshal (str s) = s
  json_marshal (other v) = marshalled (out.marshal v)

  -- The range over the arguments is in the order of the list.
  unfoldable pub format_args : List (Text × O) → Text
  format_args [] = []
  format_args ((k, v) ∷ []) = k ++ (bytes "=" ++ out.show v)
  format_args ((k, v) ∷ a ∷ args) =
      k ++ (bytes "=" ++ (out.show v ++ (bytes ", " ++ format_args (a ∷ args))))

  -- What Errorf makes of a match and the error of the decoder.
  unfoldable pub parse_error : Text → Text → Text
  parse_error json_part e = bytes "parse tool call " ++ (out.quote json_part ++ (bytes ": " ++ e))

  unfoldable pub parse_call : Text → Text ⊎ ToolCall O → Text ⊎ ToolCall O
  unfolding parse_error
  parse_call json_part (inl e) = inl (parse_error json_part e)
  parse_call json_part (inr call) = inr call

  -- The loop of ExtractToolCalls, for the matches that are left.
  unfoldable pub parse_calls : List Text → Text ⊎ List (ToolCall O)
  unfolding trim_prefix parse_call parsed
  parse_calls [] = inr []
  parse_calls (m ∷ ms) =
      let json_part = trim_prefix (bytes "function ") m m in
      parsed (parse_call json_part (out.unmarshal json_part)) (parse_calls ms)

  unfoldable pub extract_tool_calls : Text → Text ⊎ List (ToolCall O)
  unfolding parse_calls
  extract_tool_calls text = parse_calls (out.find_all_string text)

  unfoldable pub tool_content : Text ⊎ ToolResult O → Text
  unfolding json_marshal error_json
  tool_content (inl e) = json_marshal (str (error_json e))
  tool_content (inr v) = json_marshal v

  unfoldable pub run_call : AgentState W → ToolCall O → AgentState W
  unfolding notify append tool_content format_args
  run_call r call =
      let calling = notify r (
        status (
          bytes "Calling "
          ++ (call.name
              ++ (bytes "(" ++ (format_args call.arguments ++ (bytes ")" ++ ellipsis)))))) in
      let done = out.executor calling.world call.name call.arguments in
      append (record calling { world = done.0 }) (tool call.name (tool_content done.1))

  unfoldable pub run_calls : AgentState W → List (ToolCall O) → AgentState W
  unfolding run_call
  run_calls r [] = r
  run_calls r (c ∷ cs) = run_calls (run_call r c) cs

  unfoldable pub on_calls : AgentState W → Option Text → Text → Text ⊎ List (ToolCall O) → Turn W
  unfolding notify append error_json run_calls
  on_calls r turn_err reply (inl e) =
      continues
        (append (notify r (status (bytes "Tool error"))) (tool (bytes "unknown") (error_json e)))
        (some e)
  on_calls r turn_err reply (inr []) = returns r (answer reply)
  on_calls r turn_err reply (inr (c ∷ cs)) = continues (run_calls r (c ∷ cs)) turn_err

  unfoldable pub on_reply : AgentState W → Option Text → Text → Turn W
  unfolding append extract_tool_calls on_calls
  on_reply r turn_err [] = returns r (answer [])
  on_reply r turn_err (b ∷ s) =
      on_calls (append r (assistant (b ∷ s))) turn_err (b ∷ s) (extract_tool_calls (b ∷ s))

  unfoldable pub on_stream : AgentState W → Option Text → Text ⊎ List Text → Turn W
  unfolding notify_deltas concat on_reply
  on_stream r turn_err (inl e) = returns r (failure (stream_error e))
  on_stream r turn_err (inr deltas) = on_reply (notify_deltas r deltas) turn_err (concat deltas)

  -- The body of the loop.
  unfoldable pub turn : AgentState W → Option Text → Turn W
  unfolding notify on_stream
  turn r turn_err =
      let thinking = notify r (status (bytes "Thinking" ++ ellipsis)) in
      let s = out.completion_stream thinking.world thinking.conv in
      on_stream (record thinking { world = s.0 }) turn_err s.1

  unfoldable pub agent_loop : ℕ → AgentState W → Option Text → AgentState W × AgentResult
  unfolding turn out_of_turns next_turn
  agent_loop zero r turn_err = (r, out_of_turns turn_err)
  agent_loop (suc n) r turn_err = next_turn (agent_loop n) (turn r turn_err)

  unfoldable pub agent_run : Text → W → Text → List ChatMessage → ℕ → AgentState W × AgentResult
  unfolding agent_loop with_system
  agent_run instruction w system messages max_turns =
      let first : ChatMessage = record {
        role = bytes "system";
        name = [];
        content = with_system instruction system;
      } in
      agent_loop max_turns (record { world = w; conv = first ∷ messages; notices = [] }) none
