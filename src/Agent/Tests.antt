-- ===== src/Agent/Tests.antt =====
-- Runs against a model that counts its replies, and the theorem at one of them.
use kalua.Prelude.{ℕ, zero, suc, ◌+◌, ◌%◌, ◌≡◌, refl, ◌⊎◌, inl, inr, none, List, [], ◌∷◌}
use kalua.Prelude.Text.{Text, bytes}
use kalua.Agent.{
  ToolCall, str, Outside, answer, failure, turn_error, turn_bound, agent_run, extract_tool_calls,
  with_system, parse_error, format_args,
}
use kalua.Agent.Rounds.{HasTranscript, agent_run-HasTranscript}

-- The first reply has a call that cannot be read, the second one that can, the third has none.
abbrev replies : ℕ → Text
replies zero = bytes "x"
replies (suc zero) = bytes "f"
replies (suc (suc n)) = bytes "ok"

abbrev matches : Text → List Text
matches [] = []
matches (c ∷ []) = (c ∷ []) ∷ []
matches (c ∷ d ∷ s) = []

abbrev by_test : {A : Type 0} → ℕ → A → A → A
by_test zero a b = a
by_test (suc n) a b = b

abbrev read_call : Text → Text ⊎ ToolCall ℕ
read_call [] = inl (bytes "bad")
read_call (c ∷ s) =
    by_test (c % 10) (inl (bytes "bad")) (inr (record { name = c ∷ s; arguments = [] }))

abbrev toy : Outside ℕ ℕ
toy = record {
  completion_stream = λ w msgs. (w + 1, inr (replies w ∷ []));
  executor = λ w name args. (w, inr (str (bytes "7")));
  find_all_string = matches;
  unmarshal = read_call;
  marshal = λ v. none;
  quote = λ s. s;
  show = λ v. bytes "1";
}

answered : (agent_run toy (bytes "use tools") 0 [] [] 3).1 ≡ answer (bytes "ok")
unfolding agent_run extract_tool_calls
answered = refl

-- After the second turn the bound is reached, and the error is that of the first.
old_error :
    (agent_run toy (bytes "use tools") 0 [] [] 2).1
    ≡ failure (turn_error (parse_error toy (bytes "x") (bytes "bad")))
unfolding agent_run extract_tool_calls
old_error = refl

bound : (agent_run toy (bytes "use tools") 1 [] [] 1).1 ≡ failure turn_bound
unfolding agent_run extract_tool_calls
bound = refl

two_args : format_args toy ((bytes "id", 7) ∷ (bytes "n", 8) ∷ []) ≡ bytes "id=1, n=1"
unfolding format_args
two_args = refl

agent_run-HasTranscript_example :
    HasTranscript toy 3 0
      (record { role = bytes "system"; name = []; content = with_system (bytes "use tools") [] }
        ∷ [])
      none
      (agent_run toy (bytes "use tools") 0 [] [] 3)
agent_run-HasTranscript_example = agent_run-HasTranscript toy (bytes "use tools") 0 [] [] 3
