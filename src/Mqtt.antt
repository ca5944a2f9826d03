-- ===== src/Mqtt.antt =====
-- internal/bindings/mqtt.go: the topic filters of a script's MQTT handlers, the checks of the bindings
-- and the dispatch of a message. The hub, which talks to the broker, and the interpreter are
-- parameters.
pub mod Levels
pub mod Dispatch
mod Tests
use kalua.Prelude.{
  ℕ, zero, suc, ◌-◌, ◌%◌, ◌≡◌, refl, Bool, true, false, not, ◌&&◌, ◌||◌, Option, none, some, List,
  [], ◌∷◌, ◌++◌, ltb, if◌then◌else◌,
}
use kalua.Prelude.Text.{Text, bytes, text_beq, is_empty}
use kalua.Prelude.Int.{ℤ, pos, negsuc}
use kalua.Prelude.Split.{split, contains}

abbrev pub hash : Text
hash = b'#' ∷ []

abbrev pub plus : Text
plus = b'+' ∷ []

-- The errors of validateMQTTPattern.
pub data PatternError : Type 0 where
  empty_filter : PatternError
  hash_not_final : PatternError
  hash_not_whole : PatternError
  plus_not_whole : PatternError

abbrev pub is_last : List Text → Bool
is_last [] = true
is_last (s ∷ rest) = false

-- The loop over the levels.
unfoldable pub check_levels : List Text → Option PatternError
check_levels [] = none
check_levels (s ∷ rest) =
    let more = check_levels rest in
    if text_beq s hash
    then (if is_last rest then more else some hash_not_final)
    else if contains b'#' s
    then some hash_not_whole
    else if contains b'+' s && not (text_beq s plus)
    then some plus_not_whole
    else more

unfoldable pub validate_mqtt_pattern : Text → Option PatternError
unfolding check_levels split contains
validate_mqtt_pattern p = if is_empty p then some empty_filter else check_levels (split b'/' p)

-- byte(n) of a Go int
unfoldable pub to_byte : ℤ → ℕ
to_byte (pos n) = n % 256
to_byte (negsuc n) = 255 - n % 256

-- validateMQTTQoS: whether it is accepted.
unfoldable pub validate_mqtt_qos : ℕ → Bool
validate_mqtt_qos q = not (ltb 2 q)

-- The loop of mqttTopicMatch: over the levels of the filter, with the rest of the topic's levels.
unfoldable pub match_levels : List Text → List Text → Bool
match_levels [] ts = elim ts [ [] ↦ true | _ ∷ _ ↦ false ]
match_levels (f ∷ fs) [] = text_beq f hash
match_levels (f ∷ fs) (t ∷ ts) =
    let rest = match_levels fs ts in
    if text_beq f hash
    then true
    else if text_beq f plus
    then rest
    else if text_beq f t
    then rest
    else false

unfoldable pub mqtt_topic_match : Text → Text → Bool
unfolding match_levels split
mqtt_topic_match filter topic =
    if text_beq filter topic then true else match_levels (split b'/' filter) (split b'/' topic)

pub record Handler : Type 0 where
  pub pattern : Text
  pub fn : Text

-- k.mqtt_on: the handlers after it, or the error that it raises.
unfoldable pub mqtt_on : List Handler → Text → Text → List Handler × Option PatternError
unfolding validate_mqtt_pattern
mqtt_on handlers pattern fn = elim (validate_mqtt_pattern pattern) [
  | none ↦ (handlers ++ (record { pattern = pattern; fn = fn } ∷ []), none)
  | some e ↦ (handlers, some e)
]

-- What the dispatch uses of the interpreter: a global function by its name, one run of it in a fresh
-- coroutine with its error, the error hook, and what %q makes of a text. A state S is what they change.
pub data Outcome : Type 0 where
  ended : Outcome
  yielded : Outcome
  failed : Text → Outcome

pub record Lua (S : Type 0) : Type 0 where
  pub is_function : S → Text → Bool
  pub resume : S → Text → Text → Text → S × Outcome
  pub fire_error : S → Text → S
  pub quote : Text → Text

module _ {S : Type 0} (lua : Lua S) where
  unfoldable pub report : S × Outcome → S
  report (s, ended) = s
  report (s, yielded) = s
  report (s, failed e) = lua.fire_error s e

  -- The text of the error where a name is that of no function.
  abbrev pub not_found : Text → Text
  not_found fn = bytes "mqtt handler " ++ (lua.quote fn ++ bytes " not found")

  -- What is done for a handler that the message matches.
  unfoldable pub run_handler : S → Text → Text → Text → S
  unfolding report
  run_handler s fn topic payload =
      if lua.is_function s fn
      then report (lua.resume s fn topic payload)
      else lua.fire_error s (not_found fn)

  unfoldable pub dispatch_mqtt : List Handler → Text → Text → S → S
  unfolding mqtt_topic_match run_handler
  dispatch_mqtt [] topic payload s = s
  dispatch_mqtt (h ∷ handlers) topic payload s =
      dispatch_mqtt handlers topic payload
        (if not (mqtt_topic_match h.pattern topic) then s else run_handler s h.fn topic payload)

-- The checks that k.mqtt_subscribe makes before it calls the hub with the topic and the QoS.
pub data Subscribed : Type 0 where
  bad_qos : Subscribed
  call_hub : Text → ℕ → Subscribed

unfoldable pub mqtt_subscribe : Text → ℤ → Subscribed
unfolding to_byte validate_mqtt_qos
mqtt_subscribe topic qos =
    if validate_mqtt_qos (to_byte qos) then call_hub topic (to_byte qos) else bad_qos
