-- ===== src/Mqtt/Tests.antt =====
-- Runs of the MQTT code, and the theorems at inputs that meet their hypotheses.
use kalua.Prelude.{◌≡◌, refl, ◌↔◌, ◌⊎◌, true, false, none, some, List, [], ◌∷◌, ◌++◌}
use kalua.Prelude.Text.{Text, bytes}
use kalua.Prelude.Split.{split, contains}
use kalua.Mqtt.{
  Handler, Lua, Outcome, failed, check_levels, validate_mqtt_pattern, match_levels,
  mqtt_topic_match, dispatch_mqtt, hash_not_final,
}
use kalua.Mqtt.Levels.{
  Matches, same_level, both_end, mqtt_topic_match-Matches, mqtt_topic_match-IsMatch, IsMatch,
  starts_with_dollar, starts_with_wildcard,
}
use kalua.Mqtt.Dispatch.{receives, passes, no_handlers, AreAccepted, AreRun, dispatch_mqtt-AreRun}

abbrev sport : Text
sport = bytes "sport/+/#"

abbrev news : Text
news = bytes "news"

abbrev tennis : Text
tennis = bytes "sport/tennis/one/score"

sport_accepted : validate_mqtt_pattern sport ≡ none
unfolding validate_mqtt_pattern check_levels split contains
sport_accepted = refl

hash_first : validate_mqtt_pattern (bytes "a/#/b") ≡ some hash_not_final
unfolding validate_mqtt_pattern check_levels split contains
hash_first = refl

tennis_matches : mqtt_topic_match sport tennis ≡ true
unfolding mqtt_topic_match match_levels split
tennis_matches = refl

-- `#` also stands for no level.
parent_matches : mqtt_topic_match (bytes "sport/#") (bytes "sport") ≡ true
unfolding mqtt_topic_match match_levels split
parent_matches = refl

empty_level : mqtt_topic_match (bytes "+/b") (bytes "/b") ≡ true
unfolding mqtt_topic_match match_levels split
empty_level = refl

mqtt_topic_match-IsMatch_example : (mqtt_topic_match sport tennis ≡ true) ↔ (
    IsMatch sport tennis
    ⊎ ((starts_with_dollar tennis ≡ true)
        × (starts_with_wildcard (split b'/' sport) ≡ true)
        × Matches (split b'/' sport) (split b'/' tennis)))
mqtt_topic_match-IsMatch_example = mqtt_topic_match-IsMatch sport tennis sport_accepted

-- `#` matches a topic of the broker.
system_matches : mqtt_topic_match (bytes "#") (bytes "$SYS/x") ≡ true
unfolding mqtt_topic_match match_levels split
system_matches = refl

-- A shared subscription has no rule of its own.
shared_prefix : mqtt_topic_match (bytes "$share/g/news") news ≡ false
unfolding mqtt_topic_match match_levels split
shared_prefix = refl

-- An interpreter that keeps the names of the functions it ran; `bad` fails.
record_call : List Text → Text → Text → Text → List Text × Outcome
record_call s fn topic payload = (s ++ (fn ∷ []), failed (bytes "no"))

abbrev recorder : Lua (List Text)
recorder = record {
  is_function = λ s fn. true;
  resume = record_call;
  fire_error = λ s e. s ++ (e ∷ []);
  quote = λ t. bytes "'" ++ (t ++ bytes "'");
}

abbrev sport_handler : Handler
sport_handler = record { pattern = sport; fn = bytes "f" }

abbrev news_handler : Handler
news_handler = record { pattern = bytes "news"; fn = bytes "g" }

abbrev two : List Handler
two = sport_handler ∷ news_handler ∷ []

no_match : mqtt_topic_match sport news ≡ false
unfolding mqtt_topic_match match_levels split
no_match = refl

no_news : Matches (split b'/' sport) (split b'/' news) → ⊥
no_news m = cc (no_match, (mqtt_topic_match-Matches sport news sport_accepted).1 m)

news_alone : Matches (split b'/' news) (split b'/' news)
unfolding split
news_alone = same_level [] [] news both_end

two_accepted : AreAccepted two
unfolding validate_mqtt_pattern check_levels split contains
two_accepted = (refl, (refl, tt))

dispatch_mqtt-AreRun_example :
    AreRun recorder news
      (bytes "p")
      []
      (bytes "g" ∷ [])
      (dispatch_mqtt recorder two news (bytes "p") [])
dispatch_mqtt-AreRun_example =
    dispatch_mqtt-AreRun recorder news (bytes "p") two [] (bytes "g" ∷ []) two_accepted
      (passes sport_handler _ _ no_news (receives news_handler _ _ news_alone no_handlers))
