-- ===== src/Mqtt/Levels.antt =====
-- Topic filters against the rules of MQTT 3.1.1, which are first stated on the levels of filter and topic.
use kalua.Prelude.{
  ◌≡◌, refl, sym, ap, ◌∙◌, ◌↔◌, ◌⊎◌, inl, inr, Bool, ◌&&◌, ◌||◌, ◌==◌, true, false, none, List, [],
  ◌∷◌, arith, Bool-cases, none-ne-some,
}
use kalua.Prelude.Text.{Text, text_beq, text_beq_iff, is_empty}
use kalua.Prelude.Split.{split, contains}
use kalua.Mqtt.{
  hash, plus, empty_filter, hash_not_whole, check_levels, validate_mqtt_pattern, match_levels,
  mqtt_topic_match,
}

-- A level of a filter that is not `#`: `+`, or a text with no wildcard in it.
abbrev pub IsPlain : Text → Type 0
IsPlain s = (s ≡ plus) ⊎ ((contains b'#' s ≡ false) × (contains b'+' s ≡ false))

-- Every level is plain, but that the last may be `#`.
pub data IsFilter : List Text → Type 0 where
  final_hash : IsFilter (hash ∷ [])
  end : IsFilter []
  level : (s : Text) (rest : List Text) → IsPlain s → IsFilter rest → IsFilter (s ∷ rest)

-- The filter matches the topic: `#` stands for any rest, `+` for any one level.
pub data Matches : List Text → List Text → Type 0 where
  any_rest : (ts : List Text) → Matches (hash ∷ []) ts
  any_level : (fs ts : List Text) (t : Text) → Matches fs ts → Matches (plus ∷ fs) (t ∷ ts)
  same_level : (fs ts : List Text) (t : Text) → Matches fs ts → Matches (t ∷ fs) (t ∷ ts)
  both_end : Matches [] []

hash_alone : (s : Text) → s ≡ hash → contains b'#' s ≡ false → ⊥
unfolding contains
hash_alone s e h = let bad : true ≡ false = ap (contains b'#') (sym e) ∙ h in cc

not_hash :
    (s : Text) (rest : List Text)
    → text_beq s hash ≡ false
    → check_levels (s ∷ rest) ≡ none
    → IsPlain s
unfolding check_levels
not_hash s rest e h = elim (Bool-cases (contains b'#' s)) [
  | inl c ↦ absurd (none-ne-some {x = hash_not_whole} (sym h ∙ rw (e, c) refl))
  | inr c ↦ elim (Bool-cases (contains b'+' s)) [
    | inl p ↦ elim (Bool-cases (text_beq s plus)) [
      | inl q ↦ inl ((text_beq_iff s plus).0 q)
      | inr q ↦ ground (arith, h, e, c, p, q)
    ]
    | inr p ↦ inr (c, p)
  ]
]

plain-ne-hash : (s : Text) → IsPlain s → text_beq s hash ≡ false
plain-ne-hash s (inl e) = rw e refl
plain-ne-hash s (inr (h, p)) = elim (Bool-cases (text_beq s hash)) [
  | inl e ↦ absurd (hash_alone s ((text_beq_iff s hash).0 e) h)
  | inr e ↦ e
]

-- What the loop does with a level that is plain.
check_levels-plain :
    (s : Text) (rest : List Text) → IsPlain s → check_levels (s ∷ rest) ≡ check_levels rest
unfolding check_levels contains
check_levels-plain s rest (inl e) = rw e refl
check_levels-plain s rest (inr (h, p)) = rw (plain-ne-hash s (inr (h, p)), h, p) refl

IsFilter-check_levels : (ss : List Text) → IsFilter ss → check_levels ss ≡ none
unfolding check_levels
IsFilter-check_levels _ final_hash = refl
IsFilter-check_levels _ end = refl
IsFilter-check_levels _ (level s rest p v) =
    check_levels-plain s rest p ∙ IsFilter-check_levels rest v

check_levels-IsFilter : (ss : List Text) → check_levels ss ≡ none → IsFilter ss
unfolding check_levels
check_levels-IsFilter [] h = end
check_levels-IsFilter (s ∷ []) h = elim (Bool-cases (text_beq s hash)) [
  | inl e ↦ rw ((text_beq_iff s hash).0 e) final_hash
  | inr e ↦ level s [] (not_hash s [] e h) end
]
check_levels-IsFilter (s ∷ t ∷ rest) h = elim (Bool-cases (text_beq s hash)) [
  | inl e ↦ ground (arith, h, e)
  | inr e ↦
      let p = not_hash s (t ∷ rest) e h in
      level s (t ∷ rest) p
        (check_levels-IsFilter (t ∷ rest) (sym (check_levels-plain s (t ∷ rest) p) ∙ h))
]

-- A filter is accepted exactly when it is not empty and its levels form a filter of MQTT.
pub validate_mqtt_pattern-IsFilter :
    (p : Text) → (validate_mqtt_pattern p ≡ none) ↔ ((is_empty p ≡ false) × IsFilter (split b'/' p))
unfolding validate_mqtt_pattern
validate_mqtt_pattern-IsFilter [] =
    (λ h. absurd (none-ne-some {x = empty_filter} (sym h)), λ h. cc h.0)
validate_mqtt_pattern-IsFilter (c ∷ p) =
    (λ h. (refl, check_levels-IsFilter _ h), λ h. IsFilter-check_levels _ h.1)

Matches-refl : (ss : List Text) → Matches ss ss
Matches-refl [] = both_end
Matches-refl (s ∷ ss) = same_level ss ss s (Matches-refl ss)

IsFilter-tail : (s : Text) (ss : List Text) → IsFilter (s ∷ ss) → IsFilter ss
IsFilter-tail _ _ final_hash = end
IsFilter-tail _ _ (level s rest p v) = v

-- A `#` has nothing behind it.
IsFilter-hash : (s : Text) (ss : List Text) → IsFilter (s ∷ ss) → text_beq s hash ≡ true → ss ≡ []
IsFilter-hash _ _ final_hash e = refl
IsFilter-hash _ _ (level s rest p v) e = cc (plain-ne-hash s p, e)

match_levels-Matches : (fs ts : List Text) → IsFilter fs → match_levels fs ts ≡ true → Matches fs ts
unfolding match_levels
match_levels-Matches [] [] v h = both_end
match_levels-Matches [] (t ∷ ts) v h = cc
match_levels-Matches (f ∷ fs) [] v h =
    rw ((text_beq_iff f hash).0 h, IsFilter-hash f fs v h) (any_rest [])
match_levels-Matches (f ∷ fs) (t ∷ ts) v h =
    let ih = match_levels-Matches fs ts (IsFilter-tail f fs v) in
    elim (Bool-cases (text_beq f hash)) [
      | inl e ↦ rw ((text_beq_iff f hash).0 e, IsFilter-hash f fs v e) (any_rest (t ∷ ts))
      | inr e ↦ elim (Bool-cases (text_beq f plus)) [
        | inl p ↦ rw ((text_beq_iff f plus).0 p) (any_level fs ts t (ih (ground (arith, h, e, p))))
        | inr p ↦ elim (Bool-cases (text_beq f t)) [
          | inl q ↦
              rw ((text_beq_iff f t).0 q) (same_level fs ts t (ih (ground (arith, h, e, p, q))))
          | inr q ↦ ground (arith, h, e, p, q)
        ]
      ]
    ]

Matches-match_levels : (fs ts : List Text) → Matches fs ts → match_levels fs ts ≡ true
unfolding match_levels
Matches-match_levels _ _ (any_rest []) = refl
Matches-match_levels _ _ (any_rest (t ∷ ts)) = refl
Matches-match_levels _ _ (any_level fs ts t m) = Matches-match_levels fs ts m
Matches-match_levels _ _ (same_level fs ts t m) =
    ground (arith, Matches-match_levels fs ts m, text_beq_iff t t)
Matches-match_levels _ _ both_end = refl

-- For a filter that is accepted, the test says exactly whether filter and topic match level by level.
pub mqtt_topic_match-Matches :
    (filter topic : Text)
    → validate_mqtt_pattern filter ≡ none
    → (mqtt_topic_match filter topic ≡ true) ↔ Matches (split b'/' filter) (split b'/' topic)
unfolding mqtt_topic_match
mqtt_topic_match-Matches filter topic v = elim (Bool-cases (text_beq filter topic)) [
  | inl e ↦
      (λ h. rw ((text_beq_iff filter topic).0 e) (Matches-refl (split b'/' topic)), λ m. rw e refl)
  | inr e ↦ rw e (
    match_levels-Matches _ _ ((validate_mqtt_pattern-IsFilter filter).0 v).1,
    Matches-match_levels _ _,
  )
]

-- Whether a topic is one of the broker's own, which begin with `$`, and whether a filter begins with a
-- wildcard.
pub starts_with_dollar : Text → Bool
starts_with_dollar [] = false
starts_with_dollar (c ∷ s) = c == b'$'

pub starts_with_wildcard : List Text → Bool
starts_with_wildcard [] = false
starts_with_wildcard (f ∷ fs) = text_beq f hash || text_beq f plus

-- MQTT 3.1.1 with its section 4.7.2: the levels match, and not by a wildcard where the topic begins with `$`.
pub IsMatch : Text → Text → Type 0
IsMatch filter topic =
    Matches (split b'/' filter) (split b'/' topic)
    × ((starts_with_dollar topic && starts_with_wildcard (split b'/' filter)) ≡ false)

-- For a filter that validateMQTTPattern accepts, mqttTopicMatch is true exactly if MQTT 3.1.1 lets the filter
-- match the topic, or if the topic begins with $, the filter begins with a wildcard, and the levels match
-- but for that: # any rest, + any one level, and any other level itself.
pub mqtt_topic_match-IsMatch :
    (filter topic : Text)
    → validate_mqtt_pattern filter ≡ none
    → (mqtt_topic_match filter topic ≡ true) ↔ (
        IsMatch filter topic
        ⊎ ((starts_with_dollar topic ≡ true)
            × (starts_with_wildcard (split b'/' filter) ≡ true)
            × Matches (split b'/' filter) (split b'/' topic)))
unfolding IsMatch
mqtt_topic_match-IsMatch filter topic v =
    let iff = mqtt_topic_match-Matches filter topic v in
    (λ h. decided (iff.0 h), λ m. elim m [ inl (l, e) ↦ iff.1 l | inr (d, w, l) ↦ iff.1 l ])
  where
    decided :
        Matches (split b'/' filter) (split b'/' topic)
        → IsMatch filter topic
          ⊎ ((starts_with_dollar topic ≡ true)
              × (starts_with_wildcard (split b'/' filter) ≡ true)
              × Matches (split b'/' filter) (split b'/' topic))
    decided m = elim (Bool-cases (starts_with_dollar topic)) [
      | inl d ↦ elim (Bool-cases (starts_with_wildcard (split b'/' filter))) [
        | inl w ↦ inr (d, w, m)
        | inr w ↦ inl (m, rw (d, w) refl)
      ]
      | inr d ↦ inl (m, rw d refl)
    ]
