-- ===== src/Klog/Truncate/Data.antt =====
-- Where TruncateData keeps its cap, and where it does not.
use kalua.Prelude.{
  ℕ, zero, suc, ◌+◌, ◌-◌, ◌/◌, ◌≤◌, ◌<◌, ◌≡◌, refl, ◌∙◌, ap, true, [], ◌++◌, arith, length,
  length-append, take, leb,
}
use kalua.Prelude.Int.{pos}
use kalua.Prelude.Text.{Text, bytes}
use kalua.Klog.Itoa.{itoa, length-itoa}
use kalua.Klog.Quote.{quote_json, length-quote_json}
use kalua.Klog.Truncate.{
  truncated_suffix, byte_at, rune_start, walk_back, truncate_message, data_envelope, truncate_data,
}
use kalua.Klog.Truncate.Bounds.{length-truncated, rune_start-le}

leb-true : (b : ℕ) → 128 ≤ b → leb 128 b ≡ true
leb-true b h = ground arith

walk_back-zero :
    (f : ℕ) (s : Text) (keep : ℕ)
    → ((i : ℕ) → i < keep → 128 ≤ byte_at s i)
    → keep ≤ f
    → walk_back f s keep ≡ 0
unfolding walk_back
walk_back-zero zero s keep a h = omega arith
walk_back-zero (suc f) s zero a h = refl
walk_back-zero (suc f) s (suc k) a h =
    rw (leb-true (byte_at s k) (a k (omega arith)), walk_back)
      (walk_back-zero f s (rune_start s k) (λ i p. a i (omega (arith, rune_start-le s k)))
        (omega (arith, rune_start-le s k)))

-- A message that is longer than its cap, where the cap is more than the suffix and no byte of the part
-- that could be kept is ASCII, such as a text in Chinese, becomes the suffix alone.
pub truncate_message_wide :
    (s : Text) (max : ℕ)
    → length truncated_suffix < max
    → max < length s
    → ((i : ℕ) → i < max - 14 → 128 ≤ byte_at s i)
    → truncate_message s (pos max) ≡ truncated_suffix
truncate_message_wide s max h k a =
    length-truncated s max h k
    ∙ ap (λ c. take c s ++ truncated_suffix)
        (walk_back-zero (max - 14) s (max - 14) a (omega arith))

length-data_envelope :
    (n : ℕ) (p : Text) → length (data_envelope n p) ≡ 46 + length (itoa n) + length (quote_json p)
unfolding data_envelope
length-data_envelope n p = omega (
  arith,
  length-append (itoa n) (bytes ",\"_preview\":" ++ (quote_json p ++ bytes "}")),
  length-append (quote_json p) (bytes "}"),
)

empty_envelope : length (data_envelope 0 []) ≡ 49
unfolding itoa quote_json
empty_envelope = length-data_envelope 0 []

whole : (text : Text) → truncate_message text (pos 0) ≡ text
unfolding truncate_message
whole text = refl

-- With a positive cap below the 49 bytes of the least envelope, a payload that is over the cap becomes
-- an object of 19 bytes.
pub length-truncate_data_short :
    (text : Text) (max : ℕ)
    → 0 < max
    → max < 49
    → max < length text
    → length (truncate_data text (pos max)) ≡ 19
unfolding truncate_data
length-truncate_data_short text zero h k l = absurd (omega arith)
length-truncate_data_short text (suc m) h k l = ground (arith, empty_envelope)

-- With a cap of 49 or 50 bytes, a payload that is over the cap becomes a text that is at least 49 bytes
-- longer than the payload.
pub length-truncate_data_whole :
    (text : Text) (max : ℕ)
    → 49 ≤ max
    → max ≤ 50
    → max < length text
    → length text + 49 ≤ length (truncate_data text (pos max))
unfolding truncate_data
length-truncate_data_whole text zero h k l = absurd (omega arith)
length-truncate_data_whole text (suc m) h k l =
    let no_room : (suc m - length (data_envelope 0 [])) / 2 ≡ 0 = omega (arith, empty_envelope) in
    ground (
      arith,
      no_room,
      empty_envelope,
      whole text,
      length-data_envelope (length text) text,
      length-itoa (length text),
      length-quote_json text,
    )
