-- ===== src/Klog/Tests.antt =====
-- Runs of the row cap and its theorems at concrete texts.
use kalua.Prelude.{ℕ, zero, suc, ◌≤◌, ◌<◌, ◌≡◌, refl, [], ◌∷◌, ◌++◌, none, some, ◌%◌, arith, length}
use kalua.Prelude.Int.{pos}
use kalua.Prelude.Text.{Text, bytes}
use kalua.Klog.Itoa.{itoa}
use kalua.Klog.Retention.{int64_mod, parse_retention}
use kalua.Klog.Retention.RoundTrip.{days, hours, parse_retention-print_tokens}
use kalua.Klog.Truncate.{truncated_suffix, byte_at, truncate_message}
use kalua.Klog.Truncate.Bounds.{length-truncate_message}

itoa_907 : itoa 907 ≡ bytes "907"
unfolding itoa
itoa_907 = refl

-- 24 bytes.
abbrev long : Text
long = bytes "a message that is longer"

long_cut : truncate_message long (pos 20) ≡ bytes "a mess" ++ truncated_suffix
unfolding truncate_message
long_cut = refl

length-truncate_message_example : length (truncate_message long (pos 20)) ≤ 20
length-truncate_message_example = length-truncate_message long 20 (omega arith)

-- Eight times the character U+4E2D.
abbrev wide : Text
wide =
    228 ∷ 184 ∷ 173 ∷ 228 ∷ 184 ∷ 173 ∷ 228 ∷ 184 ∷ 173 ∷ 228 ∷ 184 ∷ 173 ∷ 228 ∷ 184 ∷ 173 ∷ 228
    ∷ 184 ∷ 173 ∷ 228 ∷ 184 ∷ 173 ∷ 228 ∷ 184 ∷ 173 ∷ []

wide_bytes : (i : ℕ) → i < 6 → 128 ≤ byte_at wide i
wide_bytes zero h = omega arith
wide_bytes (suc zero) h = omega arith
wide_bytes (suc (suc zero)) h = omega arith
wide_bytes (suc (suc (suc zero))) h = omega arith
wide_bytes (suc (suc (suc (suc zero)))) h = omega arith
wide_bytes (suc (suc (suc (suc (suc zero))))) h = omega arith
wide_bytes (suc (suc (suc (suc (suc (suc i)))))) h = absurd (omega arith)

-- 72 bytes.
abbrev payload : Text
payload = long ++ (long ++ long)

parse_retention-print_tokens_example :
    parse_retention (bytes "2d12h") ≡ some (216000000000000 % int64_mod)
unfolding itoa
parse_retention-print_tokens_example =
    parse_retention-print_tokens 2 days ((12, hours) ∷ []) (omega arith)

-- 110,000 days are read as a negative duration.
retention_overflows : parse_retention (bytes "110000d") ≡ some 9504000000000000000
unfolding parse_retention
retention_overflows = refl

retention_bad_unit : parse_retention (bytes "5x") ≡ none
unfolding parse_retention
retention_bad_unit = refl
