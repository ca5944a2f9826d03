-- ===== src/Klog/Truncate.antt =====
-- The cap on one row: TruncateMessage, dataEnvelope and TruncateData of internal/klog/klog.go.
pub mod Bounds
pub mod Data
use kalua.Prelude.{
  ℕ, zero, suc, ◌+◌, ◌-◌, ◌/◌, ◌≤◌, ◌<◌, ◌≡◌, refl, sym, ◌∙◌, ap, ◌⊎◌, inl, inr, Bool, true, false,
  ◌&&◌, Option, none, some, List, [], ◌∷◌, ◌++◌, arith, All, length, length-append, length-take,
  take, get_elem?, leb, ltb, ◌==◌, min, Bool-cases, if◌then◌else◌,
}
use kalua.Prelude.Int.{ℤ, pos, negsuc}
use kalua.Prelude.Text.{Text, bytes}
use kalua.Klog.Itoa.{itoa, length-itoa}
use kalua.Klog.Quote.{quote_json, length-quote_json}

-- TruncatedSuffix: an ellipsis (three bytes) and [truncated].
abbrev pub truncated_suffix : Text
truncated_suffix = 226 ∷ 128 ∷ 166 ∷ bytes "[truncated]"

-- s[i], read only where i is in range.
abbrev pub byte_at : Text → ℕ → ℕ
byte_at [] i = 0
byte_at (c ∷ s) zero = c
byte_at (c ∷ s) (suc i) = byte_at s i

-- `s[i]&0xC0 == 0x80` of a byte.
abbrev is_continuation : ℕ → Bool
is_continuation c = leb 128 c && ltb c 192

-- The inner loop: back from `start` over continuation bytes.
unfoldable pub rune_start : Text → ℕ → ℕ
rune_start s zero = zero
rune_start s (suc k) =
    let back = rune_start s k in if is_continuation (byte_at s (suc k)) then back else suc k

-- The outer loop. Each round makes `keep` smaller, so `keep` rounds of fuel are enough.
unfoldable pub walk_back : ℕ → Text → ℕ → ℕ
unfolding rune_start
walk_back zero s keep = keep
walk_back (suc f) s zero = zero
walk_back (suc f) s (suc k) = elim (leb 128 (byte_at s k)) [
  | true ↦ walk_back f s (rune_start s k)
  | false ↦ suc k
]

-- TruncateMessage for a positive `max`.
truncate_to : Text → ℕ → Text
unfolding walk_back
truncate_to s max =
    if leb (length s) max
    then s
    else if leb max (length truncated_suffix)
    then take max truncated_suffix
    else (let keep = min (max - length truncated_suffix) (length s) in
        take (walk_back keep s keep) s ++ truncated_suffix)

unfoldable pub truncate_message : Text → ℤ → Text
unfolding truncate_to
truncate_message s (negsuc n) = s
truncate_message s (pos zero) = s
truncate_message s (pos (suc n)) = truncate_to s (suc n)

unfoldable pub data_envelope : ℕ → Text → Text
data_envelope orig_bytes preview =
    bytes "{\"_truncated\":true,\"_orig_bytes\":"
    ++ (itoa orig_bytes ++ (bytes ",\"_preview\":" ++ (quote_json preview ++ bytes "}")))

abbrev pub minimal : Text
minimal = bytes "{\"_truncated\":true}"

-- TruncateData for a positive `max`.
truncate_data_to : Text → ℕ → Text
truncate_data_to text max =
    if leb (length text) max
    then text
    else if ltb max (length (data_envelope 0 []))
    then minimal
    else data_envelope (length text)
        (truncate_message text (pos ((max - length (data_envelope 0 [])) / 2)))

unfoldable pub truncate_data : Text → ℤ → Text
unfolding truncate_data_to
truncate_data text (negsuc n) = text
truncate_data text (pos zero) = text
truncate_data text (pos (suc n)) = truncate_data_to text (suc n)
