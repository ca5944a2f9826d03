-- ===== src/Klog/Truncate/Bounds.antt =====
-- How long a truncated message is, and where it is cut.
use kalua.Prelude.{
  ℕ, zero, suc, ◌+◌, ◌-◌, ◌≤◌, ◌<◌, ◌≡◌, refl, ◌⊎◌, inl, inr, false, ◌++◌, arith, length,
  length-append, length-take, take, leb, min, Bool-cases,
}
use kalua.Prelude.Int.{pos}
use kalua.Prelude.Text.{Text}
use kalua.Klog.Truncate.{truncated_suffix, byte_at, rune_start, walk_back, truncate_message}

pub rune_start-le : (s : Text) (k : ℕ) → rune_start s k ≤ k
unfolding rune_start
rune_start-le s zero = omega arith
rune_start-le s (suc k) = ground (arith, rune_start-le s k)

walk_back-le : (f : ℕ) (s : Text) (keep : ℕ) → walk_back f s keep ≤ keep
unfolding walk_back
walk_back-le zero s keep = omega arith
walk_back-le (suc f) s zero = omega arith
walk_back-le (suc f) s (suc k) = elim (Bool-cases (leb 128 (byte_at s k))) [
  | inl p ↦ rw (p, walk_back) (omega (arith, walk_back-le f s (rune_start s k), rune_start-le s k))
  | inr p ↦ rw (p, walk_back) (omega arith)
]

below : (s : Text) (k : ℕ) → leb 128 (byte_at s k) ≡ false → byte_at s (suc k - 1) < 128
below s k p = let e : suc k - 1 ≡ k = omega arith in rw e (ground arith)

-- With enough fuel the loop ends at the front, or behind an ASCII byte.
walk_back-end :
    (f : ℕ) (s : Text) (keep : ℕ)
    → keep ≤ f
    → (walk_back f s keep ≡ 0) ⊎ (byte_at s (walk_back f s keep - 1) < 128)
unfolding walk_back
walk_back-end zero s keep h = inl (omega arith)
walk_back-end (suc f) s zero h = inl refl
walk_back-end (suc f) s (suc k) h = elim (Bool-cases (leb 128 (byte_at s k))) [
  | inl p ↦
      rw (p, walk_back) (walk_back-end f s (rune_start s k) (omega (arith, rune_start-le s k)))
  | inr p ↦ rw (p, walk_back) (inr (below s k p))
]

-- The message of a positive cap.
pub length-truncated :
    (s : Text) (max : ℕ)
    → length truncated_suffix < max
    → max < length s
    → truncate_message s (pos max) ≡ take (walk_back (max - 14) s (max - 14)) s ++ truncated_suffix
unfolding truncate_message
length-truncated s zero h k = absurd (omega arith)
length-truncated s (suc m) h k =
    let e : min (suc m - 14) (length s) ≡ suc m - 14 = omega arith in ground (arith, e)

-- A message is never longer than a positive cap.
pub length-truncate_message :
    (s : Text) (max : ℕ) → 0 < max → length (truncate_message s (pos max)) ≤ max
unfolding truncate_message
length-truncate_message s zero h = absurd (omega arith)
length-truncate_message s (suc m) h = ground (
  arith,
  length-append (take (walk_back (min (suc m - 14) (length s)) s (min (suc m - 14) (length s))) s)
      truncated_suffix,
  length-take (walk_back (min (suc m - 14) (length s)) s (min (suc m - 14) (length s))) s,
  walk_back-le (min (suc m - 14) (length s)) s (min (suc m - 14) (length s)),
  length-take (suc m) truncated_suffix,
)

-- A message that is longer than its cap, where the cap is more than the suffix, becomes a part of its
-- front, which is empty or ends with an ASCII byte, and the suffix.
pub truncate_message_cut :
    (s : Text) (max : ℕ)
    → length truncated_suffix < max
    → max < length s
    → (cut : ℕ) × (truncate_message s (pos max) ≡ take cut s ++ truncated_suffix)
      × (cut + length truncated_suffix ≤ max)
      × ((cut ≡ 0) ⊎ (byte_at s (cut - 1) < 128))
truncate_message_cut s max h k = (
  walk_back (max - 14) s (max - 14),
  length-truncated s max h k,
  omega (arith, walk_back-le (max - 14) s (max - 14)),
  walk_back-end (max - 14) s (max - 14) (omega arith),
)
