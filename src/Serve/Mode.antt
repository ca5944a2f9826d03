-- ===== src/Serve/Mode.antt =====
-- modeHas of internal/server/server.go: whether the server's mode, a list of names with commas, has
-- one. The loop runs over the positions at which the name can stand.
use kalua.Prelude.{
  ◌<◌, ◌≤◌, ◌∙◌, ap, inl, inr, Bool-cases, arith, ◌↔◌, ℕ, suc, zero, ◌+◌, ◌-◌, ◌≡◌, refl, Bool,
  true, false, ◌&&◌, ◌||◌, Option, none, some, ◌==◌, length, take, drop, get_elem?, nat_eq,
}
use kalua.Prelude.Text.{Text, bytes, text_beq}

abbrev is_comma : Option ℕ → Bool
is_comma none = false
is_comma (some c) = c == b','

-- `mode[i:i+len(m)] == m`, with its boundaries
unfoldable pub stands_at : Text → Text → ℕ → Bool
stands_at mode m i =
    text_beq (take (length m) (drop i mode)) m
    && ((i == 0 || is_comma (get_elem? mode (i - 1)))
        && (i + length m == length mode || is_comma (get_elem? mode (i + length m))))

unfoldable pub mode_loop : ℕ → Text → Text → ℕ → Bool
unfolding stands_at
mode_loop zero mode m i = false
mode_loop (suc n) mode m i = stands_at mode m i || mode_loop n mode m (i + 1)

unfoldable pub mode_has : Text → Text → Bool
unfolding mode_loop
mode_has mode m = mode_loop (suc (length mode) - length m) mode m 0

mode_loop-finds :
    (n : ℕ) (mode m : Text) (i : ℕ)
    → mode_loop n mode m i ≡ true
    → (k : ℕ) × (k < n) × (stands_at mode m (i + k) ≡ true)
unfolding mode_loop
mode_loop-finds zero mode m i h = absurd (ground (arith, h))
mode_loop-finds (suc n) mode m i h = elim (Bool-cases (stands_at mode m i)) [
  | inl p ↦ (0, omega arith, ap (stands_at mode m) (omega arith) ∙ p)
  | inr p ↦
      let (k, l, q) = mode_loop-finds n mode m (i + 1) (ground (arith, h, p)) in
      (k + 1, omega (arith, l), ap (stands_at mode m) (omega arith) ∙ q)
]

mode_loop-found :
    (n : ℕ) (mode m : Text) (i k : ℕ)
    → k < n
    → stands_at mode m (i + k) ≡ true
    → mode_loop n mode m i ≡ true
unfolding mode_loop
mode_loop-found zero mode m i k l h = absurd (omega (arith, l))
mode_loop-found (suc n) mode m i zero l h =
    let here : stands_at mode m i ≡ true = ap (stands_at mode m) (omega arith) ∙ h in
    ground (arith, here)
mode_loop-found (suc n) mode m i (suc k) l h = ground (
  arith,
  mode_loop-found n mode m (i + 1) k (omega (arith, l)) (ap (stands_at mode m) (omega arith) ∙ h),
)

-- The mode has a name exactly if the name stands in it at some position that leaves room for it,
-- after the start or a comma, and before the end or a comma.
pub mode_has_iff :
    (mode m : Text)
    → (mode_has mode m ≡ true)
      ↔ ((i : ℕ) × (i + length m ≤ length mode) × (stands_at mode m i ≡ true))
unfolding mode_has
mode_has_iff mode m =
    let n = suc (length mode) - length m in
    (
      λ h.
          let (k, l, q) = mode_loop-finds n mode m 0 h in
          (k, omega (arith, l), ap (stands_at mode m) (omega arith) ∙ q),
      λ w.
          mode_loop-found n mode m 0 w.0 (omega (arith, w.1))
            (ap (stands_at mode m) (omega arith) ∙ w.2),
    )

has_ws : mode_has (bytes "http,ws") (bytes "ws") ≡ true
unfolding mode_has
has_ws = refl

has_no_s : mode_has (bytes "https,ws") (bytes "http") ≡ false
unfolding mode_has
has_no_s = refl
