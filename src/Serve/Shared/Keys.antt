-- ===== src/Serve/Shared/Keys.antt =====
-- Which keys the shared store lists.
use kalua.Prelude.{
  ℕ, ◌≡◌, refl, Bool, true, false, ◌&&◌, ◌||◌, Option, none, some, [], ◌∷◌, ◌++◌, arith, elem, ◌↔◌,
}
use kalua.Prelude.Text.{Text, bytes, text_eq, text_beq, text_beq_iff, is_empty}
use kalua.Prelude.Dict.{Dict, lookup}
use kalua.Serve.Shared.{SharedState, keys, keys_of, match_prefix, star_prefix, has_prefix}

abbrev pub held : Option Text → Bool
held none = false
held (some v) = true

-- A pattern that Keys accepts for the key.
abbrev pub wanted : Text → Text → Bool
wanted k pattern_ = text_beq pattern_ (bytes "*") || (is_empty pattern_ || match_prefix k pattern_)

elem-keys_of :
    (k : Text) (m : Dict Text Text) (p : Text)
    → elem k (keys_of m p) ≡ (held (lookup k m) && wanted k p)
unfolding keys_of lookup elem
elem-keys_of k [] p = ground arith
elem-keys_of k ((j, v) ∷ m) p =
    ground (arith, elem-keys_of k m p, text_beq_iff k j, text_beq_iff j k)

-- the star
star_prefix-star : (p : Text) → star_prefix (p ++ bytes "*") ≡ some p
unfolding star_prefix
star_prefix-star [] = refl
star_prefix-star (c ∷ []) = refl
star_prefix-star (c ∷ d ∷ p) = rw (star_prefix-star (d ∷ p)) refl

cons_inj : {c d : ℕ} {s t : Text} → c ∷ s ≡ d ∷ t → (c ≡ d) × (s ≡ t)
cons_inj e = (cc, cc)

has_prefix_iff : (k p : Text) → (has_prefix k p ≡ true) ↔ ((t : Text) × (k ≡ p ++ t))
has_prefix_iff k [] = (λ _. (k, refl), λ _. refl)
has_prefix_iff [] (c ∷ p) = (λ e. ground arith, λ w. cc)
has_prefix_iff (d ∷ k) (c ∷ p) = (
  λ e. let (t, q) = (has_prefix_iff k p).0 (ground arith) in (t, ground arith),
  λ w. let (q, r) = cons_inj w.1 in ground (arith, q, (has_prefix_iff k p).1 (w.0, r)),
)

match_prefix-star : (k p : Text) → match_prefix k (p ++ bytes "*") ≡ has_prefix k p
unfolding match_prefix
match_prefix-star k p = ground (arith, star_prefix-star p)

wanted-star : (k p : Text) → wanted k (p ++ bytes "*") ≡ has_prefix k p
wanted-star k [] = refl
wanted-star k (c ∷ []) = ground (arith, match_prefix-star k (c ∷ []))
wanted-star k (c ∷ d ∷ p) = ground (arith, match_prefix-star k (c ∷ d ∷ p))

-- Keys of a pattern that ends in a star lists a key exactly if the store holds it and it begins with
-- what stands before the star.
pub keys_prefix :
    (s : SharedState) (k p : Text)
    → (elem k (keys s (p ++ bytes "*")) ≡ true)
      ↔ ((held (lookup k s.entries) ≡ true) × ((t : Text) × (k ≡ p ++ t)))
unfolding keys
keys_prefix s k p =
    ground (arith, elem-keys_of k s.entries (p ++ bytes "*"), wanted-star k p, has_prefix_iff k p)

-- Keys of a pattern without a star at its end lists at most the key that equals it, and lists it
-- exactly if the store holds it.
pub keys_exact :
    (s : SharedState) (k : Text) (c : ℕ) (p : Text)
    → star_prefix (c ∷ p) ≡ none
    → (elem k (keys s (c ∷ p)) ≡ true) ↔ ((held (lookup k s.entries) ≡ true) × (k ≡ c ∷ p))
unfolding keys match_prefix
keys_exact s k c p h = ground (arith, h, elem-keys_of k s.entries (c ∷ p), text_beq_iff k (c ∷ p))
