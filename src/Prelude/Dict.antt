-- ===== src/Prelude/Dict.antt =====
-- Go's maps, as association lists with one entry for each key. The order of the entries is the order
-- of the first insertions; Go promises none, and no statement speaks of it.
use mathlib.Core.Path.{◌≡◌, refl}
use mathlib.Core.List.{List, [], ◌∷◌}
use mathlib.Core.Option.{Option, none, some}
use native.Mathlib.Omega.{arith}
use kalua.Prelude.Tests.{Eq, if◌then◌else◌}

abbrev pub Dict {ℓ} : Type ℓ → Type ℓ → Type ℓ
Dict K V = List (K × V)

-- What one map does not hold is looked up in another.
abbrev pub or_else {ℓ} : {V : Type ℓ} → Option V → Option V → Option V
or_else none o = o
or_else (some v) o = some v

module _ {ℓ} {K V : Type ℓ} ⦃e : Eq K⦄ where
  -- m[k] with its second result
  unfoldable pub lookup : K → Dict K V → Option V
  lookup k [] = none
  lookup k ((j, v) ∷ m) = if e.beq j k then some v else lookup k m

  -- m[k] = v
  unfoldable pub insert : K → V → Dict K V → Dict K V
  insert k v [] = (k, v) ∷ []
  insert k v ((j, w) ∷ m) = if e.beq j k then (j, v) ∷ m else (j, w) ∷ insert k v m

  -- delete(m, k)
  unfoldable pub remove : K → Dict K V → Dict K V
  remove k [] = []
  remove k ((j, w) ∷ m) = let rest = remove k m in if e.beq j k then rest else (j, w) ∷ rest

  pub lookup-insert :
      (k j : K) (v : V) (m : Dict K V)
      → lookup j (insert k v m) ≡ (if e.beq k j then some v else lookup j m)
  unfolding lookup insert
  lookup-insert k j v [] = refl
  lookup-insert k j v ((i, w) ∷ m) =
      ground (arith, e.beq_iff k j, e.beq_iff i k, e.beq_iff i j, lookup-insert k j v m)

  pub lookup-remove :
      (k j : K) (m : Dict K V) → lookup j (remove k m) ≡ (if e.beq k j then none else lookup j m)
  unfolding lookup remove
  lookup-remove k j [] = ground arith
  lookup-remove k j ((i, w) ∷ m) =
      ground (arith, e.beq_iff k j, e.beq_iff i k, e.beq_iff i j, lookup-remove k j m)

  -- for k, v := range from { m[k] = v }; the order of a range is not specified.
  unfoldable pub insert_all : Dict K V → Dict K V → Dict K V
  insert_all [] m = m
  insert_all ((k, v) ∷ from) m = insert k v (insert_all from m)

  pub lookup-insert_all :
      (k : K) (from m : Dict K V)
      → lookup k (insert_all from m) ≡ or_else (lookup k from) (lookup k m)
  unfolding lookup insert_all
  lookup-insert_all k [] m = refl
  lookup-insert_all k ((j, v) ∷ from) m =
      ground (arith, lookup-insert j k v (insert_all from m), lookup-insert_all k from m)

  pub lookup-nil : (k : K) → lookup k [] ≡ none
  unfolding lookup
  lookup-nil k = refl
