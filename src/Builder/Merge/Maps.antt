-- ===== src/Builder/Merge/Maps.antt =====
-- What a merge does to the maps of a control: a key of the generated control wins, and every other
-- key keeps the value that the base had.
use kalua.Prelude.{◌≡◌, refl, [], ◌∷◌, arith, if◌then◌else◌}
use kalua.Prelude.Text.{Text, text_eq, is_empty}
use kalua.Prelude.Dict.{Dict, lookup, insert_all, lookup-insert_all, lookup-nil, or_else}
use kalua.Builder.Model.{Control}
use kalua.Builder.Merge.{merge_strings, merge_control}

lookup-insert_copy :
    {A : Type 0} (k : Text) (base gen : Dict Text A)
    → lookup k (insert_all gen (insert_all base [])) ≡ or_else (lookup k gen) (lookup k base)
lookup-insert_copy k base gen = simp (lookup-insert_all, lookup-nil) (ground arith)

-- A key of the merged map has the generated value if the generated map has the key, and otherwise
-- what the base map has.
pub lookup-merge_strings :
    {A : Type 0} (k : Text) (base gen : Dict Text A)
    → lookup k (merge_strings base gen) ≡ or_else (lookup k gen) (lookup k base)
unfolding merge_strings
lookup-merge_strings k base [] = rw lookup-nil refl
lookup-merge_strings k [] (g ∷ gen) = rw lookup-nil (ground arith)
lookup-merge_strings k (b ∷ base) (g ∷ gen) = lookup-insert_all k (g ∷ gen) (b ∷ base)

module _ {V F : Type 0} where
  -- The control that a merge makes of two has the name of the generated one, its type unless that is
  -- empty, and each of its options and inline handlers before those of the base.
  pub merge_control_lem :
      (k : Text) (base gen : Control V F)
      → let m = merge_control base gen in
        (m.name ≡ gen.name)
        × (m.type ≡ (if is_empty gen.type then base.type else gen.type))
        × (lookup k m.opts ≡ or_else (lookup k gen.opts) (lookup k base.opts))
        × (lookup k m.inline ≡ or_else (lookup k gen.inline) (lookup k base.inline))
  unfolding merge_control
  merge_control_lem k base gen = (
    refl,
    refl,
    lookup-insert_copy k base.opts gen.opts,
    lookup-insert_copy k base.inline gen.inline,
  )
