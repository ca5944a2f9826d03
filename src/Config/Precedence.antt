-- ===== src/Config/Precedence.antt =====
-- Which Sets ApplyFlags makes, and in which order.
use kalua.Prelude.{
  ◌≡◌, refl, sym, ap, ◌∙◌, Bool, true, false, Option, none, some, List, [], ◌∷◌, ◌++◌, map,
  if◌then◌else◌, Bool-cases, Option-cases, inl, inr,
}
use kalua.Prelude.Text.{Text, text_eq}
use kalua.Prelude.Dict.{Dict, lookup, lookup-nil}
use kalua.Config.{File, norm, or_nil, values}
use kalua.Config.Flags.{
  Flag, FlagError, given, skipped, key_values, flag_values, set_all, apply_flag, visit_all,
  apply_section, apply_flags, after_set, next_flag,
}

-- The values that the file has for the keys, one key after the other.
unfoldable pub file_values : File → Text → List Text → List Text
file_values f section [] = []
file_values f section (k ∷ keys) = values f section k ++ file_values f section keys

key_values-file :
    (f : File) (section : Text) (keys : List Text)
    → key_values (or_nil (lookup (norm section) f.sections)) keys ≡ file_values f section keys
unfolding key_values file_values values
key_values-file f section [] = refl
key_values-file f section (k ∷ keys) =
    ap (λ r. values f section k ++ r) (key_values-file f section keys)

-- What the file has for the flags: the text for each Set, in the order of the flags, of a flag's name
-- before its aliases, and of the file.
pub assignments : File → Text → Dict Text (List Text) → List Flag → List (Text × Text)
unfolding file_values
assignments f section aliases [] = []
assignments f section aliases (fl ∷ fls) =
    (if skipped fl
      then []
      else map (λ v. (fl.name, given fl.is_bool v))
          (file_values f section (fl.name ∷ or_nil (lookup fl.name aliases))))
    ++ assignments f section aliases fls

key_values-nil : (keys : List Text) → key_values [] keys ≡ []
unfolding key_values
key_values-nil [] = refl
key_values-nil (k ∷ keys) =
    rw (lookup-nil {K = Text} {V = List Text} (norm k)) (key_values-nil keys)

module _ {ℓ} {M : Type ℓ} (put : Text → Text → M → M × Bool) where
  -- The Sets one after the other, up to the first that refuses its text.
  unfoldable pub set_in_turn : List (Text × Text) → M → M × Option FlagError
  unfolding after_set
  set_in_turn [] m = (m, none)
  set_in_turn ((name, text) ∷ as_) m = after_set put name text (put name text m) (set_in_turn as_)

  after_set-ap :
      (name text : Text) (r : M × Bool) (f g : M → M × Option FlagError)
      → ((m : M) → f m ≡ g m)
      → after_set put name text r f ≡ after_set put name text r g
  unfolding after_set
  after_set-ap name text (m, true) f g e = e m
  after_set-ap name text (m, false) f g e = refl

  next_flag-ap :
      (r : M × Option FlagError) (f g : M → M × Option FlagError)
      → ((m : M) → f m ≡ g m)
      → next_flag put r f ≡ next_flag put r g
  unfolding next_flag
  next_flag-ap (m, none) f g e = e m
  next_flag-ap (m, some x) f g e = refl

  next_flag-after_set :
      (name text : Text) (r : M × Bool) (f g : M → M × Option FlagError)
      → next_flag put (after_set put name text r f) g
        ≡ after_set put name text r (λ m. next_flag put (f m) g)
  unfolding next_flag after_set
  next_flag-after_set name text (m, true) f g = refl
  next_flag-after_set name text (m, false) f g = refl

  set_in_turn-append :
      (as_ bs : List (Text × Text)) (m : M)
      → set_in_turn (as_ ++ bs) m ≡ next_flag put (set_in_turn as_ m) (set_in_turn bs)
  unfolding set_in_turn next_flag
  set_in_turn-append [] bs m = refl
  set_in_turn-append ((name, text) ∷ as_) bs m =
      after_set-ap name text (put name text m) (set_in_turn (as_ ++ bs))
        (λ t. next_flag put (set_in_turn as_ t) (set_in_turn bs)) (set_in_turn-append as_ bs)
      ∙ sym (next_flag-after_set name text (put name text m) (set_in_turn as_) (set_in_turn bs))

  set_all-turns :
      (fl : Flag) (vs : List Text) (m : M)
      → set_all put fl vs m ≡ set_in_turn (map (λ v. (fl.name, given fl.is_bool v)) vs) m
  unfolding set_all set_in_turn
  set_all-turns fl [] m = refl
  set_all-turns fl (v ∷ vs) m =
      after_set-ap fl.name (given fl.is_bool v) (put fl.name (given fl.is_bool v) m)
        (set_all put fl vs) (set_in_turn (map (λ v. (fl.name, given fl.is_bool v)) vs))
        (set_all-turns fl vs)

  apply_flag-turns :
      (f : File) (section : Text) (aliases : Dict Text (List Text)) (fl : Flag) (m : M)
      → apply_flag put aliases (or_nil (lookup (norm section) f.sections)) fl m
        ≡ set_in_turn
            (if skipped fl
              then []
              else map
                  (λ v. (fl.name, given fl.is_bool v))
                  (file_values f section (fl.name ∷ or_nil (lookup fl.name aliases))))
            m
  unfolding apply_flag flag_values set_in_turn
  apply_flag-turns f section aliases fl m = elim (Bool-cases (skipped fl)) [
    | inl p ↦ rw p refl
    | inr p ↦
        rw (p, key_values-file f section (fl.name ∷ or_nil (lookup fl.name aliases)))
          (set_all-turns fl (file_values f section (fl.name ∷ or_nil (lookup fl.name aliases))) m)
  ]

  visit_all-turns :
      (f : File) (section : Text) (aliases : Dict Text (List Text)) (fls : List Flag) (m : M)
      → visit_all put aliases (or_nil (lookup (norm section) f.sections)) fls m
        ≡ set_in_turn (assignments f section aliases fls) m
  unfolding visit_all assignments set_in_turn
  visit_all-turns f section aliases [] m = refl
  visit_all-turns f section aliases (fl ∷ fls) m =
      next_flag-ap (apply_flag put aliases (or_nil (lookup (norm section) f.sections)) fl m) _
        (set_in_turn (assignments f section aliases fls)) (visit_all-turns f section aliases fls)
      ∙ ap (λ r. next_flag put r (set_in_turn (assignments f section aliases fls)))
          (apply_flag-turns f section aliases fl m)
      ∙ sym (set_in_turn-append _ (assignments f section aliases fls) m)

  -- A section that is absent has no values.
  apply_flag-nil :
      (aliases : Dict Text (List Text)) (fl : Flag) (m : M)
      → apply_flag put aliases [] fl m ≡ (m, none)
  unfolding apply_flag flag_values set_all
  apply_flag-nil aliases fl m = elim (Bool-cases (skipped fl)) [
    | inl p ↦ rw p refl
    | inr p ↦ rw (p, key_values-nil (fl.name ∷ or_nil (lookup fl.name aliases))) refl
  ]

  visit_all-nil :
      (aliases : Dict Text (List Text)) (fls : List Flag) (m : M)
      → visit_all put aliases [] fls m ≡ (m, none)
  unfolding visit_all next_flag
  visit_all-nil aliases [] m = refl
  visit_all-nil aliases (fl ∷ fls) m =
      ap (λ r. next_flag put r (visit_all put aliases [] fls)) (apply_flag-nil aliases fl m)
      ∙ visit_all-nil aliases fls m

  pub apply_flags-turns :
      (f : File) (section : Text) (aliases : Dict Text (List Text)) (fls : List Flag) (m : M)
      → apply_flags put f section aliases fls m ≡ set_in_turn (assignments f section aliases fls) m
  unfolding apply_flags
  apply_flags-turns f section aliases fls m =
      elim (Option-cases (lookup (norm section) f.sections)) [
        | inl e ↦
            ap (λ o. apply_section put aliases o fls m) e
            ∙ sym (visit_all-nil aliases fls m)
            ∙ ap (λ o. visit_all put aliases (or_nil o) fls m) (sym e)
            ∙ visit_all-turns f section aliases fls m
        | inr (sec, e) ↦
            ap (λ o. apply_section put aliases o fls m) e
            ∙ ap (λ o. visit_all put aliases (or_nil o) fls m) (sym e)
            ∙ visit_all-turns f section aliases fls m
      ]
