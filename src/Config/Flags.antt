-- ===== src/Config/Flags.antt =====
-- ApplyFlags: the values of the file for the flags that the command line does not set. The flag set is
-- the list of its flags in the order of VisitAll. Their values are in a store, of which several flags can
-- have one part, as a long and a short name do; `put` is the Set of the flag of a name, with the store
-- that it leaves and whether it takes the text. Package flag is where it comes from.
use kalua.Prelude.{Bool, true, false, ◌||◌, Option, none, some, List, [], ◌∷◌, ◌++◌, if◌then◌else◌}
use kalua.Prelude.Text.{Text, bytes, text_eq, text_beq}
use kalua.Prelude.Dict.{Dict, lookup}
use kalua.Config.{File, norm, or_nil, truthy}

pub record Flag : Type 0 where
  pub name : Text
  pub explicit : Bool
  pub is_bool : Bool

-- An error of Set, with the flag and the value that it names.
pub record FlagError : Type 0 where
  pub flag : Text
  pub text : Text

unfoldable pub format_bool : Bool → Text
format_bool true = bytes "true"
format_bool false = bytes "false"

-- What Set is given.
unfoldable pub given : Bool → Text → Text
unfolding format_bool
given true v = format_bool (truthy v)
given false v = v

unfoldable pub skipped : Flag → Bool
skipped fl = fl.explicit || (text_beq fl.name (bytes "ini") || text_beq fl.name (bytes "help"))

-- The values of all keys, one key after the other.
unfoldable pub key_values : Dict Text (List Text) → List Text → List Text
unfolding norm
key_values sec [] = []
key_values sec (k ∷ keys) = or_nil (lookup (norm k) sec) ++ key_values sec keys

-- The values for a flag: of its name and of its aliases.
unfoldable pub flag_values : Dict Text (List Text) → Dict Text (List Text) → Text → List Text
unfolding key_values
flag_values aliases sec name = key_values sec (name ∷ or_nil (lookup name aliases))

module _ {ℓ} {M : Type ℓ} (put : Text → Text → M → M × Bool) where
  -- After a Set: the loop goes on, or ends with its error.
  unfoldable pub after_set :
      Text → Text → M × Bool → (M → M × Option FlagError) → M × Option FlagError
  after_set name text (m, true) rest = rest m
  after_set name text (m, false) rest = (m, some (record { flag = name; text = text }))

  -- The loop over the values.
  unfoldable pub set_all : Flag → List Text → M → M × Option FlagError
  unfolding given after_set
  set_all fl [] m = (m, none)
  set_all fl (v ∷ vs) m =
      after_set fl.name (given fl.is_bool v) (put fl.name (given fl.is_bool v) m) (set_all fl vs)

  unfoldable pub apply_flag :
      Dict Text (List Text) → Dict Text (List Text) → Flag → M → M × Option FlagError
  unfolding set_all skipped flag_values
  apply_flag aliases sec fl m =
      if skipped fl then (m, none) else set_all fl (flag_values aliases sec fl.name) m

  -- After the first error every flag is passed over.
  unfoldable pub next_flag :
      M × Option FlagError → (M → M × Option FlagError) → M × Option FlagError
  next_flag (m, none) rest = rest m
  next_flag (m, some e) rest = (m, some e)

  -- VisitAll
  unfoldable pub visit_all :
      Dict Text (List Text) → Dict Text (List Text) → List Flag → M → M × Option FlagError
  unfolding apply_flag next_flag
  visit_all aliases sec [] m = (m, none)
  visit_all aliases sec (fl ∷ fls) m =
      next_flag (apply_flag aliases sec fl m) (visit_all aliases sec fls)

  abbrev pub apply_section :
      Dict Text (List Text) → Option (Dict Text (List Text)) → List Flag → M → M × Option FlagError
  apply_section aliases none fls m = (m, none)
  apply_section aliases (some sec) fls m = visit_all aliases sec fls m

  unfoldable pub apply_flags :
      File → Text → Dict Text (List Text) → List Flag → M → M × Option FlagError
  unfolding norm
  apply_flags f section aliases fls m =
      apply_section aliases (lookup (norm section) f.sections) fls m
