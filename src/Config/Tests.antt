-- ===== src/Config/Tests.antt =====
-- A small file, and its values and flags.
use kalua.Prelude.{
  ◌≡◌, refl, ap, Bool, true, false, Option, none, some, List, [], ◌∷◌, ◌++◌, map, if◌then◌else◌,
  elem, nat_eq,
}
use kalua.Prelude.Text.{Text, bytes, text_eq, text_beq}
use kalua.Prelude.Dict.{Dict, lookup}
use kalua.Prelude.Ascii.{trim_space, trim_left, trim_right, to_lower}
use kalua.Config.{File, norm, without, parse, values}
use kalua.Config.Line.{
  Line, blank, comment, header, entry, bare, render, unlines, meant, IsWritten, IsKey,
}
use kalua.Config.Trim.{Trimmed}
use kalua.Config.RoundTrip.{parse-unlines}
use kalua.Config.Flags.{
  Flag, FlagError, apply_flags, apply_flag, visit_all, set_all, skipped, given, flag_values,
  key_values, next_flag, after_set,
}
use kalua.Config.Precedence.{assignments}
use kalua.Config.Failure.{apply_flags-Stopped, Stopped}

abbrev lines : List Line
lines =
    comment (bytes "the server")
    ∷ header (bytes "serve")
    ∷ entry (bytes "mode") (bytes "http,ws")
    ∷ bare (bytes "no-browser")
    ∷ blank
    ∷ header (bytes "Ser-Ve")
    ∷ entry (bytes "MODE") (bytes "tcp")
    ∷ []

mode : meant (bytes "SERVE") (bytes "mo_de") [] lines ≡ bytes "http,ws" ∷ bytes "tcp" ∷ []
unfolding meant norm without to_lower trim_space trim_left trim_right
mode = refl

parse-unlines_example :
    values (parse (unlines (map render lines))) (bytes "SERVE") (bytes "mo_de")
    ≡ meant (bytes "SERVE") (bytes "mo_de") [] lines
unfolding IsWritten IsKey Trimmed trim_right render unlines elem
parse-unlines_example =
    parse-unlines lines (bytes "SERVE") (bytes "mo_de")
      (
        (tt, refl),
        (
          ((refl, refl), refl),
          (
            ((((refl, refl), refl, refl), (refl, refl)), refl),
            (
              (((refl, refl), refl, refl), refl),
              (
                (tt, refl),
                (((refl, refl), refl), (((((refl, refl), refl, refl), (refl, refl)), refl), tt)),
              ),
            ),
          ),
        ),
      )
      refl

-- A file with one section.
abbrev file : File
file = record {
  sections =
      (
        bytes "serve",
        (bytes "port", bytes "80" ∷ bytes "x" ∷ []) ∷ (bytes "verbose", bytes "yes" ∷ []) ∷ [],
      )
      ∷ [];
  order = bytes "serve" ∷ [];
}

abbrev flags : List Flag
flags =
    record { name = bytes "host"; explicit = true; is_bool = false }
    ∷ record { name = bytes "port"; explicit = false; is_bool = false }
    ∷ record { name = bytes "v"; explicit = false; is_bool = true }
    ∷ []

abbrev aliases : Dict Text (List Text)
aliases = (bytes "v", bytes "verbose" ∷ []) ∷ []

-- The store is the list of the texts that were set, with the flag's name; port takes no text with an x.
abbrev set_flag : Text → Text → List (Text × Text) → List (Text × Text) × Bool
set_flag name text m =
    if text_beq text (bytes "x") then (m, false) else (m ++ ((name, text) ∷ []), true)

abbrev port_error : FlagError
port_error = record { flag = bytes "port"; text = bytes "x" }

port_refused :
    apply_flags set_flag file (bytes "Serve") aliases flags []
    ≡ ((bytes "port", bytes "80") ∷ [], some port_error)
unfolding apply_flags visit_all apply_flag set_all skipped given flag_values key_values norm without
    to_lower trim_space trim_left trim_right lookup next_flag after_set
port_refused = refl

-- The names d and db have one value: that of db in the file replaces what the command line has set with d.
abbrev one_value : Text → Text → List Text → List Text × Bool
one_value name text m = (text ∷ [], true)

shared_value :
    apply_flags one_value
      (record { sections = (bytes "run", (bytes "db", bytes "b" ∷ []) ∷ []) ∷ []; order = [] })
      (bytes "run")
      []
      (record { name = bytes "d"; explicit = true; is_bool = false }
        ∷ record { name = bytes "db"; explicit = false; is_bool = false }
        ∷ [])
      (bytes "a" ∷ [])
    ≡ (bytes "b" ∷ [], none)
unfolding apply_flags visit_all apply_flag set_all skipped given flag_values key_values norm without
    to_lower trim_space trim_left trim_right lookup next_flag after_set
shared_value = refl

apply_flags-Stopped_example :
    Stopped set_flag
      (assignments file (bytes "Serve") aliases flags)
      []
      (apply_flags set_flag file (bytes "Serve") aliases flags []).0
      port_error
apply_flags-Stopped_example =
    apply_flags-Stopped set_flag file (bytes "Serve") aliases flags [] port_error
      (ap (λ (r : List (Text × Text) × Option FlagError). r.1) port_refused)
