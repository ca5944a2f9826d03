-- ===== src/Builder/Model.antt =====
-- internal/builder/model.go: documents, forms, cells and controls. A `nil` pointer in a slice is
-- `none`. Option values (Go's `any`) are of a type `V` and floats of a type `F`, since nothing here
-- looks into either.
use kalua.Prelude.{Bool, Option, none, some, List, [], ◌∷◌}
use kalua.Prelude.{if◌then◌else◌}
use kalua.Prelude.Int.{ℤ}
use kalua.Prelude.Text.{Text, text_beq}
use kalua.Prelude.Dict.{Dict}

pub record Border : Type 0 where
  pub width : ℤ
  pub color : Text

pub record CellDef : Type 0 where
  pub id : Text
  pub width : ℤ
  pub bg : Text
  pub border : Option Border
  pub align : Text

module _ (V F : Type 0) where
  pub record Control : Type 0 where
    pub name : Text
    pub type : Text
    pub opts : Dict Text V
    pub inline : Dict Text Text

  pub record Form : Type 0 where
    pub name : Text
    pub title : Text
    pub layout : Text
    pub align : Text
    pub gap : Option ℤ
    pub cells : List (Option CellDef)
    pub controls : List (Option Control)
    pub handlers : Dict Text (List Text)
    pub handler_bodies : Dict Text Text
    pub notes : List Text
    pub modal : Bool
    pub gap_x : F
    pub gap_y : F
    pub lines : List (List ℤ)
    pub indent : Text
    pub has_show : Bool
    pub orphan_keys : List Text

  pub record Document : Type 0 where
    pub version : ℤ
    pub forms : List (Option Form)
    pub active_form : Text
    pub notes : List Text

module _ {V F : Type 0} where
  -- findForm
  unfoldable pub find_form : List (Option (Form V F)) → Text → Option (Form V F)
  find_form [] n = none
  find_form (none ∷ fs) n = find_form fs n
  find_form (some f ∷ fs) n = if text_beq f.name n then some f else find_form fs n

  -- firstForm, on the forms of a document
  unfoldable pub first_form : List (Option (Form V F)) → Option (Form V F)
  first_form [] = none
  first_form (f ∷ fs) = f
