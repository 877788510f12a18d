-- ===== src/Validator/Properties.antt =====
-- What a definition says of the values of an input (packages/algorithm-validator/src/types), as the
-- checks of validation.ts read it.
use reputo.Prelude.{String, Option, List}

-- An option of a field: its value, and the selections that it is offered for.
pub record FieldOption : Type 0 where
  pub value : String
  pub filter_by : Option String
  pub filters : Option (List (String × String))

pub record Resource : Type 0 where
  pub key : String
  pub label : String

pub record Chain : Type 0 where
  pub key : String
  pub label : String
  pub resources : List Resource

-- What the user interface is told of a field (`uiHint`), and its label.
pub record Hints : Type 0 where
  pub label : Option String
  pub options : Option (List FieldOption)
  pub depends_on : Option (List String)
  pub resource_catalog : Option (List Chain)

-- The properties of the items of an array; a property may be an array itself.
pub data Properties : Type 0 where
  no_property : Properties
  single : String → Hints → Properties → Properties
  array_of : String → Properties → Properties → Properties
