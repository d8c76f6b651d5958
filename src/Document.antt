-- ===== src/Document.antt =====
-- The OpenAPI document as the generator builds it, before the YAML encoder writes it: the structs
-- of internal/generator/openapi.go. A schema is split into its plain keywords and its subschemas.
use go_bricks_openapi.Prelude.{String, Bool, false, Option, none, List, []}
use go_bricks_openapi.Prelude.Int.{ℤ}
use go_bricks_openapi.Prelude.Dict.{Dict}

-- The values that the generator writes into an `any` field, over the type of float64 numbers.
pub data Value (F : Type 0) : Type 0 where
  text : String → Value F
  int : ℤ → Value F
  float : F → Value F
  bool : Bool → Value F

-- The fields of an OpenAPIProperty that hold no other property. The empty text and nil are unset.
pub record Keywords (F : Type 0) : Type 0 where
  pub typ : String
  pub required : List String
  pub format : String
  pub description : String
  pub example : Option (Value F)
  pub ref : String
  pub min_length : Option ℤ
  pub max_length : Option ℤ
  pub min_items : Option ℤ
  pub max_items : Option ℤ
  pub min_properties : Option ℤ
  pub max_properties : Option ℤ
  pub minimum : Option F
  pub maximum : Option F
  pub exclusive_minimum : Option Bool
  pub exclusive_maximum : Option Bool
  pub pattern_text : String
  pub enum : List (Value F)
  pub nullable : Bool

abbrev pub no_keywords : {F : Type 0} → Keywords F
no_keywords = record {
  typ = "";
  required = [];
  format = "";
  description = "";
  example = none;
  ref = "";
  min_length = none;
  max_length = none;
  min_items = none;
  max_items = none;
  min_properties = none;
  max_properties = none;
  minimum = none;
  maximum = none;
  exclusive_minimum = none;
  exclusive_maximum = none;
  pattern_text = "";
  enum = [];
  nullable = false;
}

mutual
  -- The keywords, AllOf, Properties, AdditionalProperties and Items.
  pub data Property (F : Type 0) : Type 0 where
    property : Keywords F → AllOf F → NamedProperties F → PropertyPtr F → PropertyPtr F → Property F

  pub data PropertyPtr (F : Type 0) : Type 0 where
    no_property : PropertyPtr F
    just : Property F → PropertyPtr F

  pub data AllOf (F : Type 0) : Type 0 where
    no_all_of : AllOf F
    and_all_of : Property F → AllOf F → AllOf F

  -- A map from names to properties.
  pub data NamedProperties (F : Type 0) : Type 0 where
    no_properties : NamedProperties F
    and_property : String → Property F → NamedProperties F → NamedProperties F

module _ {F : Type 0} where
  abbrev pub keywords : Property F → Keywords F
  keywords (property k al ps ad it) = k

  abbrev pub all_of : Property F → AllOf F
  all_of (property k al ps ad it) = al

  abbrev pub properties : Property F → NamedProperties F
  properties (property k al ps ad it) = ps

  abbrev pub additional : Property F → PropertyPtr F
  additional (property k al ps ad it) = ad

  abbrev pub items : Property F → PropertyPtr F
  items (property k al ps ad it) = it

  abbrev pub set_keywords : Keywords F → Property F → Property F
  set_keywords k' (property k al ps ad it) = property k' al ps ad it

  -- &OpenAPIProperty{…} with keywords alone
  abbrev pub plain : Keywords F → Property F
  plain k = property k no_all_of no_properties no_property no_property

  abbrev pub has_properties : NamedProperties F → Bool
  has_properties no_properties = false
  has_properties (and_property n p ps) = Bool.true

pub record Parameter (F : Type 0) : Type 0 where
  pub name : String
  pub location : String
  pub required : Bool
  pub description : String
  pub schema : Property F
  pub example : Option (Value F)

-- A content map: media types and their schemas.
abbrev pub Content : Type 0 → Type 0
Content F = Dict (Property F)

pub record Response (F : Type 0) : Type 0 where
  pub description : String
  pub content : Content F

pub record RequestBody (F : Type 0) : Type 0 where
  pub required : Bool
  pub description : String
  pub content : Content F

-- `security` is none to inherit the document's, some [] for `security: []`.
pub record Operation (F : Type 0) : Type 0 where
  pub operation_id : String
  pub summary : String
  pub description : String
  pub tag_names : List String
  pub parameters : List (Parameter F)
  pub request_body : Option (RequestBody F)
  pub responses : Dict (Response F)
  pub security : Option (List (Dict (List String)))

pub record PathItem (F : Type 0) : Type 0 where
  pub get : Option (Operation F)
  pub put : Option (Operation F)
  pub post : Option (Operation F)
  pub delete : Option (Operation F)
  pub patch : Option (Operation F)
  pub head : Option (Operation F)
  pub options : Option (Operation F)

-- A component schema.
pub record Schema (F : Type 0) : Type 0 where
  pub typ : String
  pub properties : NamedProperties F
  pub required : List String
  pub description : String
