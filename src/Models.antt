-- ===== src/Models.antt =====
-- internal/models/models.go: the project model that the analyzer hands to the generator. A pointer
-- is a type with a case for nil. Shapes are finite trees, as the analyzer cuts every cycle by a
-- recursive leaf; the syntax tree of an anonymous struct, which only the analyzer reads, is left
-- out.
use go_bricks_openapi.Prelude.{String, Bool, true, false, Option, List, [], ◌∷◌}
use go_bricks_openapi.Prelude.Int.{ℤ}
use go_bricks_openapi.Prelude.Dict.{Dict}

-- ShapeKind; `unset` is the zero value.
pub data ShapeKind : Type 0 where
  unset pointer slice array map_of named primitive anonymous unknown instantiation : ShapeKind
  ref kind_only marshaler recursive text : ShapeKind

-- The fields of a FieldInfo that hold no shape.
pub record FieldTags : Type 0 where
  pub name : String
  pub json_name : String
  pub json_string : Bool
  pub param_type : String
  pub param_name : String
  pub required : Bool
  pub description : String
  pub example : String
  pub raw_validation : String
  pub constraints : Dict String
  pub element_constraints : Dict String

mutual
  -- Kind, Name, Key, Elem, Inst and Struct.
  pub data TypeShape : Type 0 where
    type_shape : ShapeKind → String → ShapePtr → ShapePtr → InstPtr → StructPtr → TypeShape

  pub data ShapePtr : Type 0 where
    no_shape : ShapePtr
    ptr : TypeShape → ShapePtr

  -- Base, Args and Written of an Instantiation.
  pub data InstPtr : Type 0 where
    no_inst : InstPtr
    inst : String → Shapes → String → InstPtr

  pub data Shapes : Type 0 where
    no_more : Shapes
    and_shape : TypeShape → Shapes → Shapes

  -- An AnonymousStruct without Fields (nil) or with them.
  pub data StructPtr : Type 0 where
    no_struct unextracted : StructPtr
    extracted : Fields → StructPtr

  pub data Fields : Type 0 where
    end : Fields
    and_field : FieldInfo → Fields → Fields

  -- The tags, the Shape and the Resolution of a field.
  pub data FieldInfo : Type 0 where
    field_info : FieldTags → TypeShape → ShapePtr → FieldInfo

abbrev pub kind : TypeShape → ShapeKind
kind (type_shape k n key el i st) = k

abbrev pub type_name : TypeShape → String
type_name (type_shape k n key el i st) = n

abbrev pub elem_of : TypeShape → ShapePtr
elem_of (type_shape k n key el i st) = el

abbrev pub struct_of : TypeShape → StructPtr
struct_of (type_shape k n key el i st) = st

abbrev pub tags : FieldInfo → FieldTags
tags (field_info t sh res) = t

abbrev pub shape_of : FieldInfo → TypeShape
shape_of (field_info t sh res) = sh

abbrev pub fields_list : Fields → List FieldInfo
fields_list end = []
fields_list (and_field f fs) = f ∷ fields_list fs

abbrev pub is_nil : ShapePtr → Bool
is_nil no_shape = true
is_nil (ptr s) = false

abbrev pub or_shape : ShapePtr → TypeShape → TypeShape
or_shape no_shape s = s
or_shape (ptr r) s = r

-- FieldInfo.ResolvedShape
unfoldable pub resolved_shape : FieldInfo → TypeShape
resolved_shape (field_info t sh res) = or_shape res sh

pub record TypeInfo : Type 0 where
  pub name : String
  pub package_name : String
  pub fields : Fields
  pub jose : Bool
  pub no_content : Bool
  pub shape : ShapePtr
  pub resolution : ShapePtr

pub record Route : Type 0 where
  pub method : String
  pub path : String
  pub handler_name : String
  pub operation_id : String
  pub summary : String
  pub description : String
  pub tag_names : List String
  pub request : Option TypeInfo
  pub response : Option TypeInfo
  pub module_name : String
  pub package_name : String
  pub success_status : ℤ
  pub raw_response : Bool
  pub is_public : Bool
  pub error_statuses : List ℤ

pub record Module : Type 0 where
  pub name : String
  pub package_name : String
  pub description : String
  pub routes : List Route

-- `types` is nil for a project that is assembled without the analyzer.
pub record Project : Type 0 where
  pub name : String
  pub description : String
  pub version : String
  pub modules : List Module
  pub types : Option (Dict (Option TypeInfo))
