-- ===== src/Schemas/Leaves.antt =====
-- The property of one level of a shape (setBasicTypeAndFormat, setWellKnown, and the cases of
-- setTypeAndFormat), the $ref of a struct, and the map of an object's properties.
use go_bricks_openapi.Prelude.{
  String, Bool, true, false, Option, none, some, [], ◌∷◌, ◌==◌, one_of, if◌then◌else◌,
}
use go_bricks_openapi.Prelude.Int.{pos}
use go_bricks_openapi.Go.{Go}
use go_bricks_openapi.Go.Strings.{str_append}
use go_bricks_openapi.Models.{
  ShapeKind, slice, array, map_of, ref, kind_only, text, marshaler, recursive, anonymous, FieldInfo,
  kind, tags, resolved_shape,
}
use go_bricks_openapi.Document.{
  Keywords, no_keywords, Property, property, no_property, just, no_all_of, and_all_of,
  NamedProperties, no_properties, and_property, keywords, set_keywords, plain,
}
use go_bricks_openapi.Shapes.{WellKnownType, is_pointer}

-- refPath
unfoldable pub ref_path : String → String
ref_path name = str_append "#/components/schemas/" name

-- isPointerField
unfoldable pub is_pointer_field : FieldInfo → Bool
is_pointer_field f =
    if (tags f).param_type == "" then is_pointer (kind (resolved_shape f)) else false

-- propertyName; `none` where ok is false.
unfoldable pub property_name : FieldInfo → Option String
property_name f =
    if (tags f).param_type == ""
    then (if (tags f).json_name == "-"
        then none
        else if (tags f).json_name == ""
        then (if (tags f).name == "" then none else some (tags f).name)
        else some (tags f).json_name)
    else none

module _ {F : Type 0} where
  abbrev pub empty_property : Property F
  empty_property = plain no_keywords

  abbrev pub described : String → Property F
  described d = plain (record no_keywords { description = d })

  abbrev set_type : String → Keywords F → Keywords F
  set_type t k = record k { typ = t }

  abbrev set_type_format : String → String → Keywords F → Keywords F
  set_type_format t fmt k = record k { typ = t; format = fmt }

  unfoldable pub set_well_known : WellKnownType → Keywords F → Keywords F
  set_well_known (t, fmt) k = if fmt == "" then set_type t k else set_type_format t fmt k

  -- props[name] = p
  unfoldable pub insert_property : String → Property F → NamedProperties F → NamedProperties F
  insert_property n p no_properties = and_property n p no_properties
  insert_property n p (and_property m q ps) =
      if m == n then and_property n p ps else and_property m q (insert_property n p ps)

  unfoldable pub ref_property : FieldInfo → String → Property F
  ref_property f name =
      let r : Property F = plain (record no_keywords { ref = ref_path name }) in
      if is_pointer_field f
      then property
          (record no_keywords {
            typ = "object";
            nullable = true;
            description = (tags f).description;
          })
          (and_all_of r no_all_of) no_properties no_property no_property
      else r

module _ (go : Go) where
  open go use {Float, float_of}

  abbrev unsigned : String → Keywords Float → Keywords Float
  unsigned fmt k = record k { typ = "integer"; format = fmt; minimum = some (float_of (pos 0)) }

  unfoldable pub set_basic_type_and_format : String → Keywords Float → Keywords Float
  set_basic_type_and_format n k =
      if n == "string"
      then set_type "string" k
      else if one_of n ("int8" ∷ "int16" ∷ "int32" ∷ "rune" ∷ [])
      then set_type_format "integer" "int32" k
      else if one_of n ("uint8" ∷ "uint16" ∷ "byte" ∷ [])
      then unsigned "int32" k
      else if one_of n ("int" ∷ "int64" ∷ [])
      then set_type_format "integer" "int64" k
      else if one_of n ("uint" ∷ "uint32" ∷ "uint64" ∷ [])
      then unsigned "int64" k
      else if n == "float32"
      then set_type_format "number" "float" k
      else if n == "float64"
      then set_type_format "number" "double" k
      else if n == "bool"
      then set_type "boolean" k
      else if one_of n ("any" ∷ "interface{}" ∷ [])
      then k
      else set_type "object" k

  -- The switch of setTypeAndFormat, given the schema of the element and the inline object.
  unfoldable pub set_by_kind :
      ShapeKind → String → Property Float → Property Float → Property Float → Property Float
  set_by_kind slice n elem inline (property k al ps ad it) =
      property (set_type "array" k) al ps ad (just elem)
  set_by_kind array n elem inline (property k al ps ad it) =
      property (set_type "array" k) al ps ad (just elem)
  set_by_kind map_of n elem inline (property k al ps ad it) =
      property (set_type "object" k) al ps (just elem) it
  set_by_kind ref n elem inline p = set_keywords (record (keywords p) { ref = ref_path n }) p
  set_by_kind kind_only n elem inline p = set_keywords (set_type n (keywords p)) p
  set_by_kind text n elem inline p = set_keywords (set_type "string" (keywords p)) p
  set_by_kind marshaler n elem inline p = p
  set_by_kind recursive n elem inline p = p
  set_by_kind anonymous n elem inline p = inline
  set_by_kind _ n elem inline p = set_keywords (set_basic_type_and_format n (keywords p)) p
