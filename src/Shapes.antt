-- ===== src/Shapes.antt =====
-- Classification of shapes and of type names: internal/generator/openapi.go (stripPointers to
-- setBasicTypeAndFormat's names) and the end of internal/generator/constraints.go.
use go_bricks_openapi.Prelude.{
  String, Bool, true, false, ◌||◌, Option, none, some, [], ◌∷◌, ◌==◌, one_of, is_some,
  if◌then◌else◌,
}
use go_bricks_openapi.Prelude.Dict.{Dict, lookup}
use go_bricks_openapi.Models.{
  ShapeKind, pointer, slice, array, named, kind_only, marshaler, text, map_of, anonymous, TypeShape,
  type_shape, ShapePtr, no_shape, ptr, StructPtr, extracted, kind, type_name,
}

-- The loop of stripPointers, which follows Elem while the kind is a pointer.
unfoldable pub strip_pointers : TypeShape → TypeShape
strip_pointers (type_shape pointer n key (ptr s) i st) = strip_pointers s
strip_pointers (type_shape pointer n key no_shape i st) = type_shape pointer n key no_shape i st
strip_pointers (type_shape k n key el i st) = type_shape k n key el i st

unfoldable pub shape_after_pointer : TypeShape → TypeShape
shape_after_pointer (type_shape pointer n key (ptr s) i st) = s
shape_after_pointer s = s

abbrev pub is_pointer : ShapeKind → Bool
is_pointer pointer = true
is_pointer _ = false

abbrev pub is_map : ShapeKind → Bool
is_map map_of = true
is_map _ = false

unfoldable pub is_sequence : TypeShape → Bool
is_sequence (type_shape slice n key el i st) = true
is_sequence (type_shape array n key el i st) = true
is_sequence (type_shape _ n key el i st) = false

abbrev is_byte : ShapePtr → Bool
is_byte no_shape = false
is_byte (ptr s) = type_name s == "byte" || type_name s == "uint8"

-- A slice of bytes, which encoding/json writes as base64 text.
unfoldable pub is_byte_slice : TypeShape → Bool
is_byte_slice (type_shape slice n key el i st) = is_byte el
is_byte_slice (type_shape _ n key el i st) = false

unfoldable pub is_marshaler_leaf : TypeShape → Bool
is_marshaler_leaf s = elim (kind (strip_pointers s)) [ marshaler ↦ true | text ↦ true | _ ↦ false ]

abbrev has_fields : StructPtr → Bool
has_fields (extracted fs) = true
has_fields _ = false

-- An anonymous struct whose fields were extracted.
unfoldable pub is_inline_object : TypeShape → Bool
is_inline_object (type_shape anonymous n key el i st) = has_fields st
is_inline_object (type_shape _ n key el i st) = false

unfoldable pub takes_no_keyword : TypeShape → Bool
takes_no_keyword s = is_marshaler_leaf (strip_pointers s) || is_inline_object (strip_pointers s)

unfoldable pub is_string_type : String → Bool
is_string_type n = n == "string"

unfoldable pub is_integer_type : String → Bool
is_integer_type n = one_of n (
    "int" ∷ "int8" ∷ "int16" ∷ "int32" ∷ "int64" ∷ "uint" ∷ "uint8" ∷ "uint16" ∷ "uint32" ∷ "uint64"
    ∷ "byte" ∷ "rune" ∷ [])

unfoldable pub is_float_type : String → Bool
is_float_type n = n == "float32" || n == "float64"

abbrev named_kind : String → String
named_kind n =
    if is_string_type n
    then "string"
    else if is_integer_type n
    then "integer"
    else if is_float_type n
    then "number"
    else ""

unfoldable pub effective_kind : TypeShape → String
effective_kind (type_shape kind_only n key el i st) = n
effective_kind (type_shape _ n key el i st) = named_kind n

unfoldable pub is_effective_string : String → Bool
is_effective_string k = k == "string"

unfoldable pub is_effective_numeric : String → Bool
is_effective_numeric k = k == "integer" || k == "number"

-- wellKnownType: a type and a format.
abbrev pub WellKnownType : Type 0
WellKnownType = String × String

abbrev pub well_known_formats : Dict WellKnownType
well_known_formats =
    ("time.Time", ("string", "date-time"))
    ∷ ("time.Duration", ("integer", "int64"))
    ∷ ("uuid.UUID", ("string", "uuid"))
    ∷ ("json.RawMessage", ("", ""))
    ∷ ("json.Number", ("number", ""))
    ∷ ("time.Month", ("integer", "int64"))
    ∷ ("time.Weekday", ("integer", "int64"))
    ∷ ("net.IP", ("string", ""))
    ∷ ("netip.Addr", ("string", ""))
    ∷ ("netip.Prefix", ("string", ""))
    ∷ ("netip.AddrPort", ("string", ""))
    ∷ []

unfoldable pub well_known_shape : TypeShape → Option WellKnownType
well_known_shape (type_shape slice n key el i st) =
    if is_byte el then some ("string", "byte") else none
well_known_shape (type_shape named n key el i st) = lookup n well_known_formats
well_known_shape (type_shape _ n key el i st) = none

-- The element is a well-known type, one pointer level shed.
unfoldable pub is_well_known_elem : TypeShape → Bool
is_well_known_elem s = is_some (well_known_shape (shape_after_pointer s))
