-- ===== src/Operations/Payloads.antt =====
-- The schemas of success payloads (responsePayloadSchema, successEnvelopeSchema and their parts).
use go_bricks_openapi.Prelude.{
  String, Bool, true, false, not, ◌&&◌, Option, none, some, ◌==◌, if◌then◌else◌,
}
use go_bricks_openapi.Go.{Go}
use go_bricks_openapi.Models.{
  ShapeKind, anonymous, TypeShape, ShapePtr, no_shape, ptr, kind, elem_of, TypeInfo,
}
use go_bricks_openapi.Document.{
  no_keywords, Property, property, PropertyPtr, no_property, just, no_all_of, NamedProperties,
  no_properties, and_property, keywords, set_keywords, additional, plain,
}
use go_bricks_openapi.Shapes.{strip_pointers, is_sequence, is_well_known_elem}
use go_bricks_openapi.Schemas.Leaves.{ref_path, empty_property}
use go_bricks_openapi.Schemas.Typing.{set_type_and_format}

-- schemaName
unfoldable pub schema_name : TypeInfo → String
schema_name ti = ti.name

abbrev is_anonymous : ShapeKind → Bool
is_anonymous anonymous = true
is_anonymous _ = false

unfoldable pub inline_struct_payload : Option TypeInfo → Bool
inline_struct_payload none = false
inline_struct_payload (some ti) = elim ti.resolution [
  | no_shape ↦ false
  | ptr s ↦ is_anonymous (kind (strip_pointers s))
]

module _ {F : Type 0} where
  abbrev pub typed : String → Property F
  typed t = plain (record no_keywords { typ = t })

  abbrev pub typed_note : String → String → Property F
  typed_note t d = plain (record no_keywords { typ = t; description = d })

  abbrev pub ref_to : String → Property F
  ref_to name = plain (record no_keywords { ref = ref_path name })

  abbrev pub object_of : NamedProperties F → Property F
  object_of ps =
      property (record no_keywords { typ = "object" }) no_all_of ps no_property no_property

  unfoldable pub meta_envelope_schema : Property F
  meta_envelope_schema = object_of (
      and_property "timestamp"
        (plain (record no_keywords {
          typ = "string";
          format = "date-time";
          description = "RFC3339 response timestamp";
        }))
        (and_property "traceId" (typed_note "string" "W3C trace identifier for the request")
          no_properties))

  abbrev no_additional : PropertyPtr F → Bool
  no_additional no_property = true
  no_additional (just p) = false

  abbrev is_bare_object : Property F → Bool
  is_bare_object p =
      (keywords p).ref == "" && (keywords p).typ == "object" && no_additional (additional p)

module _ (go : Go) where
  open go use {Float}

  unfoldable pub payload_shape_schema : TypeShape → Property Float
  payload_shape_schema s = set_type_and_format go empty_property s

  abbrev item_schema : String → ShapePtr → Property Float
  item_schema name no_shape = ref_to name
  item_schema name (ptr s) =
      if is_well_known_elem s then set_type_and_format go empty_property s else ref_to name

  -- For a payload whose shape is the sequence `s`.
  unfoldable pub struct_slice_payload_schema : TypeInfo → TypeShape → Property Float
  struct_slice_payload_schema ti s =
      property (record no_keywords { typ = "array" }) no_all_of no_properties no_property
        (just (item_schema (schema_name ti) (elem_of s)))

  -- The cases of the switch behind the Resolution's.
  abbrev named_payload : TypeInfo → ShapePtr → Property Float
  named_payload ti no_shape = if ti.name == "" then typed "object" else ref_to (schema_name ti)
  named_payload ti (ptr s) =
      if ti.name == ""
      then payload_shape_schema s
      else if is_sequence s
      then struct_slice_payload_schema ti s
      else ref_to (schema_name ti)

  abbrev known_payload : TypeInfo → ShapePtr → Property Float
  known_payload ti no_shape = named_payload ti ti.shape
  known_payload ti (ptr s) = payload_shape_schema s

  unfoldable pub response_payload_schema : Option TypeInfo → Property Float
  response_payload_schema none = typed "object"
  response_payload_schema (some ti) = known_payload ti ti.resolution

  unfoldable pub success_envelope_schema : Option TypeInfo → Property Float
  success_envelope_schema response =
      let payload = response_payload_schema response in
      let note =
        set_keywords (record (keywords payload) { description = "Response data" }) payload in
      object_of (
        and_property "data"
          (if is_bare_object payload && not (inline_struct_payload response) then note else payload)
          (and_property "meta" meta_envelope_schema no_properties))
