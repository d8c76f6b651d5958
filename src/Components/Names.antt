-- ===== src/Components/Names.antt =====
-- The component names that a document points at (addRefNames, payloadNamesComponent and
-- referencedSchemaNames). A set of names is a list, in which a name may stand twice.
use go_bricks_openapi.Prelude.{
  String, Bool, true, false, not, ◌&&◌, Option, none, some, List, [], ◌∷◌, ◌==◌, if◌then◌else◌,
}
use go_bricks_openapi.Prelude.Dict.{Dict}
use go_bricks_openapi.Models.{
  pointer, slice, array, map_of, ref, anonymous, TypeShape, type_shape, ShapePtr, no_shape, ptr,
  StructPtr, no_struct, unextracted, extracted, Fields, end, and_field, field_info, TypeInfo, Route,
  elem_of, is_nil,
}
use go_bricks_openapi.Shapes.{is_sequence, is_well_known_elem}
use go_bricks_openapi.Operations.Payloads.{schema_name}

unfoldable mutual
  pub add_ref_names : List String → TypeShape → List String
  add_ref_names out (type_shape pointer n key el i st) = add_ptr_ref_names out el
  add_ref_names out (type_shape slice n key el i st) = add_ptr_ref_names out el
  add_ref_names out (type_shape array n key el i st) = add_ptr_ref_names out el
  add_ref_names out (type_shape map_of n key el i st) = add_ptr_ref_names out el
  add_ref_names out (type_shape ref n key el i st) = n ∷ out
  add_ref_names out (type_shape anonymous n key el i st) = add_inline_ref_names out st
  add_ref_names out (type_shape _ n key el i st) = out

  pub add_ptr_ref_names : List String → ShapePtr → List String
  add_ptr_ref_names out no_shape = out
  add_ptr_ref_names out (ptr s) = add_ref_names out s

  pub add_inline_ref_names : List String → StructPtr → List String
  add_inline_ref_names out no_struct = out
  add_inline_ref_names out unextracted = out
  add_inline_ref_names out (extracted fs) = add_field_ref_names out fs

  -- The fields' resolved shapes.
  pub add_field_ref_names : List String → Fields → List String
  add_field_ref_names out end = out
  add_field_ref_names out (and_field (field_info t sh no_shape) fs) =
      add_field_ref_names (add_ref_names out sh) fs
  add_field_ref_names out (and_field (field_info t sh (ptr r)) fs) =
      add_field_ref_names (add_ref_names out r) fs

-- addRequestFieldRefs
unfoldable pub add_request_field_refs : List String → Option TypeInfo → List String
add_request_field_refs out none = out
add_request_field_refs out (some ti) = add_field_ref_names out ti.fields

abbrev names_elem : ShapePtr → Bool
names_elem no_shape = true
names_elem (ptr e) = not (is_well_known_elem e)

abbrev names_sequence : TypeShape → Bool
names_sequence s = if is_sequence s then names_elem (elem_of s) else true

unfoldable pub payload_names_component : TypeInfo → Bool
payload_names_component ti =
    if ti.name == ""
    then false
    else if ti.jose
    then true
    else if not (is_nil ti.resolution)
    then false
    else elim ti.shape [ no_shape ↦ true | ptr s ↦ names_sequence s ]

abbrev add_response : List String → Option TypeInfo → List String
add_response out none = out
add_response out (some ti) =
    add_ptr_ref_names (if payload_names_component ti then schema_name ti ∷ out else out)
      ti.resolution

abbrev add_request : List String → Option TypeInfo → List String
add_request out none = out
add_request out (some ti) = if ti.jose && not (ti.name == "") then schema_name ti ∷ out else out

unfoldable pub add_routes : List String → List Route → List String
add_routes out [] = out
add_routes out (r ∷ rs) =
    add_routes
      (add_request_field_refs (add_request (add_response out r.response) r.request) r.request) rs

-- addFieldSchemaRefs; nil entries are skipped.
unfoldable pub add_field_schema_refs : List String → Dict (Option TypeInfo) → List String
add_field_schema_refs out [] = out
add_field_schema_refs out ((k, none) ∷ ts) = add_field_schema_refs out ts
add_field_schema_refs out ((k, some ti) ∷ ts) =
    add_field_schema_refs (add_field_ref_names out ti.fields) ts

unfoldable pub referenced_schema_names : List Route → Dict (Option TypeInfo) → List String
referenced_schema_names rs types = add_field_schema_refs (add_routes [] rs) types
