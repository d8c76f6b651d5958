-- ===== src/Components/Schemas.antt =====
-- typeInfoToSchema, isParamsOnlyType, generateSchemasFromTypes and routeTypeRegistry.
use go_bricks_openapi.Prelude.{
  String, Bool, true, false, not, ◌&&◌, Option, none, some, List, [], ◌∷◌, ◌==◌, one_of,
  if◌then◌else◌,
}
use go_bricks_openapi.Prelude.Dict.{Dict, lookup, insert}
use go_bricks_openapi.Go.{Go}
use go_bricks_openapi.Models.{Fields, end, and_field, tags, TypeInfo, Route, Module, Project}
use go_bricks_openapi.Document.{no_properties, Schema}
use go_bricks_openapi.Schemas.Typing.{object_properties}
use go_bricks_openapi.Operations.Payloads.{schema_name}
use go_bricks_openapi.Components.Standard.{object_schema}

-- The loop of isParamsOnlyType.
unfoldable pub all_params : Fields → Bool
all_params end = true
all_params (and_field f fs) = if (tags f).param_type == "" then false else all_params fs

abbrev pub has_field : Fields → Bool
has_field end = false
has_field (and_field f fs) = true

unfoldable pub is_params_only_type : Option TypeInfo → Bool
is_params_only_type none = false
is_params_only_type (some ti) = not ti.jose && has_field ti.fields && all_params ti.fields

abbrev add_type : Dict (Option TypeInfo) → Option TypeInfo → Dict (Option TypeInfo)
add_type types none = types
add_type types (some ti) =
    if ti.name == ""
    then types
    else elim (lookup ti.name types) [ some old ↦ types | none ↦ insert ti.name (some ti) types ]

unfoldable pub registry_from : Dict (Option TypeInfo) → List Route → Dict (Option TypeInfo)
registry_from types [] = types
registry_from types (r ∷ rs) = registry_from (add_type (add_type types r.request) r.response) rs

unfoldable pub registry_of : Dict (Option TypeInfo) → List Module → Dict (Option TypeInfo)
registry_of types [] = types
registry_of types (m ∷ ms) = registry_of (registry_from types m.routes) ms

unfoldable pub route_type_registry : Project → Dict (Option TypeInfo)
route_type_registry p = registry_of [] p.modules

abbrev pub name_of_type : Option TypeInfo → String
name_of_type none = ""
name_of_type (some ti) = schema_name ti

module _ (go : Go) where
  open go use {Float}

  unfoldable pub type_info_to_schema : Option TypeInfo → Option (Schema Float)
  type_info_to_schema none = none
  type_info_to_schema (some ti) =
      let (ps, rs) = object_properties go ti.fields in
      if has_field ti.fields then some (object_schema ps rs) else none

  -- The schema of one entry of the registry, `none` where the loop continues.
  unfoldable pub schema_of_type : Option TypeInfo → List String → Option (Schema Float)
  schema_of_type none referenced = none
  schema_of_type (some ti) referenced =
      let pointed_at = one_of (schema_name ti) referenced in
      if is_params_only_type (some ti) && not pointed_at
      then none
      else elim (type_info_to_schema (some ti)) [
        | some s ↦ some s
        | none ↦ if pointed_at then some (object_schema no_properties []) else none
      ]

  abbrev pub put_schema : String → Option (Schema Float) → Dict (Schema Float) → Dict (Schema Float)
  put_schema n none schemas = schemas
  put_schema n (some s) schemas = insert n s schemas

  -- The loop over the registry.
  unfoldable pub generate_from :
      Dict (Schema Float) → Dict (Option TypeInfo) → List String → Dict (Schema Float)
  generate_from schemas [] referenced = schemas
  generate_from schemas ((k, ti) ∷ types) referenced =
      generate_from (put_schema (name_of_type ti) (schema_of_type ti referenced) schemas) types
        referenced

  unfoldable pub generate_schemas_from_types :
      Dict (Option TypeInfo) → List String → Dict (Schema Float)
  generate_schemas_from_types types referenced = generate_from [] types referenced
