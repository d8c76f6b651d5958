-- ===== src/Tests/Operations.antt =====
-- Paths, parameters, responses and component schemas at the sample's routes and types.
use go_bricks_openapi.Prelude.{
  refl, inl, String, ◌≡◌, ap, ◌==◌, ◌↔◌, ◌⊎◌, true, Option, none, some, [], ◌∷◌, In, if◌then◌else◌,
  or_first,
}
use go_bricks_openapi.Prelude.Int.{ℤ, pos}
use go_bricks_openapi.Prelude.Dict.{Dict, lookup, keys, insert}
use go_bricks_openapi.Go.Strings.{has_prefix}
use go_bricks_openapi.Go.Strconv.{itoa}
use go_bricks_openapi.Models.{TypeInfo}
use go_bricks_openapi.Document.{Schema}
use go_bricks_openapi.Operations.Payloads.{ref_to}
use go_bricks_openapi.Operations.Parameters.{
  declared_path_params, path_template_vars, path_param, append_missing_path_params,
}
use go_bricks_openapi.Operations.Declared.{append_missing_path_params-declared}
use go_bricks_openapi.Operations.Responses.{
  build_responses, success_status_code, success_response, response, json_media_ref,
  error_schema_name, add_declared_error_responses, add_declared, base_error_responses,
  error_status_description,
}
use go_bricks_openapi.Operations.Replies.{
  success, json_schema, declared_at, build_responses-lookup, build_responses-errors,
}
use go_bricks_openapi.Operations.Paths.{Slot, build_paths}
use go_bricks_openapi.Operations.Slots.{
  routes_at, first_for, build, then_build, operation_at, build_paths-operation_at,
}
use go_bricks_openapi.Components.Names.{add_ref_names, referenced_schema_names}
use go_bricks_openapi.Components.Closed.{referenced_schema_names-NamedIn}
use go_bricks_openapi.Components.Covered.{set_type_and_format-RefsIn}
use go_bricks_openapi.Components.Standard.{create_standard_schemas}
use go_bricks_openapi.Components.Present.{SomeMentions, create_standard_schemas-Mentions}
use go_bricks_openapi.Components.Schemas.{generate_schemas_from_types}
use go_bricks_openapi.Components.Emission.{SomeEmits, generate_schemas_from_types-keys}
use go_bricks_openapi.Schemas.Leaves.{empty_property}
use go_bricks_openapi.Schemas.Typing.{set_type_and_format, object_properties}
use go_bricks_openapi.Schemas.Refs.{RefsIn, NamedIn}
use go_bricks_openapi.Models.{ShapeKind}
use go_bricks_openapi.Tests.Sample.{
  sample_go, list_route, sample_routes, order_type, item_type, order_fields, item_shape, over,
}

build_paths-operation_at_example :
    operation_at sample_go true [] Slot.get
      (lookup "/orders/{id}" (build_paths sample_go true [] sample_routes))
    ≡ (if has_prefix b'/' "/orders/{id}"
        then then_build
            (build sample_go true [])
            (first_for sample_go true [] Slot.get (routes_at "/orders/{id}" sample_routes))
        else none)
build_paths-operation_at_example =
    build_paths-operation_at sample_go true [] sample_routes "/orders/{id}" Slot.get

append_missing_path_params-declared_example :
    In "id" (
      declared_path_params
        (append_missing_path_params (path_param {F = ℤ} "shop" ∷ []) "/{shop}/{id}"))
    ↔ (In "id" (declared_path_params (path_param {F = ℤ} "shop" ∷ []))
        ⊎ In "id" (path_template_vars "/{shop}/{id}"))
append_missing_path_params-declared_example =
    append_missing_path_params-declared ℤ (path_param "shop" ∷ []) "/{shop}/{id}" "id"

build_responses-lookup_example : lookup "404" (build_responses sample_go list_route) ≡ (
    if success list_route == "404"
    then some (success_response sample_go list_route)
    else or_first
        (lookup "404" (base_error_responses (error_schema_name list_route)))
        (declared_at sample_go "404" (pos 404 ∷ []) (error_schema_name list_route)))
build_responses-lookup_example = build_responses-lookup sample_go list_route "404"

build_responses-errors_example :
    json_schema sample_go (response "Not Found" (json_media_ref "ErrorResponse"))
    ≡ some (ref_to (error_schema_name list_route))
unfolding build_responses success_status_code error_schema_name add_declared_error_responses
    add_declared base_error_responses insert lookup itoa error_status_description
build_responses-errors_example =
    build_responses-errors sample_go list_route "404"
      (response "Not Found" (json_media_ref "ErrorResponse"))
      (λ e. let t = ap (λ s. s == "200") e in cc) refl

create_standard_schemas-Mentions_example :
    (out : Dict (Schema ℤ)) × (create_standard_schemas sample_routes ≡ some out)
    × ((n : String) → In n (keys out) ↔ SomeMentions n sample_routes)
create_standard_schemas-Mentions_example = create_standard_schemas-Mentions ℤ sample_routes

abbrev sample_types : Dict (Option TypeInfo)
sample_types = ("Order", some order_type) ∷ ("Item", some item_type) ∷ []

generate_schemas_from_types-keys_example :
    In "Item" (keys (generate_schemas_from_types sample_go sample_types ("Item" ∷ [])))
    ↔ SomeEmits "Item" ("Item" ∷ []) sample_types
generate_schemas_from_types-keys_example =
    generate_schemas_from_types-keys sample_go "Item" sample_types ("Item" ∷ [])

set_type_and_format-RefsIn_example :
    RefsIn
      (add_ref_names [] (over ShapeKind.slice item_shape))
      (set_type_and_format sample_go empty_property (over ShapeKind.slice item_shape))
set_type_and_format-RefsIn_example =
    set_type_and_format-RefsIn sample_go (over ShapeKind.slice item_shape)

referenced_schema_names-NamedIn_example :
    NamedIn
      (referenced_schema_names sample_routes sample_types)
      (object_properties sample_go order_fields).0
referenced_schema_names-NamedIn_example =
    referenced_schema_names-NamedIn sample_go order_type "Order" sample_routes sample_types
      (inl refl)
