-- ===== src/Tests/Documents.antt =====
-- The document of the sample project.
use go_bricks_openapi.Prelude.{String, ◌≡◌, refl, ap, ◌==◌, ◌↔◌, ◌⊎◌, inl, inr, true, some, In}
use go_bricks_openapi.Prelude.Dict.{Dict, lookup, keys, insert}
use go_bricks_openapi.Go.Strconv.{itoa}
use go_bricks_openapi.Routes.Emitted.{
  get_all_routes, routes_of, emitted_routes, emitted_from, route_key, stamp_route,
}
use go_bricks_openapi.Routes.Ids.{assign_operation_ids}
use go_bricks_openapi.Operations.Payloads.{ref_to}
use go_bricks_openapi.Operations.Responses.{
  build_responses, success_status_code, response, json_media_ref, error_schema_name,
  add_declared_error_responses, add_declared, base_error_responses, error_status_description,
}
use go_bricks_openapi.Operations.Replies.{json_schema}
use go_bricks_openapi.Operations.Paths.{build_paths}
use go_bricks_openapi.Components.Present.{SomeMentions}
use go_bricks_openapi.Components.Emission.{SomeEmits}
use go_bricks_openapi.Generate.{Document, generate, types_of}
use go_bricks_openapi.Generate.Complete.{
  emitted, referenced, emitted-unique_ids, generate-Complete, generate-error_schemas,
}
use go_bricks_openapi.Tests.Sample.{
  sample_go, list_route, get_route, sample_project, sample_generator,
}

generate-Complete_example :
    (doc : Document sample_go.Float) × (ids : Dict String) × (generate sample_go sample_generator
        sample_project
      ≡ some doc)
    × (assign_operation_ids sample_go (emitted sample_go sample_project) ≡ some ids)
    × (doc.paths ≡ build_paths sample_go true ids (emitted sample_go sample_project))
    × ((n : String)
        → In n (keys doc.schemas) ↔ (
            SomeMentions n (emitted sample_go sample_project)
            ⊎ SomeEmits n
                (referenced sample_go sample_project)
                (types_of sample_go sample_project)))
generate-Complete_example = generate-Complete sample_go sample_generator sample_project

-- The document of the sample, whichever it is.
sample_run :
    (doc : Document sample_go.Float) × (ids : Dict String) × (generate sample_go sample_generator
        sample_project
      ≡ some doc)
    × (assign_operation_ids sample_go (emitted sample_go sample_project) ≡ some ids)
sample_run =
    let (doc, ids, run, assigned, paths, names) =
      generate-Complete sample_go sample_generator sample_project in
    (doc, ids, run, assigned)

list_route-emitted : In list_route (emitted sample_go sample_project)
unfolding emitted_routes emitted_from get_all_routes routes_of route_key stamp_route
list_route-emitted = inl refl

get_route-emitted : In get_route (emitted sample_go sample_project)
unfolding emitted_routes emitted_from get_all_routes routes_of route_key stamp_route
get_route-emitted = inr (inl refl)

generate-error_schemas_example :
    (n : String) × (json_schema sample_go (response "Not Found" (json_media_ref "ErrorResponse"))
      ≡ some (ref_to n))
    × In n (keys (sample_run.0).schemas)
unfolding build_responses success_status_code error_schema_name add_declared_error_responses
    add_declared base_error_responses insert lookup itoa error_status_description
generate-error_schemas_example =
    generate-error_schemas sample_go sample_generator sample_project sample_run.0 list_route "404"
      (response "Not Found" (json_media_ref "ErrorResponse")) sample_run.2 list_route-emitted
      (λ e. let t = ap (λ s. s == "200") e in cc) refl

emitted-unique_ids_example : list_route ≡ list_route
emitted-unique_ids_example =
    emitted-unique_ids sample_go sample_project sample_run.1 list_route list_route sample_run.3
      list_route-emitted list_route-emitted refl
