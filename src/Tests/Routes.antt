-- ===== src/Tests/Routes.antt =====
-- The routes of the sample project, and ids that are taken.
use go_bricks_openapi.Prelude.{String, ◌≡◌, ◌↔◌, some, map, In, All, Distinct}
use go_bricks_openapi.Prelude.Dict.{Dict, lookup}
use go_bricks_openapi.Models.{Route}
use go_bricks_openapi.Routes.Emitted.{emitted_routes, route_key}
use go_bricks_openapi.Routes.Ids.{assign_operation_ids}
use go_bricks_openapi.Routes.First.{first_of, emitted_routes-First}
use go_bricks_openapi.Routes.Unique.{assign_operation_ids-All}
use go_bricks_openapi.Tests.Sample.{sample_go, sample_routes}

emitted_routes-First_example :
    ((r : Route)
      → In r (emitted_routes sample_go sample_routes)
        ↔ (first_of sample_go (route_key sample_go r) sample_routes ≡ some r))
    × Distinct (map (route_key sample_go) (emitted_routes sample_go sample_routes))
emitted_routes-First_example = emitted_routes-First sample_go sample_routes

assign_operation_ids-All_example :
    (ids : Dict String) × (assign_operation_ids sample_go sample_routes ≡ some ids)
    × All (λ r. (id : String) × (lookup (route_key sample_go r) ids ≡ some id)) sample_routes
assign_operation_ids-All_example = assign_operation_ids-All sample_go sample_routes

sample_ids : (ids : Dict String) × (assign_operation_ids sample_go sample_routes ≡ some ids)
sample_ids = let (ids, run, rest) = assign_operation_ids-All sample_go sample_routes in (ids, run)
