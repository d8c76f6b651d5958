-- ===== src/Commands/Stats.antt =====
-- The statistics of a project in internal/commands/doctor.go and the content warnings that
-- internal/commands/generate.go makes of them.
pub mod Counts
use go_bricks_openapi.Prelude.{
  ℕ, suc, ◌+◌, String, ◌≡◌, Bool, true, false, not, ◌||◌, List, [], ◌∷◌, ◌++◌, ◌==◌, eqb, length,
  is_empty, ◌≤◌, refl, arith, if◌then◌else◌, Bool-cases,
}
use go_bricks_openapi.Prelude.Int.{pos}
use go_bricks_openapi.Go.Strconv.{itoa}
use go_bricks_openapi.Models.{Route, Module, Project}
use go_bricks_openapi.Analyzer.Payload.{is_typed_payload}
use go_bricks_openapi.Commands.Monad.{◌<>◌}

pub record ProjectStats : Type 0 where
  pub module_count : ℕ
  pub route_count : ℕ
  pub typed_routes : ℕ
  pub typed_request_routes : ℕ
  pub typed_response_routes : ℕ
  pub untyped_routes : List String

pub record RouteClassification : Type 0 where
  pub has_request : Bool
  pub has_response : Bool
  pub handler_id : String

unfoldable pub classify_route : Route → RouteClassification
classify_route r = record {
  has_request = is_typed_payload r.request;
  has_response = is_typed_payload r.response;
  handler_id = if r.handler_name == "" then r.method <> " " <> r.path else r.handler_name;
}

abbrev count_if : Bool → ℕ → ℕ
count_if true n = suc n
count_if false n = n

unfoldable pub update_stats_for_route : ProjectStats → Route → ProjectStats
update_stats_for_route stats r =
    let c = classify_route r in
    let typed = c.has_request || c.has_response in
    record stats {
      typed_routes = count_if typed stats.typed_routes;
      untyped_routes =
          if typed then stats.untyped_routes else stats.untyped_routes ++ (c.handler_id ∷ []);
      typed_request_routes = count_if c.has_request stats.typed_request_routes;
      typed_response_routes = count_if c.has_response stats.typed_response_routes;
    }

-- The two loops of calculateProjectStats.
unfoldable pub update_stats_for_routes : ProjectStats → List Route → ProjectStats
update_stats_for_routes stats [] = stats
update_stats_for_routes stats (r ∷ rs) = update_stats_for_routes (update_stats_for_route stats r) rs

unfoldable pub update_stats_for_modules : ProjectStats → List Module → ProjectStats
update_stats_for_modules stats [] = stats
update_stats_for_modules stats (m ∷ ms) =
    update_stats_for_modules
      (update_stats_for_routes (record stats { route_count = stats.route_count + length m.routes })
        m.routes)
      ms

unfoldable pub calculate_project_stats : Project → ProjectStats
calculate_project_stats p =
    update_stats_for_modules
      (record {
        module_count = length p.modules;
        route_count = 0;
        typed_routes = 0;
        typed_request_routes = 0;
        typed_response_routes = 0;
        untyped_routes = [];
      })
      p.modules

unfoldable pub content_warnings : ProjectStats → List String
content_warnings stats =
    if eqb stats.module_count 0
    then "no go-bricks modules discovered — the spec has no operations" ∷ []
    else if eqb stats.route_count 0
    then "modules discovered but no routes — the spec has no operations" ∷ []
    else []

-- strings.Join
unfoldable pub join : String → List String → String
join sep [] = ""
join sep (s ∷ []) = s
join sep (s ∷ t ∷ ts) = s <> sep <> join sep (t ∷ ts)

-- The warning of emitContentWarnings about routes without a type.
unfoldable pub untyped_warnings : List String → List String
untyped_warnings names =
    if is_empty names
    then []
    else (itoa (pos (length names))
        <> " route(s) have no resolved request/response type: "
        <> join ", " names)
      ∷ []
