-- ===== src/Routes/Emitted.antt =====
-- Flattening the modules' routes, the key of a route, and the first route of each key.
use go_bricks_openapi.Prelude.{
  String, Option, none, some, List, [], ◌∷◌, ◌++◌, ◌==◌, map, one_of, if◌then◌else◌,
}
use go_bricks_openapi.Prelude.Dict.{Dict, lookup, insert}
use go_bricks_openapi.Go.{Go}
use go_bricks_openapi.Go.Strings.{str_append}
use go_bricks_openapi.Models.{Route, Module, Project}

abbrev pub or_text : String → String → String
or_text s d = if s == "" then d else s

-- A route with its module's name and package where the analyzer left them empty.
unfoldable pub stamp_route : Module → Route → Route
stamp_route m r = record r {
  module_name = or_text r.module_name m.name;
  package_name = or_text r.package_name m.package_name;
}

unfoldable pub routes_of : List Module → List Route
routes_of [] = []
routes_of (m ∷ ms) = map (stamp_route m) m.routes ++ routes_of ms

unfoldable pub get_all_routes : Project → List Route
get_all_routes p = routes_of p.modules

-- append(groups[path], route)
abbrev pub grouped : Option (List Route) → Route → List Route
grouped none r = r ∷ []
grouped (some rs) r = rs ++ r ∷ []

unfoldable pub group_from : Dict (List Route) → List Route → Dict (List Route)
group_from groups [] = groups
group_from groups (r ∷ rs) = group_from (insert r.path (grouped (lookup r.path groups) r) groups) rs

unfoldable pub group_routes_by_path : List Route → Dict (List Route)
group_routes_by_path rs = group_from [] rs

module _ (go : Go) where
  open go use {to_upper}

  unfoldable pub route_key : Route → String
  route_key r = str_append (to_upper r.method) (str_append " " r.path)

  -- The loop of emittedRoutes over seen and the routes.
  unfoldable pub emitted_from : List String → List Route → List Route
  emitted_from seen [] = []
  emitted_from seen (r ∷ rs) =
      let skip = emitted_from seen rs in
      let keep = r ∷ emitted_from (route_key r ∷ seen) rs in
      if one_of (route_key r) seen then skip else keep

  unfoldable pub emitted_routes : List Route → List Route
  emitted_routes rs = emitted_from [] rs
