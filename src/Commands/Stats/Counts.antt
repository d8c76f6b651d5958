-- ===== src/Commands/Stats/Counts.antt =====
-- What the statistics of internal/commands/doctor.go count.
use go_bricks_openapi.Prelude.{
  ℕ, suc, ◌+◌, ◌≤◌, String, ◌≡◌, refl, Bool, ◌||◌, List, [], ◌∷◌, ◌++◌, length, arith, sym, ◌∙◌,
  if◌then◌else◌,
}
use mathlib.Core.List.{append-nil, append_assoc}
use go_bricks_openapi.Models.{Route, Module, Project}
use go_bricks_openapi.Analyzer.Payload.{is_typed_payload}
use go_bricks_openapi.Commands.Stats.{
  ProjectStats, classify_route, update_stats_for_route, update_stats_for_routes,
  update_stats_for_modules, calculate_project_stats,
}

-- The analyzer resolved the request or the response.
pub is_typed : Route → Bool
is_typed r = is_typed_payload r.request || is_typed_payload r.response

-- The name under which a route without a type is listed.
pub shown_as : Route → String
unfolding classify_route
shown_as r = (classify_route r).handler_id

abbrev pub module_routes : List Module → List Route
module_routes [] = []
module_routes (m ∷ ms) = m.routes ++ module_routes ms

pub count_routes : (Route → Bool) → List Route → ℕ
count_routes p [] = 0
count_routes p (r ∷ rs) = if p r then suc (count_routes p rs) else count_routes p rs

pub untyped_names : List Route → List String
untyped_names [] = []
untyped_names (r ∷ rs) = if is_typed r then untyped_names rs else shown_as r ∷ untyped_names rs

-- The counts of `stats` with those of some routes added.
record Adds (before after : ProjectStats) (rs : List Route) : Type 0 where
  typed : after.typed_routes ≡ before.typed_routes + count_routes is_typed rs
  requests :
      after.typed_request_routes
      ≡ before.typed_request_routes + count_routes (λ r. is_typed_payload r.request) rs
  responses :
      after.typed_response_routes
      ≡ before.typed_response_routes + count_routes (λ r. is_typed_payload r.response) rs
  untyped : after.untyped_routes ≡ before.untyped_routes ++ untyped_names rs

Adds-nil : (stats : ProjectStats) → Adds stats stats []
unfolding count_routes untyped_names
Adds-nil stats = record {
  typed = omega arith;
  requests = omega arith;
  responses = omega arith;
  untyped = sym (append-nil stats.untyped_routes);
}

Adds-cons :
    (stats after : ProjectStats) (r : Route) (rs : List Route)
    → Adds (update_stats_for_route stats r) after rs
    → Adds stats after (r ∷ rs)
unfolding update_stats_for_route classify_route count_routes untyped_names is_typed shown_as
Adds-cons stats after r rs h = record {
  typed = ground (arith, h.typed);
  requests = ground (arith, h.requests);
  responses = ground (arith, h.responses);
  untyped =
      ground
        (arith, h.untyped, append_assoc stats.untyped_routes (shown_as r ∷ []) (untyped_names rs));
}

update_stats_for_routes-Adds :
    (stats : ProjectStats) (rs : List Route) → Adds stats (update_stats_for_routes stats rs) rs
unfolding update_stats_for_routes
update_stats_for_routes-Adds stats [] = Adds-nil stats
update_stats_for_routes-Adds stats (r ∷ rs) =
    let after = update_stats_for_routes (update_stats_for_route stats r) rs in
    Adds-cons stats after r rs (update_stats_for_routes-Adds (update_stats_for_route stats r) rs)

update_stats_for_routes_counts :
    (stats : ProjectStats) (rs : List Route)
    → ((update_stats_for_routes stats rs).route_count ≡ stats.route_count)
      × ((update_stats_for_routes stats rs).module_count ≡ stats.module_count)
unfolding update_stats_for_routes update_stats_for_route
update_stats_for_routes_counts stats [] = (refl, refl)
update_stats_for_routes_counts stats (r ∷ rs) =
    update_stats_for_routes_counts (update_stats_for_route stats r) rs

count_routes-append :
    (p : Route → Bool) (rs ss : List Route)
    → count_routes p (rs ++ ss) ≡ count_routes p rs + count_routes p ss
unfolding count_routes
count_routes-append p [] ss = omega arith
count_routes-append p (r ∷ rs) ss = ground (arith, count_routes-append p rs ss)

untyped_names-append :
    (rs ss : List Route) → untyped_names (rs ++ ss) ≡ untyped_names rs ++ untyped_names ss
unfolding untyped_names
untyped_names-append [] ss = refl
untyped_names-append (r ∷ rs) ss = ground (arith, untyped_names-append rs ss)

length-append_routes : (rs ss : List Route) → length (rs ++ ss) ≡ length rs + length ss
length-append_routes [] ss = omega arith
length-append_routes (r ∷ rs) ss = omega (arith, length-append_routes rs ss)

Adds-append :
    (a b c : ProjectStats) (rs ss : List Route) → Adds a b rs → Adds b c ss → Adds a c (rs ++ ss)
Adds-append a b c rs ss h k = record {
  typed = omega (arith, h.typed, k.typed, count_routes-append is_typed rs ss);
  requests =
      omega (
        arith,
        h.requests,
        k.requests,
        count_routes-append (λ r. is_typed_payload r.request) rs ss,
      );
  responses = omega (
    arith,
    h.responses,
    k.responses,
    count_routes-append (λ r. is_typed_payload r.response) rs ss,
  );
  untyped =
      rw (k.untyped, h.untyped, untyped_names-append rs ss)
        (append_assoc a.untyped_routes (untyped_names rs) (untyped_names ss));
}

-- What a count of the routes leaves alone.
Adds-route_count :
    (stats after : ProjectStats) (n : ℕ) (rs : List Route)
    → Adds (record stats { route_count = n }) after rs
    → Adds stats after rs
Adds-route_count stats after n rs h = record {
  typed = h.typed;
  requests = h.requests;
  responses = h.responses;
  untyped = h.untyped;
}

update_stats_for_modules-Adds :
    (stats : ProjectStats) (ms : List Module)
    → Adds stats (update_stats_for_modules stats ms) (module_routes ms)
unfolding update_stats_for_modules
update_stats_for_modules-Adds stats [] = Adds-nil stats
update_stats_for_modules-Adds stats (m ∷ ms) =
    let counted = record stats { route_count = stats.route_count + length m.routes } in
    let after = update_stats_for_routes counted m.routes in
    Adds-append stats after (update_stats_for_modules after ms) m.routes (module_routes ms)
      (Adds-route_count stats after (stats.route_count + length m.routes) m.routes
        (update_stats_for_routes-Adds counted m.routes))
      (update_stats_for_modules-Adds after ms)

update_stats_for_modules_counts :
    (stats : ProjectStats) (ms : List Module)
    → ((update_stats_for_modules stats ms).route_count
        ≡ stats.route_count + length (module_routes ms))
      × ((update_stats_for_modules stats ms).module_count ≡ stats.module_count)
unfolding update_stats_for_modules
update_stats_for_modules_counts stats [] = omega arith
update_stats_for_modules_counts stats (m ∷ ms) =
    let counted = record stats { route_count = stats.route_count + length m.routes } in
    let after = update_stats_for_routes counted m.routes in
    let (c, n) = update_stats_for_routes_counts counted m.routes in
    let (d, k) = update_stats_for_modules_counts after ms in
    (omega (arith, c, d, length-append_routes m.routes (module_routes ms)), k ∙ n)

-- The statistics of a project are counts over all routes of its modules: of the routes, of those
-- with a resolved request or response, of each of the two, and the names of the others in order.
pub calculate_project_stats-counts :
    (p : Project)
    → let s = calculate_project_stats p in
      let rs = module_routes p.modules in
      (s.module_count ≡ length p.modules)
      × (s.route_count ≡ length rs)
      × (s.typed_routes ≡ count_routes is_typed rs)
      × (s.typed_request_routes ≡ count_routes (λ r. is_typed_payload r.request) rs)
      × (s.typed_response_routes ≡ count_routes (λ r. is_typed_payload r.response) rs)
      × (s.untyped_routes ≡ untyped_names rs)
unfolding calculate_project_stats
calculate_project_stats-counts p =
    let (c, n) = update_stats_for_modules_counts _ p.modules in
    let h = update_stats_for_modules-Adds _ p.modules in
    (
      n,
      omega (arith, c),
      omega (arith, h.typed),
      omega (arith, h.requests),
      omega (arith, h.responses),
      h.untyped,
    )

count_routes_split :
    (rs : List Route)
    → (count_routes is_typed rs + length (untyped_names rs) ≡ length rs)
      × (count_routes (λ r. is_typed_payload r.request) rs ≤ count_routes is_typed rs)
      × (count_routes (λ r. is_typed_payload r.response) rs ≤ count_routes is_typed rs)
      × (count_routes is_typed rs
          ≤ count_routes (λ r. is_typed_payload r.request) rs
            + count_routes (λ r. is_typed_payload r.response) rs)
unfolding count_routes untyped_names is_typed
count_routes_split [] = omega arith
count_routes_split (r ∷ rs) = ground (arith, count_routes_split rs)

-- The typed routes and the listed untyped ones are all routes together; the typed routes are at
-- least as many as those with a typed request and those with a typed response, and at most the sum
-- of both.
pub calculate_project_stats_add_up :
    (p : Project)
    → let s = calculate_project_stats p in
      (s.typed_routes + length s.untyped_routes ≡ s.route_count)
      × (s.typed_request_routes ≤ s.typed_routes)
      × (s.typed_response_routes ≤ s.typed_routes)
      × (s.typed_routes ≤ s.typed_request_routes + s.typed_response_routes)
calculate_project_stats_add_up p =
    let (n, c, t, q, a, u) = calculate_project_stats-counts p in
    let split = count_routes_split (module_routes p.modules) in rw (c, t, q, a, u) split
