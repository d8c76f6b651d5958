-- ===== src/Commands/Doctor/Checks.antt =====
-- The steps of the doctor command of internal/commands/doctor.go: with which result each ends. None
-- changes a file.
use go_bricks_openapi.Prelude.{
  ℕ, String, refl, Bool, true, not, ◌||◌, Option, none, some, List, [], ◌∷◌, ◌==◌, ltb, is_empty,
  is_some,
}
use go_bricks_openapi.Commands.Monad.{
  Run, Result, done, failed, ◌>>=◌, pure, println, println_each, when, Gives, Gives-bind,
  when-Gives,
}
use go_bricks_openapi.Commands.System.{System}
use go_bricks_openapi.Commands.Stats.{ProjectStats, calculate_project_stats, content_warnings}
use go_bricks_openapi.Commands.Unresolved.{
  UnresolvedRoute, unresolved_route_count_line, unresolved_route_locations,
}
use go_bricks_openapi.Commands.Generate.{Analysis}
use go_bricks_openapi.Commands.Doctor.{
  bulleted, cautioned, display_untyped, display_coverage, display_project_stats, display_unresolved,
  diagnose, diagnose_result, report_check,
}

module _ {W : Type 0} where
  println_each-Gives : (lines : List String) (r : Run W) → Gives r (done tt) (println_each lines r)
  unfolding println_each
  println_each-Gives [] r = (refl, refl)
  println_each-Gives (line ∷ lines) r = println_each-Gives lines (println line r).1

  println_each-Gives_then :
      (lines : List String) (b : Bool) (r : Run W)
      → Gives r (done b) ((println_each lines >>= λ u. pure b) r)
  println_each-Gives_then lines b r =
      Gives-bind (println_each lines) (λ u. pure b) tt (done b) r (println_each-Gives lines r)
        (λ r' q. (refl, refl))

  pub report_check-Gives :
      (sys : System W) (err : Option String) (fine : String) (flag : Bool) (r : Run W)
      → Gives r (done (is_some err || flag)) (report_check sys err fine flag r)
  unfolding report_check
  report_check-Gives sys none fine flag r = (refl, refl)
  report_check-Gives sys (some e) fine flag r = (refl, refl)

-- Whether the diagnostics of a project have a caveat.
pub has_caveat : Analysis → Bool
has_caveat a =
    let stats = calculate_project_stats a.project in
    not (is_empty (content_warnings stats))
    || not (is_empty stats.untyped_routes)
    || not (unresolved_route_count_line a.unresolved == "")
    || not (is_empty a.warnings)

module _ {W : Type 0} (percent : ℕ → ℕ → String) where
  display_untyped-Gives :
      (names : List String) (verbose : Bool) (r : Run W)
      → Gives r (done tt) (display_untyped percent names verbose r)
  unfolding display_untyped
  display_untyped-Gives names verbose r =
      when-Gives verbose _ _ (println_each-Gives (bulleted names) _)

  display_coverage-Gives :
      (stats : ProjectStats) (verbose : Bool) (r : Run W)
      → Gives r (done tt) (display_coverage percent stats verbose r)
  unfolding display_coverage
  display_coverage-Gives stats verbose r =
      Gives-bind (when verbose _)
        (λ u.
          when (not (is_empty stats.untyped_routes))
            (display_untyped percent stats.untyped_routes verbose))
        tt (done tt) _ (when-Gives verbose _ _ (refl, refl))
        λ r1 q.
          when-Gives (not (is_empty stats.untyped_routes)) _ r1
            (display_untyped-Gives stats.untyped_routes verbose r1)

  display_project_stats-Gives :
      (stats : ProjectStats) (verbose : Bool) (r : Run W)
      → Gives r (done tt) (display_project_stats percent stats verbose r)
  unfolding display_project_stats
  display_project_stats-Gives stats verbose r =
      when-Gives (ltb 0 stats.route_count) _ _ (display_coverage-Gives stats verbose _)

  display_unresolved-Gives :
      (rs : List UnresolvedRoute) (r : Run W) → Gives r (done tt) (display_unresolved percent rs r)
  unfolding display_unresolved
  display_unresolved-Gives rs r = println_each-Gives (bulleted (unresolved_route_locations rs)) _

  diagnose-Gives :
      (a : Analysis) (verbose : Bool) (r : Run W)
      → Gives r (done (has_caveat a)) (diagnose percent a verbose r)
  unfolding diagnose has_caveat
  diagnose-Gives a verbose r =
      let stats = calculate_project_stats a.project in
      let unresolved = not (unresolved_route_count_line a.unresolved == "") in
      let last =
        λ (u : Unit {0}). println_each (cautioned a.warnings) >>= λ _. pure (has_caveat a) in
      let third =
        λ (u : Unit {0}). when unresolved (display_unresolved percent a.unresolved) >>= last in
      let second = λ (u : Unit {0}). println_each (cautioned (content_warnings stats)) >>= third in
      let caveat = done (has_caveat a) in
      Gives-bind (display_project_stats percent stats verbose) second tt caveat r
        (display_project_stats-Gives stats verbose r)
        λ r1 q1.
          Gives-bind (println_each (cautioned (content_warnings stats))) third tt caveat r1
            (println_each-Gives (cautioned (content_warnings stats)) r1)
            λ r2 q2.
              Gives-bind (when unresolved (display_unresolved percent a.unresolved)) last tt caveat
                r2
                (when-Gives unresolved (display_unresolved percent a.unresolved) r2
                  (display_unresolved-Gives a.unresolved r2))
                λ r3 q3. println_each-Gives_then (cautioned a.warnings) (has_caveat a) r3

  pub diagnose_result-Gives :
      (res : Result Analysis) (verbose : Bool) (r : Run W)
      → (caveat : Bool) × Gives r (done caveat) (diagnose_result percent res verbose r)
  unfolding diagnose_result
  diagnose_result-Gives (failed e) verbose r = (true, (refl, refl))
  diagnose_result-Gives (done a) verbose r = (has_caveat a, diagnose-Gives a verbose r)
