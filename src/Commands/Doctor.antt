-- ===== src/Commands/Doctor.antt =====
-- The doctor command of internal/commands/doctor.go: its three checks, and the diagnostics that run
-- only if they pass.
pub mod Checks
pub mod Health
use go_bricks_openapi.Prelude.{
  ℕ, suc, ◌+◌, String, Bool, true, false, not, ◌&&◌, ◌||◌, Option, none, some, List, [], ◌∷◌, ◌++◌,
  ◌==◌, ltb, eqb, length, is_empty, is_some, if◌then◌else◌,
}
use go_bricks_openapi.Prelude.Int.{pos, leb_ℤ}
use go_bricks_openapi.Go.{Go}
use go_bricks_openapi.Go.Strconv.{itoa}
use go_bricks_openapi.Go.Strings.{has_prefix, has_suffix}
use go_bricks_openapi.Commands.Monad.{
  Run, Result, done, failed, Action, ◌<>◌, sel, ◌>>=◌, ◌>>◌, pure, fail, println, println_each,
  when, gets,
}
use go_bricks_openapi.Commands.System.{
  System, Versions, Stat, present, absent, denied, Tree, leaf_file, directory, no_access, Forest,
  no_entry, and_entry,
}
use go_bricks_openapi.Commands.Stats.{ProjectStats, calculate_project_stats, content_warnings}
use go_bricks_openapi.Commands.Unresolved.{
  UnresolvedRoute, unresolved_route_count_line, unresolved_route_locations,
}
use go_bricks_openapi.Commands.Compat.{go_mod_file, validate_path, check_go_bricks_compatibility}
use go_bricks_openapi.Commands.Generate.{Analysis, Tools}

pub record DoctorOptions : Type 0 where
  pub project_root : String
  pub verbose : Bool
  pub go_version : String

abbrev pub min_go_version : String
min_go_version = "go1.26"

unfoldable pub is_go_version_supported : Versions → String → Bool
is_go_version_supported v go_ver =
    if not (v.go_is_valid go_ver)
    then false
    else leb_ℤ (pos 0) (v.go_compare (v.go_lang go_ver) min_go_version)

-- Whether the callback passes over a directory of this name.
unfoldable pub skips_directory : String → Bool
skips_directory name = has_prefix b'.' name || name == "vendor" || name == "node_modules"

unfoldable pub is_source_file : String → Bool
is_source_file path = has_suffix ".go" path && not (has_suffix "_test.go" path)

-- The walk for a first Go file. A walk that has found one stops, so that what follows is not
-- visited.
unfoldable mutual
  pub finds_go_file : Tree → Bool
  finds_go_file (leaf_file path) = is_source_file path
  finds_go_file no_access = false
  finds_go_file (directory name entries) =
      let inside = finds_in_entries entries in if skips_directory name then false else inside

  pub finds_in_entries : Forest → Bool
  finds_in_entries no_entry = false
  finds_in_entries (and_entry t rest) = finds_go_file t || finds_in_entries rest

unfoldable pub bulleted : List String → List String
bulleted [] = []
bulleted (h ∷ hs) = ("      • " <> h) ∷ bulleted hs

unfoldable pub cautioned : List String → List String
cautioned [] = []
cautioned (w ∷ ws) = ("⚠" <> sel <> "  " <> w) ∷ cautioned ws

-- `percent n m` is n * 100 / m on float64, printed with one digit.
module _ {W : Type 0} (percent : ℕ → ℕ → String) where
  unfoldable pub display_untyped : List String → Bool → Action W (Unit {0})
  display_untyped names verbose =
      println ("   ⚠" <> sel <> "  Routes without type information: " <> itoa (pos (length names)))
      >>= λ _. when verbose (println "      Missing types for:" >> println_each (bulleted names))

  unfoldable pub display_coverage : ProjectStats → Bool → Action W (Unit {0})
  display_coverage stats verbose =
      println (
        "   ✨ Typed routes: "
        <> itoa (pos stats.typed_routes)
        <> "/"
        <> itoa (pos stats.route_count)
        <> " ("
        <> percent stats.typed_routes stats.route_count
        <> "%)")
      >>= λ _.
          when verbose (
            println ("      • Request types: " <> itoa (pos stats.typed_request_routes))
            >> println ("      • Response types: " <> itoa (pos stats.typed_response_routes)))
          >>= λ _.
              when (not (is_empty stats.untyped_routes))
                (display_untyped stats.untyped_routes verbose)

  unfoldable pub display_project_stats : ProjectStats → Bool → Action W (Unit {0})
  display_project_stats stats verbose =
      println ("   📦 Modules discovered: " <> itoa (pos stats.module_count)) >>= λ _.
      println ("   🛣" <> sel <> "  Routes discovered: " <> itoa (pos stats.route_count)) >>= λ _.
      when (ltb 0 stats.route_count) (display_coverage stats verbose)

  unfoldable pub display_unresolved : List UnresolvedRoute → Action W (Unit {0})
  display_unresolved rs =
      println ("   🚧 " <> unresolved_route_count_line rs)
      >> println_each (bulleted (unresolved_route_locations rs))

  -- The lines about a project, and whether one of them is a caveat.
  unfoldable pub diagnose : Analysis → Bool → Action W Bool
  diagnose a verbose =
      let stats = calculate_project_stats a.project in
      let unresolved = not (unresolved_route_count_line a.unresolved == "") in
      display_project_stats stats verbose >>= λ _.
      println_each (cautioned (content_warnings stats)) >>= λ _.
      when unresolved (display_unresolved a.unresolved) >>= λ _.
      println_each (cautioned a.warnings) >>= λ _. pure (
        not (is_empty (content_warnings stats))
        || not (is_empty stats.untyped_routes)
        || unresolved
        || not (is_empty a.warnings))

  unfoldable pub diagnose_result : Result Analysis → Bool → Action W Bool
  diagnose_result (failed e) verbose =
      println ("⚠" <> sel <> "  Module analysis failed: " <> e) >> pure true
  diagnose_result (done a) verbose = diagnose a verbose

unfoldable pub resolve_project_path : {W : Type 0} → System W → String → Result String
resolve_project_path sys root =
    if sys.is_abs (sys.clean root) then done (sys.clean root) else elim (sys.abs (sys.clean root)) [
      | done path ↦ done path
      | failed e ↦ failed ("failed to resolve absolute path for " <> root <> ": " <> e)
    ]

abbrev pub prefixed : String → Option String → Option String
prefixed front none = none
prefixed front (some e) = some (front <> e)

module _ {W : Type 0} (sys : System W) where
  -- The error, or none. The callback of the walk returns no error, so that the walk has none.
  unfoldable pub check_files : W → String → Option String
  check_files files root = elim (validate_path sys files root) [
    | some e ↦ some e
    | none ↦
        if finds_go_file (sys.walk files root) then none else some "no Go files found in project"
  ]

  unfoldable pub check_project_structure : W → String → Option String
  check_project_structure files project_root = elim (resolve_project_path sys project_root) [
    | failed e ↦ some e
    | done root ↦ check_files files root
  ]

  -- A check that says whether it failed: the flag is turned on, or left as it is.
  unfoldable pub report_check : Option String → String → Bool → Action W Bool
  report_check none fine has_errors = println fine >> pure has_errors
  report_check (some line) fine has_errors = println line >> pure true

  unfoldable pub perform_project_structure_check : DoctorOptions → Bool → Action W Bool
  perform_project_structure_check opts has_errors =
      println ("📁 Project Root: " <> opts.project_root) >>= λ _.
      gets (λ files. check_project_structure files opts.project_root) >>= λ err.
      report_check (prefixed "❌ Project structure: " err) "✅ Project structure valid" has_errors

  module _ (v : Versions) where
    unfoldable pub go_version_of : DoctorOptions → String
    go_version_of opts = if opts.go_version == "" then sys.runtime_version else opts.go_version

    unfoldable pub perform_go_version_check : DoctorOptions → Bool → Action W Bool
    perform_go_version_check opts has_errors =
        println ("📋 Go Version: " <> go_version_of opts) >>= λ _.
        report_check
          (if is_go_version_supported v (go_version_of opts)
            then none
            else some "❌ Go 1.26+ required")
          "✅ Go version compatible" has_errors

    unfoldable pub check_compatibility : String → Bool → Bool → Action W Bool
    check_compatibility go_mod_path verbose has_errors = println "✅ go.mod found" >>= λ _.
        check_go_bricks_compatibility sys v go_mod_path verbose >>= λ err.
        pure (is_some err || has_errors)

    unfoldable pub check_go_mod : Stat → String → Bool → Bool → Action W Bool
    check_go_mod present path verbose has_errors = check_compatibility path verbose has_errors
    check_go_mod absent path verbose has_errors = println "❌ No go.mod found" >> pure true
    check_go_mod (denied e) path verbose has_errors = println "❌ No go.mod found" >> pure true

    unfoldable pub perform_go_mod_check : DoctorOptions → Bool → Action W Bool
    perform_go_mod_check opts has_errors =
        let path = sys.join_path opts.project_root go_mod_file in
        gets (λ files. sys.stat files path) >>= λ found.
        check_go_mod found path opts.verbose has_errors

module _ (go : Go) {W : Type 0} (sys : System W) (v : Versions) (tools : Tools go W)
    (percent : ℕ → ℕ → String) where
  unfoldable pub run_module_diagnostics : DoctorOptions → Action W Bool
  run_module_diagnostics opts r =
      diagnose_result percent (tools.analyze r.files opts.project_root) opts.verbose r

  unfoldable pub perform_diagnostics_check : DoctorOptions → Action W Bool
  perform_diagnostics_check opts = println "" >>= λ _. println "📊 Project Diagnostics:" >>= λ _.
      run_module_diagnostics opts >>= λ has_warnings. println "" >>= λ _.
      println ("🔧 GOROOT: " <> sys.goroot) >>= λ _.
      println ("🔧 GOPATH: " <> sys.gopath) >>= λ _. pure has_warnings

  -- The summary at the end.
  unfoldable pub summarise : Bool → Bool → Action W (Unit {0})
  summarise has_errors has_warnings = println "" >>= λ _.
      if has_errors
      then println "❌ Health check failed - please fix the issues above"
        >> fail "health check failed"
      else if has_warnings
      then println
          ("⚠" <> sel <> "  Ready with caveats - review the warnings above before generating")
      else println "✅ All checks passed - ready to generate OpenAPI specs!"

  unfoldable pub run_checks : DoctorOptions → Action W Bool
  run_checks opts = perform_go_version_check sys v opts false >>= λ version_bad.
      perform_project_structure_check sys opts version_bad >>= λ structure_bad.
      perform_go_mod_check sys v opts structure_bad

  unfoldable pub diagnose_and_summarise : DoctorOptions → Bool → Action W (Unit {0})
  diagnose_and_summarise opts has_errors =
      (if has_errors then pure false else perform_diagnostics_check opts) >>= λ has_warnings.
      summarise has_errors has_warnings

  unfoldable pub run_doctor : DoctorOptions → Action W (Unit {0})
  run_doctor opts = println "🏥 Running go-bricks-openapi health check..." >>= λ _.
      println "" >>= λ _. run_checks opts >>= λ has_errors. diagnose_and_summarise opts has_errors
