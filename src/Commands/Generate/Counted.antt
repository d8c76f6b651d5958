-- ===== src/Commands/Generate/Counted.antt =====
-- The report of an analysis, internal/commands/generate.go: it ends with the number of warnings, and
-- leaves the files alone.
use go_bricks_openapi.Prelude.{
  ℕ, suc, ◌+◌, String, ◌≡◌, refl, Bool, not, List, [], ◌∷◌, ◌==◌, length, arith, ap, ◌∙◌,
  if◌then◌else◌,
}
use go_bricks_openapi.Go.{Go}
use go_bricks_openapi.Go.Strings.{str_append}
use go_bricks_openapi.Models.{Module, Project}
use go_bricks_openapi.Commands.Monad.{
  Run, done, ◌>>=◌, pure, println, eprintln, Gives, Gives-bind, when-Gives,
}
use go_bricks_openapi.Commands.System.{System, Versions}
use go_bricks_openapi.Commands.Stats.{content_warnings, untyped_warnings, calculate_project_stats}
use go_bricks_openapi.Commands.Unresolved.{unresolved_route_count_line}
use go_bricks_openapi.Commands.Compat.{go_bricks_version_warning}
use go_bricks_openapi.Commands.Options.{GenerateOptions}
use go_bricks_openapi.Commands.Generate.{
  Analysis, Tools, wrap, warn_each, emit_content_warnings, list_modules, report_analysis,
  show_modules, show_unresolved, show_version_warning, report_warnings, report_count,
  report_project, analyze_project,
}

-- The lines that warn about the content of a project.
unfoldable pub content_lines : Project → ℕ
content_lines p =
    let stats = calculate_project_stats p in
    length (content_warnings stats) + length (untyped_warnings stats.untyped_routes)

-- The warnings of an analysis: its own, those about the content and that about the version.
abbrev pub warning_lines : Analysis → Bool → ℕ
warning_lines a versioned =
    length a.warnings + content_lines a.project + (if versioned then 1 else 0)

module _ {W : Type 0} where
  warn_each-Gives :
      (count : ℕ) (lines : List String) (r : Run W)
      → Gives r (done (count + length lines)) (warn_each count lines r)
  unfolding warn_each
  warn_each-Gives count [] r = (ap done (omega arith), refl)
  warn_each-Gives count (line ∷ lines) r =
      let (ends, same) =
        warn_each-Gives (suc count) lines (eprintln (str_append "warning: " line) r).1 in
      (ends ∙ ap done (omega arith), same)

  emit_content_warnings-Gives :
      (p : Project) (r : Run W) → Gives r (done (content_lines p)) (emit_content_warnings p r)
  unfolding emit_content_warnings content_lines
  emit_content_warnings-Gives p r =
      let stats = calculate_project_stats p in
      let first = content_warnings stats in
      let second = untyped_warnings stats.untyped_routes in
      Gives-bind (warn_each 0 first) (λ count. warn_each count second) (length first)
        (done (content_lines p)) r
        (let (ends, same) = warn_each-Gives 0 first r in (ends ∙ ap done (omega arith), same))
        (λ r' q. warn_each-Gives (length first) second r')

  list_modules-Gives : (ms : List Module) (r : Run W) → Gives r (done tt) (list_modules ms r)
  unfolding list_modules
  list_modules-Gives [] r = (refl, refl)
  list_modules-Gives (m ∷ ms) r = list_modules-Gives ms (println _ r).1

  show_modules-Gives :
      (opts : GenerateOptions) (p : Project) (r : Run W) → Gives r (done tt) (show_modules opts p r)
  unfolding show_modules
  show_modules-Gives opts p r = when-Gives opts.verbose _ r (list_modules-Gives p.modules _)

  report_count-Gives :
      (a : Analysis) (count : ℕ) (r : Run W) → Gives r (done (a, count)) (report_count a count r)
  unfolding report_count show_unresolved
  report_count-Gives a count r =
      Gives-bind (show_unresolved a.unresolved) (λ u. pure (a, count)) tt (done (a, count)) _
        (when-Gives (not (unresolved_route_count_line a.unresolved == "")) _ _ (refl, refl))
        (λ r' q. (refl, refl))

  report_warnings-Gives :
      (a : Analysis) (versioned : Bool) (r : Run W)
      → Gives r (done (a, warning_lines a versioned)) (report_warnings a versioned r)
  unfolding report_warnings
  report_warnings-Gives a versioned r =
      let one = if versioned then 1 else 0 in
      let n = length a.warnings in
      let out = done (a, warning_lines a versioned) in
      Gives-bind (warn_each 0 a.warnings)
        (λ t. emit_content_warnings a.project >>= λ m. report_count a (n + m + one)) n out r
        (let (ends, same) = warn_each-Gives 0 a.warnings r in (ends ∙ ap done (omega arith), same))
        λ r1 q.
          Gives-bind (emit_content_warnings a.project) (λ m. report_count a (n + m + one))
            (content_lines a.project) out r1 (emit_content_warnings-Gives a.project r1)
            λ r2 k. report_count-Gives a (n + content_lines a.project + one) r2

  report_project-Gives :
      (opts : GenerateOptions) (versioned : Bool) (a : Analysis) (r : Run W)
      → Gives r (done (a, warning_lines a versioned)) (report_project opts versioned a r)
  unfolding report_project
  report_project-Gives opts versioned a r =
      Gives-bind (show_modules opts a.project) (λ u. report_warnings a versioned) tt
        (done (a, warning_lines a versioned)) r (show_modules-Gives opts a.project r)
        (λ r1 q. report_warnings-Gives a versioned r1)

module _ (go : Go) {W : Type 0} (sys : System W) (v : Versions) (tools : Tools go W) where
  -- Where the analysis succeeds, so does its report.
  pub report_analysis-Gives :
      (opts : GenerateOptions) (a : Analysis) (r : Run W)
      → tools.analyze r.files opts.project_root ≡ done a
      → Gives r
          (done (
            a,
            warning_lines a (not (go_bricks_version_warning sys v r.files opts.project_root == "")),
          ))
          (report_analysis go sys v tools opts r)
  unfolding report_analysis analyze_project show_version_warning wrap
  report_analysis-Gives opts a r analyzed =
      let w = go_bricks_version_warning sys v r.files opts.project_root in
      let versioned = not (w == "") in
      let out = done (a, warning_lines a versioned) in
      Gives-bind (show_version_warning w)
        (λ u. analyze_project go sys v tools opts >>= λ b. report_project opts versioned b) tt out r
        (when-Gives versioned _ r (refl, refl))
        λ r1 q.
          Gives-bind (analyze_project go sys v tools opts) (λ b. report_project opts versioned b) a
            out r1 (rw (q, analyzed) (refl, refl))
            (λ r2 k. report_project-Gives opts versioned a r2)
