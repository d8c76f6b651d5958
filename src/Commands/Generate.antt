-- ===== src/Commands/Generate.antt =====
-- runGenerate and runValidate of internal/commands/generate.go and validate.go. Their parameters are
-- the analyzer's result, the YAML text of a document, the libraries that re-emit it as JSON and the
-- OpenAPI validator.
pub mod Warned
pub mod Counted
pub mod Outcome
pub mod Success
pub mod Failure
use go_bricks_openapi.Prelude.{
  ℕ, suc, ◌+◌, String, Bool, true, false, not, ◌&&◌, Option, none, some, List, [], ◌∷◌, ◌==◌, ltb,
  length, if◌then◌else◌,
}
use go_bricks_openapi.Prelude.Int.{pos}
use go_bricks_openapi.Go.{Go}
use go_bricks_openapi.Go.Strconv.{itoa}
use go_bricks_openapi.Models.{Module, Project}
use go_bricks_openapi.Generate.{Document, generate, new_with_config}
use go_bricks_openapi.Commands.Monad.{
  Run, Result, done, failed, Action, ◌<>◌, ◌>>=◌, ◌>>◌, pure, fail, of_result, println, eprintln,
  when, gets,
}
use go_bricks_openapi.Commands.System.{System, Versions, Removal, removed, missing, kept}
use go_bricks_openapi.Commands.Stats.{
  ProjectStats, calculate_project_stats, content_warnings, untyped_warnings,
}
use go_bricks_openapi.Commands.Unresolved.{UnresolvedRoute, unresolved_route_count_line}
use go_bricks_openapi.Commands.Compat.{go_bricks_version_warning}
use go_bricks_openapi.Commands.Json.{Encoders, to_json}
use go_bricks_openapi.Commands.Options.{
  GenerateOptions, build_generator_config, resolve_format, validate_generate_options,
}

-- What a run of the analyzer leaves: the project, Warnings and UnresolvedRoutes.
pub record Analysis : Type 0 where
  pub project : Project
  pub warnings : List String
  pub unresolved : List UnresolvedRoute

pub record Tools (go : Go) (W : Type 0) : Type 1 where
  -- analyzer.New(root).AnalyzeProject()
  pub analyze : W → String → Result Analysis
  -- The YAML text of a document
  pub render_yaml : Document go.Float → Result String
  pub encoders : Encoders
  -- specvalidate.Validate: an error, or none
  pub validate_spec : String → Option String

unfoldable pub should_fail_strict : Bool → Bool → Bool
should_fail_strict strict warned = strict && warned

-- fmt.Errorf("prefix: %w", err)
unfoldable pub wrap : {A : Type 0} → String → Result A → Result A
wrap prefix (done a) = done a
wrap prefix (failed e) = failed (prefix <> ": " <> e)

module _ {W : Type 0} where
  -- A loop that prints each warning and counts it.
  unfoldable pub warn_each : ℕ → List String → Action W ℕ
  warn_each count [] = pure count
  warn_each count (line ∷ lines) = eprintln ("warning: " <> line) >> warn_each (suc count) lines

  unfoldable pub emit_content_warnings : Project → Action W ℕ
  emit_content_warnings p =
      let stats = calculate_project_stats p in
      warn_each 0 (content_warnings stats) >>= λ count.
      warn_each count (untyped_warnings stats.untyped_routes)

  unfoldable pub list_modules : List Module → Action W (Unit {0})
  list_modules [] = pure tt
  list_modules (m ∷ ms) =
      println (
        "  Module: "
        <> m.name
        <> " ("
        <> m.package_name
        <> ") with "
        <> itoa (pos (length m.routes))
        <> " routes")
      >> list_modules ms

  unfoldable pub show_version_warning : String → Action W (Unit {0})
  show_version_warning version_warning =
      when (not (version_warning == "")) (eprintln ("warning: " <> version_warning))

  unfoldable pub show_modules : GenerateOptions → Project → Action W (Unit {0})
  show_modules opts p = when opts.verbose (
      println ("Discovered " <> itoa (pos (length p.modules)) <> " modules")
      >> list_modules p.modules)

  unfoldable pub show_unresolved : List UnresolvedRoute → Action W (Unit {0})
  show_unresolved rs =
      when (not (unresolved_route_count_line rs == "")) (println (unresolved_route_count_line rs))

  -- The lines after the last warning.
  unfoldable pub report_count : Analysis → ℕ → Action W (Analysis × ℕ)
  report_count a count = println ("Warnings: " <> itoa (pos count)) >>= λ _.
      show_unresolved a.unresolved >>= λ _. pure (a, count)

  -- The warnings of the analysis and of its content, and their count with the version warning's.
  unfoldable pub report_warnings : Analysis → Bool → Action W (Analysis × ℕ)
  report_warnings a versioned = warn_each 0 a.warnings >>= λ _.
      emit_content_warnings a.project >>= λ emitted.
      report_count a (length a.warnings + emitted + (if versioned then 1 else 0))

  unfoldable pub report_project : GenerateOptions → Bool → Analysis → Action W (Analysis × ℕ)
  report_project opts versioned a = show_modules opts a.project >>= λ _. report_warnings a versioned

module _ {W : Type 0} (sys : System W) where
  unfoldable pub remove_stale_output : String → Action W (Unit {0})
  remove_stale_output path r =
      let (outcome, files) = sys.remove r.files path in
      let after = record r { files = files } in
      elim outcome [
        | removed ↦ (done tt, after)
        | missing ↦ (done tt, after)
        | kept e ↦ (failed ("failed to remove stale output " <> path <> ": " <> e), after)
      ]

  unfoldable pub fail_strict : GenerateOptions → Action W (Unit {0})
  fail_strict opts =
      remove_stale_output opts.output_file
      >> fail "spec generated with warnings and --strict is set"

  unfoldable pub reject_invalid : GenerateOptions → Option String → Action W (Unit {0})
  reject_invalid opts none = pure tt
  reject_invalid opts (some e) =
      remove_stale_output opts.output_file >> fail ("generated spec failed validation: " <> e)

  -- A call of the system that may return an error.
  unfoldable pub perform : String → (W → Option String × W) → Action W (Unit {0})
  perform what call r =
      let (err, files) = call r.files in
      let after = record r { files = files } in
      elim err [ none ↦ (done tt, after) | some e ↦ (failed (what <> ": " <> e), after) ]

  -- The end of writeSpec.
  unfoldable pub announce_spec : GenerateOptions → Bool → Action W (Unit {0})
  announce_spec opts warned =
      println ("✓ OpenAPI specification generated: " <> opts.output_file) >>= λ _.
      if opts.fail_on_warnings && warned
      then fail "spec written with warnings and --fail-on-warnings is set"
      else pure tt

  unfoldable pub write_spec : GenerateOptions → String → Bool → Action W (Unit {0})
  write_spec opts content warned =
      perform "failed to create output directory"
        (λ files. sys.mkdir_all files (sys.dir opts.output_file))
      >>= λ _.
          perform "failed to write output file"
            (λ files. sys.write_file files opts.output_file content)
          >>= λ _. announce_spec opts warned

module _ (go : Go) {W : Type 0} (sys : System W) (v : Versions) (tools : Tools go W) where
  -- The generator always ends with a document, so that the first case is not met.
  unfoldable pub generate_yaml : GenerateOptions → Project → Result String
  generate_yaml opts p =
      elim (generate go (new_with_config go (some (build_generator_config opts))) p) [
        | none ↦ failed ""
        | some d ↦ tools.render_yaml d
      ]

  unfoldable pub in_format : String → String → Result String
  in_format format content =
      if format == "json"
      then wrap "failed to render JSON" (to_json tools.encoders content)
      else done content

  unfoldable pub generate_spec_content : GenerateOptions → Project → String → Result String
  generate_spec_content opts p format =
      elim (wrap "failed to generate spec" (generate_yaml opts p)) [
        | failed e ↦ failed e
        | done content ↦ in_format format content
      ]

  unfoldable pub validate_generated_spec : GenerateOptions → String → Action W (Unit {0})
  validate_generated_spec opts content =
      if not opts.validate then pure tt else reject_invalid sys opts (tools.validate_spec content)

  unfoldable pub analyze_project : GenerateOptions → Action W Analysis
  analyze_project opts r =
      (wrap "failed to analyze project" (tools.analyze r.files opts.project_root), r)

  -- runGenerate from the version warning to the line about unresolved routes: it returns the
  -- analysis and the number of warnings.
  unfoldable pub report_analysis : GenerateOptions → Action W (Analysis × ℕ)
  report_analysis opts =
      gets (λ files. go_bricks_version_warning sys v files opts.project_root) >>= λ version_warning.
      show_version_warning version_warning >>= λ _.
      analyze_project opts >>= λ a. report_project opts (not (version_warning == "")) a

  -- runGenerate from the strict gate on.
  unfoldable pub finish_run : GenerateOptions → String → Project → Bool → Action W (Unit {0})
  finish_run opts format p warned =
      if should_fail_strict opts.strict warned
      then fail_strict sys opts
      else (of_result (generate_spec_content opts p format) >>= λ content.
          validate_generated_spec opts content >>= λ _. write_spec sys opts content warned)

  unfoldable pub analyze_and_finish : GenerateOptions → String → Action W (Unit {0})
  analyze_and_finish opts format = report_analysis opts >>= λ reported.
      finish_run opts format reported.0.project (ltb 0 reported.1)

  unfoldable pub run_checked : GenerateOptions → Action W (Unit {0})
  run_checked opts = of_result (resolve_format go opts) >>= λ format.
      println ("Generating OpenAPI spec for project: " <> opts.project_root) >>= λ _.
      println ("Output file: " <> opts.output_file) >>= λ _. analyze_and_finish opts format

  unfoldable pub run_generate : GenerateOptions → Action W (Unit {0})
  run_generate given r =
      let checked = validate_generate_options go sys r.files given in
      (of_result checked >>= run_checked) r

  unfoldable pub run_validate : String → Action W (Unit {0})
  run_validate path =
      gets (λ files. wrap ("read spec " <> path) (sys.read_file files path)) >>= λ read.
      of_result read >>= λ content. elim (tools.validate_spec content) [
        | some e ↦ fail e
        | none ↦ println ("✓ " <> path <> " is a valid OpenAPI 3.0 document")
      ]
