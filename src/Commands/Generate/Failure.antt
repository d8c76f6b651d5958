-- ===== src/Commands/Generate/Failure.antt =====
-- A run of generate that fails by the strict gate or by the validator, internal/commands/generate.go.
use go_bricks_openapi.Prelude.{
  String, ◌≡◌, ◌≢◌, ◌⊎◌, inl, inr, refl, ◌∙◌, Bool, true, not, ◌&&◌, Option, some, List, [], ◌∷◌,
  ◌==◌, ltb, length, arith, eq_iff,
}
use go_bricks_openapi.Go.{Go}
use go_bricks_openapi.Go.Strings.{str_append}
use go_bricks_openapi.Models.{Project}
use go_bricks_openapi.Commands.Monad.{Run, done, pure, if_taken, if_skipped, Gives_then}
use go_bricks_openapi.Commands.System.{System, Versions}
use go_bricks_openapi.Commands.Options.{GenerateOptions, resolve_format, validate_generate_options}
use go_bricks_openapi.Commands.Stats.{content_warnings, untyped_warnings, calculate_project_stats}
use go_bricks_openapi.Commands.Compat.{go_bricks_version_warning}
use go_bricks_openapi.Commands.Generate.{
  Tools, should_fail_strict, fail_strict, reject_invalid, validate_generated_spec, finish_run,
  Analysis, run_generate, run_checked, report_analysis, analyze_and_finish,
}
use go_bricks_openapi.Commands.Generate.Success.{validate_generate_options_flags}
use go_bricks_openapi.Commands.Generate.Counted.{
  content_lines, warning_lines, report_analysis-Gives,
}
use go_bricks_openapi.Commands.Generate.Outcome.{Removes, NothingLeft, removal_fails}

-- A warning about the version, of the analyzer, or about the content.
abbrev pub Warns : String → Analysis → Type 0
Warns version_warning a =
    let stats = calculate_project_stats a.project in
    (version_warning ≢ "")
    ⊎ (a.warnings ≢ [])
    ⊎ (content_warnings stats ≢ [])
    ⊎ (stats.untyped_routes ≢ [])

not_empty : {A : Type 0} (xs : List A) → xs ≢ [] → ltb 0 (length xs) ≡ true
not_empty [] h = absurd (h refl)
not_empty (x ∷ xs) h = ground arith

untyped_warnings_not_empty : (names : List String) → names ≢ [] → untyped_warnings names ≢ []
unfolding untyped_warnings
untyped_warnings_not_empty [] h = absurd (h refl)
untyped_warnings_not_empty (x ∷ xs) h = ground arith

Warns-warning_lines :
    (w : String) (a : Analysis) → Warns w a → ltb 0 (warning_lines a (not (w == ""))) ≡ true
unfolding content_lines
Warns-warning_lines w a h =
    let stats = calculate_project_stats a.project in
    elim h [
      | inl versioned ↦ ground (arith, eq_iff w "")
      | inr (inl own) ↦ ground (arith, not_empty a.warnings own)
      | inr (inr (inl content)) ↦ ground (arith, not_empty (content_warnings stats) content)
      | inr (inr (inr untyped)) ↦ ground (
        arith,
        not_empty (untyped_warnings stats.untyped_routes)
            (untyped_warnings_not_empty stats.untyped_routes untyped),
      )
    ]

module _ (go : Go) {W : Type 0} (sys : System W) (v : Versions) (tools : Tools go W)
    (holds : W → String → Option String) where
  finish_run_strict :
      (removes : Removes sys holds) (opts : GenerateOptions) (format : String) (p : Project)
      (warned : Bool) (r : Run W)
      → (opts.strict && warned) ≡ true
      → NothingLeft sys holds r opts.output_file "spec generated with warnings and --strict is set"
          (finish_run go sys v tools opts format p warned r)
  unfolding finish_run should_fail_strict fail_strict
  finish_run_strict removes opts format p warned r e =
      rw (if_taken (opts.strict && warned) (fail_strict sys opts) _ r e)
        (removal_fails sys holds removes opts.output_file _ r)

  analyze_and_finish_strict :
      (removes : Removes sys holds) (opts : GenerateOptions) (format : String) (a : Analysis)
      (r : Run W)
      → tools.analyze r.files opts.project_root ≡ done a
      → opts.strict ≡ true
      → Warns (go_bricks_version_warning sys v r.files opts.project_root) a
      → NothingLeft sys holds r opts.output_file "spec generated with warnings and --strict is set"
          (analyze_and_finish go sys v tools opts format r)
  unfolding analyze_and_finish
  analyze_and_finish_strict removes opts format a r analyzed strict warns =
      let w = go_bricks_version_warning sys v r.files opts.project_root in
      let warned = ltb 0 (warning_lines a (not (w == ""))) in
      let gate : (opts.strict && warned) ≡ true =
        ground (arith, strict, Warns-warning_lines w a warns) in
      Gives_then
        (NothingLeft sys holds r opts.output_file
          "spec generated with warnings and --strict is set")
        (report_analysis go sys v tools opts)
        (λ out. finish_run go sys v tools opts format out.0.project (ltb 0 out.1))
        (a, warning_lines a (not (w == ""))) r
        (report_analysis-Gives go sys v tools opts a r analyzed)
        λ r1 same. elim (finish_run_strict removes opts format a.project warned r1 gate) [
          | inl (x, stays) ↦ inl (x, rw same at stays)
          | inr left ↦ inr left
        ]

  -- A run with warnings under --strict fails, and leaves no spec behind, unless the file cannot be
  -- removed: for options that are accepted and resolve to a format, a project that is analyzed, and
  -- a warning about the go-bricks version, of the analyzer, or about the content. Known is that a
  -- file that os.Remove does not keep is gone.
  pub run_generate_strict :
      (removes : Removes sys holds) (given opts : GenerateOptions) (format : String) (a : Analysis)
      (r : Run W)
      → validate_generate_options go sys r.files given ≡ done opts
      → resolve_format go opts ≡ done format
      → tools.analyze r.files opts.project_root ≡ done a
      → given.strict ≡ true
      → Warns (go_bricks_version_warning sys v r.files opts.project_root) a
      → NothingLeft sys holds r opts.output_file "spec generated with warnings and --strict is set"
          (run_generate go sys v tools given r)
  unfolding run_generate run_checked
  run_generate_strict removes given opts format a r accepted resolved analyzed strict warns =
      let (kept_strict, _) = validate_generate_options_flags go sys r.files given opts accepted in
      rw (accepted, resolved)
        (analyze_and_finish_strict removes opts format a _ analyzed (kept_strict ∙ strict) warns)

  -- A run that fails by the validator leaves no spec behind either.
  pub validate_generated_spec_rejects :
      (removes : Removes sys holds) (opts : GenerateOptions) (content e : String) (r : Run W)
      → opts.validate ≡ true
      → tools.validate_spec content ≡ some e
      → NothingLeft sys holds r opts.output_file
          (str_append "generated spec failed validation: " e)
          (validate_generated_spec go sys v tools opts content r)
  unfolding validate_generated_spec reject_invalid
  validate_generated_spec_rejects removes opts content e r asked bad =
      rw (if_skipped (not opts.validate) (pure tt) _ r (ground arith), bad)
        (removal_fails sys holds removes opts.output_file _ r)
