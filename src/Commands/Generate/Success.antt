-- ===== src/Commands/Generate/Success.antt =====
-- A run of generate that returns no error, internal/commands/generate.go: the spec is written, and
-- no warning slipped past the gates.
use go_bricks_openapi.Prelude.{
  ℕ, ◌+◌, String, ◌≡◌, ◌⊎◌, inl, inr, ◌∙◌, Bool, true, false, ◌&&◌, ◌||◌, Option, none, some, ltb,
  length, arith, ap,
}
use go_bricks_openapi.Go.{Go}
use go_bricks_openapi.Go.Strings.{str_append}
use go_bricks_openapi.Models.{Project}
use go_bricks_openapi.Commands.Monad.{
  Run, done, Result-cases, ◌>>=◌, println, of_result, After, After-bind, After-weaken,
}
use go_bricks_openapi.Commands.System.{System, Versions}
use go_bricks_openapi.Commands.Options.{
  GenerateOptions, resolve_format, validate_generate_options, complete_options, with_extension,
  trimmed_license,
}
use go_bricks_openapi.Commands.Generate.{
  Tools, generate_spec_content, report_analysis, finish_run, run_generate, analyze_and_finish,
  run_checked,
}
use go_bricks_openapi.Commands.Generate.Warned.{Quiet, report_analysis-Printed}
use go_bricks_openapi.Commands.Generate.Outcome.{
  Writes, of_result_end, Finished, finish_run-Finished,
}

complete_options_flags :
    (go : Go) (given opts : GenerateOptions)
    → complete_options go given ≡ done opts
    → (opts.strict ≡ given.strict) × (opts.fail_on_warnings ≡ given.fail_on_warnings)
unfolding complete_options with_extension trimmed_license
complete_options_flags go given opts h =
    elim (Result-cases (resolve_format go (trimmed_license go given))) [
      | inl (f, good) ↦ ground (arith, good)
      | inr (e, bad) ↦ ground (arith, bad)
    ]

no_count :
    (strict fatal : Bool) (n : ℕ)
    → (strict || fatal) ≡ true
    → (strict && ltb 0 n) ≡ false
    → (fatal && ltb 0 n) ≡ false
    → n ≡ 0
no_count strict fatal n h j k = ground arith

pub validate_generate_options_flags :
    (go : Go) {W : Type 0} (sys : System W) (files : W) (given opts : GenerateOptions)
    → validate_generate_options go sys files given ≡ done opts
    → (opts.strict ≡ given.strict) × (opts.fail_on_warnings ≡ given.fail_on_warnings)
unfolding validate_generate_options
validate_generate_options_flags go sys files given opts h =
    ground (arith, complete_options_flags go given opts)

module _ (go : Go) {W : Type 0} (sys : System W) (v : Versions) (tools : Tools go W)
    (holds : W → String → Option String) where
  -- A run of generate that returns no error, with `count` lines on standard error.
  record Succeeds (given : GenerateOptions) (r r' : Run W) : Type 0 where
    pub opts : GenerateOptions
    pub format : String
    pub project : Project
    pub count : ℕ
    pub before : Run W
    pub accepted : validate_generate_options go sys r.files given ≡ done opts
    pub resolved : resolve_format go opts ≡ done format
    pub printed : length r'.stderr ≡ length r.stderr + count
    pub finished : Finished go sys v tools holds opts format project (ltb 0 count) before r'

  analyze_and_finish_end :
      (writes : Writes sys holds) (given opts : GenerateOptions) (format : String) (r r0 : Run W)
      → validate_generate_options go sys r0.files given ≡ done opts
      → resolve_format go opts ≡ done format
      → Quiet r0 r
      → After (λ u r'. Succeeds given r0 r') (analyze_and_finish go sys v tools opts format r)
  unfolding analyze_and_finish
  analyze_and_finish_end writes given opts format r r0 accepted resolved quiet =
      After-bind (λ out r'. length r'.stderr ≡ length r.stderr + out.1)
        (λ u r'. Succeeds given r0 r') (report_analysis go sys v tools opts)
        (λ out. finish_run go sys v tools opts format out.0.project (ltb 0 out.1)) r
        (report_analysis-Printed go sys v tools opts r)
        λ out r1 h.
          After-weaken
            (λ u r'. Finished go sys v tools holds opts format out.0.project (ltb 0 out.1) r1 r')
            (λ u r'. Succeeds given r0 r')
            (finish_run go sys v tools opts format out.0.project (ltb 0 out.1) r1)
            (finish_run-Finished go sys v tools holds writes opts format out.0.project (ltb 0 out.1)
              r1)
            λ u r2 q. record {
              opts = opts;
              format = format;
              project = out.0.project;
              count = out.1;
              before = r1;
              accepted = accepted;
              resolved = resolved;
              printed = omega (arith, h, ap length q.quiet, ap length quiet);
              finished = q;
            }

  run_checked_end :
      (writes : Writes sys holds) (given opts : GenerateOptions) (r r0 : Run W)
      → validate_generate_options go sys r0.files given ≡ done opts
      → Quiet r0 r
      → After (λ u r'. Succeeds given r0 r') (run_checked go sys v tools opts r)
  unfolding run_checked
  run_checked_end writes given opts r r0 accepted quiet =
      After-bind (λ format r'. (resolve_format go opts ≡ done format) × Quiet r r')
        (λ u r'. Succeeds given r0 r') (of_result (resolve_format go opts))
        (λ format.
          println (str_append "Generating OpenAPI spec for project: " opts.project_root) >>= λ _.
          println (str_append "Output file: " opts.output_file) >>= λ _.
          analyze_and_finish go sys v tools opts format)
        r (of_result_end (resolve_format go opts) r)
        λ format r1 h.
          analyze_and_finish_end writes given opts format _ r0 accepted h.0 (h.1 ∙ quiet)

  run_generate-Succeeds :
      (writes : Writes sys holds) (given : GenerateOptions) (r : Run W)
      → After (λ u r'. Succeeds given r r') (run_generate go sys v tools given r)
  unfolding run_generate
  run_generate-Succeeds writes given r =
      let checked = validate_generate_options go sys r.files given in
      After-bind (λ opts r'. (checked ≡ done opts) × Quiet r r') (λ u r'. Succeeds given r r')
        (of_result checked) (run_checked go sys v tools) r (of_result_end checked r)
        λ opts r1 h. run_checked_end writes given opts r1 r h.0 h.1

  -- If generate returns no error, the output file holds the spec of a project in the format that
  -- the accepted options resolve to, and the validator accepted it where that was asked for. Known
  -- is that a file that os.WriteFile writes without an error has the text.
  pub run_generate_writes :
      (writes : Writes sys holds) (given : GenerateOptions) (r r' : Run W)
      → run_generate go sys v tools given r ≡ (done tt, r')
      → (opts : GenerateOptions) × (format : String) × (p : Project) × (content : String)
        × (validate_generate_options go sys r.files given ≡ done opts)
        × (resolve_format go opts ≡ done format)
        × (generate_spec_content go sys v tools opts p format ≡ done content)
        × ((opts.validate ≡ false) ⊎ (tools.validate_spec content ≡ none))
        × (holds r'.files opts.output_file ≡ some content)
  run_generate_writes writes given r r' e =
      let s = rw e at (run_generate-Succeeds writes given r) in
      let f = s.finished in
      (
        s.opts, s.format, s.project, f.content, s.accepted, s.resolved, f.generated, f.valid,
        f.written,
      )

  Succeeds-silent :
      (given : GenerateOptions) (r r' : Run W)
      → Succeeds given r r'
      → (given.strict || given.fail_on_warnings) ≡ true
      → length r'.stderr ≡ length r.stderr
  Succeeds-silent given r r' s flags =
      let f = s.finished in
      let (strict, fatal) =
        validate_generate_options_flags go sys r.files given s.opts s.accepted in
      let none_printed =
        no_count s.opts.strict s.opts.fail_on_warnings s.count (rw (strict, fatal) flags)
          f.not_strict f.not_fatal in
      omega (arith, s.printed, none_printed)

  -- If generate returns no error although --strict or --fail-on-warnings is set, it printed nothing
  -- to standard error: no warning slips past.
  pub run_generate_silent :
      (writes : Writes sys holds) (given : GenerateOptions) (r r' : Run W)
      → run_generate go sys v tools given r ≡ (done tt, r')
      → (given.strict || given.fail_on_warnings) ≡ true
      → length r'.stderr ≡ length r.stderr
  run_generate_silent writes given r r' e flags =
      Succeeds-silent given r r' (rw e at (run_generate-Succeeds writes given r)) flags
