-- ===== src/Commands/Generate/Outcome.antt =====
-- What a run of generate leaves in the output file, internal/commands/generate.go.
use go_bricks_openapi.Prelude.{
  String, ◌≡◌, ◌⊎◌, inl, inr, refl, ◌∙◌, Bool, false, not, ◌&&◌, Option, none, some, arith,
  Bool-cases, Option-cases,
}
use go_bricks_openapi.Go.{Go}
use go_bricks_openapi.Models.{Project}
use go_bricks_openapi.Commands.Monad.{
  Run, Result, done, failed, ◌>>=◌, ◌>>◌, pure, fail, of_result, After, After-bind, After-weaken,
  After-fail, After-if,
}
use go_bricks_openapi.Commands.System.{System, Versions, kept}
use go_bricks_openapi.Commands.Options.{GenerateOptions}
use go_bricks_openapi.Commands.Generate.{
  Tools, should_fail_strict, remove_stale_output, fail_strict, perform, write_spec, reject_invalid,
  announce_spec, generate_spec_content, validate_generated_spec, finish_run,
}
use go_bricks_openapi.Commands.Generate.Warned.{Quiet}

module _ {W : Type 0} (sys : System W) (holds : W → String → Option String) where
  -- A file that is not kept by os.Remove is gone, and a file that os.WriteFile writes without an
  -- error has the text.
  abbrev pub Removes : Type 0
  Removes =
      (w : W) (p : String)
      → ((e : String) × ((sys.remove w p).0 ≡ kept e)) ⊎ (holds (sys.remove w p).1 p ≡ none)

  abbrev pub Writes : Type 0
  Writes =
      (w : W) (p s : String)
      → ((e : String) × ((sys.write_file w p s).0 ≡ some e))
        ⊎ (holds (sys.write_file w p s).1 p ≡ some s)

  -- The end of a run that fails after the stale output was to be removed.
  abbrev pub NothingLeft : Run W → String → String → Result (Unit {0}) × Run W → Type 0
  NothingLeft r path e out =
      ((x : String) × ((sys.remove r.files path).0 ≡ kept x))
      ⊎ ((out.0 ≡ failed e) × (holds out.1.files path ≡ none))

  pub removal_fails :
      (removes : Removes) (path e : String) (r : Run W)
      → NothingLeft r path e ((remove_stale_output sys path >> fail e) r)
  unfolding remove_stale_output
  removal_fails removes path e r = ground (arith, removes r.files path)

  perform_end :
      (what : String) (call : W → Option String × W) (r : Run W)
      → After
          (λ u r'. ((call r.files).0 ≡ none) × (r'.files ≡ (call r.files).1) × Quiet r r')
          (perform sys what call r)
  unfolding perform
  perform_end what call r = elim (Option-cases (call r.files).0) [
    | inl e ↦ rw (e, perform) (refl, refl, refl)
    | inr (x, e) ↦ rw (e, perform) tt
  ]

  announce_spec_end :
      (opts : GenerateOptions) (warned : Bool) (r : Run W)
      → After
          (λ u r'. (r'.files ≡ r.files) × ((opts.fail_on_warnings && warned) ≡ false) × Quiet r r')
          (announce_spec sys opts warned r)
  unfolding announce_spec
  announce_spec_end opts warned r = elim (Bool-cases (opts.fail_on_warnings && warned)) [
    | inl e ↦ rw e tt
    | inr e ↦ rw e (refl, refl, refl)
  ]

  -- A spec that is written stands in the output file, and no warning was to fail the run.
  abbrev Written : GenerateOptions → String → Bool → Run W → Unit {0} → Run W → Type 0
  Written opts content warned r u r' =
      (holds r'.files opts.output_file ≡ some content)
      × ((opts.fail_on_warnings && warned) ≡ false)
      × Quiet r r'

  write_spec_end :
      (writes : Writes) (opts : GenerateOptions) (content : String) (warned : Bool) (r : Run W)
      → After (Written opts content warned r) (write_spec sys opts content warned r)
  unfolding write_spec
  write_spec_end writes opts content warned r =
      let make = λ (files : W). sys.mkdir_all files (sys.dir opts.output_file) in
      let write = λ (files : W). sys.write_file files opts.output_file content in
      let write_step = perform sys "failed to write output file" write in
      After-bind (λ u r'. ((make r.files).0 ≡ none) × (r'.files ≡ (make r.files).1) × Quiet r r')
        (Written opts content warned r) (perform sys "failed to create output directory" make)
        (λ u. write_step >>= λ x. announce_spec sys opts warned) r (perform_end _ make r)
        λ u r1 h.
          After-bind
            (λ u r'. ((write r1.files).0 ≡ none) × (r'.files ≡ (write r1.files).1) × Quiet r1 r')
            (Written opts content warned r) write_step (λ x. announce_spec sys opts warned) r1
            (perform_end _ write r1)
            λ x r2 k.
              After-weaken
                (λ u r'.
                  (r'.files ≡ r2.files) × ((opts.fail_on_warnings && warned) ≡ false) × Quiet r2 r')
                (Written opts content warned r) (announce_spec sys opts warned r2)
                (announce_spec_end opts warned r2)
                λ u r3 q. ground (arith, h, k, q, writes r1.files opts.output_file content)

pub of_result_end :
    {W A : Type 0} (res : Result A) (r : Run W)
    → After (λ a r'. (res ≡ done a) × Quiet r r') (of_result res r)
of_result_end (done a) r = (refl, refl)
of_result_end (failed e) r = tt

module _ (go : Go) {W : Type 0} (sys : System W) (v : Versions) (tools : Tools go W)
    (holds : W → String → Option String) where
  reject_invalid_end :
      (opts : GenerateOptions) (verdict : Option String) (r : Run W)
      → After (λ u r'. (verdict ≡ none) × Quiet r r') (reject_invalid sys opts verdict r)
  unfolding reject_invalid
  reject_invalid_end opts none r = (refl, refl)
  reject_invalid_end opts (some e) r =
      After-fail (λ u r'. (some e ≡ none) × Quiet r r') (remove_stale_output sys opts.output_file) _
        r

  validate_generated_spec_end :
      (opts : GenerateOptions) (content : String) (r : Run W)
      → After
          (λ u r'. ((opts.validate ≡ false) ⊎ (tools.validate_spec content ≡ none)) × Quiet r r')
          (validate_generated_spec go sys v tools opts content r)
  unfolding validate_generated_spec
  validate_generated_spec_end opts content r =
      let Passed : Unit {0} → Run W → Type 0 =
        λ u r'. ((opts.validate ≡ false) ⊎ (tools.validate_spec content ≡ none)) × Quiet r r' in
      After-if Passed (not opts.validate) (pure tt)
        (reject_invalid sys opts (tools.validate_spec content)) r (λ e. (inl (ground arith), refl))
        λ e.
          After-weaken (λ u r'. (tools.validate_spec content ≡ none) × Quiet r r') Passed
            (reject_invalid sys opts (tools.validate_spec content) r)
            (reject_invalid_end opts (tools.validate_spec content) r) (λ u r' h. (inr h.0, h.1))

  -- A run that does not fail after the analysis: the spec was generated in the format, it passed the
  -- validator if that was asked for, it stands in the output file, and no warning was to fail the
  -- run.
  pub record Finished (opts : GenerateOptions) (format : String) (p : Project) (warned : Bool)
      (r r' : Run W) : Type 0 where
    pub content : String
    pub generated : generate_spec_content go sys v tools opts p format ≡ done content
    pub valid : (opts.validate ≡ false) ⊎ (tools.validate_spec content ≡ none)
    pub written : holds r'.files opts.output_file ≡ some content
    pub not_strict : (opts.strict && warned) ≡ false
    pub not_fatal : (opts.fail_on_warnings && warned) ≡ false
    pub quiet : Quiet r r'

  pub finish_run-Finished :
      (writes : Writes sys holds) (opts : GenerateOptions) (format : String) (p : Project)
      (warned : Bool) (r : Run W)
      → After
          (λ u r'. Finished opts format p warned r r')
          (finish_run go sys v tools opts format p warned r)
  unfolding finish_run should_fail_strict fail_strict
  finish_run-Finished writes opts format p warned r =
      let Done : Unit {0} → Run W → Type 0 = λ u r'. Finished opts format p warned r r' in
      let spec = generate_spec_content go sys v tools opts p format in
      After-if Done (opts.strict && warned) (fail_strict sys opts)
        (of_result spec >>= λ content. validate_generated_spec go sys v tools opts content >>= λ u.
          write_spec sys opts content warned)
        r (λ e. After-fail Done (remove_stale_output sys opts.output_file) _ r)
        λ e.
          After-bind (λ content r'. (spec ≡ done content) × Quiet r r') Done (of_result spec)
            (λ content. validate_generated_spec go sys v tools opts content >>= λ u.
              write_spec sys opts content warned)
            r (of_result_end spec r)
            λ content r1 h.
              After-bind
                (λ u r'.
                  ((opts.validate ≡ false) ⊎ (tools.validate_spec content ≡ none)) × Quiet r1 r')
                Done (validate_generated_spec go sys v tools opts content)
                (λ u. write_spec sys opts content warned) r1
                (validate_generated_spec_end opts content r1)
                λ u r2 k.
                  After-weaken (Written sys holds opts content warned r2) Done
                    (write_spec sys opts content warned r2)
                    (write_spec_end sys holds writes opts content warned r2)
                    λ x r3 q. record {
                      content = content;
                      generated = h.0;
                      valid = k.0;
                      written = q.0;
                      not_strict = e;
                      not_fatal = q.1;
                      quiet = q.2 ∙ k.1 ∙ h.1;
                    }
