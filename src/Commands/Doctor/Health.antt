-- ===== src/Commands/Doctor/Health.antt =====
-- When the doctor command of internal/commands/doctor.go fails.
use go_bricks_openapi.Prelude.{
  ℕ, String, ◌≡◌, refl, subst, ◌∙◌, Bool, true, false, not, ◌&&◌, ◌||◌, none, some, is_some,
  is_none, arith, inl, inr, Bool-cases, Option-cases, if◌then◌else◌,
}
use go_bricks_openapi.Go.{Go}
use go_bricks_openapi.Go.Strings.{str_append}
use go_bricks_openapi.Commands.Monad.{
  Gives, Gives-bind, Run, Result, done, failed, ◌>>=◌, pure, println,
}
use go_bricks_openapi.Commands.System.{System, Versions, Stat, present, absent, denied}
use go_bricks_openapi.Commands.Compat.{
  go_mod_file, GoBricksVerdict, verdict_ok, verdict_replace, verdict_pseudo, verdict_missing,
  verdict_below_floor, verdict_unreadable, GoBricksStatus, resolve_go_bricks_status, report_status,
  check_go_bricks_compatibility,
}
use go_bricks_openapi.Commands.Generate.{Tools}
use go_bricks_openapi.Commands.Doctor.{
  DoctorOptions, is_go_version_supported, check_project_structure, perform_project_structure_check,
  go_version_of, perform_go_version_check, check_compatibility, check_go_mod, perform_go_mod_check,
  run_module_diagnostics, perform_diagnostics_check, summarise, run_checks, diagnose_and_summarise,
  run_doctor,
}
use go_bricks_openapi.Commands.Doctor.Checks.{report_check-Gives, diagnose_result-Gives}

-- The verdicts that fail the check of the go-bricks version.
pub is_fatal : GoBricksVerdict → Bool
is_fatal verdict_missing = true
is_fatal verdict_below_floor = true
is_fatal verdict_unreadable = true
is_fatal _ = false

pub is_present : Stat → Bool
is_present present = true
is_present _ = false

is_some_if : (b : Bool) (e : String) → is_some (if b then some e else none) ≡ b
is_some_if true e = refl
is_some_if false e = refl

not-not : (b : Bool) → not (not b) ≡ b
not-not true = refl
not-not false = refl

module _ {W : Type 0} where
  report_status-Gives :
      (verdict : GoBricksVerdict) (version err : String) (verbose : Bool) (r : Run W)
      → let st : GoBricksStatus = record { verdict = verdict; version = version; err = err } in
        Gives r (done (if is_fatal verdict then some err else none)) (report_status st verbose r)
  unfolding report_status is_fatal
  report_status-Gives verdict_ok version err verbose r = (refl, refl)
  report_status-Gives verdict_replace version err true r = (refl, refl)
  report_status-Gives verdict_replace version err false r = (refl, refl)
  report_status-Gives verdict_pseudo version err verbose r = (refl, refl)
  report_status-Gives verdict_missing version err verbose r = (refl, refl)
  report_status-Gives verdict_below_floor version err verbose r = (refl, refl)
  report_status-Gives verdict_unreadable version err verbose r = (refl, refl)

module _ {W : Type 0} (sys : System W) (v : Versions) where
  -- What the three checks ask of the files.
  pub has_good_mod : W → DoctorOptions → Bool
  has_good_mod files opts =
      let path = sys.join_path opts.project_root go_mod_file in
      is_present (sys.stat files path)
      && not (is_fatal (resolve_go_bricks_status sys v files path).verdict)

  pub is_healthy : W → DoctorOptions → Bool
  is_healthy files opts =
      is_go_version_supported v (go_version_of sys v opts)
      && (is_none (check_project_structure sys files opts.project_root) && has_good_mod files opts)

  check_compatibility-Gives :
      (path : String) (verbose flag : Bool) (r : Run W)
      → Gives r
          (done (is_fatal (resolve_go_bricks_status sys v r.files path).verdict || flag))
          (check_compatibility sys v path verbose flag r)
  unfolding check_compatibility check_go_bricks_compatibility
  check_compatibility-Gives path verbose flag r =
      let st = resolve_go_bricks_status sys v r.files path in
      let fatal = is_fatal st.verdict in
      let found = if fatal then some st.err else none in
      let r1 = (println "✅ go.mod found" r).1 in
      rw (← is_some_if fatal st.err) (
        Gives-bind (check_go_bricks_compatibility sys v path verbose)
          (λ err. pure (is_some err || flag)) found (done (is_some found || flag)) r1
          (report_status-Gives st.verdict st.version st.err verbose r1) (λ r2 q. (refl, refl)))

  check_go_mod-Gives :
      (found : Stat) (path : String) (verbose flag : Bool) (r : Run W)
      → Gives r
          (done (
            not (
              is_present found
              && not (is_fatal (resolve_go_bricks_status sys v r.files path).verdict))
            || flag))
          (check_go_mod sys v found path verbose flag r)
  unfolding check_go_mod is_present
  check_go_mod-Gives present path verbose flag r =
      rw (not-not (is_fatal (resolve_go_bricks_status sys v r.files path).verdict))
        (check_compatibility-Gives path verbose flag r)
  check_go_mod-Gives absent path verbose flag r = (refl, refl)
  check_go_mod-Gives (denied e) path verbose flag r = (refl, refl)

  perform_go_version_check-Gives :
      (opts : DoctorOptions) (r : Run W)
      → Gives r
          (done (not (is_go_version_supported v (go_version_of sys v opts))))
          (perform_go_version_check sys v opts false r)
  unfolding perform_go_version_check
  perform_go_version_check-Gives opts r =
      let ok = is_go_version_supported v (go_version_of sys v opts) in
      elim (Bool-cases ok) [
        | inl e ↦ rw (e, perform_go_version_check) (report_check-Gives sys none _ false _)
        | inr e ↦ rw (e, perform_go_version_check) (report_check-Gives sys (some _) _ false _)
      ]

  perform_project_structure_check-Gives :
      (opts : DoctorOptions) (flag : Bool) (r : Run W)
      → Gives r
          (done (not (is_none (check_project_structure sys r.files opts.project_root)) || flag))
          (perform_project_structure_check sys opts flag r)
  unfolding perform_project_structure_check
  perform_project_structure_check-Gives opts flag r =
      elim (Option-cases (check_project_structure sys r.files opts.project_root)) [
        | inl e ↦ rw (e, perform_project_structure_check) (report_check-Gives sys none _ flag _)
        | inr (x, e) ↦
            rw (e, perform_project_structure_check) (report_check-Gives sys (some _) _ flag _)
      ]

  perform_go_mod_check-Gives :
      (opts : DoctorOptions) (flag : Bool) (r : Run W)
      → Gives r
          (done (not (has_good_mod r.files opts) || flag))
          (perform_go_mod_check sys v opts flag r)
  unfolding perform_go_mod_check has_good_mod
  perform_go_mod_check-Gives opts flag r =
      let path = sys.join_path opts.project_root go_mod_file in
      check_go_mod-Gives (sys.stat r.files path) path opts.verbose flag r

three_flags : (a b c : Bool) → (not c || (not b || not a)) ≡ not (a && (b && c))
three_flags a b c = ground arith

module _ (go : Go) {W : Type 0} (sys : System W) (v : Versions) (tools : Tools go W)
    (percent : ℕ → ℕ → String) where
  run_checks-Gives :
      (opts : DoctorOptions) (r : Run W)
      → Gives r
          (done (not (is_healthy sys v r.files opts)))
          (run_checks go sys v tools percent opts r)
  unfolding run_checks is_healthy
  run_checks-Gives opts r =
      let a = is_go_version_supported v (go_version_of sys v opts) in
      let b = is_none (check_project_structure sys r.files opts.project_root) in
      let c = has_good_mod sys v r.files opts in
      rw (← three_flags a b c) (
        Gives-bind (perform_go_version_check sys v opts false)
          (λ bad. perform_project_structure_check sys opts bad >>= λ worse.
            perform_go_mod_check sys v opts worse)
          (not a) (done (not c || (not b || not a))) r (perform_go_version_check-Gives sys v opts r)
          λ r1 q.
            Gives-bind (perform_project_structure_check sys opts (not a))
              (perform_go_mod_check sys v opts) (not b || not a) (done (not c || (not b || not a)))
              r1
              (subst
                (λ f.
                  Gives r1
                    (done
                      (not (is_none (check_project_structure sys f opts.project_root)) || not a))
                    (perform_project_structure_check sys opts (not a) r1))
                q (perform_project_structure_check-Gives sys v opts (not a) r1))
              λ r2 p.
                subst
                  (λ f.
                    Gives r2 (done (not (has_good_mod sys v f opts) || (not b || not a)))
                      (perform_go_mod_check sys v opts (not b || not a) r2))
                  (p ∙ q) (perform_go_mod_check-Gives sys v opts (not b || not a) r2))

  perform_diagnostics_check-Gives :
      (opts : DoctorOptions) (r : Run W)
      → (caveat : Bool) × Gives r
          (done caveat)
          (perform_diagnostics_check go sys v tools percent opts r)
  unfolding perform_diagnostics_check run_module_diagnostics
  perform_diagnostics_check-Gives opts r =
      let r1 = (println "📊 Project Diagnostics:" (println "" r).1).1 in
      let (caveat, h) =
        diagnose_result-Gives percent (tools.analyze r.files opts.project_root) opts.verbose r1 in
      (
        caveat,
        Gives-bind (run_module_diagnostics go sys v tools percent opts)
            (λ has_warnings. println "" >>= λ _.
              println (str_append "🔧 GOROOT: " sys.goroot) >>= λ _.
              println (str_append "🔧 GOPATH: " sys.gopath) >>= λ _. pure has_warnings)
            caveat (done caveat) r1 h (λ r2 q. (refl, refl)),
      )

  -- How a run of doctor ends.
  pub health_result : Bool → Result (Unit {0})
  health_result ok = if ok then done tt else failed "health check failed"

  summarise-Gives :
      (bad caveat : Bool) (r : Run W)
      → Gives r (health_result (not bad)) (summarise go sys v tools percent bad caveat r)
  unfolding summarise health_result
  summarise-Gives true caveat r = (refl, refl)
  summarise-Gives false true r = (refl, refl)
  summarise-Gives false false r = (refl, refl)

  diagnose_and_summarise-Gives :
      (opts : DoctorOptions) (bad : Bool) (r : Run W)
      → Gives r (health_result (not bad)) (diagnose_and_summarise go sys v tools percent opts bad r)
  unfolding diagnose_and_summarise
  diagnose_and_summarise-Gives opts true r = summarise-Gives true false r
  diagnose_and_summarise-Gives opts false r =
      let (caveat, h) = perform_diagnostics_check-Gives opts r in
      Gives-bind (perform_diagnostics_check go sys v tools percent opts)
        (summarise go sys v tools percent false) caveat (health_result true) r h
        (λ r1 q. summarise-Gives false caveat r1)

  -- Doctor fails exactly if the Go version, the project's structure, or go.mod and the go-bricks
  -- version in it are not as they have to be; warnings of the diagnostics do not fail it, and it
  -- changes no file.
  pub run_doctor-is_healthy :
      (opts : DoctorOptions) (r : Run W)
      → ((run_doctor go sys v tools percent opts r).0
          ≡ (if is_healthy sys v r.files opts then done tt else failed "health check failed"))
        × ((run_doctor go sys v tools percent opts r).1.files ≡ r.files)
  unfolding run_doctor health_result
  run_doctor-is_healthy opts r =
      let ok = is_healthy sys v r.files opts in
      let r1 = (println "" (println "🏥 Running go-bricks-openapi health check..." r).1).1 in
      let end =
        Gives-bind (run_checks go sys v tools percent opts)
          (diagnose_and_summarise go sys v tools percent opts) (not ok)
          (health_result (not (not ok))) r1 (run_checks-Gives opts r1)
          (λ r2 q. diagnose_and_summarise-Gives opts (not ok) r2) in
      rw (not-not ok) at end
