-- ===== src/Commands/Generate/Warned.antt =====
-- The warnings of a run of generate, internal/commands/generate.go.
use go_bricks_openapi.Prelude.{
  ℕ, suc, ◌+◌, String, ◌≡◌, refl, Bool, not, List, [], ◌∷◌, ◌++◌, ◌==◌, length, arith, ap,
  if◌then◌else◌, Bool-cases, inl, inr,
}
use go_bricks_openapi.Go.{Go}
use go_bricks_openapi.Go.Strings.{str_append}
use go_bricks_openapi.Prelude.Int.{pos}
use go_bricks_openapi.Go.Strconv.{itoa}
use go_bricks_openapi.Models.{Module, Project}
use go_bricks_openapi.Commands.Monad.{
  Run, Result-cases, ◌>>=◌, pure, println, eprintln, After, After-bind, After-weaken,
}
use go_bricks_openapi.Commands.System.{System, Versions}
use go_bricks_openapi.Commands.Stats.{content_warnings, untyped_warnings, calculate_project_stats}
use go_bricks_openapi.Commands.Unresolved.{UnresolvedRoute, unresolved_route_count_line}
use go_bricks_openapi.Commands.Compat.{go_bricks_version_warning}
use go_bricks_openapi.Commands.Options.{GenerateOptions}
use go_bricks_openapi.Commands.Generate.{
  Analysis, Tools, wrap, warn_each, emit_content_warnings, list_modules, report_analysis,
  show_modules, show_unresolved, show_version_warning, report_warnings, report_count,
  report_project, analyze_project,
}

length-snoc : (xs : List String) (x : String) → length (xs ++ (x ∷ [])) ≡ suc (length xs)
length-snoc [] x = refl
length-snoc (y ∷ xs) x = omega (arith, length-snoc xs x)

module _ {W : Type 0} where
  -- `n` lines were printed to standard error.
  abbrev Printed : Run W → ℕ → Run W → Type 0
  Printed r n r' = length r'.stderr ≡ length r.stderr + n

  -- Nothing was printed to standard error.
  abbrev pub Quiet : Run W → Run W → Type 0
  Quiet r r' = r'.stderr ≡ r.stderr

  warn_each-Printed :
      (r : Run W) (count : ℕ) (lines : List String)
      → After
          (λ total r'. (total ≡ count + length lines) × Printed r (length lines) r')
          (warn_each count lines r)
  unfolding warn_each
  warn_each-Printed r count [] = omega arith
  warn_each-Printed r count (line ∷ lines) =
      let r1 = (eprintln (str_append "warning: " line) r).1 in
      let one = length-snoc r.stderr (str_append "warning: " line) in
      After-weaken (λ total r'. (total ≡ suc count + length lines) × Printed r1 (length lines) r')
        (λ total r'. (total ≡ count + length (line ∷ lines)) × Printed r (length (line ∷ lines)) r')
        (warn_each (suc count) lines r1) (warn_each-Printed r1 (suc count) lines)
        (λ total r' h. omega (arith, h, one))

  emit_content_warnings-Printed :
      (p : Project) (r : Run W) → After (λ n r'. Printed r n r') (emit_content_warnings p r)
  unfolding emit_content_warnings
  emit_content_warnings-Printed p r =
      let stats = calculate_project_stats p in
      let first = content_warnings stats in
      let second = untyped_warnings stats.untyped_routes in
      After-bind (λ total r'. (total ≡ 0 + length first) × Printed r (length first) r')
        (λ n r'. Printed r n r') (warn_each 0 first) (λ count. warn_each count second) r
        (warn_each-Printed r 0 first)
        λ count r1 h.
          After-weaken (λ total r'. (total ≡ count + length second) × Printed r1 (length second) r')
            (λ n r'. Printed r n r') (warn_each count second r1) (warn_each-Printed r1 count second)
            (λ total r2 k. omega (arith, h, k))

  list_modules-Quiet :
      (ms : List Module) (r : Run W) → After (λ u r'. Quiet r r') (list_modules ms r)
  unfolding list_modules
  list_modules-Quiet [] r = refl
  list_modules-Quiet (m ∷ ms) r = list_modules-Quiet ms (println _ r).1

  show_modules-Quiet :
      (opts : GenerateOptions) (p : Project) (r : Run W)
      → After (λ u r'. Quiet r r') (show_modules opts p r)
  unfolding show_modules
  show_modules-Quiet opts p r = elim (Bool-cases opts.verbose) [
    | inl e ↦ rw (e, show_modules) (list_modules-Quiet p.modules _)
    | inr e ↦ rw (e, show_modules) refl
  ]

  show_unresolved-Quiet :
      (rs : List UnresolvedRoute) (r : Run W) → After (λ u r'. Quiet r r') (show_unresolved rs r)
  unfolding show_unresolved
  show_unresolved-Quiet rs r = elim (Bool-cases (unresolved_route_count_line rs == "")) [
    | inl e ↦ rw (e, show_unresolved) refl
    | inr e ↦ rw (e, show_unresolved) refl
  ]

  show_version_warning-Printed :
      (w : String) (r : Run W)
      → After (λ u r'. Printed r (if not (w == "") then 1 else 0) r') (show_version_warning w r)
  unfolding show_version_warning
  show_version_warning-Printed w r = elim (Bool-cases (w == "")) [
    | inl e ↦ rw (e, show_version_warning) (omega arith)
    | inr e ↦
        rw (e, show_version_warning)
          (omega (arith, length-snoc r.stderr (str_append "warning: " w)))
  ]

  report_count-Printed :
      (a : Analysis) (count : ℕ) (r : Run W)
      → After (λ out r'. (out.1 ≡ count) × (r'.stderr ≡ r.stderr)) (report_count a count r)
  unfolding report_count
  report_count-Printed a count r =
      let r1 = (println (str_append "Warnings: " (itoa (pos count))) r).1 in
      After-bind (λ u r'. Quiet r1 r') (λ out r'. (out.1 ≡ count) × (r'.stderr ≡ r.stderr))
        (show_unresolved a.unresolved) (λ u. pure (a, count)) r1
        (show_unresolved-Quiet a.unresolved r1) λ u r2 q. (refl, q)

  -- Beside the version warning, if it was printed, the count is that of the lines printed here.
  Ends : Run W → ℕ → Analysis × ℕ → Run W → Type 0
  Ends r one out r' = length r'.stderr + one ≡ length r.stderr + out.1

  report_warnings-Ends :
      (a : Analysis) (versioned : Bool) (r : Run W)
      → After (Ends r (if versioned then 1 else 0)) (report_warnings a versioned r)
  unfolding report_warnings Ends
  report_warnings-Ends a versioned r =
      let one = if versioned then 1 else 0 in
      let n = length a.warnings in
      After-bind (λ total r'. (total ≡ 0 + n) × Printed r n r') (Ends r one)
        (warn_each 0 a.warnings)
        (λ t. emit_content_warnings a.project >>= λ m. report_count a (n + m + one)) r
        (warn_each-Printed r 0 a.warnings)
        λ total r1 h.
          After-bind (λ m r'. Printed r1 m r') (Ends r one) (emit_content_warnings a.project)
            (λ m. report_count a (n + m + one)) r1 (emit_content_warnings-Printed a.project r1)
            λ m r2 k.
              After-weaken (λ out r'. (out.1 ≡ n + m + one) × (r'.stderr ≡ r2.stderr)) (Ends r one)
                (report_count a (n + m + one) r2) (report_count-Printed a (n + m + one) r2)
                λ out r3 q. omega (arith, h, k, q.0, ap length q.1)

  report_project-Ends :
      (opts : GenerateOptions) (versioned : Bool) (a : Analysis) (r : Run W)
      → After (Ends r (if versioned then 1 else 0)) (report_project opts versioned a r)
  unfolding report_project Ends
  report_project-Ends opts versioned a r =
      let one = if versioned then 1 else 0 in
      After-bind (λ u r'. Quiet r r') (Ends r one) (show_modules opts a.project)
        (λ u. report_warnings a versioned) r (show_modules-Quiet opts a.project r)
        λ u r1 k.
          After-weaken (Ends r1 one) (Ends r one) (report_warnings a versioned r1)
            (report_warnings-Ends a versioned r1) λ out r2 q. omega (arith, ap length k, q)

module _ (go : Go) {W : Type 0} (sys : System W) (v : Versions) (tools : Tools go W) where
  analyze_project-Quiet :
      (opts : GenerateOptions) (r : Run W)
      → After (λ a r'. Quiet r r') (analyze_project go sys v tools opts r)
  unfolding analyze_project
  analyze_project-Quiet opts r =
      elim (Result-cases
        (wrap "failed to analyze project" (tools.analyze r.files opts.project_root))) [
          | inl (a, e) ↦ rw e refl
          | inr (x, e) ↦ rw e tt
        ]

  -- The number of warnings that a run counts is the number of lines that it printed to standard
  -- error.
  pub report_analysis-Printed :
      (opts : GenerateOptions) (r : Run W)
      → After
          (λ out r'. length r'.stderr ≡ length r.stderr + out.1)
          (report_analysis go sys v tools opts r)
  unfolding report_analysis Ends
  report_analysis-Printed opts r =
      let w = go_bricks_version_warning sys v r.files opts.project_root in
      let one = if not (w == "") then 1 else 0 in
      let End : Analysis × ℕ → Run W → Type 0 =
        λ out r'. length r'.stderr ≡ length r.stderr + out.1 in
      After-bind (λ u r'. Printed r one r') End (show_version_warning w)
        (λ u. analyze_project go sys v tools opts >>= λ a. report_project opts (not (w == "")) a) r
        (show_version_warning-Printed w r)
        λ u r1 h.
          After-bind (λ a r'. Quiet r1 r') End (analyze_project go sys v tools opts)
            (λ a. report_project opts (not (w == "")) a) r1 (analyze_project-Quiet opts r1)
            λ a r2 j.
              After-weaken (Ends r2 one) End (report_project opts (not (w == "")) a r2)
                (report_project-Ends opts (not (w == "")) a r2)
                λ out r3 q. omega (arith, h, ap length j, q)
