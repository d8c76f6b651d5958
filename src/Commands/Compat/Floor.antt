-- ===== src/Commands/Compat/Floor.antt =====
-- Where the two readers of the version check of internal/commands/doctor.go agree.
use go_bricks_openapi.Prelude.{
  String, ◌≡◌, ◌≢◌, ◌⊎◌, inl, inr, refl, Bool, true, false, Option, none, some, List, [], ◌∷◌, ◌==◌,
  arith, eq_iff, if◌then◌else◌,
}
use go_bricks_openapi.Commands.Monad.{Run, Result, done, ◌<>◌}
use go_bricks_openapi.Commands.System.{System, Versions, Replace, ModFile}
use go_bricks_openapi.Commands.Compat.{
  GoBricksVerdict, verdict_ok, verdict_replace, verdict_pseudo, verdict_missing,
  verdict_below_floor, verdict_unreadable, GoBricksStatus, is_inert, applicable_replace_target,
  required_version, version_of_mod, resolve_go_bricks_status, version_warning_of,
  go_bricks_version_warning, report_status, check_go_bricks_compatibility, go_mod_file,
}

-- The replace lines that apply.
pub active : List Replace → String → List Replace
active [] required = []
active (r ∷ rs) required =
    if is_inert r required then active rs required else r ∷ active rs required

applicable_replace_target-active :
    (rs : List Replace) (required : String)
    → applicable_replace_target (active rs required) required
      ≡ applicable_replace_target rs required
unfolding applicable_replace_target active
applicable_replace_target-active [] required = refl
applicable_replace_target-active (r ∷ rs) required =
    ground (arith, applicable_replace_target-active rs required)

-- The replace lines that do not apply have no say in the verdict: it is the one of the file without
-- them.
pub version_of_mod-active :
    (mf : ModFile)
    → version_of_mod mf
      ≡ version_of_mod (record mf { replaces = active mf.replaces (required_version mf.requires) })
unfolding version_of_mod
version_of_mod-active mf =
    rw (version_of_mod, applicable_replace_target-active mf.replaces (required_version mf.requires))
      refl

-- The two commands at one status: both are content, or doctor fails with the error of the status and
-- generate warns with that error in front, except that it is silent about a go.mod that cannot be read
-- or parsed.
pub Agree : GoBricksStatus → Result (Option String) → String → Type 0
Agree st checked warning =
    ((checked ≡ done none) × (warning ≡ ""))
    ⊎ ((checked ≡ done (some st.err))
        × (((tail : String) × (warning ≡ st.err <> tail) × (tail ≢ ""))
            ⊎ ((st.verdict ≡ verdict_unreadable) × (warning ≡ ""))))

text_not_empty : (s : String) → (s == "") ≡ false → s ≢ ""
text_not_empty s h e = ground (arith, eq_iff s "")

module _ {W : Type 0} where
  agrees_at :
      (verdict : GoBricksVerdict) (version err : String) (verbose : Bool) (r : Run W)
      → let st : GoBricksStatus = record { verdict = verdict; version = version; err = err } in
        Agree st (report_status st verbose r).0 (version_warning_of st)
  unfolding Agree report_status version_warning_of
  agrees_at verdict_ok version err verbose r = inl (refl, refl)
  agrees_at verdict_replace version err true r = inl (refl, refl)
  agrees_at verdict_replace version err false r = inl (refl, refl)
  agrees_at verdict_pseudo version err verbose r = inl (refl, refl)
  agrees_at verdict_missing version err verbose r = inr (refl, inl (_, refl, text_not_empty _ refl))
  agrees_at verdict_below_floor version err verbose r =
      inr (refl, inl (_, refl, text_not_empty _ refl))
  agrees_at verdict_unreadable version err verbose r = inr (refl, inr (refl, refl))

  -- The doctor's check and the warning of generate agree: both are content, or doctor fails with an
  -- error and generate warns with that error in front. The exception is a go.mod that cannot be
  -- resolved, read or parsed: doctor fails and generate is silent.
  pub check_go_bricks_compatibility_agrees :
      (sys : System W) (v : Versions) (root : String) (verbose : Bool) (r : Run W)
      → Agree
          (resolve_go_bricks_status sys v r.files (sys.join_path root go_mod_file))
          (check_go_bricks_compatibility sys v (sys.join_path root go_mod_file) verbose r).0
          (go_bricks_version_warning sys v r.files root)
  unfolding check_go_bricks_compatibility go_bricks_version_warning
  check_go_bricks_compatibility_agrees sys v root verbose r =
      let st = resolve_go_bricks_status sys v r.files (sys.join_path root go_mod_file) in
      agrees_at st.verdict st.version st.err verbose r
