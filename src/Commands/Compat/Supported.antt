-- ===== src/Commands/Compat/Supported.antt =====
-- Which go.mod the version check of internal/commands/doctor.go accepts.
use go_bricks_openapi.Prelude.{
  String, ◌≡◌, ◌≢◌, ◌⊎◌, ◌↔◌, refl, subst, true, false, none, List, [], ◌∷◌, All, arith, eq_iff,
}
use go_bricks_openapi.Prelude.Int.{pos, ltb_ℤ}
use go_bricks_openapi.Commands.Monad.{Result, done, failed, ◌<>◌}
use go_bricks_openapi.Commands.System.{System, Versions, Require, Replace, ModFile}
use go_bricks_openapi.Commands.Compat.{
  GoBricksStatus, verdict_ok, verdict_unreadable, GoBricksVersion, required_at, replaced_by,
  not_required, not_parsed, is_inert, applicable_replace_target, required_version, version_of_mod,
  with_v, check_version_compatibility, classify_version, parse_go_bricks_version, read_status,
  resolve_go_bricks_status, validate_and_resolve_path,
}

-- The first require line of go-bricks has the version.
pub FirstRequired : List Require → String → Type 0
FirstRequired [] ver = ⊥
FirstRequired (r ∷ rs) ver =
    ((r.path ≡ "github.com/gaborage/go-bricks") × (r.version ≡ ver))
    ⊎ ((r.path ≢ "github.com/gaborage/go-bricks") × FirstRequired rs ver)

-- The replace line is about another module, or about another version of go-bricks.
pub Spares : String → Replace → Type 0
Spares ver r =
    (r.old_path ≢ "github.com/gaborage/go-bricks") ⊎ ((r.old_version ≢ "") × (r.old_version ≢ ver))

required_version-FirstRequired :
    (rs : List Require) (ver : String)
    → ver ≢ ""
    → (required_version rs ≡ ver) ↔ FirstRequired rs ver
unfolding required_version FirstRequired
required_version-FirstRequired [] ver named = ground arith
required_version-FirstRequired (r ∷ rs) ver named = ground (
  arith,
  eq_iff r.path "github.com/gaborage/go-bricks",
  required_version-FirstRequired rs ver named,
)

is_inert-Spares : (r : Replace) (ver : String) → ver ≢ "" → (is_inert r ver ≡ true) ↔ Spares ver r
unfolding is_inert Spares
is_inert-Spares r ver named = ground (
  arith,
  eq_iff r.old_path "github.com/gaborage/go-bricks",
  eq_iff r.old_version "",
  eq_iff r.old_version ver,
  eq_iff ver "",
)

applicable_replace_target-Spares :
    (rs : List Replace) (ver : String)
    → ver ≢ ""
    → (applicable_replace_target rs ver ≡ none) ↔ All (Spares ver) rs
unfolding applicable_replace_target
applicable_replace_target-Spares [] ver named = ground arith
applicable_replace_target-Spares (r ∷ rs) ver named =
    ground (arith, is_inert-Spares r ver named, applicable_replace_target-Spares rs ver named)

-- The file requires go-bricks at the version, and no replace line puts something else in its place.
abbrev Requires : ModFile → String → Type 0
Requires mf ver = (ver ≢ "") × FirstRequired mf.requires ver × All (Spares ver) mf.replaces

version_of_mod_cases :
    (mf : ModFile) (ver : String)
    → (version_of_mod mf ≡ required_at ver) ↔ (
        (ver ≢ "")
        × (required_version mf.requires ≡ ver)
        × (applicable_replace_target mf.replaces (required_version mf.requires) ≡ none))
unfolding version_of_mod
version_of_mod_cases mf ver = ground (arith, eq_iff (required_version mf.requires) "")

version_of_mod-Requires :
    (mf : ModFile) (ver : String) → (version_of_mod mf ≡ required_at ver) ↔ Requires mf ver
version_of_mod-Requires mf ver =
    let cases = version_of_mod_cases mf ver in
    (
      (λ h.
          let (named, required, spared) = cases.0 h in
          (
            named,
            (required_version-FirstRequired mf.requires ver named).0 required,
            (applicable_replace_target-Spares mf.replaces ver named).0 (rw required at spared),
          )),
      (λ h.
          let (named, first, spares) = h in
          let required = (required_version-FirstRequired mf.requires ver named).1 first in
          cases.1 (
            named,
            required,
            rw required ((applicable_replace_target-Spares mf.replaces ver named).1 spares),
          )),
    )

-- The status is that of a version that is compatible.
abbrev pub IsOk : GoBricksStatus → String → Type 0
IsOk st ver = (st.verdict ≡ verdict_ok) × (st.version ≡ ver)

-- A status that is computed from a result is so exactly if the result is no error and its value makes
-- it so.
IsOk-result :
    {A : Type 0} (res : Result A) (F : Result A → GoBricksStatus) (Q : A → Type 0) (ver : String)
    → ((e : String) → (F (failed e)).verdict ≡ verdict_ok → ⊥)
    → ((a : A) → IsOk (F (done a)) ver ↔ Q a)
    → IsOk (F res) ver ↔ ((a : A) × (res ≡ done a) × Q a)
IsOk-result (failed e) F Q ver bad good =
    ((λ h. absurd (bad e h.0)), (λ h. let (a, same, q) = h in absurd (cc same)))
IsOk-result (done b) F Q ver bad good = (
  (λ h. (b, refl, (good b).0 h)),
  (λ h. let (a, e, q) = h in let same : a ≡ b = cc e in (good b).1 (subst Q same q)),
)

module _ (v : Versions) where
  -- The version is valid, no pseudo-version, and v0.45.0 or later.
  pub Accepted : String → Type 0
  Accepted ver =
      (v.is_pseudo_version ver ≡ false)
      × (v.semver_is_valid (with_v v ver) ≡ true)
      × (ltb_ℤ (v.semver_compare (with_v v ver) "v0.45.0") (pos 0) ≡ false)

  check_version_compatibility_passes :
      (ver : String)
      → (check_version_compatibility v ver ≡ none) ↔ (
          (v.semver_is_valid (with_v v ver) ≡ true)
          × (ltb_ℤ (v.semver_compare (with_v v ver) "v0.45.0") (pos 0) ≡ false))
  unfolding check_version_compatibility
  check_version_compatibility_passes ver = ground arith

  classify_version-Accepted :
      (g : GoBricksVersion) (ver : String)
      → (((classify_version v g).verdict ≡ verdict_ok) × ((classify_version v g).version ≡ ver))
        ↔ ((g ≡ required_at ver) × Accepted ver)
  unfolding classify_version Accepted
  classify_version-Accepted not_required ver = ground arith
  classify_version-Accepted (not_parsed e) ver = ground arith
  classify_version-Accepted (replaced_by t) ver = ground arith
  classify_version-Accepted (required_at w) ver =
      ground (arith, check_version_compatibility_passes w, check_version_compatibility_passes ver)

  -- The text parses as a go.mod that requires go-bricks at a version that is accepted.
  abbrev pub Supported : String → String → String → Type 0
  Supported path content ver =
      (mf : ModFile) × (v.parse_mod path content ≡ done mf) × (Requires mf ver × Accepted ver)

  parse-Supported :
      (path content ver : String)
      → IsOk (classify_version v (parse_go_bricks_version v path content)) ver
        ↔ Supported path content ver
  unfolding parse_go_bricks_version classify_version
  parse-Supported path content ver =
      IsOk-result (v.parse_mod path content)
        (λ res. classify_version v (elim res [
          | failed e ↦ not_parsed ("parse go.mod: " <> e)
          | done mf ↦ version_of_mod mf
        ]))
        (λ mf. Requires mf ver × Accepted ver) ver (λ e h. ground arith)
        λ mf.
          ground (
            arith,
            classify_version-Accepted (version_of_mod mf) ver,
            version_of_mod-Requires mf ver,
          )

  module _ {W : Type 0} (sys : System W) (files : W) where
    read_status-Supported :
        (path ver : String)
        → IsOk (read_status sys v files path) ver ↔ (
            (content : String) × (sys.read_file files path ≡ done content)
            × Supported path content ver)
    unfolding read_status
    read_status-Supported path ver =
        IsOk-result (sys.read_file files path)
          (λ res. elim res [
            | failed e ↦ record {
              verdict = verdict_unreadable;
              version = "";
              err = "failed to read go.mod: " <> e;
            }
            | done content ↦ classify_version v (parse_go_bricks_version v path content)
          ])
          (λ content. Supported path content ver) ver (λ e h. ground arith)
          (λ content. parse-Supported path content ver)

    -- The check accepts a project with a version exactly if its go.mod can be resolved, read and
    -- parsed, the first require line of go-bricks in it has that version and no replace line applies
    -- to it, and the version is valid, no pseudo-version, and v0.45.0 or later.
    pub resolve_go_bricks_status-Supported :
        (path ver : String)
        → (((resolve_go_bricks_status sys v files path).verdict ≡ verdict_ok)
            × ((resolve_go_bricks_status sys v files path).version ≡ ver))
          ↔ ((real : String) × (validate_and_resolve_path sys files path ≡ done real)
              × ((content : String) × (sys.read_file files real ≡ done content)
                  × Supported real content ver))
    unfolding resolve_go_bricks_status
    resolve_go_bricks_status-Supported path ver =
        IsOk-result (validate_and_resolve_path sys files path)
          (λ res. elim res [
            | failed e ↦ record {
              verdict = verdict_unreadable;
              version = "";
              err = "cannot resolve go.mod path: " <> e;
            }
            | done real ↦ read_status sys v files real
          ])
          (λ real.
            (content : String) × (sys.read_file files real ≡ done content)
            × Supported real content ver)
          ver (λ e h. ground arith) (λ real. read_status-Supported real ver)
