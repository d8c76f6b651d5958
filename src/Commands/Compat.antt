-- ===== src/Commands/Compat.antt =====
-- The go-bricks version check of internal/commands/doctor.go: resolveGoBricksStatus and what it
-- calls, and its two readers, checkGoBricksCompatibility and goBricksVersionWarning.
pub mod Floor
pub mod Supported
use go_bricks_openapi.Prelude.{
  String, Bool, true, false, not, ◌&&◌, ◌||◌, Option, none, some, List, [], ◌∷◌, ◌==◌,
  if◌then◌else◌,
}
use go_bricks_openapi.Prelude.Int.{ℤ, pos, ltb_ℤ}
use go_bricks_openapi.Go.Strings.{has_prefix, contains_any}
use go_bricks_openapi.Commands.Monad.{
  Run, Result, done, failed, Action, ◌<>◌, sel, ◌>>=◌, ◌>>◌, pure, println, when, gets,
}
use go_bricks_openapi.Commands.System.{
  System, Versions, Stat, present, absent, denied, Link, resolves, dangling, broken, Require,
  Replace, ModFile,
}
use go_bricks_openapi.Prelude.{eqb}

abbrev pub go_bricks_module_path : String
go_bricks_module_path = "github.com/gaborage/go-bricks"

abbrev pub min_go_bricks_ver : String
min_go_bricks_ver = "v0.45.0"

abbrev pub verified_go_bricks_ver : String
verified_go_bricks_ver = "v0.71.1"

abbrev pub go_mod_file : String
go_mod_file = "go.mod"

-- errGoBricksMissing
abbrev pub err_go_bricks_missing : String
err_go_bricks_missing = "go-bricks dependency not found in go.mod"

pub data GoBricksVerdict : Type 0 where
  verdict_ok verdict_replace verdict_pseudo verdict_missing : GoBricksVerdict
  verdict_below_floor verdict_unreadable : GoBricksVerdict

-- `err` is "" for nil.
pub record GoBricksStatus : Type 0 where
  pub verdict : GoBricksVerdict
  pub version : String
  pub err : String

-- What parseGoBricksVersion returns: a version, the target of a replace line, errGoBricksMissing,
-- or an error of the parser.
pub data GoBricksVersion : Type 0 where
  required_at replaced_by : String → GoBricksVersion
  not_required : GoBricksVersion
  not_parsed : String → GoBricksVersion

-- Whether the loop of applicableReplaceTarget passes over a replace line.
unfoldable pub is_inert : Replace → String → Bool
is_inert r required =
    not (r.old_path == go_bricks_module_path)
    || (not (r.old_version == "") && not (r.old_version == required))
    || (r.old_version == "" && required == "")

unfoldable pub replace_target : Replace → String
replace_target r = if r.new_version == "" then r.new_path else r.new_path <> "@" <> r.new_version

unfoldable pub applicable_replace_target : List Replace → String → Option String
applicable_replace_target [] required = none
applicable_replace_target (r ∷ rs) required =
    if is_inert r required then applicable_replace_target rs required else some (replace_target r)

-- The loop over the require lines, which stops at the first of the module.
unfoldable pub required_version : List Require → String
required_version [] = ""
required_version (r ∷ rs) =
    if r.path == go_bricks_module_path then r.version else required_version rs

unfoldable pub version_of_mod : ModFile → GoBricksVersion
version_of_mod mf =
    let required = required_version mf.requires in
    elim (applicable_replace_target mf.replaces required) [
      | some target ↦ replaced_by target
      | none ↦ if required == "" then not_required else required_at required
    ]

module _ (v : Versions) where
  unfoldable pub parse_go_bricks_version : String → String → GoBricksVersion
  parse_go_bricks_version path content = elim (v.parse_mod path content) [
    | failed e ↦ not_parsed ("parse go.mod: " <> e)
    | done mf ↦ version_of_mod mf
  ]

  unfoldable pub with_v : String → String
  with_v ver = if has_prefix b'v' ver then ver else "v" <> ver

  -- The error, or none.
  unfoldable pub check_version_compatibility : String → Option String
  check_version_compatibility given =
      let ver = with_v given in
      if not (v.semver_is_valid ver)
      then some ("invalid semantic version format: " <> ver)
      else if ltb_ℤ (v.semver_compare ver min_go_bricks_ver) (pos 0)
      then some ("version " <> ver <> " is below minimum " <> min_go_bricks_ver)
      else none

  unfoldable pub classify_version : GoBricksVersion → GoBricksStatus
  classify_version not_required = record {
    verdict = verdict_missing;
    version = "";
    err = err_go_bricks_missing;
  }
  classify_version (not_parsed e) = record { verdict = verdict_unreadable; version = ""; err = e }
  classify_version (replaced_by target) = record {
    verdict = verdict_replace;
    version = target;
    err = "";
  }
  classify_version (required_at ver) =
      if v.is_pseudo_version ver
      then record { verdict = verdict_pseudo; version = ver; err = "" }
      else elim (check_version_compatibility ver) [
        | some e ↦ record { verdict = verdict_below_floor; version = ver; err = e }
        | none ↦ record { verdict = verdict_ok; version = ver; err = "" }
      ]

module _ {W : Type 0} (sys : System W) (files : W) where
  -- The error, or none.
  unfoldable pub validate_path : String → Option String
  validate_path path = elim (sys.stat files path) [
    | present ↦ none
    | absent ↦ some ("path does not exist: " <> path)
    | denied e ↦ some ("failed to access path " <> path <> ": " <> e)
  ]

  -- The end of validateAndResolvePath, at the path behind the symbolic links.
  unfoldable pub accept_real_path : String → Result String
  accept_real_path real =
      if not (sys.base real == go_mod_file)
      then failed "security violation: resolved path does not end with go.mod"
      else elim (validate_path real) [ some e ↦ failed e | none ↦ done real ]

  unfoldable pub resolve_links : String → Result String
  resolve_links path =
      if not (sys.base path == go_mod_file)
      then failed "invalid go.mod path: must end with 'go.mod'"
      else elim (sys.eval_symlinks files path) [
        | resolves real ↦ accept_real_path real
        | dangling ↦ accept_real_path path
        | broken e ↦ failed ("failed to resolve symbolic links: " <> e)
      ]

  unfoldable pub validate_and_resolve_path : String → Result String
  validate_and_resolve_path path =
      if contains_any (λ c. eqb c 0) path
      then failed "invalid path: contains null byte"
      else elim (sys.abs (sys.clean path)) [
        | failed e ↦ failed ("failed to resolve absolute path: " <> e)
        | done full ↦ resolve_links full
      ]

abbrev unreadable : String → GoBricksStatus
unreadable e = record { verdict = verdict_unreadable; version = ""; err = e }

-- The text of the warning, or "".
unfoldable pub version_warning_of : GoBricksStatus → String
version_warning_of st = elim st.verdict [
  | verdict_missing ↦ st.err <> " — the generated spec may not describe a go-bricks service"
  | verdict_below_floor ↦
      st.err <> " — OpenAPI generation targets go-bricks " <> min_go_bricks_ver
      <> "+ (verified through " <> verified_go_bricks_ver
      <> "), so the spec may not match your runtime"
  | _ ↦ ""
]

module _ {W : Type 0} where
  -- Prints the verdict and returns the error, or none.
  unfoldable pub report_status : GoBricksStatus → Bool → Action W (Option String)
  report_status st verbose = elim st.verdict [
    | verdict_unreadable ↦ println ("❌ " <> st.err) >> pure (some st.err)
    | verdict_missing ↦ println ("❌ " <> st.err) >> pure (some st.err)
    | verdict_replace ↦
        println
          ("ℹ" <> sel <> "  go-bricks: local replace directive detected (" <> st.version <> ")")
        >> when verbose
            (println "   → Skipping version compatibility check (using local development version)")
        >> pure none
    | verdict_pseudo ↦
        println ("📦 go-bricks version: " <> st.version)
        >> println (
            "ℹ" <> sel <> "  " <> st.version
            <> " is a pseudo-version (untagged build) — skipping the version floor")
        >> pure none
    | verdict_below_floor ↦
        println ("📦 go-bricks version: " <> st.version)
        >> println ("❌ " <> st.err)
        >> println ("   → OpenAPI generation requires go-bricks " <> min_go_bricks_ver <> "+")
        >> pure (some st.err)
    | verdict_ok ↦
        println ("📦 go-bricks version: " <> st.version)
        >> println (
            "✅ go-bricks version compatible (floor " <> min_go_bricks_ver <> ", verified through "
            <> verified_go_bricks_ver <> ")")
        >> pure none
  ]

module _ {W : Type 0} (sys : System W) (v : Versions) where
  unfoldable pub read_status : W → String → GoBricksStatus
  read_status files path = elim (sys.read_file files path) [
    | failed e ↦ unreadable ("failed to read go.mod: " <> e)
    | done content ↦ classify_version v (parse_go_bricks_version v path content)
  ]

  unfoldable pub resolve_go_bricks_status : W → String → GoBricksStatus
  resolve_go_bricks_status files go_mod_path =
      elim (validate_and_resolve_path sys files go_mod_path) [
        | failed e ↦ unreadable ("cannot resolve go.mod path: " <> e)
        | done path ↦ read_status files path
      ]

  unfoldable pub go_bricks_version_warning : W → String → String
  go_bricks_version_warning files project_root =
      version_warning_of (resolve_go_bricks_status files (sys.join_path project_root go_mod_file))

  unfoldable pub check_go_bricks_compatibility : String → Bool → Action W (Option String)
  check_go_bricks_compatibility go_mod_path verbose =
      gets (λ files. resolve_go_bricks_status files go_mod_path) >>= λ st. report_status st verbose
