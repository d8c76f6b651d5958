-- ===== src/Commands/Options.antt =====
-- The options of the generate command in internal/commands/generate.go: their checks, the output
-- format and the configuration of the generator.
pub mod Formats
use Prim.Native.Char.{code}
use go_bricks_openapi.Prelude.{
  String, Bool, true, false, not, ◌&&◌, Option, none, some, List, ◌==◌, eqb, if◌then◌else◌,
}
use go_bricks_openapi.Go.{Go}
use go_bricks_openapi.Go.Strings.{str_cons, contains_any}
use go_bricks_openapi.Generate.{License, Config}
use go_bricks_openapi.Commands.Monad.{Result, done, failed, ◌<>◌}
use go_bricks_openapi.Commands.System.{System, Stat, present, absent, denied}

pub record GenerateOptions : Type 0 where
  pub project_root : String
  pub output_file : String
  pub verbose : Bool
  pub title : String
  pub api_version : String
  pub description : String
  pub servers : List String
  pub license : String
  pub license_url : String
  pub format : String
  pub disable_tenant_auth : Bool
  pub tenant_header : String
  pub strict : Bool
  pub fail_on_warnings : Bool
  pub validate : Bool

-- filepath.Ext: the suffix from the last dot of the last element.
unfoldable pub ext : String → String
ext String.[] = ""
ext (String.◌∷◌ c s) =
    let rest = ext s in
    if rest == ""
    then (if eqb (code c) b'.' && not (contains_any (λ d. eqb d b'/') s) then str_cons c s else "")
    else rest

unfoldable pub build_generator_config : GenerateOptions → Config
build_generator_config opts = record {
  title = opts.title;
  version = opts.api_version;
  description = opts.description;
  servers = opts.servers;
  license =
      if opts.license == ""
      then none
      else some (record { name = opts.license; url = opts.license_url });
  disable_tenant_security = opts.disable_tenant_auth;
  tenant_header = opts.tenant_header;
}

-- The format of an extension, none where it is not a known one.
unfoldable pub format_of_ext : String → Option String
format_of_ext e =
    if e == ".json"
    then some "json"
    else if e == ".yaml"
    then some "yaml"
    else if e == ".yml"
    then some "yaml"
    else none

module _ (go : Go) where
  open go use {to_lower, trim_space}

  unfoldable pub format_for_ext : String → Option String
  format_for_ext path = format_of_ext (to_lower (ext path))

  -- Whether an extension stands for another format.
  unfoldable pub conflicts : Option String → String → Bool
  conflicts none explicit = false
  conflicts (some known) explicit = not (known == explicit)

  abbrev or_yaml : Option String → String
  or_yaml none = "yaml"
  or_yaml (some known) = known

  -- `%q` of the file's texts is written as the text between quotes.
  unfoldable pub resolve_format : GenerateOptions → Result String
  resolve_format opts =
      let explicit = to_lower opts.format in
      let known = format_for_ext opts.output_file in
      if explicit == ""
      then done (or_yaml known)
      else if not (explicit == "yaml") && not (explicit == "json")
      then failed ("invalid --format \"" <> opts.format <> "\" (want yaml or json)")
      else if conflicts known explicit
      then failed (
          "--format "
          <> explicit
          <> " conflicts with output extension \""
          <> ext opts.output_file
          <> "\" (the file would lie about its contents)")
      else done explicit

  unfoldable pub with_extension : GenerateOptions → String → GenerateOptions
  with_extension opts format =
      if ext opts.output_file == ""
      then record opts {
        output_file = opts.output_file <> (if format == "json" then ".json" else ".yaml");
      }
      else opts

  unfoldable pub trimmed_license : GenerateOptions → GenerateOptions
  trimmed_license opts = record opts {
    license = trim_space opts.license;
    license_url = trim_space opts.license_url;
  }

  -- The checks after the project root was found, and the options they leave behind.
  unfoldable pub complete_options : GenerateOptions → Result GenerateOptions
  complete_options given =
      let opts = trimmed_license given in
      if not (opts.license_url == "") && opts.license == ""
      then failed "--license-url requires --license (OpenAPI license.url requires license.name)"
      else elim (resolve_format opts) [
        | failed e ↦ failed e
        | done format ↦ done (with_extension opts format)
      ]

  -- An error of os.Stat that is not about a missing file is ignored.
  unfoldable pub validate_generate_options :
      {W : Type 0} → System W → W → GenerateOptions → Result GenerateOptions
  validate_generate_options sys files opts = elim (sys.stat files opts.project_root) [
    | absent ↦ failed ("project root does not exist: " <> opts.project_root)
    | present ↦ complete_options opts
    | denied e ↦ complete_options opts
  ]
