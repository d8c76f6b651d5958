-- ===== src/Tests/Commands.antt =====
-- The commands on a system whose only file is the output, and on the sample project.
use go_bricks_openapi.Prelude.{
  ℕ, ◌+◌, ◌≤◌, String, ◌≡◌, ◌≢◌, ◌⊎◌, ◌↔◌, refl, ap, inl, inr, true, false, Option, none, some, [],
  ◌∷◌, length, if◌then◌else◌,
}
use go_bricks_openapi.Prelude.Int.{pos}
use go_bricks_openapi.Go.Strings.{contains_any, has_prefix}
use go_bricks_openapi.Models.{Project}
use go_bricks_openapi.Generate.{new_with_config}
use go_bricks_openapi.Generate.Complete.{generate-Complete}
use go_bricks_openapi.Commands.Monad.{Run, done, failed}
use go_bricks_openapi.Commands.System.{System, present, resolves, removed, leaf_file, Versions}
use go_bricks_openapi.Commands.Stats.{
  calculate_project_stats, update_stats_for_modules, update_stats_for_routes,
  update_stats_for_route, classify_route, content_warnings, untyped_warnings,
}
use go_bricks_openapi.Commands.Unresolved.{unresolved_route_count_line}
use go_bricks_openapi.Analyzer.Payload.{is_typed_payload}
use go_bricks_openapi.Commands.Stats.Counts.{calculate_project_stats_add_up}
use go_bricks_openapi.Commands.Options.{
  GenerateOptions, build_generator_config, resolve_format, validate_generate_options,
  complete_options, ext, format_for_ext, format_of_ext, with_extension, trimmed_license, conflicts,
}
use go_bricks_openapi.Commands.Options.Formats.{Fits, complete_options_consistent}
use go_bricks_openapi.Commands.Compat.{
  verdict_ok, resolve_go_bricks_status, check_go_bricks_compatibility, go_bricks_version_warning,
  validate_and_resolve_path, resolve_links, accept_real_path, validate_path, read_status,
  parse_go_bricks_version, version_of_mod, required_version, applicable_replace_target,
  classify_version, check_version_compatibility, with_v, version_warning_of,
}
use go_bricks_openapi.Commands.Compat.Floor.{Agree, check_go_bricks_compatibility_agrees}
use go_bricks_openapi.Commands.Generate.{
  Analysis, Tools, generate_yaml, generate_spec_content, in_format, wrap, finish_run, run_generate,
  run_checked, analyze_and_finish, report_analysis, show_version_warning, analyze_project,
  report_project, show_modules, report_warnings, warn_each, emit_content_warnings, report_count,
  show_unresolved, should_fail_strict, validate_generated_spec, reject_invalid, write_spec, perform,
  announce_spec,
}
use go_bricks_openapi.Commands.Generate.Outcome.{Removes, Writes, NothingLeft}
use go_bricks_openapi.Commands.Generate.Success.{run_generate_writes, run_generate_silent}
use go_bricks_openapi.Commands.Compat.Supported.{Supported, resolve_go_bricks_status-Supported}
use go_bricks_openapi.Commands.Generate.Failure.{run_generate_strict}
use go_bricks_openapi.Commands.Doctor.{DoctorOptions, run_doctor}
use go_bricks_openapi.Commands.Doctor.Health.{is_healthy, run_doctor-is_healthy}
use go_bricks_openapi.Tests.Sample.{sample_go, sample_project}

abbrev sample_system : System (Option String)
sample_system = record {
  stat = λ w p. present;
  read_file = λ w p. done "module shop";
  eval_symlinks = λ w p. resolves p;
  walk = λ w p. leaf_file "main.go";
  remove = λ w p. (removed, none);
  mkdir_all = λ w p. (none, w);
  write_file = λ w p s. (none, some s);
  clean = λ p. p;
  abs = λ p. done p;
  is_abs = λ p. true;
  base = λ p. p;
  dir = λ p. ".";
  join_path = λ p q. q;
  runtime_version = "go1.26";
  goroot = "";
  gopath = "";
}

abbrev sample_versions : Versions
sample_versions = record {
  parse_mod = λ name content. done (record {
    requires = record { path = "github.com/gaborage/go-bricks"; version = "v0.71.1" } ∷ [];
    replaces = [];
  });
  is_pseudo_version = λ s. false;
  semver_is_valid = λ s. true;
  semver_compare = λ a b. pos 1;
  go_is_valid = λ s. true;
  go_lang = λ s. s;
  go_compare = λ a b. pos 0;
}

abbrev sample_tools : Tools sample_go (Option String)
sample_tools = record {
  analyze = λ w root. done (record { project = sample_project; warnings = []; unresolved = [] });
  render_yaml = λ d. done "openapi: 3.0.1";
  encoders = record {
    Value = String;
    unmarshal = λ s. failed "";
    decode = λ n. failed "";
    marshal_indent = λ j. failed "";
  };
  validate_spec = λ s. none;
}

abbrev contents : Option String → String → Option String
contents w p = w

sample_removes : Removes sample_system contents
sample_removes w p = inr refl

sample_writes : Writes sample_system contents
sample_writes w p s = inr refl

abbrev strict_options : GenerateOptions
strict_options = record {
  project_root = ".";
  output_file = "openapi";
  verbose = false;
  title = "";
  api_version = "";
  description = "";
  servers = [];
  license = "";
  license_url = "";
  format = "";
  disable_tenant_auth = false;
  tenant_header = "";
  strict = true;
  fail_on_warnings = false;
  validate = true;
}

abbrev named_options : GenerateOptions
named_options = record strict_options { output_file = "openapi.yaml" }

abbrev sample_run : Run (Option String)
sample_run = record { files = none; stdout = []; stderr = [] }

calculate_project_stats_add_up_example :
    let s = calculate_project_stats sample_project in
    (s.typed_routes + length s.untyped_routes ≡ s.route_count)
    × (s.typed_request_routes ≤ s.typed_routes)
    × (s.typed_response_routes ≤ s.typed_routes)
    × (s.typed_routes ≤ s.typed_request_routes + s.typed_response_routes)
calculate_project_stats_add_up_example = calculate_project_stats_add_up sample_project

resolve_go_bricks_status-Supported_example :
    (((resolve_go_bricks_status sample_system sample_versions none "go.mod").verdict ≡ verdict_ok)
      × ((resolve_go_bricks_status sample_system sample_versions none "go.mod").version
          ≡ "v0.71.1"))
    ↔ ((real : String) × (validate_and_resolve_path sample_system none "go.mod" ≡ done real)
        × ((content : String) × (sample_system.read_file none real ≡ done content)
            × Supported sample_versions real content "v0.71.1"))
resolve_go_bricks_status-Supported_example =
    resolve_go_bricks_status-Supported sample_versions sample_system none "go.mod" "v0.71.1"

check_go_bricks_compatibility_agrees_example :
    Agree
      (resolve_go_bricks_status sample_system sample_versions none "go.mod")
      (check_go_bricks_compatibility sample_system sample_versions "go.mod" false sample_run).0
      (go_bricks_version_warning sample_system sample_versions none ".")
check_go_bricks_compatibility_agrees_example =
    check_go_bricks_compatibility_agrees sample_system sample_versions "." false sample_run

options_completed : complete_options sample_go strict_options ≡ done named_options
unfolding complete_options trimmed_license resolve_format format_for_ext format_of_ext ext
    with_extension conflicts
options_completed = refl

complete_options_consistent_example :
    (f : String) × (resolve_format sample_go named_options ≡ done f)
    × Fits sample_go named_options f
    × (ext "openapi.yaml" ≢ "")
    × ((named_options.license_url ≡ "") ⊎ (named_options.license ≢ ""))
complete_options_consistent_example =
    complete_options_consistent sample_go refl refl strict_options named_options options_completed

abbrev warned_analysis : Analysis
warned_analysis = record {
  project = sample_project;
  warnings = "a field has no type" ∷ [];
  unresolved = [];
}

abbrev warning_tools : Tools sample_go (Option String)
warning_tools = record sample_tools { analyze = λ w root. done warned_analysis }

options_accepted :
    validate_generate_options sample_go sample_system none strict_options ≡ done named_options
unfolding validate_generate_options complete_options trimmed_license resolve_format format_for_ext
    format_of_ext ext with_extension conflicts
options_accepted = refl

format_resolved : resolve_format sample_go named_options ≡ done "yaml"
unfolding resolve_format format_for_ext format_of_ext ext conflicts contains_any
format_resolved = refl

run_generate_strict_example :
    NothingLeft sample_system contents sample_run "openapi.yaml"
      "spec generated with warnings and --strict is set"
      (run_generate sample_go sample_system sample_versions warning_tools strict_options sample_run)
run_generate_strict_example =
    run_generate_strict sample_go sample_system sample_versions warning_tools contents
      sample_removes strict_options named_options "yaml" warned_analysis sample_run options_accepted
      format_resolved refl refl (inr (inl (λ same. cc same)))

abbrev doctor_options : DoctorOptions
doctor_options = record { project_root = "."; verbose = true; go_version = "" }

abbrev hundred : ℕ → ℕ → String
hundred n m = "100.0"

run_doctor-is_healthy_example :
    let out =
      run_doctor sample_go sample_system sample_versions sample_tools hundred doctor_options
        sample_run in
    (out.0 ≡ (
      if is_healthy sample_system sample_versions none doctor_options
      then done tt
      else failed "health check failed"))
    × (out.1.files ≡ none)
run_doctor-is_healthy_example =
    run_doctor-is_healthy sample_go sample_system sample_versions sample_tools hundred
      doctor_options sample_run

-- A document is always there, and the sample encoder prints it as this text.
generate_yaml_sample :
    (opts : GenerateOptions) (p : Project)
    → generate_yaml sample_go sample_system sample_versions sample_tools opts p
      ≡ done "openapi: 3.0.1"
unfolding generate_yaml
generate_yaml_sample opts p =
    let made =
      generate-Complete sample_go (new_with_config sample_go (some (build_generator_config opts)))
        p in
    rw (made.2, generate_yaml) refl

generate_spec_content_sample :
    (opts : GenerateOptions) (p : Project)
    → generate_spec_content sample_go sample_system sample_versions sample_tools opts p "yaml"
      ≡ done "openapi: 3.0.1"
unfolding generate_spec_content wrap in_format
generate_spec_content_sample opts p = rw (generate_yaml_sample opts p, generate_spec_content) refl

generates :
    (run_generate sample_go sample_system sample_versions sample_tools strict_options sample_run).0
    ≡ done tt
unfolding run_generate run_checked validate_generate_options complete_options trimmed_license
    resolve_format format_for_ext format_of_ext ext with_extension conflicts contains_any has_prefix
    analyze_and_finish report_analysis go_bricks_version_warning resolve_go_bricks_status
    validate_and_resolve_path resolve_links accept_real_path validate_path read_status
    parse_go_bricks_version version_of_mod required_version applicable_replace_target
    classify_version check_version_compatibility with_v version_warning_of show_version_warning
    analyze_project wrap report_project show_modules report_warnings warn_each emit_content_warnings
    calculate_project_stats update_stats_for_modules update_stats_for_routes update_stats_for_route
    classify_route is_typed_payload content_warnings untyped_warnings report_count show_unresolved
    unresolved_route_count_line finish_run should_fail_strict validate_generated_spec reject_invalid
    write_spec perform announce_spec
generates = rw (generate_spec_content_sample named_options sample_project) refl

abbrev sample_end : Run (Option String)
sample_end =
    (run_generate sample_go sample_system sample_versions sample_tools strict_options sample_run).1

generates_whole :
    run_generate sample_go sample_system sample_versions sample_tools strict_options sample_run
    ≡ (done tt, sample_end)
generates_whole = ap (λ res. (res, sample_end)) generates

run_generate_writes_example :
    (opts : GenerateOptions) × (format : String) × (p : Project) × (content : String)
    × (validate_generate_options sample_go sample_system none strict_options ≡ done opts)
    × (resolve_format sample_go opts ≡ done format)
    × (generate_spec_content sample_go sample_system sample_versions sample_tools opts p format
        ≡ done content)
    × ((opts.validate ≡ false) ⊎ (sample_tools.validate_spec content ≡ none))
    × (contents sample_end.files opts.output_file ≡ some content)
run_generate_writes_example =
    run_generate_writes sample_go sample_system sample_versions sample_tools contents sample_writes
      strict_options sample_run sample_end generates_whole

run_generate_silent_example : length sample_end.stderr ≡ 0
run_generate_silent_example =
    run_generate_silent sample_go sample_system sample_versions sample_tools contents sample_writes
      strict_options sample_run sample_end generates_whole refl
