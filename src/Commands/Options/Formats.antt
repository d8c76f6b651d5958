-- ===== src/Commands/Options/Formats.antt =====
-- The format and the file name agree in internal/commands/generate.go.
use Prim.Native.Char.{Char}
use text.Mathlib.TextLemmas.{nil-append, cons-append}
use go_bricks_openapi.Prelude.{
  String, ◌≡◌, ◌≢◌, ◌⊎◌, inl, inr, refl, false, none, some, ◌==◌, arith, eq_iff, if◌then◌else◌,
  Bool-cases, Option-cases,
}
use go_bricks_openapi.Go.{Go}
use go_bricks_openapi.Go.Strings.{str_cons, contains_any}
use go_bricks_openapi.Commands.Monad.{done, Result-cases, ◌<>◌}
use go_bricks_openapi.Commands.Options.{
  GenerateOptions, ext, format_of_ext, format_for_ext, resolve_format, with_extension,
  trimmed_license, complete_options, conflicts,
}

ext_tail : (c : Char) (s : String) → ext (str_cons c s) ≡ "" → ext s ≡ ""
unfolding ext
ext_tail c s h = ground (arith, eq_iff (ext s) "")

-- A name without an extension gets the one that is appended.
ext_append : (s e : String) → ext e ≡ e → (e == "") ≡ false → ext s ≡ "" → ext (s <> e) ≡ e
unfolding ext
ext_append String.[] e own some_dot h = rw nil-append own
ext_append (String.◌∷◌ c s) e own some_dot h =
    let rest = ext_append s e own some_dot (ext_tail c s h) in
    rw (cons-append, ext, rest, some_dot) refl

format_text : String → String
format_text f = if f == "json" then ".json" else ".yaml"

ext-format_text :
    (f : String) → (ext (format_text f) ≡ format_text f) × ((format_text f == "") ≡ false)
unfolding ext contains_any format_text
ext-format_text f = elim (Bool-cases (f == "json")) [
  | inl e ↦ rw e (refl, refl)
  | inr e ↦ rw e (refl, refl)
]

with_extension_license :
    (go : Go) (opts : GenerateOptions) (f : String)
    → ((with_extension go opts f).license ≡ opts.license)
      × ((with_extension go opts f).license_url ≡ opts.license_url)
unfolding with_extension
with_extension_license go opts f = ground arith

complete_options_licensed :
    (go : Go) (given opts : GenerateOptions)
    → complete_options go given ≡ done opts
    → (opts.license_url ≡ "") ⊎ (opts.license ≢ "")
unfolding complete_options
complete_options_licensed go given opts h =
    let trimmed = trimmed_license go given in
    elim (Result-cases (resolve_format go trimmed)) [
      | inr (e, bad) ↦ ground (arith, bad)
      | inl (f, good) ↦ ground (
        arith,
        good,
        with_extension_license go trimmed f,
        eq_iff trimmed.license_url "",
        eq_iff trimmed.license "",
      )
    ]

module _ (go : Go) where
  open go use {to_lower}

  -- A format that is known, and that no extension contradicts.
  pub Fits : GenerateOptions → String → Type 0
  Fits opts f =
      ((f ≡ "yaml") ⊎ (f ≡ "json"))
      × ((format_for_ext go opts.output_file ≡ some f)
          ⊎ (format_for_ext go opts.output_file ≡ none))

  format_of_ext_known : (e f : String) → format_of_ext e ≡ some f → (f ≡ "yaml") ⊎ (f ≡ "json")
  unfolding format_of_ext
  format_of_ext_known e f h = ground (arith)

  format_for_ext_known :
      (file f : String) → format_for_ext go file ≡ some f → (f ≡ "yaml") ⊎ (f ≡ "json")
  unfolding format_for_ext
  format_for_ext_known file f h = format_of_ext_known (to_lower (ext file)) f h

  resolve_format-Fits :
      (opts : GenerateOptions) (f : String) → resolve_format go opts ≡ done f → Fits opts f
  unfolding resolve_format Fits conflicts
  resolve_format-Fits opts f h = elim (Option-cases (format_for_ext go opts.output_file)) [
    | inl unknown ↦
        ground (arith, eq_iff (to_lower opts.format) "yaml", eq_iff (to_lower opts.format) "json")
    | inr (g, known) ↦ ground (
      arith,
      format_for_ext_known opts.output_file g known,
      eq_iff (to_lower opts.format) "yaml",
      eq_iff (to_lower opts.format) "json",
      eq_iff g (to_lower opts.format),
    )
  ]

  -- A resolved format is resolved again whatever the file is called, if its extension stands for
  -- that format.
  resolve_format_again :
      (opts : GenerateOptions) (f file : String)
      → resolve_format go opts ≡ done f
      → format_for_ext go file ≡ some f
      → resolve_format go (record opts { output_file = file }) ≡ done f
  unfolding resolve_format conflicts
  resolve_format_again opts f file h known = ground (
    arith,
    eq_iff (to_lower opts.format) "yaml",
    eq_iff (to_lower opts.format) "json",
    eq_iff f (to_lower opts.format),
  )

  module _ (lower_json : to_lower ".json" ≡ ".json") (lower_yaml : to_lower ".yaml" ≡ ".yaml") where
    format_for_ext-append :
        (s f : String)
        → (f ≡ "yaml") ⊎ (f ≡ "json")
        → ext s ≡ ""
        → format_for_ext go (s <> format_text f) ≡ some f
    unfolding format_for_ext format_of_ext format_text
    format_for_ext-append s f (inl e) h =
        let new = ext_append s ".yaml" (ext-format_text "yaml").0 refl h in
        rw e (rw (new, lower_yaml) refl)
    format_for_ext-append s f (inr e) h =
        let new = ext_append s ".json" (ext-format_text "json").0 refl h in
        rw e (rw (new, lower_json) refl)

    with_extension_consistent :
        (opts : GenerateOptions) (f : String)
        → resolve_format go opts ≡ done f
        → (resolve_format go (with_extension go opts f) ≡ done f)
          × Fits (with_extension go opts f) f
          × (ext (with_extension go opts f).output_file ≢ "")
    unfolding with_extension format_text Fits
    with_extension_consistent opts f h = elim (Bool-cases (ext opts.output_file == "")) [
      | inr named ↦
          rw named (
            h,
            resolve_format-Fits opts f h,
            (λ e. ground (arith, eq_iff (ext opts.output_file) "")),
          )
      | inl bare ↦
          let nothing = (eq_iff (ext opts.output_file) "").0 bare in
          let file = opts.output_file <> format_text f in
          let known =
            format_for_ext-append opts.output_file f (resolve_format-Fits opts f h).0 nothing in
          let again = resolve_format_again opts f file h known in
          let (own, some_dot) = ext-format_text f in
          let new = ext_append opts.output_file (format_text f) own some_dot nothing in
          rw bare (
            again,
            resolve_format-Fits (record opts { output_file = file }) f again,
            (λ e. ground (arith, eq_iff (ext file) "")),
          )
    ]

    -- The options that are accepted resolve to a format, yaml or json, and the name of the output
    -- file has an extension, one that stands for that format or an unknown one; no license URL is
    -- left without a license. Known are the lower-case forms of the two extensions.
    pub complete_options_consistent :
        (given opts : GenerateOptions)
        → complete_options go given ≡ done opts
        → (f : String) × (resolve_format go opts ≡ done f)
          × Fits opts f
          × (ext opts.output_file ≢ "")
          × ((opts.license_url ≡ "") ⊎ (opts.license ≢ ""))
    unfolding complete_options
    complete_options_consistent given opts h =
        let trimmed = trimmed_license go given in
        elim (Result-cases (resolve_format go trimmed)) [
          | inr (e, bad) ↦ ground (arith, bad)
          | inl (f, good) ↦
              let (again, fits, named) = with_extension_consistent trimmed f good in
              let same : with_extension go trimmed f ≡ opts = ground (arith, good) in
              (
                f,
                rw same at again,
                rw same at fits,
                rw same at named,
                complete_options_licensed go given opts h,
              )
        ]
