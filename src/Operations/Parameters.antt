-- ===== src/Operations/Parameters.antt =====
-- The parameters of a route (extractParameters, pathTemplateVars, appendMissingPathParams).
use Prim.Native.Char.{Char, code}
use go_bricks_openapi.Prelude.{
  String, Bool, true, false, ◌||◌, Option, none, some, List, [], ◌∷◌, ◌++◌, ◌==◌, eqb, one_of,
  if◌then◌else◌,
}
use go_bricks_openapi.Go.{Go}
use go_bricks_openapi.Go.Strings.{chars, text_of, split, cut_suffix}
use go_bricks_openapi.Models.{Fields, end, and_field, FieldInfo, tags, Route}
use go_bricks_openapi.Document.{keywords, Parameter}
use go_bricks_openapi.Operations.Payloads.{typed}
use go_bricks_openapi.Schemas.Typing.{field_property}

-- The variable of a segment `{var}`; `none` for a literal segment, and for `{}` and `{`.
abbrev closed_var : List Char × Bool → Option String
closed_var ([], found) = none
closed_var (c ∷ cs, true) = some (text_of (c ∷ cs))
closed_var (c ∷ cs, false) = none

abbrev braced : List Char → Option String
braced [] = none
braced (c ∷ cs) = if eqb (code c) b'{' then closed_var (cut_suffix b'}' cs) else none

unfoldable pub template_var : String → Option String
template_var seg = braced (chars seg)

unfoldable pub vars_of : List String → List String
vars_of [] = []
vars_of (seg ∷ segs) = elim (template_var seg) [ none ↦ vars_of segs | some v ↦ v ∷ vars_of segs ]

unfoldable pub path_template_vars : String → List String
path_template_vars path = vars_of (split b'/' path)

module _ {F : Type 0} where
  -- The names of the declared path parameters.
  unfoldable pub declared_path_params : List (Parameter F) → List String
  declared_path_params [] = []
  declared_path_params (p ∷ ps) =
      if p.location == "path" then p.name ∷ declared_path_params ps else declared_path_params ps

  abbrev pub path_param : String → Parameter F
  path_param v = record {
    name = v;
    location = "path";
    required = true;
    description = "";
    schema = typed "string";
    example = none;
  }

  -- The loop over the template's variables, with the names declared so far.
  unfoldable pub missing_from : List String → List String → List (Parameter F)
  missing_from declared [] = []
  missing_from declared (v ∷ vs) =
      let skip = missing_from declared vs in
      let add = path_param v ∷ missing_from (v ∷ declared) vs in
      if one_of v declared then skip else add

  unfoldable pub append_missing_path_params : List (Parameter F) → String → List (Parameter F)
  append_missing_path_params ps path =
      ps ++ missing_from (declared_path_params ps) (path_template_vars path)

module _ (go : Go) where
  open go use {Float}

  unfoldable pub parameter_of : FieldInfo → Parameter Float
  parameter_of f = record {
    name = (tags f).param_name;
    location = (tags f).param_type;
    required = (tags f).required || (tags f).param_type == "path";
    description = (tags f).description;
    schema = field_property go f;
    example = (keywords (field_property go f)).example;
  }

  -- The parameters and the body fields.
  unfoldable pub split_fields : Fields → List (Parameter Float) × List FieldInfo
  split_fields end = ([], [])
  split_fields (and_field f fs) =
      let (ps, body) = split_fields fs in
      if (tags f).param_type == "" then (ps, f ∷ body) else (parameter_of f ∷ ps, body)

  unfoldable pub extract_parameters : Route → List (Parameter Float) × List FieldInfo
  extract_parameters r = elim r.request [ none ↦ ([], []) | some ti ↦ split_fields ti.fields ]
