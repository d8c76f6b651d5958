-- ===== src/Analyzer/Tags.antt =====
-- The struct tags of a field in internal/analyzer/analyzer.go: parseStructTags, parseValidationTag
-- and the part of parseFieldTags that fills a FieldInfo. reflect.StructTag.Lookup is a parameter.
pub mod Dive
use Prim.Native.Char.{code}
use go_bricks_openapi.Prelude.{
  String, Bool, true, false, not, ◌&&◌, ◌||◌, Option, none, some, List, [], ◌∷◌, ◌==◌, eqb, one_of,
  if◌then◌else◌,
}
use go_bricks_openapi.Prelude.Dict.{Dict, lookup, insert}
use go_bricks_openapi.Go.{Go}
use go_bricks_openapi.Go.Strings.{str_cons, split}
use go_bricks_openapi.Models.{FieldTags}

pub record ParsedTags : Type 0 where
  pub json_name : String
  pub json_string : Bool
  pub param_type : String
  pub param_name : String
  pub description : String
  pub example : String
  pub raw_validation : String

abbrev first_of : List String → String
first_of [] = ""
first_of (p ∷ ps) = p

abbrev rest_of : List String → List String
rest_of [] = []
rest_of (p ∷ ps) = ps

-- The sentinel "-" is the first part as it stands.
unfoldable pub parse_json_tag_name : String → String
parse_json_tag_name json_tag = if json_tag == "" then "" else first_of (split b',' json_tag)

-- The parts after the first comma, which strings.Cut and strings.Split leave.
unfoldable pub json_tag_has_string_option : String → Bool
json_tag_has_string_option json_tag = one_of "string" (rest_of (split b',' json_tag))

-- The texts before and after the first '=', if there is one.
unfoldable pub cut_equals : String → Option (String × String)
cut_equals String.[] = none
cut_equals (String.◌∷◌ c s) =
    let rest = cut_equals s in
    if eqb (code c) b'='
    then some ("", s)
    else elim rest [ none ↦ none | some (key, value) ↦ some (str_cons c key, value) ]

-- The key and the value of a rule.
unfoldable pub key_value : String → String × String
key_value rule = elim (cut_equals rule) [ none ↦ (rule, "true") | some kv ↦ kv ]

-- The two maps of a validate tag; the second is nil until a `dive` was met.
pub record Scopes : Type 0 where
  pub constraints : Dict String
  pub element_constraints : Option (Dict String)

unfoldable pub store_rule : Scopes → String → String → Scopes
store_rule s key value = elim s.element_constraints [
  | none ↦ record s { constraints = insert key value s.constraints }
  | some els ↦
      if key == "required"
      then record s { constraints = insert key value s.constraints }
      else record s { element_constraints = some (insert key value els) }
]

unfoldable pub enter_elements : Scopes → Scopes
enter_elements s = elim s.element_constraints [
  | none ↦ record s { element_constraints = some [] }
  | some els ↦ s
]

module _ (go : Go) where
  open go use {trim_space}

  -- One round of the loop over the rules.
  unfoldable pub apply_tag_rule : Scopes → String → Scopes
  apply_tag_rule s raw =
      let rule = trim_space raw in
      if rule == ""
      then s
      else if rule == "dive"
      then enter_elements s
      else store_rule s (key_value rule).0 (key_value rule).1

  unfoldable pub apply_tag_rules : Scopes → List String → Scopes
  apply_tag_rules s [] = s
  apply_tag_rules s (raw ∷ raws) = apply_tag_rules (apply_tag_rule s raw) raws

  unfoldable pub parse_validation_tag : String → Scopes
  parse_validation_tag tag =
      let none_yet : Scopes = record { constraints = []; element_constraints = none } in
      if tag == "" then none_yet else apply_tag_rules none_yet (split b',' tag)

-- The value of a key, "" where the key is missing.
abbrev or_blank : Option String → String
or_blank none = ""
or_blank (some s) = s

module _ (tag_lookup : String → String → Option String) where
  unfoldable pub lookup_struct_tag : String → String → String
  lookup_struct_tag tag key = or_blank (tag_lookup tag key)

  abbrev or_param : String → String → String × String → String × String
  or_param typ value before = if value == "" then before else (typ, value)

  -- The type and the name; the last of the three tags that is there wins.
  unfoldable pub parse_parameter_tags : String → String × String
  parse_parameter_tags tag = or_param "header" (lookup_struct_tag tag "header") (
      or_param "query" (lookup_struct_tag tag "query")
        (or_param "path" (lookup_struct_tag tag "param") ("", "")))

  unfoldable pub parse_struct_tags : String → ParsedTags
  parse_struct_tags tag =
      if tag == ""
      then record {
        json_name = "";
        json_string = false;
        param_type = "";
        param_name = "";
        description = "";
        example = "";
        raw_validation = "";
      }
      else let json_tag = lookup_struct_tag tag "json" in
        let param = parse_parameter_tags tag in
        record {
          json_name = parse_json_tag_name json_tag;
          json_string = if json_tag == "" then false else json_tag_has_string_option json_tag;
          param_type = param.0;
          param_name = param.1;
          description = lookup_struct_tag tag "doc";
          example = lookup_struct_tag tag "example";
          raw_validation = lookup_struct_tag tag "validate";
        }

  abbrev or_nil : Option (Dict String) → Dict String
  or_nil none = []
  or_nil (some els) = els

  abbrev reads_true : Option String → Bool
  reads_true none = false
  reads_true (some s) = s == "true"

  -- A nil map of a FieldInfo is an empty one.
  unfoldable pub with_rules : FieldTags → Scopes → FieldTags
  with_rules f s = record f {
    constraints = s.constraints;
    element_constraints = or_nil s.element_constraints;
    required = reads_true (lookup "required" s.constraints) || f.required;
  }

  unfoldable pub parse_field_tags : Go → FieldTags → String → FieldTags
  parse_field_tags go f tag =
      let t = parse_struct_tags tag in
      let filled = record f {
        json_name = t.json_name;
        json_string = t.json_string;
        param_type = t.param_type;
        param_name = t.param_name;
        description = t.description;
        example = t.example;
        raw_validation = t.raw_validation;
      } in
      if t.raw_validation == ""
      then filled
      else with_rules filled (parse_validation_tag go t.raw_validation)
