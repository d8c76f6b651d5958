-- ===== src/Constraints/Scalars.antt =====
-- internal/generator/constraints.go: the handlers whose keyword depends on the kind of the field, and
-- applyScalarRule, which asks every handler in turn.
use mathlib.Core.Option
use go_bricks_openapi.Prelude.{
  String, Bool, true, false, ◌||◌, not, Option, none, some, List, [], ◌∷◌, map, ◌==◌, is_empty,
  if◌then◌else◌,
}
use go_bricks_openapi.Go.{Go}
use go_bricks_openapi.Go.Strconv.{parse_int, atoi}
use go_bricks_openapi.Document.{Value}
use go_bricks_openapi.Shapes.{is_effective_string, is_effective_numeric}
use go_bricks_openapi.Constraints.Tokens.{tokenize_one_of}
use go_bricks_openapi.Constraints.Bounds.{
  Number, exact, fractional, NumericBound, ConstraintSet, set_minimum, set_maximum, set_enum,
  set_min_length, set_max_length,
}
use go_bricks_openapi.Constraints.Rules.{
  apply_format_constraint, apply_pattern_format_constraint, apply_len_constraint,
  apply_string_length_comparison, apply_pattern_constraint,
}

-- The first handler that claims the rule wins.
abbrev pub claim : {S : Type 0} → List (Option S) → S → S
claim [] s = s
claim (none ∷ hs) s = claim hs s
claim (some t ∷ hs) s = t

module _ (go : Go) where
  open go use {Float, parse_float}

  abbrev pub Set : Type 0
  Set = ConstraintSet Float

  unfoldable pub parse_numeric : String → Option (Number Float)
  parse_numeric value = elim (parse_int value) [
    | some n ↦ some (exact n)
    | none ↦ Option.map fractional (parse_float value)
  ]

  abbrev pub bound_from_parsed : Number Float → Bool → NumericBound Float
  bound_from_parsed v exclusive = record { value = v; exclusive = exclusive }

  unfoldable pub apply_min_constraint : Set → String → String → String → Option Set
  apply_min_constraint s key value eff_kind =
      if not (key == "min")
      then none
      else if is_effective_string eff_kind
      then Option.map (set_min_length s) (atoi value)
      else if is_effective_numeric eff_kind
      then Option.map (λ v. set_minimum go s (bound_from_parsed v false)) (parse_numeric value)
      else none

  unfoldable pub apply_max_constraint : Set → String → String → String → Option Set
  apply_max_constraint s key value eff_kind =
      if not (key == "max")
      then none
      else if is_effective_string eff_kind
      then Option.map (set_max_length s) (atoi value)
      else if is_effective_numeric eff_kind
      then Option.map (λ v. set_maximum go s (bound_from_parsed v false)) (parse_numeric value)
      else none

  abbrev compared_value : Set → String → Number Float → Option Set
  compared_value s key v =
      if key == "gt"
      then some (set_minimum go s (bound_from_parsed v true))
      else if key == "gte"
      then some (set_minimum go s (bound_from_parsed v false))
      else if key == "lt"
      then some (set_maximum go s (bound_from_parsed v true))
      else if key == "lte"
      then some (set_maximum go s (bound_from_parsed v false))
      else none

  unfoldable pub apply_numeric_comparison : Set → String → String → String → Option Set
  apply_numeric_comparison s key value eff_kind =
      if is_effective_string eff_kind
      then apply_string_length_comparison s key value
      else if not (is_effective_numeric eff_kind)
      then none
      else elim (parse_numeric value) [ none ↦ none | some v ↦ compared_value s key v ]

  abbrev enum_number : Number Float → Value Float
  enum_number (exact n) = Value.int n
  enum_number (fractional f) = Value.float f

  -- One token: a number in a numeric field if it parses, else the text.
  unfoldable pub coerce_token : String → String → Value Float
  coerce_token eff_kind v =
      if is_effective_numeric eff_kind
      then elim (parse_numeric v) [ none ↦ Value.text v | some n ↦ enum_number n ]
      else Value.text v

  unfoldable pub coerce_enum : List String → String → List (Value Float)
  coerce_enum tokens eff_kind = map (coerce_token eff_kind) tokens

  unfoldable pub apply_enum_constraint : Set → String → String → String → Option Set
  apply_enum_constraint s key value eff_kind =
      if not (key == "oneof") || is_empty (tokenize_one_of value)
      then none
      else some (set_enum s (coerce_enum (tokenize_one_of value) eff_kind))

  unfoldable pub apply_eq_constraint : Set → String → String → String → Option Set
  apply_eq_constraint s key value eff_kind =
      if key == "eq" then some (set_enum s (coerce_enum (value ∷ []) eff_kind)) else none

  -- The list of handlers, in their order.
  abbrev pub handlers : Set → String → String → String → List (Option Set)
  handlers s key value eff_kind =
      apply_format_constraint s key value
      ∷ apply_pattern_format_constraint s key value
      ∷ apply_min_constraint s key value eff_kind
      ∷ apply_max_constraint s key value eff_kind
      ∷ apply_len_constraint s key value eff_kind
      ∷ apply_numeric_comparison s key value eff_kind
      ∷ apply_enum_constraint s key value eff_kind
      ∷ apply_eq_constraint s key value eff_kind
      ∷ apply_pattern_constraint s key value
      ∷ []

  unfoldable pub apply_scalar_rule : Set → String → String → String → Set
  apply_scalar_rule s key value eff_kind = claim (handlers s key value eff_kind) s
