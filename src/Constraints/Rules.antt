-- ===== src/Constraints/Rules.antt =====
-- internal/generator/constraints.go: the handlers of formats, patterns, lengths and cardinalities. A
-- handler that returns false writes nothing: it is `none` here, and `some` the new set where it
-- returns true.
use mathlib.Core.Option
use go_bricks_openapi.Prelude.{
  String, ◌||◌, not, Option, none, some, [], ◌∷◌, ◌==◌, one_of, if◌then◌else◌,
}
use go_bricks_openapi.Prelude.Int.{ℤ, pos, negsuc, inc, dec}
use go_bricks_openapi.Prelude.Dict.{Dict, lookup}
use go_bricks_openapi.Go.Strconv.{atoi}
use go_bricks_openapi.Go.Strings.{str_append, quote_meta}
use go_bricks_openapi.Shapes.{is_effective_string}
use go_bricks_openapi.Constraints.Bounds.{
  ConstraintSet, set_format, set_pattern, set_min_length, set_max_length, set_min_items,
  set_max_items, set_min_properties, set_max_properties, or_else,
}

abbrev pub format_tag_map : Dict String
format_tag_map =
    ("email", "email")
    ∷ ("url", "uri")
    ∷ ("uri", "uri")
    ∷ ("uuid", "uuid")
    ∷ ("uuid4", "uuid")
    ∷ ("date", "date")
    ∷ ("ipv4", "ipv4")
    ∷ ("ipv6", "ipv6")
    ∷ ("hostname", "hostname")
    ∷ ("base64", "byte")
    ∷ []

abbrev pub string_content_patterns : Dict String
string_content_patterns =
    ("alpha", "^[a-zA-Z]+$")
    ∷ ("alphanum", "^[a-zA-Z0-9]+$")
    ∷ ("numeric", "^[-+]?[0-9]+(?:\\.[0-9]+)?$")
    ∷ ("hexcolor", "^#(?:[0-9a-fA-F]{3}|[0-9a-fA-F]{6})$")
    ∷ ("e164", "^\\+[1-9]\\d{1,14}$")
    ∷ []

-- time.DateOnly, time.RFC3339 and time.RFC3339Nano are the layouts with a format.
unfoldable pub datetime_format : String → String
datetime_format layout =
    if layout == "2006-01-02"
    then "date"
    else if one_of layout ("2006-01-02T15:04:05Z07:00" ∷ "2006-01-02T15:04:05.999999999Z07:00" ∷ [])
    then "date-time"
    else ""

unfoldable pub clamp_non_neg : ℤ → ℤ
clamp_non_neg (pos n) = pos n
clamp_non_neg (negsuc n) = pos 0

module _ {F : Type 0} where
  unfoldable pub apply_format_constraint :
      ConstraintSet F → String → String → Option (ConstraintSet F)
  apply_format_constraint s key value =
      if key == "datetime"
      then some (if datetime_format value == "" then s else set_format s (datetime_format value))
      else Option.map (set_format s) (lookup key format_tag_map)

  -- The rules that build a pattern from their value.
  abbrev literal_pattern : ConstraintSet F → String → String → Option (ConstraintSet F)
  literal_pattern s key value =
      if value == ""
      then none
      else if key == "contains"
      then some (set_pattern s (quote_meta value))
      else if key == "startswith"
      then some (set_pattern s (str_append "^" (quote_meta value)))
      else if key == "endswith"
      then some (set_pattern s (str_append (quote_meta value) "$"))
      else none

  unfoldable pub apply_pattern_format_constraint :
      ConstraintSet F → String → String → Option (ConstraintSet F)
  apply_pattern_format_constraint s key value =
      or_else (Option.map (set_pattern s) (lookup key string_content_patterns))
        (literal_pattern s key value)

  unfoldable pub apply_len_constraint :
      ConstraintSet F → String → String → String → Option (ConstraintSet F)
  apply_len_constraint s key value eff_kind =
      if not (key == "len") || not (is_effective_string eff_kind)
      then none
      else Option.map (λ n. set_max_length (set_min_length s n) n) (atoi value)

  abbrev pub compared_length : ConstraintSet F → String → ℤ → Option (ConstraintSet F)
  compared_length s key n =
      if key == "gt"
      then some (set_min_length s (clamp_non_neg (inc n)))
      else if key == "gte"
      then some (set_min_length s (clamp_non_neg n))
      else if key == "lt"
      then some (set_max_length s (clamp_non_neg (dec n)))
      else if key == "lte"
      then some (set_max_length s (clamp_non_neg n))
      else none

  unfoldable pub apply_string_length_comparison :
      ConstraintSet F → String → String → Option (ConstraintSet F)
  apply_string_length_comparison s key value = elim (atoi value) [
    | none ↦ none
    | some n ↦ compared_length s key n
  ]

  abbrev pub slice_bound : ConstraintSet F → String → ℤ → ConstraintSet F
  slice_bound s key n =
      if key == "min"
      then set_min_items s n
      else if key == "max"
      then set_max_items s n
      else if key == "len"
      then set_max_items (set_min_items s n) n
      else s

  unfoldable pub apply_slice_cardinality : ConstraintSet F → String → String → ConstraintSet F
  apply_slice_cardinality s key value = elim (atoi value) [
    | none ↦ s
    | some n ↦ slice_bound s key n
  ]

  abbrev pub map_bound : ConstraintSet F → String → ℤ → ConstraintSet F
  map_bound s key n =
      if key == "min"
      then set_min_properties s n
      else if key == "max"
      then set_max_properties s n
      else if key == "len"
      then set_max_properties (set_min_properties s n) n
      else s

  unfoldable pub apply_map_cardinality : ConstraintSet F → String → String → ConstraintSet F
  apply_map_cardinality s key value = elim (atoi value) [ none ↦ s | some n ↦ map_bound s key n ]

  unfoldable pub apply_pattern_constraint :
      ConstraintSet F → String → String → Option (ConstraintSet F)
  apply_pattern_constraint s key value =
      if key == "regexp" then some (set_pattern s value) else none
