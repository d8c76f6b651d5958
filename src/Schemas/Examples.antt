-- ===== src/Schemas/Examples.antt =====
-- The example of a property: applyExample, coerceExample and the checks that they call.
use go_bricks_openapi.Prelude.{
  ◌^◌, ◌-◌, String, Bool, true, false, not, ◌&&◌, ◌||◌, Option, none, some, ◌==◌, eqb,
  if◌then◌else◌,
}
use mathlib.Core.Option
use go_bricks_openapi.Prelude.Int.{ℤ, pos, negsuc, leb_ℤ}
use go_bricks_openapi.Go.{Go}
use go_bricks_openapi.Go.Strconv.{parse_int, parse_bool, itoa}
use go_bricks_openapi.Go.Strings.{contains_any}
use go_bricks_openapi.Document.{Value, Keywords, Property, keywords, set_keywords}

abbrev pub date_pattern : String
date_pattern = "^[0-9]{4}-(0[1-9]|10|11|12)-(0[1-9]|[12][0-9]|3[01])$"

abbrev pub date_time_pattern : String
date_time_pattern =
    "^[0-9]{4}-(0[1-9]|10|11|12)-(0[1-9]|[12][0-9]|3[01])T([0-1][0-9]|2[0-3]):[0-5][0-9]:([0-5][0-9]|60)(\\.[0-9]+)?(Z|(\\+|-)[0-9]{2}:[0-9]{2})$"

abbrev pub max_int32 : ℤ
max_int32 = pos (2 ^ 31 - 1)

abbrev pub min_int32 : ℤ
min_int32 = negsuc (2 ^ 31 - 1)

unfoldable pub int_fits_format : ℤ → String → Bool
int_fits_format i format =
    if format == "int32" then leb_ℤ min_int32 i && leb_ℤ i max_int32 else true

module _ (go : Go) where
  open go use {
    Float, float_of, less, equal, not_finite, parse_float, print_float, match_string, parses_time,
    decodes_base64,
  }

  unfoldable pub is_date_text : String → Bool
  is_date_text raw = match_string date_pattern raw && parses_time "2006-01-02" raw

  unfoldable pub is_date_time_text : String → Bool
  is_date_time_text raw =
      match_string date_time_pattern raw && parses_time "2006-01-02T15:04:05Z07:00" raw

  unfoldable pub is_base64_text : String → Bool
  is_base64_text raw =
      not (contains_any (λ c. eqb c b'\r' || eqb c b'\n') raw) && decodes_base64 raw

  unfoldable pub string_fits_format : String → String → Bool
  string_fits_format raw format =
      if format == "byte"
      then is_base64_text raw
      else if format == "date"
      then is_date_text raw
      else if format == "date-time"
      then is_date_time_text raw
      else true

  abbrev pub is_true : Option Bool → Bool
  is_true none = false
  is_true (some b) = b

  abbrev pub keeps_minimum : Float → Option Float → Option Bool → Bool
  keeps_minimum n none exclusive = true
  keeps_minimum n (some lo) exclusive = not (less n lo || is_true exclusive && equal n lo)

  abbrev pub keeps_maximum : Float → Option Float → Option Bool → Bool
  keeps_maximum n none exclusive = true
  keeps_maximum n (some hi) exclusive = not (less hi n || is_true exclusive && equal n hi)

  unfoldable pub example_in_bounds : Float → Keywords Float → Bool
  example_in_bounds n k =
      keeps_minimum n k.minimum k.exclusive_minimum && keeps_maximum n k.maximum k.exclusive_maximum

  unfoldable pub coerce_string_example : String → Keywords Float → Option (Value Float)
  coerce_string_example raw k =
      if string_fits_format raw k.format then some (Value.text raw) else none

  unfoldable pub coerce_integer_example : String → Keywords Float → Option (Value Float)
  coerce_integer_example raw k = elim (parse_int raw) [
    | none ↦ none
    | some i ↦
        if not (int_fits_format i k.format)
        then none
        else if not (example_in_bounds (float_of i) k)
        then none
        else some (Value.int i)
  ]

  unfoldable pub coerce_number_example : String → Keywords Float → Option (Value Float)
  coerce_number_example raw k = elim (parse_float raw) [
    | none ↦ none
    | some f ↦
        if not_finite f
        then none
        else if not (example_in_bounds f k)
        then none
        else some (Value.float f)
  ]

  unfoldable pub coerce_example : String → Keywords Float → Option (Value Float)
  coerce_example raw k =
      if k.typ == "string" || k.typ == ""
      then coerce_string_example raw k
      else if k.typ == "integer"
      then coerce_integer_example raw k
      else if k.typ == "number"
      then coerce_number_example raw k
      else if k.typ == "boolean"
      then Option.map Value.bool (parse_bool raw)
      else none

  abbrev pub stamp : Option (Value Float) → Keywords Float → Keywords Float
  stamp none k = k
  stamp (some v) k = record k { example = some v }

  unfoldable pub apply_example : Property Float → String → Property Float
  apply_example p raw =
      if raw == "" || not ((keywords p).ref == "")
      then p
      else set_keywords (stamp (coerce_example raw (keywords p)) (keywords p)) p

  -- fmt.Sprint of an example value.
  unfoldable pub sprint : Value Float → String
  sprint (Value.text s) = s
  sprint (Value.int n) = itoa n
  sprint (Value.float f) = print_float f
  sprint (Value.bool true) = "true"
  sprint (Value.bool false) = "false"
