-- ===== src/Schemas/Fits/Bounds.antt =====
-- Which values the keywords of a schema admit: the checks of applyExample on format and bounds, in
-- internal/generator/openapi.go.
use go_bricks_openapi.Prelude.{
  ◌^◌, ◌-◌, String, Bool, ◌≡◌, ◌≢◌, ◌↔◌, ◌==◌, eqb, eq_iff, true, false, ◌||◌, Option, none, some,
  arith, ◌⊎◌, refl,
}
use go_bricks_openapi.Prelude.Int.{ℤ, pos, negsuc, ◌≤ℤ◌}
use go_bricks_openapi.Go.{Go}
use go_bricks_openapi.Go.Strconv.{parse_int, parse_bool}
use go_bricks_openapi.Go.Strings.{contains_any}
use go_bricks_openapi.Document.{Value, Keywords}
use go_bricks_openapi.Schemas.Examples.{
  date_pattern, date_time_pattern, int_fits_format, is_date_text, is_date_time_text, is_base64_text,
  string_fits_format, keeps_minimum, keeps_maximum, example_in_bounds,
}

pub apart : (s t u : String) → (t == u) ≡ false → s ≡ t → s ≡ u → ⊥
apart s t u differ e f = ground (arith, eq_iff t u)

-- An integer of 32 bits, where the format is that.
pub IntFits : ℤ → String → Type 0
IntFits i format = (format ≢ "int32") ⊎ ((negsuc (2 ^ 31 - 1) ≤ℤ i) × (i ≤ℤ pos (2 ^ 31 - 1)))

pub int_fits_format-IntFits :
    (i : ℤ) (format : String) → (int_fits_format i format ≡ true) ↔ IntFits i format
unfolding int_fits_format IntFits
int_fits_format-IntFits i format = ground (arith, eq_iff format "int32")

module _ (go : Go) where
  open go use {
    Float, float_of, less, equal, not_finite, parse_float, match_string, parses_time,
    decodes_base64,
  }

  -- Not below the minimum, and not the minimum itself where that is excluded.
  pub AboveMinimum : Float → Option Float → Option Bool → Type 0
  AboveMinimum n none exclusive = Unit
  AboveMinimum n (some lo) (some true) = (less n lo ≡ false) × (equal n lo ≡ false)
  AboveMinimum n (some lo) _ = less n lo ≡ false

  -- Not above the maximum, and not the maximum itself where that is excluded.
  pub BelowMaximum : Float → Option Float → Option Bool → Type 0
  BelowMaximum n none exclusive = Unit
  BelowMaximum n (some hi) (some true) = (less hi n ≡ false) × (equal n hi ≡ false)
  BelowMaximum n (some hi) _ = less hi n ≡ false

  abbrev pub WithinBounds : Float → Keywords Float → Type 0
  WithinBounds n k =
      AboveMinimum n k.minimum k.exclusive_minimum × BelowMaximum n k.maximum k.exclusive_maximum

  -- Base64 on one line, a date or a time, where the format is that.
  pub TextFits : String → String → Type 0
  TextFits s format =
      ((format ≢ "byte")
        ⊎ ((contains_any (λ c. eqb c b'\r' || eqb c b'\n') s ≡ false) × (decodes_base64 s ≡ true)))
      × ((format ≢ "date")
          ⊎ ((match_string date_pattern s ≡ true) × (parses_time "2006-01-02" s ≡ true)))
      × ((format ≢ "date-time")
          ⊎ ((match_string date_time_pattern s ≡ true)
              × (parses_time "2006-01-02T15:04:05Z07:00" s ≡ true)))

  -- A value of the type that the keywords state, of their format, and within their bounds.
  abbrev pub Fits : Keywords Float → Value Float → Type 0
  Fits k (Value.text s) = ((k.typ ≡ "string") ⊎ (k.typ ≡ "")) × TextFits s k.format
  Fits k (Value.int i) = (k.typ ≡ "integer") × IntFits i k.format × WithinBounds (float_of i) k
  Fits k (Value.float f) = (k.typ ≡ "number") × (not_finite f ≡ false) × WithinBounds f k
  Fits k (Value.bool b) = k.typ ≡ "boolean"

  -- The value that the text of the tag stands for.
  abbrev pub Reads : String → Value Float → Type 0
  Reads raw (Value.text s) = raw ≡ s
  Reads raw (Value.int i) = parse_int raw ≡ some i
  Reads raw (Value.float f) = parse_float raw ≡ some f
  Reads raw (Value.bool b) = parse_bool raw ≡ some b

  pub string_fits_format-TextFits :
      (s format : String) → (string_fits_format go s format ≡ true) ↔ TextFits s format
  unfolding string_fits_format is_date_text is_date_time_text is_base64_text TextFits
  string_fits_format-TextFits s format = ground (
    arith,
    eq_iff format "byte",
    eq_iff format "date",
    eq_iff format "date-time",
    apart format "byte" "date" refl,
    apart format "byte" "date-time" refl,
    apart format "date" "date-time" refl,
  )

  keeps_minimum-AboveMinimum :
      (n : Float) (lo : Option Float) (exclusive : Option Bool)
      → (keeps_minimum go n lo exclusive ≡ true) ↔ AboveMinimum n lo exclusive
  unfolding AboveMinimum
  keeps_minimum-AboveMinimum n none exclusive = ground arith
  keeps_minimum-AboveMinimum n (some lo) (some true) = ground arith
  keeps_minimum-AboveMinimum n (some lo) (some false) = ground arith
  keeps_minimum-AboveMinimum n (some lo) none = ground arith

  keeps_maximum-BelowMaximum :
      (n : Float) (hi : Option Float) (exclusive : Option Bool)
      → (keeps_maximum go n hi exclusive ≡ true) ↔ BelowMaximum n hi exclusive
  unfolding BelowMaximum
  keeps_maximum-BelowMaximum n none exclusive = ground arith
  keeps_maximum-BelowMaximum n (some hi) (some true) = ground arith
  keeps_maximum-BelowMaximum n (some hi) (some false) = ground arith
  keeps_maximum-BelowMaximum n (some hi) none = ground arith

  pub example_in_bounds-WithinBounds :
      (n : Float) (k : Keywords Float) → (example_in_bounds go n k ≡ true) ↔ WithinBounds n k
  unfolding example_in_bounds
  example_in_bounds-WithinBounds n k = ground (
    arith,
    keeps_minimum-AboveMinimum n k.minimum k.exclusive_minimum,
    keeps_maximum-BelowMaximum n k.maximum k.exclusive_maximum,
  )
