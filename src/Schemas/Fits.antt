-- ===== src/Schemas/Fits.antt =====
-- The example that applyExample writes fits the schema it is written into, and every example that fits
-- is written.
pub mod Bounds
use mathlib.Core.Option
use go_bricks_openapi.Prelude.{
  ◌-◌, String, Bool, ◌≡◌, ◌≢◌, ◌↔◌, ◌==◌, eq_iff, true, false, not, ◌||◌, Option, none, some, arith,
  inl, inr, refl, Bool-cases,
}
use go_bricks_openapi.Prelude.Int.{ℤ}
use go_bricks_openapi.Go.{Go}
use go_bricks_openapi.Go.Strconv.{parse_int, parse_bool}
use go_bricks_openapi.Document.{Value, Keywords, Property, property, keywords}
use go_bricks_openapi.Schemas.Examples.{
  coerce_string_example, coerce_integer_example, coerce_number_example, coerce_example, stamp,
  apply_example,
}
use go_bricks_openapi.Schemas.Fits.Bounds.{
  apart, IntFits, WithinBounds, TextFits, Fits, Reads, int_fits_format-IntFits,
  string_fits_format-TextFits, example_in_bounds-WithinBounds,
}

-- The tests of coerceExample on the type, of which one holds at most.
abbrev TypeTests : String → Type 0
TypeTests t =
    (((t == "string") ≡ true) ↔ (t ≡ "string"))
    × (((t == "") ≡ true) ↔ (t ≡ ""))
    × (((t == "integer") ≡ true) ↔ (t ≡ "integer"))
    × (((t == "number") ≡ true) ↔ (t ≡ "number"))
    × (((t == "boolean") ≡ true) ↔ (t ≡ "boolean"))

typ_tests : (t : String) → TypeTests t
typ_tests t =
    (eq_iff t "string", eq_iff t "", eq_iff t "integer", eq_iff t "number", eq_iff t "boolean")

abbrev OneType : String → Type 0
OneType t =
    (t ≡ "string" → t ≡ "" → ⊥)
    × (t ≡ "string" → t ≡ "integer" → ⊥)
    × (t ≡ "string" → t ≡ "number" → ⊥)
    × (t ≡ "string" → t ≡ "boolean" → ⊥)
    × (t ≡ "" → t ≡ "integer" → ⊥)
    × (t ≡ "" → t ≡ "number" → ⊥)
    × (t ≡ "" → t ≡ "boolean" → ⊥)
    × (t ≡ "integer" → t ≡ "number" → ⊥)
    × (t ≡ "integer" → t ≡ "boolean" → ⊥)
    × (t ≡ "number" → t ≡ "boolean" → ⊥)

one_type : (t : String) → OneType t
one_type t = (
  apart t "string" "" refl,
  apart t "string" "integer" refl,
  apart t "string" "number" refl,
  apart t "string" "boolean" refl,
  apart t "" "integer" refl,
  apart t "" "number" refl,
  apart t "" "boolean" refl,
  apart t "integer" "number" refl,
  apart t "integer" "boolean" refl,
  apart t "number" "boolean" refl,
)

module _ (go : Go) where
  open go use {Float, float_of, not_finite, parse_float}

  abbrev is_int : Value Float → Bool
  is_int (Value.int i) = true
  is_int _ = false

  abbrev is_float : Value Float → Bool
  is_float (Value.float f) = true
  is_float _ = false

  abbrev is_bool : Value Float → Bool
  is_bool (Value.bool b) = true
  is_bool _ = false

  coerce_string_example-some :
      (raw : String) (k : Keywords Float) (v : Value Float)
      → (coerce_string_example go raw k ≡ some v)
        ↔ ((Value.text raw ≡ v) × TextFits go raw k.format)
  unfolding coerce_string_example
  coerce_string_example-some raw k v = ground (arith, string_fits_format-TextFits go raw k.format)

  coerce_integer_example-int :
      (raw : String) (k : Keywords Float) (i : ℤ)
      → (coerce_integer_example go raw k ≡ some (Value.int i))
        ↔ ((parse_int raw ≡ some i) × IntFits i k.format × WithinBounds go (float_of i) k)
  unfolding coerce_integer_example
  coerce_integer_example-int raw k i =
      ground (
        arith,
        int_fits_format-IntFits i k.format,
        example_in_bounds-WithinBounds go (float_of i) k,
      )

  coerce_integer_example-is_int :
      (raw : String) (k : Keywords Float) (v : Value Float)
      → coerce_integer_example go raw k ≡ some v
      → is_int v ≡ true
  unfolding coerce_integer_example
  coerce_integer_example-is_int raw k v h = ground arith

  coerce_number_example-float :
      (raw : String) (k : Keywords Float) (f : Float)
      → (coerce_number_example go raw k ≡ some (Value.float f))
        ↔ ((parse_float raw ≡ some f) × (not_finite f ≡ false) × WithinBounds go f k)
  unfolding coerce_number_example
  coerce_number_example-float raw k f = ground (arith, example_in_bounds-WithinBounds go f k)

  coerce_number_example-is_float :
      (raw : String) (k : Keywords Float) (v : Value Float)
      → coerce_number_example go raw k ≡ some v
      → is_float v ≡ true
  unfolding coerce_number_example
  coerce_number_example-is_float raw k v h = ground arith

  abbrev coerced_bool : Option Bool → Option (Value Float)
  coerced_bool o = Option.map Value.bool o

  boolean-bool :
      (o : Option Bool) (b : Bool) → (coerced_bool o ≡ some (Value.bool b)) ↔ (o ≡ some b)
  boolean-bool none b = ground arith
  boolean-bool (some c) b = ground arith

  boolean-is_bool : (o : Option Bool) (v : Value Float) → coerced_bool o ≡ some v → is_bool v ≡ true
  boolean-is_bool none v h = ground arith
  boolean-is_bool (some c) v h = ground arith

  -- What coerceExample gives is what the text reads as, if that fits.
  coerce_example-Fits :
      (raw : String) (k : Keywords Float) (v : Value Float)
      → (coerce_example go raw k ≡ some v) ↔ (Reads go raw v × Fits go k v)
  unfolding coerce_example
  coerce_example-Fits raw k (Value.text s) = ground (
    arith,
    typ_tests k.typ,
    one_type k.typ,
    coerce_string_example-some raw k (Value.text s),
    coerce_integer_example-is_int raw k (Value.text s),
    coerce_number_example-is_float raw k (Value.text s),
    boolean-is_bool (parse_bool raw) (Value.text s),
  )
  coerce_example-Fits raw k (Value.int i) = ground (
    arith,
    typ_tests k.typ,
    one_type k.typ,
    coerce_string_example-some raw k (Value.int i),
    coerce_integer_example-int raw k i,
    coerce_number_example-is_float raw k (Value.int i),
    boolean-is_bool (parse_bool raw) (Value.int i),
  )
  coerce_example-Fits raw k (Value.float f) = ground (
    arith,
    typ_tests k.typ,
    one_type k.typ,
    coerce_string_example-some raw k (Value.float f),
    coerce_integer_example-is_int raw k (Value.float f),
    coerce_number_example-float raw k f,
    boolean-is_bool (parse_bool raw) (Value.float f),
  )
  coerce_example-Fits raw k (Value.bool b) = ground (
    arith,
    typ_tests k.typ,
    one_type k.typ,
    coerce_string_example-some raw k (Value.bool b),
    coerce_integer_example-is_int raw k (Value.bool b),
    coerce_number_example-is_float raw k (Value.bool b),
    boolean-bool (parse_bool raw) b,
  )

  stamp-example :
      (c : Option (Value Float)) (k : Keywords Float) (v : Value Float)
      → k.example ≡ none
      → ((stamp go c k).example ≡ some v) ↔ (c ≡ some v)
  stamp-example none k v unset = ground arith
  stamp-example (some w) k v unset = ((λ e. e), (λ e. e))

  -- The example that applyExample writes into a property without one is exactly what the text of the
  -- tag reads as, if there is a text, the property is no $ref, and that value is of its type, of its
  -- format, and within its bounds.
  pub apply_example-Fits :
      (p : Property Float) (raw : String) (v : Value Float)
      → (keywords p).example ≡ none
      → ((keywords (apply_example go p raw)).example ≡ some v)
        ↔ ((raw ≢ "") × ((keywords p).ref ≡ "") × Reads go raw v × Fits go (keywords p) v)
  unfolding apply_example
  apply_example-Fits (property k al ps ad it) raw v unset =
      elim (Bool-cases (raw == "" || not (k.ref == ""))) [
        | inl skip ↦ rw skip (ground (arith, eq_iff raw "", eq_iff k.ref "", unset))
        | inr write ↦
            let written = stamp-example (coerce_example go raw k) k v unset in
            rw write
              (ground (arith, eq_iff raw "", eq_iff k.ref "", written, coerce_example-Fits raw k v))
      ]
