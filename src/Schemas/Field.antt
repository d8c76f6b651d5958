-- ===== src/Schemas/Field.antt =====
-- The property of one field (bareFieldProperty, quotedScalarExample, fieldProperty). `typer` is
-- setTypeAndFormat at the field's resolved shape, which calls back into these for the fields of an
-- anonymous struct: Schemas/Typing ties the knot.
use go_bricks_openapi.Prelude.{
  String, Bool, true, false, not, ◌&&◌, ◌||◌, Option, none, some, ◌==◌, if◌then◌else◌,
}
use go_bricks_openapi.Go.{Go}
use go_bricks_openapi.Models.{ShapeKind, ref, FieldInfo, kind, type_name, tags, resolved_shape}
use go_bricks_openapi.Document.{Value, no_keywords, Property, keywords, set_keywords, plain}
use go_bricks_openapi.Shapes.{strip_pointers, is_sequence, is_map}
use go_bricks_openapi.Schemas.Examples.{coerce_example, apply_example, sprint}
use go_bricks_openapi.Schemas.Validation.{is_quoted_scalar, apply_validation_constraints}
use go_bricks_openapi.Schemas.Leaves.{is_pointer_field, empty_property, described, ref_property}

abbrev pub is_ref : ShapeKind → Bool
is_ref ref = true
is_ref _ = false

module _ (go : Go) where
  open go use {Float}

  abbrev as_text : Option (Value Float) → String
  as_text none = ""
  as_text (some v) = sprint go v

  unfoldable pub quoted_scalar_example : (Property Float → Property Float) → FieldInfo → String
  quoted_scalar_example typer f =
      let scalar = typer empty_property in
      let kept =
        coerce_example go (tags f).example (keywords (apply_validation_constraints go scalar f)) in
      if not (tags f).json_string || (tags f).example == ""
      then (tags f).example
      else if not (is_quoted_scalar f scalar)
      then (tags f).example
      else as_text kept

  -- Typed, and then quoted or constrained.
  unfoldable pub constrained_property : FieldInfo → Property Float → Property Float
  constrained_property f p =
      if is_quoted_scalar f p
      then plain (record no_keywords { typ = "string"; description = (tags f).description })
      else apply_validation_constraints go p f

  -- JSON null only for a pointer to a scalar.
  unfoldable pub mark_nullable : FieldInfo → Property Float → Property Float
  mark_nullable f p =
      let target = strip_pointers (resolved_shape f) in
      if is_pointer_field f
        && not (is_sequence target)
        && not (is_map (kind target))
        && not ((keywords p).typ == "")
      then set_keywords (record (keywords p) { nullable = true }) p
      else p

  unfoldable pub bare_field_property :
      (Property Float → Property Float) → FieldInfo → Property Float
  bare_field_property typer f =
      let target = strip_pointers (resolved_shape f) in
      if is_ref (kind target)
      then ref_property f (type_name target)
      else mark_nullable f (constrained_property f (typer (described (tags f).description)))

  unfoldable pub field_property_by : (Property Float → Property Float) → FieldInfo → Property Float
  field_property_by typer f =
      apply_example go (bare_field_property typer f) (quoted_scalar_example typer f)
