-- ===== src/Schemas/Validation.antt =====
-- applyValidationConstraints and isQuotedScalar (internal/generator/constraints.go).
use go_bricks_openapi.Prelude.{Bool, true, false, not, ◌&&◌, ◌||◌, ◌==◌, is_empty, if◌then◌else◌}
use go_bricks_openapi.Go.{Go}
use go_bricks_openapi.Models.{
  TypeShape, ShapePtr, no_shape, ptr, FieldInfo, kind, elem_of, tags, shape_of, or_shape,
  resolved_shape,
}
use go_bricks_openapi.Document.{Property, no_property, just, property, keywords, set_keywords}
use go_bricks_openapi.Shapes.{
  strip_pointers, is_sequence, is_pointer, takes_no_keyword, is_effective_numeric,
}
use go_bricks_openapi.Constraints.Bounds.{apply_to}
use go_bricks_openapi.Constraints.Sets.{constraints_for}

-- The shape of an element: every pointer shed, then one slice or array layer.
unfoldable pub element_shape : TypeShape → TypeShape
element_shape s =
    if is_sequence (strip_pointers s)
    then or_shape (elem_of (strip_pointers s)) (strip_pointers s)
    else strip_pointers s

abbrev pub set_items : {F : Type 0} → (Property F → Property F) → Property F → Property F
set_items g (property k al ps ad no_property) = property k al ps ad no_property
set_items g (property k al ps ad (just it)) = property k al ps ad (just (g it))

abbrev pub kind_of_ptr : ShapePtr → Bool
kind_of_ptr no_shape = false
kind_of_ptr (ptr s) = not (is_pointer (kind s))

-- Reads the type of the property that the field's resolution got.
unfoldable pub is_quoted_scalar : {F : Type 0} → FieldInfo → Property F → Bool
is_quoted_scalar f p =
    if not (tags f).json_string || not ((tags f).param_type == "")
    then false
    else if not ((keywords p).typ == "boolean") && not (is_effective_numeric (keywords p).typ)
    then false
    else if not (is_pointer (kind (resolved_shape f)))
    then true
    else is_pointer (kind (shape_of f)) && kind_of_ptr (elem_of (resolved_shape f))

module _ (go : Go) where
  open go use {Float}

  -- The collection's own rules.
  unfoldable pub apply_field_rules : Property Float → FieldInfo → Property Float
  apply_field_rules p f =
      if not (is_empty (tags f).constraints) && not (takes_no_keyword (resolved_shape f))
      then set_keywords
          (apply_to go (constraints_for go (resolved_shape f) (tags f).constraints) (keywords p)) p
      else p

  -- The rules behind `dive`, on the items of an array unless they are a $ref.
  unfoldable pub apply_element_rules : Property Float → FieldInfo → Property Float
  apply_element_rules p f =
      let elem = element_shape (resolved_shape f) in
      let rules = λ (it : Property Float).
        if not ((keywords it).ref == "") || takes_no_keyword elem
        then it
        else set_keywords
            (apply_to go (constraints_for go elem (tags f).element_constraints) (keywords it)) it in
      if is_empty (tags f).element_constraints then p else set_items rules p

  unfoldable pub apply_validation_constraints : Property Float → FieldInfo → Property Float
  apply_validation_constraints p f = apply_element_rules (apply_field_rules p f) f
