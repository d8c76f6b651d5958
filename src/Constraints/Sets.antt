-- ===== src/Constraints/Sets.antt =====
-- constraintsFor: the constraint set of one validate tag, its rules taken in the order of their
-- sorted keys.
use go_bricks_openapi.Prelude.{String, ◌&&◌, not, none, some, List, [], ◌∷◌, ◌==◌, if◌then◌else◌}
use go_bricks_openapi.Prelude.Dict.{Dict, lookup, keys}
use go_bricks_openapi.Prelude.Sort.{sort_strings}
use go_bricks_openapi.Go.{Go}
use go_bricks_openapi.Models.{TypeShape, kind}
use go_bricks_openapi.Shapes.{strip_pointers, is_sequence, is_byte_slice, is_map, effective_kind}
use go_bricks_openapi.Constraints.Bounds.{ConstraintSet, no_constraints}
use go_bricks_openapi.Constraints.Rules.{apply_slice_cardinality, apply_map_cardinality}
use go_bricks_openapi.Constraints.Scalars.{apply_scalar_rule}

unfoldable pub sorted_keys : Dict String → List String
sorted_keys m = sort_strings (keys m)

-- A missing key reads as the empty text.
unfoldable pub value_at : Dict String → String → String
value_at m k = elim (lookup k m) [ none ↦ "" | some v ↦ v ]

module _ (go : Go) where
  open go use {Float}

  -- One round of the loop, for a shape that has shed its pointers.
  unfoldable pub apply_rule :
      TypeShape → ConstraintSet Float → String → String → ConstraintSet Float
  apply_rule base s key value =
      if key == "required"
      then s
      else if is_sequence base && not (is_byte_slice base)
      then apply_slice_cardinality s key value
      else if is_map (kind base)
      then apply_map_cardinality s key value
      else apply_scalar_rule go s key value (effective_kind base)

  unfoldable pub apply_rules :
      TypeShape → Dict String → List String → ConstraintSet Float → ConstraintSet Float
  apply_rules base m [] s = s
  apply_rules base m (k ∷ ks) s = apply_rules base m ks (apply_rule base s k (value_at m k))

  unfoldable pub constraints_for : TypeShape → Dict String → ConstraintSet Float
  constraints_for shape m = apply_rules (strip_pointers shape) m (sorted_keys m) no_constraints
