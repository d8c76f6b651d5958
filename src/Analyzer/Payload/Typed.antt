-- ===== src/Analyzer/Payload/Typed.antt =====
-- When a payload is typed, internal/analyzer/payload.go.
use go_bricks_openapi.Prelude.{
  ◌≡◌, ◌≢◌, ◌⊎◌, ◌↔◌, Bool, true, false, not, ◌&&◌, some, List, [], ◌∷◌, All, arith, eq_iff,
}
use go_bricks_openapi.Models.{TypeShape, TypeInfo, is_nil}
use go_bricks_openapi.Analyzer.Payload.{
  resolved_leaves, is_fallback_leaf, walk_typed, type_resolved_shape, is_typed_payload,
}

walk_typed-All :
    (typed : Bool) (leaves : List TypeShape)
    → (walk_typed typed leaves ≡ true)
      ↔ ((typed ≡ true) × All (λ leaf. is_fallback_leaf leaf ≡ false) leaves)
unfolding walk_typed
walk_typed-All typed [] = (λ h. (h, tt), λ h. h.0)
walk_typed-All typed (leaf ∷ leaves) =
    ground (arith, walk_typed-All (typed && not (is_fallback_leaf leaf)) leaves)

-- A payload is typed exactly if it has a name and no resolution, or if it has a shape, the resolved
-- one first, none of whose leaves is a fallback.
is_typed_payload-resolved_leaves :
    (ti : TypeInfo)
    → (is_typed_payload (some ti) ≡ true) ↔ (
        ((is_nil ti.resolution ≡ true) × (ti.name ≢ ""))
        ⊎ ((is_nil (type_resolved_shape ti) ≡ false)
            × All
                (λ leaf. is_fallback_leaf leaf ≡ false)
                (resolved_leaves (type_resolved_shape ti))))
unfolding is_typed_payload
is_typed_payload-resolved_leaves ti =
    ground
      (arith, eq_iff ti.name "", walk_typed-All true (resolved_leaves (type_resolved_shape ti)))
