-- ===== src/Analyzer/Payload.antt =====
-- internal/analyzer/payload.go (IsTypedPayload, isFallbackLeaf, payloadResolves) and the leaves of a
-- resolved shape in internal/analyzer/resolution.go.
pub mod Typed
use go_bricks_openapi.Prelude.{
  String, Bool, true, false, not, ◌&&◌, ◌||◌, Option, none, some, List, [], ◌∷◌, ◌==◌, one_of,
  if◌then◌else◌,
}
use go_bricks_openapi.Models.{
  ShapeKind, pointer, slice, array, map_of, named, primitive, anonymous, ref, kind_only, text,
  TypeShape, type_shape, ShapePtr, no_shape, ptr, TypeInfo, is_nil, kind, type_name,
}

-- models.WellKnownTypeNames and models.UntypedBuiltinNames
abbrev pub well_known_type_names : List String
well_known_type_names =
    "time.Time" ∷ "time.Duration" ∷ "uuid.UUID" ∷ "json.RawMessage" ∷ "json.Number" ∷ "time.Month"
    ∷ "time.Weekday" ∷ "net.IP" ∷ "netip.Addr" ∷ "netip.Prefix" ∷ "netip.AddrPort" ∷ []

abbrev pub untyped_builtin_names : List String
untyped_builtin_names = "error" ∷ "complex64" ∷ "complex128" ∷ []

-- The leaves that walkResolvedLeaves visits, in its order.
unfoldable pub resolved_leaves : ShapePtr → List TypeShape
resolved_leaves no_shape = []
resolved_leaves (ptr (type_shape pointer n key el i st)) = resolved_leaves el
resolved_leaves (ptr (type_shape slice n key el i st)) = resolved_leaves el
resolved_leaves (ptr (type_shape array n key el i st)) = resolved_leaves el
resolved_leaves (ptr (type_shape map_of n key el i st)) = resolved_leaves el
resolved_leaves (ptr (type_shape k n key el i st)) = type_shape k n key el i st ∷ []

unfoldable pub is_fallback_leaf : TypeShape → Bool
is_fallback_leaf (type_shape named n key el i st) = not (one_of n well_known_type_names)
is_fallback_leaf (type_shape primitive n key el i st) =
    n == "uintptr" || one_of n untyped_builtin_names
is_fallback_leaf (type_shape ref n key el i st) = false
is_fallback_leaf (type_shape kind_only n key el i st) = false
is_fallback_leaf (type_shape text n key el i st) = false
is_fallback_leaf (type_shape anonymous n key el i st) = false
is_fallback_leaf (type_shape _ n key el i st) = true

-- `typed` over the walk: every leaf keeps it or clears it.
unfoldable pub walk_typed : Bool → List TypeShape → Bool
walk_typed typed [] = typed
walk_typed typed (leaf ∷ leaves) = walk_typed (typed && not (is_fallback_leaf leaf)) leaves

unfoldable pub holds_uintptr_from : Bool → List TypeShape → Bool
holds_uintptr_from found [] = found
holds_uintptr_from found (leaf ∷ leaves) =
    holds_uintptr_from
      (found || elim (kind leaf) [ primitive ↦ type_name leaf == "uintptr" | _ ↦ false ]) leaves

unfoldable pub holds_uintptr : ShapePtr → Bool
holds_uintptr s = holds_uintptr_from false (resolved_leaves s)

-- TypeInfo.ResolvedShape
unfoldable pub type_resolved_shape : TypeInfo → ShapePtr
type_resolved_shape ti = if is_nil ti.resolution then ti.shape else ti.resolution

unfoldable pub is_typed_payload : Option TypeInfo → Bool
is_typed_payload none = false
is_typed_payload (some ti) =
    if is_nil ti.resolution && not (ti.name == "")
    then true
    else if is_nil (type_resolved_shape ti)
    then false
    else walk_typed true (resolved_leaves (type_resolved_shape ti))
