-- ===== src/Analyzer/Binding.antt =====
-- internal/analyzer/binding.go: whether go-bricks can bind a parameter of a resolved type, with the
-- fallbacks of internal/analyzer/resolution.go. The syntax tree of the field is not modelled.
pub mod Binds
use go_bricks_openapi.Prelude.{
  String, Bool, true, false, not, ◌&&◌, ◌||◌, Option, none, some, List, [], ◌∷◌, ◌==◌, one_of,
  if◌then◌else◌,
}
use go_bricks_openapi.Prelude.Dict.{Dict, lookup}
use go_bricks_openapi.Models.{
  ShapeKind, unset, pointer, slice, array, map_of, named, primitive, anonymous, unknown, ref,
  kind_only, TypeShape, type_shape, ShapePtr, no_shape, ptr,
}
use go_bricks_openapi.Analyzer.Payload.{well_known_type_names}
use go_bricks_openapi.Analyzer.Merge.{leaf_kind}

pub data FallbackKind : Type 0 where
  no_fallback marshaler_fallback recursive_fallback depth_cap unresolvable : FallbackKind
  defined_over_qualified decls_disagree untyped_builtin marshaler_promoted generic : FallbackKind

-- The kind and the detail of a fieldFallback, which are all that is read here.
pub record FieldFallback : Type 0 where
  pub kind : FallbackKind
  pub detail : String

pub data BinderKind : Type 0 where
  kind_unresolved kind_string kind_scalar kind_time kind_pointer kind_slice : BinderKind
  kind_byte_slice kind_array kind_struct kind_map kind_interface kind_complex : BinderKind
  kind_uintptr kind_func_or_chan : BinderKind

unfoldable pub kind_reasons : BinderKind → String
kind_reasons kind_array = "an array"
kind_reasons kind_struct = "a struct other than time.Time"
kind_reasons kind_map = "a map"
kind_reasons kind_interface = "an interface"
kind_reasons kind_complex = "a complex number"
kind_reasons kind_uintptr = "a uintptr"
kind_reasons kind_func_or_chan = "a func or a chan"
kind_reasons _ = ""

unfoldable pub well_known_binder_kinds : Dict BinderKind
well_known_binder_kinds =
    ("time.Time", kind_time)
    ∷ ("json.Number", kind_string)
    ∷ ("uuid.UUID", kind_array)
    ∷ ("json.RawMessage", kind_byte_slice)
    ∷ ("net.IP", kind_byte_slice)
    ∷ ("netip.Addr", kind_struct)
    ∷ ("netip.Prefix", kind_struct)
    ∷ ("netip.AddrPort", kind_struct)
    ∷ ("big.Int", kind_struct)
    ∷ []

-- The row of a name, the zero value where it has none.
unfoldable pub row_of : String → BinderKind
row_of name = elim (lookup name well_known_binder_kinds) [ none ↦ kind_unresolved | some k ↦ k ]

-- A defined type over time.Time is a plain struct.
unfoldable pub defined_kind : BinderKind → BinderKind
defined_kind kind_time = kind_struct
defined_kind k = k

unfoldable pub named_binder_kind : String → FieldFallback → BinderKind
named_binder_kind name fb = elim fb.kind [
  | no_fallback ↦ if one_of name well_known_type_names then row_of name else kind_unresolved
  | defined_over_qualified ↦
      if one_of fb.detail well_known_type_names
      then defined_kind (row_of fb.detail)
      else kind_unresolved
  | _ ↦ kind_unresolved
]

unfoldable pub builtin_binder_kind : String → BinderKind
builtin_binder_kind n =
    if n == "uintptr"
    then kind_uintptr
    else if n == "complex64" || n == "complex128"
    then kind_complex
    else if n == "any" || n == "interface{}" || n == "error"
    then kind_interface
    else kind_unresolved

unfoldable pub scalar_binder_kind : String → String → BinderKind
scalar_binder_kind leaf_kind n =
    if leaf_kind == ""
    then builtin_binder_kind n
    else if leaf_kind == "string"
    then kind_string
    else kind_scalar

unfoldable pub binder_kind_of : ShapePtr → FieldFallback → BinderKind
binder_kind_of no_shape fb = kind_unresolved
binder_kind_of (ptr (type_shape pointer n key no_shape i st)) fb = kind_unresolved
binder_kind_of (ptr (type_shape pointer n key (ptr el) i st)) fb = kind_pointer
binder_kind_of (ptr (type_shape slice n key el i st)) fb = kind_slice
binder_kind_of (ptr (type_shape array n key el i st)) fb = kind_array
binder_kind_of (ptr (type_shape map_of n key el i st)) fb = kind_map
binder_kind_of (ptr (type_shape ref n key el i st)) fb = kind_struct
binder_kind_of (ptr (type_shape anonymous n key el i st)) fb = kind_struct
binder_kind_of (ptr (type_shape primitive n key el i st)) fb =
    scalar_binder_kind (leaf_kind (type_shape primitive n key el i st)) n
binder_kind_of (ptr (type_shape kind_only n key el i st)) fb =
    scalar_binder_kind (leaf_kind (type_shape kind_only n key el i st)) n
binder_kind_of (ptr (type_shape named n key el i st)) fb = named_binder_kind n fb
binder_kind_of (ptr (type_shape unknown n key el i st)) fb = kind_func_or_chan
binder_kind_of (ptr (type_shape unset n key el i st)) fb = kind_func_or_chan
binder_kind_of (ptr (type_shape _ n key el i st)) fb = kind_unresolved

-- The shape below its pointers.
unfoldable pub below_pointers : ShapePtr → ShapePtr
below_pointers (ptr (type_shape pointer n key el i st)) = below_pointers el
below_pointers s = s

unfoldable pub is_struct : BinderKind → Bool
is_struct kind_struct = true
is_struct _ = false

unfoldable pub embeds_struct : ShapePtr → FieldFallback → Bool
embeds_struct r fb = is_struct (binder_kind_of (below_pointers r) fb)

-- A slice of strings, `elem` being the kind of its element.
unfoldable pub elem_reason : BinderKind → String × Bool
elem_reason kind_string = ("", true)
elem_reason kind_unresolved = ("", false)
elem_reason _ = ("a slice whose element is not a string", true)

unfoldable pub slice_bind_reason : BinderKind → String → BinderKind → String × Bool
slice_bind_reason k source elem =
    if source == "path" then ("a slice in a path parameter", true) else elim k [
      | kind_byte_slice ↦ ("a slice whose element is not a string", true)
      | _ ↦ elem_reason elem
    ]

-- `reason` is that of what the pointer points to.
unfoldable pub pointer_bind_reason : BinderKind → String × Bool → String × Bool
pointer_bind_reason kind_slice reason = ("a pointer to a slice", true)
pointer_bind_reason kind_byte_slice reason = ("a pointer to a slice", true)
pointer_bind_reason _ reason = reason

-- The verdict on a kind, with the kind of the element and the verdict on it.
unfoldable pub bind_reason : BinderKind → String → BinderKind → String × Bool → String × Bool
bind_reason kind_unresolved source elem reason = ("", false)
bind_reason kind_pointer source elem reason = pointer_bind_reason elem reason
bind_reason kind_slice source elem reason = slice_bind_reason kind_slice source elem
bind_reason kind_byte_slice source elem reason = slice_bind_reason kind_byte_slice source elem
bind_reason k source elem reason = (kind_reasons k, true)

unfoldable pub param_bind_reason : ShapePtr → String → FieldFallback → String × Bool
param_bind_reason no_shape source fb = ("", false)
param_bind_reason (ptr (type_shape k n key el i st)) source fb =
    bind_reason (binder_kind_of (ptr (type_shape k n key el i st)) fb) source (binder_kind_of el fb)
      (param_bind_reason el source fb)
