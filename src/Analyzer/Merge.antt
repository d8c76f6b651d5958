-- ===== src/Analyzer/Merge.antt =====
-- internal/analyzer/resolution.go (mergeDecls and what it calls), with the builtin names of
-- internal/analyzer/analyzer.go, and payloadResolves. How a literal is written, with its tags, is a
-- parameter: its text is printed by go/types, and none stands for a shape without a syntax tree.
pub mod Outline
pub mod Kept
use go_bricks_openapi.Prelude.{
  String, Bool, true, false, not, ◌&&◌, ◌||◌, Option, none, some, List, [], ◌∷◌, ◌==◌, one_of,
  if◌then◌else◌,
}
use go_bricks_openapi.Models.{
  ShapeKind, unset, pointer, slice, array, map_of, named, primitive, anonymous, unknown,
  instantiation, ref, kind_only, marshaler, recursive, text, TypeShape, type_shape, ShapePtr,
  no_shape, ptr, InstPtr, no_inst, inst, StructPtr, no_struct, unextracted, extracted, kind,
  type_name, elem_of, struct_of,
}
use go_bricks_openapi.Shapes.{is_string_type, is_integer_type, is_float_type}
use go_bricks_openapi.Analyzer.Payload.{resolved_leaves, well_known_type_names}

-- The text of a ShapeKind.
unfoldable pub kind_text : ShapeKind → String
kind_text unset = ""
kind_text pointer = "pointer"
kind_text slice = "slice"
kind_text array = "array"
kind_text map_of = "map"
kind_text named = "named"
kind_text primitive = "primitive"
kind_text anonymous = "struct"
kind_text unknown = "unknown"
kind_text instantiation = "instantiation"
kind_text ref = "ref"
kind_text kind_only = "kind-only"
kind_text marshaler = "marshaler"
kind_text recursive = "recursive"
kind_text text = "text"

abbrev pub anon_struct_display : String
anon_struct_display = "struct{…}"

unfoldable pub canonical : String → String
canonical name = if name == "byte" then "uint8" else if name == "rune" then "int32" else name

unfoldable pub same_builtin : String → String → Bool
same_builtin x y = canonical x == canonical y

unfoldable pub primitive_kind : String → String
primitive_kind n =
    if is_integer_type n
    then "integer"
    else if is_float_type n
    then "number"
    else if is_string_type n
    then "string"
    else if n == "bool"
    then "boolean"
    else ""

unfoldable pub leaf_kind : TypeShape → String
leaf_kind (type_shape primitive n key el i st) = primitive_kind n
leaf_kind (type_shape kind_only n key el i st) = n
leaf_kind (type_shape _ n key el i st) = ""

unfoldable pub first_scalar_kind : List TypeShape → String
first_scalar_kind [] = ""
first_scalar_kind (r ∷ results) =
    if leaf_kind r == "" then first_scalar_kind results else leaf_kind r

unfoldable pub is_literal_cut : TypeShape → Bool
is_literal_cut s = elim (kind s) [ recursive ↦ type_name s == anon_struct_display | _ ↦ false ]

unfoldable pub has_extracted_fields : StructPtr → Bool
has_extracted_fields (extracted fs) = true
has_extracted_fields _ = false

unfoldable pub is_extracted_literal : TypeShape → Bool
is_extracted_literal s = elim (kind s) [
  | anonymous ↦ has_extracted_fields (struct_of s)
  | _ ↦ false
]

unfoldable pub cut_against_extraction : TypeShape → TypeShape → Bool
cut_against_extraction x y =
    is_literal_cut x && is_extracted_literal y || is_literal_cut y && is_extracted_literal x

unfoldable pub same_written : InstPtr → InstPtr → Bool
same_written (inst b args w) (inst b' args' w') = w == w'
same_written _ _ = false

unfoldable pub with_elem : TypeShape → ShapePtr → TypeShape
with_elem (type_shape k n key el i st) e = type_shape k n key e i st

unfoldable pub kept_if : Bool → TypeShape → Option TypeShape
kept_if same x = if same then some x else none

abbrev pub inst_of : TypeShape → InstPtr
inst_of (type_shape k n key el i st) = i

-- hasUnknownLeaf
unfoldable pub is_unmodelled : TypeShape → Bool
is_unmodelled (type_shape unknown n key el i st) = true
is_unmodelled (type_shape unset n key el i st) = true
is_unmodelled (type_shape instantiation n key el i st) = true
is_unmodelled (type_shape _ n key el i st) = false

unfoldable pub has_unknown_from : Bool → List TypeShape → Bool
has_unknown_from found [] = found
has_unknown_from found (leaf ∷ leaves) = has_unknown_from (found || is_unmodelled leaf) leaves

unfoldable pub has_unknown_leaf : TypeShape → Bool
has_unknown_leaf s = has_unknown_from false (resolved_leaves (ptr s))

-- firstInstantiation
unfoldable pub written_of : String → TypeShape → String
written_of written (type_shape instantiation n key el (inst b args w) st) = w
written_of written _ = written

unfoldable pub last_written : String → List TypeShape → String
last_written written [] = written
last_written written (leaf ∷ leaves) = last_written (written_of written leaf) leaves

unfoldable pub first_instantiation : TypeShape → String
first_instantiation s = last_written "" (resolved_leaves (ptr s))

-- The root below the pointers of a payload.
unfoldable pub root_of : TypeShape → TypeShape
root_of (type_shape pointer n key (ptr s) i st) = root_of s
root_of s = s

unfoldable pub payload_resolves : TypeShape → Bool
payload_resolves r =
    let root = root_of r in
    if elim (kind root) [ named ↦ not (one_of (type_name root) well_known_type_names) | _ ↦ false ]
    then false
    else not (has_unknown_leaf r)

unfoldable pub same_texts : Option String → Option String → Bool
same_texts (some t) (some t') = t == t'
same_texts _ _ = false

-- `merged` is what the elements of the two shapes merge to.
unfoldable pub merge_elems : Option ShapePtr → TypeShape → Option TypeShape
merge_elems none x = none
merge_elems (some e) x = some (with_elem x e)

unfoldable pub merge_leaf_kinds : TypeShape → TypeShape → Option TypeShape
merge_leaf_kinds x y =
    if not (leaf_kind x == "") && leaf_kind x == leaf_kind y
    then some (type_shape kind_only (leaf_kind x) no_shape no_shape no_inst no_struct)
    else none

unfoldable pub or_else : Option TypeShape → Option TypeShape → Option TypeShape
or_else (some m) other = some m
or_else none other = other

unfoldable pub pointer_to : Option TypeShape → Option ShapePtr
pointer_to none = none
pointer_to (some m) = some (ptr m)

module _ (literal_text : StructPtr → Option String) where
  unfoldable pub same_literal : StructPtr → StructPtr → Bool
  same_literal x y = same_texts (literal_text x) (literal_text y)

  unfoldable pub merge_literals : TypeShape → TypeShape → Option TypeShape
  merge_literals x y =
      if not (has_extracted_fields (struct_of x)) || not (has_extracted_fields (struct_of y))
      then some x
      else kept_if (same_literal (struct_of x) (struct_of y)) x

  unfoldable pub merge_same_kind : Option ShapePtr → TypeShape → TypeShape → Option TypeShape
  merge_same_kind merged x y = elim (kind x) [
    | pointer ↦ merge_elems merged x
    | slice ↦ merge_elems merged x
    | array ↦ merge_elems merged x
    | map_of ↦ merge_elems merged x
    | primitive ↦ kept_if (same_builtin (type_name x) (type_name y)) x
    | instantiation ↦ kept_if (same_written (inst_of x) (inst_of y)) x
    | anonymous ↦ merge_literals x y
    | _ ↦ kept_if (type_name x == type_name y) x
  ]

  unfoldable pub merge_over : Option ShapePtr → TypeShape → TypeShape → Option TypeShape
  merge_over merged x y =
      if cut_against_extraction x y
      then some x
      else if kind_text (kind x) == kind_text (kind y)
      then or_else (merge_same_kind merged x y) (merge_leaf_kinds x y)
      else merge_leaf_kinds x y

  -- The elements of two containers.
  unfoldable pub merge_pointers : ShapePtr → ShapePtr → Option ShapePtr
  merge_pointers no_shape no_shape = some no_shape
  merge_pointers (ptr (type_shape k n key el i st)) (ptr (type_shape k' n' key' el' i' st')) =
      pointer_to (
        merge_over (merge_pointers el el') (type_shape k n key el i st)
          (type_shape k' n' key' el' i' st'))
  merge_pointers no_shape (ptr y) = none
  merge_pointers (ptr x) no_shape = none

  unfoldable pub merge_shapes : TypeShape → TypeShape → Option TypeShape
  merge_shapes x y = merge_over (merge_pointers (elem_of x) (elem_of y)) x y

  unfoldable pub merge_from : TypeShape → List TypeShape → Option TypeShape
  merge_from merged [] = some merged
  merge_from merged (r ∷ results) = elim (merge_shapes merged r) [
    | none ↦ none
    | some m ↦ merge_from m results
  ]

  -- mergeDecls is called with the resolutions of at least one declaration.
  unfoldable pub merge_decls : TypeShape → List TypeShape → Option TypeShape
  merge_decls first results = merge_from first results
