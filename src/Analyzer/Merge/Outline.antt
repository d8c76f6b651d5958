-- ===== src/Analyzer/Merge/Outline.antt =====
-- The containers and the scalar kind of a shape, internal/analyzer/resolution.go.
use go_bricks_openapi.Prelude.{
  String, ◌≡◌, refl, ap, sym, ◌∙◌, Bool, true, false, Option, some, List, [], ◌∷◌, ◌==◌,
  if◌then◌else◌, arith, eq_iff,
}
use go_bricks_openapi.Models.{
  ShapeKind, unset, pointer, slice, array, map_of, named, primitive, anonymous, unknown,
  instantiation, ref, kind_only, marshaler, recursive, text, TypeShape, type_shape, ShapePtr,
  no_shape, ptr, no_inst, StructPtr, no_struct,
}
use go_bricks_openapi.Shapes.{is_integer_type}
use go_bricks_openapi.Analyzer.Merge.{
  kind_text, canonical, same_builtin, primitive_kind, leaf_kind, cut_against_extraction,
  is_literal_cut, is_extracted_literal, kept_if, merge_leaf_kinds, merge_literals,
}

unfoldable pub is_container : ShapeKind → Bool
is_container pointer = true
is_container slice = true
is_container array = true
is_container map_of = true
is_container _ = false

-- The containers of a shape, from the outside in, and the OpenAPI kind of its leaf where that is a
-- scalar, else "". A container without an element has no leaf.
unfoldable pub outline : ShapePtr → List String
outline no_shape = []
outline (ptr (type_shape k n key el i st)) =
    if is_container k then kind_text k ∷ outline el else leaf_kind (type_shape k n key el i st) ∷ []

kind_of : String → ShapeKind
kind_of t =
    if t == "pointer"
    then pointer
    else if t == "slice"
    then slice
    else if t == "array"
    then array
    else if t == "map"
    then map_of
    else if t == "named"
    then named
    else if t == "primitive"
    then primitive
    else if t == "struct"
    then anonymous
    else if t == "unknown"
    then unknown
    else if t == "instantiation"
    then instantiation
    else if t == "ref"
    then ref
    else if t == "kind-only"
    then kind_only
    else if t == "marshaler"
    then marshaler
    else if t == "recursive"
    then recursive
    else if t == "text"
    then text
    else unset

kind_of-kind_text : (k : ShapeKind) → kind_of (kind_text k) ≡ k
unfolding kind_of kind_text
kind_of-kind_text unset = refl
kind_of-kind_text pointer = refl
kind_of-kind_text slice = refl
kind_of-kind_text array = refl
kind_of-kind_text map_of = refl
kind_of-kind_text named = refl
kind_of-kind_text primitive = refl
kind_of-kind_text anonymous = refl
kind_of-kind_text unknown = refl
kind_of-kind_text instantiation = refl
kind_of-kind_text ref = refl
kind_of-kind_text kind_only = refl
kind_of-kind_text marshaler = refl
kind_of-kind_text recursive = refl
kind_of-kind_text text = refl

pub kind_text-injective : (k k' : ShapeKind) → kind_text k ≡ kind_text k' → k ≡ k'
kind_text-injective k k' h = cc (kind_of-kind_text k, kind_of-kind_text k', ap kind_of h)

primitive_kind-byte : primitive_kind "uint8" ≡ primitive_kind "byte"
unfolding primitive_kind is_integer_type
primitive_kind-byte = refl

primitive_kind-rune : primitive_kind "int32" ≡ primitive_kind "rune"
unfolding primitive_kind is_integer_type
primitive_kind-rune = refl

primitive_kind-canonical : (n : String) → primitive_kind (canonical n) ≡ primitive_kind n
unfolding canonical
primitive_kind-canonical n =
    ground (arith, eq_iff n "byte", eq_iff n "rune", primitive_kind-byte, primitive_kind-rune)

leaf_kind-kind_only :
    (n : String) → leaf_kind (type_shape kind_only n no_shape no_shape no_inst no_struct) ≡ n
unfolding leaf_kind
leaf_kind-kind_only n = refl

pub same_builtin-primitive_kind :
    (n n' : String) → same_builtin n n' ≡ true → primitive_kind n ≡ primitive_kind n'
unfolding same_builtin
same_builtin-primitive_kind n n' h = ground (
  arith,
  eq_iff (canonical n) (canonical n'),
  primitive_kind-canonical n,
  primitive_kind-canonical n',
)

-- Both shapes have the outline of the third.
abbrev pub Both : ShapePtr → ShapePtr → ShapePtr → Type 0
Both x y m = (outline x ≡ outline m) × (outline y ≡ outline m)

pub kept_if-some : (b : Bool) (x m : TypeShape) → kept_if b x ≡ some m → (b ≡ true) × (x ≡ m)
unfolding kept_if
kept_if-some b x m h = ground arith

pub same-Both :
    (x y m : TypeShape) → outline (ptr y) ≡ outline (ptr x) → x ≡ m → Both (ptr x) (ptr y) (ptr m)
same-Both x y m same h = let kept = ap (λ s. outline (ptr s)) h in (kept, same ∙ kept)

pub kept-Both :
    (b : Bool) (x y m : TypeShape)
    → (b ≡ true → outline (ptr y) ≡ outline (ptr x))
    → kept_if b x ≡ some m
    → Both (ptr x) (ptr y) (ptr m)
kept-Both b x y m same h = let kept = kept_if-some b x m h in same-Both x y m (same kept.0) kept.1

pub merge_literals-some :
    (literal_text : StructPtr → Option String) (x y m : TypeShape)
    → merge_literals literal_text x y ≡ some m
    → x ≡ m
unfolding merge_literals
merge_literals-some literal_text x y m h = grind (arith, kept_if-some)

leaf_outline : (s : TypeShape) → (leaf_kind s == "") ≡ false → outline (ptr s) ≡ leaf_kind s ∷ []
unfolding outline is_container leaf_kind
leaf_outline (type_shape pointer n key el i st) h = ground arith
leaf_outline (type_shape slice n key el i st) h = ground arith
leaf_outline (type_shape array n key el i st) h = ground arith
leaf_outline (type_shape map_of n key el i st) h = ground arith
leaf_outline (type_shape _ n key el i st) h = refl

cut_outline : (s : TypeShape) → is_literal_cut s ≡ true → outline (ptr s) ≡ "" ∷ []
unfolding outline is_container leaf_kind is_literal_cut
cut_outline (type_shape recursive n key el i st) h = refl
cut_outline (type_shape _ n key el i st) h = ground arith

literal_outline : (s : TypeShape) → is_extracted_literal s ≡ true → outline (ptr s) ≡ "" ∷ []
unfolding outline is_container leaf_kind is_extracted_literal
literal_outline (type_shape anonymous n key el i st) h = refl
literal_outline (type_shape _ n key el i st) h = ground arith

pub cut_against_extraction-outline :
    (x y : TypeShape) → cut_against_extraction x y ≡ true → outline (ptr y) ≡ outline (ptr x)
unfolding cut_against_extraction
cut_against_extraction-outline x y h =
    ground (arith, cut_outline x, cut_outline y, literal_outline x, literal_outline y)

merge_leaf_kinds-some :
    (x y m : TypeShape)
    → merge_leaf_kinds x y ≡ some m
    → ((leaf_kind x == "") ≡ false)
      × ((leaf_kind x == leaf_kind y) ≡ true)
      × (type_shape kind_only (leaf_kind x) no_shape no_shape no_inst no_struct ≡ m)
unfolding merge_leaf_kinds
merge_leaf_kinds-some x y m h = ground arith

pub merge_leaf_kinds-outline :
    (x y m : TypeShape) → merge_leaf_kinds x y ≡ some m → Both (ptr x) (ptr y) (ptr m)
unfolding outline is_container leaf_kind
merge_leaf_kinds-outline x y m h =
    let (is_scalar, same, m_is) = merge_leaf_kinds-some x y m h in
    let kinds = (eq_iff (leaf_kind x) (leaf_kind y)).0 same in
    let of_m = ap (λ s. outline (ptr s)) m_is in
    (
      leaf_outline x is_scalar ∙ of_m,
      leaf_outline y (ap (λ t. t == "") (sym kinds) ∙ is_scalar)
          ∙ ap (λ t. t ∷ []) (sym kinds)
          ∙ of_m,
    )
