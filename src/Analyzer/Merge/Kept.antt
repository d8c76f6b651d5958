-- ===== src/Analyzer/Merge/Kept.antt =====
-- What the merge of a type's declarations keeps, internal/analyzer/resolution.go.
use go_bricks_openapi.Prelude.{
  String, ◌≡◌, ◌⊎◌, refl, ap, sym, subst, ◌∙◌, inl, inr, true, Option, none, some, List, [], ◌∷◌,
  ◌==◌, All, arith, eq_iff,
}
use go_bricks_openapi.Models.{
  ShapeKind, pointer, slice, array, map_of, primitive, anonymous, instantiation, kind_only,
  TypeShape, type_shape, ShapePtr, no_shape, ptr, InstPtr, StructPtr, kind, elem_of,
}
use go_bricks_openapi.Analyzer.Merge.{
  kind_text, same_builtin, same_written, leaf_kind, cut_against_extraction, with_elem, merge_elems,
  merge_leaf_kinds, or_else, pointer_to, merge_same_kind, merge_over, merge_pointers, merge_shapes,
  merge_from, merge_decls,
}
use go_bricks_openapi.Analyzer.Merge.Outline.{
  Both, outline, is_container, same-Both, kept-Both, merge_literals-some, kind_text-injective,
  same_builtin-primitive_kind, cut_against_extraction-outline, merge_leaf_kinds-outline,
}

merge_elems-some :
    (merged : Option ShapePtr) (x m : TypeShape)
    → merge_elems merged x ≡ some m
    → (e : ShapePtr) × (merged ≡ some e) × (with_elem x e ≡ m)
unfolding merge_elems
merge_elems-some none x m h = ground arith
merge_elems-some (some e) x m h = (e, refl, ground arith)

module _ (literal_text : StructPtr → Option String) (merged : Option ShapePtr) (n n' : String)
    (key el key' el' : ShapePtr) (i i' : InstPtr) (st st' : StructPtr) (m : TypeShape)
    (below_lem : (e : ShapePtr) → merged ≡ some e → Both el el' e) where
  container_outline :
      (k : ShapeKind)
      → is_container k ≡ true
      → merge_elems merged (type_shape k n key el i st) ≡ some m
      → Both (ptr (type_shape k n key el i st)) (ptr (type_shape k n' key' el' i' st')) (ptr m)
  unfolding with_elem outline
  container_outline k c h =
      let (e, is_e, m_is) = merge_elems-some merged (type_shape k n key el i st) m h in
      ground (arith, below_lem e is_e, m_is, ap (λ s. outline (ptr s)) m_is)

  merge_same_kind-outline :
      (k : ShapeKind)
      → merge_same_kind literal_text merged
          (type_shape k n key el i st)
          (type_shape k n' key' el' i' st')
        ≡ some m
      → Both (ptr (type_shape k n key el i st)) (ptr (type_shape k n' key' el' i' st')) (ptr m)
  unfolding merge_same_kind is_container outline leaf_kind
  merge_same_kind-outline pointer h = container_outline pointer refl h
  merge_same_kind-outline slice h = container_outline slice refl h
  merge_same_kind-outline array h = container_outline array refl h
  merge_same_kind-outline map_of h = container_outline map_of refl h
  merge_same_kind-outline primitive h =
      kept-Both (same_builtin n n') (type_shape primitive n key el i st)
        (type_shape primitive n' key' el' i' st') m
        (λ same. ap (λ t. t ∷ []) (sym (same_builtin-primitive_kind n n' same))) h
  merge_same_kind-outline kind_only h =
      kept-Both (n == n') (type_shape kind_only n key el i st)
        (type_shape kind_only n' key' el' i' st') m
        (λ same. ap (λ t. t ∷ []) (sym ((eq_iff n n').0 same))) h
  merge_same_kind-outline anonymous h =
      same-Both (type_shape anonymous n key el i st) (type_shape anonymous n' key' el' i' st') m
        refl
        (merge_literals-some literal_text (type_shape anonymous n key el i st)
          (type_shape anonymous n' key' el' i' st') m h)
  merge_same_kind-outline instantiation h =
      kept-Both (same_written i i') (type_shape instantiation n key el i st)
        (type_shape instantiation n' key' el' i' st') m (λ same. refl) h
  merge_same_kind-outline k h =
      kept-Both (n == n') (type_shape k n key el i st) (type_shape k n' key' el' i' st') m
        (λ same. refl) h

same_kind-outline :
    (literal_text : StructPtr → Option String) (merged : Option ShapePtr) (x y m : TypeShape)
    → ((e : ShapePtr) → merged ≡ some e → Both (elem_of x) (elem_of y) e)
    → kind x ≡ kind y
    → merge_same_kind literal_text merged x y ≡ some m
    → Both (ptr x) (ptr y) (ptr m)
same_kind-outline literal_text merged (type_shape k n key el i st)
      (type_shape k' n' key' el' i' st') m below_lem same h =
    subst
      (λ j.
        merge_same_kind literal_text merged (type_shape k n key el i st)
            (type_shape j n' key' el' i' st')
          ≡ some m
        → Both (ptr (type_shape k n key el i st)) (ptr (type_shape j n' key' el' i' st')) (ptr m))
      same
      (merge_same_kind-outline literal_text merged n n' key el key' el' i i' st st' m below_lem k) h

or_else-some :
    (a b : Option TypeShape) (m : TypeShape) → or_else a b ≡ some m → (a ≡ some m) ⊎ (b ≡ some m)
unfolding or_else
or_else-some a b m h = ground arith

module _ (literal_text : StructPtr → Option String) (merged : Option ShapePtr) (x y m : TypeShape)
    (below_lem : (e : ShapePtr) → merged ≡ some e → Both (elem_of x) (elem_of y) e) where
  merge_over_cases :
      merge_over literal_text merged x y ≡ some m
      → ((cut_against_extraction x y ≡ true) × (x ≡ m))
        ⊎ ((kind_text (kind x) ≡ kind_text (kind y))
            × (merge_same_kind literal_text merged x y ≡ some m))
        ⊎ (merge_leaf_kinds x y ≡ some m)
  unfolding merge_over
  merge_over_cases h = ground (
    arith,
    eq_iff (kind_text (kind x)) (kind_text (kind y)),
    or_else-some (merge_same_kind literal_text merged x y) (merge_leaf_kinds x y) m,
  )

  merge_over-outline : merge_over literal_text merged x y ≡ some m → Both (ptr x) (ptr y) (ptr m)
  merge_over-outline h = elim (merge_over_cases h) [
    | inl (cut, kept) ↦ same-Both x y m (cut_against_extraction-outline x y cut) kept
    | inr (inl (same, merges)) ↦
        same_kind-outline literal_text merged x y m below_lem
          (kind_text-injective (kind x) (kind y) same) merges
    | inr (inr merges) ↦ merge_leaf_kinds-outline x y m merges
  ]

pointer_to-some :
    (a : Option TypeShape) (e : ShapePtr)
    → pointer_to a ≡ some e
    → (m : TypeShape) × (a ≡ some m) × (ptr m ≡ e)
unfolding pointer_to
pointer_to-some none e h = ground arith
pointer_to-some (some m) e h = (m, refl, ground arith)

merge_nothing :
    (literal_text : StructPtr → Option String) (e : ShapePtr)
    → merge_pointers literal_text no_shape no_shape ≡ some e
    → no_shape ≡ e
unfolding merge_pointers
merge_nothing literal_text e h = ground arith

merge_pointers-outline :
    (literal_text : StructPtr → Option String) (a b e : ShapePtr)
    → merge_pointers literal_text a b ≡ some e
    → Both a b e
unfolding merge_pointers
merge_pointers-outline literal_text no_shape no_shape e h =
    let same = merge_nothing literal_text e h in (ap outline same, ap outline same)
merge_pointers-outline literal_text no_shape (ptr y) e h = ground arith
merge_pointers-outline literal_text (ptr (type_shape k n key el i st)) no_shape e h = ground arith
merge_pointers-outline literal_text (ptr (type_shape k n key el i st))
      (ptr (type_shape k' n' key' el' i' st')) e h =
    let merged = merge_pointers literal_text el el' in
    let x = type_shape k n key el i st in
    let y = type_shape k' n' key' el' i' st' in
    let (m, merges, e_is) = pointer_to-some (merge_over literal_text merged x y) e h in
    let both =
      merge_over-outline literal_text merged x y m
        (λ below. merge_pointers-outline literal_text el el' below) merges in
    (both.0 ∙ ap outline e_is, both.1 ∙ ap outline e_is)

merge_shapes-outline :
    (literal_text : StructPtr → Option String) (x y m : TypeShape)
    → merge_shapes literal_text x y ≡ some m
    → Both (ptr x) (ptr y) (ptr m)
unfolding merge_shapes
merge_shapes-outline literal_text x y m h =
    merge_over-outline literal_text (merge_pointers literal_text (elem_of x) (elem_of y)) x y m
      (λ e. merge_pointers-outline literal_text (elem_of x) (elem_of y) e) h

merge_rest-some :
    (literal_text : StructPtr → Option String) (merged : Option TypeShape)
    (results : List TypeShape) (m : TypeShape)
    → elim merged [ none ↦ none | some n ↦ merge_from literal_text n results ] ≡ some m
    → (n : TypeShape) × (merged ≡ some n) × (merge_from literal_text n results ≡ some m)
merge_rest-some literal_text none results m h = ground arith
merge_rest-some literal_text (some n) results m h = (n, refl, h)

merge_from-outline :
    (literal_text : StructPtr → Option String) (merged : TypeShape) (results : List TypeShape)
    (m : TypeShape)
    → merge_from literal_text merged results ≡ some m
    → (outline (ptr merged) ≡ outline (ptr m))
      × All (λ r. outline (ptr r) ≡ outline (ptr m)) results
unfolding merge_from
merge_from-outline literal_text merged [] m h = (ap (λ s. outline (ptr s)) (ground arith), tt)
merge_from-outline literal_text merged (r ∷ results) m h =
    let (n, merges, rest) =
      merge_rest-some literal_text (merge_shapes literal_text merged r) results m h in
    let both = merge_shapes-outline literal_text merged r n merges in
    let below = merge_from-outline literal_text n results m rest in
    (both.0 ∙ below.0, (both.1 ∙ below.0, below.1))

-- Where the declarations of a type merge, each of them has the containers of the merged type, from
-- the outside in, and the OpenAPI kind of its scalar leaf.
pub merge_decls-outline :
    (literal_text : StructPtr → Option String) (first : TypeShape) (results : List TypeShape)
    (m : TypeShape)
    → merge_decls literal_text first results ≡ some m
    → All (λ r. outline (ptr r) ≡ outline (ptr m)) (first ∷ results)
unfolding merge_decls
merge_decls-outline literal_text first results m h =
    merge_from-outline literal_text first results m h
