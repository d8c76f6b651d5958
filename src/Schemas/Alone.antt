-- ===== src/Schemas/Alone.antt =====
-- A field whose property is a reference has no other keyword beside the $ref.
use go_bricks_openapi.Prelude.{
  String, ◌≡◌, refl, ◌∙◌, ◌==◌, eq_iff, false, Option, none, some, [], arith, ◌⊎◌, inl, inr,
  Bool-cases,
}
use go_bricks_openapi.Go.{Go}
use go_bricks_openapi.Models.{
  ShapeKind, unset, pointer, slice, array, map_of, named, primitive, anonymous, unknown,
  instantiation, ref, kind_only, marshaler, recursive, text, TypeShape, type_shape, no_shape, ptr,
  StructPtr, no_struct, unextracted, extracted, end, and_field, FieldInfo, kind, type_name, tags,
  resolved_shape,
}
use go_bricks_openapi.Document.{no_keywords, Property, property, no_property, just, keywords, plain}
use go_bricks_openapi.Shapes.{strip_pointers, WellKnownType, well_known_shape}
use go_bricks_openapi.Constraints.Bounds.{apply_to}
use go_bricks_openapi.Schemas.Examples.{apply_example}
use go_bricks_openapi.Schemas.Validation.{
  apply_field_rules, apply_element_rules, apply_validation_constraints,
}
use go_bricks_openapi.Schemas.Leaves.{
  ref_path, ref_property, set_by_kind, described, is_pointer_field,
}
use go_bricks_openapi.Schemas.Refs.{set_basic-ref, set_well_known-ref}
use go_bricks_openapi.Schemas.Field.{
  is_ref, quoted_scalar_example, constrained_property, mark_nullable, bare_field_property,
  field_property_by,
}
use go_bricks_openapi.Schemas.Typing.{
  well_known_or, set_type_and_format, element_schema, set_inline_object, field_property,
}

module _ (go : Go) where
  open go use {Float}

  abbrev pub ref_of : Property Float → String
  ref_of p = (keywords p).ref

  constrained-ref :
      (f : FieldInfo) (p : Property Float)
      → ref_of p ≡ ""
      → ref_of (constrained_property go f p) ≡ ""
  unfolding constrained_property apply_validation_constraints apply_field_rules apply_element_rules
      apply_to
  constrained-ref f (property k al ps ad no_property) h = ground arith
  constrained-ref f (property k al ps ad (just it)) h = ground arith

  mark_nullable-ref :
      (f : FieldInfo) (p : Property Float) → ref_of p ≡ "" → ref_of (mark_nullable go f p) ≡ ""
  unfolding mark_nullable
  mark_nullable-ref f (property k al ps ad it) h = ground arith

  apply_example-ref :
      (p : Property Float) (raw : String) → ref_of p ≡ "" → ref_of (apply_example go p raw) ≡ ""
  unfolding apply_example
  apply_example-ref (property k al ps ad it) raw h = ground arith

  well_known_or-ref :
      (wk : Option WellKnownType) (p q : Property Float)
      → ref_of p ≡ ""
      → ref_of q ≡ ""
      → ref_of (well_known_or wk p q) ≡ ""
  well_known_or-ref none p q hp hq = hq
  well_known_or-ref (some wk) (property k al ps ad it) q hp hq = set_well_known-ref go [] wk k ∙ hp

  inline-ref :
      (p : Property Float) (st : StructPtr)
      → ref_of p ≡ ""
      → ref_of (set_inline_object go p st) ≡ ""
  unfolding set_type_and_format
  inline-ref (property k al ps ad it) no_struct h = h
  inline-ref (property k al ps ad it) unextracted h = h
  inline-ref (property k al ps ad it) (extracted end) h = h
  inline-ref (property k al ps ad it) (extracted (and_field f fs)) h = h

  by_kind-ref :
      (kd : ShapeKind) (n : String) (elem inline p : Property Float)
      → is_ref kd ≡ false
      → ref_of inline ≡ ""
      → ref_of p ≡ ""
      → ref_of (set_by_kind go kd n elem inline p) ≡ ""
  unfolding set_by_kind
  by_kind-ref unset n elem inline (property k al ps ad it) nr hi h = set_basic-ref go [] n k ∙ h
  by_kind-ref named n elem inline (property k al ps ad it) nr hi h = set_basic-ref go [] n k ∙ h
  by_kind-ref primitive n elem inline (property k al ps ad it) nr hi h = set_basic-ref go [] n k ∙ h
  by_kind-ref unknown n elem inline (property k al ps ad it) nr hi h = set_basic-ref go [] n k ∙ h
  by_kind-ref instantiation n elem inline (property k al ps ad it) nr hi h =
      set_basic-ref go [] n k ∙ h
  by_kind-ref pointer n elem inline (property k al ps ad it) nr hi h = set_basic-ref go [] n k ∙ h
  by_kind-ref slice n elem inline (property k al ps ad it) nr hi h = h
  by_kind-ref array n elem inline (property k al ps ad it) nr hi h = h
  by_kind-ref map_of n elem inline (property k al ps ad it) nr hi h = h
  by_kind-ref kind_only n elem inline (property k al ps ad it) nr hi h = h
  by_kind-ref text n elem inline (property k al ps ad it) nr hi h = h
  by_kind-ref marshaler n elem inline (property k al ps ad it) nr hi h = h
  by_kind-ref recursive n elem inline (property k al ps ad it) nr hi h = h
  by_kind-ref anonymous n elem inline (property k al ps ad it) nr hi h = hi
  by_kind-ref ref n elem inline (property k al ps ad it) nr hi h = absurd cc

  typed-ref :
      (s : TypeShape) (p : Property Float)
      → is_ref (kind (strip_pointers s)) ≡ false
      → ref_of p ≡ ""
      → ref_of (set_type_and_format go p s) ≡ ""
  unfolding set_type_and_format strip_pointers
  typed-ref (type_shape pointer n key (ptr s) i st) p nr h = typed-ref s p nr h
  typed-ref (type_shape pointer n key no_shape i st) p nr h =
      well_known_or-ref (well_known_shape (type_shape pointer n key no_shape i st)) p _ h (
        by_kind-ref pointer n (element_schema go no_shape) (set_inline_object go p st) p nr
          (inline-ref p st h) h)
  typed-ref (type_shape unset n key el i st) p nr h =
      well_known_or-ref (well_known_shape (type_shape unset n key el i st)) p _ h (
        by_kind-ref unset n (element_schema go el) (set_inline_object go p st) p nr
          (inline-ref p st h) h)
  typed-ref (type_shape slice n key el i st) p nr h =
      well_known_or-ref (well_known_shape (type_shape slice n key el i st)) p _ h (
        by_kind-ref slice n (element_schema go el) (set_inline_object go p st) p nr
          (inline-ref p st h) h)
  typed-ref (type_shape array n key el i st) p nr h =
      well_known_or-ref (well_known_shape (type_shape array n key el i st)) p _ h (
        by_kind-ref array n (element_schema go el) (set_inline_object go p st) p nr
          (inline-ref p st h) h)
  typed-ref (type_shape map_of n key el i st) p nr h =
      well_known_or-ref (well_known_shape (type_shape map_of n key el i st)) p _ h (
        by_kind-ref map_of n (element_schema go el) (set_inline_object go p st) p nr
          (inline-ref p st h) h)
  typed-ref (type_shape named n key el i st) p nr h =
      well_known_or-ref (well_known_shape (type_shape named n key el i st)) p _ h (
        by_kind-ref named n (element_schema go el) (set_inline_object go p st) p nr
          (inline-ref p st h) h)
  typed-ref (type_shape primitive n key el i st) p nr h =
      well_known_or-ref (well_known_shape (type_shape primitive n key el i st)) p _ h (
        by_kind-ref primitive n (element_schema go el) (set_inline_object go p st) p nr
          (inline-ref p st h) h)
  typed-ref (type_shape anonymous n key el i st) p nr h =
      well_known_or-ref (well_known_shape (type_shape anonymous n key el i st)) p _ h (
        by_kind-ref anonymous n (element_schema go el) (set_inline_object go p st) p nr
          (inline-ref p st h) h)
  typed-ref (type_shape unknown n key el i st) p nr h =
      well_known_or-ref (well_known_shape (type_shape unknown n key el i st)) p _ h (
        by_kind-ref unknown n (element_schema go el) (set_inline_object go p st) p nr
          (inline-ref p st h) h)
  typed-ref (type_shape instantiation n key el i st) p nr h =
      well_known_or-ref (well_known_shape (type_shape instantiation n key el i st)) p _ h (
        by_kind-ref instantiation n (element_schema go el) (set_inline_object go p st) p nr
          (inline-ref p st h) h)
  typed-ref (type_shape ref n key el i st) p nr h =
      well_known_or-ref (well_known_shape (type_shape ref n key el i st)) p _ h (
        by_kind-ref ref n (element_schema go el) (set_inline_object go p st) p nr
          (inline-ref p st h) h)
  typed-ref (type_shape kind_only n key el i st) p nr h =
      well_known_or-ref (well_known_shape (type_shape kind_only n key el i st)) p _ h (
        by_kind-ref kind_only n (element_schema go el) (set_inline_object go p st) p nr
          (inline-ref p st h) h)
  typed-ref (type_shape marshaler n key el i st) p nr h =
      well_known_or-ref (well_known_shape (type_shape marshaler n key el i st)) p _ h (
        by_kind-ref marshaler n (element_schema go el) (set_inline_object go p st) p nr
          (inline-ref p st h) h)
  typed-ref (type_shape recursive n key el i st) p nr h =
      well_known_or-ref (well_known_shape (type_shape recursive n key el i st)) p _ h (
        by_kind-ref recursive n (element_schema go el) (set_inline_object go p st) p nr
          (inline-ref p st h) h)
  typed-ref (type_shape text n key el i st) p nr h =
      well_known_or-ref (well_known_shape (type_shape text n key el i st)) p _ h (
        by_kind-ref text n (element_schema go el) (set_inline_object go p st) p nr
          (inline-ref p st h) h)

  ref_property-alone :
      (f : FieldInfo) (n raw : String)
      → (ref_of (apply_example go (ref_property f n) raw) ≡ "")
        ⊎ (apply_example go (ref_property f n) raw
            ≡ plain (record no_keywords { ref = ref_path n }))
  unfolding ref_property apply_example
  ref_property-alone f n raw = elim (Bool-cases (is_pointer_field f)) [
    | inl wrapped ↦ inl (apply_example-ref (ref_property f n) raw (rw (wrapped, ref_property) refl))
    | inr direct ↦ elim (Bool-cases (ref_path n == "")) [
      | inl blank ↦
          let blank' = (eq_iff (ref_path n) "").0 blank in
          inl (apply_example-ref (ref_property f n) raw (rw (direct, ref_property) blank'))
      | inr filled ↦
          rw (direct, ref_property)
            (inr (elim (Bool-cases (raw == "")) [
              | inl no_example ↦ rw no_example refl
              | inr given ↦ rw (given, filled) refl
            ]))
    ]
  ]

  abbrev typed_property : FieldInfo → Property Float
  typed_property f = set_type_and_format go (described (tags f).description) (resolved_shape f)

  -- The property of a field has no $ref of its own, or it is a $ref and nothing else: no keyword that
  -- a reader of OpenAPI 3.0 would have to ignore stands beside it.
  pub field_property-alone :
      (f : FieldInfo)
      → (ref_of (field_property go f) ≡ "")
        ⊎ ((n : String) × (field_property go f ≡ plain (record no_keywords { ref = ref_path n })))
  unfolding field_property field_property_by bare_field_property
  field_property-alone f =
      let target = strip_pointers (resolved_shape f) in
      let typer = λ (p : Property Float). set_type_and_format go p (resolved_shape f) in
      elim (Bool-cases (is_ref (kind target))) [
        | inl reference ↦
            rw reference
              (elim (ref_property-alone f (type_name target) (quoted_scalar_example go typer f)) [
                | inl no_ref ↦ inl no_ref
                | inr only ↦ inr (type_name target, only)
              ])
        | inr other ↦ rw other (
            inl (
              apply_example-ref (mark_nullable go f (constrained_property go f (typed_property f)))
                (quoted_scalar_example go typer f)
                (mark_nullable-ref f (constrained_property go f (typed_property f)) (
                  constrained-ref f (typed_property f)
                    (typed-ref (resolved_shape f) (described (tags f).description) other refl)))))
      ]
