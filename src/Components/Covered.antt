-- ===== src/Components/Covered.antt =====
-- addRefNames collects every name that the schema of a shape refers to.
use go_bricks_openapi.Prelude.{
  String, refl, Option, none, some, List, [], In, inl, inr, Option-cases,
}
use go_bricks_openapi.Go.{Go}
use go_bricks_openapi.Models.{
  unset, pointer, slice, array, map_of, named, primitive, anonymous, unknown, instantiation, ref,
  kind_only, marshaler, recursive, text, TypeShape, type_shape, ShapePtr, no_shape, ptr, StructPtr,
  no_struct, unextracted, extracted, Fields, end, and_field, FieldInfo, field_info, resolved_shape,
}
use go_bricks_openapi.Document.{Property, property, keywords, set_keywords}
use go_bricks_openapi.Shapes.{WellKnownType, well_known_shape}
use go_bricks_openapi.Schemas.Leaves.{
  empty_property, property_name, set_well_known, set_by_kind, set_basic_type_and_format,
}
use go_bricks_openapi.Schemas.Typing.{
  Collected, collect, as_object, well_known_or, set_type_and_format, element_schema,
  set_inline_object, object_properties_from,
}
use go_bricks_openapi.Schemas.Refs.{
  RefsIn, NamedIn, set_keywords-RefsIn, insert_property-NamedIn, set_basic-ref, set_well_known-ref,
  field_property_by-RefsIn,
}
use go_bricks_openapi.Components.Names.{
  add_ref_names, add_ptr_ref_names, add_inline_ref_names, add_field_ref_names,
}
use go_bricks_openapi.Components.Grow.{Within, grow_fields, strip_pointers-named}

empty-RefsIn : (ns : List String) (F : Type 0) → RefsIn ns (empty_property {F = F})
unfolding RefsIn
empty-RefsIn ns F = (inl refl, tt, tt, tt, tt)

module _ (go : Go) (ns : List String) where
  open go use {Float}

  well_known_or-RefsIn :
      (wk : Option WellKnownType) (p q : Property Float)
      → RefsIn ns p
      → RefsIn ns q
      → RefsIn ns (well_known_or wk p q)
  well_known_or-RefsIn none p q hp hq = hq
  well_known_or-RefsIn (some wk) p q hp hq =
      set_keywords-RefsIn ns (set_well_known wk (keywords p)) p
        (set_well_known-ref go ns wk (keywords p)) hp

  basic-RefsIn :
      (n : String) (p : Property Float)
      → RefsIn ns p
      → RefsIn ns (set_keywords (set_basic_type_and_format go n (keywords p)) p)
  basic-RefsIn n p h =
      set_keywords-RefsIn ns (set_basic_type_and_format go n (keywords p)) p
        (set_basic-ref go ns n (keywords p)) h

  array-RefsIn :
      (m : String) (elem inline p : Property Float)
      → RefsIn ns elem
      → RefsIn ns p
      → RefsIn ns (set_by_kind go slice m elem inline p)
        × RefsIn ns (set_by_kind go array m elem inline p)
        × RefsIn ns (set_by_kind go map_of m elem inline p)
  unfolding set_by_kind RefsIn
  array-RefsIn m elem inline (property k al ps ad it) he (r, al_in, ps_in, ad_in, it_in) =
      ((r, al_in, ps_in, ad_in, he), (r, al_in, ps_in, ad_in, he), (r, al_in, ps_in, he, it_in))

  named-RefsIn :
      (m : String) (elem inline p : Property Float)
      → In m ns
      → RefsIn ns p
      → RefsIn ns (set_by_kind go ref m elem inline p)
  unfolding set_by_kind RefsIn
  named-RefsIn m elem inline (property k al ps ad it) i (r, al_in, ps_in, ad_in, it_in) =
      (inr (m, i, refl), al_in, ps_in, ad_in, it_in)

  as_object-RefsIn :
      (c : Collected Float) (p : Property Float)
      → NamedIn ns c.0
      → RefsIn ns p
      → RefsIn ns (as_object c p)
  unfolding RefsIn
  as_object-RefsIn (ps', rs') (property k al ps ad it) hc (r, al_in, ps_in, ad_in, it_in) =
      (r, al_in, hc, ad_in, it_in)

  collect-NamedIn :
      (f : FieldInfo) (p : Property Float) (acc : Collected Float)
      → RefsIn ns p
      → NamedIn ns acc.0
      → NamedIn ns (collect f p acc).0
  collect-NamedIn f p (ps, rs) hp hs = elim (Option-cases (property_name f)) [
    | inl left_out ↦ rw (left_out, collect) hs
    | inr (n, kept) ↦ rw (kept, collect) (insert_property-NamedIn ns n p ps hp hs)
  ]

  mutual
    unfolding add_ref_names set_type_and_format set_by_kind resolved_shape RefsIn

    shape-RefsIn :
        (out : List String) (s : TypeShape) (p : Property Float)
        → Within (add_ref_names out s) ns
        → RefsIn ns p
        → RefsIn ns (set_type_and_format go p s)
    shape-RefsIn out (type_shape pointer m key (ptr s) i st) p w h = shape-RefsIn out s p w h
    shape-RefsIn out (type_shape pointer m key no_shape i st) p w h =
        well_known_or-RefsIn (well_known_shape (type_shape pointer m key no_shape i st)) p _ h
          (basic-RefsIn m p h)
    shape-RefsIn out (type_shape slice m key el i st) p w h =
        well_known_or-RefsIn (well_known_shape (type_shape slice m key el i st)) p _ h (
          (array-RefsIn m (element_schema go el) (set_inline_object go p st) p
            (element-RefsIn out el w) h).0)
    shape-RefsIn out (type_shape array m key el i st) p w h =
        well_known_or-RefsIn (well_known_shape (type_shape array m key el i st)) p _ h (
          (array-RefsIn m (element_schema go el) (set_inline_object go p st) p
            (element-RefsIn out el w) h).1)
    shape-RefsIn out (type_shape map_of m key el i st) p w h =
        well_known_or-RefsIn (well_known_shape (type_shape map_of m key el i st)) p _ h (
          (array-RefsIn m (element_schema go el) (set_inline_object go p st) p
            (element-RefsIn out el w) h).2)
    shape-RefsIn out (type_shape ref m key el i st) p w h =
        well_known_or-RefsIn (well_known_shape (type_shape ref m key el i st)) p _ h
          (named-RefsIn m (element_schema go el) (set_inline_object go p st) p (w m (inl refl)) h)
    shape-RefsIn out (type_shape anonymous m key el i st) p w h =
        well_known_or-RefsIn (well_known_shape (type_shape anonymous m key el i st)) p _ h
          (inline-RefsIn out st p w h)
    shape-RefsIn out (type_shape unset m key el i st) p w h =
        well_known_or-RefsIn (well_known_shape (type_shape unset m key el i st)) p _ h
          (basic-RefsIn m p h)
    shape-RefsIn out (type_shape named m key el i st) p w h =
        well_known_or-RefsIn (well_known_shape (type_shape named m key el i st)) p _ h
          (basic-RefsIn m p h)
    shape-RefsIn out (type_shape primitive m key el i st) p w h =
        well_known_or-RefsIn (well_known_shape (type_shape primitive m key el i st)) p _ h
          (basic-RefsIn m p h)
    shape-RefsIn out (type_shape unknown m key el i st) p w h =
        well_known_or-RefsIn (well_known_shape (type_shape unknown m key el i st)) p _ h
          (basic-RefsIn m p h)
    shape-RefsIn out (type_shape instantiation m key el i st) p w h =
        well_known_or-RefsIn (well_known_shape (type_shape instantiation m key el i st)) p _ h
          (basic-RefsIn m p h)
    shape-RefsIn out (type_shape kind_only m key el i st) p w h =
        well_known_or-RefsIn (well_known_shape (type_shape kind_only m key el i st)) p _ h
          (set_keywords-RefsIn ns _ p refl h)
    shape-RefsIn out (type_shape text m key el i st) p w h =
        well_known_or-RefsIn (well_known_shape (type_shape text m key el i st)) p _ h
          (set_keywords-RefsIn ns _ p refl h)
    shape-RefsIn out (type_shape marshaler m key el i st) p w h =
        well_known_or-RefsIn (well_known_shape (type_shape marshaler m key el i st)) p _ h (h)
    shape-RefsIn out (type_shape recursive m key el i st) p w h =
        well_known_or-RefsIn (well_known_shape (type_shape recursive m key el i st)) p _ h (h)

    element-RefsIn :
        (out : List String) (s : ShapePtr)
        → Within (add_ptr_ref_names out s) ns
        → RefsIn ns (element_schema go s)
    element-RefsIn out no_shape w = empty-RefsIn ns Float
    element-RefsIn out (ptr s) w = shape-RefsIn out s empty_property w (empty-RefsIn ns Float)

    inline-RefsIn :
        (out : List String) (st : StructPtr) (p : Property Float)
        → Within (add_inline_ref_names out st) ns
        → RefsIn ns p
        → RefsIn ns (set_inline_object go p st)
    inline-RefsIn out no_struct p w h = set_keywords-RefsIn ns _ p refl h
    inline-RefsIn out unextracted p w h = set_keywords-RefsIn ns _ p refl h
    inline-RefsIn out (extracted end) p w h = set_keywords-RefsIn ns _ p refl h
    inline-RefsIn out (extracted (and_field f fs)) p w h =
        as_object-RefsIn _ p (fields-NamedIn out (and_field f fs) (_, []) w tt) h

    pub fields-NamedIn :
        (out : List String) (fs : Fields) (acc : Collected Float)
        → Within (add_field_ref_names out fs) ns
        → NamedIn ns acc.0
        → NamedIn ns (object_properties_from go acc fs).0
    fields-NamedIn out end acc w h = h
    fields-NamedIn out (and_field (field_info t sh no_shape) fs) acc w h =
        fields-NamedIn (add_ref_names out sh) fs _ w (
          collect-NamedIn (field_info t sh no_shape) _ acc
            (field_property_by-RefsIn go ns _ (field_info t sh no_shape)
              (λ p k.
                shape-RefsIn out sh p (λ n i. w n (grow_fields (add_ref_names out sh) fs n i)) k)
              (λ e. w _ (grow_fields (add_ref_names out sh) fs _ (strip_pointers-named out sh e))))
            h)
    fields-NamedIn out (and_field (field_info t sh (ptr r)) fs) acc w h =
        fields-NamedIn (add_ref_names out r) fs _ w (
          collect-NamedIn (field_info t sh (ptr r)) _ acc
            (field_property_by-RefsIn go ns _ (field_info t sh (ptr r))
              (λ p k.
                shape-RefsIn out r p (λ n i. w n (grow_fields (add_ref_names out r) fs n i)) k)
              (λ e. w _ (grow_fields (add_ref_names out r) fs _ (strip_pointers-named out r e))))
            h)

-- Every $ref, at any depth, in the schema that setTypeAndFormat builds for a shape is that of a name
-- that addRefNames collects from the shape.
pub set_type_and_format-RefsIn :
    (go : Go) (s : TypeShape)
    → RefsIn (add_ref_names [] s) (set_type_and_format go empty_property s)
set_type_and_format-RefsIn go s =
    shape-RefsIn go (add_ref_names [] s) [] s empty_property (λ n i. i)
      (empty-RefsIn (add_ref_names [] s) go.Float)
