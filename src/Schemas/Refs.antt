-- ===== src/Schemas/Refs.antt =====
-- Which references a property makes, and that the steps on one property make no new one.
use go_bricks_openapi.Prelude.{
  String, ◌≡◌, refl, ◌==◌, true, not, ◌&&◌, ◌||◌, Option, none, some, List, [], ◌∷◌, arith, In, ◌⊎◌,
  inl, inr, one_of, Bool-cases, is_empty,
}
use go_bricks_openapi.Go.{Go}
use go_bricks_openapi.Models.{FieldInfo, kind, type_name, tags, resolved_shape}
use go_bricks_openapi.Document.{
  Value, Keywords, Property, property, PropertyPtr, no_property, just, AllOf, no_all_of, and_all_of,
  NamedProperties, no_properties, and_property, keywords, set_keywords, plain,
}
use go_bricks_openapi.Constraints.Sets.{constraints_for}
use go_bricks_openapi.Shapes.{takes_no_keyword, is_sequence, is_map, strip_pointers, WellKnownType}
use go_bricks_openapi.Constraints.Bounds.{apply_to, ConstraintSet}
use go_bricks_openapi.Schemas.Examples.{apply_example, coerce_example, stamp}
use go_bricks_openapi.Schemas.Validation.{
  is_quoted_scalar, element_shape, set_items, apply_field_rules, apply_element_rules,
  apply_validation_constraints,
}
use go_bricks_openapi.Schemas.Leaves.{
  ref_path, set_well_known, insert_property, ref_property, is_pointer_field,
  set_basic_type_and_format, described,
}
use go_bricks_openapi.Schemas.Field.{
  is_ref, quoted_scalar_example, constrained_property, mark_nullable, bare_field_property,
  field_property_by,
}

-- The $ref of a schema is unset or that of one of the names.
abbrev pub RefIn : List String → String → Type 0
RefIn ns r = (r ≡ "") ⊎ ((n : String) × In n ns × (r ≡ ref_path n))

-- Every $ref in a property, at any depth, is that of one of the names.
unfoldable mutual
  pub RefsIn : {F : Type 0} → List String → Property F → Type 0
  RefsIn ns (property k al ps ad it) =
      RefIn ns k.ref × AllOfIn ns al × NamedIn ns ps × PtrIn ns ad × PtrIn ns it

  pub PtrIn : {F : Type 0} → List String → PropertyPtr F → Type 0
  PtrIn ns no_property = Unit
  PtrIn ns (just p) = RefsIn ns p

  pub AllOfIn : {F : Type 0} → List String → AllOf F → Type 0
  AllOfIn ns no_all_of = Unit
  AllOfIn ns (and_all_of p al) = RefsIn ns p × AllOfIn ns al

  pub NamedIn : {F : Type 0} → List String → NamedProperties F → Type 0
  NamedIn ns no_properties = Unit
  NamedIn ns (and_property n p ps) = RefsIn ns p × NamedIn ns ps

module _ {F : Type 0} (ns : List String) where
  pub plain-RefsIn : (k : Keywords F) → k.ref ≡ "" → RefsIn ns (plain k)
  unfolding RefsIn
  plain-RefsIn k e = (inl e, tt, tt, tt, tt)

  pub set_keywords-RefsIn :
      (k : Keywords F) (p : Property F)
      → k.ref ≡ (keywords p).ref
      → RefsIn ns p
      → RefsIn ns (set_keywords k p)
  unfolding RefsIn
  set_keywords-RefsIn k' (property k al ps ad it) e (r, al_in, ps_in, ad_in, it_in) =
      (rw e r, al_in, ps_in, ad_in, it_in)

  pub insert_property-NamedIn :
      (n : String) (p : Property F) (ps : NamedProperties F)
      → RefsIn ns p
      → NamedIn ns ps
      → NamedIn ns (insert_property n p ps)
  unfolding RefsIn insert_property
  insert_property-NamedIn n p no_properties h hs = (h, tt)
  insert_property-NamedIn n p (and_property m q ps) h (hq, hs) = elim (Bool-cases (m == n)) [
    | inl same ↦ rw same (h, hs)
    | inr other ↦ rw other (hq, insert_property-NamedIn n p ps h hs)
  ]

  pub set_items-RefsIn :
      (g : Property F → Property F) (p : Property F)
      → ((q : Property F) → RefsIn ns q → RefsIn ns (g q))
      → RefsIn ns p
      → RefsIn ns (set_items g p)
  unfolding RefsIn
  set_items-RefsIn g (property k al ps ad no_property) keep h = h
  set_items-RefsIn g (property k al ps ad (just it)) keep (r, al_in, ps_in, ad_in, it_in) =
      (r, al_in, ps_in, ad_in, keep it it_in)

pub ref_property-RefsIn :
    (F : Type 0) (ns : List String) (f : FieldInfo) (n : String)
    → In n ns
    → RefsIn ns (ref_property {F = F} f n)
unfolding RefsIn ref_property
ref_property-RefsIn F ns f n i = elim (Bool-cases (is_pointer_field f)) [
  | inl pointer ↦ rw pointer (inl refl, ((inr (n, i, refl), tt, tt, tt, tt), tt), tt, tt, tt)
  | inr direct ↦ rw direct (inr (n, i, refl), tt, tt, tt, tt)
]

module _ (go : Go) (ns : List String) where
  open go use {Float}

  pub set_basic-ref :
      (n : String) (k : Keywords Float) → (set_basic_type_and_format go n k).ref ≡ k.ref
  unfolding set_basic_type_and_format
  set_basic-ref n k = elim (Bool-cases (n == "string")) [
    | inl a ↦ rw a refl
    | inr b ↦ rw b (elim (Bool-cases (one_of n ("int8" ∷ "int16" ∷ "int32" ∷ "rune" ∷ []))) [
      | inl a ↦ rw a refl
      | inr b ↦ rw b (elim (Bool-cases (one_of n ("uint8" ∷ "uint16" ∷ "byte" ∷ []))) [
        | inl a ↦ rw a refl
        | inr b ↦ rw b (elim (Bool-cases (one_of n ("int" ∷ "int64" ∷ []))) [
          | inl a ↦ rw a refl
          | inr b ↦ rw b (elim (Bool-cases (one_of n ("uint" ∷ "uint32" ∷ "uint64" ∷ []))) [
            | inl a ↦ rw a refl
            | inr b ↦ rw b (elim (Bool-cases (n == "float32")) [
              | inl a ↦ rw a refl
              | inr b ↦ rw b (elim (Bool-cases (n == "float64")) [
                | inl a ↦ rw a refl
                | inr b ↦ rw b (elim (Bool-cases (n == "bool")) [
                  | inl a ↦ rw a refl
                  | inr b ↦ rw b (elim (Bool-cases (one_of n ("any" ∷ "interface{}" ∷ []))) [
                    | inl a ↦ rw a refl
                    | inr b ↦ rw b (refl)
                  ])
                ])
              ])
            ])
          ])
        ])
      ])
    ])
  ]

  pub set_well_known-ref :
      (wk : WellKnownType) (k : Keywords Float) → (set_well_known wk k).ref ≡ k.ref
  unfolding set_well_known
  set_well_known-ref (t, fmt) k = ground arith

  stamp-ref : (v : Option (Value Float)) (k : Keywords Float) → (stamp go v k).ref ≡ k.ref
  stamp-ref none k = refl
  stamp-ref (some v) k = refl

  apply_to-RefsIn :
      (s : ConstraintSet Float) (p : Property Float)
      → RefsIn ns p
      → RefsIn ns (set_keywords (apply_to go s (keywords p)) p)
  unfolding apply_to
  apply_to-RefsIn s p h = set_keywords-RefsIn ns (apply_to go s (keywords p)) p refl h

  apply_example-RefsIn :
      (p : Property Float) (raw : String) → RefsIn ns p → RefsIn ns (apply_example go p raw)
  unfolding apply_example
  apply_example-RefsIn p raw h = elim (Bool-cases (raw == "" || not ((keywords p).ref == ""))) [
    | inl skip ↦ rw skip h
    | inr write ↦ rw write (
        set_keywords-RefsIn ns (stamp go (coerce_example go raw (keywords p)) (keywords p)) p
          (stamp-ref (coerce_example go raw (keywords p)) (keywords p)) h)
  ]

  apply_field_rules-RefsIn :
      (p : Property Float) (f : FieldInfo) → RefsIn ns p → RefsIn ns (apply_field_rules go p f)
  unfolding apply_field_rules
  apply_field_rules-RefsIn p f h =
      elim (Bool-cases
        (not (is_empty (tags f).constraints) && not (takes_no_keyword (resolved_shape f)))) [
          | inl some_rule ↦
              rw some_rule
                (apply_to-RefsIn (constraints_for go (resolved_shape f) (tags f).constraints) p h)
          | inr nothing ↦ rw nothing h
        ]

  apply_element_rules-RefsIn :
      (p : Property Float) (f : FieldInfo) → RefsIn ns p → RefsIn ns (apply_element_rules go p f)
  unfolding apply_element_rules
  apply_element_rules-RefsIn p f h = elim (Bool-cases (is_empty (tags f).element_constraints)) [
    | inl nothing ↦ rw nothing h
    | inr some_rule ↦ rw some_rule (
        set_items-RefsIn ns _ p
          (λ q k.
            elim (Bool-cases (
              not ((keywords q).ref == "")
              || takes_no_keyword (element_shape (resolved_shape f)))) [
                | inl skip ↦ rw skip k
                | inr write ↦ rw write (
                    apply_to-RefsIn
                      (constraints_for go (element_shape (resolved_shape f))
                        (tags f).element_constraints)
                      q k)
              ])
          h)
  ]

  constrained_property-RefsIn :
      (f : FieldInfo) (p : Property Float) → RefsIn ns p → RefsIn ns (constrained_property go f p)
  unfolding constrained_property apply_validation_constraints
  constrained_property-RefsIn f p h = elim (Bool-cases (is_quoted_scalar f p)) [
    | inl quoted ↦ rw quoted (plain-RefsIn ns _ refl)
    | inr direct ↦
        rw direct
          (apply_element_rules-RefsIn (apply_field_rules go p f) f (apply_field_rules-RefsIn p f h))
  ]

  mark_nullable-RefsIn :
      (f : FieldInfo) (p : Property Float) → RefsIn ns p → RefsIn ns (mark_nullable go f p)
  unfolding mark_nullable
  mark_nullable-RefsIn f p h =
      elim (Bool-cases (
        is_pointer_field f
        && not (is_sequence (strip_pointers (resolved_shape f)))
        && not (is_map (kind (strip_pointers (resolved_shape f))))
        && not ((keywords p).typ == ""))) [
          | inl pointer ↦
              rw pointer (set_keywords-RefsIn ns (record (keywords p) { nullable = true }) p refl h)
          | inr direct ↦ rw direct h
        ]

  -- The property of a field, where the shape's own schema refers to the names alone and a shape that
  -- is a reference is to one of them.
  pub field_property_by-RefsIn :
      (typer : Property Float → Property Float) (f : FieldInfo)
      → ((p : Property Float) → RefsIn ns p → RefsIn ns (typer p))
      → (is_ref (kind (strip_pointers (resolved_shape f))) ≡ true
          → In (type_name (strip_pointers (resolved_shape f))) ns)
      → RefsIn ns (field_property_by go typer f)
  unfolding field_property_by bare_field_property
  field_property_by-RefsIn typer f keep named =
      apply_example-RefsIn (bare_field_property go typer f) (quoted_scalar_example go typer f)
        (elim (Bool-cases (is_ref (kind (strip_pointers (resolved_shape f))))) [
          | inl is_one ↦ rw is_one (
              ref_property-RefsIn Float ns f (type_name (strip_pointers (resolved_shape f)))
                (named is_one))
          | inr is_none ↦ rw is_none (
              mark_nullable-RefsIn f
                (constrained_property go f (typer (described (tags f).description)))
                (constrained_property-RefsIn f (typer (described (tags f).description))
                  (keep (described (tags f).description) (plain-RefsIn ns _ refl))))
        ])
