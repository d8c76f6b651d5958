-- ===== src/Schemas/Required.antt =====
-- The required list of an object schema, and the properties that it has.
use go_bricks_openapi.Prelude.{
  String, ◌≡◌, eq_iff, true, some, List, [], ◌∷◌, ◌++◌, arith, In, ◌⊎◌, inl, inr, ◌↔◌, Option-cases,
}
use go_bricks_openapi.Prelude.Sort.{In-sort_strings}
use go_bricks_openapi.Go.{Go}
use go_bricks_openapi.Models.{Fields, end, and_field, FieldInfo, field_info, no_shape, ptr, tags}
use go_bricks_openapi.Document.{Property, NamedProperties, no_properties, and_property}
use go_bricks_openapi.Schemas.Leaves.{property_name, insert_property}
use go_bricks_openapi.Schemas.Field.{field_property_by}
use go_bricks_openapi.Schemas.Typing.{
  Collected, collect, set_type_and_format, object_properties_from, object_properties,
}

-- The names of the properties.
abbrev pub names : {F : Type 0} → NamedProperties F → List String
names no_properties = []
names (and_property n p ps) = n ∷ names ps

In-insert_property :
    {F : Type 0} (m n : String) (p : Property F) (ps : NamedProperties F)
    → In m (names (insert_property n p ps)) ↔ ((m ≡ n) ⊎ In m (names ps))
unfolding insert_property
In-insert_property m n p no_properties = ((λ i. i), (λ i. i))
In-insert_property m n p (and_property k q ps) =
    ground (arith, eq_iff k n, In-insert_property m n p ps)

-- A field that becomes a property of this name; a required one if asked for.
abbrev pub Gives : String → FieldInfo → Type 0
Gives n f = property_name f ≡ some n

abbrev pub SomeGives : String → Fields → Type 0
SomeGives n end = ⊥
SomeGives n (and_field f fs) = Gives n f ⊎ SomeGives n fs

abbrev pub SomeRequires : String → Fields → Type 0
SomeRequires n end = ⊥
SomeRequires n (and_field f fs) = (Gives n f × ((tags f).required ≡ true)) ⊎ SomeRequires n fs

collect-names :
    {F : Type 0} (n : String) (f : FieldInfo) (p : Property F) (acc : Collected F)
    → In n (names (collect f p acc).0) ↔ (In n (names acc.0) ⊎ Gives n f)
collect-names n f p (ps, rs) = elim (Option-cases (property_name f)) [
  | inl left_out ↦ rw (left_out, collect) (ground arith)
  | inr (m, kept) ↦ rw (kept, collect) (ground (arith, In-insert_property n m p ps))
]

In-snoc : (n m : String) (rs : List String) → In n (rs ++ m ∷ []) ↔ (In n rs ⊎ (n ≡ m))
In-snoc n m [] = ground arith
In-snoc n m (r ∷ rs) = ground (arith, In-snoc n m rs)

collect_required :
    {F : Type 0} (n : String) (f : FieldInfo) (p : Property F) (acc : Collected F)
    → In n (collect f p acc).1 ↔ (In n acc.1 ⊎ (Gives n f × ((tags f).required ≡ true)))
collect_required n f p (ps, rs) = elim (Option-cases (property_name f)) [
  | inl left_out ↦ rw (left_out, collect) (ground arith)
  | inr (m, kept) ↦ rw (kept, collect) (ground (arith, In-snoc n m rs))
]

module _ (go : Go) where
  open go use {Float}

  -- The properties and the required names that the loop of objectProperties collects.
  from-names :
      (n : String) (fs : Fields) (acc : Collected Float)
      → In n (names (object_properties_from go acc fs).0) ↔ (In n (names acc.0) ⊎ SomeGives n fs)
  unfolding set_type_and_format
  from-names n end acc = ground arith
  from-names n (and_field (field_info t sh no_shape) fs) acc =
      let f = field_info t sh no_shape in
      let p = field_property_by go (λ q. set_type_and_format go q sh) f in
      ground (arith, collect-names n f p acc, from-names n fs (collect f p acc))
  from-names n (and_field (field_info t sh (ptr r)) fs) acc =
      let f = field_info t sh (ptr r) in
      let p = field_property_by go (λ q. set_type_and_format go q r) f in
      ground (arith, collect-names n f p acc, from-names n fs (collect f p acc))

  from-required :
      (n : String) (fs : Fields) (acc : Collected Float)
      → In n (object_properties_from go acc fs).1 ↔ (In n acc.1 ⊎ SomeRequires n fs)
  unfolding set_type_and_format
  from-required n end acc = ground arith
  from-required n (and_field (field_info t sh no_shape) fs) acc =
      let f = field_info t sh no_shape in
      let p = field_property_by go (λ q. set_type_and_format go q sh) f in
      ground (arith, collect_required n f p acc, from-required n fs (collect f p acc))
  from-required n (and_field (field_info t sh (ptr r)) fs) acc =
      let f = field_info t sh (ptr r) in
      let p = field_property_by go (λ q. set_type_and_format go q r) f in
      ground (arith, collect_required n f p acc, from-required n fs (collect f p acc))

  -- An object schema has a property for exactly the names that propertyName gives its fields, and its
  -- required list has exactly the names that it gives the required ones.
  pub object_properties-names :
      (fs : Fields) (n : String)
      → (In n (names (object_properties go fs).0) ↔ SomeGives n fs)
        × (In n (object_properties go fs).1 ↔ SomeRequires n fs)
  unfolding object_properties
  object_properties-names fs n =
      let acc = object_properties_from go (no_properties, []) fs in
      (
        ground (arith, from-names n fs (no_properties, [])),
        ground (arith, from-required n fs (no_properties, []), In-sort_strings n acc.1),
      )
