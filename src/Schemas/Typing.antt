-- ===== src/Schemas/Typing.antt =====
-- setTypeAndFormat, setInlineObject and objectProperties, which call one another along a shape.
-- The pointers of a shape are shed one by one, as stripPointers does at once.
use go_bricks_openapi.Prelude.{String, Option, none, some, List, [], ◌∷◌, ◌++◌, if◌then◌else◌}
use go_bricks_openapi.Prelude.Sort.{sort_strings}
use go_bricks_openapi.Go.{Go}
use go_bricks_openapi.Models.{
  pointer, TypeShape, type_shape, ShapePtr, no_shape, ptr, StructPtr, no_struct, unextracted,
  extracted, Fields, end, and_field, FieldInfo, field_info, tags, resolved_shape,
}
use go_bricks_openapi.Document.{
  Property, property, NamedProperties, no_properties, keywords, set_keywords,
}
use go_bricks_openapi.Shapes.{WellKnownType, well_known_shape}
use go_bricks_openapi.Schemas.Leaves.{
  property_name, empty_property, set_well_known, insert_property, set_by_kind,
}
use go_bricks_openapi.Schemas.Field.{field_property_by}

-- props and required of objectProperties.
abbrev pub Collected : Type 0 → Type 0
Collected F = NamedProperties F × List String

module _ {F : Type 0} where
  abbrev pub sorted : Collected F → Collected F
  sorted (ps, rs) = (ps, sort_strings rs)

  -- One round of the loop of objectProperties, given the field's property.
  abbrev pub collect : FieldInfo → Property F → Collected F → Collected F
  collect f p (ps, rs) = elim (property_name f) [
    | none ↦ (ps, rs)
    | some n ↦ (insert_property n p ps, (if (tags f).required then rs ++ n ∷ [] else rs))
  ]

  -- prop.Type = object, with the properties and the required list of the struct's fields.
  abbrev pub as_object : Collected F → Property F → Property F
  as_object (ps', rs') (property k al ps ad it) =
      property (record k { typ = "object"; required = rs' }) al ps' ad it

  abbrev pub as_bare_object : Property F → Property F
  as_bare_object p = set_keywords (record (keywords p) { typ = "object" }) p

  abbrev pub well_known_or : Option WellKnownType → Property F → Property F → Property F
  well_known_or (some wk) p q = set_keywords (set_well_known wk (keywords p)) p
  well_known_or none p q = q

module _ (go : Go) where
  open go use {Float}

  unfoldable mutual
    pub set_type_and_format : Property Float → TypeShape → Property Float
    set_type_and_format p (type_shape pointer n key (ptr s) i st) = set_type_and_format p s
    set_type_and_format p (type_shape k n key el i st) =
        well_known_or (well_known_shape (type_shape k n key el i st)) p
          (set_by_kind go k n (element_schema el) (set_inline_object p st) p)

    -- The fresh property under Items or AdditionalProperties.
    pub element_schema : ShapePtr → Property Float
    element_schema no_shape = empty_property
    element_schema (ptr s) = set_type_and_format empty_property s

    pub set_inline_object : Property Float → StructPtr → Property Float
    set_inline_object p no_struct = as_bare_object p
    set_inline_object p unextracted = as_bare_object p
    set_inline_object p (extracted end) = as_bare_object p
    set_inline_object p (extracted (and_field f fs)) =
        as_object (sorted (object_properties_from (no_properties, []) (and_field f fs))) p

    pub object_properties_from : Collected Float → Fields → Collected Float
    object_properties_from acc end = acc
    object_properties_from acc (and_field (field_info t sh no_shape) fs) =
        object_properties_from
          (collect (field_info t sh no_shape)
            (field_property_by go (λ p. set_type_and_format p sh) (field_info t sh no_shape)) acc)
          fs
    object_properties_from acc (and_field (field_info t sh (ptr r)) fs) =
        object_properties_from
          (collect (field_info t sh (ptr r))
            (field_property_by go (λ p. set_type_and_format p r) (field_info t sh (ptr r))) acc)
          fs

  unfoldable pub object_properties : Fields → Collected Float
  object_properties fs = sorted (object_properties_from (no_properties, []) fs)

  unfoldable pub field_property : FieldInfo → Property Float
  field_property f = field_property_by go (λ p. set_type_and_format p (resolved_shape f)) f
