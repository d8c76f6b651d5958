-- ===== src/Components/Closed.antt =====
-- The names that the component schemas refer to are among the referenced ones.
use go_bricks_openapi.Prelude.{String, ◌≡◌, ap, Option, none, some, List, [], ◌∷◌, In, inl, inr}
use go_bricks_openapi.Prelude.Dict.{Dict}
use go_bricks_openapi.Go.{Go}
use go_bricks_openapi.Models.{TypeInfo, Route}
use go_bricks_openapi.Document.{no_properties}
use go_bricks_openapi.Schemas.Typing.{object_properties}
use go_bricks_openapi.Schemas.Refs.{RefsIn, NamedIn}
use go_bricks_openapi.Components.Names.{
  add_routes, add_field_ref_names, add_field_schema_refs, referenced_schema_names,
}
use go_bricks_openapi.Components.Grow.{Within, grow_fields}
use go_bricks_openapi.Components.Covered.{fields-NamedIn}

grow_types :
    (out : List String) (types : Dict (Option TypeInfo))
    → Within out (add_field_schema_refs out types)
unfolding add_field_schema_refs
grow_types out [] n i = i
grow_types out ((k, none) ∷ types) n i = grow_types out types n i
grow_types out ((k, some ti) ∷ types) n i =
    grow_types (add_field_ref_names out ti.fields) types n (grow_fields out ti.fields n i)

module _ (go : Go) (ti : TypeInfo) where
  -- The entry of a type in the registry adds the names of its fields.
  entry-Within :
      (k : String) (out : List String) (types : Dict (Option TypeInfo))
      → In (k, some ti) types
      → (before : List String) × Within
          (add_field_ref_names before ti.fields)
          (add_field_schema_refs out types)
  unfolding add_field_schema_refs
  entry-Within k out [] i = absurd i
  entry-Within k out ((j, none) ∷ types) (inl e) = let t = ap (λ x. x.1) e in absurd cc
  entry-Within k out ((j, none) ∷ types) (inr i) = entry-Within k out types i
  entry-Within k out ((j, some ti') ∷ types) (inl e) =
      let t = ap (λ x. x.1) e in
      let same : ti ≡ ti' = cc t in
      (out, rw same (grow_types (add_field_ref_names out ti'.fields) types))
  entry-Within k out ((j, some ti') ∷ types) (inr i) =
      entry-Within k (add_field_ref_names out ti'.fields) types i

  -- Every $ref, at any depth, in the component schema of a type of the registry is that of a name that
  -- referencedSchemaNames returns, whatever the routes are.
  pub referenced_schema_names-NamedIn :
      (k : String) (rs : List Route) (types : Dict (Option TypeInfo))
      → In (k, some ti) types
      → NamedIn (referenced_schema_names rs types) (object_properties go ti.fields).0
  unfolding referenced_schema_names object_properties RefsIn
  referenced_schema_names-NamedIn k rs types i =
      let (before, within) = entry-Within k (add_routes [] rs) types i in
      fields-NamedIn go (referenced_schema_names rs types) before ti.fields (no_properties, [])
        within tt
