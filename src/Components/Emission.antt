-- ===== src/Components/Emission.antt =====
-- Which registry types get a component schema.
use go_bricks_openapi.Prelude.{
  String, ◌≡◌, refl, Bool, true, false, not, ◌&&◌, Option, none, some, List, [], ◌∷◌, arith, In,
  ◌⊎◌, inl, inr, ◌↔◌, one_of, Option-cases, is_some, ◌||◌,
}
use go_bricks_openapi.Prelude.Dict.{Dict, insert, keys, In-keys-insert}
use go_bricks_openapi.Go.{Go}
use go_bricks_openapi.Models.{TypeInfo}
use go_bricks_openapi.Document.{Schema}
use go_bricks_openapi.Operations.Payloads.{schema_name}
use go_bricks_openapi.Components.Schemas.{
  is_params_only_type, has_field, name_of_type, type_info_to_schema, schema_of_type, generate_from,
  generate_schemas_from_types,
}

-- A type is emitted where a $ref names it, or where it has a field that travels in a body.
abbrev pub emits : List String → Option TypeInfo → Bool
emits referenced none = false
emits referenced (some ti) =
    one_of ti.name referenced || has_field ti.fields && not (is_params_only_type (some ti))

abbrev pub SomeEmits : String → List String → Dict (Option TypeInfo) → Type 0
SomeEmits n referenced [] = ⊥
SomeEmits n referenced ((k, ti) ∷ types) =
    ((emits referenced ti ≡ true) × (n ≡ name_of_type ti)) ⊎ SomeEmits n referenced types

module _ (go : Go) where
  schema_of_type-emits :
      (ti : Option TypeInfo) (referenced : List String)
      → is_some (schema_of_type go ti referenced) ≡ emits referenced ti
  unfolding schema_of_type type_info_to_schema schema_name is_params_only_type
  schema_of_type-emits none referenced = refl
  schema_of_type-emits (some ti) referenced = ground arith

  In-keys-generate_from :
      (n : String) (schemas : Dict (Schema go.Float)) (types : Dict (Option TypeInfo))
      (referenced : List String)
      → In n (keys (generate_from go schemas types referenced))
        ↔ (In n (keys schemas) ⊎ SomeEmits n referenced types)
  unfolding generate_from
  In-keys-generate_from n schemas [] referenced = ground arith
  In-keys-generate_from n schemas ((k, ti) ∷ types) referenced =
      elim (Option-cases (schema_of_type go ti referenced)) [
        | inl skipped ↦ rw skipped (
            ground (
              arith,
              skipped,
              schema_of_type-emits ti referenced,
              In-keys-generate_from n schemas types referenced,
            ))
        | inr (s, made) ↦ rw made (
            ground (
              arith,
              made,
              schema_of_type-emits ti referenced,
              In-keys-insert n (name_of_type ti) s schemas,
              In-keys-generate_from n (insert (name_of_type ti) s schemas) types referenced,
            ))
      ]

  -- The names of the generated component schemas are those of the registry's types that a $ref names
  -- or that have a field and are not made of parameters alone (a JOSE payload never is).
  pub generate_schemas_from_types-keys :
      (n : String) (types : Dict (Option TypeInfo)) (referenced : List String)
      → In n (keys (generate_schemas_from_types go types referenced)) ↔ SomeEmits n referenced types
  unfolding generate_schemas_from_types keys
  generate_schemas_from_types-keys n types referenced =
      ground (arith, In-keys-generate_from n [] types referenced)
