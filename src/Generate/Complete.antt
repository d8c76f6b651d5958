-- ===== src/Generate/Complete.antt =====
-- Generate ends with a document, whose operation ids differ and whose error schemas are there.
use go_bricks_openapi.Prelude.{
  String, ◌≡◌, refl, ap, some, List, [], ◌∷◌, arith, In, ◌⊎◌, inl, inr, ◌↔◌, ◌≢◌,
}
use go_bricks_openapi.Prelude.Dict.{Dict, lookup, insert, keys, In-keys-insert}
use go_bricks_openapi.Go.{Go}
use go_bricks_openapi.Models.{Route, Project}
use go_bricks_openapi.Document.{Schema, Response}
use go_bricks_openapi.Routes.Emitted.{get_all_routes, emitted_routes, route_key}
use go_bricks_openapi.Routes.Ids.{assign_operation_ids, get_operation_id}
use go_bricks_openapi.Routes.First.{first_of, emitted_routes-First}
use go_bricks_openapi.Routes.Unique.{assign_operation_ids-All, assign_operation_ids_unique}
use go_bricks_openapi.Operations.Payloads.{ref_to}
use go_bricks_openapi.Operations.Responses.{error_schema_name}
use go_bricks_openapi.Operations.Responses.{build_responses}
use go_bricks_openapi.Operations.Replies.{success, json_schema, build_responses-errors}
use go_bricks_openapi.Operations.Paths.{build_paths}
use go_bricks_openapi.Components.Schemas.{generate_schemas_from_types}
use go_bricks_openapi.Components.Names.{referenced_schema_names}
use go_bricks_openapi.Components.Present.{SomeMentions, create_standard_schemas-Mentions}
use go_bricks_openapi.Components.Emission.{SomeEmits, generate_schemas_from_types-keys}
use go_bricks_openapi.Generate.{
  OpenApiGenerator, Document, copy_into, types_of, schemas_of, document_of, generate,
}

In-keys-copy_into {ℓ} :
    {V : Type ℓ} (n : String) (dst src : Dict V)
    → In n (keys (copy_into dst src)) ↔ (In n (keys dst) ⊎ In n (keys src))
unfolding copy_into keys
In-keys-copy_into n dst [] = ground arith
In-keys-copy_into n dst ((k, v) ∷ src) =
    ground (arith, In-keys-copy_into n (insert k v dst) src, In-keys-insert n k v dst)

SomeMentions-error : (r : Route) (rs : List Route) → In r rs → SomeMentions (error_schema_name r) rs
SomeMentions-error r [] i = absurd i
SomeMentions-error r (s ∷ rs) (inl e) = inl (inl (ap error_schema_name e))
SomeMentions-error r (s ∷ rs) (inr i) = inr (SomeMentions-error r rs i)

module _ (go : Go) (p : Project) where
  abbrev pub emitted : List Route
  emitted = emitted_routes go (get_all_routes p)

  abbrev pub referenced : List String
  referenced = referenced_schema_names emitted (types_of go p)

  -- schemas_of ends.
  schemas_of-keys :
      (out : Dict (Schema go.Float)) × (schemas_of go p emitted ≡ some out)
      × ((n : String)
          → In n (keys out) ↔ (SomeMentions n emitted ⊎ SomeEmits n referenced (types_of go p)))
  unfolding schemas_of
  schemas_of-keys =
      let (standard, run, same) = create_standard_schemas-Mentions go.Float emitted in
      let types = generate_schemas_from_types go (types_of go p) referenced in
      (
        copy_into standard types,
        rw run refl,
        λ n. ground (
          arith,
          same n,
          In-keys-copy_into n standard types,
          generate_schemas_from_types-keys go n (types_of go p) referenced,
        ),
      )

  same_key : (r s : Route) → In r emitted → In s emitted → route_key go r ≡ route_key go s → r ≡ s
  same_key r s i j e =
      let (first, once) = emitted_routes-First go (get_all_routes p) in
      let found_r = (first r).0 i in
      let found_s = (first s).0 j in
      cc (found_r, found_s, ap (λ k. first_of go k (get_all_routes p)) e)

  -- Two routes that are emitted are given the same operation id only where they are the same route.
  pub emitted-unique_ids :
      (ids : Dict String) (r s : Route)
      → assign_operation_ids go emitted ≡ some ids
      → In r emitted
      → In s emitted
      → get_operation_id go r ids ≡ get_operation_id go s ids
      → r ≡ s
  emitted-unique_ids ids r s run i j e =
      same_key r s i j (assign_operation_ids_unique go emitted ids r s run i j e)

module _ (go : Go) (g : OpenApiGenerator) (p : Project) where
  -- Generate always ends with a document: the fuel of the ids and the standard builders suffice. Its
  -- paths are built with the ids that assignOperationIDs gives the emitted routes, and the names of
  -- its component schemas are the standard ones that the responses of those routes mention and those
  -- of the registry's types that generateSchemasFromTypes emits, with none lost or added.
  pub generate-Complete :
      (doc : Document go.Float) × (ids : Dict String) × (generate go g p ≡ some doc)
      × (assign_operation_ids go (emitted go p) ≡ some ids)
      × (doc.paths ≡ build_paths go g.tenant_auth ids (emitted go p))
      × ((n : String)
          → In n (keys doc.schemas)
            ↔ (SomeMentions n (emitted go p) ⊎ SomeEmits n (referenced go p) (types_of go p)))
  unfolding generate
  generate-Complete =
      let (ids, assigned, covered) = assign_operation_ids-All go (emitted go p) in
      let (schemas, merged, names) = schemas_of-keys go p in
      let paths = build_paths go g.tenant_auth ids (emitted go p) in
      (document_of go g p paths schemas, ids, rw (assigned, merged) refl, assigned, refl, names)

  -- The document has the schema that the responses of an emitted route refer to under every status
  -- but the success one: each such response has, under application/json, a reference to a component
  -- schema of the document.
  pub generate-error_schemas :
      (doc : Document go.Float) (r : Route) (code : String) (x : Response go.Float)
      → generate go g p ≡ some doc
      → In r (emitted go p)
      → success r ≢ code
      → lookup code (build_responses go r) ≡ some x
      → (n : String) × (json_schema go x ≡ some (ref_to n)) × In n (keys doc.schemas)
  generate-error_schemas doc r code x done i other e =
      let (doc', ids, run, assigned, paths, names) = generate-Complete in
      let same_doc : doc' ≡ doc = cc (run, done) in
      let there = (names (error_schema_name r)).1 (inl (SomeMentions-error r (emitted go p) i)) in
      (error_schema_name r, build_responses-errors go r code x other e, rw same_doc at there)
