-- ===== src/Operations/Replies.antt =====
-- What a route's responses document under every status code.
use go_bricks_openapi.Prelude.{
  or_first, String, ◌≡◌, refl, ◌∙◌, ◌==◌, eq_iff, Option, none, some, List, [], ◌∷◌, arith, ◌≢◌,
  inl, inr, if◌then◌else◌, Option-cases,
}
use go_bricks_openapi.Prelude.Int.{ℤ}
use go_bricks_openapi.Prelude.Dict.{Dict, lookup, insert, lookup-insert}
use go_bricks_openapi.Go.{Go}
use go_bricks_openapi.Go.Strconv.{itoa}
use go_bricks_openapi.Models.{Route}
use go_bricks_openapi.Document.{Property, Response}
use go_bricks_openapi.Operations.Payloads.{ref_to}
use go_bricks_openapi.Operations.Responses.{
  is_no_content, error_schema_name, success_status_code, json_media_ref, response, failure,
  base_error_responses, error_status_description, add_declared, add_declared_error_responses,
  success_response, build_responses,
}

abbrev pub success : Route → String
success r = success_status_code r (is_no_content r.response)

module _ (go : Go) where
  open go use {Float}

  -- The response of the first declared status that prints as `code`.
  abbrev pub declared_at : String → List ℤ → String → Option (Response Float)
  declared_at code [] schema = none
  declared_at code (c ∷ cs) schema =
      if itoa c == code
      then some (response (error_status_description go c) (json_media_ref schema))
      else declared_at code cs schema

  lookup-add_declared :
      (code : String) (rs : Dict (Response Float)) (cs : List ℤ) (schema : String)
      → lookup code (add_declared go rs cs schema)
        ≡ or_first (lookup code rs) (declared_at code cs schema)
  unfolding add_declared
  lookup-add_declared code rs [] schema = ground arith
  lookup-add_declared code rs (c ∷ cs) schema = elim (Option-cases (lookup (itoa c) rs)) [
    | inl new ↦
        rw (new, add_declared)
          (lookup-add_declared code
              (insert (itoa c) (failure schema (error_status_description go c)) rs) cs schema
            ∙ ground (
              arith,
              eq_iff (itoa c) code,
              lookup-insert (itoa c) code (failure schema (error_status_description go c)) rs,
            ))
    | inr (old, there) ↦
        rw (there, add_declared)
          (lookup-add_declared code rs cs schema ∙ ground (arith, eq_iff (itoa c) code))
  ]

  -- The responses of a route, status by status: the success response under the route's success
  -- status, whatever else is documented there; under any other the baseline's error response, and
  -- where there is none that of the first of the route's declared statuses that prints as this one.
  pub build_responses-lookup :
      (r : Route) (code : String)
      → lookup code (build_responses go r) ≡ (
          if success r == code
          then some (success_response go r)
          else or_first
              (lookup code (base_error_responses (error_schema_name r)))
              (declared_at code r.error_statuses (error_schema_name r)))
  unfolding build_responses add_declared_error_responses
  build_responses-lookup r code =
      lookup-insert (success r) code (success_response go r) (
        add_declared go (base_error_responses (error_schema_name r)) r.error_statuses
          (error_schema_name r))
      ∙ rw
          (lookup-add_declared code (base_error_responses (error_schema_name r)) r.error_statuses
            (error_schema_name r))
          refl

  -- The schema under application/json.
  abbrev pub json_schema : Response Float → Option (Property Float)
  json_schema x = lookup "application/json" x.content

  declared_at-json :
      (code : String) (cs : List ℤ) (schema : String) (x : Response Float)
      → declared_at code cs schema ≡ some x
      → json_schema x ≡ some (ref_to schema)
  unfolding lookup json_media_ref
  declared_at-json code [] schema x e = cc
  declared_at-json code (c ∷ cs) schema x e = ground (arith, declared_at-json code cs schema x)

  base-json :
      (code schema : String) (x : Response Float)
      → lookup code (base_error_responses schema) ≡ some x
      → json_schema x ≡ some (ref_to schema)
  unfolding base_error_responses lookup json_media_ref insert
  base-json code schema x e = ground arith

  -- Every response but that of the success status documents, under application/json, a reference to
  -- the route's error schema.
  pub build_responses-errors :
      (r : Route) (code : String) (x : Response Float)
      → success r ≢ code
      → lookup code (build_responses go r) ≡ some x
      → json_schema x ≡ some (ref_to (error_schema_name r))
  build_responses-errors r code x other e =
      let schema = error_schema_name r in
      ground (
        arith,
        eq_iff (success r) code,
        build_responses-lookup r code,
        base-json code schema x,
        declared_at-json code r.error_statuses schema x,
      )
