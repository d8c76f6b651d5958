-- ===== src/Components/Standard.antt =====
-- The standard schemas (successResponseSchema to rawErrorResponseSchema) and createStandardSchemas.
use go_bricks_openapi.Prelude.{String, ◌&&◌, Option, none, some, List, [], ◌∷◌, ◌==◌, if◌then◌else◌}
use go_bricks_openapi.Prelude.Int.{pos}
use go_bricks_openapi.Prelude.Dict.{Dict, insert}
use go_bricks_openapi.Go.Strings.{str_append}
use go_bricks_openapi.Models.{Route}
use go_bricks_openapi.Document.{
  no_keywords, Property, property, no_property, just, no_all_of, NamedProperties, no_properties,
  and_property, Schema, plain,
}
use go_bricks_openapi.Operations.Payloads.{typed_note, object_of, meta_envelope_schema}
use go_bricks_openapi.Operations.Responses.{
  is_jose, jose_auth_failure_codes, error_schema_name, success_plaintext_schema,
}

module _ {F : Type 0} where
  abbrev pub object_schema : NamedProperties F → List String → Schema F
  object_schema ps rs = record { typ = "object"; properties = ps; required = rs; description = "" }

  abbrev noted_object : String → NamedProperties F → Property F
  noted_object d ps =
      property (record no_keywords { typ = "object"; description = d }) no_all_of ps no_property
        no_property

  unfoldable pub success_response_schema : Schema F
  success_response_schema =
      object_schema
        (and_property "data" (typed_note "object" "Response data")
          (and_property "meta" meta_envelope_schema no_properties))
        []

  abbrev validation_error : Property F
  validation_error = object_of (
      and_property "field" (typed_note "string" "Field that failed validation") (
        and_property "message" (typed_note "string" "Violated validation rule") (
          and_property "value"
            (plain (record no_keywords { description = "Submitted value (any type)" }))
            no_properties)))

  -- At most 100 items, maxValidationErrorItems.
  abbrev validation_errors : Property F
  validation_errors =
      property
        (record no_keywords {
          typ = "array";
          max_items = some (pos 100);
          description = "Per-field validation failures (400 validation errors)";
        })
        no_all_of no_properties no_property (just validation_error)

  unfoldable pub error_response_schema : Schema F
  error_response_schema =
      object_schema
        (and_property "error"
          (noted_object "Error details" (
            and_property "code"
              (typed_note "string"
                "Machine-readable error code (e.g. BAD_REQUEST, NOT_FOUND, INTERNAL_ERROR, or a custom business code)")
              (and_property "message" (typed_note "string" "Human-readable error message") (
                and_property "details"
                  (noted_object "Contextual error payload, emitted in development environments only"
                    (and_property "validationErrors" validation_errors no_properties))
                  no_properties))))
          (and_property "meta" meta_envelope_schema no_properties))
        ("error" ∷ [])

  unfoldable pub jose_error_envelope_schema : Schema F
  jose_error_envelope_schema =
      object_schema
        (and_property "code"
          (typed_note "string" (
            str_append "Machine-readable JOSE error code (e.g., "
              (str_append jose_auth_failure_codes ", JOSE_PLAINTEXT_REJECTED)")))
          (and_property "message"
            (typed_note "string"
              "Constant-time generic message — never reveals which key was tried or which library detected the failure")
            no_properties))
        ("code" ∷ "message" ∷ [])

  unfoldable pub raw_error_response_schema : Schema F
  raw_error_response_schema =
      object_schema
        (and_property "code" (typed_note "string" "Machine-readable error code") (
          and_property "message" (typed_note "string" "Human-readable error message")
            no_properties))
        ("code" ∷ "message" ∷ [])

  -- builders[name]; `none` where the map has no such builder.
  unfoldable pub standard_builder : String → Option (Schema F)
  standard_builder name =
      if name == "ErrorResponse"
      then some error_response_schema
      else if name == "JOSEErrorEnvelope"
      then some jose_error_envelope_schema
      else if name == "RawErrorResponse"
      then some raw_error_response_schema
      else if name == "SuccessResponse"
      then some success_response_schema
      else none

  abbrev pub with_schema :
      String → Option (Schema F) → Option (Dict (Schema F)) → Option (Dict (Schema F))
  with_schema n none rest = none
  with_schema n (some b) none = none
  with_schema n (some b) (some rest) = some (insert n b rest)

  -- out[name] = builders[name]() over the used names; a missing builder would panic.
  unfoldable pub build_standard : List String → Option (Dict (Schema F))
  build_standard [] = some []
  build_standard (n ∷ ns) = with_schema n (standard_builder n) (build_standard ns)

-- used of createStandardSchemas
unfoldable pub used_standard : List Route → List String
used_standard [] = []
used_standard (r ∷ rs) =
    let rest = error_schema_name r ∷ used_standard rs in
    if is_jose r.response && success_plaintext_schema r == "SuccessResponse"
    then "SuccessResponse" ∷ rest
    else rest

unfoldable pub create_standard_schemas : {F : Type 0} → List Route → Option (Dict (Schema F))
create_standard_schemas rs = build_standard (used_standard rs)
