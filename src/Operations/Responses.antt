-- ===== src/Operations/Responses.antt =====
-- The responses of a route (buildResponses and its parts).
use go_bricks_openapi.Prelude.{
  String, Bool, false, not, ◌||◌, Option, none, some, List, [], ◌∷◌, ◌==◌, if◌then◌else◌,
}
use go_bricks_openapi.Prelude.Int.{ℤ, pos, eqb_ℤ}
use go_bricks_openapi.Prelude.Dict.{Dict, lookup, insert}
use go_bricks_openapi.Go.{Go}
use go_bricks_openapi.Go.Strconv.{itoa}
use go_bricks_openapi.Go.Strings.{str_append}
use go_bricks_openapi.Models.{is_nil, TypeInfo, Route}
use go_bricks_openapi.Document.{no_keywords, Property, Content, Response, plain}
use go_bricks_openapi.Schemas.Leaves.{ref_path}
use go_bricks_openapi.Operations.Payloads.{
  schema_name, ref_to, response_payload_schema, success_envelope_schema,
}

abbrev pub jose_auth_failure_codes : String
jose_auth_failure_codes =
    "JOSE_DECRYPT_FAILED, JOSE_SIGNATURE_INVALID, JOSE_KID_UNKNOWN, JOSE_KID_MISSING"

abbrev jose_undocumented_description : String
jose_undocumented_description =
    "JOSE compact serialization (signed-then-encrypted). The wire payload\nis a base64url-encoded JWE compact form whose plaintext, after\ndecrypt+verify, is its type's own JSON encoding, which is not documented.\n"

unfoldable pub jose_description : String → String
jose_description name =
    if name == ""
    then jose_undocumented_description
    else str_append
        "JOSE compact serialization (signed-then-encrypted). The wire payload\nis a base64url-encoded JWE compact form whose plaintext, after\ndecrypt+verify, conforms to the "
        (str_append name (str_append " schema —\nsee " (str_append (ref_path name) ".\n")))

abbrev pub is_jose : Option TypeInfo → Bool
is_jose none = false
is_jose (some ti) = ti.jose

abbrev pub is_no_content : Option TypeInfo → Bool
is_no_content none = false
is_no_content (some ti) = ti.no_content

unfoldable pub error_schema_name : Route → String
error_schema_name r =
    if is_jose r.response || is_jose r.request
    then "JOSEErrorEnvelope"
    else if r.raw_response
    then "RawErrorResponse"
    else "ErrorResponse"

unfoldable pub success_status_code : Route → Bool → String
success_status_code r no_content =
    if no_content
    then "204"
    else if eqb_ℤ r.success_status (pos 0)
    then "200"
    else itoa r.success_status

unfoldable pub success_plaintext_schema : Route → String
success_plaintext_schema r = elim r.response [
  | none ↦ "SuccessResponse"
  | some ti ↦
      if not (ti.name == "")
      then schema_name ti
      else if is_nil ti.resolution
      then "SuccessResponse"
      else ""
]

module _ {F : Type 0} where
  unfoldable pub jose_token_schema : Property F
  jose_token_schema = plain (record no_keywords { typ = "string"; format = "jose" })

  unfoldable pub json_media_ref : String → Content F
  json_media_ref name = ("application/json", ref_to name) ∷ []

  abbrev pub response : String → Content F → Response F
  response d c = record { description = d; content = c }

  abbrev pub failure : String → String → Response F
  failure schema d = response d (json_media_ref schema)

  -- The additions of a JOSE route to the 400 and 500 baseline.
  unfoldable pub base_error_responses : String → Dict (Response F)
  base_error_responses schema =
      let bad = failure schema "Bad Request — malformed request or failed validation" in
      let broken = failure schema "Internal Server Error" in
      if schema == "JOSEErrorEnvelope"
      then ("400", bad)
        ∷ (
          "500",
          response "Internal Server Error"
              (insert "application/jose" jose_token_schema (json_media_ref schema)),
        )
        ∷ (
          "401",
          failure schema (
              str_append "Unauthorized — JOSE decrypt/verify failure ("
                (str_append jose_auth_failure_codes ")")),
        )
        ∷ (
          "415",
          failure schema
              "Unsupported Media Type — plaintext request on a JOSE route (JOSE_PLAINTEXT_REJECTED)",
        )
        ∷ []
      else ("400", bad) ∷ ("500", broken) ∷ []

module _ (go : Go) where
  open go use {Float, status_text, to_upper}

  unfoldable pub error_status_description : ℤ → String
  error_status_description n =
      if status_text n == "" then str_append "HTTP " (itoa n) else status_text n

  unfoldable pub get_response_description : String → String
  get_response_description method =
      if to_upper method == "PUT"
      then "Resource updated successfully"
      else if to_upper method == "DELETE"
      then "Resource deleted successfully"
      else if to_upper method == "PATCH"
      then "Resource partially updated"
      else "Successful response"

  unfoldable pub success_description : Route → String → Bool → String
  success_description r status no_content =
      if no_content
      then "No Content"
      else if status == "201"
      then "Resource created successfully"
      else if status == "202"
      then "Request accepted for processing"
      else get_response_description r.method

  -- A declared status that is already documented is skipped.
  unfoldable pub add_declared : Dict (Response Float) → List ℤ → String → Dict (Response Float)
  add_declared rs [] schema = rs
  add_declared rs (c ∷ cs) schema =
      add_declared
        (elim (lookup (itoa c) rs) [
          | some old ↦ rs
          | none ↦ insert (itoa c) (failure schema (error_status_description c)) rs
        ])
        cs schema

  -- addDeclaredErrorResponses
  unfoldable pub add_declared_error_responses :
      Dict (Response Float) → Route → String → Dict (Response Float)
  add_declared_error_responses rs r schema = add_declared rs r.error_statuses schema

  unfoldable pub success_response : Route → Response Float
  success_response r =
      let no_content = is_no_content r.response in
      let note = success_description r (success_status_code r no_content) no_content in
      if no_content
      then response note []
      else if is_jose r.response
      then response (jose_description (success_plaintext_schema r))
          (("application/jose", jose_token_schema) ∷ [])
      else if r.raw_response
      then response note (("application/json", response_payload_schema go r.response) ∷ [])
      else response note (("application/json", success_envelope_schema go r.response) ∷ [])

  -- The success entry is written last.
  unfoldable pub build_responses : Route → Dict (Response Float)
  build_responses r =
      let schema = error_schema_name r in
      insert (success_status_code r (is_no_content r.response)) (success_response r)
        (add_declared_error_responses (base_error_responses schema) r schema)
