-- ===== src/Operations/Build.antt =====
-- buildRequestBody and buildOperation, for a generator's tenant setting.
use go_bricks_openapi.Prelude.{
  String, Bool, true, false, not, ◌&&◌, ◌||◌, Option, none, some, List, [], ◌∷◌, ◌==◌, is_empty,
  if◌then◌else◌,
}
use go_bricks_openapi.Prelude.Dict.{Dict}
use go_bricks_openapi.Go.{Go}
use go_bricks_openapi.Go.Strings.{str_append}
use go_bricks_openapi.Models.{ShapePtr, no_shape, ptr, is_nil, FieldInfo, TypeInfo, Route}
use go_bricks_openapi.Document.{Content, RequestBody, Operation}
use go_bricks_openapi.Routes.Ids.{get_operation_id}
use go_bricks_openapi.Operations.Payloads.{typed, payload_shape_schema}
use go_bricks_openapi.Operations.Responses.{
  jose_description, jose_token_schema, json_media_ref, build_responses,
}
use go_bricks_openapi.Operations.Parameters.{extract_parameters, append_missing_path_params}

unfoldable pub get_summary : Route → String
get_summary r = if r.summary == "" then str_append r.method (str_append " " r.path) else r.summary

module _ (go : Go) where
  open go use {Float}

  abbrev body : String → Content Float → RequestBody Float
  body d c = record { required = true; description = d; content = c }

  abbrev body_content : TypeInfo → ShapePtr → Content Float
  body_content ti no_shape =
      if ti.name == "" then ("application/json", typed "object") ∷ [] else json_media_ref ti.name
  body_content ti (ptr s) = ("application/json", payload_shape_schema go s) ∷ []

  unfoldable pub build_request_body : Option TypeInfo → RequestBody Float
  build_request_body none = body "" (("application/json", typed "object") ∷ [])
  build_request_body (some ti) =
      if ti.jose
      then body (jose_description ti.name) (("application/jose", jose_token_schema) ∷ [])
      else body "" (body_content ti ti.resolution)

  -- Whether buildOperation emits a request body.
  unfoldable pub needs_body : Option TypeInfo → List FieldInfo → Bool
  needs_body none fields = false
  needs_body (some ti) fields = not (is_empty fields) || ti.jose || not (is_nil ti.resolution)

  unfoldable pub build_operation : Bool → Route → Dict String → Operation Float
  build_operation tenant_auth r ids =
      let (params, body_fields) = extract_parameters go r in
      record {
        operation_id = get_operation_id go r ids;
        summary = get_summary r;
        description = r.description;
        tag_names = r.tag_names;
        parameters = append_missing_path_params params r.path;
        request_body =
            if needs_body r.request body_fields then some (build_request_body r.request) else none;
        responses = build_responses go r;
        security = if r.is_public && tenant_auth then some [] else none;
      }
