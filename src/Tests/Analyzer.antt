-- ===== src/Tests/Analyzer.antt =====
-- The analyzer's decisions on fields, tags, directives and paths.
use go_bricks_openapi.Prelude.{
  ℕ, ◌+◌, String, Option, ◌≡◌, ◌≢◌, ◌⊎◌, ◌↔◌, refl, ap, inl, inr, true, false, ◌&&◌, none, some,
  List, [], ◌∷◌, ◌==◌, length, is_some, All, In,
}
use go_bricks_openapi.Prelude.Int.{pos}
use go_bricks_openapi.Prelude.Dict.{lookup, insert}
use go_bricks_openapi.Go.Strings.{str_append, split}
use go_bricks_openapi.Models.{ShapeKind, TypeShape, StructPtr, field_info, no_shape, ptr}
use go_bricks_openapi.Operations.Parameters.{path_template_vars}
use go_bricks_openapi.Analyzer.Embed.{
  RankedField, dominance_key, outranks, tagged, is_body, drop_dominated_fields, drop_from,
  best_by_key, best_from, note_best, beaten,
}
use go_bricks_openapi.Analyzer.Embed.Dominance.{
  drop_dominated_fields_keeps, drop_dominated_fields_undominated,
}
use go_bricks_openapi.Analyzer.Directive.{
  parse_error_statuses, merge_error_statuses, DirectiveGroup, Lines, group_on,
}
use go_bricks_openapi.Analyzer.Directive.Statuses.{
  IsErrorStatus, Declares, IsBad, complaint, count_named, parse_error_statuses_lem,
}
use go_bricks_openapi.Analyzer.Directive.Merged.{Ascending, merge_error_statuses-Ascending}
use go_bricks_openapi.Analyzer.Directive.Attached.{mark_all, called_below, group_on-mark_all}
use go_bricks_openapi.Analyzer.Constructors.{
  Call, selector, ident, other, error_status_from_call, infer_error_statuses,
}
use go_bricks_openapi.Analyzer.Constructors.Inferred.{infer_error_statuses_lem}
use go_bricks_openapi.Analyzer.Binding.{FallbackKind, FieldFallback, param_bind_reason}
use go_bricks_openapi.Analyzer.Binding.Binds.{Binds, param_bind_reason-Binds}
use go_bricks_openapi.Analyzer.Merge.{
  merge_decls, merge_from, merge_shapes, merge_over, merge_pointers, merge_same_kind, merge_elems,
  with_elem, kept_if, same_builtin, canonical, or_else, pointer_to, cut_against_extraction,
  is_literal_cut, is_extracted_literal, kind_text,
}
use go_bricks_openapi.Analyzer.Merge.Outline.{outline}
use go_bricks_openapi.Analyzer.Merge.Kept.{merge_decls-outline}
use go_bricks_openapi.Analyzer.Tags.{parse_validation_tag}
use go_bricks_openapi.Analyzer.Tags.Dive.{element_rule, has_dive, parse_validation_tag-Scopes}
use go_bricks_openapi.Analyzer.Paths.{normalize_path}
use go_bricks_openapi.Analyzer.Paths.Template.{path_template_vars-normalize_path}
use go_bricks_openapi.Tests.Sample.{leaf, over, sample_go, field_tags, text_shape}

abbrev ranked : String → ℕ → RankedField
ranked name depth = record {
  info = field_info (field_tags name "") text_shape no_shape;
  rank = record { depth = depth; embed_name = false };
}

abbrev outer_id : RankedField
outer_id = ranked "id" 0

abbrev inner_id : RankedField
inner_id = ranked "id" 1

abbrev two_ids : List RankedField
two_ids = outer_id ∷ inner_id ∷ []

drop_dominated_fields_keeps_example :
    In inner_id (drop_dominated_fields two_ids)
    ⊎ ((is_body inner_id ≡ true)
        × (g : RankedField) × In g (drop_dominated_fields two_ids)
        × (dominance_key g ≡ dominance_key inner_id)
        × (outranks inner_id g ≡ false))
drop_dominated_fields_keeps_example = drop_dominated_fields_keeps two_ids inner_id (inr (inl refl))

outer_id_kept : In outer_id (drop_dominated_fields two_ids)
unfolding drop_dominated_fields drop_from best_by_key best_from note_best beaten dominance_key
    outranks tagged lookup insert
outer_id_kept = inl refl

outer_id_keyed : dominance_key outer_id ≢ ""
unfolding dominance_key
outer_id_keyed e = let t = ap (λ s. s == "id") e in cc t

ids_same : dominance_key inner_id ≡ dominance_key outer_id
unfolding dominance_key
ids_same = refl

drop_dominated_fields_undominated_example : outranks inner_id outer_id ≡ false
drop_dominated_fields_undominated_example =
    drop_dominated_fields_undominated two_ids outer_id inner_id outer_id_kept (inr (inl refl)) refl
      outer_id_keyed ids_same

parse_error_statuses_lem_example :
    (In (pos 404) (parse_error_statuses sample_go "404,x").0 ↔ (
      (raw : String) × In raw (split b',' "404,x") × Declares (sample_go.trim_space raw) (pos 404)))
    × (In (complaint "x") (parse_error_statuses sample_go "404,x").1 ↔ (
        (raw : String) × In raw (split b',' "404,x")
        × (IsBad (sample_go.trim_space raw)
            × (complaint "x" ≡ complaint (sample_go.trim_space raw)))))
    × (length (parse_error_statuses sample_go "404,x").0
          + length (parse_error_statuses sample_go "404,x").1
        ≡ count_named sample_go (split b',' "404,x"))
parse_error_statuses_lem_example =
    parse_error_statuses_lem sample_go "404,x" (pos 404) (complaint "x") refl

merge_error_statuses-Ascending_example :
    Ascending (merge_error_statuses (pos 404 ∷ []) (pos 409 ∷ pos 404 ∷ []))
    × (In (pos 409) (merge_error_statuses (pos 404 ∷ []) (pos 409 ∷ pos 404 ∷ []))
        ↔ (In (pos 409) (pos 404 ∷ []) ⊎ In (pos 409) (pos 409 ∷ pos 404 ∷ [])))
merge_error_statuses-Ascending_example =
    merge_error_statuses-Ascending (pos 404 ∷ []) (pos 409 ∷ pos 404 ∷ []) (pos 409) (tt, tt)

abbrev public_group : DirectiveGroup
public_group = record {
  rd = record { is_public = true; error_statuses = [] };
  names = "public" ∷ [];
  at = "module.go:6";
  trailing = false;
  attached = false;
}

abbrev one_group : Lines
one_group = (6, public_group) ∷ []

group_found : group_on 6 one_group ≡ some public_group
unfolding group_on
group_found = refl

group_on-mark_all_example :
    group_on 6 (mark_all one_group (7 ∷ []))
    ≡ some (record public_group { attached = called_below 6 (7 ∷ []) && true })
group_on-mark_all_example = group_on-mark_all 6 (7 ∷ []) one_group public_group group_found

parse_validation_tag-Scopes_example :
    (is_some (parse_validation_tag sample_go "min=1,dive,required").element_constraints
      ≡ has_dive sample_go (split b',' "min=1,dive,required"))
    × (element_rule "required" (parse_validation_tag sample_go "min=1,dive,required") ≡ none)
parse_validation_tag-Scopes_example =
    parse_validation_tag-Scopes sample_go "min=1,dive,required" refl

id_segment : In (str_append ":" "id") (split b'/' "/users/:id")
unfolding split
id_segment = inr (inr (inl refl))

abbrev id_name : String
id_name = "id"

id_named : id_name ≢ ""
id_named e = let t = ap (λ s. s == "id") e in cc t

path_template_vars-normalize_path_example :
    In "id" (path_template_vars (normalize_path "/users/:id"))
path_template_vars-normalize_path_example =
    path_template_vars-normalize_path "/users/:id" "id" id_named id_segment

abbrev bytes_of : String → TypeShape
bytes_of n = over ShapeKind.slice (leaf ShapeKind.primitive n)

abbrev no_text : StructPtr → Option String
no_text st = none

bytes_merge : merge_decls no_text (bytes_of "byte") (bytes_of "uint8" ∷ []) ≡ some (bytes_of "byte")
unfolding merge_decls merge_from merge_shapes merge_over merge_pointers merge_same_kind merge_elems
    with_elem kept_if same_builtin canonical or_else pointer_to cut_against_extraction
    is_literal_cut is_extracted_literal kind_text
bytes_merge = refl

merge_decls-outline_example :
    All
      (λ r. outline (ptr r) ≡ outline (ptr (bytes_of "byte")))
      (bytes_of "byte" ∷ bytes_of "uint8" ∷ [])
merge_decls-outline_example =
    merge_decls-outline no_text (bytes_of "byte") (bytes_of "uint8" ∷ []) (bytes_of "byte")
      bytes_merge

abbrev not_found_call : Call
not_found_call = record { fun = selector (ident "server" 12) "NewNotFoundError"; args = other ∷ [] }

infer_error_statuses_lem_example :
    Ascending (infer_error_statuses (λ name place. false) [] (not_found_call ∷ []))
    × (In (pos 404) (infer_error_statuses (λ name place. false) [] (not_found_call ∷ [])) ↔ (
        (call : Call) × In call (not_found_call ∷ [])
        × (IsErrorStatus (pos 404)
            × (error_status_from_call (λ name place. false) [] call ≡ pos 404))))
infer_error_statuses_lem_example =
    infer_error_statuses_lem (λ name place. false) [] (not_found_call ∷ []) (pos 404)

abbrev kept_whole : FieldFallback
kept_whole = record { kind = FallbackKind.no_fallback; detail = "" }

param_bind_reason-Binds_example :
    (((param_bind_reason (ptr (over ShapeKind.slice text_shape)) "query" kept_whole).0 ≡ "")
      × ((param_bind_reason (ptr (over ShapeKind.slice text_shape)) "query" kept_whole).1 ≡ true))
    ↔ Binds "query" kept_whole (ptr (over ShapeKind.slice text_shape))
param_bind_reason-Binds_example =
    param_bind_reason-Binds (ptr (over ShapeKind.slice text_shape)) "query" kept_whole
