-- ===== src/Analyzer/Embed.antt =====
-- internal/analyzer/embed.go: the rank of an extracted field and the merge of a struct's own fields
-- with its promoted ones (dropDominatedFields, bestByKey, dropDuplicateParams). The declaration that
-- a ranked field carries is left out: the merge does not read it.
pub mod Dominance
pub mod Parameters
use go_bricks_openapi.Prelude.{
  ℕ, String, Bool, true, false, not, ◌&&◌, Option, none, some, List, [], ◌∷◌, ◌==◌, ltb, eqb,
  one_of, if◌then◌else◌,
}
use go_bricks_openapi.Prelude.Dict.{Dict, lookup, insert}
use go_bricks_openapi.Go.Strings.{str_append}
use go_bricks_openapi.Models.{FieldTags, FieldInfo, tags}

pub record FieldRank : Type 0 where
  pub depth : ℕ
  pub embed_name : Bool

pub record RankedField : Type 0 where
  pub info : FieldInfo
  pub rank : FieldRank

abbrev pub depth_of : RankedField → ℕ
depth_of f = f.rank.depth

abbrev pub is_body : RankedField → Bool
is_body f = (tags f.info).param_type == ""

unfoldable pub dominance_key : RankedField → String
dominance_key f =
    let t = tags f.info in
    if t.json_name == "-" then "" else if t.json_name == "" then t.name else t.json_name

unfoldable pub param_key : RankedField → String
param_key f =
    let t = tags f.info in
    if t.param_type == "" then "" else str_append t.param_type (str_append ":" t.param_name)

unfoldable pub tagged : RankedField → Bool
tagged f = not ((tags f.info).json_name == "") && not f.rank.embed_name

unfoldable pub outranks : RankedField → RankedField → Bool
outranks f o =
    if eqb (depth_of f) (depth_of o)
    then tagged f && not (tagged o)
    else ltb (depth_of f) (depth_of o)

-- One round of the loop: the first field of the best rank stays under its key.
unfoldable pub note_best : Dict RankedField → RankedField → Dict RankedField
note_best best f =
    let k = dominance_key f in
    if k == "" then best else elim (lookup k best) [
      | none ↦ insert k f best
      | some b ↦ if outranks f b then insert k f best else best
    ]

unfoldable pub best_from : Dict RankedField → List RankedField → Dict RankedField
best_from best [] = best
best_from best (f ∷ fs) = best_from (note_best best f) fs

unfoldable pub best_by_key : List RankedField → Dict RankedField
best_by_key fs = best_from [] fs

-- `best[k].outranks(f)`. The table has every key of the fields, so that nil is not met.
unfoldable pub beaten : Option RankedField → RankedField → Bool
beaten none f = false
beaten (some b) f = outranks b f

-- The loop; `kept` lists the keys that are true in the map of that name.
unfoldable pub drop_from : Dict RankedField → List String → List RankedField → List RankedField
drop_from best kept [] = []
drop_from best kept (f ∷ fs) =
    let k = dominance_key f in
    let won = not (one_of k kept) && not (beaten (lookup k best) f) in
    let marked = drop_from best (k ∷ kept) fs in
    let rest = drop_from best kept fs in
    if k == "" then f ∷ rest else if won then f ∷ marked else if is_body f then rest else f ∷ rest

unfoldable pub drop_dominated_fields : List RankedField → List RankedField
drop_dominated_fields fs = drop_from (best_by_key fs) [] fs

unfoldable pub drop_seen_params : List String → List RankedField → List RankedField
drop_seen_params seen [] = []
drop_seen_params seen (f ∷ fs) =
    let k = param_key f in
    let fresh = drop_seen_params (k ∷ seen) fs in
    let rest = drop_seen_params seen fs in
    if k == "" then f ∷ rest else if one_of k seen then rest else f ∷ fresh

unfoldable pub drop_duplicate_params : List RankedField → List RankedField
drop_duplicate_params fs = drop_seen_params [] fs
