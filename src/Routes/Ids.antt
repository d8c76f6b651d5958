-- ===== src/Routes/Ids.antt =====
-- assignOperationIDs: a free id for every route key, in the order of the sorted keys.
use Prim.Native.Char.{code}
use go_bricks_openapi.Prelude.{
  ℕ, zero, suc, String, Option, none, some, List, [], ◌∷◌, ◌==◌, ltb, length, one_of, if◌then◌else◌,
}
use go_bricks_openapi.Prelude.Int.{pos}
use go_bricks_openapi.Prelude.Dict.{Dict, lookup, insert, keys}
use go_bricks_openapi.Prelude.Sort.{sort_strings}
use go_bricks_openapi.Go.{Go}
use go_bricks_openapi.Go.Strconv.{itoa}
use go_bricks_openapi.Go.Strings.{str_cons, str_append, replace_all}
use go_bricks_openapi.Models.{Route}
use go_bricks_openapi.Routes.Emitted.{route_key}

-- The loop `for n := 2; ; n++` on fuel; `none` means that the fuel ran out.
unfoldable pub fresh_id : ℕ → List String → String → ℕ → String → Option String
fresh_id zero used base n id = none
fresh_id (suc fuel) used base n id =
    let next = fresh_id fuel used base (suc n) (str_append base (itoa (pos n))) in
    if one_of id used then next else some id

-- One round more than there are ids in use.
unfoldable pub next_id : List String → String → Option String
next_id used base = fresh_id (suc (length used)) used base 2 base

infixl 5 ◌>>=◌
abbrev pub ◌>>=◌ {ℓ κ} : {A : Type ℓ} {B : Type κ} → Option A → (A → Option B) → Option B
none >>= f = none
some a >>= f = f a

module _ (go : Go) where
  open go use {to_upper, to_lower, lower_cut, upper_cut}

  -- A slice of one byte is the first character where that is ASCII.
  unfoldable pub lower_first : String → String
  lower_first String.[] = ""
  lower_first (String.◌∷◌ c s) =
      if ltb (code c) 128 then str_append (to_lower (str_cons c "")) s else lower_cut (str_cons c s)

  unfoldable pub upper_first : String → String
  upper_first String.[] = ""
  upper_first (String.◌∷◌ c s) =
      if ltb (code c) 128 then str_append (to_upper (str_cons c "")) s else upper_cut (str_cons c s)

  unfoldable pub base_operation_id : Route → String
  base_operation_id r =
      if r.operation_id == ""
      then (if r.handler_name == ""
          then str_append (to_lower r.method) (replace_all b':' "" (replace_all b'/' "_" r.path))
          else if r.module_name == ""
          then r.handler_name
          else str_append (lower_first r.module_name) (upper_first r.handler_name))
      else r.operation_id

  -- byKey, in the order in which its keys were met: the first route of a key stays.
  unfoldable pub routes_by_key : Dict Route → List Route → Dict Route
  routes_by_key acc [] = acc
  routes_by_key acc (r ∷ rs) =
      routes_by_key
        (elim (lookup (route_key go r) acc) [
          | none ↦ insert (route_key go r) r acc
          | some old ↦ acc
        ])
        rs

  abbrev pub base_of : Option Route → String
  base_of none = ""
  base_of (some r) = base_operation_id r

  -- The loop over the sorted keys; `out` lists the assigned ids, `used` their values.
  unfoldable pub assign_from :
      Dict Route → List String → List String → Dict String → Option (Dict String)
  assign_from by_key [] used out = some out
  assign_from by_key (k ∷ ks) used out =
      let skip = assign_from by_key ks used out in
      let assigned = next_id used (base_of (lookup k by_key)) >>= λ id.
      assign_from by_key ks (id ∷ used) (insert k id out) in
      elim (lookup k out) [ some done ↦ skip | none ↦ assigned ]

  unfoldable pub assign_operation_ids : List Route → Option (Dict String)
  assign_operation_ids rs =
      let by_key = routes_by_key [] rs in assign_from by_key (sort_strings (keys by_key)) [] []

  unfoldable pub get_operation_id : Route → Dict String → String
  get_operation_id r ids = elim (lookup (route_key go r) ids) [
    | none ↦ base_operation_id r
    | some id ↦ id
  ]
