-- ===== src/Operations/Paths.antt =====
-- methodSlot, assignOperation and buildPaths.
use go_bricks_openapi.Prelude.{String, Bool, Option, none, some, List, [], ◌∷◌, ◌==◌, if◌then◌else◌}
use go_bricks_openapi.Prelude.Dict.{Dict, insert}
use go_bricks_openapi.Go.{Go}
use go_bricks_openapi.Go.Strings.{has_prefix}
use go_bricks_openapi.Models.{Route}
use go_bricks_openapi.Document.{Operation, PathItem}
use go_bricks_openapi.Routes.Emitted.{group_routes_by_path}
use go_bricks_openapi.Operations.Build.{build_operation}

-- The field of a path item that methodSlot points to.
pub data Slot : Type 0 where
  get put post delete patch head options : Slot

unfoldable pub method_slot : String → Option Slot
method_slot m =
    if m == "GET"
    then some get
    else if m == "PUT"
    then some put
    else if m == "POST"
    then some post
    else if m == "DELETE"
    then some delete
    else if m == "PATCH"
    then some patch
    else if m == "HEAD"
    then some head
    else if m == "OPTIONS"
    then some options
    else none

module _ {F : Type 0} where
  abbrev pub at_slot : Slot → PathItem F → Option (Operation F)
  at_slot get i = i.get
  at_slot put i = i.put
  at_slot post i = i.post
  at_slot delete i = i.delete
  at_slot patch i = i.patch
  at_slot head i = i.head
  at_slot options i = i.options

  abbrev pub set_slot : Slot → Operation F → PathItem F → PathItem F
  set_slot get o i = record i { get = some o }
  set_slot put o i = record i { put = some o }
  set_slot post o i = record i { post = some o }
  set_slot delete o i = record i { delete = some o }
  set_slot patch o i = record i { patch = some o }
  set_slot head o i = record i { head = some o }
  set_slot options o i = record i { options = some o }

  abbrev pub empty_item : PathItem F
  empty_item = record {
    get = none;
    put = none;
    post = none;
    delete = none;
    patch = none;
    head = none;
    options = none;
  }

module _ (go : Go) (tenant_auth : Bool) (ids : Dict String) where
  open go use {Float, to_upper}

  abbrev pub fill : Option Slot → Route → PathItem Float → PathItem Float
  fill none r i = i
  fill (some s) r i = elim (at_slot s i) [
    | some o ↦ i
    | none ↦ set_slot s (build_operation go tenant_auth r ids) i
  ]

  unfoldable pub assign_operation : PathItem Float → Route → PathItem Float
  assign_operation i r = fill (method_slot (to_upper r.method)) r i

  unfoldable pub assign_operations : PathItem Float → List Route → PathItem Float
  assign_operations i [] = i
  assign_operations i (r ∷ rs) = assign_operations (assign_operation i r) rs

  -- The loop over the groups; its order does not matter, as the keys of the groups are distinct.
  unfoldable pub paths_of : Dict (List Route) → Dict (PathItem Float)
  paths_of [] = []
  paths_of ((path, group) ∷ groups) =
      if has_prefix b'/' path
      then insert path (assign_operations empty_item group) (paths_of groups)
      else paths_of groups

  unfoldable pub build_paths : List Route → Dict (PathItem Float)
  build_paths rs = paths_of (group_routes_by_path rs)
