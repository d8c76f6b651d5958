-- ===== src/Operations/Slots.antt =====
-- The paths of the document: which operation stands at a path and a method.
use go_bricks_openapi.Prelude.{
  or_first, String, ◌≡◌, refl, ap, sym, ◌∙◌, ◌==◌, eq_iff, Bool, false, Option, none, some, List,
  [], ◌∷◌, ◌++◌, arith, inl, inr, if◌then◌else◌, Bool-cases, ℕ, eqb,
}
use go_bricks_openapi.Prelude.Dict.{Dict, lookup, insert, lookup-insert}
use go_bricks_openapi.Go.{Go}
use go_bricks_openapi.Go.Strings.{has_prefix}
use go_bricks_openapi.Models.{Route}
use go_bricks_openapi.Document.{Operation, PathItem}
use go_bricks_openapi.Routes.Emitted.{grouped, group_from, group_routes_by_path}
use go_bricks_openapi.Operations.Build.{build_operation}
use go_bricks_openapi.Operations.Paths.{
  Slot, get, put, post, delete, patch, head, options, method_slot, at_slot, set_slot, empty_item,
  fill, assign_operation, assign_operations, paths_of, build_paths,
}

abbrev position : Slot → ℕ
position get = 0
position put = 1
position post = 2
position delete = 3
position patch = 4
position head = 5
position options = 6

abbrev same : Slot → Slot → Bool
same s t = eqb (position s) (position t)

abbrev is_slot : Slot → Option Slot → Bool
is_slot s none = false
is_slot s (some t) = same t s

abbrev pub then_build {ℓ κ} : {A : Type ℓ} {B : Type κ} → (A → B) → Option A → Option B
then_build f none = none
then_build f (some a) = some (f a)

-- The routes of a path, in their order.
abbrev pub routes_at : String → List Route → List Route
routes_at p [] = []
routes_at p (r ∷ rs) = if r.path == p then r ∷ routes_at p rs else routes_at p rs

abbrev extend : Option (List Route) → List Route → Option (List Route)
extend none [] = none
extend none (r ∷ rs) = some (r ∷ rs)
extend (some g) rs = some (g ++ rs)

at_slot-set_slot :
    {F : Type 0} (s t : Slot) (o : Operation F) (i : PathItem F)
    → at_slot t (set_slot s o i) ≡ (if same s t then some o else at_slot t i)
at_slot-set_slot s t o i = ground arith

at_slot-added :
    {F : Type 0} (s t : Slot) (o : Operation F) (i : PathItem F)
    → at_slot s (elim (at_slot t i) [ some x ↦ i | none ↦ set_slot t o i ])
      ≡ or_first (at_slot s i) (if same t s then some o else none)
at_slot-added s t o i = ground arith

append_assoc : (g : List Route) (r : Route) (rs : List Route) → (g ++ r ∷ []) ++ rs ≡ g ++ r ∷ rs
append_assoc [] r rs = refl
append_assoc (x ∷ g) r rs = ap (λ l. x ∷ l) (append_assoc g r rs)

extend-grouped :
    (g : Option (List Route)) (r : Route) (rs : List Route)
    → extend (some (grouped g r)) rs ≡ extend g (r ∷ rs)
extend-grouped none r rs = refl
extend-grouped (some g) r rs = ap some (append_assoc g r rs)

extend-nil : (g : Option (List Route)) → extend g [] ≡ g
extend-nil none = refl
extend-nil (some []) = refl
extend-nil (some (r ∷ g)) =
    ap (λ o. elim o [ none ↦ none | some l ↦ some (r ∷ l) ]) (extend-nil (some g))

lookup-group_from :
    (p : String) (groups : Dict (List Route)) (rs : List Route)
    → lookup p (group_from groups rs) ≡ extend (lookup p groups) (routes_at p rs)
unfolding group_from
lookup-group_from p groups [] = sym (extend-nil (lookup p groups))
lookup-group_from p groups (r ∷ rs) =
    lookup-group_from p (insert r.path (grouped (lookup r.path groups) r) groups) rs
    ∙ rw (lookup-insert r.path p (grouped (lookup r.path groups) r) groups)
        (elim (Bool-cases (r.path == p)) [
          | inl at_p ↦ rw at_p (
              extend-grouped (lookup r.path groups) r (routes_at p rs)
              ∙ ap (λ k. extend (lookup k groups) (r ∷ routes_at p rs)) ((eq_iff r.path p).0 at_p))
          | inr other ↦ rw other refl
        ])

module _ (go : Go) (tenant_auth : Bool) (ids : Dict String) where
  open go use {Float, to_upper}

  -- The first of the routes whose method has the field `s` of a path item.
  abbrev pub first_for : Slot → List Route → Option Route
  first_for s [] = none
  first_for s (r ∷ rs) =
      if is_slot s (method_slot (to_upper r.method)) then some r else first_for s rs

  abbrev pub build : Route → Operation Float
  build r = build_operation go tenant_auth r ids

  at_slot-fill :
      (s : Slot) (t : Option Slot) (i : PathItem Float) (r : Route)
      → at_slot s (fill go tenant_auth ids t r i)
        ≡ or_first (at_slot s i) (if is_slot s t then some (build r) else none)
  at_slot-fill s none i r = ground arith
  at_slot-fill s (some t) i r = at_slot-added s t (build r) i

  at_slot-assign_operations :
      (s : Slot) (i : PathItem Float) (rs : List Route)
      → at_slot s (assign_operations go tenant_auth ids i rs)
        ≡ or_first (at_slot s i) (then_build build (first_for s rs))
  unfolding assign_operations assign_operation
  at_slot-assign_operations s i [] = ground arith
  at_slot-assign_operations s i (r ∷ rs) = ground (
    arith,
    at_slot-assign_operations s (fill go tenant_auth ids (method_slot (to_upper r.method)) r i) rs,
    at_slot-fill s (method_slot (to_upper r.method)) i r,
  )

  items : Option (List Route) → Option (PathItem Float)
  items = then_build (λ rs. assign_operations go tenant_auth ids empty_item rs)

  lookup-paths_of :
      (p : String) (groups : Dict (List Route))
      → lookup p (paths_of go tenant_auth ids groups)
        ≡ (if has_prefix b'/' p then items (lookup p groups) else none)
  unfolding paths_of items lookup
  lookup-paths_of p [] = ground arith
  lookup-paths_of p ((q, g) ∷ groups) = ground (
    arith,
    eq_iff q p,
    lookup-paths_of p groups,
    lookup-insert q p (assign_operations go tenant_auth ids empty_item g)
        (paths_of go tenant_auth ids groups),
  )

  abbrev pub operation_at : Slot → Option (PathItem Float) → Option (Operation Float)
  operation_at s none = none
  operation_at s (some i) = at_slot s i

  -- The operation of the document at a path and a method is that of the first of the path's routes
  -- with the method; there is none where the path has no such route or does not begin with a slash.
  pub build_paths-operation_at :
      (rs : List Route) (p : String) (s : Slot)
      → operation_at s (lookup p (build_paths go tenant_auth ids rs))
        ≡ (if has_prefix b'/' p then then_build build (first_for s (routes_at p rs)) else none)
  unfolding build_paths group_routes_by_path items lookup
  build_paths-operation_at rs p s = ground (
    arith,
    lookup-paths_of p (group_from [] rs),
    lookup-group_from p [] rs,
    at_slot-assign_operations s empty_item (routes_at p rs),
  )
