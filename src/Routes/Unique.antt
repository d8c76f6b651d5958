-- ===== src/Routes/Unique.antt =====
-- assignOperationIDs gives every route an id, and routes of different keys different ids.
use go_bricks_openapi.Prelude.{
  String, ◌≡◌, refl, sym, ap, ◌∙◌, ◌==◌, eq_iff, eq_refl, none, some, List, [], ◌∷◌, arith, In, All,
  ◌⊎◌, inl, inr, Bool-cases, Option-cases,
}
use go_bricks_openapi.Prelude.Dict.{Dict, lookup, insert, keys, lookup-insert, In-keys}
use go_bricks_openapi.Prelude.Sort.{sort_strings, In-sort_strings}
use go_bricks_openapi.Go.{Go}
use go_bricks_openapi.Models.{Route}
use go_bricks_openapi.Routes.Emitted.{route_key}
use go_bricks_openapi.Routes.Ids.{
  next_id, base_of, routes_by_key, assign_from, assign_operation_ids, get_operation_id,
}
use go_bricks_openapi.Routes.Fresh.{next_id-Fresh}

abbrev Found {ℓ} : {V : Type ℓ} → String → Dict V → Type ℓ
Found {V = V} k m = (v : V) × (lookup k m ≡ some v)

-- No two keys have the same id.
abbrev OneKeyEach : Dict String → Type 0
OneKeyEach ids = (j k id : String) → lookup j ids ≡ some id → lookup k ids ≡ some id → j ≡ k

abbrev InUse : List String → Dict String → Type 0
InUse used out = (k id : String) → lookup k out ≡ some id → In id used

Found-insert {ℓ} :
    {V : Type ℓ} (k j : String) (v : V) (m : Dict V) → Found j m → Found j (insert k v m)
Found-insert k j v m (w, e) = elim (Bool-cases (k == j)) [
  | inl same ↦ (v, lookup-insert k j v m ∙ rw same refl)
  | inr other ↦ (w, lookup-insert k j v m ∙ rw other e)
]

Found-inserted {ℓ} : {V : Type ℓ} (k : String) (v : V) (m : Dict V) → Found k (insert k v m)
Found-inserted k v m = (v, lookup-insert k k v m ∙ rw (eq_refl k) refl)

insert-InUse :
    (k id : String) (used : List String) (out : Dict String)
    → InUse used out
    → InUse (id ∷ used) (insert k id out)
insert-InUse k id used out h j other e = ground (arith, lookup-insert k j id out, h j other)

insert-OneKeyEach :
    (k id : String) (used : List String) (out : Dict String)
    → InUse used out
    → (In id used → ⊥)
    → OneKeyEach out
    → OneKeyEach (insert k id out)
insert-OneKeyEach k id used out h fresh one i j a e f = ground (
  arith,
  eq_iff k i,
  eq_iff k j,
  lookup-insert k i id out,
  lookup-insert k j id out,
  h i id,
  h j id,
  one i j a,
)

module _ (go : Go) where
  -- What the loop makes of the ids that it has assigned so far.
  abbrev Assigned : Dict Route → List String → List String → Dict String → Type 0
  Assigned by_key ks used out =
      (ids : Dict String) × (assign_from go by_key ks used out ≡ some ids)
      × OneKeyEach ids
      × ((k : String) → In k ks ⊎ Found k out → Found k ids)

  assign_from-done :
      (by_key : Dict Route) (k : String) (ks used : List String) (out : Dict String) (done : String)
      → lookup k out ≡ some done
      → assign_from go by_key (k ∷ ks) used out ≡ assign_from go by_key ks used out
  unfolding assign_from
  assign_from-done by_key k ks used out done there = rw (there, assign_from) refl

  assign_from-new :
      (by_key : Dict Route) (k : String) (ks used : List String) (out : Dict String) (id : String)
      → lookup k out ≡ none
      → next_id used (base_of go (lookup k by_key)) ≡ some id
      → assign_from go by_key (k ∷ ks) used out
        ≡ assign_from go by_key ks (id ∷ used) (insert k id out)
  unfolding assign_from
  assign_from-new by_key k ks used out id missing next = rw (missing, next, assign_from) refl

  assign_from-Assigned :
      (by_key : Dict Route) (ks used : List String) (out : Dict String)
      → InUse used out
      → OneKeyEach out
      → Assigned by_key ks used out
  unfolding assign_from
  assign_from-Assigned by_key [] used out h one =
      (out, refl, one, λ k i. elim i [ inl none_left ↦ absurd none_left | inr found ↦ found ])
  assign_from-Assigned by_key (k ∷ ks) used out h one = elim (Option-cases (lookup k out)) [
    | inr (done, there) ↦
        let (ids, run, differ, all) = assign_from-Assigned by_key ks used out h one in
        (
          ids,
          assign_from-done by_key k ks used out done there ∙ run,
          differ,
          λ j i. all j (elim i [
            | inl (inl e) ↦ inr (done, rw e there)
            | inl (inr later) ↦ inl later
            | inr found ↦ inr found
          ]),
        )
    | inl missing ↦
        let (id, next, fresh) = next_id-Fresh used (base_of go (lookup k by_key)) in
        let (ids, run, differ, all) =
          assign_from-Assigned by_key ks (id ∷ used) (insert k id out)
            (insert-InUse k id used out h) (insert-OneKeyEach k id used out h fresh one) in
        (
          ids,
          assign_from-new by_key k ks used out id missing next ∙ run,
          differ,
          λ j i. all j (elim i [
            | inl (inl e) ↦ inr (rw e (Found-inserted k id out))
            | inl (inr later) ↦ inl later
            | inr found ↦ inr (Found-insert k j id out found)
          ]),
        )
  ]

  routes_by_key-Found :
      (r : Route) (acc : Dict Route) (rs : List Route)
      → In r rs ⊎ Found (route_key go r) acc
      → Found (route_key go r) (routes_by_key go acc rs)
  unfolding routes_by_key
  routes_by_key-Found r acc [] (inl i) = absurd i
  routes_by_key-Found r acc [] (inr found) = found
  routes_by_key-Found r acc (s ∷ rs) i = elim (Option-cases (lookup (route_key go s) acc)) [
    | inl new ↦ rw new (
        routes_by_key-Found r (insert (route_key go s) s acc) rs (elim i [
          | inl (inl e) ↦ inr (rw e (Found-inserted (route_key go s) s acc))
          | inl (inr later) ↦ inl later
          | inr found ↦ inr (Found-insert (route_key go s) (route_key go r) s acc found)
        ]))
    | inr (old, there) ↦ rw there (
        routes_by_key-Found r acc rs (elim i [
          | inl (inl e) ↦ inr (old, rw e there)
          | inl (inr later) ↦ inl later
          | inr found ↦ inr found
        ]))
  ]

  All-of_routes {ℓ} :
      {P : Route → Type ℓ} (rs : List Route) → ((r : Route) → In r rs → P r) → All P rs
  All-of_routes [] h = tt
  All-of_routes (r ∷ rs) h = (h r (inl refl), All-of_routes rs (λ s i. h s (inr i)))

  abbrev sorted_route_keys : List Route → List String
  sorted_route_keys rs = sort_strings (keys (routes_by_key go [] rs))

  assigned :
      (rs : List Route)
      → (ids : Dict String) × (assign_operation_ids go rs ≡ some ids)
        × OneKeyEach ids
        × ((k : String) → In k (sorted_route_keys rs) ⊎ Found {V = String} k [] → Found k ids)
  unfolding assign_operation_ids lookup
  assigned rs =
      assign_from-Assigned (routes_by_key go [] rs) (sorted_route_keys rs) [] [] (λ k id e. cc)
        (λ j k id e f. cc)

  Found-route :
      (rs : List Route) (ids : Dict String)
      → ((k : String) → In k (sorted_route_keys rs) ⊎ Found {V = String} k [] → Found k ids)
      → (r : Route) → In r rs
      → Found (route_key go r) ids
  Found-route rs ids all r i =
      let by_key = routes_by_key go [] rs in
      all (route_key go r) (
        inl (
          (In-sort_strings (route_key go r) (keys by_key)).1
            ((In-keys (route_key go r) by_key).1 (routes_by_key-Found r [] rs (inl i)))))

  get_operation_id-lookup :
      (r : Route) (ids : Dict String) (id : String)
      → lookup (route_key go r) ids ≡ some id
      → get_operation_id go r ids ≡ id
  unfolding get_operation_id
  get_operation_id-lookup r ids id e = rw (e, get_operation_id) refl

  -- assignOperationIDs ends with a map that has an id under the key of every route.
  pub assign_operation_ids-All :
      (rs : List Route)
      → (ids : Dict String) × (assign_operation_ids go rs ≡ some ids)
        × All (λ r. (id : String) × (lookup (route_key go r) ids ≡ some id)) rs
  assign_operation_ids-All rs =
      let (ids, run, differ, all) = assigned rs in
      (ids, run, All-of_routes rs (λ r i. Found-route rs ids all r i))

  -- Two of the routes are given the same operation id only where their keys are equal.
  pub assign_operation_ids_unique :
      (rs : List Route) (ids : Dict String) (r s : Route)
      → assign_operation_ids go rs ≡ some ids
      → In r rs
      → In s rs
      → get_operation_id go r ids ≡ get_operation_id go s ids
      → route_key go r ≡ route_key go s
  assign_operation_ids_unique rs ids r s run i j e =
      let (ids', run', differ, all) = assigned rs in
      let same_ids : ids' ≡ ids = cc (run, run') in
      let (a, ra) = Found-route rs ids' all r i in
      let (b, sb) = Found-route rs ids' all s j in
      differ (route_key go r) (route_key go s) b
        (ra
          ∙ ap some (
              sym (get_operation_id-lookup r ids' a ra)
              ∙ (rw same_ids e)
              ∙ get_operation_id-lookup s ids' b sb))
        sb
