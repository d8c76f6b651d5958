-- ===== src/Routes/First.antt =====
-- emittedRoutes keeps the first route of every key, as assignOperation does within a path.
use go_bricks_openapi.Prelude.{
  String, ◌≡◌, ◌==◌, eq_iff, false, Option, none, some, List, [], ◌∷◌, map, arith, In, inl, inr,
  ◌↔◌, one_of, Distinct, if◌then◌else◌, Bool-cases,
}
use go_bricks_openapi.Prelude.Sort.{All-of_In}
use go_bricks_openapi.Go.{Go}
use go_bricks_openapi.Models.{Route}
use go_bricks_openapi.Routes.Emitted.{route_key, emitted_from, emitted_routes}

module _ (go : Go) where
  -- The first route of a key.
  abbrev pub first_of : String → List Route → Option Route
  first_of key [] = none
  first_of key (r ∷ rs) = if route_key go r == key then some r else first_of key rs

  In-emitted_from :
      (r : Route) (seen : List String) (rs : List Route)
      → In r (emitted_from go seen rs)
        ↔ ((one_of (route_key go r) seen ≡ false) × (first_of (route_key go r) rs ≡ some r))
  unfolding emitted_from
  In-emitted_from r seen [] = ground arith
  In-emitted_from r seen (s ∷ rs) = ground (
    arith,
    eq_iff (route_key go s) (route_key go r),
    eq_iff (route_key go r) (route_key go s),
    In-emitted_from r seen rs,
    In-emitted_from r (route_key go s ∷ seen) rs,
  )

  keys_fresh :
      (key : String) (seen : List String) (rs : List Route)
      → In key (map (route_key go) (emitted_from go seen rs))
      → one_of key seen ≡ false
  unfolding emitted_from
  keys_fresh key seen [] i = absurd i
  keys_fresh key seen (s ∷ rs) i = ground (
    arith,
    eq_iff key (route_key go s),
    keys_fresh key seen rs,
    keys_fresh key (route_key go s ∷ seen) rs,
  )

  key_taken : (key j : String) (seen : List String) → j ≡ key → one_of key (j ∷ seen) ≡ false → ⊥
  key_taken key j seen e h = ground (arith, eq_iff key j)

  Distinct-emitted_from :
      (seen : List String) (rs : List Route)
      → Distinct (map (route_key go) (emitted_from go seen rs))
  unfolding emitted_from
  Distinct-emitted_from seen [] = tt
  Distinct-emitted_from seen (s ∷ rs) = elim (Bool-cases (one_of (route_key go s) seen)) [
    | inl skip ↦ rw (skip, emitted_from) (Distinct-emitted_from seen rs)
    | inr keep ↦
        rw (keep, emitted_from)
          (
            All-of_In (map (route_key go) (emitted_from go (route_key go s ∷ seen) rs)) (λ key i e.
                key_taken key (route_key go s) seen e
                  (keys_fresh key (route_key go s ∷ seen) rs i)),
            Distinct-emitted_from (route_key go s ∷ seen) rs,
          )
  ]

  -- A route is emitted exactly where it is the first of the routes with its key, and no two routes
  -- that are emitted have the same key.
  pub emitted_routes-First :
      (rs : List Route)
      → ((r : Route) → In r (emitted_routes go rs) ↔ (first_of (route_key go r) rs ≡ some r))
        × Distinct (map (route_key go) (emitted_routes go rs))
  unfolding emitted_routes
  emitted_routes-First rs =
      (λ r. ground (arith, In-emitted_from r [] rs), Distinct-emitted_from [] rs)
