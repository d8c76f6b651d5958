-- ===== src/Generate/Servers.antt =====
-- The servers and the sections that do not depend on the routes.
use go_bricks_openapi.Prelude.{String, ap, ◌==◌, eq_iff, List, [], ◌∷◌, arith, ◌≢◌, All}
use go_bricks_openapi.Go.{Go}
use go_bricks_openapi.Generate.{
  or_default, OpenApiGenerator, Server, default_servers, trimmed_servers, configured_servers,
}

module _ (go : Go) where
  open go use {trim_space}

  trimmed-All : (us : List String) → All (λ (s : Server). s.url ≢ "") (trimmed_servers go us)
  unfolding trimmed_servers
  trimmed-All [] = tt
  trimmed-All (u ∷ us) = ground (arith, eq_iff (trim_space u) "", trimmed-All us)

  or_default-All :
      (ss : List Server)
      → All (λ (s : Server). s.url ≢ "") ss
      → All (λ (s : Server). s.url ≢ "") (or_default go ss) × (or_default go ss ≢ [])
  unfolding default_servers
  or_default-All [] h = (((λ e. let t = ap (λ u. u == "") e in cc), tt), λ e. cc)
  or_default-All (s ∷ ss) h = (h, λ e. cc)

  -- The servers section has an entry, and no entry's URL is empty.
  pub configured_servers-All :
      (g : OpenApiGenerator)
      → All (λ (s : Server). s.url ≢ "") (configured_servers go g) × (configured_servers go g ≢ [])
  unfolding configured_servers
  configured_servers-All g = or_default-All (trimmed_servers go g.servers) (trimmed-All g.servers)
