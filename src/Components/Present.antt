-- ===== src/Components/Present.antt =====
-- createStandardSchemas has every schema that the responses of the routes refer to.
use go_bricks_openapi.Prelude.{
  String, ◌≡◌, refl, ◌==◌, eq_iff, true, ◌&&◌, ◌||◌, some, List, [], ◌∷◌, arith, In, ◌⊎◌, inl, inr,
  ◌↔◌, Bool-cases, All,
}
use go_bricks_openapi.Prelude.Dict.{Dict, insert, keys, In-keys-insert}
use go_bricks_openapi.Models.{Route}
use go_bricks_openapi.Document.{Schema}
use go_bricks_openapi.Operations.Responses.{is_jose, error_schema_name, success_plaintext_schema}
use go_bricks_openapi.Components.Standard.{
  standard_builder, build_standard, used_standard, create_standard_schemas,
}

abbrev standard_names : List String
standard_names = "ErrorResponse" ∷ "JOSEErrorEnvelope" ∷ "RawErrorResponse" ∷ "SuccessResponse" ∷ []

-- The standard schema names that a route's responses mention.
abbrev pub Mentions : String → Route → Type 0
Mentions n r =
    (n ≡ error_schema_name r)
    ⊎ ((n ≡ "SuccessResponse")
        × (is_jose r.response ≡ true)
        × (success_plaintext_schema r ≡ "SuccessResponse"))

abbrev pub SomeMentions : String → List Route → Type 0
SomeMentions n [] = ⊥
SomeMentions n (r ∷ rs) = Mentions n r ⊎ SomeMentions n rs

used_standard-Mentions :
    (n : String) (rs : List Route) → In n (used_standard rs) ↔ SomeMentions n rs
unfolding used_standard
used_standard-Mentions n [] = (λ i. i, λ i. i)
used_standard-Mentions n (r ∷ rs) =
    ground
      (arith, used_standard-Mentions n rs, eq_iff (success_plaintext_schema r) "SuccessResponse")

module _ (F : Type 0) where
  abbrev Buildable : String → Type 0
  Buildable n = (s : Schema F) × (standard_builder n ≡ some s)

  error_schema_name-Buildable : (r : Route) → Buildable (error_schema_name r)
  unfolding error_schema_name standard_builder
  error_schema_name-Buildable r = elim (Bool-cases (is_jose r.response || is_jose r.request)) [
    | inl jose ↦ rw jose (_, refl)
    | inr plain ↦ rw plain (elim (Bool-cases r.raw_response) [
      | inl raw ↦ rw raw (_, refl)
      | inr enveloped ↦ rw enveloped (_, refl)
    ])
  ]

  used_standard-Buildable : (rs : List Route) → All Buildable (used_standard rs)
  unfolding used_standard standard_builder
  used_standard-Buildable [] = tt
  used_standard-Buildable (r ∷ rs) =
      elim (Bool-cases (is_jose r.response && success_plaintext_schema r == "SuccessResponse")) [
        | inl jose ↦
            rw (jose, used_standard)
              ((_, refl), (error_schema_name-Buildable r, used_standard-Buildable rs))
        | inr other ↦
            rw (other, used_standard) (error_schema_name-Buildable r, used_standard-Buildable rs)
      ]

  build_standard-keys :
      (ns : List String)
      → All Buildable ns
      → (out : Dict (Schema F)) × (build_standard ns ≡ some out)
        × ((n : String) → In n (keys out) ↔ In n ns)
  unfolding build_standard keys
  build_standard-keys [] h = ([], refl, λ n. (λ i. i, λ i. i))
  build_standard-keys (n ∷ ns) ((b, built), h) =
      let (out, run, same) = build_standard-keys ns h in
      (insert n b out, rw (built, run) refl, λ m. ground (arith, In-keys-insert m n b out, same m))

  -- createStandardSchemas meets no missing builder, and its names are those that the responses of
  -- some route mention: its error schema, and SuccessResponse for an untyped JOSE response.
  pub create_standard_schemas-Mentions :
      (rs : List Route)
      → (out : Dict (Schema F)) × (create_standard_schemas rs ≡ some out)
        × ((n : String) → In n (keys out) ↔ SomeMentions n rs)
  unfolding create_standard_schemas
  create_standard_schemas-Mentions rs =
      let (out, run, same) = build_standard-keys (used_standard rs) (used_standard-Buildable rs) in
      (out, run, λ n. ground (arith, same n, used_standard-Mentions n rs))
