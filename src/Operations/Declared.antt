-- ===== src/Operations/Declared.antt =====
-- appendMissingPathParams declares every variable of the path template, each once.
use go_bricks_openapi.Prelude.{
  String, ◌≡◌, refl, sym, eq_iff, false, List, [], ◌∷◌, ◌++◌, arith, In, ◌⊎◌, inl, inr, ◌↔◌, ◌≢◌,
  one_of, one_of-In, In-one_of, Distinct, Bool-cases, In-append_cases, In-append_left,
  In-append_right,
}
use go_bricks_openapi.Prelude.Sort.{All-of_In, In_of_All}
use go_bricks_openapi.Document.{Parameter}
use go_bricks_openapi.Operations.Parameters.{
  declared_path_params, path_template_vars, missing_from, append_missing_path_params,
}

Distinct-append :
    (xs ys : List String)
    → Distinct xs
    → Distinct ys
    → ((y : String) → In y ys → In y xs → ⊥)
    → Distinct (xs ++ ys)
Distinct-append [] ys d e apart = e
Distinct-append (x ∷ xs) ys (fresh, d) e apart = (
  All-of_In (xs ++ ys) (λ a i. elim (In-append_cases a xs ys i) [
    | inl l ↦ In_of_All (λ y. x ≢ y) xs fresh a l
    | inr r ↦ λ q. apart a r (inl (sym q))
  ]),
  Distinct-append xs ys d e (λ y i j. apart y i (inr j)),
)

module _ (F : Type 0) where
  declared-append :
      (ps qs : List (Parameter F))
      → declared_path_params (ps ++ qs) ≡ declared_path_params ps ++ declared_path_params qs
  unfolding declared_path_params
  declared-append [] qs = refl
  declared-append (p ∷ ps) qs = ground (arith, declared-append ps qs)

  -- The names of the parameters that the loop adds.
  abbrev added : List String → List String → List String
  added declared vs = declared_path_params {F = F} (missing_from declared vs)

  In-added :
      (v : String) (declared vs : List String)
      → In v (added declared vs) ↔ ((one_of v declared ≡ false) × In v vs)
  unfolding declared_path_params missing_from
  In-added v declared [] = ground arith
  In-added v declared (w ∷ vs) =
      ground (arith, eq_iff v w, In-added v declared vs, In-added v (w ∷ declared) vs)

  Distinct-added : (declared vs : List String) → Distinct (added declared vs)
  unfolding declared_path_params missing_from
  Distinct-added declared [] = tt
  Distinct-added declared (w ∷ vs) = elim (Bool-cases (one_of w declared)) [
    | inl skip ↦ rw (skip, missing_from) (Distinct-added declared vs)
    | inr add ↦
        rw (add, missing_from)
          (
            All-of_In (added (w ∷ declared) vs) (λ v i e.
                let out = ((In-added v (w ∷ declared) vs).0 i).0 in
                let there = In-one_of v (w ∷ declared) (inl (sym e)) in absurd (ground arith)),
            Distinct-added (w ∷ declared) vs,
          )
  ]

  -- The path parameters of an operation, after the completion, are those that the route's request
  -- type declares and the variables of its path, and no others.
  pub append_missing_path_params-declared :
      (ps : List (Parameter F)) (path v : String)
      → In v (declared_path_params (append_missing_path_params ps path))
        ↔ (In v (declared_path_params ps) ⊎ In v (path_template_vars path))
  unfolding append_missing_path_params
  append_missing_path_params-declared ps path v =
      let old = declared_path_params ps in
      let vs = path_template_vars path in
      rw (declared-append ps (missing_from old vs)) (
        (λ i. elim (In-append_cases v old (added old vs) i) [
          | inl l ↦ inl l
          | inr r ↦ inr (((In-added v old vs).0 r).1)
        ]),
        (λ i. elim (Bool-cases (one_of v old)) [
          | inl there ↦ In-append_left v old (added old vs) (one_of-In v old there)
          | inr out ↦ elim i [
            | inl l ↦ In-append_left v old (added old vs) l
            | inr r ↦ In-append_right v old (added old vs) ((In-added v old vs).1 (out, r))
          ]
        ]),
      )

  -- If the request type declares no path parameter twice, no path parameter stands twice after the
  -- completion, whatever the path repeats.
  pub append_missing_path_params-Distinct :
      (ps : List (Parameter F)) (path : String)
      → Distinct (declared_path_params ps)
      → Distinct (declared_path_params (append_missing_path_params ps path))
  unfolding append_missing_path_params
  append_missing_path_params-Distinct ps path d =
      let old = declared_path_params ps in
      let vs = path_template_vars path in
      rw (declared-append ps (missing_from old vs)) (
        Distinct-append old (added old vs) d (Distinct-added old vs) (λ y i j.
          let out = ((In-added y old vs).0 i).0 in
          let there = In-one_of y old j in absurd (ground arith)))
