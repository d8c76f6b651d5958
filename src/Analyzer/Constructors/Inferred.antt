-- ===== src/Analyzer/Constructors/Inferred.antt =====
-- What is inferred from a body's calls, internal/analyzer/constructors.go.
use go_bricks_openapi.Prelude.{
  ℕ, String, ◌≡◌, ◌⊎◌, ◌↔◌, refl, subst, inl, inr, Bool, Option, none, some, List, [], ◌∷◌, In,
  arith,
}
use go_bricks_openapi.Prelude.Int.{ℤ, pos, eqb_ℤ_iff, ◌≤ℤ◌}
use go_bricks_openapi.Prelude.Dict.{lookup}
use go_bricks_openapi.Analyzer.Directive.Statuses.{IsErrorStatus}
use go_bricks_openapi.Analyzer.Directive.Merged.{Ascending, merge_error_statuses-Ascending}
use go_bricks_openapi.Analyzer.Constructors.{
  Expr, selector, ident, Call, ConstructorSpec, constructor_status, resolve, success_status,
  success_of_spec, status_for_constructor, error_of_spec, error_status_of, error_status_from_call,
  error_codes, infer_error_statuses,
}

abbrev IsSuccessStatus : ℤ → Type 0
IsSuccessStatus n = (pos 200 ≤ℤ n) × (n ≤ℤ pos 299)

success_status_bounds : (n : ℤ) → (success_status n ≡ pos 0) ⊎ IsSuccessStatus (success_status n)
unfolding success_status
success_status_bounds n = ground arith

module _ (shadows : String → ℕ → Bool) where
  success_of_spec_bounds :
      (spec : Option ConstructorSpec) (args : List Expr)
      → (success_of_spec shadows spec args ≡ pos 0)
        ⊎ IsSuccessStatus (success_of_spec shadows spec args)
  unfolding success_of_spec
  success_of_spec_bounds none args = inl refl
  success_of_spec_bounds (some spec) args =
      ground (arith, success_status_bounds (resolve shadows spec args))

  -- The status of a success constructor's call is zero or between 200 and 299.
  status_for_constructor_bounds :
      (name : String) (args : List Expr)
      → (status_for_constructor shadows name args ≡ pos 0)
        ⊎ IsSuccessStatus (status_for_constructor shadows name args)
  unfolding status_for_constructor
  status_for_constructor_bounds name args =
      success_of_spec_bounds (lookup name constructor_status) args

  error_of_spec_bounds :
      (spec : Option ConstructorSpec) (args : List Expr)
      → (error_of_spec shadows spec args ≡ pos 0) ⊎ IsErrorStatus (error_of_spec shadows spec args)
  unfolding error_of_spec
  error_of_spec_bounds none args = inl refl
  error_of_spec_bounds (some spec) args = ground arith

  module _ (server_aliases : List String) where
    error_status_of_bounds :
        (fun : Expr) (args : List Expr)
        → (error_status_of shadows server_aliases fun args ≡ pos 0)
          ⊎ IsErrorStatus (error_status_of shadows server_aliases fun args)
    unfolding error_status_of
    error_status_of_bounds (selector (ident name place) sel) args =
        ground (arith, error_of_spec_bounds (lookup sel constructor_status) args)
    error_status_of_bounds _ args = inl refl

    -- The call has the status, an error status.
    abbrev Produces : ℤ → Call → Type 0
    Produces c call = IsErrorStatus c × (error_status_from_call shadows server_aliases call ≡ c)

    In-error_codes_cons :
        (c : ℤ) (call : Call) (calls : List Call)
        → In c (error_codes shadows server_aliases (call ∷ calls))
          ↔ (Produces c call ⊎ In c (error_codes shadows server_aliases calls))
    unfolding error_codes error_status_from_call
    In-error_codes_cons c call calls = ground (
      arith,
      eqb_ℤ_iff (error_status_from_call shadows server_aliases call) (pos 0),
      error_status_of_bounds call.fun call.args,
    )

    error_codes_called :
        (c : ℤ) (calls : List Call)
        → In c (error_codes shadows server_aliases calls)
        → (call : Call) × In call calls × Produces c call
    unfolding error_codes
    error_codes_called c [] i = absurd i
    error_codes_called c (call ∷ calls) i = elim ((In-error_codes_cons c call calls).0 i) [
      | inl here ↦ (call, inl refl, here)
      | inr below ↦
          let (found, is_in, produces) = error_codes_called c calls below in
          (found, inr is_in, produces)
    ]

    error_codes_complete :
        (c : ℤ) (calls : List Call) (call : Call)
        → In call calls
        → Produces c call
        → In c (error_codes shadows server_aliases calls)
    error_codes_complete c [] call i h = absurd i
    error_codes_complete c (first ∷ calls) call (inl same) h =
        (In-error_codes_cons c first calls).1 (inl (subst (λ x. Produces c x) same h))
    error_codes_complete c (first ∷ calls) call (inr below) h =
        (In-error_codes_cons c first calls).1 (inr (error_codes_complete c calls call below h))

    -- The inferred statuses ascend strictly, and they are the error statuses, from 400 to 599, that
    -- the calls of the body produce.
    pub infer_error_statuses_lem :
        (calls : List Call) (c : ℤ)
        → Ascending (infer_error_statuses shadows server_aliases calls)
          × (In c (infer_error_statuses shadows server_aliases calls) ↔ (
              (call : Call) × In call calls
              × (IsErrorStatus c × (error_status_from_call shadows server_aliases call ≡ c))))
    unfolding infer_error_statuses
    infer_error_statuses_lem calls c =
        let (ascending, members) =
          merge_error_statuses-Ascending [] (error_codes shadows server_aliases calls) c tt in
        (
          ascending,
          (
            (λ i. elim (members.0 i) [
              | inl before ↦ absurd before
              | inr is_in ↦ error_codes_called c calls is_in
            ]),
            (λ h. members.1 (inr (error_codes_complete c calls h.0 h.1 h.2))),
          ),
        )
