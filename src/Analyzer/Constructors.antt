-- ===== src/Analyzer/Constructors.antt =====
-- internal/analyzer/constructors.go: the statuses of the go-bricks constructors that a handler calls,
-- with aliasContains of internal/analyzer/analyzer.go. The calls of a body are listed in the order in
-- which ast.Inspect of go/ast meets them; what the body shadows is an argument, as in the code.
pub mod Inferred
use go_bricks_openapi.Prelude.{
  ℕ, zero, suc, String, Bool, true, false, not, ◌||◌, Option, none, some, List, [], ◌∷◌, ◌==◌,
  is_some, one_of, if◌then◌else◌,
}
use go_bricks_openapi.Prelude.Int.{ℤ, pos, negsuc, ltb_ℤ, eqb_ℤ}
use go_bricks_openapi.Prelude.Dict.{Dict, lookup}
use go_bricks_openapi.Go.Strconv.{atoi}
use go_bricks_openapi.Analyzer.Directive.{error_status_min, error_status_max, merge_error_statuses}

-- The forms of an ast.Expr that are told apart: an identifier and a place, a selector, the text of
-- an integer literal, any other expression.
pub data Expr : Type 0 where
  ident : String → ℕ → Expr
  selector : Expr → String → Expr
  int_lit : String → Expr
  other : Expr

-- A call: the function and the arguments.
pub record Call : Type 0 where
  pub fun : Expr
  pub args : List Expr

pub record ConstructorSpec : Type 0 where
  pub status : ℤ
  pub status_arg : ℤ
  pub is_error : Bool

abbrev success_spec : ℤ → ConstructorSpec
success_spec status = record { status = status; status_arg = negsuc 0; is_error = false }

abbrev error_spec : ℤ → ConstructorSpec
error_spec status = record { status = status; status_arg = negsuc 0; is_error = true }

abbrev argument_spec : ℤ → Bool → ConstructorSpec
argument_spec i is_error = record { status = pos 0; status_arg = i; is_error = is_error }

unfoldable pub constructor_status : Dict ConstructorSpec
constructor_status =
    ("Created", success_spec (pos 201))
    ∷ ("Accepted", success_spec (pos 202))
    ∷ ("NoContent", success_spec (pos 204))
    ∷ ("NewResult", argument_spec (pos 0) false)
    ∷ ("NewResultWithMeta", argument_spec (pos 0) false)
    ∷ ("NewBadRequestError", error_spec (pos 400))
    ∷ ("NewValidationError", error_spec (pos 400))
    ∷ ("NewUnauthorizedError", error_spec (pos 401))
    ∷ ("NewForbiddenError", error_spec (pos 403))
    ∷ ("NewNotFoundError", error_spec (pos 404))
    ∷ ("NewConflictError", error_spec (pos 409))
    ∷ ("NewBusinessLogicError", error_spec (pos 422))
    ∷ ("NewTooManyRequestsError", error_spec (pos 429))
    ∷ ("NewInternalServerError", error_spec (pos 500))
    ∷ ("NewServiceUnavailableError", error_spec (pos 503))
    ∷ ("NewBaseAPIError", argument_spec (pos 2) true)
    ∷ []

unfoldable pub http_status_constants : Dict ℤ
http_status_constants =
    ("StatusOK", pos 200)
    ∷ ("StatusCreated", pos 201)
    ∷ ("StatusAccepted", pos 202)
    ∷ ("StatusNonAuthoritativeInfo", pos 203)
    ∷ ("StatusNoContent", pos 204)
    ∷ ("StatusResetContent", pos 205)
    ∷ ("StatusPartialContent", pos 206)
    ∷ ("StatusMultiStatus", pos 207)
    ∷ ("StatusAlreadyReported", pos 208)
    ∷ ("StatusIMUsed", pos 226)
    ∷ ("StatusBadRequest", pos 400)
    ∷ ("StatusUnauthorized", pos 401)
    ∷ ("StatusPaymentRequired", pos 402)
    ∷ ("StatusForbidden", pos 403)
    ∷ ("StatusNotFound", pos 404)
    ∷ ("StatusMethodNotAllowed", pos 405)
    ∷ ("StatusNotAcceptable", pos 406)
    ∷ ("StatusProxyAuthRequired", pos 407)
    ∷ ("StatusRequestTimeout", pos 408)
    ∷ ("StatusConflict", pos 409)
    ∷ ("StatusGone", pos 410)
    ∷ ("StatusLengthRequired", pos 411)
    ∷ ("StatusPreconditionFailed", pos 412)
    ∷ ("StatusRequestEntityTooLarge", pos 413)
    ∷ ("StatusRequestURITooLong", pos 414)
    ∷ ("StatusUnsupportedMediaType", pos 415)
    ∷ ("StatusRequestedRangeNotSatisfiable", pos 416)
    ∷ ("StatusExpectationFailed", pos 417)
    ∷ ("StatusTeapot", pos 418)
    ∷ ("StatusMisdirectedRequest", pos 421)
    ∷ ("StatusUnprocessableEntity", pos 422)
    ∷ ("StatusLocked", pos 423)
    ∷ ("StatusFailedDependency", pos 424)
    ∷ ("StatusTooEarly", pos 425)
    ∷ ("StatusUpgradeRequired", pos 426)
    ∷ ("StatusPreconditionRequired", pos 428)
    ∷ ("StatusTooManyRequests", pos 429)
    ∷ ("StatusRequestHeaderFieldsTooLarge", pos 431)
    ∷ ("StatusUnavailableForLegalReasons", pos 451)
    ∷ ("StatusInternalServerError", pos 500)
    ∷ ("StatusNotImplemented", pos 501)
    ∷ ("StatusBadGateway", pos 502)
    ∷ ("StatusServiceUnavailable", pos 503)
    ∷ ("StatusGatewayTimeout", pos 504)
    ∷ ("StatusHTTPVersionNotSupported", pos 505)
    ∷ ("StatusVariantAlsoNegotiates", pos 506)
    ∷ ("StatusInsufficientStorage", pos 507)
    ∷ ("StatusLoopDetected", pos 508)
    ∷ ("StatusNotExtended", pos 510)
    ∷ ("StatusNetworkAuthenticationRequired", pos 511)
    ∷ []

-- What a map of ints gives, zero where the key is missing.
unfoldable pub or_zero : Option ℤ → ℤ
or_zero none = pos 0
or_zero (some n) = n

unfoldable pub success_status : ℤ → ℤ
success_status code = if ltb_ℤ code (pos 200) || ltb_ℤ (pos 299) code then pos 0 else code

unfoldable pub alias_contains : List String → String → String → Bool
alias_contains server_aliases name default_alias = elim server_aliases [
  | [] ↦ name == default_alias
  | alias ∷ more ↦ one_of name (alias ∷ more)
]

module _ (shadows : String → ℕ → Bool) where
  unfoldable pub status_from_arg : Expr → ℤ
  status_from_arg (int_lit value) = or_zero (atoi value)
  status_from_arg (selector (ident name place) sel) =
      if not (name == "http") || shadows name place
      then pos 0
      else or_zero (lookup sel http_status_constants)
  status_from_arg _ = pos 0

  -- The status of the argument at a place that is not negative.
  unfoldable pub status_at : ℕ → List Expr → ℤ
  status_at n [] = pos 0
  status_at zero (arg ∷ args) = status_from_arg arg
  status_at (suc n) (arg ∷ args) = status_at n args

  unfoldable pub resolve : ConstructorSpec → List Expr → ℤ
  resolve s args = elim s.status_arg [ negsuc n ↦ s.status | pos n ↦ status_at n args ]

  unfoldable pub success_of_spec : Option ConstructorSpec → List Expr → ℤ
  success_of_spec none args = pos 0
  success_of_spec (some spec) args =
      if spec.is_error then pos 0 else success_status (resolve spec args)

  unfoldable pub status_for_constructor : String → List Expr → ℤ
  status_for_constructor name args = success_of_spec (lookup name constructor_status) args

  unfoldable pub success_status_from_arg : Expr → ℤ
  success_status_from_arg arg = success_status (status_from_arg arg)

  unfoldable pub error_of_spec : Option ConstructorSpec → List Expr → ℤ
  error_of_spec none args = pos 0
  error_of_spec (some spec) args =
      let code = resolve spec args in
      if not spec.is_error || ltb_ℤ code error_status_min || ltb_ℤ error_status_max code
      then pos 0
      else code

  module _ (server_aliases : List String) where
    unfoldable pub error_status_of : Expr → List Expr → ℤ
    error_status_of (selector (ident name place) sel) args =
        if not (alias_contains server_aliases name "server") || shadows name place
        then pos 0
        else error_of_spec (lookup sel constructor_status) args
    error_status_of _ args = pos 0

    unfoldable pub error_status_from_call : Call → ℤ
    error_status_from_call call = error_status_of call.fun call.args

    unfoldable pub error_codes : List Call → List ℤ
    error_codes [] = []
    error_codes (call ∷ calls) =
        let code = error_status_from_call call in
        let codes = error_codes calls in if eqb_ℤ code (pos 0) then codes else code ∷ codes

    -- The calls of the handler's body, none where it has no body.
    unfoldable pub infer_error_statuses : List Call → List ℤ
    infer_error_statuses calls = merge_error_statuses [] (error_codes calls)
