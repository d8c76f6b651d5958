-- ===== src/Commands/Unresolved.antt =====
-- internal/commands/unresolved.go: the lines about routes whose path could not be resolved.
use go_bricks_openapi.Prelude.{ℕ, String, List, [], ◌∷◌, length, is_empty, if◌then◌else◌}
use go_bricks_openapi.Prelude.Int.{pos}
use go_bricks_openapi.Go.Strconv.{itoa}
use go_bricks_openapi.Commands.Monad.{◌<>◌}

-- models.UnresolvedRoute
pub record UnresolvedRoute : Type 0 where
  pub form : String
  pub file : String
  pub line : ℕ
  pub col : ℕ
  pub reason : String

unfoldable pub unresolved_route_count_line : List UnresolvedRoute → String
unresolved_route_count_line routes =
    if is_empty routes then "" else "Unresolved routes: " <> itoa (pos (length routes))

unfoldable pub unresolved_route_locations : List UnresolvedRoute → List String
unresolved_route_locations [] = []
unresolved_route_locations (r ∷ rs) =
    (r.form
      <> " at "
      <> r.file
      <> ":"
      <> itoa (pos r.line)
      <> ":"
      <> itoa (pos r.col)
      <> " — "
      <> r.reason)
    ∷ unresolved_route_locations rs
