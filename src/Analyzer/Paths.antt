-- ===== src/Analyzer/Paths.antt =====
-- normalizePath of internal/analyzer/analyzer.go: an Echo path with its parameters in braces.
pub mod Segments
pub mod Template
use Prim.Native.Char.{code}
use go_bricks_openapi.Prelude.{
  String, Bool, true, false, not, ◌&&◌, List, [], ◌∷◌, ◌==◌, eqb, if◌then◌else◌,
}
use go_bricks_openapi.Go.Strings.{str_cons, str_append, split, contains_any}

-- strings.Join(parts, "/")
unfoldable pub join_segments : List String → String
join_segments [] = ""
join_segments (p ∷ []) = p
join_segments (p ∷ q ∷ ps) = str_append p (str_append "/" (join_segments (q ∷ ps)))

unfoldable pub normalize_segment : String → String
normalize_segment String.[] = ""
normalize_segment (String.◌∷◌ c s) =
    if eqb (code c) b':' && not (s == "") then str_append "{" (str_append s "}") else str_cons c s

unfoldable pub normalize_segments : List String → List String
normalize_segments [] = []
normalize_segments (s ∷ ss) = normalize_segment s ∷ normalize_segments ss

unfoldable pub normalize_path : String → String
normalize_path path =
    if contains_any (λ c. eqb c b':') path
    then join_segments (normalize_segments (split b'/' path))
    else path
