-- ===== src/Analyzer/Paths/Template.antt =====
-- The parameters of a normalized path, internal/analyzer/analyzer.go, as the generator reads them
-- back from the template (pathTemplateVars of internal/generator/openapi.go).
use Prim.Native.Char.{Char, code}
use text.Mathlib.TextLemmas.{nil-append, cons-append}
use go_bricks_openapi.Prelude.{
  ℕ, String, ◌≡◌, ◌≢◌, refl, ap, true, false, some, List, [], ◌∷◌, ◌++◌, ◌==◌, eqb, In, arith,
  eq_iff, Option-cases, inl, inr,
}
use go_bricks_openapi.Go.Strings.{str_cons, str_append, chars, text_of, split, cut_suffix}
use go_bricks_openapi.Operations.Parameters.{template_var, vars_of, path_template_vars}
use go_bricks_openapi.Analyzer.Paths.{normalize_segment, normalize_segments, normalize_path}
use go_bricks_openapi.Analyzer.Paths.Segments.{split-normalize_path}

cut_suffix-snoc :
    (p : ℕ) (x : Char) (cs : List Char)
    → eqb (code x) p ≡ true
    → cut_suffix p (cs ++ (x ∷ [])) ≡ (cs, true)
unfolding cut_suffix
cut_suffix-snoc p x [] h = rw h refl
cut_suffix-snoc p x (c ∷ []) h = rw h refl
cut_suffix-snoc p x (c ∷ d ∷ cs) h = rw (cut_suffix-snoc p x (d ∷ cs) h) refl

chars-append : (s t : String) → chars (str_append s t) ≡ chars s ++ chars t
chars-append String.[] t = rw nil-append refl
chars-append (String.◌∷◌ c s) t = rw (cons-append) (ap (λ rest. c ∷ rest) (chars-append s t))

text_of-chars : (s : String) → text_of (chars s) ≡ s
text_of-chars String.[] = refl
text_of-chars (String.◌∷◌ c s) = ap (str_cons c) (text_of-chars s)

template_var_braces :
    (c : Char) (s : String)
    → template_var (str_append "{" (str_append (str_cons c s) "}")) ≡ some (str_cons c s)
unfolding template_var
template_var_braces c s =
    let inside = chars-append (str_cons c s) "}" in
    let cut = cut_suffix-snoc b'}' (Char.char 125 tt) (chars (str_cons c s)) refl in
    rw (cons-append, nil-append, inside, cut, text_of-chars s) refl

normalized_var :
    (name : String) → name ≢ "" → template_var (normalize_segment (str_append ":" name)) ≡ some name
unfolding normalize_segment
normalized_var String.[] ne = absurd (ne refl)
normalized_var (String.◌∷◌ c s) ne =
    let more : (str_cons c s == "") ≡ false = ground (arith, eq_iff (str_cons c s) "") in
    rw (cons-append, nil-append, more) (template_var_braces c s)

In-vars_of :
    (v seg : String) (segs : List String)
    → In seg segs
    → template_var (normalize_segment seg) ≡ some v
    → In v (vars_of (normalize_segments segs))
unfolding vars_of normalize_segments
In-vars_of v seg [] i e = absurd i
In-vars_of v seg (s ∷ segs) i e = elim (Option-cases (template_var (normalize_segment s))) [
  | inl nothing ↦ ground (arith, nothing, i, e, In-vars_of v seg segs)
  | inr found ↦ ground (arith, found.1, i, e, In-vars_of v seg segs)
]

-- Every segment :name of a route's path becomes a variable of the template that the generator
-- declares a parameter for.
pub path_template_vars-normalize_path :
    (path name : String)
    → name ≢ ""
    → In (str_append ":" name) (split b'/' path)
    → In name (path_template_vars (normalize_path path))
unfolding path_template_vars
path_template_vars-normalize_path path name ne i =
    rw (split-normalize_path path)
      (In-vars_of name (str_append ":" name) (split b'/' path) i (normalized_var name ne))
