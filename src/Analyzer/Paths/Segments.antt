-- ===== src/Analyzer/Paths/Segments.antt =====
-- The segments of a normalized path, internal/analyzer/analyzer.go.
use Prim.Native.Char.{Char, code}
use text.Mathlib.TextLemmas.{nil-append, cons-append}
use go_bricks_openapi.Prelude.{
  ℕ, String, ◌≡◌, refl, sym, ap, ◌∙◌, Bool, false, ◌||◌, List, [], ◌∷◌, eqb, All, arith, Bool-cases,
  inl, inr,
}
use go_bricks_openapi.Go.Strings.{str_append, split, contains_any, onto_first}
use go_bricks_openapi.Analyzer.Paths.{
  join_segments, normalize_segment, normalize_segments, normalize_path,
}

-- A text without a slash.
abbrev NoSlash : String → Type 0
NoSlash s = contains_any (λ c. eqb c b'/') s ≡ false

split-NoSlash : (s : String) → NoSlash s → split b'/' s ≡ s ∷ []
unfolding split contains_any
split-NoSlash String.[] h = refl
split-NoSlash (String.◌∷◌ c s) h = ground (arith, split-NoSlash s)

split_append_slash :
    (s t : String) → NoSlash s → split b'/' (str_append s (str_append "/" t)) ≡ s ∷ split b'/' t
unfolding split contains_any
split_append_slash String.[] t h = rw (nil-append, cons-append, nil-append) refl
split_append_slash (String.◌∷◌ c s) t h =
    let tail : NoSlash s = ground (arith, h) in
    let this : eqb (code c) b'/' ≡ false = ground (arith, h) in
    rw (cons-append, split, split_append_slash s t tail, this) refl

contains_any-append :
    (p : ℕ → Bool) (s t : String)
    → contains_any p (str_append s t) ≡ (contains_any p s || contains_any p t)
unfolding contains_any
contains_any-append p String.[] t = rw nil-append refl
contains_any-append p (String.◌∷◌ c s) t =
    rw (cons-append, contains_any) (ground (arith, contains_any-append p s t))

NoSlash-onto_first :
    (c : Char) (ps : List String)
    → eqb (code c) b'/' ≡ false
    → All NoSlash ps
    → All NoSlash (onto_first c ps)
unfolding contains_any
NoSlash-onto_first c [] e h = (ground (arith, e), tt)
NoSlash-onto_first c (p ∷ ps) e h = (ground (arith, e, h.0), h.1)

NoSlash-split : (s : String) → All NoSlash (split b'/' s)
unfolding split contains_any
NoSlash-split String.[] = (refl, tt)
NoSlash-split (String.◌∷◌ c s) = elim (Bool-cases (eqb (code c) b'/')) [
  | inl e ↦ rw (e, split) (refl, NoSlash-split s)
  | inr e ↦ rw (e, split) (NoSlash-onto_first c (split b'/' s) e (NoSlash-split s))
]

-- A text that is split has a first part.
abbrev IsFilled : List String → Type 0
IsFilled [] = ⊥
IsFilled (p ∷ ps) = Unit

onto_first-IsFilled : (c : Char) (ps : List String) → IsFilled (onto_first c ps)
onto_first-IsFilled c [] = tt
onto_first-IsFilled c (p ∷ ps) = tt

split-IsFilled : (s : String) → IsFilled (split b'/' s)
unfolding split
split-IsFilled String.[] = tt
split-IsFilled (String.◌∷◌ c s) = elim (Bool-cases (eqb (code c) b'/')) [
  | inl e ↦ rw (e, split) tt
  | inr e ↦ rw (e, split) (onto_first-IsFilled c (split b'/' s))
]

split-join_segments :
    (ps : List String) → IsFilled ps → All NoSlash ps → split b'/' (join_segments ps) ≡ ps
unfolding join_segments
split-join_segments [] f h = absurd f
split-join_segments (p ∷ []) f h = split-NoSlash p h.0
split-join_segments (p ∷ q ∷ ps) f h =
    split_append_slash p (join_segments (q ∷ ps)) h.0
    ∙ ap (λ rest. p ∷ rest) (split-join_segments (q ∷ ps) tt h.1)

NoSlash-normalize_segment : (s : String) → NoSlash s → NoSlash (normalize_segment s)
unfolding normalize_segment contains_any
NoSlash-normalize_segment String.[] h = refl
NoSlash-normalize_segment (String.◌∷◌ c s) h =
    let braces = contains_any-append (λ d. eqb d b'/') "{" (str_append s "}") in
    let closing = contains_any-append (λ d. eqb d b'/') s "}" in ground (arith, h, braces, closing)

NoSlash-normalize_segments :
    (ps : List String) → All NoSlash ps → All NoSlash (normalize_segments ps)
unfolding normalize_segments
NoSlash-normalize_segments [] h = tt
NoSlash-normalize_segments (p ∷ ps) h =
    (NoSlash-normalize_segment p h.0, NoSlash-normalize_segments ps h.1)

IsFilled-normalize_segments : (ps : List String) → IsFilled ps → IsFilled (normalize_segments ps)
unfolding normalize_segments
IsFilled-normalize_segments [] f = f
IsFilled-normalize_segments (p ∷ ps) f = tt

-- A path without a colon has no segment to normalize.
abbrev NoColon : String → Type 0
NoColon s = contains_any (λ c. eqb c b':') s ≡ false

normalize_segment-NoColon : (s : String) → NoColon s → normalize_segment s ≡ s
unfolding normalize_segment contains_any
normalize_segment-NoColon String.[] h = refl
normalize_segment-NoColon (String.◌∷◌ c s) h = ground (arith, h)

NoColon-onto_first :
    (c : Char) (ps : List String)
    → eqb (code c) b':' ≡ false
    → All NoColon ps
    → All NoColon (onto_first c ps)
unfolding contains_any
NoColon-onto_first c [] e h = (ground (arith, e), tt)
NoColon-onto_first c (p ∷ ps) e h = (ground (arith, e, h.0), h.1)

NoColon-split : (s : String) → NoColon s → All NoColon (split b'/' s)
unfolding split contains_any
NoColon-split String.[] h = (refl, tt)
NoColon-split (String.◌∷◌ c s) h =
    let head : eqb (code c) b':' ≡ false = ground (arith, h) in
    let tail : NoColon s = ground (arith, h) in
    elim (Bool-cases (eqb (code c) b'/')) [
      | inl e ↦ rw (e, split) (refl, NoColon-split s tail)
      | inr e ↦ rw (e, split) (NoColon-onto_first c (split b'/' s) head (NoColon-split s tail))
    ]

normalize_segments-NoColon : (ps : List String) → All NoColon ps → normalize_segments ps ≡ ps
unfolding normalize_segments
normalize_segments-NoColon [] h = refl
normalize_segments-NoColon (p ∷ ps) h =
    rw (normalize_segment-NoColon p h.0, normalize_segments-NoColon ps h.1) refl

-- The segments of a normalized path are the normalized segments of the path: no segment is lost,
-- split or joined.
pub split-normalize_path :
    (path : String) → split b'/' (normalize_path path) ≡ normalize_segments (split b'/' path)
unfolding normalize_path
split-normalize_path path = elim (Bool-cases (contains_any (λ c. eqb c b':') path)) [
  | inl e ↦
      rw (e, normalize_path)
        (split-join_segments (normalize_segments (split b'/' path))
          (IsFilled-normalize_segments (split b'/' path) (split-IsFilled path))
          (NoSlash-normalize_segments (split b'/' path) (NoSlash-split path)))
  | inr e ↦
      rw (e, normalize_path)
        (sym (normalize_segments-NoColon (split b'/' path) (NoColon-split path e)))
]
