-- ===== src/Go/Strings.antt =====
-- strings.Split, HasPrefix, HasSuffix, ReplaceAll and ContainsAny of one character, and
-- regexp.QuoteMeta. A loop is a function over the characters.
use Prim.Native.Char.{Char, code}
use Prim.Native.String
use go_bricks_openapi.Prelude.{
  ℕ, String, ◌≡◌, refl, Bool, true, false, ◌||◌, List, [], ◌∷◌, ◌==◌, eqb, if◌then◌else◌,
}

abbrev pub str_cons : Char → String → String
str_cons = String.◌∷◌

abbrev pub str_append : String → String → String
str_append = String.◌++◌

-- The characters of a text.
abbrev pub chars : String → List Char
chars String.[] = []
chars (String.◌∷◌ c s) = c ∷ chars s

abbrev pub text_of : List Char → String
text_of [] = ""
text_of (c ∷ cs) = str_cons c (text_of cs)

-- Puts a character in front of the first of some parts.
abbrev pub onto_first : Char → List String → List String
onto_first c [] = str_cons c "" ∷ []
onto_first c (p ∷ ps) = str_cons c p ∷ ps

-- strings.Split(s, sep) at a separator of one character.
unfoldable pub split : ℕ → String → List String
split sep String.[] = "" ∷ []
split sep (String.◌∷◌ c s) =
    let parts = split sep s in if eqb (code c) sep then "" ∷ parts else onto_first c parts

-- strings.HasPrefix(s, p) at a p of one character.
unfoldable pub has_prefix : ℕ → String → Bool
has_prefix p String.[] = false
has_prefix p (String.◌∷◌ c s) = eqb (code c) p

-- s without its last character, if that is `c`: `strings.HasSuffix` and the slice `s[:len(s)-1]`.
unfoldable pub cut_suffix : ℕ → List Char → List Char × Bool
cut_suffix p [] = ([], false)
cut_suffix p (c ∷ []) = if eqb (code c) p then ([], true) else (c ∷ [], false)
cut_suffix p (c ∷ d ∷ cs) = let (rest, found) = cut_suffix p (d ∷ cs) in (c ∷ rest, found)

-- strings.ReplaceAll(s, c, by) at a c of one character.
unfoldable pub replace_all : ℕ → String → String → String
replace_all c by String.[] = ""
replace_all c by (String.◌∷◌ d s) =
    let rest = replace_all c by s in if eqb (code d) c then str_append by rest else str_cons d rest

-- strings.ContainsAny(s, …) at a set of characters.
unfoldable pub contains_any : (ℕ → Bool) → String → Bool
contains_any p String.[] = false
contains_any p (String.◌∷◌ c s) = p (code c) || contains_any p s

-- The characters that QuoteMeta escapes: \.+*?()|[]{}^$
unfoldable pub is_meta : ℕ → Bool
is_meta c =
    eqb c b'\\'
    || eqb c b'.'
    || eqb c b'+'
    || eqb c b'*'
    || eqb c b'?'
    || eqb c b'('
    || eqb c b')'
    || eqb c b'|'
    || eqb c b'['
    || eqb c b']'
    || eqb c b'{'
    || eqb c b'}'
    || eqb c b'^'
    || eqb c b'$'

unfoldable pub quote_meta : String → String
unfolding is_meta
quote_meta String.[] = ""
quote_meta (String.◌∷◌ c s) =
    let rest = str_cons c (quote_meta s) in if is_meta (code c) then str_append "\\" rest else rest

quote_meta_runs : quote_meta "a.b$" ≡ "a\\.b\\$"
unfolding quote_meta
quote_meta_runs = refl

split_runs : split b'/' "/a//{id}" ≡ "" ∷ "a" ∷ "" ∷ "{id}" ∷ []
unfolding split
split_runs = refl

-- strings.HasSuffix(s, suffix)
unfoldable pub has_suffix : String → String → Bool
has_suffix suffix String.[] = suffix == ""
has_suffix suffix (String.◌∷◌ c s) = suffix == str_cons c s || has_suffix suffix s
