-- ===== src/Constraints/Tokens.antt =====
-- tokenizeOneOf: the values of a oneof rule, split on spaces outside single quotes. The loop walks
-- the characters; the separators are single bytes in UTF-8, so that is the walk over bytes.
use Prim.Native.Char.{Char, code}
use go_bricks_openapi.Prelude.{
  String, Bool, false, not, List, [], ◌∷◌, ◌++◌, ◌≡◌, refl, eqb, if◌then◌else◌,
}
use go_bricks_openapi.Go.Strings.{chars, text_of}

-- The closure `flush`: the builder is moved to the output unless it is empty.
abbrev pub flush : List (List Char) → List Char → List (List Char)
flush out [] = out
flush out (c ∷ b) = out ++ (c ∷ b) ∷ []

-- The loop over out, the builder b, inQuote and the unread characters.
unfoldable pub tokens_from : List (List Char) → List Char → Bool → List Char → List (List Char)
tokens_from out b quoted [] = flush out b
tokens_from out b quoted (c ∷ cs) =
    let toggled = tokens_from out b (not quoted) cs in
    let closed = tokens_from (flush out b) [] false cs in
    let longer = tokens_from out (b ++ c ∷ []) quoted cs in
    if eqb (code c) b'\''
    then toggled
    else if eqb (code c) b' '
    then (if quoted then longer else closed)
    else longer

abbrev pub texts : List (List Char) → List String
texts [] = []
texts (t ∷ ts) = text_of t ∷ texts ts

unfoldable pub tokenize_one_of : String → List String
unfolding tokens_from
tokenize_one_of s = texts (tokens_from [] [] false (chars s))

tokenize_one_of_runs :
    (tokenize_one_of "'New York' 'Los Angeles'" ≡ "New York" ∷ "Los Angeles" ∷ [])
    × (tokenize_one_of " active  pending " ≡ "active" ∷ "pending" ∷ [])
unfolding tokenize_one_of
tokenize_one_of_runs = (refl, refl)
