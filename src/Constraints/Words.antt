-- ===== src/Constraints/Words.antt =====
-- tokenizeOneOf reads back the values that a oneof rule lists.
use Prim.Native.Char.{Char, code}
use mathlib.Core.List.{append_assoc, append-nil}
use go_bricks_openapi.Prelude.{
  true, false, ◌≡◌, refl, ap, sym, ◌∙◌, ◌≢◌, List, [], ◌∷◌, ◌++◌, arith, All,
}
use go_bricks_openapi.Go.Strings.{chars, text_of}
use go_bricks_openapi.Constraints.Tokens.{flush, tokens_from, texts, tokenize_one_of}

abbrev quote : Char
quote = "'"

abbrev space : Char
space = " "

-- A value as written: bare, or between single quotes.
pub data Word : Type 0 where
  bare quoted : List Char → Word

abbrev pub value : Word → List Char
value (bare cs) = cs
value (quoted cs) = cs

abbrev written : Word → List Char
written (bare cs) = cs
written (quoted cs) = quote ∷ (cs ++ quote ∷ [])

abbrev Plain : Char → Type 0
Plain c = (code c ≢ b'\'') × (code c ≢ b' ')

abbrev NoQuote : Char → Type 0
NoQuote c = code c ≢ b'\''

-- A value is not empty; it holds no quote, and no space if it is bare.
abbrev pub IsWord : Word → Type 0
IsWord (bare []) = ⊥
IsWord (bare (c ∷ cs)) = All Plain (c ∷ cs)
IsWord (quoted []) = ⊥
IsWord (quoted (c ∷ cs)) = All NoQuote (c ∷ cs)

-- The values, separated by a space.
unfoldable pub write_words : List Word → List Char
write_words [] = []
write_words (w ∷ []) = written w
write_words (w ∷ v ∷ ws) = written w ++ space ∷ write_words (v ∷ ws)

unfoldable pub values : List Word → List (List Char)
values [] = []
values (w ∷ ws) = value w ∷ values ws

chars-text_of : (cs : List Char) → chars (text_of cs) ≡ cs
chars-text_of [] = refl
chars-text_of (c ∷ cs) = ap (◌∷◌ c) (chars-text_of cs)

Plain-run :
    (out : List (List Char)) (b cs rest : List Char)
    → All Plain cs
    → tokens_from out b false (cs ++ rest) ≡ tokens_from out (b ++ cs) false rest
unfolding tokens_from
Plain-run out b [] rest h = rw append-nil
Plain-run out b (c ∷ cs) rest (p, h) =
    ground (arith, Plain-run out (b ++ c ∷ []) cs rest h, append_assoc b (c ∷ []) cs)

quoted_run :
    (out : List (List Char)) (b cs rest : List Char)
    → All NoQuote cs
    → tokens_from out b true (cs ++ rest) ≡ tokens_from out (b ++ cs) true rest
unfolding tokens_from
quoted_run out b [] rest h = rw append-nil
quoted_run out b (c ∷ cs) rest (p, h) =
    ground (arith, quoted_run out (b ++ c ∷ []) cs rest h, append_assoc b (c ∷ []) cs)

module _ (out : List (List Char)) (b rest : List Char) where
  open_quote : tokens_from out b false (quote ∷ rest) ≡ tokens_from out b true rest
  unfolding tokens_from
  open_quote = refl

  close_quote : tokens_from out b true (quote ∷ rest) ≡ tokens_from out b false rest
  unfolding tokens_from
  close_quote = refl

  at_space : tokens_from out b false (space ∷ rest) ≡ tokens_from (flush out b) [] false rest
  unfolding tokens_from
  at_space = refl

at_end : (out : List (List Char)) (b : List Char) → tokens_from out b false [] ≡ flush out b
unfolding tokens_from
at_end out b = refl

-- A written value moves whole into the empty builder.
word_run :
    (out : List (List Char)) (w : Word) (rest : List Char)
    → IsWord w
    → tokens_from out [] false (written w ++ rest) ≡ tokens_from out (value w) false rest
word_run out (bare []) rest h = absurd h
word_run out (bare (c ∷ cs)) rest h = Plain-run out [] (c ∷ cs) rest h
word_run out (quoted []) rest h = absurd h
word_run out (quoted (c ∷ cs)) rest h =
    open_quote out [] (((c ∷ cs) ++ quote ∷ []) ++ rest)
    ∙ ap (tokens_from out [] true) (append_assoc (c ∷ cs) (quote ∷ []) rest)
    ∙ quoted_run out [] (c ∷ cs) (quote ∷ rest) h
    ∙ close_quote out (c ∷ cs) rest

flush_word :
    (out : List (List Char)) (w : Word) → IsWord w → flush out (value w) ≡ out ++ value w ∷ []
flush_word out (bare []) h = absurd h
flush_word out (bare (c ∷ cs)) h = refl
flush_word out (quoted []) h = absurd h
flush_word out (quoted (c ∷ cs)) h = refl

tokens_from-write_words :
    (out : List (List Char)) (ws : List Word)
    → All IsWord ws
    → tokens_from out [] false (write_words ws) ≡ out ++ values ws
unfolding write_words values
tokens_from-write_words out [] h = at_end out [] ∙ sym (append-nil out)
tokens_from-write_words out (w ∷ []) (p, h) =
    ap (tokens_from out [] false) (sym (append-nil (written w)))
    ∙ word_run out w [] p
    ∙ at_end out (value w)
    ∙ flush_word out w p
tokens_from-write_words out (w ∷ v ∷ ws) (p, h) =
    word_run out w (space ∷ write_words (v ∷ ws)) p
    ∙ at_space out (value w) (write_words (v ∷ ws))
    ∙ ap (λ o. tokens_from o [] false (write_words (v ∷ ws))) (flush_word out w p)
    ∙ tokens_from-write_words (out ++ value w ∷ []) (v ∷ ws) h
    ∙ append_assoc out (value w ∷ []) (values (v ∷ ws))

-- The values of a oneof rule, written bare or in single quotes and separated by a space, are read
-- back in their order, if none is empty or holds a quote, and no bare one holds a space.
pub tokenize_one_of-write_words :
    (ws : List Word)
    → All IsWord ws
    → tokenize_one_of (text_of (write_words ws)) ≡ texts (values ws)
unfolding tokenize_one_of
tokenize_one_of-write_words ws h =
    rw (chars-text_of (write_words ws)) (ap texts (tokens_from-write_words [] ws h))
