-- ===== src/Go/Strconv.antt =====
-- strconv.ParseInt(s, 10, 64), strconv.Atoi on a 64-bit target, and strconv.Itoa.
use Prim.Native.Char.{code}
use Prim.Native.String
use go_bricks_openapi.Prelude.{
  ℕ, zero, suc, ◌+◌, ◌-◌, ◌*◌, ◌/◌, ◌%◌, String, ◌≡◌, refl, Bool, true, false, ◌&&◌, Option, none,
  some, leb, ltb, eqb, one_of, [], ◌∷◌, if◌then◌else◌,
}
use go_bricks_openapi.Prelude.Int.{ℤ, pos, negsuc, max_int64}

-- The digits of a number in base ten; a character that is no digit is a syntax error.
unfoldable pub digits : ℕ → String → Option ℕ
digits n String.[] = some n
digits n (String.◌∷◌ c s) =
    let rest = digits (n * 10 + (code c - 48)) s in
    if leb 48 (code c) && leb (code c) 57 then rest else none

-- At least one digit.
number : String → Option ℕ
number String.[] = none
number (String.◌∷◌ c s) = digits 0 (String.◌∷◌ c s)

-- Out of the range of an int64 there is an error too.
positive : Option ℕ → Option ℤ
positive none = none
positive (some n) = if leb n max_int64 then some (pos n) else none

negative : Option ℕ → Option ℤ
negative none = none
negative (some zero) = some (pos 0)
negative (some (suc n)) = if leb n max_int64 then some (negsuc n) else none

unfoldable pub parse_int : String → Option ℤ
unfolding digits number positive negative
parse_int String.[] = none
parse_int (String.◌∷◌ c s) =
    if eqb (code c) b'-'
    then negative (number s)
    else if eqb (code c) b'+'
    then positive (number s)
    else positive (number (String.◌∷◌ c s))

-- Atoi parses as ParseInt does, into an int of 64 bits.
unfoldable pub atoi : String → Option ℤ
unfolding parse_int
atoi = parse_int

unfoldable pub digit : ℕ → String
digit n =
    if eqb n 0
    then "0"
    else if eqb n 1
    then "1"
    else if eqb n 2
    then "2"
    else if eqb n 3
    then "3"
    else if eqb n 4
    then "4"
    else if eqb n 5
    then "5"
    else if eqb n 6
    then "6"
    else if eqb n 7
    then "7"
    else if eqb n 8
    then "8"
    else "9"

-- The fuel is the number itself: each round divides it by ten.
unfoldable pub decimal : ℕ → ℕ → String → String
decimal zero n out = out
decimal (suc fuel) n out =
    let out' = String.◌++◌ (digit (n % 10)) out in
    let more = decimal fuel (n / 10) out' in if ltb n 10 then out' else more

unfoldable pub itoa : ℤ → String
unfolding digit decimal
itoa (pos n) = decimal (suc n) n ""
itoa (negsuc n) = String.◌++◌ "-" (decimal (suc (suc n)) (suc n) "")

itoa_runs : (itoa (pos 204) ≡ "204") × (itoa (negsuc 99) ≡ "-100") × (itoa (pos 0) ≡ "0")
unfolding itoa
itoa_runs = (refl, refl, refl)

parse_int_runs :
    (parse_int "+05" ≡ some (pos 5))
    × (parse_int "-7" ≡ some (negsuc 6))
    × (parse_int "" ≡ none)
    × (parse_int "1_0" ≡ none)
    × (parse_int "9223372036854775808" ≡ none)
    × (parse_int "-9223372036854775808" ≡ some (negsuc max_int64))
    × (parse_int "-" ≡ none)
unfolding parse_int
parse_int_runs = (refl, refl, refl, refl, refl, refl, refl)

-- strconv.ParseBool
unfoldable pub parse_bool : String → Option Bool
parse_bool s =
    if one_of s ("1" ∷ "t" ∷ "T" ∷ "TRUE" ∷ "true" ∷ "True" ∷ [])
    then some true
    else if one_of s ("0" ∷ "f" ∷ "F" ∷ "FALSE" ∷ "false" ∷ "False" ∷ [])
    then some false
    else none
