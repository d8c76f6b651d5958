-- ===== src/Go/Decimal.antt =====
-- The decimal digits of a number read back as the number, so two numbers never print alike.
use Prim.Native.Char.{Char, code}
use Prim.Native.String
use text.Mathlib.TextLemmas.{nil-append, cons-append}
use go_bricks_openapi.Prelude.{
  ℕ, zero, suc, ◌+◌, ◌*◌, ◌/◌, ◌%◌, ◌<◌, String, ◌≡◌, refl, ap, ◌∙◌, ◌≢◌, true, some, arith, leb,
  ltb, ◌-◌, ◌&&◌, Bool-cases, inl, inr,
}
use go_bricks_openapi.Prelude.Int.{pos}
use go_bricks_openapi.Go.Strconv.{digits, digit, decimal, itoa}

one_char :
    (c : Char) (a : ℕ) (out : String)
    → (leb 48 (code c) && leb (code c) 57) ≡ true
    → digits a (String.◌++◌ (String.◌∷◌ c "") out) ≡ digits (a * 10 + (code c - 48)) out
unfolding digits
one_char c a out h = rw (cons-append, nil-append) (rw h refl)

last_digit : (n : ℕ) → n < 10 → 0 * 10 + n % 10 ≡ n
last_digit n h = omega arith

div_mod : (n : ℕ) → n / 10 * 10 + n % 10 ≡ n
div_mod n = omega arith

-- Reading one printed digit.
digits-digit :
    (a d : ℕ) (out : String)
    → d < 10
    → digits a (String.◌++◌ (digit d) out) ≡ digits (a * 10 + d) out
unfolding digit
digits-digit a zero out h = one_char "0" a out refl
digits-digit a (suc zero) out h = one_char "1" a out refl
digits-digit a (suc (suc zero)) out h = one_char "2" a out refl
digits-digit a (suc (suc (suc zero))) out h = one_char "3" a out refl
digits-digit a (suc (suc (suc (suc zero)))) out h = one_char "4" a out refl
digits-digit a (suc (suc (suc (suc (suc zero))))) out h = one_char "5" a out refl
digits-digit a (suc (suc (suc (suc (suc (suc zero)))))) out h = one_char "6" a out refl
digits-digit a (suc (suc (suc (suc (suc (suc (suc zero))))))) out h = one_char "7" a out refl
digits-digit a (suc (suc (suc (suc (suc (suc (suc (suc zero)))))))) out h = one_char "8" a out refl
digits-digit a (suc (suc (suc (suc (suc (suc (suc (suc (suc zero))))))))) out h =
    one_char "9" a out refl
digits-digit a (suc (suc (suc (suc (suc (suc (suc (suc (suc (suc d)))))))))) out h =
    absurd (omega arith)

digits-decimal :
    (fuel n : ℕ) (out : String) → n < fuel → digits 0 (decimal fuel n out) ≡ digits n out
unfolding decimal
digits-decimal zero n out h = absurd (omega arith)
digits-decimal (suc fuel) n out h = elim (Bool-cases (ltb n 10)) [
  | inl small ↦ rw small (
      digits-digit 0 (n % 10) out (omega arith)
      ∙ ap (λ k. digits k out) (last_digit n (ground arith)))
  | inr large ↦ rw large (
      digits-decimal fuel (n / 10) (String.◌++◌ (digit (n % 10)) out) (ground arith)
      ∙ digits-digit (n / 10) (n % 10) out (omega arith)
      ∙ ap (λ k. digits k out) (div_mod n))
]

value_of_itoa : (n : ℕ) → digits 0 (itoa (pos n)) ≡ some n
unfolding itoa
value_of_itoa n = digits-decimal (suc n) n "" (omega arith) ∙ (unfold digits in refl)

pub itoa-injective : (n m : ℕ) → itoa (pos n) ≡ itoa (pos m) → n ≡ m
itoa-injective n m e = cc (value_of_itoa n, value_of_itoa m, ap (digits 0) e)

-- The empty text reads as zero.
digits_of_empty : digits 0 "" ≡ some 0
unfolding digits
digits_of_empty = refl

pub itoa-ne-empty : (n : ℕ) → 0 < n → itoa (pos n) ≢ ""
itoa-ne-empty n h e = let read = ap (digits 0) e in ground (arith, value_of_itoa n, digits_of_empty)
