-- ===== src/Constraints/Numeric.antt =====
-- Numeric bounds on integers, and the comparisons of string lengths where no clamp interferes.
use go_bricks_openapi.Prelude.{
  ℕ, String, Bool, true, false, ◌≡◌, refl, ◌↔◌, Option, none, some, ◌==◌, eq_iff, arith, Bool-cases,
  inl, inr,
}
use go_bricks_openapi.Prelude.Int.{ℤ, pos, negsuc, ◌≤ℤ◌, ◌<ℤ◌, inc, dec, max_int64}
use go_bricks_openapi.Go.{Go}
use go_bricks_openapi.Go.Strconv.{atoi}
use go_bricks_openapi.Constraints.Bounds.{
  Number, exact, fractional, NumericBound, ConstraintSet, compare_int, compare_bounds,
  merge_numeric,
}
use go_bricks_openapi.Constraints.Rules.{
  clamp_non_neg, compared_length, apply_string_length_comparison,
}
use go_bricks_openapi.Constraints.Cardinality.{keep_larger-AtLeast, keep_smaller-AtMost}
use go_bricks_openapi.Constraints.LengthRules.{When, AllowsLength}

-- Whether an integer satisfies a lower or an upper bound, strictly or not.
abbrev Admits : Bool → Bool → ℤ → ℤ → Type 0
Admits true false n x = n ≤ℤ x
Admits true true n x = n <ℤ x
Admits false false n x = x ≤ℤ n
Admits false true n x = x <ℤ n

-- What an integer bound admits; a fractional one is compared as a float and left open here.
abbrev AdmitsNumber : {F : Type 0} → Bool → Bool → Number F → ℤ → Type 0
AdmitsNumber lower exclusive (exact n) x = Admits lower exclusive n x
AdmitsNumber lower exclusive (fractional f) x = Unit

abbrev pub AdmitsBound : {F : Type 0} → Bool → Option (NumericBound F) → ℤ → Type 0
AdmitsBound lower none x = Unit
AdmitsBound lower (some b) x = AdmitsNumber lower b.exclusive b.value x

abbrev IsExactNumber : {F : Type 0} → Number F → Type 0
IsExactNumber (exact n) = Unit
IsExactNumber (fractional f) = ⊥

abbrev pub IsExact : {F : Type 0} → Option (NumericBound F) → Type 0
IsExact none = Unit
IsExact (some b) = IsExactNumber b.value

module _ (go : Go) where
  open go use {Float}

  merge_exact :
      (n m : ℤ) (a b lower : Bool) (x : ℤ)
      → AdmitsBound lower
          (merge_numeric go
            (some (record { value = exact n; exclusive = a }))
            (record { value = exact m; exclusive = b })
            lower)
          x
        ↔ (Admits lower a n x × Admits lower b m x)
  unfolding merge_numeric compare_bounds compare_int
  merge_exact n m a b true x = ground arith
  merge_exact n m a b false x = ground arith

  merge_values :
      (u v : Number Float) (a b lower : Bool) (x : ℤ)
      → IsExactNumber u
      → IsExactNumber v
      → AdmitsBound lower
          (merge_numeric go
            (some (record { value = u; exclusive = a }))
            (record { value = v; exclusive = b })
            lower)
          x
        ↔ (AdmitsNumber lower a u x × AdmitsNumber lower b v x)
  merge_values (exact n) (exact m) a b lower x h k = merge_exact n m a b lower x
  merge_values (exact n) (fractional f) a b lower x h k = absurd k
  merge_values (fractional f) v a b lower x h k = absurd h

  -- Merging integer bounds keeps exactly the integers that both bounds admit, strict bounds
  -- included, whether the bounds are lower or upper ones.
  pub merge_numeric-AdmitsBound :
      (win : Option (NumericBound Float)) (cand : NumericBound Float) (lower : Bool) (x : ℤ)
      → IsExact win
      → IsExact (some cand)
      → AdmitsBound lower (merge_numeric go win cand lower) x
        ↔ (AdmitsBound lower win x × AdmitsBound lower (some cand) x)
  merge_numeric-AdmitsBound none cand lower x h k =
      unfold merge_numeric in ((λ a. (tt, a)), (λ a. a.1))
  merge_numeric-AdmitsBound (some win) cand lower x h k =
      merge_values win.value cand.value win.exclusive cand.exclusive lower x h k

-- What gt, gte, lt and lte ask of a length.
abbrev pub Compared : ℤ → String → ℤ → Type 0
Compared n key l =
    When (key == "gt") (n <ℤ l)
    × When (key == "gte") (n ≤ℤ l)
    × When (key == "lt") (l <ℤ n)
    × When (key == "lte") (l ≤ℤ n)

inc-positive :
    (n : ℤ) (l : ℕ)
    → pos 0 <ℤ n
    → n <ℤ pos max_int64
    → (clamp_non_neg (inc n) ≤ℤ pos l) ↔ (n <ℤ pos l)
unfolding inc clamp_non_neg
inc-positive (pos n) l h k = ground arith
inc-positive (negsuc n) l h k = absurd (omega arith)

dec-positive : (n : ℤ) (l : ℕ) → pos 0 <ℤ n → (pos l ≤ℤ clamp_non_neg (dec n)) ↔ (pos l <ℤ n)
unfolding dec clamp_non_neg
dec-positive (pos ℕ.zero) l h = absurd (omega arith)
dec-positive (pos (ℕ.suc n)) l h = ground arith
dec-positive (negsuc n) l h = absurd (omega arith)

clamp-positive : (n : ℤ) → pos 0 <ℤ n → clamp_non_neg n ≡ n
unfolding clamp_non_neg
clamp-positive (pos n) h = refl
clamp-positive (negsuc n) h = absurd (omega arith)

module _ {F : Type 0} where
  compared_length-AllowsLength :
      (s t : ConstraintSet F) (key : String) (n : ℤ) (l : ℕ)
      → pos 0 <ℤ n
      → n <ℤ pos max_int64
      → compared_length s key n ≡ some t
      → AllowsLength t (pos l) ↔ (AllowsLength s (pos l) × Compared n key (pos l))
  compared_length-AllowsLength s t key n l low high e = elim (Bool-cases (key == "gt")) [
    | inl p ↦
        let q = (eq_iff key "gt").0 p in
        rw q (
          ground (
            arith,
            rw q at e,
            inc-positive n l low high,
            keep_larger-AtLeast s.min_length (clamp_non_neg (inc n)) (pos l),
          ))
    | inr not_gt ↦ elim (Bool-cases (key == "gte")) [
      | inl p ↦
          let q = (eq_iff key "gte").0 p in
          rw q (
            ground
              (arith, rw q at e, clamp-positive n low, keep_larger-AtLeast s.min_length n (pos l)))
      | inr not_gte ↦ elim (Bool-cases (key == "lt")) [
        | inl p ↦
            let q = (eq_iff key "lt").0 p in
            rw q (
              ground (
                arith,
                rw q at e,
                dec-positive n l low,
                keep_smaller-AtMost s.max_length (clamp_non_neg (dec n)) (pos l),
              ))
        | inr not_lt ↦
            ground (arith, clamp-positive n low, keep_smaller-AtMost s.max_length n (pos l))
      ]
    ]
  ]

  -- Where the rule's value is positive and below the largest int, the emitted length bound admits
  -- exactly the lengths that satisfy the rule.
  apply_string_length_comparison-AllowsLength :
      (s t : ConstraintSet F) (key value : String) (n : ℤ) (l : ℕ)
      → atoi value ≡ some n
      → pos 0 <ℤ n
      → n <ℤ pos max_int64
      → apply_string_length_comparison s key value ≡ some t
      → AllowsLength t (pos l) ↔ (AllowsLength s (pos l) × Compared n key (pos l))
  unfolding apply_string_length_comparison
  apply_string_length_comparison-AllowsLength s t key value n l read low high e =
      compared_length-AllowsLength s t key n l low high
        (rw (read, apply_string_length_comparison) at e)
