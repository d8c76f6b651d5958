-- ===== src/Constraints/LengthRules.antt =====
-- What each handler of a rule does to the bounds on the length of a string.
use go_bricks_openapi.Prelude.{
  ℕ, String, Bool, true, false, ◌≡◌, Option, none, some, ◌==◌, arith, Option-cases, inl, inr,
}
use go_bricks_openapi.Prelude.Int.{ℤ, pos, negsuc, ◌≤ℤ◌, ◌<ℤ◌, inc, dec}
use go_bricks_openapi.Go.{Go}
use go_bricks_openapi.Go.Strconv.{atoi}
use go_bricks_openapi.Shapes.{is_effective_string}
use go_bricks_openapi.Constraints.Bounds.{ConstraintSet}
use go_bricks_openapi.Constraints.Rules.{
  clamp_non_neg, apply_format_constraint, apply_pattern_format_constraint, apply_len_constraint,
  apply_string_length_comparison, apply_pattern_constraint, compared_length,
}
use go_bricks_openapi.Constraints.Scalars.{
  apply_min_constraint, apply_max_constraint, apply_numeric_comparison, apply_enum_constraint,
  apply_eq_constraint,
}
use go_bricks_openapi.Constraints.Cardinality.{
  AtLeast, AtMost, keep_larger-AtLeast, keep_smaller-AtMost,
}

-- What holds if a test passes.
abbrev pub When : Bool → Type 0 → Type 0
When true P = P
When false P = Unit

-- What a rule asks of the length of a string; gt, gte, lt and lte compare the length too. A rule
-- whose value is no integer asks nothing.
abbrev pub LengthRule : Option ℤ → String → ℤ → Type 0
LengthRule none key l = Unit
LengthRule (some n) key l =
    When (key == "min") (n ≤ℤ l)
    × When (key == "max") (l ≤ℤ n)
    × When (key == "len") ((n ≤ℤ l) × (l ≤ℤ n))
    × When (key == "gt") (n <ℤ l)
    × When (key == "gte") (n ≤ℤ l)
    × When (key == "lt") (l <ℤ n)
    × When (key == "lte") (l ≤ℤ n)

inc-clamp : (n : ℤ) (l : ℕ) → n <ℤ pos l → clamp_non_neg (inc n) ≤ℤ pos l
unfolding inc clamp_non_neg
inc-clamp (pos n) l h = ground arith
inc-clamp (negsuc ℕ.zero) l h = ground arith
inc-clamp (negsuc (ℕ.suc n)) l h = ground arith

dec-clamp : (n : ℤ) (l : ℕ) → pos l <ℤ n → pos l ≤ℤ clamp_non_neg (dec n)
unfolding dec clamp_non_neg
dec-clamp (pos ℕ.zero) l h = absurd (omega arith)
dec-clamp (pos (ℕ.suc n)) l h = ground arith
dec-clamp (negsuc n) l h = absurd (omega arith)

clamp-le : (n : ℤ) (l : ℕ) → n ≤ℤ pos l → clamp_non_neg n ≤ℤ pos l
unfolding clamp_non_neg
clamp-le (pos n) l h = h
clamp-le (negsuc n) l h = omega arith

le-clamp : (n : ℤ) (l : ℕ) → pos l ≤ℤ n → pos l ≤ℤ clamp_non_neg n
unfolding clamp_non_neg
le-clamp (pos n) l h = h
le-clamp (negsuc n) l h = absurd (omega arith)

module _ {F : Type 0} where
  abbrev pub AllowsLength : ConstraintSet F → ℤ → Type 0
  AllowsLength s l = AtLeast s.min_length l × AtMost s.max_length l

  pub compared_length_sound :
      (s t : ConstraintSet F) (key : String) (n : ℤ) (l : ℕ)
      → compared_length s key n ≡ some t
      → AllowsLength s (pos l)
      → LengthRule (some n) key (pos l)
      → AllowsLength t (pos l)
  compared_length_sound s t key n l e a r = ground (
    arith,
    keep_larger-AtLeast s.min_length (clamp_non_neg (inc n)) (pos l),
    keep_larger-AtLeast s.min_length (clamp_non_neg n) (pos l),
    keep_smaller-AtMost s.max_length (clamp_non_neg (dec n)) (pos l),
    keep_smaller-AtMost s.max_length (clamp_non_neg n) (pos l),
    inc-clamp n l,
    dec-clamp n l,
    clamp-le n l,
    le-clamp n l,
  )

  pub apply_string_length_comparison_sound :
      (s t : ConstraintSet F) (key value : String) (l : ℕ)
      → apply_string_length_comparison s key value ≡ some t
      → AllowsLength s (pos l)
      → LengthRule (atoi value) key (pos l)
      → AllowsLength t (pos l)
  unfolding apply_string_length_comparison
  apply_string_length_comparison_sound s t key value l e a r = elim (Option-cases (atoi value)) [
    | inl none_read ↦ cc
    | inr (n, read) ↦
        compared_length_sound s t key n l (rw (read, apply_string_length_comparison) at e) a
          (rw read at r)
  ]

  -- A handler that leaves the lengths as they were.
  abbrev SameLengths : ConstraintSet F → ConstraintSet F → Type 0
  SameLengths s t = (t.min_length ≡ s.min_length) × (t.max_length ≡ s.max_length)

  pub apply_format_constraint-SameLengths :
      (s t : ConstraintSet F) (key value : String)
      → apply_format_constraint s key value ≡ some t
      → SameLengths s t
  unfolding apply_format_constraint
  apply_format_constraint-SameLengths s t key value e = ground arith

  pub apply_pattern_format_constraint-SameLengths :
      (s t : ConstraintSet F) (key value : String)
      → apply_pattern_format_constraint s key value ≡ some t
      → SameLengths s t
  unfolding apply_pattern_format_constraint
  apply_pattern_format_constraint-SameLengths s t key value e = ground arith

  pub apply_pattern_constraint-SameLengths :
      (s t : ConstraintSet F) (key value : String)
      → apply_pattern_constraint s key value ≡ some t
      → SameLengths s t
  unfolding apply_pattern_constraint
  apply_pattern_constraint-SameLengths s t key value e = ground arith

  pub SameLengths-AllowsLength :
      (s t : ConstraintSet F) (l : ℤ) → SameLengths s t → AllowsLength s l → AllowsLength t l
  SameLengths-AllowsLength s t l (p, q) a = rw (p, q) a

  pub apply_len_constraint_sound :
      (s t : ConstraintSet F) (key value kind_text : String) (l : ℕ)
      → apply_len_constraint s key value kind_text ≡ some t
      → AllowsLength s (pos l)
      → LengthRule (atoi value) key (pos l)
      → AllowsLength t (pos l)
  unfolding apply_len_constraint
  apply_len_constraint_sound s t key value kind_text l e a r = elim (Option-cases (atoi value)) [
    | inl none_read ↦ ground arith
    | inr (n, read) ↦ ground (
      arith,
      read,
      rw read at r,
      keep_larger-AtLeast s.min_length n (pos l),
      keep_smaller-AtMost s.max_length n (pos l),
    )
  ]

module _ (go : Go) (kind_text : String) (is_string : is_effective_string kind_text ≡ true)
    (s t : ConstraintSet go.Float) (key value : String) (l : ℕ) where
  pub apply_min_constraint_sound :
      apply_min_constraint go s key value kind_text ≡ some t
      → AllowsLength s (pos l)
      → LengthRule (atoi value) key (pos l)
      → AllowsLength t (pos l)
  unfolding apply_min_constraint
  apply_min_constraint_sound e a r = elim (Option-cases (atoi value)) [
    | inl none_read ↦ ground arith
    | inr (n, read) ↦ ground (arith, read, rw read at r, keep_larger-AtLeast s.min_length n (pos l))
  ]

  pub apply_max_constraint_sound :
      apply_max_constraint go s key value kind_text ≡ some t
      → AllowsLength s (pos l)
      → LengthRule (atoi value) key (pos l)
      → AllowsLength t (pos l)
  unfolding apply_max_constraint
  apply_max_constraint_sound e a r = elim (Option-cases (atoi value)) [
    | inl none_read ↦ ground arith
    | inr (n, read) ↦ ground (arith, read, rw read at r, keep_smaller-AtMost s.max_length n (pos l))
  ]

  pub apply_numeric_comparison_sound :
      apply_numeric_comparison go s key value kind_text ≡ some t
      → AllowsLength s (pos l)
      → LengthRule (atoi value) key (pos l)
      → AllowsLength t (pos l)
  unfolding apply_numeric_comparison
  apply_numeric_comparison_sound e a r =
      apply_string_length_comparison_sound s t key value l
        (rw (is_string, apply_numeric_comparison) at e) a r

  pub apply_enum_constraint-SameLengths :
      apply_enum_constraint go s key value kind_text ≡ some t → SameLengths s t
  unfolding apply_enum_constraint
  apply_enum_constraint-SameLengths e = ground arith

  pub apply_eq_constraint-SameLengths :
      apply_eq_constraint go s key value kind_text ≡ some t → SameLengths s t
  unfolding apply_eq_constraint
  apply_eq_constraint-SameLengths e = ground arith
