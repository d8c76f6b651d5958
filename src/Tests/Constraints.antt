-- ===== src/Tests/Constraints.antt =====
-- Tags of fields, their rules and the constraint sets that they give.
use go_bricks_openapi.Prelude.{
  String, ◌≡◌, refl, sym, ap, ◌∙◌, ◌==◌, eq_iff, Bool-cases, ◌↔◌, inl, inr, true, false, some, List,
  [], ◌∷◌, arith,
}
use go_bricks_openapi.Prelude.Int.{ℤ, pos}
use go_bricks_openapi.Prelude.Dict.{Dict, lookup, keys}
use go_bricks_openapi.Go.Strconv.{atoi, parse_int}
use go_bricks_openapi.Go.Strings.{text_of}
use go_bricks_openapi.Models.{ShapeKind}
use go_bricks_openapi.Shapes.{
  strip_pointers, is_sequence, is_byte_slice, effective_kind, is_effective_string, is_string_type,
}
use go_bricks_openapi.Constraints.Bounds.{exact, NumericBound, merge_numeric}
use go_bricks_openapi.Constraints.Tokens.{texts, tokenize_one_of}
use go_bricks_openapi.Constraints.Sets.{constraints_for}
use go_bricks_openapi.Constraints.Folds.{Entries}
use go_bricks_openapi.Constraints.Order.{SameMap, constraints_for-same}
use go_bricks_openapi.Constraints.Cardinality.{CountRule, AllowsItems, constraints_for-AllowsItems}
use go_bricks_openapi.Constraints.LengthRules.{LengthRule, AllowsLength}
use go_bricks_openapi.Constraints.Lengths.{IsText, constraints_for-AllowsLength}
use go_bricks_openapi.Constraints.Numeric.{AdmitsBound, merge_numeric-AdmitsBound}
use go_bricks_openapi.Constraints.Words.{
  Word, bare, quoted, values, write_words, tokenize_one_of-write_words,
}
use go_bricks_openapi.Tests.Sample.{sample_go, int_shape, text_shape, over}

abbrev two_rules : Dict String
two_rules = ("min", "2") ∷ ("max", "5") ∷ []

abbrev two_rules' : Dict String
two_rules' = ("max", "5") ∷ ("min", "2") ∷ []

constraints_for-AllowsItems_example :
    AllowsItems (constraints_for sample_go (over ShapeKind.slice int_shape) two_rules) (pos 3)
    ↔ Entries two_rules (λ k v. CountRule (atoi v) k (pos 3))
unfolding is_sequence is_byte_slice strip_pointers
constraints_for-AllowsItems_example =
    constraints_for-AllowsItems sample_go (over ShapeKind.slice int_shape) (pos 3) two_rules
      (refl, refl)

text_shape-IsText : IsText text_shape
unfolding is_sequence strip_pointers effective_kind is_effective_string is_string_type
text_shape-IsText = record { no_sequence = refl; no_map = refl; text_kind = refl }

abbrev one_rule : Dict String
one_rule = ("gt", "2") ∷ []

-- Three characters satisfy gt=2.
three-gt : LengthRule (atoi "2") "gt" (pos 3)
unfolding atoi parse_int
three-gt = ground arith

three-LengthRule : Entries one_rule (λ k v. LengthRule (atoi v) k (pos 3))
unfolding lookup
three-LengthRule k v e = elim (Bool-cases ("gt" == k)) [
  | inl same ↦
      let e' : some "2" ≡ some v = rw same at e in
      let v_is : "2" ≡ v = cc e' in
      let k_is = (eq_iff "gt" k).0 same in rw (← v_is, ← k_is) three-gt
  | inr other ↦ let none_there = rw other at e in absurd cc
]

constraints_for-AllowsLength_example :
    AllowsLength (constraints_for sample_go text_shape one_rule) (pos 3)
constraints_for-AllowsLength_example =
    constraints_for-AllowsLength sample_go text_shape one_rule 3 text_shape-IsText three-LengthRule

abbrev above_two : NumericBound ℤ
above_two = record { value = exact (pos 2); exclusive = true }

abbrev from_two : NumericBound ℤ
from_two = record { value = exact (pos 2); exclusive = false }

merge_numeric-AdmitsBound_example :
    AdmitsBound true (merge_numeric sample_go (some from_two) above_two true) (pos 2)
    ↔ (AdmitsBound true (some from_two) (pos 2) × AdmitsBound true (some above_two) (pos 2))
merge_numeric-AdmitsBound_example =
    merge_numeric-AdmitsBound sample_go (some from_two) above_two true (pos 2) tt tt

min_is_not_max : (k : String) → "min" ≡ k → k ≡ "max" → ⊥
min_is_not_max k e f = let t = ap (λ s. s == "max") (e ∙ f) in cc

same_rules : (k : String) → lookup k two_rules ≡ lookup k two_rules'
unfolding lookup
same_rules k = elim (Bool-cases ("min" == k)) [
  | inl at_min ↦ elim (Bool-cases ("max" == k)) [
    | inl at_max ↦
        absurd (min_is_not_max k ((eq_iff "min" k).0 at_min) (sym ((eq_iff "max" k).0 at_max)))
    | inr other ↦ rw (at_min, other) refl
  ]
  | inr other ↦ rw other refl
]

two_rules-SameMap : SameMap two_rules two_rules'
unfolding keys
two_rules-SameMap = record {
  distinct = (((λ e. min_is_not_max "max" e refl), tt), (tt, tt));
  distinct' = (((λ e. min_is_not_max "max" (sym e) refl), tt), (tt, tt));
  same = same_rules;
}

constraints_for-same_example :
    constraints_for sample_go text_shape two_rules ≡ constraints_for sample_go text_shape two_rules'
constraints_for-same_example =
    constraints_for-same sample_go text_shape two_rules two_rules' two_rules-SameMap

abbrev two_words : List Word
two_words = bare ("a" ∷ "b" ∷ []) ∷ quoted ("c" ∷ " " ∷ "d" ∷ []) ∷ []

tokenize_one_of-write_words_example :
    tokenize_one_of (text_of (write_words two_words)) ≡ texts (values two_words)
tokenize_one_of-write_words_example = tokenize_one_of-write_words two_words (
  (((λ e. omega arith), (λ e. omega arith)), (((λ e. omega arith), (λ e. omega arith)), tt)),
  (((λ e. omega arith), ((λ e. omega arith), ((λ e. omega arith), tt))), tt),
)
