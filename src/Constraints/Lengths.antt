-- ===== src/Constraints/Lengths.antt =====
-- The rules on the length of a string.
use go_bricks_openapi.Prelude.{
  ℕ, String, true, false, ◌≡◌, refl, Option, none, some, List, [], ◌∷◌, ◌==◌, All, Bool-cases, inl,
  inr,
}
use go_bricks_openapi.Prelude.Int.{pos}
use go_bricks_openapi.Prelude.Dict.{Dict}
use go_bricks_openapi.Go.{Go}
use go_bricks_openapi.Go.Strconv.{atoi}
use go_bricks_openapi.Models.{TypeShape, kind}
use go_bricks_openapi.Shapes.{
  strip_pointers, is_sequence, is_map, effective_kind, is_effective_string,
}
use go_bricks_openapi.Constraints.Bounds.{ConstraintSet}
use go_bricks_openapi.Constraints.Scalars.{claim, handlers, apply_scalar_rule}
use go_bricks_openapi.Constraints.Sets.{apply_rule, constraints_for}
use go_bricks_openapi.Constraints.Folds.{Entries, allowed_of_rules}
use go_bricks_openapi.Constraints.LengthRules.{
  LengthRule, AllowsLength, apply_format_constraint-SameLengths,
  apply_pattern_format_constraint-SameLengths, apply_pattern_constraint-SameLengths,
  apply_len_constraint_sound, apply_min_constraint_sound, apply_max_constraint_sound,
  apply_numeric_comparison_sound, apply_enum_constraint-SameLengths,
  apply_eq_constraint-SameLengths, SameLengths-AllowsLength,
}

-- The handler that claims a rule decides; if each handler keeps P, the dispatch does.
claim-keeps :
    {S : Type 0} (P : S → Type 0) (hs : List (Option S)) (s : S)
    → P s
    → All (λ h. (t : S) → h ≡ some t → P t) hs
    → P (claim hs s)
claim-keeps P [] s p h = p
claim-keeps P (none ∷ hs) s p (_, h) = claim-keeps P hs s p h
claim-keeps P (some t ∷ hs) s p (k, h) = k t refl

module _ (go : Go) (kind_text : String) (is_string : is_effective_string kind_text ≡ true)
    (s : ConstraintSet go.Float) (key value : String) (l : ℕ) where
  apply_scalar_rule_sound :
      AllowsLength s (pos l)
      → LengthRule (atoi value) key (pos l)
      → AllowsLength (apply_scalar_rule go s key value kind_text) (pos l)
  unfolding apply_scalar_rule
  apply_scalar_rule_sound a r =
      claim-keeps (λ t. AllowsLength t (pos l)) (handlers go s key value kind_text) s a
        (
          (λ t e.
              SameLengths-AllowsLength s t (pos l)
                (apply_format_constraint-SameLengths s t key value e) a),
          (
            (λ t e.
                SameLengths-AllowsLength s t (pos l)
                  (apply_pattern_format_constraint-SameLengths s t key value e) a),
            (
              (λ t e. apply_min_constraint_sound go kind_text is_string s t key value l e a r),
              (
                (λ t e. apply_max_constraint_sound go kind_text is_string s t key value l e a r),
                (
                  (λ t e. apply_len_constraint_sound s t key value kind_text l e a r),
                  (
                    (λ t e.
                        apply_numeric_comparison_sound go kind_text is_string s t key value l e a
                          r),
                    (
                      (λ t e.
                          SameLengths-AllowsLength s t (pos l)
                            (apply_enum_constraint-SameLengths go kind_text is_string s t key value
                              l e)
                            a),
                      (
                        (λ t e.
                            SameLengths-AllowsLength s t (pos l)
                              (apply_eq_constraint-SameLengths go kind_text is_string s t key value
                                l e)
                              a),
                        (
                          (λ t e.
                              SameLengths-AllowsLength s t (pos l)
                                (apply_pattern_constraint-SameLengths s t key value e) a),
                          tt,
                        ),
                      ),
                    ),
                  ),
                ),
              ),
            ),
          ),
        )

-- A string shape: no collection, and of the kind string.
pub record IsText (shape : TypeShape) : Type 0 where
  pub no_sequence : is_sequence (strip_pointers shape) ≡ false
  pub no_map : is_map (kind (strip_pointers shape)) ≡ false
  pub text_kind : is_effective_string (effective_kind (strip_pointers shape)) ≡ true

-- On a string, minLength and maxLength never reject a length that satisfies every rule of the tag.
pub constraints_for-AllowsLength :
    (go : Go) (shape : TypeShape) (m : Dict String) (l : ℕ)
    → IsText shape
    → Entries m (λ k v. LengthRule (atoi v) k (pos l))
    → AllowsLength (constraints_for go shape m) (pos l)
unfolding apply_rule
constraints_for-AllowsLength go shape m l text =
    allowed_of_rules go shape (λ s. AllowsLength s (pos l)) (λ k v. LengthRule (atoi v) k (pos l))
      (tt, tt) round m
  where
    round :
        (s : ConstraintSet go.Float) (k v : String)
        → AllowsLength s (pos l)
        → LengthRule (atoi v) k (pos l)
        → AllowsLength (apply_rule go (strip_pointers shape) s k v) (pos l)
    round s k v a r = elim (Bool-cases (k == "required")) [
      | inl e ↦ rw (e, apply_rule) a
      | inr e ↦
          rw (e, apply_rule, text.no_sequence, text.no_map)
            (apply_scalar_rule_sound go (effective_kind (strip_pointers shape)) text.text_kind s k v
              l a r)
    ]
