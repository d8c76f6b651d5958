-- ===== src/Constraints/Cardinality.antt =====
-- The rules on the number of elements of a slice, an array or a map.
use go_bricks_openapi.Prelude.{
  String, true, false, ◌≡◌, ◌↔◌, inl, inr, Option, none, some, ◌==◌, eq_iff, arith, Option-cases,
  Bool-cases, if◌then◌else◌,
}
use go_bricks_openapi.Prelude.Int.{ℤ, ◌≤ℤ◌}
use go_bricks_openapi.Prelude.Dict.{Dict}
use go_bricks_openapi.Go.{Go}
use go_bricks_openapi.Go.Strconv.{atoi}
use go_bricks_openapi.Models.{TypeShape, kind}
use go_bricks_openapi.Shapes.{strip_pointers, is_sequence, is_byte_slice, is_map}
use go_bricks_openapi.Constraints.Bounds.{ConstraintSet, keep_larger, keep_smaller}
use go_bricks_openapi.Constraints.Rules.{
  slice_bound, map_bound, apply_slice_cardinality, apply_map_cardinality,
}
use go_bricks_openapi.Constraints.Sets.{apply_rule, constraints_for}
use go_bricks_openapi.Constraints.Folds.{Entries, allowed_of_rules, rules_of_allowed}

abbrev pub AtLeast : Option ℤ → ℤ → Type 0
AtLeast none c = Unit
AtLeast (some n) c = n ≤ℤ c

abbrev pub AtMost : Option ℤ → ℤ → Type 0
AtMost none c = Unit
AtMost (some n) c = c ≤ℤ n

pub keep_larger-AtLeast :
    (d : Option ℤ) (n c : ℤ) → AtLeast (keep_larger d n) c ↔ (AtLeast d c × (n ≤ℤ c))
unfolding keep_larger
keep_larger-AtLeast none n c = ((λ h. (tt, h)), (λ h. h.1))
keep_larger-AtLeast (some d) n c = ground arith

pub keep_smaller-AtMost :
    (d : Option ℤ) (n c : ℤ) → AtMost (keep_smaller d n) c ↔ (AtMost d c × (c ≤ℤ n))
unfolding keep_smaller
keep_smaller-AtMost none n c = ((λ h. (tt, h)), (λ h. h.1))
keep_smaller-AtMost (some d) n c = ground arith

-- What a min, max or len rule asks of a count; any other rule asks nothing, and so does a rule
-- whose value is no integer.
abbrev pub CountRule : Option ℤ → String → ℤ → Type 0
CountRule none key c = Unit
CountRule (some n) key c =
    if key == "min"
    then n ≤ℤ c
    else if key == "max"
    then c ≤ℤ n
    else if key == "len"
    then (n ≤ℤ c) × (c ≤ℤ n)
    else Unit

module _ {F : Type 0} where
  abbrev pub AllowsItems : ConstraintSet F → ℤ → Type 0
  AllowsItems s c = AtLeast s.min_items c × AtMost s.max_items c

  slice_bound_lem :
      (s : ConstraintSet F) (key : String) (n c : ℤ)
      → AllowsItems (slice_bound s key n) c ↔ (AllowsItems s c × CountRule (some n) key c)
  slice_bound_lem s key n c =
      ground (arith, keep_larger-AtLeast s.min_items n c, keep_smaller-AtMost s.max_items n c)

  apply_slice_cardinality_lem :
      (s : ConstraintSet F) (key value : String) (c : ℤ)
      → AllowsItems (apply_slice_cardinality s key value) c
        ↔ (AllowsItems s c × CountRule (atoi value) key c)
  unfolding apply_slice_cardinality
  apply_slice_cardinality_lem s key value c = elim (Option-cases (atoi value)) [
    | inl e ↦ rw (e, apply_slice_cardinality) ((λ h. (h, tt)), (λ h. h.0))
    | inr (n, e) ↦ rw (e, apply_slice_cardinality) (slice_bound_lem s key n c)
  ]

  abbrev AllowsProperties : ConstraintSet F → ℤ → Type 0
  AllowsProperties s c = AtLeast s.min_properties c × AtMost s.max_properties c

  map_bound_lem :
      (s : ConstraintSet F) (key : String) (n c : ℤ)
      → AllowsProperties (map_bound s key n) c ↔ (AllowsProperties s c × CountRule (some n) key c)
  map_bound_lem s key n c =
      ground
        (arith, keep_larger-AtLeast s.min_properties n c, keep_smaller-AtMost s.max_properties n c)

  apply_map_cardinality_lem :
      (s : ConstraintSet F) (key value : String) (c : ℤ)
      → AllowsProperties (apply_map_cardinality s key value) c
        ↔ (AllowsProperties s c × CountRule (atoi value) key c)
  unfolding apply_map_cardinality
  apply_map_cardinality_lem s key value c = elim (Option-cases (atoi value)) [
    | inl e ↦ rw (e, apply_map_cardinality) ((λ h. (h, tt)), (λ h. h.0))
    | inr (n, e) ↦ rw (e, apply_map_cardinality) (map_bound_lem s key n c)
  ]

-- A required rule asks nothing of a count.
required_counts : (o : Option ℤ) (key : String) (c : ℤ) → key ≡ "required" → CountRule o key c
required_counts none key c e = tt
required_counts (some n) key c e = rw e tt

abbrev pub Counted : TypeShape → Type 0
Counted shape =
    (is_sequence (strip_pointers shape) ≡ true) × (is_byte_slice (strip_pointers shape) ≡ false)

module _ (go : Go) (shape : TypeShape) (c : ℤ) where
  open go use {Float}

  slice_round :
      Counted shape
      → (s : ConstraintSet Float) (k v : String)
      → AllowsItems (apply_rule go (strip_pointers shape) s k v) c
        ↔ (AllowsItems s c × CountRule (atoi v) k c)
  unfolding apply_rule
  slice_round (sequence, no_bytes) s k v = elim (Bool-cases (k == "required")) [
    | inl e ↦
        rw (e, apply_rule)
          ((λ h. (h, required_counts (atoi v) k c ((eq_iff k "required").0 e))), (λ h. h.0))
    | inr e ↦ rw (e, sequence, no_bytes) (apply_slice_cardinality_lem s k v c)
  ]

  map_round :
      is_sequence (strip_pointers shape) ≡ false
      → is_map (kind (strip_pointers shape)) ≡ true
      → (s : ConstraintSet Float) (k v : String)
      → AllowsProperties (apply_rule go (strip_pointers shape) s k v) c
        ↔ (AllowsProperties s c × CountRule (atoi v) k c)
  unfolding apply_rule
  map_round no_sequence is_a_map s k v = elim (Bool-cases (k == "required")) [
    | inl e ↦
        rw (e, apply_rule)
          ((λ h. (h, required_counts (atoi v) k c ((eq_iff k "required").0 e))), (λ h. h.0))
    | inr e ↦ rw (e, no_sequence, is_a_map) (apply_map_cardinality_lem s k v c)
  ]

  -- On a slice or an array that is not base64 text, minItems and maxItems admit exactly the counts
  -- that satisfy every min, max and len rule of the tag.
  pub constraints_for-AllowsItems :
      (m : Dict String)
      → Counted shape
      → AllowsItems (constraints_for go shape m) c ↔ Entries m (λ k v. CountRule (atoi v) k c)
  constraints_for-AllowsItems m counted = (
    (λ a.
        rules_of_allowed go shape (λ s. AllowsItems s c) (λ k v. CountRule (atoi v) k c) (tt, tt)
          (λ s k v h. (slice_round counted s k v).0 h) m a),
    (λ h.
        allowed_of_rules go shape (λ s. AllowsItems s c) (λ k v. CountRule (atoi v) k c) (tt, tt)
          (λ s k v a r. (slice_round counted s k v).1 (a, r)) m h),
  )

  -- On a map, minProperties and maxProperties admit exactly the entry counts that satisfy every
  -- min, max and len rule of the tag.
  constraints_for-AllowsProperties :
      (m : Dict String)
      → is_sequence (strip_pointers shape) ≡ false
      → is_map (kind (strip_pointers shape)) ≡ true
      → AllowsProperties (constraints_for go shape m) c ↔ Entries m (λ k v. CountRule (atoi v) k c)
  constraints_for-AllowsProperties m no_sequence is_a_map = (
    (λ a.
        rules_of_allowed go shape (λ s. AllowsProperties s c) (λ k v. CountRule (atoi v) k c)
          (tt, tt) (λ s k v h. (map_round no_sequence is_a_map s k v).0 h) m a),
    (λ h.
        allowed_of_rules go shape (λ s. AllowsProperties s c) (λ k v. CountRule (atoi v) k c)
          (tt, tt) (λ s k v a r. (map_round no_sequence is_a_map s k v).1 (a, r)) m h),
  )
