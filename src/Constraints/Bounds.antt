-- ===== src/Constraints/Bounds.antt =====
-- The constraint set and its setters (numericBound, constraintSet, keepLarger to applyTo). A
-- setter returns the new set.
use Prim.Native.Nat.{Ordering}
use go_bricks_openapi.Prelude.{
  String, Bool, true, false, ◌||◌, Option, none, some, List, ◌==◌, if◌then◌else◌,
}
use go_bricks_openapi.Prelude.Int.{ℤ, ltb_ℤ}
use go_bricks_openapi.Go.{Go}
use go_bricks_openapi.Document.{Value, Keywords}

-- What parseNumeric yields: an int64 or a float64.
pub data Number (F : Type 0) : Type 0 where
  exact : ℤ → Number F
  fractional : F → Number F

pub record NumericBound (F : Type 0) : Type 0 where
  pub value : Number F
  pub exclusive : Bool

pub record ConstraintSet (F : Type 0) : Type 0 where
  pub format : String
  pub pattern_text : String
  pub enum : Option (List (Value F))
  pub min_length : Option ℤ
  pub max_length : Option ℤ
  pub min_items : Option ℤ
  pub max_items : Option ℤ
  pub min_properties : Option ℤ
  pub max_properties : Option ℤ
  pub minimum : Option (NumericBound F)
  pub maximum : Option (NumericBound F)

abbrev pub no_constraints : {F : Type 0} → ConstraintSet F
no_constraints = record {
  format = "";
  pattern_text = "";
  enum = none;
  min_length = none;
  max_length = none;
  min_items = none;
  max_items = none;
  min_properties = none;
  max_properties = none;
  minimum = none;
  maximum = none;
}

-- cmp.Compare on int64.
unfoldable pub compare_int : ℤ → ℤ → Ordering
compare_int a b = if ltb_ℤ a b then Ordering.lt else if ltb_ℤ b a then Ordering.gt else Ordering.eq

unfoldable pub keep_larger : Option ℤ → ℤ → Option ℤ
keep_larger none n = some n
keep_larger (some d) n = if ltb_ℤ d n then some n else some d

unfoldable pub keep_smaller : Option ℤ → ℤ → Option ℤ
keep_smaller none n = some n
keep_smaller (some d) n = if ltb_ℤ n d then some n else some d

abbrev pub or_else {ℓ} : {A : Type ℓ} → Option A → Option A → Option A
or_else none b = b
or_else (some a) b = some a

module _ (go : Go) where
  open go use {Float, float_of, compare}

  unfoldable pub float_value : Number Float → Float
  float_value (exact n) = float_of n
  float_value (fractional f) = f

  -- int64 against int64 exactly, anything with a float as float64
  unfoldable pub compare_bounds : Number Float → Number Float → Ordering
  compare_bounds (exact a) (exact b) = compare_int a b
  compare_bounds (exact a) (fractional b) = compare (float_of a) b
  compare_bounds (fractional a) b = compare a (float_value b)

  -- By the order of the candidate to the winner; `lower` keeps the larger value.
  abbrev pick : Ordering → Bool → NumericBound Float → NumericBound Float → NumericBound Float
  pick Ordering.eq lower cand win = record win { exclusive = win.exclusive || cand.exclusive }
  pick Ordering.gt lower cand win = if lower then cand else win
  pick Ordering.lt lower cand win = if lower then win else cand

  unfoldable pub merge_numeric :
      Option (NumericBound Float) → NumericBound Float → Bool → Option (NumericBound Float)
  merge_numeric none cand lower = some cand
  merge_numeric (some win) cand lower =
      some (pick (compare_bounds cand.value win.value) lower cand win)

  abbrev pub set_minimum : ConstraintSet Float → NumericBound Float → ConstraintSet Float
  set_minimum s b = record s { minimum = merge_numeric s.minimum b true }

  abbrev pub set_maximum : ConstraintSet Float → NumericBound Float → ConstraintSet Float
  set_maximum s b = record s { maximum = merge_numeric s.maximum b false }

  abbrev emitted_bound : Option (NumericBound Float) → Option Float → Option Float
  emitted_bound none f = f
  emitted_bound (some b) f = some (float_value b.value)

  abbrev emitted_exclusive : Option (NumericBound Float) → Option Bool → Option Bool
  emitted_exclusive none f = f
  emitted_exclusive (some b) f = if b.exclusive then some true else f

  -- Every set keyword overwrites the property's, an unset one leaves it.
  unfoldable pub apply_to : ConstraintSet Float → Keywords Float → Keywords Float
  apply_to s k = record k {
    format = if s.format == "" then k.format else s.format;
    pattern_text = if s.pattern_text == "" then k.pattern_text else s.pattern_text;
    enum = elim s.enum [ none ↦ k.enum | some vs ↦ vs ];
    min_length = or_else s.min_length k.min_length;
    max_length = or_else s.max_length k.max_length;
    min_items = or_else s.min_items k.min_items;
    max_items = or_else s.max_items k.max_items;
    min_properties = or_else s.min_properties k.min_properties;
    max_properties = or_else s.max_properties k.max_properties;
    minimum = emitted_bound s.minimum k.minimum;
    exclusive_minimum = emitted_exclusive s.minimum k.exclusive_minimum;
    maximum = emitted_bound s.maximum k.maximum;
    exclusive_maximum = emitted_exclusive s.maximum k.exclusive_maximum;
  }

module _ {F : Type 0} where
  abbrev pub set_format : ConstraintSet F → String → ConstraintSet F
  set_format s v = record s { format = v }

  abbrev pub set_pattern : ConstraintSet F → String → ConstraintSet F
  set_pattern s v = record s { pattern_text = v }

  abbrev pub set_enum : ConstraintSet F → List (Value F) → ConstraintSet F
  set_enum s v = record s { enum = some v }

  abbrev pub set_min_length : ConstraintSet F → ℤ → ConstraintSet F
  set_min_length s n = record s { min_length = keep_larger s.min_length n }

  abbrev pub set_max_length : ConstraintSet F → ℤ → ConstraintSet F
  set_max_length s n = record s { max_length = keep_smaller s.max_length n }

  abbrev pub set_min_items : ConstraintSet F → ℤ → ConstraintSet F
  set_min_items s n = record s { min_items = keep_larger s.min_items n }

  abbrev pub set_max_items : ConstraintSet F → ℤ → ConstraintSet F
  set_max_items s n = record s { max_items = keep_smaller s.max_items n }

  abbrev pub set_min_properties : ConstraintSet F → ℤ → ConstraintSet F
  set_min_properties s n = record s { min_properties = keep_larger s.min_properties n }

  abbrev pub set_max_properties : ConstraintSet F → ℤ → ConstraintSet F
  set_max_properties s n = record s { max_properties = keep_smaller s.max_properties n }
