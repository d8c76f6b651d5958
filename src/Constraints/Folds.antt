-- ===== src/Constraints/Folds.antt =====
-- What a constraint set allows, rule by rule: from one round of constraintsFor to the whole loop.
use go_bricks_openapi.Prelude.{String, ◌≡◌, refl, ◌↔◌, some, List, [], ◌∷◌, All, In}
use go_bricks_openapi.Prelude.Dict.{Dict, lookup, keys, In-keys}
use go_bricks_openapi.Prelude.Sort.{In-sort_strings, In_of_All, All-of_In}
use go_bricks_openapi.Go.{Go}
use go_bricks_openapi.Models.{TypeShape}
use go_bricks_openapi.Shapes.{strip_pointers}
use go_bricks_openapi.Constraints.Bounds.{ConstraintSet, no_constraints}
use go_bricks_openapi.Constraints.Sets.{
  sorted_keys, value_at, apply_rule, apply_rules, constraints_for,
}

value_at_lem : (m : Dict String) (k v : String) → lookup k m ≡ some v → value_at m k ≡ v
unfolding value_at
value_at_lem m k v e = rw (e, value_at) refl

In-sorted_keys : (m : Dict String) (k : String) → In k (sorted_keys m) ↔ In k (keys m)
unfolding sorted_keys
In-sorted_keys m k = In-sort_strings k (keys m)

-- Every entry of the map satisfies P.
abbrev pub Entries : Dict String → (String → String → Type 0) → Type 0
Entries m P = (k v : String) → lookup k m ≡ some v → P k v

All-Entries :
    (m : Dict String) (P : String → String → Type 0)
    → All (λ k. P k (value_at m k)) (sorted_keys m)
    → Entries m P
All-Entries m P h k v e = rw (← value_at_lem m k v e) (
    In_of_All (λ k. P k (value_at m k)) (sorted_keys m) h k
      ((In-sorted_keys m k).1 ((In-keys k m).1 (v, e))))

Entries-All :
    (m : Dict String) (P : String → String → Type 0)
    → Entries m P
    → All (λ k. P k (value_at m k)) (sorted_keys m)
Entries-All m P h = All-of_In (sorted_keys m) λ k i.
    let (v, e) = (In-keys k m).0 ((In-sorted_keys m k).0 i) in rw (value_at_lem m k v e) (h k v e)

module _ (go : Go) (base : TypeShape) (Allows : ConstraintSet go.Float → Type 0)
    (Rule : String → String → Type 0) where
  -- If each round keeps what its rule admits, the whole loop admits what all rules admit.
  pub constraints_for-sound :
      ((s : ConstraintSet go.Float) (k v : String)
        → Allows s
        → Rule k v
        → Allows (apply_rule go base s k v))
      → (m : Dict String) (ks : List String) (s : ConstraintSet go.Float) → Allows s
      → All (λ k. Rule k (value_at m k)) ks
      → Allows (apply_rules go base m ks s)
  unfolding apply_rules
  constraints_for-sound round m [] s a h = a
  constraints_for-sound round m (k ∷ ks) s a (r, h) =
      constraints_for-sound round m ks (apply_rule go base s k (value_at m k))
        (round s k (value_at m k) a r) h

  pub constraints_for_complete :
      ((s : ConstraintSet go.Float) (k v : String)
        → Allows (apply_rule go base s k v)
        → Allows s × Rule k v)
      → (m : Dict String) (ks : List String) (s : ConstraintSet go.Float)
      → Allows (apply_rules go base m ks s)
      → Allows s × All (λ k. Rule k (value_at m k)) ks
  unfolding apply_rules
  constraints_for_complete round m [] s a = (a, tt)
  constraints_for_complete round m (k ∷ ks) s a =
      let (later, h) =
        constraints_for_complete round m ks (apply_rule go base s k (value_at m k)) a in
      let (now, r) = round s k (value_at m k) later in (now, (r, h))

module _ (go : Go) (shape : TypeShape) (Allows : ConstraintSet go.Float → Type 0)
    (Rule : String → String → Type 0) (start : Allows no_constraints) where
  pub allowed_of_rules :
      ((s : ConstraintSet go.Float) (k v : String)
        → Allows s
        → Rule k v
        → Allows (apply_rule go (strip_pointers shape) s k v))
      → (m : Dict String) → Entries m Rule
      → Allows (constraints_for go shape m)
  unfolding constraints_for
  allowed_of_rules round m h =
      constraints_for-sound go (strip_pointers shape) Allows Rule round m (sorted_keys m)
        no_constraints start (Entries-All m Rule h)

  pub rules_of_allowed :
      ((s : ConstraintSet go.Float) (k v : String)
        → Allows (apply_rule go (strip_pointers shape) s k v)
        → Allows s × Rule k v)
      → (m : Dict String) → Allows (constraints_for go shape m)
      → Entries m Rule
  unfolding constraints_for
  rules_of_allowed round m a =
      All-Entries m Rule
        (constraints_for_complete go (strip_pointers shape) Allows Rule round m (sorted_keys m)
          no_constraints a).1
