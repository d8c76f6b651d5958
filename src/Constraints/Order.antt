-- ===== src/Constraints/Order.antt =====
-- The constraint set does not depend on the order in which Go's map yields its entries.
use go_bricks_openapi.Prelude.{String, ◌≡◌, refl, sym, ◌∙◌, List, [], ◌∷◌}
use go_bricks_openapi.Prelude.{Distinct, In}
use go_bricks_openapi.Prelude.Dict.{Dict, lookup, keys, In-keys}
use go_bricks_openapi.Prelude.Sort.{
  sort_strings, Ascending-sort_strings, Ascending-unique, In-sort_strings,
}
use go_bricks_openapi.Go.{Go}
use go_bricks_openapi.Models.{TypeShape}
use go_bricks_openapi.Shapes.{strip_pointers}
use go_bricks_openapi.Constraints.Bounds.{ConstraintSet, no_constraints}
use go_bricks_openapi.Constraints.Sets.{sorted_keys, value_at, apply_rules, constraints_for}

-- Two listings of the same map.
pub record SameMap (m m' : Dict String) : Type 0 where
  pub distinct : Distinct (keys m)
  pub distinct' : Distinct (keys m')
  pub same : (k : String) → lookup k m ≡ lookup k m'

In-keys-same :
    (m m' : Dict String) (k : String) → lookup k m ≡ lookup k m' → In k (keys m) → In k (keys m')
In-keys-same m m' k e i = let (v, found) = (In-keys k m).0 i in (In-keys k m').1 (v, sym e ∙ found)

sorted_keys-same : (m m' : Dict String) → SameMap m m' → sorted_keys m ≡ sorted_keys m'
unfolding sorted_keys
sorted_keys-same m m' s =
    Ascending-unique (sort_strings (keys m)) (sort_strings (keys m'))
      (Ascending-sort_strings (keys m) s.distinct) (Ascending-sort_strings (keys m') s.distinct')
      λ a. (
        (λ i.
            (In-sort_strings a (keys m')).1
              (In-keys-same m m' a (s.same a) ((In-sort_strings a (keys m)).0 i))),
        (λ i.
            (In-sort_strings a (keys m)).1
              (In-keys-same m' m a (sym (s.same a)) ((In-sort_strings a (keys m')).0 i))),
      )

value_at-same :
    (m m' : Dict String) (k : String) → lookup k m ≡ lookup k m' → value_at m k ≡ value_at m' k
unfolding value_at
value_at-same m m' k e = rw (e, value_at) refl

module _ (go : Go) where
  open go use {Float}

  apply_rules-same :
      (base : TypeShape) (m m' : Dict String) (ks : List String) (s : ConstraintSet Float)
      → ((k : String) → lookup k m ≡ lookup k m')
      → apply_rules go base m ks s ≡ apply_rules go base m' ks s
  unfolding apply_rules
  apply_rules-same base m m' [] s same = refl
  apply_rules-same base m m' (k ∷ ks) s same =
      rw (value_at-same m m' k (same k)) (apply_rules-same base m m' ks _ same)

  -- Two listings of one map, in whatever order, give the same constraint set.
  pub constraints_for-same :
      (shape : TypeShape) (m m' : Dict String)
      → SameMap m m'
      → constraints_for go shape m ≡ constraints_for go shape m'
  unfolding constraints_for
  constraints_for-same shape m m' s =
      rw (sorted_keys-same m m' s)
        (apply_rules-same (strip_pointers shape) m m' (sorted_keys m') no_constraints s.same)
