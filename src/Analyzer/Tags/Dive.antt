-- ===== src/Analyzer/Tags/Dive.antt =====
-- The scopes of the rules of a validate tag, internal/analyzer/analyzer.go.
use go_bricks_openapi.Prelude.{
  String, ◌≡◌, inl, inr, refl, Bool, false, ◌||◌, Option, none, some, List, [], ◌∷◌, ◌==◌, is_some,
  arith, eq_iff, Option-cases,
}
use go_bricks_openapi.Prelude.Dict.{lookup, lookup-insert}
use go_bricks_openapi.Go.{Go}
use go_bricks_openapi.Go.Strings.{split}
use go_bricks_openapi.Analyzer.Tags.{
  Scopes, key_value, store_rule, enter_elements, apply_tag_rule, apply_tag_rules,
  parse_validation_tag,
}

-- What stands under a key of the elements' rules.
pub element_rule : String → Scopes → Option String
element_rule key s = elim s.element_constraints [ none ↦ none | some els ↦ lookup key els ]

module _ (go : Go) where
  open go use {trim_space}

  pub has_dive : List String → Bool
  has_dive [] = false
  has_dive (raw ∷ raws) = trim_space raw == "dive" || has_dive raws

  apply_tag_rule_required :
      (s : Scopes) (raw : String)
      → element_rule "required" s ≡ none
      → element_rule "required" (apply_tag_rule go s raw) ≡ none
  unfolding apply_tag_rule element_rule store_rule enter_elements lookup
  apply_tag_rule_required s raw h = elim (Option-cases s.element_constraints) [
    | inl e ↦ ground (arith, e, h)
    | inr (els, e) ↦ ground (
      arith,
      e,
      lookup-insert (key_value (trim_space raw)).0 "required" (key_value (trim_space raw)).1 els,
    )
  ]

  apply_tag_rules_required :
      (s : Scopes) (raws : List String)
      → element_rule "required" s ≡ none
      → element_rule "required" (apply_tag_rules go s raws) ≡ none
  unfolding apply_tag_rules
  apply_tag_rules_required s [] h = h
  apply_tag_rules_required s (raw ∷ raws) h =
      apply_tag_rules_required (apply_tag_rule go s raw) raws (apply_tag_rule_required s raw h)

  not_dive : (s : String) → s ≡ "" → (s == "dive") ≡ false
  not_dive s e = rw e refl

  apply_tag_rule_dive :
      (s : Scopes) (raw : String)
      → is_some (apply_tag_rule go s raw).element_constraints
        ≡ (is_some s.element_constraints || trim_space raw == "dive")
  unfolding apply_tag_rule store_rule enter_elements
  apply_tag_rule_dive s raw =
      ground (
        arith,
        eq_iff (trim_space raw) "dive",
        eq_iff (trim_space raw) "",
        not_dive (trim_space raw),
      )

  apply_tag_rules_dive :
      (s : Scopes) (raws : List String)
      → is_some (apply_tag_rules go s raws).element_constraints
        ≡ (is_some s.element_constraints || has_dive raws)
  unfolding apply_tag_rules has_dive
  apply_tag_rules_dive s [] = ground arith
  apply_tag_rules_dive s (raw ∷ raws) =
      ground (arith, apply_tag_rules_dive (apply_tag_rule go s raw) raws, apply_tag_rule_dive s raw)

  -- Rules for the elements are there if and only if a rule is `dive`, and `required` is never one of
  -- them.
  pub parse_validation_tag-Scopes :
      (tag : String)
      → (tag == "") ≡ false
      → (is_some (parse_validation_tag go tag).element_constraints ≡ has_dive (split b',' tag))
        × (element_rule "required" (parse_validation_tag go tag) ≡ none)
  unfolding parse_validation_tag element_rule
  parse_validation_tag-Scopes tag h =
      let start : Scopes = record { constraints = []; element_constraints = none } in
      rw h (
        apply_tag_rules_dive start (split b',' tag),
        apply_tag_rules_required start (split b',' tag) refl,
      )
