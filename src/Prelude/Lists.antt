-- ===== src/Prelude/Lists.antt =====
-- Predicates over lists by recursion, which the tactics take apart.
use Prim.Native.Nat.{ℕ, suc}
use mathlib.Core.Path.{◌≡◌}
use mathlib.Core.Bool.{Bool, true, false}
use mathlib.Core.Logic.{◌⊎◌, inl, inr, ◌≢◌}
use mathlib.Core.List.{List, [], ◌∷◌, ◌++◌}

module _ {ℓ} {A : Type ℓ} where
  abbrev pub length : List A → ℕ
  length [] = 0
  length (x ∷ xs) = suc (length xs)

  abbrev pub is_empty : List A → Bool
  is_empty [] = true
  is_empty (x ∷ xs) = false

module _ {ℓ κ} {A : Type ℓ} (P : A → Type κ) where
  abbrev pub All : List A → Type κ
  All [] = Unit
  All (x ∷ xs) = P x × All xs

  pub All-append : (xs ys : List A) → All xs → All ys → All (xs ++ ys)
  All-append [] ys h k = k
  All-append (x ∷ xs) ys (p, h) k = (p, All-append xs ys h k)

-- Membership in a list of small elements.
abbrev pub In : {A : Type 0} → A → List A → Type 0
In a [] = ⊥
In a (x ∷ xs) = (a ≡ x) ⊎ In a xs

module _ {A : Type 0} (a : A) where
  pub In-append_left : (xs ys : List A) → In a xs → In a (xs ++ ys)
  In-append_left [] ys h = absurd h
  In-append_left (x ∷ xs) ys (inl e) = inl e
  In-append_left (x ∷ xs) ys (inr h) = inr (In-append_left xs ys h)

  pub In-append_right : (xs ys : List A) → In a ys → In a (xs ++ ys)
  In-append_right [] ys h = h
  In-append_right (x ∷ xs) ys h = inr (In-append_right xs ys h)

  pub In-append_cases : (xs ys : List A) → In a (xs ++ ys) → In a xs ⊎ In a ys
  In-append_cases [] ys h = inr h
  In-append_cases (x ∷ xs) ys (inl e) = inl (inl e)
  In-append_cases (x ∷ xs) ys (inr h) = elim (In-append_cases xs ys h) [
    | inl l ↦ inl (inr l)
    | inr r ↦ inr r
  ]

  pub All-In {ℓ} : {P : A → Type ℓ} (xs : List A) → All P xs → In a xs → (b : A) × (a ≡ b) × P b
  All-In [] h i = absurd i
  All-In (x ∷ xs) (p, h) (inl e) = (x, e, p)
  All-In (x ∷ xs) (p, h) (inr i) = All-In xs h i

-- No element stands twice.
abbrev pub Distinct : {A : Type 0} → List A → Type 0
Distinct [] = Unit
Distinct (x ∷ xs) = All (λ y. x ≢ y) xs × Distinct xs
