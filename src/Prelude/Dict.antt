-- ===== src/Prelude/Dict.antt =====
-- Go's map with text keys, as an association list. `range` visits it in an unspecified order.
use Prim.Native.String.{String}
use mathlib.Core.Path.{◌≡◌, refl}
use mathlib.Core.Option.{Option, none, some}
use mathlib.Core.List.{List, [], ◌∷◌}
use native.Mathlib.Omega.{arith}
use text.Mathlib.Text.{◌==◌}
use text.Mathlib.TextEquality.{eq_iff}
use go_bricks_openapi.Prelude.Tests.{if◌then◌else◌}
use go_bricks_openapi.Prelude.Tests.{Bool-cases}
use go_bricks_openapi.Prelude.Lists.{In}
use mathlib.Core.Logic.{◌⊎◌, inl, inr, ◌↔◌}

abbrev pub Dict {ℓ} : Type ℓ → Type ℓ
Dict V = List (String × V)

module _ {ℓ} {V : Type ℓ} where
  -- m[key]
  unfoldable pub lookup : String → Dict V → Option V
  lookup key [] = none
  lookup key ((name, found) ∷ rest) = if name == key then some found else lookup key rest

  -- m[key] = new; a new entry goes to the end.
  unfoldable pub insert : String → V → Dict V → Dict V
  insert key new [] = (key, new) ∷ []
  insert key new ((name, old) ∷ rest) =
      if name == key then (key, new) ∷ rest else (name, old) ∷ insert key new rest

  unfoldable pub keys : Dict V → List String
  keys [] = []
  keys ((name, old) ∷ rest) = name ∷ keys rest

  -- What stands under a key after an assignment to some key.
  pub lookup-insert :
      (written read : String) (new : V) (rest : Dict V)
      → lookup read (insert written new rest)
        ≡ (if written == read then some new else lookup read rest)
  unfolding lookup insert
  lookup-insert written read new [] = refl
  lookup-insert written read new ((name, old) ∷ rest) = ground (
    arith,
    eq_iff name written,
    eq_iff name read,
    eq_iff written read,
    lookup-insert written read new rest,
  )

  -- A key is present exactly where a lookup finds something.
  pub In-keys : (k : String) (m : Dict V) → In k (keys m) ↔ ((v : V) × (lookup k m ≡ some v))
  unfolding lookup keys
  In-keys k [] = (λ h. absurd h, λ h. cc h.1)
  In-keys k ((j, v) ∷ m) = elim (Bool-cases (j == k)) [
    | inl same ↦ rw same ((λ h. (v, refl)), (λ h. inl (ground (arith, eq_iff j k))))
    | inr other ↦ rw other (
      (λ h. elim h [ inl e ↦ ground (arith, eq_iff j k) | inr i ↦ (In-keys k m).0 i ]),
      (λ h. inr ((In-keys k m).1 h)),
    )
  ]

  pub In-keys-insert :
      (j k : String) (v : V) (m : Dict V) → In j (keys (insert k v m)) ↔ ((j ≡ k) ⊎ In j (keys m))
  unfolding insert keys
  In-keys-insert j k v [] = ((λ h. h), (λ h. h))
  In-keys-insert j k v ((i, w) ∷ m) = ground (arith, eq_iff i k, In-keys-insert j k v m)
