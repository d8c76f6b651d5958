-- ===== src/Prelude/Pigeons.antt =====
-- Distinct texts that all stand in a list are at most as many as the list is long.
use Prim.Native.Nat.{suc, ◌≤◌}
use Prim.Native.String.{String}
use mathlib.Core.Path.{◌≡◌}
use mathlib.Core.Logic.{◌≢◌}
use mathlib.Core.List.{List, [], ◌∷◌}
use native.Mathlib.Omega.{arith}
use text.Mathlib.Text.{◌==◌}
use text.Mathlib.TextEquality.{eq_iff}
use go_bricks_openapi.Prelude.Tests.{if◌then◌else◌}
use go_bricks_openapi.Prelude.Lists.{In, All, Distinct, length}
use go_bricks_openapi.Prelude.Sort.{All-of_In, In_of_All}

-- Without the first occurrence of `x`.
abbrev without : String → List String → List String
without x [] = []
without x (y ∷ ys) = if x == y then ys else y ∷ without x ys

length-without : (x : String) (ys : List String) → In x ys → suc (length (without x ys)) ≡ length ys
length-without x [] i = absurd i
length-without x (y ∷ ys) i = ground (arith, eq_iff x y, length-without x ys)

In-without : (x z : String) (ys : List String) → x ≢ z → In z ys → In z (without x ys)
In-without x z [] ne i = i
In-without x z (y ∷ ys) ne i = ground (arith, eq_iff x y, In-without x z ys ne)

pub pigeons : (xs ys : List String) → Distinct xs → All (λ x. In x ys) xs → length xs ≤ length ys
pigeons [] ys d h = omega arith
pigeons (x ∷ xs) ys (fresh, d) (i, h) =
    let rest = pigeons xs (without x ys) d (
      All-of_In xs λ a j.
        In-without x a ys (In_of_All (λ y. x ≢ y) xs fresh a j)
          (In_of_All (λ y. In y ys) xs h a j)) in
    let one = length-without x ys i in omega arith
