-- ===== src/Prelude/Text.antt =====
-- Tests on texts that the libraries lack.
use Prim.Native.Nat.{Ordering}
use Prim.Native.String.{String, compare}
use mathlib.Core.Path.{◌≡◌}
use native.Mathlib.Omega.{arith}
use text.Mathlib.TextEquality.{eq_iff}
use go_bricks_openapi.Prelude.Lists.{In}
use mathlib.Core.Bool.{Bool, true, false}
use mathlib.Core.List.{List, [], ◌∷◌}
use text.Mathlib.Text.{◌==◌}
use go_bricks_openapi.Prelude.Tests.{if◌then◌else◌}

-- The order of `sort.Strings`. UTF-8 keeps the order of code points.
abbrev pub str_leb : String → String → Bool
str_leb a b = elim (compare a b) [ Ordering.gt ↦ false | _ ↦ true ]

-- A `switch` case that lists several texts.
abbrev pub one_of : String → List String → Bool
one_of s [] = false
one_of s (t ∷ ts) = if s == t then true else one_of s ts

pub one_of-In : (s : String) (ts : List String) → one_of s ts ≡ true → In s ts
one_of-In s [] h = cc
one_of-In s (t ∷ ts) h = ground (arith, eq_iff s t, one_of-In s ts)

pub In-one_of : (s : String) (ts : List String) → In s ts → one_of s ts ≡ true
In-one_of s [] h = absurd h
In-one_of s (t ∷ ts) h = ground (arith, eq_iff s t, In-one_of s ts)
