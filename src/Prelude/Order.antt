-- ===== src/Prelude/Order.antt =====
-- The order of texts: by the code points, the first difference decides.
use Prim.Native.Nat.{Ordering, compare as compare_ℕ}
use Prim.Native.Char.{Char, code}
use Prim.Native.String.{String, compare, then}
use Prim.Native.String.compare as Clauses
use mathlib.Core.Path.{◌≡◌}
use mathlib.Core.Bool.{true, false}
use mathlib.Core.Logic.{◌≢◌}
use native.Mathlib.Omega.{arith}
use text.Mathlib.TextEquality.{path_by_compare}
use go_bricks_openapi.Prelude.Text.{str_leb}

abbrev pub Before : String → String → Type 0
Before s t = compare s t ≡ Ordering.lt

gt≢lt : {o : Ordering} → o ≡ Ordering.gt → o ≡ Ordering.lt → ⊥
gt≢lt h k = cc

eq≢lt : {o : Ordering} → o ≡ Ordering.eq → o ≡ Ordering.lt → ⊥
eq≢lt h k = cc

-- The clauses of the native comparison.
nil_nil : compare "" "" ≡ Ordering.eq
nil_nil = Clauses.nil-nil

nil_cons : (d : Char) (t : String) → compare "" (String.◌∷◌ d t) ≡ Ordering.lt
nil_cons d t = Clauses.nil-cons d t

cons_nil : (c : Char) (s : String) → compare (String.◌∷◌ c s) "" ≡ Ordering.gt
cons_nil c s = Clauses.cons-nil c s

cons_cons :
    (c d : Char) (s t : String)
    → compare (String.◌∷◌ c s) (String.◌∷◌ d t) ≡ then (compare_ℕ (code c) (code d)) (compare s t)
cons_cons c d s t = Clauses.cons-cons c d s t

pub Before-trans : (s t u : String) → Before s t → Before t u → Before s u
Before-trans String.[] String.[] u h k = k
Before-trans String.[] (String.◌∷◌ d t) String.[] h k = absurd (gt≢lt (cons_nil d t) k)
Before-trans String.[] (String.◌∷◌ d t) (String.◌∷◌ e u) h k = nil_cons e u
Before-trans (String.◌∷◌ c s) String.[] u h k = absurd (gt≢lt (cons_nil c s) h)
Before-trans (String.◌∷◌ c s) (String.◌∷◌ d t) String.[] h k = absurd (gt≢lt (cons_nil d t) k)
Before-trans (String.◌∷◌ c s) (String.◌∷◌ d t) (String.◌∷◌ e u) h k =
    ground (arith, Before-trans s t u, cons_cons c d s t, cons_cons d e t u, cons_cons c e s u)

pub Before-asym : (s t : String) → Before s t → Before t s → ⊥
Before-asym String.[] String.[] h k = eq≢lt nil_nil h
Before-asym String.[] (String.◌∷◌ d t) h k = gt≢lt (cons_nil d t) k
Before-asym (String.◌∷◌ c s) String.[] h k = gt≢lt (cons_nil c s) h
Before-asym (String.◌∷◌ c s) (String.◌∷◌ d t) h k =
    ground (arith, Before-asym s t, cons_cons c d s t, cons_cons d c t s)

flip : (s t : String) → compare s t ≡ Ordering.gt → Before t s
flip String.[] String.[] h = cc nil_nil
flip String.[] (String.◌∷◌ d t) h = cc (nil_cons d t)
flip (String.◌∷◌ c s) String.[] h = nil_cons c s
flip (String.◌∷◌ c s) (String.◌∷◌ d t) h =
    ground (arith, flip s t, cons_cons c d s t, cons_cons d c t s)

-- What str_leb says of two different texts.
pub str_leb-Before : (s t : String) → s ≢ t → str_leb s t ≡ true → Before s t
str_leb-Before s t h k = ground (arith, path_by_compare s t)

pub str_leb-Before_flip : (s t : String) → str_leb s t ≡ false → Before t s
str_leb-Before_flip s t k = flip s t (ground arith)
