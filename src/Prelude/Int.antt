-- ===== src/Prelude/Int.antt =====
-- Signed integers over the native numbers: the values of Go's `int` and `int64`.
use Prim.Native.Nat.{ℕ, suc, ◌+◌, ◌-◌, ◌^◌, ◌≤◌}
use mathlib.Core.Path.{◌≡◌}
use mathlib.Core.Bool.{Bool}
use mathlib.Core.Logic.{◌⊎◌, ◌↔◌}
use native.Mathlib.Omega.{arith}
use go_bricks_openapi.Prelude.Tests.{ltb, leb, eqb, if◌then◌else◌}

-- `negsuc n` is -(n + 1).
pub data ℤ : Type 0 where
  pos : ℕ → ℤ
  negsuc : ℕ → ℤ

abbrev pub pos_part : ℤ → ℕ
pos_part (pos n) = n
pos_part (negsuc n) = 0

abbrev pub neg_part : ℤ → ℕ
neg_part (pos n) = 0
neg_part (negsuc n) = suc n

infix 50 ◌≤ℤ◌ ◌<ℤ◌
abbrev pub ◌≤ℤ◌ : ℤ → ℤ → Type 0
a ≤ℤ b = pos_part a + neg_part b ≤ pos_part b + neg_part a

abbrev pub ◌<ℤ◌ : ℤ → ℤ → Type 0
a <ℤ b = suc (pos_part a + neg_part b) ≤ pos_part b + neg_part a

abbrev pub ltb_ℤ : ℤ → ℤ → Bool
ltb_ℤ a b = ltb (pos_part a + neg_part b) (pos_part b + neg_part a)

abbrev pub leb_ℤ : ℤ → ℤ → Bool
leb_ℤ a b = leb (pos_part a + neg_part b) (pos_part b + neg_part a)

abbrev pub eqb_ℤ : ℤ → ℤ → Bool
eqb_ℤ a b = eqb (pos_part a + neg_part b) (pos_part b + neg_part a)

abbrev pub max_int64 : ℕ
max_int64 = 2 ^ 63 - 1

-- The values of an `int64`; `negsuc max_int64` is the least one.
abbrev pub InInt64 : ℤ → Type 0
InInt64 a = (pos_part a ≤ max_int64) × (neg_part a ≤ 2 ^ 63)

-- `n + 1` on an `int64`, which wraps from the largest value to the least.
unfoldable pub inc : ℤ → ℤ
inc (pos n) = if eqb n max_int64 then negsuc max_int64 else pos (suc n)
inc (negsuc n) = elim n [ ℕ.zero ↦ pos 0 | suc m ↦ negsuc m ]

-- `n - 1` on an `int64`, which wraps from the least value to the largest.
unfoldable pub dec : ℤ → ℤ
dec (pos n) = elim n [ ℕ.zero ↦ negsuc 0 | suc m ↦ pos m ]
dec (negsuc n) = if eqb n max_int64 then pos max_int64 else negsuc (suc n)

pub eqb_ℤ_iff : (a b : ℤ) → (eqb_ℤ a b ≡ Bool.true) ↔ (a ≡ b)
eqb_ℤ_iff a b = ground arith

pub ≤ℤ_total : (a b : ℤ) → (a ≤ℤ b) ⊎ (b ≤ℤ a)
≤ℤ_total a b = omega arith

pub inc_lem : (a : ℤ) → a <ℤ pos max_int64 → (a <ℤ inc a) × ((b : ℤ) → a <ℤ b → inc a ≤ℤ b)
unfolding inc
inc_lem (pos n) h = ground arith
inc_lem (negsuc ℕ.zero) h = ground arith
inc_lem (negsuc (suc n)) h = ground arith
