-- ===== src/Routes/Fresh.antt =====
-- A free id is always found: the ids that are tried differ from each other, and one more of them is
-- tried than there are ids in use.

use text.Mathlib.TextLemmas.{append-nil, append_cancel_left}
use go_bricks_openapi.Prelude.{
  ℕ, zero, suc, ◌≤◌, ◌<◌, String, ◌≡◌, refl, sym, ◌∙◌, ◌≢◌, none, some, List, [], ◌∷◌, arith,
  length, one_of, one_of-In, In-one_of, In, All, Distinct, Bool-cases, inl, inr, Option-cases,
}
use go_bricks_openapi.Prelude.Int.{pos}
use go_bricks_openapi.Prelude.Sort.{All-of_In}
use go_bricks_openapi.Prelude.Pigeons.{pigeons}
use go_bricks_openapi.Go.Strconv.{itoa}
use go_bricks_openapi.Go.Strings.{str_append}
use go_bricks_openapi.Go.Decimal.{itoa-injective, itoa-ne-empty}
use go_bricks_openapi.Routes.Ids.{fresh_id, next_id}

-- The ids that the loop tries.
tried : ℕ → String → ℕ → String → List String
tried zero base n id = []
tried (suc fuel) base n id = id ∷ tried fuel base (suc n) (str_append base (itoa (pos n)))

length-tried :
    (fuel : ℕ) (base : String) (n : ℕ) (id : String) → length (tried fuel base n id) ≡ fuel
unfolding tried
length-tried zero base n id = refl
length-tried (suc fuel) base n id =
    let rest = length-tried fuel base (suc n) (str_append base (itoa (pos n))) in omega arith

fresh_id-none :
    (fuel : ℕ) (used : List String) (base : String) (n : ℕ) (id : String)
    → fresh_id fuel used base n id ≡ none
    → All (λ s. In s used) (tried fuel base n id)
unfolding fresh_id tried
fresh_id-none zero used base n id h = tt
fresh_id-none (suc fuel) used base n id h = elim (Bool-cases (one_of id used)) [
  | inl taken ↦ (
    one_of-In id used taken,
    fresh_id-none fuel used base (suc n) (str_append base (itoa (pos n))) (rw taken at h),
  )
  | inr free ↦ let k = rw free at h in cc
]

fresh_id-In :
    (fuel : ℕ) (used : List String) (base : String) (n : ℕ) (id s : String)
    → fresh_id fuel used base n id ≡ some s
    → In s used
    → ⊥
unfolding fresh_id
fresh_id-In zero used base n id s h i = cc
fresh_id-In (suc fuel) used base n id s h i = elim (Bool-cases (one_of id used)) [
  | inl taken ↦
      fresh_id-In fuel used base (suc n) (str_append base (itoa (pos n))) s (rw taken at h) i
  | inr free ↦ let k = rw free at h in let there = In-one_of s used i in absurd (ground arith)
]

-- From the second on, an id that is tried is the base with a number of at least `n`.
numbered :
    (fuel : ℕ) (base : String) (n : ℕ) (s : String)
    → In s (tried fuel base (suc n) (str_append base (itoa (pos n))))
    → (m : ℕ) × (n ≤ m) × (s ≡ str_append base (itoa (pos m)))
unfolding tried
numbered zero base n s i = absurd i
numbered (suc fuel) base n s (inl e) = (n, omega arith, e)
numbered (suc fuel) base n s (inr i) =
    let (m, h, e) = numbered fuel base (suc n) s i in (m, omega arith, e)

other_number :
    (base : String) (n m : ℕ)
    → n < m
    → str_append base (itoa (pos n)) ≢ str_append base (itoa (pos m))
other_number base n m h e =
    let same = itoa-injective n m (append_cancel_left base (itoa (pos n)) (itoa (pos m)) e) in
    omega arith

no_number : (base : String) (m : ℕ) → 0 < m → base ≢ str_append base (itoa (pos m))
no_number base m h e =
    itoa-ne-empty m h (sym (append_cancel_left base "" (itoa (pos m)) (append-nil base ∙ e)))

Distinct-numbered :
    (fuel : ℕ) (base : String) (n : ℕ)
    → Distinct (tried fuel base (suc n) (str_append base (itoa (pos n))))
unfolding tried
Distinct-numbered zero base n = tt
Distinct-numbered (suc fuel) base n = (
  All-of_In (tried fuel base (suc (suc n)) (str_append base (itoa (pos (suc n))))) (λ s i e.
      let (m, h, q) = numbered fuel base (suc n) s i in
      other_number base n m (omega arith) (e ∙ q)),
  Distinct-numbered fuel base (suc n),
)

Distinct-tried : (fuel : ℕ) (base : String) → Distinct (tried fuel base 2 base)
unfolding tried
Distinct-tried zero base = tt
Distinct-tried (suc fuel) base = (
  All-of_In (tried fuel base 3 (str_append base (itoa (pos 2))))
      (λ s i e. let (m, h, q) = numbered fuel base 2 s i in no_number base m (omega arith) (e ∙ q)),
  Distinct-numbered fuel base 2,
)

-- The loop of nextID ends with an id, and that id is not in use.
pub next_id-Fresh :
    (used : List String) (base : String)
    → (id : String) × (next_id used base ≡ some id) × (In id used → ⊥)
unfolding next_id
next_id-Fresh used base = elim (Option-cases (fresh_id (suc (length used)) used base 2 base)) [
  | inl out ↦ absurd (
      let count =
        pigeons (tried (suc (length used)) base 2 base) used
          (Distinct-tried (suc (length used)) base)
          (fresh_id-none (suc (length used)) used base 2 base out) in
      let size = length-tried (suc (length used)) base 2 base in omega arith)
  | inr (id, found) ↦ (id, found, fresh_id-In (suc (length used)) used base 2 base id found)
]
