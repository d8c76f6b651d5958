-- ===== src/Prelude/Sort.antt =====
-- `sort.Strings`, as an insertion sort: the sorted list is the same whatever the algorithm, which
-- is what the last lemma says of lists without repetition.
use Prim.Native.String.{String}
use mathlib.Core.Path.{◌≡◌, refl, ap₂, sym}
use mathlib.Core.Logic.{◌⊎◌, inl, inr, ◌≢◌, ◌↔◌}
use mathlib.Core.List.{List, [], ◌∷◌}
use native.Mathlib.Omega.{arith}
use go_bricks_openapi.Prelude.Tests.{if◌then◌else◌, Bool-cases}
use go_bricks_openapi.Prelude.Lists.{In, All, Distinct}
use go_bricks_openapi.Prelude.Text.{str_leb}
use go_bricks_openapi.Prelude.Order.{
  Before, Before-trans, Before-asym, str_leb-Before, str_leb-Before_flip,
}

unfoldable pub insert_sorted : String → List String → List String
insert_sorted s [] = s ∷ []
insert_sorted s (t ∷ ts) = if str_leb s t then s ∷ t ∷ ts else t ∷ insert_sorted s ts

unfoldable pub sort_strings : List String → List String
unfolding insert_sorted
sort_strings [] = []
sort_strings (s ∷ ss) = insert_sorted s (sort_strings ss)

-- Strictly ascending.
abbrev pub Ascending : List String → Type 0
Ascending [] = Unit
Ascending (s ∷ ss) = All (Before s) ss × Ascending ss

In-insert_sorted :
    (a s : String) (ts : List String) → In a (insert_sorted s ts) ↔ ((a ≡ s) ⊎ In a ts)
unfolding insert_sorted
In-insert_sorted a s [] = (λ h. h, λ h. h)
In-insert_sorted a s (t ∷ ts) = ground (arith, In-insert_sorted a s ts)

pub In-sort_strings : (a : String) (ss : List String) → In a (sort_strings ss) ↔ In a ss
unfolding sort_strings
In-sort_strings a [] = (λ h. h, λ h. h)
In-sort_strings a (s ∷ ss) =
    ground (arith, In-insert_sorted a s (sort_strings ss), In-sort_strings a ss)

pub All-of_In {ℓ} :
    {P : String → Type ℓ} (ss : List String) → ((a : String) → In a ss → P a) → All P ss
All-of_In [] h = tt
All-of_In (s ∷ ss) h = (h s (inl refl), All-of_In ss (λ a i. h a (inr i)))

pub In_of_All {ℓ} :
    (P : String → Type ℓ) (ss : List String) → All P ss → (a : String) → In a ss → P a
In_of_All P [] h a i = absurd i
In_of_All P (s ∷ ss) (p, h) a (inl e) = rw e p
In_of_All P (s ∷ ss) (p, h) a (inr i) = In_of_All P ss h a i

Ascending-insert_sorted :
    (s : String) (ts : List String)
    → All (λ t. s ≢ t) ts
    → Ascending ts
    → Ascending (insert_sorted s ts)
unfolding insert_sorted
Ascending-insert_sorted s [] d h = (tt, tt)
Ascending-insert_sorted s (t ∷ ts) (ne, d) (below, h) = elim (Bool-cases (str_leb s t)) [
  | inl first ↦
      let s<t = str_leb-Before s t ne first in
      rw first (
        (s<t, All-of_In ts (λ a i. Before-trans s t a s<t (In_of_All (Before t) ts below a i))),
        (below, h),
      )
  | inr later ↦
      let t<s = str_leb-Before_flip s t later in
      rw later (
        All-of_In (insert_sorted s ts) (λ a i. elim ((In-insert_sorted a s ts).0 i) [
          | inl e ↦ rw e t<s
          | inr old ↦ In_of_All (Before t) ts below a old
        ]),
        Ascending-insert_sorted s ts d h,
      )
]

pub Ascending-sort_strings : (ss : List String) → Distinct ss → Ascending (sort_strings ss)
unfolding sort_strings
Ascending-sort_strings [] d = tt
Ascending-sort_strings (s ∷ ss) (fresh, d) =
    Ascending-insert_sorted s (sort_strings ss)
      (All-of_In (sort_strings ss)
        λ a i. In_of_All (λ t. s ≢ t) ss fresh a ((In-sort_strings a ss).0 i))
      (Ascending-sort_strings ss d)

not-In_above : (s : String) (ss : List String) → All (Before s) ss → In s ss → ⊥
not-In_above s ss h i = let b = In_of_All (Before s) ss h s i in Before-asym s s b b

heads_equal :
    (s t : String) (ss ts : List String)
    → All (Before s) ss
    → All (Before t) ts
    → (s ≡ t) ⊎ In s ts
    → (t ≡ s) ⊎ In t ss
    → s ≡ t
heads_equal s t ss ts hs ht (inl e) q = e
heads_equal s t ss ts hs ht (inr i) (inl e) = sym e
heads_equal s t ss ts hs ht (inr i) (inr j) =
    absurd (Before-asym t s (In_of_All (Before t) ts ht s i) (In_of_All (Before s) ss hs t j))

In-tail :
    (s t a : String) (ss ts : List String)
    → s ≡ t
    → All (Before s) ss
    → In a ss
    → (a ≡ t) ⊎ In a ts
    → In a ts
In-tail s t a ss ts e h i (inl q) = absurd (not-In_above s ss h (rw (e, ← q) i))
In-tail s t a ss ts e h i (inr j) = j

-- An ascending list is known by its elements.
pub Ascending-unique :
    (ss ts : List String)
    → Ascending ss
    → Ascending ts
    → ((a : String) → In a ss ↔ In a ts)
    → ss ≡ ts
Ascending-unique [] [] h k same = refl
Ascending-unique [] (t ∷ ts) h k same = absurd ((same t).1 (inl refl))
Ascending-unique (s ∷ ss) [] h k same = absurd ((same s).0 (inl refl))
Ascending-unique (s ∷ ss) (t ∷ ts) (hs, h) (ht, k) same =
    let head = heads_equal s t ss ts hs ht ((same s).0 (inl refl)) ((same t).1 (inl refl)) in
    ap₂ ◌∷◌ head (
      Ascending-unique ss ts h k λ a. (
        (λ i. In-tail s t a ss ts head hs i ((same a).0 (inr i))),
        (λ j. In-tail t s a ts ss (sym head) ht j ((same a).1 (inr j))),
      ))
