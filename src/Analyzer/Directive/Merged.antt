-- ===== src/Analyzer/Directive/Merged.antt =====
-- mergeErrorStatuses of internal/analyzer/constructors.go: the union is sorted, without repetition.
use go_bricks_openapi.Prelude.{◌≡◌, ◌⊎◌, inl, inr, List, [], ◌∷◌, ◌++◌, In, arith, ◌↔◌}
use go_bricks_openapi.Prelude.Int.{ℤ, eqb_ℤ_iff, ◌≤ℤ◌, ◌<ℤ◌}
use go_bricks_openapi.Analyzer.Directive.{
  insert_status, sort_statuses, compact_from, compact, merge_error_statuses,
}

-- Not below the first of a list, and below it.
abbrev AtMost : ℤ → List ℤ → Type 0
AtMost n [] = Unit
AtMost n (m ∷ ms) = n ≤ℤ m

abbrev Below : ℤ → List ℤ → Type 0
Below n [] = Unit
Below n (m ∷ ms) = n <ℤ m

abbrev Sorted : List ℤ → Type 0
Sorted [] = Unit
Sorted (n ∷ ns) = AtMost n ns × Sorted ns

-- Strictly ascending.
abbrev pub Ascending : List ℤ → Type 0
Ascending [] = Unit
Ascending (n ∷ ns) = Below n ns × Ascending ns

AtMost-insert_status :
    (k n : ℤ) (ms : List ℤ) → k ≤ℤ n → AtMost k ms → AtMost k (insert_status n ms)
unfolding insert_status
AtMost-insert_status k n [] h j = h
AtMost-insert_status k n (m ∷ ms) h j = ground arith

Sorted-insert_status : (n : ℤ) (ms : List ℤ) → Sorted ms → Sorted (insert_status n ms)
unfolding insert_status
Sorted-insert_status n [] h = (tt, tt)
Sorted-insert_status n (m ∷ ms) h =
    ground (arith, Sorted-insert_status n ms, AtMost-insert_status m n ms)

Sorted-sort_statuses : (ns : List ℤ) → Sorted (sort_statuses ns)
unfolding sort_statuses
Sorted-sort_statuses [] = tt
Sorted-sort_statuses (n ∷ ns) = Sorted-insert_status n (sort_statuses ns) (Sorted-sort_statuses ns)

Below-compact_from : (k n : ℤ) (ms : List ℤ) → k <ℤ n → Below k (compact_from n ms)
unfolding compact_from
Below-compact_from k n [] h = h
Below-compact_from k n (m ∷ ms) h = ground (arith, Below-compact_from k n ms h)

Ascending-compact_from : (n : ℤ) (ms : List ℤ) → Sorted (n ∷ ms) → Ascending (compact_from n ms)
unfolding compact_from
Ascending-compact_from n [] h = (tt, tt)
Ascending-compact_from n (m ∷ ms) h = ground (
  arith,
  eqb_ℤ_iff n m,
  Ascending-compact_from n ms,
  Ascending-compact_from m ms,
  Below-compact_from n m ms,
)

Ascending-compact : (ns : List ℤ) → Sorted ns → Ascending (compact ns)
unfolding compact
Ascending-compact [] h = tt
Ascending-compact (n ∷ ns) h = Ascending-compact_from n ns h

In-insert_status : (a n : ℤ) (ms : List ℤ) → In a (insert_status n ms) ↔ ((a ≡ n) ⊎ In a ms)
unfolding insert_status
In-insert_status a n [] = (λ h. h, λ h. h)
In-insert_status a n (m ∷ ms) = ground (arith, In-insert_status a n ms)

In-sort_statuses : (a : ℤ) (ns : List ℤ) → In a (sort_statuses ns) ↔ In a ns
unfolding sort_statuses
In-sort_statuses a [] = (λ h. h, λ h. h)
In-sort_statuses a (n ∷ ns) =
    ground (arith, In-insert_status a n (sort_statuses ns), In-sort_statuses a ns)

In-compact_from : (a n : ℤ) (ms : List ℤ) → In a (compact_from n ms) ↔ ((a ≡ n) ⊎ In a ms)
unfolding compact_from
In-compact_from a n [] = (λ h. h, λ h. h)
In-compact_from a n (m ∷ ms) =
    ground (arith, eqb_ℤ_iff n m, In-compact_from a n ms, In-compact_from a m ms)

In-compact : (a : ℤ) (ns : List ℤ) → In a (compact ns) ↔ In a ns
unfolding compact
In-compact a [] = (λ h. h, λ h. h)
In-compact a (n ∷ ns) = In-compact_from a n ns

In-append : (a : ℤ) (xs ys : List ℤ) → In a (xs ++ ys) ↔ (In a xs ⊎ In a ys)
In-append a [] ys = (λ h. inr h, λ h. elim h [ inl x ↦ absurd x | inr y ↦ y ])
In-append a (x ∷ xs) ys = ground (arith, In-append a xs ys)

-- The merged statuses are those of the two lists, and they ascend strictly, if those that were there
-- did.
pub merge_error_statuses-Ascending :
    (existing added : List ℤ) (a : ℤ)
    → Ascending existing
    → Ascending (merge_error_statuses existing added)
      × (In a (merge_error_statuses existing added) ↔ (In a existing ⊎ In a added))
unfolding merge_error_statuses
merge_error_statuses-Ascending existing [] a h =
    (h, ((λ i. inl i), (λ i. elim i [ inl x ↦ x | inr y ↦ absurd y ])))
merge_error_statuses-Ascending existing (n ∷ ns) a h =
    let both = existing ++ (n ∷ ns) in
    (
      Ascending-compact (sort_statuses both) (Sorted-sort_statuses both),
      ground (
        arith,
        In-compact a (sort_statuses both),
        In-sort_statuses a both,
        In-append a existing (n ∷ ns),
      ),
    )
