-- ===== src/Analyzer/Directive/Statuses.antt =====
-- The statuses that an errors directive declares, internal/analyzer/directive.go.
use go_bricks_openapi.Prelude.{
  ℕ, suc, ◌+◌, String, ◌≡◌, ◌≢◌, ◌⊎◌, ◌↔◌, refl, subst, false, true, Bool-cases, Option, none, some,
  List, [], ◌∷◌, ◌==◌, length, In, arith, if◌then◌else◌, Option-cases, inl, inr, eq_iff,
}
use go_bricks_openapi.Prelude.Int.{ℤ, pos, ◌≤ℤ◌}
use go_bricks_openapi.Go.{Go}
use go_bricks_openapi.Go.Strconv.{atoi, parse_int}
use go_bricks_openapi.Go.Strings.{split, str_append}
use go_bricks_openapi.Analyzer.Directive.{
  all_digits, in_status_range, parse_status_token, parse_status_tokens, parse_error_statuses,
}

-- A client or server error.
abbrev pub IsErrorStatus : ℤ → Type 0
IsErrorStatus n = (pos 400 ≤ℤ n) × (n ≤ℤ pos 599)

-- A token of digits that reads as an error status.
abbrev pub Declares : String → ℤ → Type 0
Declares tok n = (all_digits tok ≡ true) × (atoi tok ≡ some n) × IsErrorStatus n

in_status_range_bounds :
    (o : Option ℤ) (n : ℤ) → (in_status_range o ≡ some n) ↔ ((o ≡ some n) × IsErrorStatus n)
unfolding in_status_range
in_status_range_bounds none n = ground arith
in_status_range_bounds (some m) n = ground arith

parse_status_token-Declares :
    (tok : String) (n : ℤ) → (parse_status_token tok ≡ some n) ↔ Declares tok n
unfolding parse_status_token
parse_status_token-Declares tok n = ground (arith, in_status_range_bounds (atoi tok) n)

blank-not_Declares : (n : ℤ) → Declares "" n → ⊥
unfolding atoi parse_int
blank-not_Declares n h = ground (arith, h)

-- The token names something, but no error status.
abbrev pub IsBad : String → Type 0
IsBad tok = (tok ≢ "") × ((n : ℤ) → Declares tok n → ⊥)

-- What is said about such a token.
abbrev pub complaint : String → String
complaint tok =
    str_append "directive errors: ignoring \""
      (str_append tok "\" — expected an integer status code between 400 and 599")

not_blank : (tok : String) → (tok == "") ≡ false → tok ≢ ""
not_blank tok named same = ground (arith, eq_iff tok "")

refused : (tok : String) → parse_status_token tok ≡ none → (n : ℤ) → Declares tok n → ⊥
refused tok bad n h = ground (arith, bad, (parse_status_token-Declares tok n).1 h)

-- A property of lists that holds by one of the elements, and the element that makes it hold.
by_element :
    (P : String → Type 0) (F : List String → Type 0)
    → (F [] → ⊥)
    → ((x : String) (xs : List String) → F (x ∷ xs) ↔ (P x ⊎ F xs))
    → (xs : List String) → F xs ↔ ((x : String) × In x xs × P x)
by_element P F none_of_nil step [] = ((λ f. absurd (none_of_nil f)), (λ h. absurd h.1))
by_element P F none_of_nil step (x ∷ xs) =
    let below = by_element P F none_of_nil step xs in
    (
      (λ f. elim ((step x xs).0 f) [
        | inl here ↦ (x, inl refl, here)
        | inr later ↦ let (y, is_in, holds) = below.0 later in (y, inr is_in, holds)
      ]),
      (λ h.
          let (y, place, holds) = h in
          elim place [
            | inl same ↦ (step x xs).1 (inl (subst P same holds))
            | inr is_in ↦ (step x xs).1 (inr (below.1 (y, is_in, holds)))
          ]),
    )

module _ (go : Go) where
  open go use {trim_space}

  -- The tokens that name something.
  pub count_named : List String → ℕ
  count_named [] = 0
  count_named (raw ∷ raws) =
      if trim_space raw == "" then count_named raws else suc (count_named raws)

  nothing_declared : (n : ℤ) → In n (parse_status_tokens go []).0 → ⊥
  unfolding parse_status_tokens
  nothing_declared n h = h

  nothing_noted : (note : String) → In note (parse_status_tokens go []).1 → ⊥
  unfolding parse_status_tokens
  nothing_noted note h = h

  codes_step :
      (n : ℤ) (raw : String) (raws : List String)
      → In n (parse_status_tokens go (raw ∷ raws)).0
        ↔ (Declares (trim_space raw) n ⊎ In n (parse_status_tokens go raws).0)
  unfolding parse_status_tokens
  codes_step n raw raws = elim (Bool-cases (trim_space raw == "")) [
    | inl blank ↦
        let is_blank = (eq_iff (trim_space raw) "").0 blank in
        rw blank (
          (λ i. inr i),
          (λ h. elim h [
            | inl d ↦ absurd (blank-not_Declares n (subst (λ t. Declares t n) is_blank d))
            | inr i ↦ i
          ]),
        )
    | inr named ↦ elim (Option-cases (parse_status_token (trim_space raw))) [
      | inl bad ↦
          rw (named, bad) (ground (arith, parse_status_token-Declares (trim_space raw) n, bad))
      | inr (m, good) ↦
          rw (named, good) (ground (arith, parse_status_token-Declares (trim_space raw) n, good))
    ]
  ]

  notes_step :
      (e : String) (raw : String) (raws : List String)
      → In e (parse_status_tokens go (raw ∷ raws)).1 ↔ (
          (IsBad (trim_space raw) × (e ≡ complaint (trim_space raw)))
          ⊎ In e (parse_status_tokens go raws).1)
  unfolding parse_status_tokens
  notes_step e raw raws = elim (Bool-cases (trim_space raw == "")) [
    | inl blank ↦ rw blank (
      (λ i. inr i),
      (λ h. elim h [
        | inl (bad, same) ↦ absurd (bad.0 ((eq_iff (trim_space raw) "").0 blank))
        | inr i ↦ i
      ]),
    )
    | inr named ↦ elim (Option-cases (parse_status_token (trim_space raw))) [
      | inl bad ↦
          rw (named, bad)
            (
              (λ i. elim i [
                | inl same ↦
                    inl ((not_blank (trim_space raw) named, refused (trim_space raw) bad), same)
                | inr later ↦ inr later
              ]),
              (λ h. elim h [ inl (b, same) ↦ inl same | inr later ↦ inr later ]),
            )
      | inr (m, good) ↦
          rw (named, good)
            (
              (λ i. inr i),
              (λ h. elim h [
                | inl (b, same) ↦
                    absurd (b.1 m ((parse_status_token-Declares (trim_space raw) m).0 good))
                | inr i ↦ i
              ]),
            )
    ]
  ]

  parse_status_tokens-count :
      (raws : List String)
      → length (parse_status_tokens go raws).0 + length (parse_status_tokens go raws).1
        ≡ count_named raws
  unfolding parse_status_tokens count_named
  parse_status_tokens-count [] = omega arith
  parse_status_tokens-count (raw ∷ raws) =
      elim (Option-cases (parse_status_token (trim_space raw))) [
        | inl bad ↦ ground (arith, parse_status_tokens-count raws)
        | inr (n, good) ↦ ground (arith, parse_status_tokens-count raws)
      ]

  -- The declared statuses are those from 400 to 599 that a token between the commas reads as, trimmed
  -- and of digits alone; the diagnostics are those about the tokens that are neither blank nor such a
  -- status; and each token that is not blank gives one of either, if the directive has arguments.
  pub parse_error_statuses_lem :
      (args : String) (n : ℤ) (note : String)
      → (args == "") ≡ false
      → (In n (parse_error_statuses go args).0
          ↔ ((raw : String) × In raw (split b',' args) × Declares (trim_space raw) n))
        × (In note (parse_error_statuses go args).1 ↔ (
            (raw : String) × In raw (split b',' args)
            × (IsBad (trim_space raw) × (note ≡ complaint (trim_space raw)))))
        × (length (parse_error_statuses go args).0 + length (parse_error_statuses go args).1
            ≡ count_named (split b',' args))
  unfolding parse_error_statuses
  parse_error_statuses_lem args n note given =
      let tokens = split b',' args in
      rw given (
        by_element (λ raw. Declares (trim_space raw) n)
            (λ raws. In n (parse_status_tokens go raws).0) (nothing_declared n) (codes_step n)
            tokens,
        by_element (λ raw. IsBad (trim_space raw) × (note ≡ complaint (trim_space raw)))
            (λ raws. In note (parse_status_tokens go raws).1) (nothing_noted note) (notes_step note)
            tokens,
        parse_status_tokens-count tokens,
      )
