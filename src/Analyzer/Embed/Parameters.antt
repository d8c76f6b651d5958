-- ===== src/Analyzer/Embed/Parameters.antt =====
-- What dropDuplicateParams keeps of the fields of internal/analyzer/embed.go.
use go_bricks_openapi.Prelude.{
  String, ◌≡◌, ◌≢◌, ◌⊎◌, false, List, [], ◌∷◌, ◌==◌, one_of, All, In, Distinct, arith, eq_iff,
  one_of-In, if◌then◌else◌,
}
use go_bricks_openapi.Prelude.Sort.{All-of_In}
use go_bricks_openapi.Analyzer.Embed.{
  RankedField, param_key, drop_seen_params, drop_duplicate_params,
}

-- The locations and names of the parameters.
pub param_keys : List RankedField → List String
param_keys [] = []
param_keys (f ∷ fs) = if param_key f == "" then param_keys fs else param_key f ∷ param_keys fs

drop_seen_params_fresh :
    (k : String) (seen : List String) (fs : List RankedField)
    → In k (param_keys (drop_seen_params seen fs))
    → one_of k seen ≡ false
unfolding drop_seen_params param_keys
drop_seen_params_fresh k seen [] i = absurd i
drop_seen_params_fresh k seen (f ∷ fs) i = ground (
  arith,
  eq_iff (param_key f) k,
  eq_iff k (param_key f),
  drop_seen_params_fresh k seen fs,
  drop_seen_params_fresh k (param_key f ∷ seen) fs,
)

other_than_head :
    (k : String) (seen : List String) (fs : List RankedField)
    → All (λ j. k ≢ j) (param_keys (drop_seen_params (k ∷ seen) fs))
other_than_head k seen fs =
    All-of_In (param_keys (drop_seen_params (k ∷ seen) fs))
      λ j i e. ground (arith, drop_seen_params_fresh j (k ∷ seen) fs i, eq_iff j k)

drop_seen_params-Distinct :
    (seen : List String) (fs : List RankedField) → Distinct (param_keys (drop_seen_params seen fs))
unfolding drop_seen_params param_keys
drop_seen_params-Distinct seen [] = tt
drop_seen_params-Distinct seen (f ∷ fs) = ground (
  arith,
  other_than_head (param_key f) seen fs,
  drop_seen_params-Distinct seen fs,
  drop_seen_params-Distinct (param_key f ∷ seen) fs,
)

drop_seen_params_keeps :
    (seen : List String) (f : RankedField) (fs : List RankedField)
    → In f fs
    → In f (drop_seen_params seen fs)
      ⊎ ((param_key f ≢ "")
          × (In (param_key f) seen ⊎ In (param_key f) (param_keys (drop_seen_params seen fs))))
unfolding drop_seen_params param_keys
drop_seen_params_keeps seen f [] i = absurd i
drop_seen_params_keeps seen f (g ∷ fs) i = ground (
  arith,
  eq_iff (param_key g) "",
  one_of-In (param_key g) seen,
  drop_seen_params_keeps seen f fs,
  drop_seen_params_keeps (param_key g ∷ seen) f fs,
)

-- The parameters that are kept have different locations and names, and every field that was there
-- is kept, or it is a parameter whose location and name a kept parameter has.
pub drop_duplicate_params_lem :
    (fs : List RankedField) (f : RankedField)
    → In f fs
    → Distinct (param_keys (drop_duplicate_params fs))
      × (In f (drop_duplicate_params fs)
          ⊎ ((param_key f ≢ "") × In (param_key f) (param_keys (drop_duplicate_params fs))))
unfolding drop_duplicate_params
drop_duplicate_params_lem fs f i =
    (drop_seen_params-Distinct [] fs, ground (arith, drop_seen_params_keeps [] f fs i))
