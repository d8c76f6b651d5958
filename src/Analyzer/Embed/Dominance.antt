-- ===== src/Analyzer/Embed/Dominance.antt =====
-- What dropDominatedFields keeps of the fields of internal/analyzer/embed.go.
use go_bricks_openapi.Prelude.{
  String, ◌≡◌, refl, ◌≢◌, ◌⊎◌, inl, inr, true, false, Option, none, some, List, [], ◌∷◌, ◌==◌,
  one_of, All, In, Distinct, arith, eq_iff, one_of-In, Bool-cases, Option-cases, if◌then◌else◌,
  ◌&&◌, not, ◌∙◌,
}
use go_bricks_openapi.Prelude.Dict.{Dict, lookup, lookup-insert}
use go_bricks_openapi.Prelude.Sort.{All-of_In}
use go_bricks_openapi.Analyzer.Embed.{
  RankedField, is_body, dominance_key, outranks, note_best, best_from, best_by_key, beaten,
  drop_from, drop_dominated_fields,
}

outranks_irrefl : (f : RankedField) → outranks f f ≡ false
unfolding outranks
outranks_irrefl f = ground arith

-- Not to outrank is transitive.
outranks_trans :
    (f g h : RankedField) → outranks f g ≡ false → outranks g h ≡ false → outranks f h ≡ false
unfolding outranks
outranks_trans f g h p q = ground arith

outranks_asym : (f g : RankedField) → outranks f g ≡ true → outranks g f ≡ false
unfolding outranks
outranks_asym f g p = ground arith

-- The field under a key is there, and `f` does not outrank it.
abbrev Settled : RankedField → Option RankedField → Type 0
Settled f none = ⊥
Settled f (some b) = outranks f b ≡ false

-- What stands under a key after a field of that key has been met.
abbrev better : RankedField → Option RankedField → RankedField
better f none = f
better f (some b) = if outranks f b then f else b

lookup-note_best :
    (k : String) (best : Dict RankedField) (f : RankedField)
    → k ≢ ""
    → lookup k (note_best best f)
      ≡ (if dominance_key f == k then some (better f (lookup k best)) else lookup k best)
unfolding note_best
lookup-note_best k best f ne = ground (
  arith,
  eq_iff (dominance_key f) k,
  eq_iff (dominance_key f) "",
  lookup-insert (dominance_key f) k f best,
)

better_settles : (f : RankedField) (o : Option RankedField) → outranks f (better f o) ≡ false
better_settles f none = outranks_irrefl f
better_settles f (some b) = ground (arith, outranks_irrefl f)

better_keeps :
    (f g : RankedField) (o : Option RankedField) → Settled f o → outranks f (better g o) ≡ false
better_keeps f g none h = absurd h
better_keeps f g (some b) h = ground (arith, outranks_asym g b, outranks_trans f b g)

Settled-note_best :
    (k : String) (best : Dict RankedField) (f g : RankedField)
    → k ≢ ""
    → Settled f (lookup k best)
    → Settled f (lookup k (note_best best g))
Settled-note_best k best f g ne h =
    rw (lookup-note_best k best g ne) (elim (Bool-cases (dominance_key g == k)) [
      | inl same ↦ rw same (better_keeps f g (lookup k best) h)
      | inr other ↦ rw other h
    ])

Settled-best_from :
    (k : String) (best : Dict RankedField) (f : RankedField) (fs : List RankedField)
    → k ≢ ""
    → Settled f (lookup k best)
    → Settled f (lookup k (best_from best fs))
unfolding best_from
Settled-best_from k best f [] ne h = h
Settled-best_from k best f (g ∷ fs) ne h =
    Settled-best_from k (note_best best g) f fs ne (Settled-note_best k best f g ne h)

settles_itself :
    (best : Dict RankedField) (f : RankedField)
    → dominance_key f ≢ ""
    → Settled f (lookup (dominance_key f) (note_best best f))
settles_itself best f ne =
    let k = dominance_key f in
    rw (lookup-note_best k best f ne, (eq_iff k k).1 refl) (better_settles f (lookup k best))

-- Every field with a key is settled in the table of all fields.
best_from_settles :
    (best : Dict RankedField) (f : RankedField) (fs : List RankedField)
    → dominance_key f ≢ ""
    → In f fs
    → Settled f (lookup (dominance_key f) (best_from best fs))
unfolding best_from
best_from_settles best f [] ne i = absurd i
best_from_settles best f (g ∷ fs) ne (inl e) =
    Settled-best_from (dominance_key f) (note_best best g) f fs ne
      (rw (← e) (settles_itself best f ne))
best_from_settles best f (g ∷ fs) ne (inr i) = best_from_settles (note_best best g) f fs ne i

-- What the table holds under a key is a field of that key, or was there before.
best_from_source :
    (k : String) (best : Dict RankedField) (b : RankedField) (fs : List RankedField)
    → k ≢ ""
    → lookup k (best_from best fs) ≡ some b
    → (lookup k best ≡ some b) ⊎ (In b fs × (dominance_key b ≡ k))
unfolding best_from
best_from_source k best b [] ne h = inl h
best_from_source k best b (g ∷ fs) ne h = elim (best_from_source k (note_best best g) b fs ne h) [
  | inr later ↦ inr (inr later.0, later.1)
  | inl now ↦
      let step = lookup-note_best k best g ne in
      elim (Option-cases (lookup k best)) [
        | inl nothing ↦ ground (arith, eq_iff (dominance_key g) k)
        | inr found ↦ ground (arith, eq_iff (dominance_key g) k)
      ]
]

-- A body field that the loop keeps is not outranked by the best of its key.
drop_from_unbeaten :
    (best : Dict RankedField) (kept : List String) (f : RankedField) (fs : List RankedField)
    → is_body f ≡ true
    → dominance_key f ≢ ""
    → In f (drop_from best kept fs)
    → beaten (lookup (dominance_key f) best) f ≡ false
unfolding drop_from
drop_from_unbeaten best kept f [] body ne i = absurd i
drop_from_unbeaten best kept f (g ∷ fs) body ne i = ground (
  arith,
  eq_iff (dominance_key g) "",
  drop_from_unbeaten best kept f fs body ne,
  drop_from_unbeaten best (dominance_key g ∷ kept) f fs body ne,
)

-- Some field of the list has the key of `b` and is not outranked by it.
Stands : RankedField → List RankedField → Type 0
Stands b l =
    (f : RankedField) × In f l × (dominance_key f ≡ dominance_key b) × (outranks b f ≡ false)

Stands-here :
    (b f : RankedField) (l : List RankedField)
    → dominance_key f ≡ dominance_key b
    → outranks b f ≡ false
    → Stands b (f ∷ l)
unfolding Stands
Stands-here b f l e h = (f, inl refl, e, h)

Stands-there : (b g : RankedField) (l : List RankedField) → Stands b l → Stands b (g ∷ l)
unfolding Stands
Stands-there b g l h = (h.0, inr h.1, h.2, h.3)

-- Of a key not met before, the loop keeps a field that the best one does not outrank.
drop_from_keeps_best :
    (best : Dict RankedField) (kept : List String) (b : RankedField) (fs : List RankedField)
    → dominance_key b ≢ ""
    → lookup (dominance_key b) best ≡ some b
    → In b fs
    → In (dominance_key b) kept ⊎ Stands b (drop_from best kept fs)
unfolding drop_from beaten
drop_from_keeps_best best kept b [] ne e i = absurd i
drop_from_keeps_best best kept b (g ∷ fs) ne e i = ground (
  arith,
  eq_iff (dominance_key g) "",
  one_of-In (dominance_key g) kept,
  outranks_irrefl b,
  Stands-here b g (drop_from best (dominance_key g ∷ kept) fs),
  Stands-here b g (drop_from best kept fs),
  Stands-there b g (drop_from best kept fs),
  Stands-there b g (drop_from best (dominance_key g ∷ kept) fs),
  drop_from_keeps_best best kept b fs ne e,
  drop_from_keeps_best best (dominance_key g ∷ kept) b fs ne e,
)

-- A field that the loop drops is a body field with a key.
drop_from_keeps :
    (best : Dict RankedField) (kept : List String) (f : RankedField) (fs : List RankedField)
    → In f fs
    → In f (drop_from best kept fs) ⊎ ((is_body f ≡ true) × (dominance_key f ≢ ""))
unfolding drop_from
drop_from_keeps best kept f [] i = absurd i
drop_from_keeps best kept f (g ∷ fs) i = ground (
  arith,
  eq_iff (dominance_key g) "",
  drop_from_keeps best kept f fs,
  drop_from_keeps best (dominance_key g ∷ kept) f fs,
)

-- The keys of the body fields, without the fields that have none.
pub body_keys : List RankedField → List String
body_keys [] = []
body_keys (f ∷ fs) =
    if is_body f && not (dominance_key f == "")
    then dominance_key f ∷ body_keys fs
    else body_keys fs

drop_from_fresh :
    (k : String) (best : Dict RankedField) (kept : List String) (fs : List RankedField)
    → In k (body_keys (drop_from best kept fs))
    → one_of k kept ≡ false
unfolding drop_from body_keys
drop_from_fresh k best kept [] i = absurd i
drop_from_fresh k best kept (g ∷ fs) i = ground (
  arith,
  eq_iff (dominance_key g) "",
  eq_iff k (dominance_key g),
  drop_from_fresh k best kept fs,
  drop_from_fresh k best (dominance_key g ∷ kept) fs,
)

fresh_head :
    (best : Dict RankedField) (kept : List String) (k : String) (fs : List RankedField)
    → All (λ j. k ≢ j) (body_keys (drop_from best (k ∷ kept) fs))
fresh_head best kept k fs =
    All-of_In (body_keys (drop_from best (k ∷ kept) fs))
      λ j i e. ground (arith, drop_from_fresh j best (k ∷ kept) fs i, eq_iff j k)

drop_from-Distinct :
    (best : Dict RankedField) (kept : List String) (fs : List RankedField)
    → Distinct (body_keys (drop_from best kept fs))
unfolding drop_from body_keys
drop_from-Distinct best kept [] = tt
drop_from-Distinct best kept (g ∷ fs) = ground (
  arith,
  eq_iff (dominance_key g) "",
  fresh_head best kept (dominance_key g) fs,
  drop_from-Distinct best kept fs,
  drop_from-Distinct best (dominance_key g ∷ kept) fs,
)

-- No two body fields that are kept have one key.
pub drop_dominated_fields-Distinct :
    (fs : List RankedField) → Distinct (body_keys (drop_dominated_fields fs))
unfolding drop_dominated_fields
drop_dominated_fields-Distinct fs = drop_from-Distinct (best_by_key fs) [] fs

Settled-by :
    (g : RankedField) (o : Option RankedField)
    → Settled g o
    → (b : RankedField) × (o ≡ some b) × (outranks g b ≡ false)
Settled-by g none h = absurd h
Settled-by g (some b) h = (b, refl, h)

-- The best field of a key that some field has.
best_by_key_finds :
    (g : RankedField) (fs : List RankedField)
    → dominance_key g ≢ ""
    → In g fs
    → (b : RankedField) × (lookup (dominance_key g) (best_by_key fs) ≡ some b)
      × (outranks g b ≡ false)
      × In b fs
      × (dominance_key b ≡ dominance_key g)
unfolding best_by_key lookup
best_by_key_finds g fs ne i =
    let (b, found, below) =
      Settled-by g (lookup (dominance_key g) (best_by_key fs)) (best_from_settles [] g fs ne i) in
    elim (best_from_source (dominance_key g) [] b fs ne found) [
      | inl nothing ↦ absurd (cc nothing)
      | inr source ↦ (b, found, below, source.0, source.1)
    ]

-- No body field that is kept is outranked by a field of its key.
pub drop_dominated_fields_undominated :
    (fs : List RankedField) (f g : RankedField)
    → In f (drop_dominated_fields fs)
    → In g fs
    → is_body f ≡ true
    → dominance_key f ≢ ""
    → dominance_key g ≡ dominance_key f
    → outranks g f ≡ false
unfolding drop_dominated_fields beaten
drop_dominated_fields_undominated fs f g i j body ne e =
    let (b, found, below, member, same) = best_by_key_finds g fs (λ z. ne (cc z)) j in
    let unbeaten = drop_from_unbeaten (best_by_key fs) [] f fs body ne i in
    outranks_trans g b f below (ground (arith))

-- Every field is kept, or it is a body field of whose key some field is kept that it does not
-- outrank.
pub drop_dominated_fields_keeps :
    (fs : List RankedField) (f : RankedField)
    → In f fs
    → In f (drop_dominated_fields fs)
      ⊎ ((is_body f ≡ true)
          × (g : RankedField) × In g (drop_dominated_fields fs)
          × (dominance_key g ≡ dominance_key f)
          × (outranks f g ≡ false))
unfolding drop_dominated_fields Stands
drop_dominated_fields_keeps fs f i = elim (drop_from_keeps (best_by_key fs) [] f fs i) [
  | inl kept ↦ inl kept
  | inr (body, ne) ↦
      let (b, found, below, member, same) = best_by_key_finds f fs ne i in
      elim (drop_from_keeps_best (best_by_key fs) [] b fs (λ z. ne (cc z)) (rw same found) member) [
        | inl none_yet ↦ absurd none_yet
        | inr (g, j, e, h) ↦ inr (body, g, j, e ∙ same, outranks_trans f b g below h)
      ]
]
