-- ===== src/Dict/Propdict/Prefer.antt =====
-- The value that is kept for a key is that of the source which the preferences name first.
use xmms2remote.Prelude.{
  ℕ, suc, ◌≡◌, refl, ap, ◌∙◌, if◌then◌else◌, List, [], ◌∷◌, Option, none, some, Bool-cases, inl,
  inr, le→ltb, arith,
}
use xmms2remote.Value.{Text, Value}
use xmms2remote.Dict.Propdict.{source_match_pattern, find_match_index, next, better, best_match}

-- The first source that a pattern matches.
unfoldable pub first_match : Text → List (Text × Value) → Option Value
first_match p [] = none
first_match p ((source, v) ∷ sources) =
    let rest = first_match p sources in if source_match_pattern source p then some v else rest

-- The preferences in turn: the first source that the first pattern with a match matches.
unfoldable pub prefer : List Text → List (Text × Value) → Option Value
unfolding first_match
prefer [] sources = none
prefer (p ∷ prefs) sources =
    let rest = prefer prefs sources in
    elim (first_match p sources) [ none ↦ rest | some v ↦ some v ]

abbrev pub value_of : Option (Value × ℕ) → Option Value
value_of none = none
value_of (some (v, i)) = some v

shift : Option (Value × ℕ) → Option (Value × ℕ)
shift none = none
shift (some (v, i)) = some (v, suc i)

value_of-shift : (best : Option (Value × ℕ)) → value_of (shift best) ≡ value_of best
unfolding shift
value_of-shift none = refl
value_of-shift (some (v, i)) = refl

module _ (p : Text) (prefs : List Text) where
  -- Nothing is better than a match of the first pattern.
  best_match-kept :
      (sources : List (Text × Value)) (v : Value)
      → best_match (p ∷ prefs) sources (some (v, 0)) ≡ some (v, 0)
  unfolding best_match better
  best_match-kept [] v = refl
  best_match-kept ((source, w) ∷ sources) v =
      ap (best_match (p ∷ prefs) sources) (kept (find_match_index source (p ∷ prefs)))
      ∙ best_match-kept sources v
    where
      kept : (i : Option ℕ) → better w i (some (v, 0)) ≡ some (v, 0)
      kept none = refl
      kept (some i) = rw (le→ltb i 0 (omega arith)) refl

  better-next :
      (v : Value) (i : Option ℕ) (best : Option (Value × ℕ))
      → better v (next i) (shift best) ≡ shift (better v i best)
  unfolding better shift
  better-next v none best = refl
  better-next v (some i) none = refl
  better-next v (some i) (some (w, j)) = ground arith

  better-first :
      (v : Value) (best : Option (Value × ℕ)) → better v (some 0) (shift best) ≡ some (v, 0)
  unfolding better shift
  better-first v none = refl
  better-first v (some (w, j)) = ground arith

  best_match_lem :
      (sources : List (Text × Value)) (best : Option (Value × ℕ))
      → best_match (p ∷ prefs) sources (shift best) ≡ elim (first_match p sources) [
        | none ↦ shift (best_match prefs sources best)
        | some v ↦ some (v, 0)
      ]
  unfolding best_match first_match find_match_index
  best_match_lem [] best = refl
  best_match_lem ((source, v) ∷ sources) best = elim (Bool-cases (source_match_pattern source p)) [
    | inl yes' ↦
        rw (best_match, first_match, find_match_index, yes', better-first v best)
          (best_match-kept sources v)
    | inr no' ↦
        rw
          (
            best_match,
            first_match,
            find_match_index,
            no',
            better-next v (find_match_index source prefs) best,
          )
          (best_match_lem sources (better v (find_match_index source prefs) best))
  ]

-- Of the sources of a key the loop keeps that which a search along the preferences finds.
pub best_match-prefer :
    (prefs : List Text) (sources : List (Text × Value))
    → value_of (best_match prefs sources none) ≡ prefer prefs sources
unfolding best_match prefer better find_match_index shift
best_match-prefer [] [] = refl
best_match-prefer [] ((source, v) ∷ sources) = best_match-prefer [] sources
best_match-prefer (p ∷ prefs) sources =
    ap value_of (best_match_lem p prefs sources none)
    ∙ go (first_match p sources) (best_match-prefer prefs sources)
  where
    go :
        (f : Option Value)
        → value_of (best_match prefs sources none) ≡ prefer prefs sources
        → value_of (elim f [ none ↦ shift (best_match prefs sources none) | some v ↦ some (v, 0) ])
          ≡ elim f [ none ↦ prefer prefs sources | some v ↦ some v ]
    go none ih = value_of-shift (best_match prefs sources none) ∙ ih
    go (some v) ih = refl
