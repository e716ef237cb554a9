-- ===== src/CollParser/Uses.antt =====
-- The parsers that call no other recursively take a token when they succeed.
use xmms2remote.Prelude.{
  ℕ, suc, ◌<◌, List, [], ◌∷◌, Option, none, some, length, arith, Option-cases, inl, inr,
}
use xmms2remote.Value.{Coll}
use xmms2remote.Value.Text.{codes}
use xmms2remote.Collection.{universe, collection_equals, collection_match}
use xmms2remote.CollParser.{Token}
use xmms2remote.CollParser.Filters.{
  Parse, parsed, failed, out_of_fuel, returned, or_else, parse_idseq, parse_filter, parse_reference,
  parse_sequence, parse_unaryfilter, parse_binaryfilter, parse_star, parse_autofilter, parse_has,
  parse_prop, compare_prop, comparison, autofilter_value, parse_strval, reference_name,
  reference_coll, sequence_coll, segments,
}

-- The parser ended, and if it succeeded fewer than `n` tokens are left.
abbrev pub Uses : ℕ → Parse → Type 0
Uses n (parsed c ks) = length ks < n
Uses n failed = Unit
Uses n out_of_fuel = ⊥

pub returned-Uses :
    (n : ℕ) (c : Option Coll) (ks : List Token) → length ks < n → Uses n (returned c ks)
returned-Uses n none ks lt = tt
returned-Uses n (some c) ks lt = lt

pub or_else-Uses : (n : ℕ) (r r' : Parse) → Uses n r → Uses n r' → Uses n (or_else r r')
unfolding or_else
or_else-Uses n failed r' u u' = u'
or_else-Uses n (parsed c ks) r' u u' = u
or_else-Uses n out_of_fuel r' u u' = u

Uses-suc : (n : ℕ) (r : Parse) → Uses n r → Uses (suc n) r
Uses-suc n failed u = tt
Uses-suc n (parsed c ks) u = omega (arith, u)
Uses-suc n out_of_fuel u = u

pub parse_sequence-Uses :
    (field : List ℕ) (ks : List Token) → Uses (length ks) (parse_sequence field ks)
unfolding parse_sequence
parse_sequence-Uses field [] = tt
parse_sequence-Uses field (k ∷ ks) = ground (
  arith,
  returned-Uses (suc (length ks)) (sequence_coll field (segments k.string)) ks (omega arith),
)

pub parse_idseq-Uses : (ks : List Token) → Uses (length ks) (parse_idseq ks)
unfolding parse_idseq
parse_idseq-Uses [] = tt
parse_idseq-Uses (k ∷ ks) = ground (
  arith,
  Uses-suc (length ks) (parse_sequence (codes "id") ks) (parse_sequence-Uses (codes "id") ks),
)

parse_has-Uses : (ks : List Token) → Uses (length ks) (parse_has ks)
unfolding parse_has
parse_has-Uses [] = tt
parse_has-Uses (k ∷ ks) = elim (Option-cases (parse_prop k)) [
  | inl e ↦ rw (parse_has, e) tt
  | inr (p, e) ↦ rw (parse_has, e) (returned-Uses (suc (length ks)) _ ks (omega arith))
]

parse_unaryfilter-Uses : (ks : List Token) → Uses (length ks) (parse_unaryfilter ks)
unfolding parse_unaryfilter
parse_unaryfilter-Uses [] = tt
parse_unaryfilter-Uses (k ∷ ks) =
    ground (arith, Uses-suc (length ks) (parse_has ks) (parse_has-Uses ks))

compare_prop-Uses : (p : List ℕ) (ks : List Token) → Uses (length ks) (compare_prop p ks)
unfolding compare_prop
compare_prop-Uses p [] = tt
compare_prop-Uses p (op ∷ []) = tt
compare_prop-Uses p (op ∷ k ∷ ks) = elim (Option-cases (comparison op.type k)) [
  | inl e ↦ rw (compare_prop, e) tt
  | inr ((t, v), e) ↦
      rw (compare_prop, e) (returned-Uses (suc (suc (length ks))) _ ks (omega arith))
]

parse_binaryfilter-Uses : (ks : List Token) → Uses (length ks) (parse_binaryfilter ks)
unfolding parse_binaryfilter
parse_binaryfilter-Uses [] = tt
parse_binaryfilter-Uses (k ∷ ks) = elim (Option-cases (parse_prop k)) [
  | inl e ↦ rw (parse_binaryfilter, e) tt
  | inr (p, e) ↦
      rw (parse_binaryfilter, e) (Uses-suc (length ks) (compare_prop p ks) (compare_prop-Uses p ks))
]

parse_star-Uses : (ks : List Token) → Uses (length ks) (parse_star ks)
unfolding parse_star
parse_star-Uses [] = tt
parse_star-Uses (k ∷ ks) = ground (arith, returned-Uses (suc (length ks)) universe ks (omega arith))

autofilter_value-Uses : (t : ℕ) (ks : List Token) → Uses (length ks) (autofilter_value t ks)
unfolding autofilter_value
autofilter_value-Uses t [] = tt
autofilter_value-Uses t (k ∷ ks) = elim (Option-cases (parse_strval k)) [
  | inl e ↦ rw (autofilter_value, e) tt
  | inr (v, e) ↦ rw (autofilter_value, e) (returned-Uses (suc (length ks)) _ ks (omega arith))
]

parse_autofilter-Uses : (ks : List Token) → Uses (length ks) (parse_autofilter ks)
unfolding parse_autofilter
parse_autofilter-Uses [] = tt
parse_autofilter-Uses (k ∷ ks) = ground (
  arith,
  autofilter_value-Uses collection_match (k ∷ ks),
  autofilter_value-Uses collection_equals (k ∷ ks),
  Uses-suc (length ks) (autofilter_value collection_equals ks)
      (autofilter_value-Uses collection_equals ks),
  Uses-suc (length ks) (autofilter_value collection_match ks)
      (autofilter_value-Uses collection_match ks),
)

pub parse_filter-Uses : (ks : List Token) → Uses (length ks) (parse_filter ks)
unfolding parse_filter
parse_filter-Uses ks = or_else-Uses _ _ _ (parse_unaryfilter-Uses ks) (
    or_else-Uses _ _ _ (parse_binaryfilter-Uses ks)
      (or_else-Uses _ _ _ (parse_star-Uses ks) (parse_autofilter-Uses ks)))

reference_name-Uses : (ks : List Token) → Uses (length ks) (reference_name ks)
unfolding reference_name
reference_name-Uses [] = tt
reference_name-Uses (k ∷ ks) =
    ground (arith, returned-Uses (suc (length ks)) (reference_coll k.string) ks (omega arith))

pub parse_reference-Uses : (ks : List Token) → Uses (length ks) (parse_reference ks)
unfolding parse_reference
parse_reference-Uses [] = tt
parse_reference-Uses (k ∷ ks) =
    ground (arith, Uses-suc (length ks) (reference_name ks) (reference_name-Uses ks))
