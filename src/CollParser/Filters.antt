-- ===== src/CollParser/Filters.antt =====
-- xmmsclient/xmmsclient/collparser.c: the `coll_parse_*` functions below `coll_parse_expr` that do not
-- call it. A parser that returns a null collection has failed; of the positions that are returned
-- with one, none is read but the place where it began.
use xmms2remote.Prelude.{ℕ, List, [], ◌∷◌, Option, none, some, ◌==◌, if◌then◌else◌, pos, negsuc}
use xmms2remote.Value.{Text, Coll, coll_new, add_operand}
use xmms2remote.Value.Text.{codes, strcmp, same}
use xmms2remote.Collection.{
  coll_attribute_set, universe, collection_union, collection_has, collection_equals,
  collection_match, collection_smaller, collection_greater,
}
use xmms2remote.Value.{collection_reference}
use xmms2remote.CollParser.{
  TokenType, Token, reference, symbol_id, string, pattern, integer, sequence, prop_long, prop_short,
  opfil_has, opfil_equals, opfil_match, opfil_smaller, opfil_greater,
}
use xmms2remote.CollParser.Number.{string_intadd}

-- A collection and the tokens behind it, failure, or (not of the program) the end of the fuel.
pub data Parse : Type 0 where
  parsed : Coll → List Token → Parse
  failed out_of_fuel : Parse

abbrev pub Parser : Type 0
Parser = List Token → Parse

-- `*ret = coll`, which may be null.
abbrev pub returned : Option Coll → List Token → Parse
returned none ks = failed
returned (some c) ks = parsed c ks

-- `PARSER_TRY`.
unfoldable pub or_else : Parse → Parse → Parse
or_else failed r = r
or_else (parsed c ks) r = parsed c ks
or_else out_of_fuel r = out_of_fuel

-- `coll_append_universe`.
unfoldable pub append_universe : Option Coll → Option Coll
append_universe c = add_operand c universe

-- The table `xmmsv_coll_prop_short`.
unfoldable pub short_property : ℕ → Option Text
short_property c =
    if c == b'a'
    then some (codes "artist")
    else if c == b'l'
    then some (codes "album")
    else if c == b't'
    then some (codes "title")
    else if c == b'n'
    then some (codes "tracknr")
    else if c == b'y'
    then some (codes "year")
    else if c == b'g'
    then some (codes "genre")
    else if c == b'u'
    then some (codes "url")
    else none

unfoldable pub from_short : Text → Text
unfolding short_property
from_short [] = []
from_short (c ∷ s) = elim (short_property c) [ none ↦ c ∷ s | some p ↦ p ]

-- `coll_parse_prop`.
unfoldable pub parse_prop : Token → Option Text
unfolding from_short
parse_prop k = elim k.type [
  | prop_short ↦ some (from_short k.string)
  | prop_long ↦ some k.string
  | _ ↦ none
]

-- `coll_parse_strval`.
unfoldable pub parse_strval : Token → Option Text
parse_strval k = elim k.type [ string ↦ some k.string | pattern ↦ some k.string | _ ↦ none ]

-- A collection with the attributes `field` and `value`.
unfoldable pub filter_coll : ℕ → Text → Option Text → Option Coll
filter_coll type field value =
    coll_attribute_set (coll_attribute_set (coll_new type) (codes "field") (some field))
      (codes "value") value

-- What stands before the first `c`, and what behind it (`none` if there is none): `strchr`.
unfoldable pub split_at : ℕ → Text → Text × Option Text
split_at c [] = ([], none)
split_at c (d ∷ s) =
    let (before, behind) = split_at c s in if d == c then ([], some s) else (d ∷ before, behind)

-- One element of a sequence, between the commas: a range, or just an integer.
unfoldable pub range_from : Text → Text → Option Coll
range_from field [] = universe
range_from field (c ∷ s) =
    append_universe (filter_coll collection_greater field (string_intadd (c ∷ s) (negsuc 0)))

unfoldable pub range_to : Text → Option Coll → Text → Option Coll
range_to field from [] = from
range_to field from (c ∷ s) =
    add_operand (filter_coll collection_smaller field (string_intadd (c ∷ s) (pos 1))) from

unfoldable pub element : Text → Text → Option Coll
unfolding split_at range_from range_to
element field s =
    let (from, behind) = split_at b'-' s in
    elim behind [
      | none ↦ append_universe (filter_coll collection_equals field (some from))
      | some to ↦ range_to field (range_from field from) to
    ]

-- The texts between the commas, one at least: where `start` and `end` stand in each round.
unfoldable pub in_front : ℕ → List Text → List Text
in_front c [] = (c ∷ []) ∷ []
in_front c (t ∷ ts) = (c ∷ t) ∷ ts

unfoldable pub segments : Text → List Text
unfolding in_front
segments [] = [] ∷ []
segments (c ∷ s) = let rest = segments s in if c == b',' then [] ∷ rest else in_front c rest

unfoldable pub elements : Text → Option Coll → List Text → Option Coll
unfolding element
elements field parent [] = parent
elements field parent (s ∷ ss) = elements field (add_operand parent (element field s)) ss

-- A union if there are several elements.
unfoldable pub sequence_coll : Text → List Text → Option Coll
unfolding element elements
sequence_coll field [] = none
sequence_coll field (s ∷ []) = element field s
sequence_coll field (s ∷ t ∷ ss) = elements field (coll_new collection_union) (s ∷ t ∷ ss)

-- `coll_parse_sequence`.
unfoldable pub parse_sequence : Text → Parser
unfolding sequence_coll segments
parse_sequence field [] = failed
parse_sequence field (k ∷ ks) = elim k.type [
  | integer ↦ returned (sequence_coll field (segments k.string)) ks
  | sequence ↦ returned (sequence_coll field (segments k.string)) ks
  | _ ↦ failed
]

-- `coll_parse_posseq` and `coll_parse_idseq`.
unfoldable pub parse_posseq : Parser
unfolding parse_sequence
parse_posseq = parse_sequence (codes "position")

unfoldable pub parse_idseq : Parser
unfolding parse_sequence
parse_idseq [] = failed
parse_idseq (k ∷ ks) = elim k.type [ symbol_id ↦ parse_sequence (codes "id") ks | _ ↦ failed ]

-- `coll_parse_unaryfilter`.
unfoldable pub parse_has : Parser
unfolding parse_prop
parse_has [] = failed
parse_has (k ∷ ks) = elim (parse_prop k) [
  | none ↦ failed
  | some p ↦
      returned
        (append_universe (coll_attribute_set (coll_new collection_has) (codes "field") (some p))) ks
]

unfoldable pub parse_unaryfilter : Parser
unfolding parse_has
parse_unaryfilter [] = failed
parse_unaryfilter (k ∷ ks) = elim k.type [ opfil_has ↦ parse_has ks | _ ↦ failed ]

-- The type and the value of `coll_parse_binaryfilter`, by its operator and operand.
unfoldable pub comparison : TokenType → Token → Option (ℕ × Text)
unfolding parse_strval
comparison opfil_equals k = elim k.type [ string ↦ some (collection_equals, k.string) | _ ↦ none ]
comparison opfil_match k = elim (parse_strval k) [
  | none ↦ none
  | some s ↦ some (collection_match, s)
]
comparison opfil_smaller k = elim k.type [
  | integer ↦ some (collection_smaller, k.string)
  | _ ↦ none
]
comparison opfil_greater k = elim k.type [
  | integer ↦ some (collection_greater, k.string)
  | _ ↦ none
]
comparison _ k = none

unfoldable pub compare_prop : Text → Parser
unfolding comparison
compare_prop p [] = failed
compare_prop p (op ∷ []) = failed
compare_prop p (op ∷ operand ∷ ks) = elim (comparison op.type operand) [
  | none ↦ failed
  | some (type, value) ↦ returned (append_universe (filter_coll type p (some value))) ks
]

-- `coll_parse_binaryfilter`.
unfoldable pub parse_binaryfilter : Parser
unfolding parse_prop compare_prop
parse_binaryfilter [] = failed
parse_binaryfilter (k ∷ ks) = elim (parse_prop k) [ none ↦ failed | some p ↦ compare_prop p ks ]

-- `coll_parse_autofilter`: the union over artist, album and title. (The code adds an operand to the
-- union before it adds the universe to the operand; they are the same object.)
unfoldable pub autofilter_operand : ℕ → Text → Text → Option Coll → Option Coll
autofilter_operand type value field parent =
    add_operand parent (append_universe (filter_coll type field (some value)))

unfoldable pub autofilter_coll : ℕ → Text → Option Coll
unfolding autofilter_operand
autofilter_coll type value = autofilter_operand type value (codes "title") (
    autofilter_operand type value (codes "album")
      (autofilter_operand type value (codes "artist") (coll_new collection_union)))

unfoldable pub autofilter_value : ℕ → Parser
unfolding autofilter_coll parse_strval
autofilter_value type [] = failed
autofilter_value type (k ∷ ks) = elim (parse_strval k) [
  | none ↦ failed
  | some s ↦ returned (autofilter_coll type s) ks
]

unfoldable pub parse_autofilter : Parser
unfolding autofilter_value
parse_autofilter [] = failed
parse_autofilter (k ∷ ks) = elim k.type [
  | opfil_equals ↦ autofilter_value collection_equals ks
  | opfil_match ↦ autofilter_value collection_match ks
  | pattern ↦ autofilter_value collection_match (k ∷ ks)
  | _ ↦ autofilter_value collection_equals (k ∷ ks)
]

-- `/* Recognize a seperate '*' as the universe collection */`
unfoldable pub parse_star : Parser
parse_star [] = failed
parse_star (k ∷ ks) = elim k.type [
  | pattern ↦ elim (strcmp k.string (codes "*")) [ same ↦ returned universe ks | _ ↦ failed ]
  | _ ↦ failed
]

-- `coll_parse_filter`.
unfoldable pub parse_filter : Parser
unfolding or_else parse_unaryfilter parse_binaryfilter parse_star parse_autofilter
parse_filter ks =
    or_else (parse_unaryfilter ks)
      (or_else (parse_binaryfilter ks) (or_else (parse_star ks) (parse_autofilter ks)))

-- The namespace and the name of a reference: before and behind the first slash.
unfoldable pub reference_coll : Text → Option Coll
unfolding split_at
reference_coll s =
    let (before, behind) = split_at b'/' s in
    let namespace : Text = elim behind [
      | none ↦ codes "Collections"
      | some r ↦ elim before [ [] ↦ codes "Collections" | c ∷ n ↦ c ∷ n ]
    ] in
    let name : Text = elim behind [ none ↦ s | some r ↦ r ] in
    coll_attribute_set
      (coll_attribute_set (coll_new collection_reference) (codes "namespace") (some namespace))
      (codes "reference") (some name)

unfoldable pub reference_name : Parser
unfolding reference_coll
reference_name [] = failed
reference_name (k ∷ ks) = elim k.type [
  | string ↦ returned (reference_coll k.string) ks
  | _ ↦ failed
]

-- `coll_parse_reference`.
unfoldable pub parse_reference : Parser
unfolding reference_name
parse_reference [] = failed
parse_reference (k ∷ ks) = elim k.type [ reference ↦ reference_name ks | _ ↦ failed ]
