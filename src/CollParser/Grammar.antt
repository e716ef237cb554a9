-- ===== src/CollParser/Grammar.antt =====
-- The grammar of search patterns (the comment at the top of xmmsclient/xmmsclient/collparser.c) as
-- data: the tokens that a query is written with, and the collection that it means.
use xmms2remote.Prelude.{ℕ, ◌≡◌, true, List, [], ◌∷◌, ◌++◌, none}
use xmms2remote.Value.{Text, Coll, node, end, field, Value, Operands, operand, no_operands}
use xmms2remote.Value.Text.{codes}
use xmms2remote.Value.Utf8.{utf8_validate}
use xmms2remote.Collection.{
  collection_union, collection_intersection, collection_complement, collection_has,
  collection_equals, collection_smaller, collection_greater,
}
use xmms2remote.CollParser.{
  Token, operator, group_open, group_close, reference, string, pattern, integer, prop_long,
  opset_union, opset_intersection, opset_complement, opfil_has, opfil_equals, opfil_smaller,
  opfil_greater,
}
use xmms2remote.CollParser.Filters.{split_at}

-- Filters and references, and what the operators make of them: NOT binds a single expression, OR
-- joins expressions, AND joins alternatives, and a group is a query in parentheses.
mutual
  pub data Expr : Type 0 where
    everything : Expr
    any_of : Text → Expr
    equal : Text → Text → Expr
    below : Text → Text → Expr
    above : Text → Text → Expr
    has : Text → Expr
    refer : Text → Expr
    negated : Expr → Expr
    group : Query → Expr

  pub data Alternatives : Type 0 where
    only : Expr → Alternatives
    or : Expr → Alternatives → Alternatives

  pub data Query : Type 0 where
    single : Alternatives → Query
    both : Alternatives → Query → Query

-- A string token with the text.
abbrev pub string_token : Text → Token
string_token s = record { type = string; string = s }

abbrev pub property : Text → Token
property s = record { type = prop_long; string = s }

abbrev pub number : Text → Token
number s = record { type = integer; string = s }

unfoldable mutual
  pub print : Expr → List Token
  print everything = (record { type = pattern; string = b'*' ∷ [] }) ∷ []
  print (any_of s) = string_token s ∷ []
  print (equal f s) = property f ∷ operator opfil_equals ∷ string_token s ∷ []
  print (below f s) = property f ∷ operator opfil_smaller ∷ number s ∷ []
  print (above f s) = property f ∷ operator opfil_greater ∷ number s ∷ []
  print (has f) = operator opfil_has ∷ property f ∷ []
  print (refer s) = operator reference ∷ string_token s ∷ []
  print (negated e) = operator opset_complement ∷ print e
  print (group q) = operator group_open ∷ (print_query q ++ operator group_close ∷ [])

  pub print_or : Alternatives → List Token
  print_or (only e) = print e
  print_or (or e a) = print e ++ operator opset_union ∷ print_or a

  pub print_query : Query → List Token
  print_query (single a) = print_or a
  print_query (both a q) = print_or a ++ operator opset_intersection ∷ print_query q

-- The collection of all media, and those that compare a property.
abbrev pub all_media : Coll
all_media = node 0 (field (codes "reference") (Value.string (codes "All Media")) end) [] no_operands

abbrev pub comparing : ℕ → Text → Text → Coll
comparing type f s =
    node type (field (codes "field") (Value.string f) (field (codes "value") (Value.string s) end))
      [] (operand all_media no_operands)

unfoldable mutual
  pub denote : Expr → Coll
  denote everything = all_media
  denote (any_of s) = node collection_union end [] (
      operand (comparing collection_equals (codes "artist") s) (
        operand (comparing collection_equals (codes "album") s)
          (operand (comparing collection_equals (codes "title") s) no_operands)))
  denote (equal f s) = comparing collection_equals f s
  denote (below f s) = comparing collection_smaller f s
  denote (above f s) = comparing collection_greater f s
  denote (has f) =
      node collection_has (field (codes "field") (Value.string f) end) []
        (operand all_media no_operands)
  denote (refer s) =
      node 0
        (field (codes "namespace") (Value.string (codes "Collections"))
          (field (codes "reference") (Value.string s) end))
        [] no_operands
  denote (negated e) = node collection_complement end [] (operand (denote e) no_operands)
  denote (group q) = denote_query q

  pub denote_or : Alternatives → Coll
  denote_or (only e) = denote e
  denote_or (or e a) = node collection_union end [] (operand (denote e) (or_operands a))

  pub or_operands : Alternatives → Operands
  or_operands (only e) = operand (denote e) no_operands
  or_operands (or e a) = operand (denote e) (or_operands a)

  pub denote_query : Query → Coll
  denote_query (single a) = denote_or a
  denote_query (both a q) =
      node collection_intersection end [] (operand (denote_or a) (and_operands q))

  pub and_operands : Query → Operands
  and_operands (single a) = operand (denote_or a) no_operands
  and_operands (both a q) = operand (denote_or a) (and_operands q)

-- Every text is UTF-8, as the values of attributes must be, and the name of a collection has no
-- slash.
abbrev pub Utf8 : Text → Type 0
Utf8 s = utf8_validate s ≡ true

unfoldable mutual
  pub IsWritable : Expr → Type 0
  IsWritable everything = Unit
  IsWritable (any_of s) = Utf8 s
  IsWritable (equal f s) = Utf8 f × Utf8 s
  IsWritable (below f s) = Utf8 f × Utf8 s
  IsWritable (above f s) = Utf8 f × Utf8 s
  IsWritable (has f) = Utf8 f
  IsWritable (refer s) = Utf8 s × (split_at b'/' s ≡ (s, none))
  IsWritable (negated e) = IsWritable e
  IsWritable (group q) = IsWritableQuery q

  pub IsWritableOr : Alternatives → Type 0
  IsWritableOr (only e) = IsWritable e
  IsWritableOr (or e a) = IsWritable e × IsWritableOr a

  pub IsWritableQuery : Query → Type 0
  IsWritableQuery (single a) = IsWritableOr a
  IsWritableQuery (both a q) = IsWritableOr a × IsWritableQuery q
