-- ===== src/CollParser/Tests.antt =====
-- Runs of the parser of search patterns, and the theorems at inputs that meet their hypotheses.
use xmms2remote.Prelude.{◌+◌, ◌≡◌, ◌≢◌, ◌⊎◌, refl, some, none, ◌++◌, length, arith, pos}
use xmms2remote.Value.{add_operand, coll_new, fields_to_list, fields_of_list}
use xmms2remote.Value.Text.{codes, strcmp}
use xmms2remote.Value.Utf8.{utf8_validate}
use xmms2remote.Collection.{collection_smaller, coll_attribute_set, universe}
use xmms2remote.CollParser.{
  string, parse_token, operator_or_text, match_operator, skip_spaces, quoted_or_bare,
}
use xmms2remote.CollParser.Filters.{append_universe, filter_coll}
use xmms2remote.CollParser.Number.{show, string_intadd}
use xmms2remote.CollParser.Number.Sums.{string_intadd_up}
use xmms2remote.CollParser.Build.{coll_parse, parse_build}
use xmms2remote.CollParser.Quote.{quote, parse_token-quote}
use xmms2remote.CollParser.Terminates.{coll_parse_ends}
use xmms2remote.CollParser.Grammar.{
  Query, single, both, only, or, equal, below, negated, print, print_or, print_query, denote_query,
  comparing, IsWritable, IsWritableOr, IsWritableQuery,
}
use xmms2remote.CollParser.Stable.{parse_build-print_query}

-- A year up to 99 is sought below 10.
year_up_to_99 :
    coll_parse 31 (codes "year<=99")
    ≡ some (some (comparing collection_smaller (codes "year") (codes "10")))
unfolding coll_parse parse_token operator_or_text match_operator skip_spaces quoted_or_bare
    append_universe add_operand filter_coll coll_attribute_set coll_new utf8_validate universe
    fields_to_list fields_of_list strcmp
year_up_to_99 = refl

parse_token-quote_example :
    parse_token (quote (codes "a*\"b") ++ codes " OR c")
    ≡ some (record { type = string; string = codes "a*\"b" }, codes " OR c")
parse_token-quote_example = parse_token-quote (codes "a*\"b") (codes " OR c")

coll_parse_ends_example : coll_parse 27 (codes "NOT (a:b") ≢ none
coll_parse_ends_example = coll_parse_ends 27 (codes "NOT (a:b") (omega arith)

string_intadd_up_example :
    ((length (show 100) ≡ length (show 99)) × (string_intadd (show 99) (pos 1) ≡ some (show 100)))
    ⊎ ((length (show 100) ≡ length (show 99) + 1)
        × (string_intadd (show 99) (pos 1) ≡ some (show 10)))
string_intadd_up_example = string_intadd_up 99 (omega arith)

-- artist:"foo" OR album:"a" AND NOT year<10
abbrev foo : Query
foo =
    both (or (equal (codes "artist") (codes "foo")) (only (equal (codes "album") (codes "a"))))
      (single (only (negated (below (codes "year") (codes "10")))))

parse_build-print_query_example : parse_build 84 (print_query foo) ≡ some (some (denote_query foo))
unfolding print print_or print_query IsWritable IsWritableOr IsWritableQuery utf8_validate
parse_build-print_query_example =
    parse_build-print_query foo 84 (omega arith) (((refl, refl), (refl, refl)), (refl, refl))
