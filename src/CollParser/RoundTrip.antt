-- ===== src/CollParser/RoundTrip.antt =====
-- A query that is written out as tokens is parsed as the collection that it means.
use xmms2remote.Prelude.{
  ℕ, zero, suc, ◌+◌, ◌*◌, ◌≤◌, ◌≡◌, ap, sym, ◌∙◌, List, [], ◌∷◌, ◌++◌, append_assoc, append-nil,
  length, length-append, none, some, arith,
}
use xmms2remote.Value.{Operands, operand, no_operands, append_operand}
use xmms2remote.Collection.{collection_union, collection_intersection}
use xmms2remote.CollParser.{
  Token, operator, opset_union, opset_intersection, group_close, group_open,
}
use xmms2remote.CollParser.Grammar.{
  Expr, everything, any_of, equal, below, above, has, refer, negated, group, Alternatives, only, or,
  Query, single, both, print, print_or, print_query, denote, denote_or, or_operands, denote_query,
  and_operands, IsWritable, IsWritableOr, IsWritableQuery,
}
use xmms2remote.CollParser.Filters.{parsed}
use xmms2remote.CollParser.Build.{parse_expr, parse_or, parse_and, behind_or}
use xmms2remote.CollParser.Leaves.{
  everything_lem, any_of_lem, equal_lem, below_lem, above_lem, has_expr, refer_lem, negated_lem,
  group_lem,
}
use xmms2remote.CollParser.Rounds.{
  Ends, and_fails, and_follows, and_goes_on, and_goes_on_some, and_stops, and_stops_some,
  append-append_operand, append_operands, behind_or-Ends, group_ends, nothing_left, or_at_and,
  or_follows, or_goes_on, or_goes_on_some, or_stops, or_stops_some, skip_and-Ends, with_operands,
}

mutual
  unfolding parse_expr parse_or parse_and print denote append_operands IsWritable

  reads_expr :
      (e : Expr) (f : ℕ) (rest : List Token)
      → 6 * length (print e) + 1 ≤ f
      → IsWritable e
      → parse_expr f (print e ++ rest) ≡ parsed (denote e) rest
  reads_expr e zero rest le w = absurd (omega arith)
  reads_expr everything (suc f) rest le w =
      everything_lem (λ ts. parse_and f none ts) (λ ts. parse_expr f ts) rest
  reads_expr (any_of s) (suc f) rest le w =
      any_of_lem (λ ts. parse_and f none ts) (λ ts. parse_expr f ts) rest s w
  reads_expr (equal p s) (suc f) rest le (w, w') =
      equal_lem (λ ts. parse_and f none ts) (λ ts. parse_expr f ts) rest p s w w'
  reads_expr (below p s) (suc f) rest le (w, w') =
      below_lem (λ ts. parse_and f none ts) (λ ts. parse_expr f ts) rest p s w w'
  reads_expr (above p s) (suc f) rest le (w, w') =
      above_lem (λ ts. parse_and f none ts) (λ ts. parse_expr f ts) rest p s w w'
  reads_expr (has p) (suc f) rest le w =
      has_expr (λ ts. parse_and f none ts) (λ ts. parse_expr f ts) rest p w
  reads_expr (refer s) (suc f) rest le (w, w') =
      refer_lem (λ ts. parse_and f none ts) (λ ts. parse_expr f ts) rest s w w'
  reads_expr (negated e) (suc f) rest le w =
      negated_lem (λ ts. parse_and f none ts) (λ ts. parse_expr f ts) (print e ++ rest) rest
        (denote e) (reads_expr e f rest (omega arith) w)
  reads_expr (group q) (suc f) rest le w =
      ap (λ ts. parse_expr (suc f) (operator group_open ∷ ts))
        (append_assoc (print_query q) (operator group_close ∷ []) rest)
      ∙ group_lem (λ ts. parse_and f none ts) (λ ts. parse_expr f ts)
          (print_query q ++ operator group_close ∷ rest) rest (denote_query q)
          (reads_query q f (operator group_close ∷ rest)
            (omega (arith, length-append (print_query q) (operator group_close ∷ []))) w
            (group_ends rest))

  reads_or :
      (a : Alternatives) (f : ℕ) (rest : List Token)
      → 6 * length (print_or a) + 2 ≤ f
      → IsWritableOr a
      → behind_or rest ≡ none
      → parse_or f none (print_or a ++ rest) ≡ parsed (denote_or a) rest
  reads_or a zero rest le w stop = absurd (omega arith)
  reads_or (only e) (suc f) rest le w stop =
      rw (reads_expr e f rest (omega arith) w)
        (or_stops (λ o ts. parse_or f o ts) (denote e) rest stop)
  reads_or (or e a) (suc f) rest le (w, w') stop =
      let len = length-append (print e) (operator opset_union ∷ print_or a) in
      let ks = operator opset_union ∷ (print_or a ++ rest) in
      rw
        (
          append_assoc (print e) (operator opset_union ∷ print_or a) rest,
          reads_expr e f ks (omega (arith, len)) w,
        )
        (or_goes_on (λ o ts. parse_or f o ts) (denote e) ks (print_or a ++ rest) rest
          (denote_or (or e a)) (or_follows (print_or a ++ rest))
          (reads_or_some a f rest collection_union (operand (denote e) no_operands)
            (omega (arith, len)) w' stop))

  reads_or_some :
      (a : Alternatives) (f : ℕ) (rest : List Token) (t : ℕ) (ops : Operands)
      → 6 * length (print_or a) + 2 ≤ f
      → IsWritableOr a
      → behind_or rest ≡ none
      → parse_or f (some (with_operands t ops)) (print_or a ++ rest)
        ≡ parsed (with_operands t (append_operands ops (or_operands a))) rest
  reads_or_some a zero rest t ops le w stop = absurd (omega arith)
  reads_or_some (only e) (suc f) rest t ops le w stop =
      rw (reads_expr e f rest (omega arith) w)
        (or_stops_some (λ o ts. parse_or f o ts) (denote e) rest t ops stop)
  reads_or_some (or e a) (suc f) rest t ops le (w, w') stop =
      let len = length-append (print e) (operator opset_union ∷ print_or a) in
      let ks = operator opset_union ∷ (print_or a ++ rest) in
      rw
        (
          append_assoc (print e) (operator opset_union ∷ print_or a) rest,
          reads_expr e f ks (omega (arith, len)) w,
        )
        (or_goes_on_some (λ o ts. parse_or f o ts) (denote e) ks (print_or a ++ rest) rest _ t ops
          (or_follows (print_or a ++ rest))
          (reads_or_some a f rest t (append_operand ops (denote e)) (omega (arith, len)) w' stop
            ∙ ap (λ cs. parsed (with_operands t cs) rest)
                (append-append_operand ops (or_operands a) (denote e))))

  reads_query :
      (q : Query) (f : ℕ) (rest : List Token)
      → 6 * length (print_query q) + 6 ≤ f
      → IsWritableQuery q
      → Ends rest
      → parse_and f none (print_query q ++ rest) ≡ parsed (denote_query q) rest
  reads_query q zero rest le w stop = absurd (omega arith)
  reads_query (single a) (suc f) rest le w stop =
      rw (reads_or a f rest (omega arith) w (behind_or-Ends rest stop)) (
        and_stops (λ o ts. parse_and f o ts) (denote_or a) rest (skip_and-Ends rest stop)
          (λ o. and_fails f o rest stop (omega arith)))
  reads_query (both a q) (suc f) rest le (w, w') stop =
      let len = length-append (print_or a) (operator opset_intersection ∷ print_query q) in
      let ks = operator opset_intersection ∷ (print_query q ++ rest) in
      rw
        (
          append_assoc (print_or a) (operator opset_intersection ∷ print_query q) rest,
          reads_or a f ks (omega (arith, len)) w (or_at_and (print_query q ++ rest)),
        )
        (and_goes_on (λ o ts. parse_and f o ts) (denote_or a) ks (print_query q ++ rest) rest
          (denote_query (both a q)) (and_follows (print_query q ++ rest))
          (reads_query_some q f rest collection_intersection (operand (denote_or a) no_operands)
            (omega (arith, len)) w' stop))

  reads_query_some :
      (q : Query) (f : ℕ) (rest : List Token) (t : ℕ) (ops : Operands)
      → 6 * length (print_query q) + 6 ≤ f
      → IsWritableQuery q
      → Ends rest
      → parse_and f (some (with_operands t ops)) (print_query q ++ rest)
        ≡ parsed (with_operands t (append_operands ops (and_operands q))) rest
  reads_query_some q zero rest t ops le w stop = absurd (omega arith)
  reads_query_some (single a) (suc f) rest t ops le w stop =
      rw (reads_or a f rest (omega arith) w (behind_or-Ends rest stop)) (
        and_stops_some (λ o ts. parse_and f o ts) (denote_or a) rest t ops (skip_and-Ends rest stop)
          (λ o. and_fails f o rest stop (omega arith)))
  reads_query_some (both a q) (suc f) rest t ops le (w, w') stop =
      let len = length-append (print_or a) (operator opset_intersection ∷ print_query q) in
      let ks = operator opset_intersection ∷ (print_query q ++ rest) in
      rw
        (
          append_assoc (print_or a) (operator opset_intersection ∷ print_query q) rest,
          reads_or a f ks (omega (arith, len)) w (or_at_and (print_query q ++ rest)),
        )
        (and_goes_on_some (λ o ts. parse_and f o ts) (denote_or a) ks (print_query q ++ rest) rest _
          t ops (and_follows (print_query q ++ rest))
          (reads_query_some q f rest t (append_operand ops (denote_or a)) (omega (arith, len)) w'
              stop
            ∙ ap (λ cs. parsed (with_operands t cs) rest)
                (append-append_operand ops (and_operands q) (denote_or a))))

pub parse_and-print_query :
    (q : Query) (f : ℕ)
    → 6 * length (print_query q) + 6 ≤ f
    → IsWritableQuery q
    → parse_and f none (print_query q) ≡ parsed (denote_query q) []
parse_and-print_query q f le w =
    ap (parse_and f none) (sym (append-nil (print_query q))) ∙ reads_query q f [] le w nothing_left
