-- ===== src/CollParser/Build.antt =====
-- xmmsclient/xmmsclient/collparser.c: the recursive functions, `coll_parse_expr`, `_parenexpr`,
-- `_notop`, `_andop_append` and `_orop_append`, and the parser as a whole.
use xmms2remote.Prelude.{ℕ, zero, suc, List, [], ◌∷◌, Option, none, some}
use xmms2remote.Value.{Text, Coll, coll_new, add_operand}
use xmms2remote.Collection.{collection_union, collection_intersection, collection_complement}
use xmms2remote.CollParser.{
  Token, group_open, group_close, opset_union, opset_intersection, opset_complement, tokenize,
}
use xmms2remote.CollParser.Prepare.{prepare}
use xmms2remote.CollParser.Filters.{
  Parse, parsed, failed, out_of_fuel, Parser, returned, or_else, parse_posseq, parse_idseq,
  parse_filter, parse_reference,
}

-- `coll_parse_notop`, given `coll_parse_expr`.
unfoldable pub complement_of : Parse → Parse
complement_of (parsed c ks) = returned (add_operand (coll_new collection_complement) (some c)) ks
complement_of r = r

unfoldable pub parse_notop : Parser → Parser
unfolding complement_of
parse_notop expr [] = failed
parse_notop expr (k ∷ ks) = elim k.type [ opset_complement ↦ complement_of (expr ks) | _ ↦ failed ]

-- `coll_parse_parenexpr`, given `coll_parse_operation`.
unfoldable pub then_close : Parse → Parse
then_close (parsed c []) = failed
then_close (parsed c (k ∷ ks)) = elim k.type [ group_close ↦ parsed c ks | _ ↦ failed ]
then_close r = r

unfoldable pub parse_parenexpr : Parser → Parser
unfolding then_close
parse_parenexpr operation [] = failed
parse_parenexpr operation (k ∷ ks) = elim k.type [
  | group_open ↦ then_close (operation ks)
  | _ ↦ failed
]

-- `coll_parse_expr`, with `coll_parse_unaryop`.
unfoldable pub expr_step : Parser → Parser → Parser
unfolding or_else parse_posseq parse_idseq parse_filter parse_parenexpr parse_notop parse_reference
expr_step operation expr [] = failed
expr_step operation expr (k ∷ ks) = or_else (parse_posseq (k ∷ ks)) (
    or_else (parse_idseq (k ∷ ks)) (
      or_else (parse_filter (k ∷ ks)) (
        or_else (parse_parenexpr operation (k ∷ ks))
          (or_else (parse_notop expr (k ∷ ks)) (parse_reference (k ∷ ks))))))

-- Whether the tokens go on with an operator, and what is behind it.
unfoldable pub behind_or : List Token → Option (List Token)
behind_or [] = none
behind_or (k ∷ ks) = elim k.type [ opset_union ↦ some ks | _ ↦ none ]

unfoldable pub skip_and : List Token → List Token
skip_and [] = []
skip_and (k ∷ ks) = elim k.type [ opset_intersection ↦ ks | _ ↦ k ∷ ks ]

-- What `operator`, to which a recursive call has added operands, is in the end: the call failed
-- without a change, or it returned the operator and its own position.
unfoldable pub joined : Option Coll → List Token → Parse → Parse
joined c ks failed = returned c ks
joined c ks (parsed d ks') = parsed d ks'
joined c ks out_of_fuel = out_of_fuel

-- `coll_parse_orop_append`, given `coll_parse_expr` and itself.
unfoldable pub or_operand :
    (Option Coll → Parser) → Option Coll → Coll → List Token → Option (List Token) → Parse
unfolding joined
or_operand again none first ks none = parsed first ks
or_operand again (some o) first ks none = returned (add_operand (some o) (some first)) ks
or_operand again none first ks (some ks') =
    let o = add_operand (coll_new collection_union) (some first) in joined o ks' (again o ks')
or_operand again (some o) first ks (some ks') =
    let o' = add_operand (some o) (some first) in joined o' ks' (again o' ks')

unfoldable pub or_step : (Option Coll → Parser) → Option Coll → Parse → Parse
unfolding or_operand behind_or
or_step again operator failed = failed
or_step again operator out_of_fuel = out_of_fuel
or_step again operator (parsed first ks) = or_operand again operator first ks (behind_or ks)

-- `coll_parse_andop_append`, given `coll_parse_orop` and itself. With a single operand the new
-- intersection is given up.
unfoldable pub and_operand : (Option Coll → Parser) → Option Coll → Coll → List Token → Parse
unfolding joined
and_operand again none first ks =
    joined (some first) ks (again (add_operand (coll_new collection_intersection) (some first)) ks)
and_operand again (some o) first ks =
    let o' = add_operand (some o) (some first) in joined o' ks (again o' ks)

unfoldable pub and_step : (Option Coll → Parser) → Option Coll → Parse → Parse
unfolding and_operand skip_and
and_step again operator failed = failed
and_step again operator out_of_fuel = out_of_fuel
and_step again operator (parsed first ks) = and_operand again operator first (skip_and ks)

-- The recursion of `coll_parse_expr`, `_operation`, `_andop_append` and `_orop_append`.
unfoldable mutual
  unfolding expr_step or_step and_step

  pub parse_expr : ℕ → Parser
  parse_expr zero ks = out_of_fuel
  parse_expr (suc f) ks = expr_step (λ ts. parse_and f none ts) (λ ts. parse_expr f ts) ks

  pub parse_or : ℕ → Option Coll → Parser
  parse_or zero operator ks = out_of_fuel
  parse_or (suc f) operator ks = or_step (λ o ts. parse_or f o ts) operator (parse_expr f ks)

  pub parse_and : ℕ → Option Coll → Parser
  parse_and zero operator ks = out_of_fuel
  parse_and (suc f) operator ks = and_step (λ o ts. parse_and f o ts) operator (parse_or f none ks)

-- `xmmsv_coll_default_parse_build`: null unless the whole string is parsed.
unfoldable pub build_result : Parse → Option (Option Coll)
build_result out_of_fuel = none
build_result failed = some none
build_result (parsed c []) = some (some c)
build_result (parsed c (k ∷ ks)) = some none

unfoldable pub parse_build : ℕ → List Token → Option (Option Coll)
unfolding prepare parse_and build_result
parse_build fuel ks = build_result (parse_and fuel none (prepare ks))

-- `xmmsv_coll_parse`; the outer `none` is the end of the fuel.
unfoldable pub coll_parse : ℕ → Text → Option (Option Coll)
unfolding tokenize parse_build
coll_parse fuel s = elim (tokenize fuel s) [ none ↦ none | some ks ↦ parse_build fuel ks ]
