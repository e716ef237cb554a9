-- ===== src/CollParser/Terminates.antt =====
-- The recursive descent ends: every parser that succeeds takes at least one token.
use xmms2remote.Prelude.{
  ℕ, zero, suc, ◌+◌, ◌*◌, ◌≤◌, ◌<◌, ◌≡◌, ◌≢◌, refl, ap, List, [], ◌∷◌, Option, none, some, length,
  arith, Option-cases, inl, inr,
}
use xmms2remote.Value.{Coll, add_operand}
use xmms2remote.Value.Text.{codes}
use xmms2remote.CollParser.{Token, tokenize}
use xmms2remote.CollParser.Progress.{tokenize_ends, length-tokenize}
use xmms2remote.CollParser.Filters.{Parse, parsed, failed, out_of_fuel, Parser, parse_posseq}
use xmms2remote.CollParser.Build.{
  complement_of, parse_notop, then_close, parse_parenexpr, expr_step, behind_or, skip_and, joined,
  or_operand, or_step, and_operand, and_step, parse_expr, parse_or, parse_and, build_result,
  parse_build, coll_parse,
}
use xmms2remote.CollParser.Prepare.{prepare, prepare_from}
use xmms2remote.CollParser.Uses.{
  Uses, or_else-Uses, parse_filter-Uses, parse_idseq-Uses, parse_reference-Uses,
  parse_sequence-Uses, returned-Uses,
}

-- Every call on fewer tokens ends.
abbrev EndsBelow : ℕ → Parser → Type 0
EndsBelow n p = (ts : List Token) → length ts < n → Uses (length ts) (p ts)

then_close-Uses : (n : ℕ) (r : Parse) → Uses n r → Uses (suc n) (then_close r)
unfolding then_close
then_close-Uses n failed u = tt
then_close-Uses n (parsed c []) u = tt
then_close-Uses n (parsed c (k ∷ ks)) u = ground arith
then_close-Uses n out_of_fuel u = u

parse_parenexpr-Uses :
    (operation : Parser) (ks : List Token)
    → EndsBelow (length ks) operation
    → Uses (length ks) (parse_parenexpr operation ks)
unfolding parse_parenexpr
parse_parenexpr-Uses operation [] h = tt
parse_parenexpr-Uses operation (k ∷ ks) h =
    ground (arith, then_close-Uses (length ks) (operation ks) (h ks (omega arith)))

complement_of-Uses : (n : ℕ) (r : Parse) → Uses n r → Uses (suc n) (complement_of r)
unfolding complement_of
complement_of-Uses n failed u = tt
complement_of-Uses n (parsed c ks) u = returned-Uses (suc n) _ ks (omega (arith, u))
complement_of-Uses n out_of_fuel u = u

parse_notop-Uses :
    (expr : Parser) (ks : List Token)
    → EndsBelow (length ks) expr
    → Uses (length ks) (parse_notop expr ks)
unfolding parse_notop
parse_notop-Uses expr [] h = tt
parse_notop-Uses expr (k ∷ ks) h =
    ground (arith, complement_of-Uses (length ks) (expr ks) (h ks (omega arith)))

expr_step-Uses :
    (operation expr : Parser) (ks : List Token)
    → EndsBelow (length ks) operation
    → EndsBelow (length ks) expr
    → Uses (length ks) (expr_step operation expr ks)
unfolding expr_step parse_posseq
expr_step-Uses operation expr [] h h' = tt
expr_step-Uses operation expr (k ∷ ks) h h' =
    let ts = k ∷ ks in
    or_else-Uses _ _ _ (parse_sequence-Uses (codes "position") ts) (
      or_else-Uses _ _ _ (parse_idseq-Uses ts) (
        or_else-Uses _ _ _ (parse_filter-Uses ts) (
          or_else-Uses _ _ _ (parse_parenexpr-Uses operation ts h)
            (or_else-Uses _ _ _ (parse_notop-Uses expr ts h') (parse_reference-Uses ts)))))

joined-Uses :
    (n : ℕ) (c : Option Coll) (ks : List Token) (r : Parse)
    → length ks < n
    → Uses (length ks) r
    → Uses n (joined c ks r)
unfolding joined
joined-Uses n c ks failed lt u = returned-Uses n c ks lt
joined-Uses n c ks (parsed d ks') lt u = omega (arith, u)
joined-Uses n c ks out_of_fuel lt u = u

length-behind_or : (ks ks' : List Token) → behind_or ks ≡ some ks' → length ks' < length ks
unfolding behind_or
length-behind_or [] ks' e = absurd (cc)
length-behind_or (k ∷ ks) ks' e = ground arith

length-skip_and : (ks : List Token) → length (skip_and ks) ≤ length ks
unfolding skip_and
length-skip_and [] = omega arith
length-skip_and (k ∷ ks) = ground arith

module _ (again : Option Coll → Parser) (n : ℕ)
    (h : (o : Option Coll) → EndsBelow n (again o)) where
  or_operand-Uses :
      (operator : Option Coll) (first : Coll) (ks : List Token)
      → length ks < n
      → (r : Option (List Token)) → behind_or ks ≡ r
      → Uses n (or_operand again operator first ks r)
  unfolding or_operand
  or_operand-Uses none first ks lt none e = lt
  or_operand-Uses (some o) first ks lt none e = returned-Uses n _ ks lt
  or_operand-Uses none first ks lt (some ks') e =
      let lt' : length ks' < n = omega (arith, length-behind_or ks ks' e) in
      joined-Uses n _ ks' _ lt' (h _ ks' lt')
  or_operand-Uses (some o) first ks lt (some ks') e =
      let lt' : length ks' < n = omega (arith, length-behind_or ks ks' e) in
      joined-Uses n _ ks' _ lt' (h _ ks' lt')

  or_step-Uses : (operator : Option Coll) (r : Parse) → Uses n r → Uses n (or_step again operator r)
  unfolding or_step
  or_step-Uses operator failed u = tt
  or_step-Uses operator (parsed first ks) u =
      or_operand-Uses operator first ks u (behind_or ks) refl
  or_step-Uses operator out_of_fuel u = u

  and_step-Uses :
      (operator : Option Coll) (r : Parse) → Uses n r → Uses n (and_step again operator r)
  unfolding and_step and_operand
  and_step-Uses operator failed u = tt
  and_step-Uses none (parsed first ks) u =
      let lt : length (skip_and ks) < n = omega (arith, u, length-skip_and ks) in
      joined-Uses n (some first) (skip_and ks) _ lt (h _ (skip_and ks) lt)
  and_step-Uses (some o) (parsed first ks) u =
      let lt : length (skip_and ks) < n = omega (arith, u, length-skip_and ks) in
      joined-Uses n (add_operand (some o) (some first)) (skip_and ks) _ lt (h _ (skip_and ks) lt)
  and_step-Uses operator out_of_fuel u = u

mutual
  unfolding parse_expr parse_or parse_and

  parse_expr-Uses :
      (f : ℕ) (ks : List Token) → 3 * length ks < f → Uses (length ks) (parse_expr f ks)
  parse_expr-Uses zero ks lt = absurd (omega arith)
  parse_expr-Uses (suc f) ks lt =
      expr_step-Uses _ _ ks (λ ts h. parse_and-Uses f none ts (omega arith))
        (λ ts h. parse_expr-Uses f ts (omega arith))

  parse_or-Uses :
      (f : ℕ) (o : Option Coll) (ks : List Token)
      → 3 * length ks + 1 < f
      → Uses (length ks) (parse_or f o ks)
  parse_or-Uses zero o ks lt = absurd (omega arith)
  parse_or-Uses (suc f) o ks lt =
      or_step-Uses (λ o ts. parse_or f o ts) (length ks)
        (λ o' ts h. parse_or-Uses f o' ts (omega arith)) o (parse_expr f ks)
        (parse_expr-Uses f ks (omega arith))

  parse_and-Uses :
      (f : ℕ) (o : Option Coll) (ks : List Token)
      → 3 * length ks + 2 < f
      → Uses (length ks) (parse_and f o ks)
  parse_and-Uses zero o ks lt = absurd (omega arith)
  parse_and-Uses (suc f) o ks lt =
      and_step-Uses (λ o ts. parse_and f o ts) (length ks)
        (λ o' ts h. parse_and-Uses f o' ts (omega arith)) o (parse_or f none ks)
        (parse_or-Uses f none ks (omega arith))

length-prepare_from : (ks : List Token) (k : Token) → length (prepare_from k ks) ≡ suc (length ks)
unfolding prepare_from
length-prepare_from [] k = refl
length-prepare_from (c ∷ ks) k = ap suc (length-prepare_from ks _)

length-prepare : (ks : List Token) → length (prepare ks) ≡ length ks
unfolding prepare
length-prepare [] = refl
length-prepare (k ∷ ks) = length-prepare_from ks k

build_result_ends : (n : ℕ) (r : Parse) → Uses n r → build_result r ≢ none
unfolding build_result
build_result_ends n failed u = λ e. cc e
build_result_ends n (parsed c []) u = λ e. cc e
build_result_ends n (parsed c (k ∷ ks)) u = λ e. cc e
build_result_ends n out_of_fuel u = elim u [ ]

parse_build_ends :
    (fuel : ℕ) (ks : List Token) → 3 * length ks + 2 < fuel → parse_build fuel ks ≢ none
unfolding parse_build
parse_build_ends fuel ks lt =
    build_result_ends (length (prepare ks)) _
      (parse_and-Uses fuel none (prepare ks) (omega (arith, length-prepare ks)))

-- With three units of fuel for each byte and three more, parsing ends, whatever the pattern is.
pub coll_parse_ends : (fuel : ℕ) (s : List ℕ) → 3 * length s + 2 < fuel → coll_parse fuel s ≢ none
unfolding coll_parse
coll_parse_ends fuel s lt = elim (Option-cases (tokenize fuel s)) [
  | inl e ↦ absurd (tokenize_ends fuel s (omega arith) e)
  | inr (ks, e) ↦
      rw (coll_parse, e) (parse_build_ends fuel ks (omega (arith, length-tokenize fuel s ks e)))
]
