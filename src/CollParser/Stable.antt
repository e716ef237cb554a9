-- ===== src/CollParser/Stable.antt =====
-- The tokens that a query is written with are as `coll_parse_prepare` leaves them, so the whole
-- builder reads the query back.
use xmms2remote.Prelude.{
  ℕ, ◌+◌, ◌*◌, ◌≤◌, ◌≡◌, refl, ap, subst, ◌∙◌, List, [], ◌∷◌, ◌++◌, append_assoc, append-nil,
  length, some,
}
use xmms2remote.CollParser.{
  Token, operator, group_open, group_close, pattern, opset_union, opset_intersection,
  opset_complement,
}
use xmms2remote.CollParser.Prepare.{prepare, prepare_from, before_comparison, after_previous}
use xmms2remote.CollParser.Grammar.{
  Expr, everything, any_of, equal, below, above, has, refer, negated, group, Alternatives, only, or,
  Query, single, both, print, print_or, print_query, denote_query, IsWritableQuery, string_token,
  property, number,
}
use xmms2remote.CollParser.Build.{parse_build, build_result}
use xmms2remote.CollParser.RoundTrip.{parse_and-print_query}

-- Two neighbours that are left as they are.
abbrev Calm : Token → Token → Type 0
Calm k c = after_previous (before_comparison k c) c ≡ (k, c)

abbrev Stable : Token → List Token → Type 0
Stable k [] = Unit
Stable k (c ∷ ks) = Calm k c × Stable c ks

prepare_from-Stable : (ks : List Token) (k : Token) → Stable k ks → prepare_from k ks ≡ k ∷ ks
unfolding prepare_from
prepare_from-Stable [] k h = refl
prepare_from-Stable (c ∷ ks) k (calm, h) =
    ap (λ r. r.0 ∷ prepare_from r.1 ks) calm ∙ ap (k ∷◌) (prepare_from-Stable ks c h)

-- The operators that stand between expressions, and what may follow an expression.
data Between : Token → Type 0 where
  union_op : Between (operator opset_union)
  intersection_op : Between (operator opset_intersection)
  complement_op : Between (operator opset_complement)
  open_op : Between (operator group_open)
  close_op : Between (operator group_close)

-- Behind any token that may end an expression the rest is stable.
abbrev Behind : List Token → Type 0
Behind [] = Unit
Behind (c ∷ ks) = Between c × Stable c ks

Calm-Between : (k c : Token) → Between k → before_comparison k c ≡ k → Calm k c
unfolding after_previous
Calm-Between _ c union_op e = ap (λ k. after_previous k c) e
Calm-Between _ c intersection_op e = ap (λ k. after_previous k c) e
Calm-Between _ c complement_op e = ap (λ k. after_previous k c) e
Calm-Between _ c open_op e = ap (λ k. after_previous k c) e
Calm-Between _ c close_op e = ap (λ k. after_previous k c) e

-- The tokens that an expression may end in.
data Last : Token → Type 0 where
  last_text : (s : List ℕ) → Last (string_token s)
  last_property : (s : List ℕ) → Last (property s)
  last_number : (s : List ℕ) → Last (number s)
  last_star : (s : List ℕ) → Last (record { type = pattern; string = s })
  last_close : Last (operator group_close)

before-Between : (k c : Token) → Between c → before_comparison k c ≡ k
unfolding before_comparison
before-Between k _ union_op = refl
before-Between k _ intersection_op = refl
before-Between k _ complement_op = refl
before-Between k _ open_op = refl
before-Between k _ close_op = refl

after-Last : (k c : Token) → Last k → after_previous k c ≡ (k, c)
unfolding after_previous
after-Last _ c (last_text s) = refl
after-Last _ c (last_property s) = refl
after-Last _ c (last_number s) = refl
after-Last _ c (last_star s) = refl
after-Last _ c last_close = refl

Stable-Behind : (k : Token) (rest : List Token) → Last k → Behind rest → Stable k rest
Stable-Behind k [] e h = tt
Stable-Behind k (c ∷ ks) e (between, h) =
    (ap (λ p. after_previous p c) (before-Between k c between) ∙ after-Last k c e, h)

mutual
  unfolding print before_comparison after_previous

  Stable-expr :
      (e : Expr) (k : Token) (rest : List Token)
      → Between k
      → Behind rest
      → Stable k (print e ++ rest)
  Stable-expr everything k rest b h =
      (Calm-Between k _ b refl, Stable-Behind _ rest (last_star _) h)
  Stable-expr (any_of s) k rest b h =
      (Calm-Between k _ b refl, Stable-Behind _ rest (last_text s) h)
  Stable-expr (equal p s) k rest b h =
      (Calm-Between k _ b refl, (refl, (refl, Stable-Behind _ rest (last_text s) h)))
  Stable-expr (below p s) k rest b h =
      (Calm-Between k _ b refl, (refl, (refl, Stable-Behind _ rest (last_number s) h)))
  Stable-expr (above p s) k rest b h =
      (Calm-Between k _ b refl, (refl, (refl, Stable-Behind _ rest (last_number s) h)))
  Stable-expr (has p) k rest b h =
      (Calm-Between k _ b refl, (refl, Stable-Behind _ rest (last_property p) h))
  Stable-expr (refer s) k rest b h =
      (Calm-Between k _ b refl, (refl, Stable-Behind _ rest (last_text s) h))
  Stable-expr (negated e) k rest b h =
      (Calm-Between k _ b refl, Stable-expr e _ rest complement_op h)
  Stable-expr (group q) k rest b h = (
    Calm-Between k _ b refl,
    rw (append_assoc (print_query q) (operator group_close ∷ []) rest) (
        Stable-query q _ (operator group_close ∷ rest) open_op
          (close_op, Stable-Behind _ rest last_close h)),
  )

  Stable-or :
      (a : Alternatives) (k : Token) (rest : List Token)
      → Between k
      → Behind rest
      → Stable k (print_or a ++ rest)
  Stable-or (only e) k rest b h = Stable-expr e k rest b h
  Stable-or (or e a) k rest b h =
      rw (append_assoc (print e) (operator opset_union ∷ print_or a) rest) (
        Stable-expr e k (operator opset_union ∷ (print_or a ++ rest)) b
          (union_op, Stable-or a _ rest union_op h))

  Stable-query :
      (q : Query) (k : Token) (rest : List Token)
      → Between k
      → Behind rest
      → Stable k (print_query q ++ rest)
  Stable-query (single a) k rest b h = Stable-or a k rest b h
  Stable-query (both a q) k rest b h =
      rw (append_assoc (print_or a) (operator opset_intersection ∷ print_query q) rest) (
        Stable-or a k (operator opset_intersection ∷ (print_query q ++ rest)) b
          (intersection_op, Stable-query q _ rest intersection_op h))

prepare-Stable : (ks : List Token) (k : Token) → Stable k ks → prepare ks ≡ ks
unfolding prepare
prepare-Stable [] k h = refl
prepare-Stable (c ∷ ks) k (calm, h) = prepare_from-Stable ks c h

prepare-print_query : (q : Query) → prepare (print_query q) ≡ print_query q
prepare-print_query q = prepare-Stable (print_query q) (operator group_open) (
    subst (Stable (operator group_open)) (append-nil (print_query q))
      (Stable-query q (operator group_open) [] open_op tt))

-- A query whose texts are UTF-8, written out as tokens, is built as the collection that it means:
-- NOT binds tighter than OR and OR tighter than AND, the operands stand in the order written, and no
-- token is left. Six units of fuel for each token and six more are enough.
pub parse_build-print_query :
    (q : Query) (fuel : ℕ)
    → 6 * length (print_query q) + 6 ≤ fuel
    → IsWritableQuery q
    → parse_build fuel (print_query q) ≡ some (some (denote_query q))
unfolding parse_build build_result
parse_build-print_query q fuel le w =
    rw (parse_build, prepare-print_query q, parse_and-print_query q fuel le w) refl
