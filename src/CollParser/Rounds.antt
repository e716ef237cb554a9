-- ===== src/CollParser/Rounds.antt =====
-- Single rounds of the loops over OR and AND, by what the calls in them return.
use xmms2remote.Prelude.{ℕ, zero, suc, ◌≤◌, ◌≡◌, refl, ap, List, [], ◌∷◌, Option, none, some, arith}
use xmms2remote.Value.{
  Coll, node, end, Operands, operand, no_operands, add_operand, append_operand, coll_new,
}
use xmms2remote.Collection.{collection_union, collection_intersection}
use xmms2remote.CollParser.{Token, operator, opset_union, opset_intersection, group_close}
use xmms2remote.CollParser.Filters.{parsed, failed, Parser}
use xmms2remote.CollParser.Build.{
  expr_step, parse_expr, parse_or, parse_and, or_step, and_step, or_operand, and_operand, behind_or,
  skip_and, joined,
}
use xmms2remote.CollParser.Leaves.{new_lem, add_lem}

-- What may stand behind a query: nothing, or the end of a group.
pub data Ends : List Token → Type 0 where
  nothing_left : Ends []
  group_ends : (ks : List Token) → Ends (operator group_close ∷ ks)

unfoldable pub append_operands : Operands → Operands → Operands
append_operands no_operands ds = ds
append_operands (operand c cs) ds = operand c (append_operands cs ds)

pub append-append_operand :
    (cs ds : Operands) (c : Coll)
    → append_operands (append_operand cs c) ds ≡ append_operands cs (operand c ds)
unfolding append_operands append_operand
append-append_operand no_operands ds c = refl
append-append_operand (operand d cs) ds c = ap (operand d) (append-append_operand cs ds c)

append_operands-none :
    (cs : Operands) (c : Coll) → append_operands cs (operand c no_operands) ≡ append_operand cs c
unfolding append_operands append_operand
append_operands-none no_operands c = refl
append_operands-none (operand d cs) c = ap (operand d) (append_operands-none cs c)

pub and_fails :
    (f : ℕ) (o : Option Coll) (ks : List Token) → Ends ks → 4 ≤ f → parse_and f o ks ≡ failed
unfolding parse_and parse_or parse_expr expr_step
and_fails zero o ks e le = absurd (omega arith)
and_fails (suc zero) o ks e le = absurd (omega arith)
and_fails (suc (suc zero)) o ks e le = absurd (omega arith)
and_fails (suc (suc (suc f))) o [] nothing_left le = refl
and_fails (suc (suc (suc f))) o _ (group_ends ks) le = refl

pub behind_or-Ends : (ks : List Token) → Ends ks → behind_or ks ≡ none
unfolding behind_or
behind_or-Ends [] nothing_left = refl
behind_or-Ends _ (group_ends ks) = refl

pub skip_and-Ends : (ks : List Token) → Ends ks → skip_and ks ≡ ks
unfolding skip_and
skip_and-Ends [] nothing_left = refl
skip_and-Ends _ (group_ends ks) = refl

-- The collection with operands behind its own.
abbrev pub with_operands : ℕ → Operands → Coll
with_operands t ops = node t end [] ops

-- One round of each loop, from what the calls in it return.
module _ (again : Option Coll → Parser) (first : Coll) (ks : List Token) where
  pub or_stops : behind_or ks ≡ none → or_step again none (parsed first ks) ≡ parsed first ks
  unfolding or_step or_operand
  or_stops e = rw (or_step, e) refl

  pub or_stops_some :
      (t : ℕ) (ops : Operands)
      → behind_or ks ≡ none
      → or_step again (some (with_operands t ops)) (parsed first ks)
        ≡ parsed (with_operands t (append_operands ops (operand first no_operands))) ks
  unfolding or_step or_operand
  or_stops_some t ops e =
      rw (or_step, e, or_operand, add_lem t end ops first, append_operands-none ops first) refl

  module _ (ks' rest : List Token) (c : Coll) where
    pub or_goes_on :
        behind_or ks ≡ some ks'
        → again (some (with_operands collection_union (operand first no_operands))) ks'
          ≡ parsed c rest
        → or_step again none (parsed first ks) ≡ parsed c rest
    unfolding or_step or_operand joined append_operand
    or_goes_on e r =
        rw
          (
            or_step,
            e,
            or_operand,
            new_lem collection_union refl,
            add_lem collection_union end no_operands first,
            r,
          )
          refl

    pub or_goes_on_some :
        (t : ℕ) (ops : Operands)
        → behind_or ks ≡ some ks'
        → again (some (with_operands t (append_operand ops first))) ks' ≡ parsed c rest
        → or_step again (some (with_operands t ops)) (parsed first ks) ≡ parsed c rest
    unfolding or_step or_operand joined
    or_goes_on_some t ops e r = rw (or_step, e, or_operand, add_lem t end ops first, r) refl

    pub and_goes_on :
        skip_and ks ≡ ks'
        → again (some (with_operands collection_intersection (operand first no_operands))) ks'
          ≡ parsed c rest
        → and_step again none (parsed first ks) ≡ parsed c rest
    unfolding and_step and_operand joined append_operand
    and_goes_on e r =
        rw
          (
            and_step,
            e,
            and_operand,
            new_lem collection_intersection refl,
            add_lem collection_intersection end no_operands first,
            r,
          )
          refl

    pub and_goes_on_some :
        (t : ℕ) (ops : Operands)
        → skip_and ks ≡ ks'
        → again (some (with_operands t (append_operand ops first))) ks' ≡ parsed c rest
        → and_step again (some (with_operands t ops)) (parsed first ks) ≡ parsed c rest
    unfolding and_step and_operand joined
    and_goes_on_some t ops e r = rw (and_step, e, and_operand, add_lem t end ops first, r) refl

  pub and_stops :
      skip_and ks ≡ ks
      → ((o : Option Coll) → again o ks ≡ failed)
      → and_step again none (parsed first ks) ≡ parsed first ks
  unfolding and_step and_operand joined
  and_stops e h =
      rw (and_step, e, and_operand, h (add_operand (coll_new collection_intersection) (some first)))
        refl

  pub and_stops_some :
      (t : ℕ) (ops : Operands)
      → skip_and ks ≡ ks
      → ((o : Option Coll) → again o ks ≡ failed)
      → and_step again (some (with_operands t ops)) (parsed first ks)
        ≡ parsed (with_operands t (append_operands ops (operand first no_operands))) ks
  unfolding and_step and_operand joined
  and_stops_some t ops e h =
      rw
        (
          and_step,
          e,
          and_operand,
          h (add_operand (some (with_operands t ops)) (some first)),
          add_lem t end ops first,
          append_operands-none ops first,
        )
        refl

pub or_follows : (ks : List Token) → behind_or (operator opset_union ∷ ks) ≡ some ks
unfolding behind_or
or_follows ks = refl

pub or_at_and : (ks : List Token) → behind_or (operator opset_intersection ∷ ks) ≡ none
unfolding behind_or
or_at_and ks = refl

pub and_follows : (ks : List Token) → skip_and (operator opset_intersection ∷ ks) ≡ ks
unfolding skip_and
and_follows ks = refl
