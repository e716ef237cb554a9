-- ===== src/CollParser/Leaves.antt =====
-- What the filters and the references of a query are parsed as.
use xmms2remote.Prelude.{ℕ, ◌≡◌, refl, true, leb, List, [], ◌∷◌, ◌++◌, none, some}
use xmms2remote.Value.{
  Text, Coll, node, Fields, end, field, Value, Operands, operand, no_operands, coll_new,
  add_operand, new_string, append_operand,
}
use xmms2remote.Value.Text.{codes, strcmp}
use xmms2remote.Collection.{
  coll_attribute_set, universe, set_entry, collection_equals, collection_union,
  collection_complement, collection_has, collection_smaller, collection_greater,
}
use xmms2remote.Value.{collection_last, collection_reference, fields_to_list, fields_of_list}
use xmms2remote.Value.Utf8.{utf8_validate}
use xmms2remote.Dict.{dict_set, try_set, set_found}
use xmms2remote.CollParser.{Token, operator, group_close, group_open, opset_complement}
use xmms2remote.CollParser.Grammar.{
  Expr, everything, any_of, equal, below, above, has, refer, print, denote, all_media, comparing,
  Utf8,
}
use xmms2remote.CollParser.Filters.{
  parsed, Parser, filter_coll, append_universe, autofilter_coll, autofilter_operand, reference_coll,
  split_at,
}
use xmms2remote.CollParser.Build.{expr_step}

universe_lem : universe ≡ some all_media
unfolding universe utf8_validate fields_to_list fields_of_list
universe_lem = refl

set_field : (a : Value) → set_entry end (codes "field") a ≡ field (codes "field") a end
unfolding set_entry utf8_validate fields_to_list fields_of_list dict_set try_set set_found
set_field a = refl

set_value :
    (a b : Value)
    → set_entry (field (codes "field") a end) (codes "value") b
      ≡ field (codes "field") a (field (codes "value") b end)
unfolding set_entry utf8_validate fields_to_list fields_of_list dict_set try_set set_found strcmp
set_value a b = refl

set_namespace : (a : Value) → set_entry end (codes "namespace") a ≡ field (codes "namespace") a end
unfolding set_entry utf8_validate fields_to_list fields_of_list dict_set try_set set_found
set_namespace a = refl

set_reference :
    (a b : Value)
    → set_entry (field (codes "namespace") a end) (codes "reference") b
      ≡ field (codes "namespace") a (field (codes "reference") b end)
unfolding set_entry utf8_validate fields_to_list fields_of_list dict_set try_set set_found strcmp
set_reference a b = refl

attribute_lem :
    (t : ℕ) (attrs : Fields) (ops : Operands) (key s : Text)
    → Utf8 s
    → coll_attribute_set (some (node t attrs [] ops)) key (some s)
      ≡ some (node t (set_entry attrs key (Value.string s)) [] ops)
unfolding coll_attribute_set new_string
attribute_lem t attrs ops key s u = rw (coll_attribute_set, new_string, u) refl

pub new_lem : (t : ℕ) → leb t collection_last ≡ true → coll_new t ≡ some (node t end [] no_operands)
unfolding coll_new
new_lem t le = rw (coll_new, le) refl

pub add_lem :
    (t : ℕ) (attrs : Fields) (ops : Operands) (c : Coll)
    → add_operand (some (node t attrs [] ops)) (some c)
      ≡ some (node t attrs [] (append_operand ops c))
unfolding add_operand
add_lem t attrs ops c = refl

filter_coll_lem :
    (t : ℕ) (f s : Text)
    → leb t collection_last ≡ true
    → Utf8 f
    → Utf8 s
    → append_universe (filter_coll t f (some s)) ≡ some (comparing t f s)
unfolding filter_coll append_universe append_operand
filter_coll_lem t f s le u u' =
    rw
      (
        append_universe,
        filter_coll,
        new_lem t le,
        attribute_lem t end no_operands (codes "field") f u,
        set_field (Value.string f),
        attribute_lem t (field (codes "field") (Value.string f) end) no_operands (codes "value") s
            u',
        set_value (Value.string f) (Value.string s),
        universe_lem,
      )
      (add_lem t _ no_operands all_media)

autofilter_lem :
    (s : Text) → Utf8 s → autofilter_coll collection_equals s ≡ some (denote (any_of s))
unfolding autofilter_coll denote append_operand utf8_validate add_operand
autofilter_lem s u =
    rw
      (
        autofilter_coll,
        autofilter_operand,
        new_lem collection_union refl,
        filter_coll_lem collection_equals (codes "artist") s refl refl u,
        filter_coll_lem collection_equals (codes "album") s refl refl u,
        filter_coll_lem collection_equals (codes "title") s refl refl u,
      )
      refl

reference_lem :
    (s : Text) → Utf8 s → split_at b'/' s ≡ (s, none) → reference_coll s ≡ some (denote (refer s))
unfolding reference_coll denote utf8_validate
reference_lem s u e =
    rw
      (
        reference_coll,
        e,
        new_lem collection_reference refl,
        attribute_lem collection_reference end no_operands (codes "namespace") (codes "Collections")
            refl,
        set_namespace (Value.string (codes "Collections")),
        attribute_lem collection_reference
            (field (codes "namespace") (Value.string (codes "Collections")) end) no_operands
            (codes "reference") s u,
        set_reference (Value.string (codes "Collections")) (Value.string s),
      )
      refl

has_lem :
    (f : Text)
    → Utf8 f
    → append_universe (coll_attribute_set (coll_new collection_has) (codes "field") (some f))
      ≡ some (denote (has f))
unfolding append_universe denote add_operand append_operand
has_lem f u =
    rw
      (
        append_universe,
        new_lem collection_has refl,
        attribute_lem collection_has end no_operands (codes "field") f u,
        set_field (Value.string f),
        universe_lem,
      )
      refl

module _ (operation expr : Parser) (rest : List Token) where
  abbrev pub ReadsExpr : Expr → Type 0
  ReadsExpr e = expr_step operation expr (print e ++ rest) ≡ parsed (denote e) rest

  pub everything_lem : ReadsExpr everything
  unfolding expr_step print denote strcmp
  everything_lem = rw universe_lem refl

  pub any_of_lem : (s : Text) → Utf8 s → ReadsExpr (any_of s)
  unfolding expr_step print
  any_of_lem s u = rw (autofilter_lem s u) refl

  pub equal_lem : (f s : Text) → Utf8 f → Utf8 s → ReadsExpr (equal f s)
  unfolding expr_step print denote
  equal_lem f s u u' = rw (filter_coll_lem collection_equals f s refl u u') refl

  pub below_lem : (f s : Text) → Utf8 f → Utf8 s → ReadsExpr (below f s)
  unfolding expr_step print denote
  below_lem f s u u' = rw (filter_coll_lem collection_smaller f s refl u u') refl

  pub above_lem : (f s : Text) → Utf8 f → Utf8 s → ReadsExpr (above f s)
  unfolding expr_step print denote
  above_lem f s u u' = rw (filter_coll_lem collection_greater f s refl u u') refl

  pub has_expr : (f : Text) → Utf8 f → ReadsExpr (has f)
  unfolding expr_step print
  has_expr f u = rw (has_lem f u) refl

  pub refer_lem : (s : Text) → Utf8 s → split_at b'/' s ≡ (s, none) → ReadsExpr (refer s)
  unfolding expr_step print
  refer_lem s u e = rw (reference_lem s u e) refl

-- An expression behind NOT, and one in parentheses.
module _ (operation expr : Parser) (ts rest : List Token) (c : Coll) where
  pub negated_lem :
      expr ts ≡ parsed c rest
      → expr_step operation expr (operator opset_complement ∷ ts)
        ≡ parsed (node collection_complement end [] (operand c no_operands)) rest
  unfolding expr_step add_operand append_operand
  negated_lem e = rw (e, new_lem collection_complement refl) refl

  pub group_lem :
      operation ts ≡ parsed c (operator group_close ∷ rest)
      → expr_step operation expr (operator group_open ∷ ts) ≡ parsed c rest
  unfolding expr_step
  group_lem e = rw e refl
