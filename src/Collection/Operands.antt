-- ===== src/Collection/Operands.antt =====
-- The operands of a collection, xmmsclient/xmmstypes/coll.c, over the list of xmmstypes/value.c that
-- holds them. Whether a value of the list is the collection that an operation was given (the source
-- compares pointers) is a parameter. Memory for an iterator is not refused.
pub mod Removal
mod Tests
use xmms2remote.Prelude.{
  ℕ, zero, suc, ◌+◌, ◌-◌, ◌≤◌, ◌<◌, ◌≡◌, refl, sym, ap, ◌∙◌, Bool, true, false, if◌then◌else◌, List,
  [], ◌∷◌, map, Option, none, some, length, get_elem?, drop, drop_all, ltb, ltb→lt, ltb→le, inl,
  inr, Bool-cases, All, arith, lt→ltb,
}
use xmms2remote.Value.{Value}
use xmms2remote.ValueList.{
  ValueList, Heap, Outcome, done, fault, ℤ, pos, negsuc, ahead, shift_remove, list_append,
  list_remove,
}
use xmms2remote.ValueList.Inv.{contents, Within, IsValid}
use xmms2remote.ValueList.Cells.{remove_at}
use xmms2remote.ValueList.Iter.{
  Entry, entry, no_entry, iter_valid, iter_entry, iter_next, read_cell, length-contents, drop_next,
  next_lem, get_elem?-take,
}
use xmms2remote.ValueList.Remove.{Removed, list_remove_refines}

-- `xmmsv_list_iter_new`, at the front of the registered iterators, and the list when the iterator at
-- the front stands at a position; and `xmmsv_list_iter_free` of the one at the front.
unfoldable pub iter_new : ValueList → ValueList
iter_new l = record l { iterators = pos 0 ∷ l.iterators }

unfoldable pub iter_at : ℤ → ValueList → ValueList
iter_at it l = record l { iterators = it ∷ l.iterators }

unfoldable pub iter_free : ValueList → ValueList
iter_free l = record l { iterators = drop 1 l.iterators }

unfoldable pub freed : Outcome → Outcome
unfolding iter_free
freed (done b l) = done b (iter_free l)
freed fault = fault

module _ (is_op : Value → Bool) where
  -- `_xmmsv_coll_operand_find`: whether the operand was found, and where the iterator stands; `none`
  -- is a read outside the array, or the end of the fuel.
  unfoldable pub operand_find : ℕ → ValueList → ℤ → Option (Bool × ℤ)
  unfolding iter_valid iter_entry iter_next
  operand_find zero l it = none
  operand_find (suc fuel) l it =
      let rest = operand_find fuel l (iter_next l it) in
      if iter_valid l it
      then elim (iter_entry l it) [ entry v ↦ if is_op v then some (true, it) else rest | _ ↦ none ]
      else some (false, it)

  module _ (h : Heap) where
    -- `xmmsv_coll_remove_operand` from the search on.
    unfoldable pub remove_found : ValueList → Option (Bool × ℤ) → Outcome
    unfolding iter_at freed
    remove_found l none = fault
    remove_found l (some (found, it)) =
        if found then freed (list_remove h it (iter_at it l)) else done false l

    unfoldable pub operands_remove : ℕ → ValueList → Outcome
    unfolding remove_found operand_find iter_new
    operands_remove fuel l = remove_found l (operand_find fuel (iter_new l) (pos 0))

    -- `xmmsv_coll_add_operand` from the search on, with the value that holds the operand.
    unfoldable pub add_found : Value → ValueList → Option (Bool × ℤ) → Outcome
    unfolding list_append
    add_found op l none = fault
    add_found op l (some (found, it)) = if found then done false l else list_append h op l

    unfoldable pub operands_add : ℕ → Value → ValueList → Outcome
    unfolding add_found operand_find iter_new
    operands_add fuel op l = add_found op l (operand_find fuel (iter_new l) (pos 0))
