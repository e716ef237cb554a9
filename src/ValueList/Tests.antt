-- ===== src/ValueList/Tests.antt =====
-- Runs of the list operations, and the list theorems at a list of two values.
use xmms2remote.Prelude.{
  get_elem?, ℕ, zero, suc, ◌≡◌, refl, ap, List, [], ◌∷◌, some, true, false, length, arith,
}
use xmms2remote.Value.{Value}
use xmms2remote.ValueList.{
  ValueList, ℤ, pos, negsuc, Heap, done, list_insert, list_remove, ahead, shift_insert,
  shift_remove, shift_forth,
}
use xmms2remote.ValueList.Inv.{IsValid}
use xmms2remote.ValueList.Insert.{Inserted, list_insert_refines}
use xmms2remote.ValueList.Follow.{iter_entry-list_insert}
use xmms2remote.ValueList.Move.{Moved, list_move, list_move_refines}
use xmms2remote.ValueList.Remove.{Removed, list_remove_refines}
use xmms2remote.ValueList.Iter.{iter_entry}

empty_cells : ℕ → List Value
empty_cells zero = []
empty_cells (suc n) = Value.nothing ∷ empty_cells n

length-empty_cells : (n : ℕ) → length (empty_cells n) ≡ n
unfolding empty_cells
length-empty_cells zero = refl
length-empty_cells (suc n) = ap suc (length-empty_cells n)

abbrev heap : Heap
heap = record { grants = λ n. true; fresh = empty_cells; fresh_length = length-empty_cells }

-- The array is full; one iterator stands on the last value and one before the first.
abbrev two : ValueList
two = record {
  list = Value.int 1 ∷ Value.int 2 ∷ [];
  size = 2;
  allocated = 2;
  restricted = false;
  restricttype = 0;
  iterators = pos 1 ∷ negsuc 0 ∷ [];
}

two-IsValid : IsValid two
two-IsValid = record { whole = refl; room = omega arith; within = (omega arith, (refl, tt)) }

-- A negative position counts from the end, and the array is doubled.
insert_run :
    list_insert heap (negsuc 0) (Value.int 7) two
    ≡ done true (record {
      list = Value.int 1 ∷ Value.int 7 ∷ Value.int 2 ∷ Value.nothing ∷ [];
      size = 3;
      allocated = 4;
      restricted = false;
      restricttype = 0;
      iterators = pos 1 ∷ negsuc 0 ∷ [];
    })
unfolding list_insert empty_cells ahead shift_insert
insert_run = refl

remove_run :
    list_remove heap (pos 0) two
    ≡ done true (record {
      list = Value.int 2 ∷ [];
      size = 1;
      allocated = 1;
      restricted = false;
      restricttype = 0;
      iterators = pos 0 ∷ negsuc 0 ∷ [];
    })
unfolding list_remove empty_cells ahead shift_remove
remove_run = refl

list_insert_refines_example :
    Inserted heap (negsuc 0) (Value.int 7) two (list_insert heap (negsuc 0) (Value.int 7) two)
list_insert_refines_example =
    list_insert_refines heap (negsuc 0) (Value.int 7) two two-IsValid (omega arith) (omega arith)

list_remove_refines_example : Removed heap (pos 0) two (list_remove heap (pos 0) two)
list_remove_refines_example = list_remove_refines heap (pos 0) two two-IsValid tt

list_move_refines_example : Moved two (pos 0) (negsuc 0) (list_move two (pos 0) (negsuc 0))
list_move_refines_example = list_move_refines two two-IsValid (pos 0) (negsuc 0) tt (omega arith)

move_run :
    list_move two (pos 0) (negsuc 0)
    ≡ done true (record {
      list = Value.int 2 ∷ Value.int 1 ∷ [];
      size = 2;
      allocated = 2;
      restricted = false;
      restricttype = 0;
      iterators = pos 0 ∷ negsuc 0 ∷ [];
    })
unfolding list_move ahead shift_forth
move_run = refl

abbrev three : ValueList
three = record {
  list = Value.int 7 ∷ Value.int 1 ∷ Value.int 2 ∷ Value.nothing ∷ [];
  size = 3;
  allocated = 4;
  restricted = false;
  restricttype = 0;
  iterators = pos 2 ∷ negsuc 0 ∷ [];
}

insert_front_run : list_insert heap (pos 0) (Value.int 7) two ≡ done true three
unfolding list_insert empty_cells ahead shift_insert
insert_front_run = refl

iter_entry-list_insert_example :
    (it : ℤ) × (get_elem? three.iterators 0 ≡ some it)
    × (iter_entry three it ≡ iter_entry two (pos 1))
iter_entry-list_insert_example =
    iter_entry-list_insert heap (pos 0) (Value.int 7) two three two-IsValid tt (omega arith)
      insert_front_run 0 1 refl (omega arith) (λ e. omega (arith, e))
