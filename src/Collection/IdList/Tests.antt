-- ===== src/Collection/IdList/Tests.antt =====
-- Runs of the id list operations, and the theorems at an array of two ids.
use xmms2remote.Prelude.{ℕ, zero, suc, ◌≡◌, refl, ap, List, [], ◌∷◌, true, length, arith}
use xmms2remote.Collection.IdList.{
  IdList, Heap, done, idlist_insert, idlist_append, idlist_remove, idlist_move,
}
use xmms2remote.Collection.IdList.Holding.{Holds}
use xmms2remote.Collection.IdList.Insert.{Inserted, idlist_insert_refines}
use xmms2remote.Collection.IdList.Remove.{Removed, idlist_remove_refines}
use xmms2remote.Collection.IdList.Move.{Moved, idlist_move_refines}

zeros : ℕ → List ℕ
zeros zero = []
zeros (suc n) = 0 ∷ zeros n

length-zeros : (n : ℕ) → length (zeros n) ≡ n
unfolding zeros
length-zeros zero = refl
length-zeros (suc n) = ap suc (length-zeros n)

abbrev heap : Heap
heap = record { grants = λ n. true; fresh = zeros; fresh_length = length-zeros }

-- The array is full.
abbrev two : IdList
two = record { idlist = 5 ∷ 7 ∷ 0 ∷ []; idlist_size = 3; idlist_allocated = 3 }

two-Holds : Holds two (5 ∷ 7 ∷ [])
two-Holds = record { whole = refl; room = omega arith; small = omega arith; cells = refl }

append_run :
    idlist_append heap two 9
    ≡ done true
        (record { idlist = 5 ∷ 7 ∷ 9 ∷ 0 ∷ 0 ∷ 0 ∷ []; idlist_size = 4; idlist_allocated = 6 })
unfolding idlist_append zeros
append_run = refl

move_run :
    idlist_move two 0 1
    ≡ done true (record { idlist = 7 ∷ 5 ∷ 0 ∷ []; idlist_size = 3; idlist_allocated = 3 })
unfolding idlist_move
move_run = refl

idlist_insert_refines_example : Inserted heap two (5 ∷ 7 ∷ []) 1 9 (idlist_insert heap two 1 9)
idlist_insert_refines_example =
    idlist_insert_refines heap two (5 ∷ 7 ∷ []) 1 9 two-Holds (omega arith)

idlist_remove_refines_example : Removed two (5 ∷ 7 ∷ []) 0 (idlist_remove heap two 0)
idlist_remove_refines_example = idlist_remove_refines heap two (5 ∷ 7 ∷ []) 0 two-Holds

idlist_move_refines_example : Moved two (5 ∷ 7 ∷ []) 0 1 (idlist_move two 0 1)
idlist_move_refines_example = idlist_move_refines two (5 ∷ 7 ∷ []) two-Holds 0 1
