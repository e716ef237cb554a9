-- ===== src/ValueList.antt =====
-- xmmsclient/xmmstypes/value.c, the `xmmsv_list_*` functions: a list value is an array of cells that
-- grows and shrinks, with the positions of the iterators that are registered with it. An iterator is
-- named by its place among the registered ones.
pub mod Cells
pub mod Inv
pub mod Places
pub mod Resize
pub mod Iter
pub mod Access
pub mod Shift
pub mod Move
pub mod Follow
pub mod Insert
pub mod Remove
mod Tests
use xmms2remote.Prelude.{
  ℕ, zero, suc, ◌+◌, ◌-◌, ◌*◌, ◌/◌, ◌≤◌, ◌^◌, ◌≡◌, ltb, leb, ◌==◌, if◌then◌else◌, Bool, true, false,
  not, ◌&&◌, ◌||◌, List, [], ◌∷◌, ◌++◌, map, Option, none, some, length, set, take, drop,
}
use xmms2remote.Value.{Value, get_type}
pub use xmms2remote.Prelude.{ℤ, pos, negsuc}

abbrev pub int_limit : ℕ
int_limit = 2 ^ 31

-- `struct xmmsv_list_St`: the cells of the allocation, how many are in use, the number allocated,
-- the restriction, and the position of each iterator in `iterators`.
pub record ValueList : Type 0 where
  pub list : List Value
  pub size : ℕ
  pub allocated : ℕ
  pub restricted : Bool
  pub restricttype : ℕ
  pub iterators : List ℤ

-- `realloc`: whether it grants an array of so many cells, and what fresh cells hold.
pub record Heap : Type 0 where
  pub grants : ℕ → Bool
  pub fresh : ℕ → List Value
  pub fresh_length : (n : ℕ) → length (fresh n) ≡ n

-- How a call ends: its int result and the list; or an access outside the array or an int overflow.
pub data Outcome : Type 0 where
  done : Bool → ValueList → Outcome
  fault : Outcome

-- What `absolutify_and_validate_pos` says: a position, no such position, or (for the least int, whose
-- negation does not exist) an overflow.
pub data Place : Type 0 where
  cell : ℕ → Place
  outside overflow : Place

-- The list with room for one more value, or none, as the request is refused or is no int.
pub data Room : Type 0 where
  room : ValueList → Room
  refused too_big : Room

unfoldable pub validate : ℕ → ℕ → Bool → Place
validate p size allow_append =
    if ltb size p || (not allow_append && (p == size)) then outside else cell p

-- `absolutify_and_validate_pos`: a negative position counts from the end.
unfoldable pub absolutify : ℤ → ℕ → Bool → Place
unfolding validate
absolutify (pos p) size allow_append = validate p size allow_append
absolutify (negsuc n) size allow_append =
    if leb int_limit (suc n)
    then overflow
    else (if ltb size (suc n) then outside else validate (size - suc n) size allow_append)

-- What the callers do with the answer: an error for a position that is not there.
unfoldable pub at_place : (ℕ → Outcome) → ValueList → Place → Outcome
at_place act l overflow = fault
at_place act l outside = done false l
at_place act l (cell p) = act p

-- `memmove` of `n` cells within the array, and a store in one cell; `none` is outside it.
unfoldable pub memmove : List Value → ℕ → ℕ → ℕ → Option (List Value)
memmove xs dst src n =
    if leb (dst + n) (length xs) && leb (src + n) (length xs)
    then some (take dst xs ++ (take n (drop src xs) ++ drop (dst + n) xs))
    else none

unfoldable pub store : List Value → ℕ → Value → Option (List Value)
store xs i v = if ltb i (length xs) then some (set xs i v) else none

-- `xmmsv_list_new`.
unfoldable pub list_new : ValueList
list_new = record {
  list = [];
  size = 0;
  allocated = 0;
  restricted = false;
  restricttype = 0;
  iterators = [];
}

-- The new positions of the iterators after a change of the cells.
unfoldable pub ahead : (ℕ → ℕ) → ℤ → ℤ
ahead f (pos q) = pos (f q)
ahead f (negsuc n) = negsuc n

unfoldable pub shift_insert : ℕ → ℕ → ℕ
shift_insert p q = if ltb p q then q + 1 else q

unfoldable pub shift_remove : ℕ → ℕ → ℕ
shift_remove p q = if ltb p q then q - 1 else q

unfoldable pub shift_forth : ℕ → ℕ → ℕ → ℕ
shift_forth old new q = if leb old q && leb q new then (if q == old then new else q - 1) else q

unfoldable pub shift_back : ℕ → ℕ → ℕ → ℕ
shift_back old new q = if leb new q && leb q old then (if q == old then new else q + 1) else q

-- `x_return_val_if_fail (xmmsv_is_type (val, l->restricttype), 0)` under `l->restricted`.
unfoldable pub admits : ValueList → Value → Bool
admits l v = not l.restricted || (get_type v == l.restricttype)

module _ (h : Heap) where
  -- `xmmsv_list_resize`: `none` if the request is refused.
  unfoldable pub list_resize : ℕ → ValueList → Option ValueList
  list_resize newsize l =
      if not (newsize == 0) && not (h.grants newsize)
      then none
      else some (record l {
        list = take newsize l.list ++ h.fresh (newsize - length l.list);
        allocated = newsize;
      })

  -- The growth step of `_xmmsv_list_insert`; twice as many cells must be an int.
  unfoldable pub list_room : ValueList → Room
  unfolding list_resize
  list_room l =
      let double_size = if ltb 0 l.allocated then l.allocated * 2 else 1 in
      let resized : Room = elim (list_resize double_size l) [
        | none ↦ refused
        | some l' ↦ room l'
      ] in
      if l.size == l.allocated
      then (if leb int_limit double_size then too_big else resized)
      else room l

  -- `_xmmsv_list_insert` from the memmove on, at a valid position.
  unfoldable pub place : ℕ → Value → ValueList → Outcome
  unfolding memmove store
  place p v l =
      let stored : List Value → Outcome = λ cells. elim (store cells p v) [
        | none ↦ fault
        | some cells' ↦ done true (record l {
          list = cells';
          size = l.size + 1;
          iterators = map (ahead (shift_insert p)) l.iterators;
        })
      ] in
      if ltb p l.size
      then elim (memmove l.list (p + 1) p (l.size - p)) [ none ↦ fault | some cells ↦ stored cells ]
      else stored l.list

  unfoldable pub after_room : ℕ → Value → ValueList → Room → Outcome
  unfolding place
  after_room p v l too_big = fault
  after_room p v l refused = done false l
  after_room p v l (room l') = place p v l'

  unfoldable pub insert_cell : Value → ValueList → ℕ → Outcome
  unfolding admits list_room after_room
  insert_cell v l p = if admits l v then after_room p v l (list_room l) else done false l

  -- `_xmmsv_list_insert`.
  unfoldable pub list_insert : ℤ → Value → ValueList → Outcome
  unfolding absolutify insert_cell at_place
  list_insert at v l = at_place (insert_cell v l) l (absolutify at l.size true)

  -- `_xmmsv_list_append`.
  unfoldable pub list_append : Value → ValueList → Outcome
  list_append v l = list_insert (pos l.size) v l

  -- The end of `_xmmsv_list_remove`: the array is halved if it can be, and the iterators move. If
  -- the request is refused, the call fails with the value gone and the iterators as they were.
  unfoldable pub shrink : ℕ → ValueList → Outcome
  unfolding list_resize
  shrink p l =
      let half_size = l.allocated / 2 in
      let follow : ValueList → ValueList =
        λ l'. record l' { iterators = map (ahead (shift_remove p)) l'.iterators } in
      if leb l.size half_size
      then elim (list_resize half_size l) [ none ↦ done false l | some l' ↦ done true (follow l') ]
      else done true (follow l)

  -- `_xmmsv_list_remove` at a valid position: `unref` reads the cell, and the gap is filled.
  unfoldable pub take_out : ℕ → ValueList → Outcome
  unfolding memmove shrink
  take_out p l =
      let size = l.size - 1 in
      let closed : Option (List Value) =
        if ltb p size then memmove l.list p (p + 1) (size - p) else some l.list in
      if ltb p (length l.list)
      then elim closed [
        | none ↦ fault
        | some cells ↦ shrink p (record l { list = cells; size = size })
      ]
      else fault

  -- `_xmmsv_list_remove`.
  unfoldable pub list_remove : ℤ → ValueList → Outcome
  unfolding absolutify take_out at_place
  list_remove at l = at_place (λ p. take_out p l) l (absolutify at l.size false)
