-- ===== src/Collection/IdList.antt =====
-- xmmsclient/xmmstypes/coll.c, the `xmmsv_coll_idlist_*` functions: the ids of a collection are an
-- array that ends in a zero, with how many cells are in use (the zero is one) and how many allocated.
pub mod Loops
pub mod Holding
pub mod Insert
pub mod Remove
pub mod Move
mod Tests
use xmms2remote.Prelude.{
  ℕ, zero, suc, ◌+◌, ◌-◌, ◌*◌, ◌/◌, ◌%◌, ◌^◌, ◌≡◌, ltb, leb, ◌==◌, if◌then◌else◌, Bool, true, false,
  List, [], ◌∷◌, ◌++◌, Option, none, some, length, get_elem?, set, take,
}
use xmms2remote.Value.{Text}

-- The part of `struct xmmsv_coll_St` that holds the ids; a null array has no cells.
pub record IdList : Type 0 where
  pub idlist : List ℕ
  pub idlist_size : ℕ
  pub idlist_allocated : ℕ

-- `realloc` and `calloc`: whether an array of so many cells is granted, and what fresh cells of
-- realloc hold.
pub record Heap : Type 0 where
  pub grants : ℕ → Bool
  pub fresh : ℕ → List ℕ
  pub fresh_length : (n : ℕ) → length (fresh n) ≡ n

-- How a call ends: its int result and the ids; or an access outside an array.
pub data Outcome : Type 0 where
  done : Bool → IdList → Outcome
  fault : Outcome

-- A size_t and an unsigned int have 32 bits.
abbrev pub size_mod : ℕ
size_mod = 2 ^ 32

-- `coll->idlist_size - 1`.
abbrev pub last_place : IdList → ℕ
last_place l = (l.idlist_size + size_mod - 1) % size_mod

unfoldable pub store : List ℕ → ℕ → ℕ → Option (List ℕ)
store cells i id = if ltb i (length cells) then some (set cells i id) else none

-- `coll->idlist[to] = coll->idlist[from]`.
unfoldable pub copy_cell : List ℕ → ℕ → ℕ → Option (List ℕ)
unfolding store
copy_cell cells to from = elim (get_elem? cells from) [ none ↦ none | some id ↦ store cells to id ]

-- `for (i = index + n; i > index; i--)` and `for (i = index; i < index + n; i++)`.
unfoldable pub shift_up : ℕ → ℕ → List ℕ → Option (List ℕ)
unfolding copy_cell
shift_up zero index cells = some cells
shift_up (suc n) index cells = elim (copy_cell cells (index + suc n) (index + n)) [
  | none ↦ none
  | some cells' ↦ shift_up n index cells'
]

unfoldable pub shift_down : ℕ → ℕ → List ℕ → Option (List ℕ)
unfolding copy_cell
shift_down zero index cells = some cells
shift_down (suc n) index cells = elim (copy_cell cells index (index + 1)) [
  | none ↦ none
  | some cells' ↦ shift_down n (index + 1) cells'
]

-- The end of a call that changes cells.
abbrev pub changed : IdList → ℕ → Option (List ℕ) → Outcome
changed l size none = fault
changed l size (some cells) = done true (record l { idlist = cells; idlist_size = size })

unfoldable pub store_in : ℕ → ℕ → Option (List ℕ) → Option (List ℕ)
unfolding store
store_in i id none = none
store_in i id (some cells) = store cells i id

-- `xmmsv_coll_idlist_get_index`: `some none` if there is no such id, `none` for a read outside.
unfoldable pub idlist_get_index : IdList → ℕ → Option (Option ℕ)
idlist_get_index l index =
    if leb (last_place l) index
    then some none
    else elim (get_elem? l.idlist index) [ none ↦ none | some id ↦ some (some id) ]

-- `xmmsv_coll_idlist_set_index`.
unfoldable pub idlist_set_index : IdList → ℕ → ℕ → Outcome
unfolding store
idlist_set_index l index id =
    let stored = changed l l.idlist_size (store l.idlist index id) in
    if leb (last_place l) index then done false l else stored

-- `xmmsv_coll_idlist_get_size`.
unfoldable pub idlist_get_size : IdList → ℕ
idlist_get_size l = last_place l

-- The cells that `xmmsv_coll_idlist_move` changes before the id is put in its new place.
unfoldable pub move_others : ℕ → ℕ → List ℕ → Option (List ℕ)
unfolding shift_up shift_down
move_others index newindex cells =
    if ltb index newindex
    then shift_down (newindex - index) index cells
    else if ltb newindex index
    then shift_up (index - newindex) newindex cells
    else some cells

-- `xmmsv_coll_idlist_move`.
unfoldable pub idlist_move : IdList → ℕ → ℕ → Outcome
unfolding move_others store_in
idlist_move l index newindex =
    let moved : Outcome = elim (get_elem? l.idlist index) [
      | none ↦ fault
      | some tmp ↦
          changed l l.idlist_size (store_in newindex tmp (move_others index newindex l.idlist))
    ] in
    if leb (last_place l) index
    then done false l
    else if leb (last_place l) newindex
    then done false l
    else moved

-- The ids before the zero; `none` is a read past the end of the array that is given.
unfoldable pub terminated : List ℕ → Option (List ℕ)
terminated [] = none
terminated (id ∷ ids) =
    let rest : Option (List ℕ) = elim (terminated ids) [
      | none ↦ none
      | some more ↦ some (id ∷ more)
    ] in
    if id == 0 then some [] else rest

module _ (h : Heap) where
  -- `xmmsv_coll_idlist_resize`; the number of bytes is a size_t.
  unfoldable pub idlist_resize : ℕ → IdList → Option IdList
  idlist_resize newsize l =
      let n = newsize * 4 % size_mod / 4 in
      if h.grants n
      then some (record l {
        idlist = take n l.idlist ++ h.fresh (n - length l.idlist);
        idlist_allocated = newsize;
      })
      else none

  unfoldable pub insert_cell : ℕ → ℕ → IdList → Outcome
  unfolding shift_up store_in
  insert_cell index id l =
      changed l ((l.idlist_size + 1) % size_mod)
        (store_in index id (shift_up (l.idlist_size - index) index l.idlist))

  -- `xmmsv_coll_idlist_insert`.
  unfoldable pub idlist_insert : IdList → ℕ → ℕ → Outcome
  unfolding idlist_resize insert_cell
  idlist_insert l index id =
      let grown : Outcome = elim (idlist_resize (l.idlist_allocated * 2 % size_mod) l) [
        | none ↦ done false l
        | some l' ↦ insert_cell index id l'
      ] in
      let fitting = insert_cell index id l in
      if leb l.idlist_size index
      then done false l
      else if l.idlist_size == l.idlist_allocated
      then grown
      else fitting

  -- `xmmsv_coll_idlist_append`.
  unfoldable pub idlist_append : IdList → ℕ → Outcome
  unfolding idlist_insert
  idlist_append l id = idlist_insert l (last_place l) id

  -- `/* Reduce memory usage by two if possible */`; a refusal is ignored.
  unfoldable pub reduce : Outcome → Outcome
  unfolding idlist_resize
  reduce fault = fault
  reduce (done b l) =
      let half_size = l.idlist_allocated / 2 in
      let halved : IdList = elim (idlist_resize half_size l) [ none ↦ l | some l' ↦ l' ] in
      done b (if leb l.idlist_size half_size then halved else l)

  -- `xmmsv_coll_idlist_remove`.
  unfoldable pub idlist_remove : IdList → ℕ → Outcome
  unfolding shift_down reduce
  idlist_remove l index =
      let size = last_place l in
      let removed = reduce (changed l size (shift_down (size - index) index l.idlist)) in
      if leb size index then done false l else removed

  -- `xmmsv_coll_set_idlist`. Without memory the old array is gone, and its size stays.
  unfoldable pub idlist_set : IdList → List ℕ → Outcome
  unfolding terminated
  idlist_set l ids = elim (terminated ids) [
    | none ↦ fault
    | some more ↦
        let size = length more + 1 in
        if h.grants size
        then done true
            (record { idlist = more ++ 0 ∷ []; idlist_size = size; idlist_allocated = size })
        else done true (record l { idlist = [] })
  ]

  -- `xmmsv_coll_idlist_clear`.
  unfoldable pub idlist_clear : IdList → Outcome
  unfolding idlist_set
  idlist_clear l = idlist_set l (0 ∷ [])
