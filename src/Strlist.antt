-- ===== src/Strlist.antt =====
-- Arrays of strings that end in a null pointer: xmmsclient/xmmsutils/strlist.c. An array is the list
-- of its cells, a null pointer is `none`, and a read or write outside an array ends the call with
-- `none`. A string is not refused its copy.
pub mod Contents
mod Tests
use xmms2remote.Prelude.{
  ℕ, suc, ◌+◌, ◌-◌, ◌≡◌, ltb, if◌then◌else◌, Bool, true, false, List, [], ◌∷◌, ◌++◌, Option, none,
  some, length, set, take,
}
use xmms2remote.Value.{Text}

abbrev pub Cells : Type 0
Cells = List (Option Text)

-- `malloc`: whether it grants so many cells, and what they hold.
pub record Heap : Type 0 where
  pub grants : ℕ → Bool
  pub fresh : ℕ → Cells
  pub fresh_length : (n : ℕ) → length (fresh n) ≡ n

unfoldable pub put_cell : Cells → ℕ → Option Text → Option Cells
put_cell cells i s = if ltb i (length cells) then some (set cells i s) else none

abbrev counted : Option ℕ → Option ℕ
counted none = none
counted (some n) = some (suc n)

-- `xmms_strlist_len`.
unfoldable pub strlist_len : Cells → Option ℕ
strlist_len [] = none
strlist_len (none ∷ cells) = some 0
strlist_len (some s ∷ cells) = counted (strlist_len cells)

-- The loop that copies an array behind the first `i` cells of another one, and the null pointer.
unfoldable pub copy_cells : Cells → Cells → ℕ → Option Cells
unfolding put_cell
copy_cells [] ret i = none
copy_cells (none ∷ cells) ret i = put_cell ret i none
copy_cells (some s ∷ cells) ret i = elim (put_cell ret i (some s)) [
  | none ↦ none
  | some ret' ↦ copy_cells cells ret' (suc i)
]

module _ (h : Heap) where
  -- `malloc` of so many cells; what is refused is a null pointer, which all callers write through.
  unfoldable pub malloc : ℕ → Cells
  malloc n = if h.grants n then h.fresh n else []

  unfoldable pub realloc : Cells → ℕ → Cells
  realloc cells n = if h.grants n then take n cells ++ h.fresh (n - length cells) else []

  -- `xmms_strlist_copy`.
  unfoldable pub strlist_copy : Cells → Option Cells
  unfolding strlist_len copy_cells malloc
  strlist_copy cells = elim (strlist_len cells) [
    | none ↦ none
    | some n ↦ copy_cells cells (malloc (n + 1)) 0
  ]

  -- `xmms_strlist_prepend_copy`.
  unfoldable pub strlist_prepend_copy : Cells → Text → Option Cells
  unfolding strlist_len copy_cells put_cell malloc
  strlist_prepend_copy cells newstr = elim (strlist_len cells) [
    | none ↦ none
    | some n ↦ elim (put_cell (malloc (n + 2)) 0 (some newstr)) [
      | none ↦ none
      | some ret ↦ copy_cells cells ret 1
    ]
  ]

  -- `xmms_valist_to_strlist`, over the arguments in front of the null pointer, of which there is one
  -- at least; `i` is the index in the loop.
  unfoldable pub valist_from : Cells → ℕ → List Text → Option Cells
  unfolding put_cell realloc
  valist_from ret i [] = put_cell ret i none
  valist_from ret i (cur ∷ ap) = elim (put_cell (realloc ret (i + 2)) i (some cur)) [
    | none ↦ none
    | some ret' ↦ valist_from ret' (suc i) ap
  ]

  unfoldable pub valist_to_strlist : Text → List Text → Option Cells
  unfolding valist_from
  valist_to_strlist first ap = valist_from [] 0 (first ∷ ap)
