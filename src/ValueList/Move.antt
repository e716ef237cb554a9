-- ===== src/ValueList/Move.antt =====
-- xmmsclient/xmmstypes/value.c: `_xmmsv_list_move`, which takes a value to another position.
use xmms2remote.Prelude.{
  ℕ, zero, suc, ◌+◌, ◌-◌, ◌≤◌, ◌<◌, ◌≡◌, refl, ◌∙◌, ◌⊎◌, inl, inr, List, [], ◌∷◌, All, map, Option,
  none, some, true, false, length, get_elem?, set, ltb, lt→ltb, ltb→lt, ltb→le, if◌then◌else◌,
  Bool-cases, arith,
}
use xmms2remote.Value.{Value}
use xmms2remote.ValueList.{
  ValueList, ℤ, pos, negsuc, Outcome, done, fault, Place, cell, outside, overflow, absolutify,
  memmove, store, at_place, ahead, shift_forth, shift_back,
}
use xmms2remote.ValueList.Cells.{insert_at, remove_at, moved, length-moved, length-set}
use xmms2remote.ValueList.Shift.{moved_forth, moved_back}
use xmms2remote.ValueList.Inv.{contents, Within, IsValid}
use xmms2remote.ValueList.Places.{Points, Negatable, Placed, absolutify_inside}
use xmms2remote.ValueList.Resize.{memmove_lem}
use xmms2remote.ValueList.Iter.{get_elem?-take}

-- The memmove, the store and the new positions of the iterators.
unfoldable pub put_back : ValueList → ℕ → Value → (ℕ → ℕ) → Option (List Value) → Outcome
unfolding store
put_back l new v shift none = fault
put_back l new v shift (some cells) = elim (store cells new v) [
  | none ↦ fault
  | some cells' ↦ done true (record l { list = cells'; iterators = map (ahead shift) l.iterators })
]

unfoldable pub move_cell : ValueList → ℕ → ℕ → Outcome
unfolding memmove put_back
move_cell l old new = elim (get_elem? l.list old) [
  | none ↦ fault
  | some v ↦
      if ltb old new
      then put_back l new v (shift_forth old new) (memmove l.list old (old + 1) (new - old))
      else put_back l new v (shift_back old new) (memmove l.list (new + 1) new (old - new))
]

-- `_xmmsv_list_move`.
unfoldable pub list_move : ValueList → ℤ → ℤ → Outcome
unfolding absolutify at_place move_cell
list_move l from to =
    at_place (λ old. at_place (λ new. move_cell l old new) l (absolutify to l.size false)) l
      (absolutify from l.size false)

-- What `_xmmsv_list_move` must do: the value at the first position is taken out and put back at the
-- second; or one of the two is no position of a value, and nothing changes.
abbrev pub Moved : ValueList → ℤ → ℤ → Outcome → Type 0
Moved l from to fault = ⊥
Moved l from to (done false l') =
    (l' ≡ l)
    × (((p : ℕ) → Points from l.size p → l.size ≤ p) ⊎ ((p : ℕ) → Points to l.size p → l.size ≤ p))
Moved l from to (done true l') =
    (old : ℕ) × (new : ℕ) × (v : Value) × (Points from l.size old × old < l.size)
    × (Points to l.size new × new < l.size)
    × IsValid l'
    × (get_elem? (contents l) old ≡ some v)
    × (contents l' ≡ insert_at new v (remove_at old (contents l)))

shift_forth_le : (old new n q : ℕ) → new < n → q ≤ n → shift_forth old new q ≤ n
unfolding shift_forth
shift_forth_le old new n q lt le = ground arith

shift_back_le : (old new n q : ℕ) → old < n → q ≤ n → shift_back old new q ≤ n
unfolding shift_back
shift_back_le old new n q lt le = ground arith

ahead-Within :
    (f : ℕ → ℕ) (n : ℕ) (its : List ℤ)
    → ((q : ℕ) → q ≤ n → f q ≤ n)
    → All (Within n) its
    → All (Within n) (map (ahead f) its)
unfolding ahead
ahead-Within f n [] le a = tt
ahead-Within f n (pos q ∷ its) le (w, a) = (le q w, ahead-Within f n its le a)
ahead-Within f n (negsuc q ∷ its) le (w, a) = (w, ahead-Within f n its le a)

get_elem?-some : (xs : List Value) (p : ℕ) → p < length xs → (v : Value) × (get_elem? xs p ≡ some v)
get_elem?-some [] p lt = absurd (omega arith)
get_elem?-some (x ∷ xs) zero lt = (x, refl)
get_elem?-some (x ∷ xs) (suc p) lt = get_elem?-some xs p (omega arith)

put_back_lem :
    (l : ValueList) (new : ℕ) (v : Value) (f : ℕ → ℕ) (cells : List Value)
    → new < length cells
    → put_back l new v f (some cells)
      ≡ done true (record l { list = set cells new v; iterators = map (ahead f) l.iterators })
unfolding put_back store
put_back_lem l new v f cells lt = rw (put_back, lt→ltb new (length cells) lt) refl

module _ (l : ValueList) (valid : IsValid l) (from to : ℤ) where
  module _ (old new : ℕ) (points : Points from l.size old) (o : old < l.size)
      (points' : Points to l.size new) (n : new < l.size) where
    move_cell-Moved : Moved l from to (move_cell l old new)
    unfolding move_cell
    move_cell-Moved =
        let room : l.size ≤ length l.list = omega (arith, valid.whole, valid.room) in
        let (v, e) = get_elem?-some l.list old (omega arith) in
        let at = get_elem?-take old l.size l.list o ∙ e in
        elim (Bool-cases (ltb old new)) [
          | inl b ↦
              let lt = ltb→lt old new b in
              let size =
                length-moved old (old + 1) (new - old) l.list (omega arith) (omega arith) in
              rw
                (
                  move_cell,
                  e,
                  b,
                  memmove_lem l.list old (old + 1) (new - old) (omega arith) (omega arith),
                  put_back_lem l new v (shift_forth old new)
                      (moved old (old + 1) (new - old) l.list) (omega (arith, size)),
                )
                (
                  old,
                  new,
                  v,
                  (points, o),
                  (points', n),
                  record {
                    whole = length-set _ new v ∙ size ∙ valid.whole;
                    room = valid.room;
                    within =
                        ahead-Within (shift_forth old new) l.size l.iterators
                          (λ q. shift_forth_le old new l.size q n) valid.within;
                  },
                  at,
                  moved_forth l.list old new l.size v room o n lt,
                )
          | inr b ↦
              let le = ltb→le old new b in
              let size =
                length-moved (new + 1) new (old - new) l.list (omega arith) (omega arith) in
              rw
                (
                  move_cell,
                  e,
                  b,
                  memmove_lem l.list (new + 1) new (old - new) (omega arith) (omega arith),
                  put_back_lem l new v (shift_back old new) (moved (new + 1) new (old - new) l.list)
                      (omega (arith, size)),
                )
                (
                  old,
                  new,
                  v,
                  (points, o),
                  (points', n),
                  record {
                    whole = length-set _ new v ∙ size ∙ valid.whole;
                    room = valid.room;
                    within =
                        ahead-Within (shift_back old new) l.size l.iterators
                          (λ q. shift_back_le old new l.size q o) valid.within;
                  },
                  at,
                  moved_back l.list old new l.size v room o n le,
                )
        ]

  to_place :
      (old : ℕ) (r : Place)
      → Points from l.size old × old < l.size
      → Placed to l.size l.size r
      → Moved l from to (at_place (λ new. move_cell l old new) l r)
  unfolding at_place
  to_place old overflow p placed = elim placed [ ]
  to_place old outside p placed = (refl, inr placed)
  to_place old (cell new) (p, o) (p', n) = move_cell-Moved old new p o p' n

  from_place :
      (r : Place)
      → Negatable to
      → Placed from l.size l.size r
      → Moved l from to (
          at_place
            (λ old. at_place (λ new. move_cell l old new) l (absolutify to l.size false))
            l
            r)
  unfolding at_place
  from_place overflow ok placed = elim placed [ ]
  from_place outside ok placed = (refl, inl placed)
  from_place (cell old) ok placed =
      to_place old (absolutify to l.size false) placed (absolutify_inside to l.size ok)

  -- On a well-formed list, move from one int position to another (neither the least int) stays
  -- inside the array, keeps the invariant and is removal of the value at the first followed by its
  -- insertion at the second; or one of them is no position of a value, and nothing changes.
  pub list_move_refines : Negatable from → Negatable to → Moved l from to (list_move l from to)
  unfolding list_move
  list_move_refines ok ok' =
      from_place (absolutify from l.size false) ok' (absolutify_inside from l.size ok)
