-- ===== src/Collection/IdList/Move.antt =====
-- `xmmsv_coll_idlist_move`, `_set_index` and `_get_index`.
use xmms2remote.Prelude.{
  ℕ, zero, suc, ◌+◌, ◌-◌, ◌≤◌, ◌<◌, ◌≡◌, refl, sym, ap, ◌∙◌, ◌⊎◌, inl, inr, List, [], ◌∷◌, ◌++◌,
  none, some, true, false, length, get_elem?, set, take, ltb, leb, Bool-cases, ltb→lt, ltb→le,
  leb→le, leb→gt, arith,
}
use xmms2remote.Collection.IdList.{
  IdList, Outcome, done, fault, store_in, move_others, idlist_move, idlist_get_index,
  idlist_set_index,
}
use xmms2remote.Collection.IdList.Loops.{
  shift_up-moved, shift_down-moved, get_elem?-drop, moved_none,
}
use xmms2remote.Collection.IdList.Holding.{
  Holds, idlist_size_lem, last_place_lem, insert_at-append, remove_at-append, length-remove_at,
}
use xmms2remote.Collection.IdList.Insert.{store_lem}
use xmms2remote.ValueList.Cells.{insert_at, remove_at, moved, length-moved, length-set}
use xmms2remote.ValueList.Shift.{moved_back, moved_forth, set-take}

get_elem?-append :
    (xs ys : List ℕ) (i : ℕ) → i < length xs → get_elem? (xs ++ ys) i ≡ get_elem? xs i
get_elem?-append [] ys i lt = absurd (omega arith)
get_elem?-append (x ∷ xs) ys zero lt = refl
get_elem?-append (x ∷ xs) ys (suc i) lt = get_elem?-append xs ys i (omega arith)

get_elem?-front : (n i : ℕ) (xs : List ℕ) → i < n → get_elem? (take n xs) i ≡ get_elem? xs i
get_elem?-front zero i xs lt = absurd (omega arith)
get_elem?-front (suc n) i [] lt = refl
get_elem?-front (suc n) zero (x ∷ xs) lt = refl
get_elem?-front (suc n) (suc i) (x ∷ xs) lt = get_elem?-front n i xs (omega arith)

get_elem?-past : (xs : List ℕ) (i : ℕ) → length xs ≤ i → get_elem? xs i ≡ none
get_elem?-past [] i le = refl
get_elem?-past (x ∷ xs) zero le = absurd (omega arith)
get_elem?-past (x ∷ xs) (suc i) le = get_elem?-past xs i (omega arith)

set-append : (xs ys : List ℕ) (i v : ℕ) → i < length xs → set (xs ++ ys) i v ≡ set xs i v ++ ys
set-append [] ys i v lt = absurd (omega arith)
set-append (x ∷ xs) ys zero v lt = refl
set-append (x ∷ xs) ys (suc i) v lt = ap (◌∷◌ x) (set-append xs ys i v (omega arith))

get_elem?-set : (xs : List ℕ) (i v : ℕ) → i < length xs → get_elem? (set xs i v) i ≡ some v
get_elem?-set [] i v lt = absurd (omega arith)
get_elem?-set (x ∷ xs) zero v lt = refl
get_elem?-set (x ∷ xs) (suc i) v lt = get_elem?-set xs i v (omega arith)

-- The cell of an id.
cell_lem :
    (l : IdList) (ids : List ℕ) (i : ℕ)
    → Holds l ids
    → i < length ids
    → get_elem? l.idlist i ≡ get_elem? ids i
cell_lem l ids i v lt =
    sym (get_elem?-front l.idlist_size i l.idlist (omega (arith, idlist_size_lem l ids v)))
    ∙ ap (λ xs. get_elem? xs i) v.cells
    ∙ get_elem?-append ids (0 ∷ []) i lt

-- On an array that holds ids, `_get_index` gives the id at the position, if there is one, and reads
-- nothing outside the array.
pub idlist_get_index_lem :
    (l : IdList) (ids : List ℕ) (index : ℕ)
    → Holds l ids
    → idlist_get_index l index ≡ some (get_elem? ids index)
unfolding idlist_get_index
idlist_get_index_lem l ids index v =
    let last = last_place_lem l ids v in
    elim (Bool-cases (leb (length ids) index)) [
      | inl b ↦
          let gone = get_elem?-past ids index (leb→le (length ids) index b) in
          rw (idlist_get_index, last, b, gone) refl
      | inr b ↦
          let lt = leb→gt (length ids) index b in
          let (id, e, tail) = get_elem?-drop ids index lt in
          rw (idlist_get_index, last, b, cell_lem l ids index v lt, e) refl
    ]

-- What `xmmsv_coll_idlist_set_index` must do: the id at the position is replaced, and is read again;
-- or there is none, and nothing changes.
abbrev pub Replaced : IdList → List ℕ → ℕ → ℕ → Outcome → Type 0
Replaced l ids index id fault = ⊥
Replaced l ids index id (done false l') = (l' ≡ l) × (length ids ≤ index)
Replaced l ids index id (done true l') =
    (index < length ids)
    × Holds l' (set ids index id)
    × (idlist_get_index l' index ≡ some (some id))

-- What `xmmsv_coll_idlist_move` must do: the id at the first position is taken out and put back at the
-- second; or one of them is no position of an id, and nothing changes.
abbrev pub Moved : IdList → List ℕ → ℕ → ℕ → Outcome → Type 0
Moved l ids old new fault = ⊥
Moved l ids old new (done false l') = (l' ≡ l) × ((length ids ≤ old) ⊎ (length ids ≤ new))
Moved l ids old new (done true l') =
    (id : ℕ) × (get_elem? ids old ≡ some id)
    × (new < length ids)
    × Holds l' (insert_at new id (remove_at old ids))

module _ (l : IdList) (ids : List ℕ) (v : Holds l ids) where
  -- On an array that holds ids, setting an id at a position stays inside the array and replaces that id and no other, so that
  -- `_get_index` reads the new one there; or there is no such id and nothing changes.
  pub idlist_set_index_refines :
      (index id : ℕ) → Replaced l ids index id (idlist_set_index l index id)
  unfolding idlist_set_index
  idlist_set_index_refines index id = elim (Bool-cases (leb (length ids) index)) [
    | inl b ↦ rw (idlist_set_index, last_place_lem l ids v, b) (refl, leb→le (length ids) index b)
    | inr b ↦
        let lt = leb→gt (length ids) index b in
        let size = idlist_size_lem l ids v in
        let held : Holds (record l { idlist = set l.idlist index id }) (set ids index id) = record {
          whole = length-set l.idlist index id ∙ v.whole;
          room = v.room;
          small = v.small;
          cells =
              set-take l.idlist_size index l.idlist id
              ∙ ap (λ xs. set xs index id) v.cells
              ∙ set-append ids (0 ∷ []) index id lt;
        } in
        let fits = store_lem l.idlist index id (omega (arith, v.whole, v.room)) in
        rw (idlist_set_index, last_place_lem l ids v, b, fits)
          (
            lt,
            held,
            idlist_get_index_lem _ (set ids index id) index held
                ∙ ap some (get_elem?-set ids index id lt),
          )
  ]

  module _ (old new : ℕ) (from : old < length ids) (to : new < length ids) where
    -- The shifts, in both directions and in none.
    others_lem :
        (id : ℕ)
        → (cells : List ℕ) × (move_others old new l.idlist ≡ some cells)
          × (length cells ≡ length l.idlist)
          × (take l.idlist_size (set cells new id)
              ≡ insert_at new id (remove_at old (take l.idlist_size l.idlist)))
    unfolding move_others
    others_lem id =
        let size = idlist_size_lem l ids v in
        let inside : l.idlist_size ≤ length l.idlist = omega (arith, v.whole, v.room) in
        let from' : old < l.idlist_size = omega arith in
        let to' : new < l.idlist_size = omega arith in
        elim (Bool-cases (ltb old new)) [
          | inl b ↦
              let lt = ltb→lt old new b in
              rw (move_others, b, shift_down-moved (new - old) old l.idlist (omega arith))
                (
                  _,
                  refl,
                  length-moved old (old + 1) (new - old) l.idlist (omega arith) (omega arith),
                  moved_forth l.idlist old new l.idlist_size id inside from' to' lt,
                )
          | inr b ↦
              let le = ltb→le old new b in
              let back = moved_back l.idlist old new l.idlist_size id inside from' to' le in
              let len =
                length-moved (new + 1) new (old - new) l.idlist (omega arith) (omega arith) in
              elim (Bool-cases (ltb new old)) [
                | inl c ↦
                    rw (move_others, b, c, shift_up-moved (old - new) new l.idlist (omega arith))
                      (_, refl, len, back)
                | inr c ↦
                    let none_moved : moved (new + 1) new (old - new) l.idlist ≡ l.idlist =
                      let e : old - new ≡ 0 = omega (arith, ltb→le new old c) in
                      ap (λ n. moved (new + 1) new n l.idlist) e
                      ∙ moved_none (new + 1) new l.idlist in
                    rw (move_others, b, c)
                      (
                        _,
                        refl,
                        refl,
                        ap (λ xs. take l.idlist_size (set xs new id)) (sym none_moved) ∙ back,
                      )
              ]
        ]

    moved-Holds :
        (id : ℕ) (cells : List ℕ)
        → length cells ≡ length l.idlist
        → take l.idlist_size (set cells new id)
          ≡ insert_at new id (remove_at old (take l.idlist_size l.idlist))
        → Holds (record l { idlist = set cells new id }) (insert_at new id (remove_at old ids))
    moved-Holds id cells len e = record {
      whole = length-set cells new id ∙ len ∙ v.whole;
      room = v.room;
      small = v.small;
      cells =
          e
          ∙ ap (λ xs. insert_at new id (remove_at old xs)) v.cells
          ∙ ap (insert_at new id) (remove_at-append old ids (0 ∷ []) from)
          ∙ insert_at-append new (remove_at old ids) (0 ∷ []) id
              (omega (arith, length-remove_at old ids (0 ∷ []) from));
    }

    move_inside : Moved l ids old new (idlist_move l old new)
    unfolding idlist_move store_in
    move_inside =
        let (id, e, tail) = get_elem?-drop ids old from in
        let (cells, moves, len, values) = others_lem id in
        let last = last_place_lem l ids v in
        let there = cell_lem l ids old v from ∙ e in
        let fits =
          store_lem cells new id (omega (arith, len, v.whole, v.room, idlist_size_lem l ids v)) in
        let o : leb (length ids) old ≡ false = ground arith in
        let n : leb (length ids) new ≡ false = ground arith in
        rw (idlist_move, last, o, n, there, moves, fits)
          (id, e, to, moved-Holds id cells len values)

  -- On an array that holds ids, move from one position to another stays inside the array, keeps the zero behind the ids and is
  -- removal of the id at the first followed by its insertion at the second; or one of them is no
  -- position of an id, and nothing changes.
  pub idlist_move_refines : (old new : ℕ) → Moved l ids old new (idlist_move l old new)
  unfolding idlist_move
  idlist_move_refines old new = elim (Bool-cases (leb (length ids) old)) [
    | inl b ↦ rw (idlist_move, last_place_lem l ids v, b) (refl, inl (leb→le (length ids) old b))
    | inr b ↦ elim (Bool-cases (leb (length ids) new)) [
      | inl c ↦
          rw (idlist_move, last_place_lem l ids v, b, c) (refl, inr (leb→le (length ids) new c))
      | inr c ↦ move_inside old new (leb→gt (length ids) old b) (leb→gt (length ids) new c)
    ]
  ]
