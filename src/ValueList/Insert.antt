-- ===== src/ValueList/Insert.antt =====
-- `_xmmsv_list_insert` against insertion into a list.
use xmms2remote.Prelude.{
  ℕ, suc, ◌+◌, ◌-◌, ◌*◌, ◌^◌, ◌≤◌, ◌<◌, ◌≡◌, refl, ap, ◌∙◌, ◌⊎◌, inl, inr, List, [], ◌∷◌, All, map,
  Option, none, some, true, false, length, set, take, drop, ltb, ◌==◌, ==_iff, lt→ltb, ltb→lt,
  ltb→le, gt→leb, Bool-cases, take-take, arith,
}
use xmms2remote.Value.{Value}
use xmms2remote.ValueList.{
  ValueList, ℤ, pos, negsuc, Heap, Outcome, done, fault, Place, cell, outside, overflow, Room, room,
  refused, too_big, int_limit, absolutify, store, ahead, shift_insert, admits, list_room, at_place,
  place, list_insert, insert_cell, after_room,
}
use xmms2remote.ValueList.Cells.{
  insert_at, moved, drop-take, length-moved, length-set, take-set, open_gap,
}
use xmms2remote.ValueList.Inv.{contents, Within, IsValid}
use xmms2remote.ValueList.Places.{Points, Negatable, Placed, absolutify_append}
use xmms2remote.ValueList.Resize.{Resized, list_resize-Resized, memmove_lem}

-- What the growth step must answer: a list of the same values with a free cell.
abbrev Roomy : Heap → ValueList → Room → Type 0
Roomy h l too_big = ⊥
Roomy h l refused = (n : ℕ) × (l.size < n × (h.grants n ≡ false))
Roomy h l (room l') =
    (length l'.list ≡ l'.allocated)
    × (l.size < l'.allocated)
    × (l'.size ≡ l.size)
    × (contents l' ≡ contents l)
    × (l'.iterators ≡ l.iterators)

-- What `_xmmsv_list_insert` must do: a value goes in at the position that the int stands for, the
-- iterators behind it move up; or nothing changes, as there is no such position, the list is
-- restricted to another type, or memory was refused.
abbrev pub Inserted : Heap → ℤ → Value → ValueList → Outcome → Type 0
Inserted h at v l fault = ⊥
Inserted h at v l (done false l') =
    (l' ≡ l)
    × (((p : ℕ) → Points at l.size p → l.size < p)
        ⊎ ((admits l v ≡ false) ⊎ ((n : ℕ) × (l.size < n × (h.grants n ≡ false)))))
Inserted h at v l (done true l') =
    (p : ℕ) × Points at l.size p
    × p ≤ l.size
    × (admits l v ≡ true)
    × IsValid l'
    × (contents l' ≡ insert_at p v (contents l))
    × (l'.iterators ≡ map (ahead (shift_insert p)) l.iterators)

module _ (h : Heap) where
  resize-Roomy :
      (n : ℕ) (l : ValueList) (r : Option ValueList)
      → l.size < n
      → Resized h n l r
      → Roomy h l (elim r [ none ↦ refused | some l' ↦ room l' ])
  resize-Roomy n l none lt g = (n, (lt, g))
  resize-Roomy n l (some l') lt (w, a, s, c, i) = (omega arith, omega arith, s, c, i)

  not_full : (a b : ℕ) → (a == b) ≡ false → a ≤ b → a < b
  not_full a b e le = ground arith

  list_room-Roomy : (l : ValueList) → IsValid l → l.size < 2 ^ 30 → Roomy h l (list_room h l)
  unfolding list_room
  list_room-Roomy l v small = elim (Bool-cases (l.size == l.allocated)) [
    | inr b ↦ rw b (v.whole, not_full l.size l.allocated b v.room, refl, refl, refl)
    | inl b ↦
        let full = (==_iff l.size l.allocated).0 b in
        elim (Bool-cases (ltb 0 l.allocated)) [
          | inl c ↦
              rw (b, c, gt→leb int_limit (l.allocated * 2) (omega arith))
                (resize-Roomy (l.allocated * 2) l _ (omega (arith, ltb→lt 0 l.allocated c)) (
                  list_resize-Resized h (l.allocated * 2) l (omega arith) (omega (arith, v.whole))))
          | inr c ↦
              rw (b, c)
                (resize-Roomy 1 l _ (omega (arith, ltb→le 0 l.allocated c)) (
                  list_resize-Resized h 1 l (omega (arith, ltb→le 0 l.allocated c))
                    (omega (arith, v.whole))))
        ]
  ]

  shift_insert-Within :
      (p n : ℕ) (its : List ℤ)
      → All (Within n) its
      → All (Within (n + 1)) (map (ahead (shift_insert p)) its)
  unfolding ahead shift_insert
  shift_insert-Within p n [] a = tt
  shift_insert-Within p n (pos q ∷ its) (w, a) = (
    elim (Bool-cases (ltb p q)) [ inl b ↦ rw b (omega arith) | inr b ↦ rw b (omega arith) ],
    shift_insert-Within p n its a,
  )
  shift_insert-Within p n (negsuc q ∷ its) (w, a) = (w, shift_insert-Within p n its a)

  -- The shape of a list after the value is stored.
  module _ (p : ℕ) (w : Value) (l : ValueList) where
    abbrev stored : List Value → ValueList
    stored cells = record l {
      list = cells;
      size = l.size + 1;
      iterators = map (ahead (shift_insert p)) l.iterators;
    }

    place_lem :
        (p ≤ l.size)
        → l.size < length l.list
        → (cells : List Value) × (place h p w l ≡ done true (stored cells))
          × (length cells ≡ length l.list)
          × (take (l.size + 1) cells ≡ insert_at p w (contents l))
    unfolding place store
    place_lem le lt = elim (Bool-cases (ltb p l.size)) [
      | inl b ↦
          rw
            (
              b,
              memmove_lem l.list (p + 1) p (l.size - p) (omega arith) (omega arith),
              lt→ltb p (length (moved (p + 1) p (l.size - p) l.list)) (omega (arith, size_kept)),
            )
            (_, refl, length-set _ p w ∙ size_kept, open_gap l.list p l.size w le lt)
      | inr b ↦
          let e : p ≡ l.size = omega (arith, ltb→le p l.size b) in
          rw (b, lt→ltb p (length l.list) (omega arith)) (_, refl, length-set l.list p w, at_end e)
    ]
      where
        size_kept : length (moved (p + 1) p (l.size - p) l.list) ≡ length l.list
        size_kept = length-moved (p + 1) p (l.size - p) l.list (omega arith) (omega arith)

        gone : drop l.size (take l.size l.list) ≡ []
        gone =
            let e : l.size - l.size ≡ 0 = omega arith in rw (drop-take l.size l.size l.list, e) refl

        at_end : p ≡ l.size → take (l.size + 1) (set l.list p w) ≡ insert_at p w (contents l)
        at_end e =
            rw (e, take-take l.size l.size l.list (omega arith), gone) (take-set l.list l.size w lt)

  module _ (at : ℤ) (w : Value) (l : ValueList) (v : IsValid l) where
    after_room-Inserted :
        (p : ℕ) (r : Room)
        → Points at l.size p
        → p ≤ l.size
        → admits l w ≡ true
        → Roomy h l r
        → Inserted h at w l (after_room h p w l r)
    unfolding after_room
    after_room-Inserted p too_big e le a g = elim g [ ]
    after_room-Inserted p refused e le a g = (refl, inr (inr g))
    after_room-Inserted p (room l') e le a (whole, more, same, values, its) =
        let (cells, eq, len, inserted) =
          place_lem p w l' (omega (arith, same)) (omega (arith, whole, same)) in
        rw eq (
          p,
          e,
          le,
          a,
          record {
            whole = len ∙ whole;
            room = omega (arith, same);
            within = rw (its, same) (shift_insert-Within p l.size l.iterators v.within);
          },
          inserted ∙ ap (insert_at p w) values,
          ap (map (ahead (shift_insert p))) its,
        )

    at_place-Inserted :
        (r : Place)
        → l.size < 2 ^ 30
        → Placed at l.size (suc l.size) r
        → Inserted h at w l (at_place (insert_cell h w l) l r)
    unfolding at_place insert_cell
    at_place-Inserted overflow small none_is = elim none_is [ ]
    at_place-Inserted outside small none_is = (refl, inl λ p e. omega (arith, none_is p e))
    at_place-Inserted (cell p) small (e, lt) = elim (Bool-cases (admits l w)) [
      | inl a ↦
          rw a (after_room-Inserted p (list_room h l) e (omega arith) a (list_room-Roomy l v small))
      | inr a ↦ rw a (refl, inr (inl a))
    ]

    -- Insertion of a value at an int position of a well-formed list below 2^30 values stays inside
    -- the array and either inserts the value into the list (a negative position counts from the
    -- end) and moves the iterators behind it by one, with the invariant kept; or fails and changes
    -- nothing, because there is no such position, the type is not allowed, or memory was refused.
    pub list_insert_refines :
        Negatable at → l.size < 2 ^ 30 → Inserted h at w l (list_insert h at w l)
    unfolding list_insert
    list_insert_refines ok small =
        at_place-Inserted (absolutify at l.size true) small (absolutify_append at l.size ok)
