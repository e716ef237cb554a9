-- ===== src/ValueList/Remove.antt =====
-- `_xmmsv_list_remove` against removal from a list.
use xmms2remote.Prelude.{
  ℕ, ◌+◌, ◌-◌, ◌/◌, ◌≤◌, ◌<◌, ◌≡◌, refl, sym, ap, ◌∙◌, ◌⊎◌, inl, inr, List, [], ◌∷◌, All, map,
  Option, none, some, true, false, length, take, ltb, leb, lt→ltb, ltb→le, ltb→lt, leb→le,
  Bool-cases, take-take, append-nil, arith, if◌then◌else◌,
}
use xmms2remote.Value.{Value}
use xmms2remote.ValueList.{
  ValueList, ℤ, pos, negsuc, Heap, Outcome, done, fault, Place, cell, outside, overflow, absolutify,
  memmove, ahead, shift_remove, at_place, list_resize, take_out, shrink, list_remove,
}
use xmms2remote.ValueList.Cells.{remove_at, length-moved, close_gap, drop-take}
use xmms2remote.ValueList.Inv.{contents, Within, IsValid}
use xmms2remote.ValueList.Places.{Points, Negatable, Placed, absolutify_inside}
use xmms2remote.ValueList.Resize.{Resized, list_resize-Resized, memmove_lem}

-- The value at the position that the int stands for is taken out, and the iterators behind it move
-- down; or there is no such position and nothing changes; or the array could not be made smaller,
-- and the value is gone but the iterators stay.
abbrev pub Removed : Heap → ℤ → ValueList → Outcome → Type 0
Removed h at l fault = ⊥
Removed h at l (done false l') =
    ((l' ≡ l) × ((p : ℕ) → Points at l.size p → l.size ≤ p))
    ⊎ ((p : ℕ) × Points at l.size p
        × p < l.size
        × (h.grants (l.allocated / 2) ≡ false)
        × (contents l' ≡ remove_at p (contents l))
        × (l'.iterators ≡ l.iterators))
Removed h at l (done true l') =
    (p : ℕ) × Points at l.size p
    × p < l.size
    × IsValid l'
    × (contents l' ≡ remove_at p (contents l))
    × (l'.iterators ≡ map (ahead (shift_remove p)) l.iterators)

shift_remove-Within :
    (p n : ℕ) (its : List ℤ)
    → p < n
    → All (Within n) its
    → All (Within (n - 1)) (map (ahead (shift_remove p)) its)
unfolding ahead shift_remove
shift_remove-Within p n [] lt a = tt
shift_remove-Within p n (pos q ∷ its) lt (w, a) = (
  elim (Bool-cases (ltb p q)) [
    | inl b ↦ rw b (omega arith)
    | inr b ↦ rw b (omega (arith, ltb→le p q b))
  ],
  shift_remove-Within p n its lt a,
)
shift_remove-Within p n (negsuc q ∷ its) lt (w, a) = (w, shift_remove-Within p n its lt a)

-- The array once the gap is filled.
Closed : ℕ → ValueList → Option (List Value) → Type 0
Closed p l none = ⊥
Closed p l (some cells) =
    (length cells ≡ length l.list) × (take (l.size - 1) cells ≡ remove_at p (contents l))

fill_gap :
    (p : ℕ) (l : ValueList)
    → p < l.size
    → l.size ≤ length l.list
    → Closed p l
        (if ltb p (l.size - 1) then memmove l.list p (p + 1) ((l.size - 1) - p) else some l.list)
unfolding Closed
fill_gap p l lt le = elim (Bool-cases (ltb p (l.size - 1))) [
  | inl b ↦
      rw
        (
          b,
          memmove_lem l.list p (p + 1) ((l.size - 1) - p) (omega (arith, ltb→lt p (l.size - 1) b))
              (omega (arith, ltb→lt p (l.size - 1) b)),
        )
        (
          length-moved p (p + 1) ((l.size - 1) - p) l.list (omega (arith, ltb→lt p (l.size - 1) b))
              (omega (arith, ltb→lt p (l.size - 1) b)),
          close_gap l.list p (l.size - 1) (omega arith) (omega arith)
              ∙ ap (λ n. remove_at p (take n l.list)) (omega arith),
        )
  | inr b ↦ rw b (refl, last (omega (arith, ltb→le p (l.size - 1) b)))
]
  where
    last : l.size ≡ p + 1 → take (l.size - 1) l.list ≡ remove_at p (contents l)
    last e =
        let none_left : (p + 1) - (p + 1) ≡ 0 = omega arith in
        let before : l.size - 1 ≡ p = omega arith in
        rw
          (
            before,
            e,
            take-take p (p + 1) l.list (omega arith),
            drop-take (p + 1) (p + 1) l.list,
            none_left,
          )
          (sym (append-nil (take p l.list)))

module _ (h : Heap) (at : ℤ) (l : ValueList) (v : IsValid l) where
  module _ (p : ℕ) (e : Points at l.size p) (lt : p < l.size) (cells : List Value)
      (fits : length cells ≡ length l.list)
      (removed : take (l.size - 1) cells ≡ remove_at p (contents l)) where
    abbrev closed : ValueList
    closed = record l { list = cells; size = l.size - 1 }

    resize-Removed :
        (r : Option ValueList)
        → l.size - 1 ≤ l.allocated / 2
        → Resized h (l.allocated / 2) closed r
        → Removed h at l (elim r [
          | none ↦ done false closed
          | some l' ↦
              done true (record l' { iterators = map (ahead (shift_remove p)) l'.iterators })
        ])
    resize-Removed none le g = inr (p, e, lt, g, removed, refl)
    resize-Removed (some l') le (whole, all, same, values, its) = (
      p,
      e,
      lt,
      record {
        whole = omega (arith, whole, all);
        room = omega (arith, all, same);
        within = rw (its, same) (shift_remove-Within p l.size l.iterators lt v.within);
      },
      values ∙ removed,
      ap (map (ahead (shift_remove p))) its,
    )

    shrink-Removed : Removed h at l (shrink h p closed)
    unfolding shrink
    shrink-Removed = elim (Bool-cases (leb (l.size - 1) (l.allocated / 2))) [
      | inl b ↦
          let le = leb→le (l.size - 1) (l.allocated / 2) b in
          rw b (
            resize-Removed (list_resize h (l.allocated / 2) closed) le (
              list_resize-Resized h (l.allocated / 2) closed le
                (omega (arith, fits, v.whole, v.room))))
      | inr b ↦ rw b (
        p,
        e,
        lt,
        record {
          whole = fits ∙ v.whole;
          room = omega (arith, v.room);
          within = shift_remove-Within p l.size l.iterators lt v.within;
        },
        removed,
        refl,
      )
    ]

  gap-Removed :
      (p : ℕ) (r : Option (List Value))
      → Points at l.size p
      → p < l.size
      → Closed p l r
      → Removed h at l (elim r [
        | none ↦ fault
        | some cells ↦ shrink h p (record l { list = cells; size = l.size - 1 })
      ])
  unfolding Closed
  gap-Removed p none e lt bad = elim bad [ ]
  gap-Removed p (some cells) e lt (fits, removed) = shrink-Removed p e lt cells fits removed

  at_place-Removed :
      (r : Place) → Placed at l.size l.size r → Removed h at l (at_place (λ p. take_out h p l) l r)
  unfolding at_place take_out
  at_place-Removed overflow none_is = elim none_is [ ]
  at_place-Removed outside none_is = inl (refl, none_is)
  at_place-Removed (cell p) (e, lt) =
      rw (lt→ltb p (length l.list) (omega (arith, v.whole, v.room)))
        (gap-Removed p _ e lt (fill_gap p l lt (omega (arith, v.whole, v.room))))

  -- Removal at an int position of a well-formed list stays inside the array and either takes out
  -- the value there (a negative position counts from the end) and moves the iterators behind it
  -- down by one, with the invariant kept; or fails, because there is no such position, and then
  -- nothing changes, or because the smaller array was refused, and then the value is gone and the
  -- iterators are as they were.
  pub list_remove_refines : Negatable at → Removed h at l (list_remove h at l)
  unfolding list_remove
  list_remove_refines ok =
      at_place-Removed (absolutify at l.size false) (absolutify_inside at l.size ok)
