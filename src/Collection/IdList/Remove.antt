-- ===== src/Collection/IdList/Remove.antt =====
-- `xmmsv_coll_idlist_remove`, and `xmmsv_coll_set_idlist` with `_clear`.
use xmms2remote.Prelude.{
  ℕ, ◌+◌, ◌-◌, ◌/◌, ◌^◌, ◌≤◌, ◌<◌, ◌≡◌, refl, sym, ap, subst, ◌∙◌, ◌⊎◌, inl, inr, List, [], ◌∷◌,
  ◌++◌, All, Option, none, some, true, false, length, take, take_all, length-append, leb, ◌==◌,
  Bool-cases, leb→le, leb→gt, arith,
}
use xmms2remote.Collection.IdList.{
  IdList, Heap, Outcome, done, fault, reduce, idlist_remove, terminated, idlist_set,
}
use xmms2remote.Collection.IdList.Loops.{shift_down-moved}
use xmms2remote.Collection.IdList.Holding.{
  Holds, idlist_size_lem, last_place_lem, remove_at-append, Resized, idlist_resize-Resized,
}
use xmms2remote.ValueList.Cells.{remove_at, moved, length-moved, close_gap}

-- What `xmmsv_coll_idlist_remove` must do: the id at the position is taken out; or there is none, and
-- nothing changes.
abbrev pub Removed : IdList → List ℕ → ℕ → Outcome → Type 0
Removed l ids index fault = ⊥
Removed l ids index (done false l') = (l' ≡ l) × (length ids ≤ index)
Removed l ids index (done true l') = (index < length ids) × Holds l' (remove_at index ids)

module _ (h : Heap) where
  halved_lem :
      (n : ℕ) (l : IdList) (ids : List ℕ) (r : Option IdList)
      → Holds l ids
      → Resized h n ids r
      → Holds (elim r [ none ↦ l | some l' ↦ l' ]) ids
  halved_lem n l ids none v g = v
  halved_lem n l ids (some l') v (v', a, b) = v'

  reduce-Holds :
      (l : IdList) (ids : List ℕ)
      → Holds l ids
      → (l' : IdList) × (reduce h (done true l) ≡ done true l') × Holds l' ids
  unfolding reduce
  reduce-Holds l ids v = elim (Bool-cases (leb l.idlist_size (l.idlist_allocated / 2))) [
    | inr b ↦ rw (reduce, b) (l, refl, v)
    | inl b ↦
        let half = l.idlist_allocated / 2 in
        let halved = halved_lem half l ids _ v (
          idlist_resize-Resized h half l ids v (leb→le l.idlist_size half b)
            (omega (arith, v.small))) in
        rw (reduce, b) (_, refl, halved)
  ]

  -- On an array that holds ids, removal at a position stays inside the array and either takes out the id there, with the zero
  -- behind the ids kept, whether or not a smaller array was granted; or fails and changes nothing,
  -- because there is no such id.
  pub idlist_remove_refines :
      (l : IdList) (ids : List ℕ) (index : ℕ)
      → Holds l ids
      → Removed l ids index (idlist_remove h l index)
  unfolding idlist_remove
  idlist_remove_refines l ids index v =
      let size = idlist_size_lem l ids v in
      let last = last_place_lem l ids v in
      elim (Bool-cases (leb (length ids) index)) [
        | inl b ↦ rw (idlist_remove, last, b) (refl, leb→le (length ids) index b)
        | inr b ↦
            let lt = leb→gt (length ids) index b in
            let n = length ids - index in
            let whole = v.whole in
            let room = v.room in
            let len = length-moved index (index + 1) n l.idlist (omega arith) (omega arith) in
            let cells : take (length ids) (moved index (index + 1) n l.idlist)
                ≡ remove_at index ids ++ 0 ∷ [] =
              close_gap l.idlist index (length ids) (omega arith) (omega arith)
              ∙ ap (λ k. remove_at index (take k l.idlist)) (sym size)
              ∙ ap (remove_at index) v.cells
              ∙ remove_at-append index ids (0 ∷ []) lt in
            let (l', e, v') =
              reduce-Holds
                (record l { idlist = moved index (index + 1) n l.idlist; idlist_size = length ids })
                (remove_at index ids)
                (record {
                  whole = len ∙ whole;
                  room = omega arith;
                  small = v.small;
                  cells = cells;
                }) in
            rw (idlist_remove, last, b, shift_down-moved n index l.idlist (omega arith))
              (subst (Removed l ids index) (sym e) (lt, v'))
      ]

-- Ids that are not zero, with a zero behind them.
terminated_lem :
    (ids rest : List ℕ) → All (λ id. 0 < id) ids → terminated (ids ++ 0 ∷ rest) ≡ some ids
unfolding terminated
terminated_lem [] rest a = refl
terminated_lem (id ∷ ids) rest (p, a) =
    let e : (id == 0) ≡ false = ground arith in rw (terminated, terminated_lem ids rest a, e) refl

-- The array after `xmmsv_coll_set_idlist`: the new ids, or none at all.
abbrev pub Assigned : Heap → IdList → List ℕ → Outcome → Type 0
Assigned h l ids fault = ⊥
Assigned h l ids (done false l') = ⊥
Assigned h l ids (done true l') =
    Holds l' ids
    ⊎ ((h.grants (length ids + 1) ≡ false) × (l'.idlist ≡ []) × (l'.idlist_size ≡ l.idlist_size))

-- Setting an array of fewer than 2^30 - 1 ids, none of them zero, with a zero behind them (whatever
-- follows that) makes them the ids of the collection; or memory was refused, and then there is no
-- array although the size is as before.
pub idlist_set_refines :
    (h : Heap) (l : IdList) (ids rest : List ℕ)
    → All (λ id. 0 < id) ids
    → length ids + 1 < 2 ^ 30
    → Assigned h l ids (idlist_set h l (ids ++ 0 ∷ rest))
unfolding idlist_set
idlist_set_refines h l ids rest a lt = elim (Bool-cases (h.grants (length ids + 1))) [
  | inl b ↦
      rw (idlist_set, terminated_lem ids rest a, b)
        (inl (record {
          whole = length-append ids (0 ∷ []);
          room = omega arith;
          small = lt;
          cells =
              take_all (ids ++ 0 ∷ []) (length ids + 1) (omega (arith, length-append ids (0 ∷ [])));
        }))
  | inr b ↦ rw (idlist_set, terminated_lem ids rest a, b) (inr (b, refl, refl))
]
