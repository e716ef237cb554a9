-- ===== src/Collection/IdList/Insert.antt =====
-- `xmmsv_coll_idlist_insert` and `_append` against insertion into a list.
use xmms2remote.Prelude.{
  ℕ, ◌+◌, ◌-◌, ◌*◌, ◌%◌, ◌^◌, ◌≤◌, ◌<◌, ◌≡◌, refl, sym, ap, subst, ◌∙◌, ◌⊎◌, inl, inr, List, [],
  ◌∷◌, Option, none, some, true, false, length, set, leb, ◌==◌, ==_iff, Bool-cases, lt→ltb, leb→le,
  leb→gt, arith,
}
use xmms2remote.Collection.IdList.{
  IdList, Heap, Outcome, done, fault, size_mod, store, store_in, insert_cell, idlist_insert,
  idlist_append,
}
use xmms2remote.Collection.IdList.Loops.{shift_up-moved}
use xmms2remote.Collection.IdList.Holding.{
  Holds, idlist_size_lem, last_place_lem, insert_at-append, Resized, idlist_resize-Resized,
}
use xmms2remote.ValueList.Cells.{insert_at, moved, length-moved, length-set, open_gap}

-- What `xmmsv_coll_idlist_insert` must do: the id goes in at the position; or nothing changes, as the
-- position is behind the ids or memory was refused.
abbrev pub Inserted : Heap → IdList → List ℕ → ℕ → ℕ → Outcome → Type 0
Inserted h l ids index id fault = ⊥
Inserted h l ids index id (done false l') =
    (l' ≡ l) × ((length ids < index) ⊎ ((n : ℕ) × (l.idlist_size < n × (h.grants n ≡ false))))
Inserted h l ids index id (done true l') = (index ≤ length ids) × Holds l' (insert_at index id ids)

pub store_lem :
    (cells : List ℕ) (i id : ℕ) → i < length cells → store cells i id ≡ some (set cells i id)
unfolding store
store_lem cells i id lt = rw (lt→ltb i (length cells) lt) refl

module _ (h : Heap) (l : IdList) (ids : List ℕ) (index id : ℕ) where
  insert_cell-Inserted :
      (l' : IdList)
      → Holds l' ids
      → l'.idlist_size < l'.idlist_allocated
      → index ≤ length ids
      → Inserted h l ids index id (insert_cell h index id l')
  unfolding insert_cell store_in
  insert_cell-Inserted l' v more le =
      let n = l'.idlist_size - index in
      let size = idlist_size_lem l' ids v in
      let fits : l'.idlist_size < length l'.idlist = omega (arith, v.whole) in
      let e : (l'.idlist_size + 1) % size_mod ≡ l'.idlist_size + 1 = omega (arith, v.small) in
      let len = length-moved (index + 1) index n l'.idlist (omega arith) (omega arith) in
      rw
        (
          shift_up-moved n index l'.idlist (omega arith),
          store_lem (moved (index + 1) index n l'.idlist) index id (omega (arith, len)),
          e,
        )
        (
          le,
          record {
            whole = length-set _ index id ∙ len ∙ v.whole;
            room = omega arith;
            small = v.small;
            cells =
                open_gap l'.idlist index l'.idlist_size id (omega arith) fits
                ∙ ap (insert_at index id) v.cells
                ∙ insert_at-append index ids (0 ∷ []) id le;
          },
        )

  grown-Inserted :
      (n : ℕ) (r : Option IdList)
      → l.idlist_size < n
      → length ids + 1 < n
      → index ≤ length ids
      → Resized h n ids r
      → Inserted h l ids index id
          (elim r [ none ↦ done false l | some l' ↦ insert_cell h index id l' ])
  grown-Inserted n none lt lt' le g = (refl, inr (n, (lt, g)))
  grown-Inserted n (some l') lt lt' le (v, a, s) = insert_cell-Inserted l' v (omega arith) le

  -- On an array that holds ids in fewer than 2^29 cells, insertion of an id at a position stays inside
  -- the array and either inserts the id among the ids, with the zero behind them kept; or fails and changes nothing, because
  -- the position is behind the ids or memory was refused.
  pub idlist_insert_refines :
      Holds l ids → l.idlist_size < 2 ^ 29 → Inserted h l ids index id (idlist_insert h l index id)
  unfolding idlist_insert
  idlist_insert_refines v small =
      let size = idlist_size_lem l ids v in
      elim (Bool-cases (leb l.idlist_size index)) [
        | inl b ↦ rw (idlist_insert, b) (refl, inl (omega (arith, leb→le l.idlist_size index b)))
        | inr b ↦
            let le : index ≤ length ids = omega (arith, leb→gt l.idlist_size index b) in
            elim (Bool-cases (l.idlist_size == l.idlist_allocated)) [
              | inl full ↦
                  let same = (==_iff l.idlist_size l.idlist_allocated).0 full in
                  let n = l.idlist_allocated * 2 % size_mod in
                  let double : n ≡ l.idlist_allocated * 2 = omega arith in
                  rw (idlist_insert, b, full)
                    (grown-Inserted n _ (omega arith) (omega arith) le
                      (idlist_resize-Resized h n l ids v (omega arith) (omega arith)))
              | inr free ↦
                  rw (idlist_insert, b, free)
                    (insert_cell-Inserted l v
                      (not_full l.idlist_size l.idlist_allocated free v.room) le)
            ]
      ]
    where
      not_full : (a b : ℕ) → (a == b) ≡ false → a ≤ b → a < b
      not_full a b e le = ground arith

-- Under the same conditions append either puts the id behind the others, or fails and changes nothing,
-- because memory was refused.
pub idlist_append_refines :
    (h : Heap) (l : IdList) (ids : List ℕ) (id : ℕ)
    → Holds l ids
    → l.idlist_size < 2 ^ 29
    → Inserted h l ids (length ids) id (idlist_append h l id)
unfolding idlist_append
idlist_append_refines h l ids id v small =
    subst (Inserted h l ids (length ids) id)
      (ap (λ i. idlist_insert h l i id) (sym (last_place_lem l ids v)))
      (idlist_insert_refines h l ids (length ids) id v small)
