-- ===== src/Collection/IdList/Holding.antt =====
-- The ids that an array stands for, and what keeps them.
use xmms2remote.Prelude.{
  ℕ, ◌+◌, ◌-◌, ◌*◌, ◌/◌, ◌%◌, ◌^◌, ◌≤◌, ◌<◌, ◌≡◌, refl, sym, ap, ap₂, ◌∙◌, List, [], ◌∷◌, ◌++◌,
  append_assoc, Option, none, some, false, length, take, drop, inl, inr, Bool-cases, length-append,
  length-take, length-drop, take-take, take-append_le, drop-append_le, arith,
}
use xmms2remote.Collection.IdList.{IdList, Heap, size_mod, last_place, idlist_resize}
use xmms2remote.ValueList.Cells.{insert_at, remove_at}
use xmms2remote.ValueList.Resize.{length-take-sub, length-take_ge}

-- The cells in use are the ids and the zero behind them.
pub record Holds (l : IdList) (ids : List ℕ) : Type 0 where
  pub whole : length l.idlist ≡ l.idlist_allocated
  pub room : l.idlist_size ≤ l.idlist_allocated
  pub small : l.idlist_allocated < 2 ^ 30
  pub cells : take l.idlist_size l.idlist ≡ ids ++ 0 ∷ []

module _ (l : IdList) (ids : List ℕ) (v : Holds l ids) where
  pub idlist_size_lem : l.idlist_size ≡ length ids + 1
  idlist_size_lem = omega (
    arith,
    length-take l.idlist_size l.idlist (omega (arith, v.whole, v.room)),
    ap length v.cells,
    length-append ids (0 ∷ []),
  )

  pub last_place_lem : last_place l ≡ length ids
  last_place_lem = omega (arith, idlist_size_lem, v.room, v.small)

-- Positions before the zero.
module _ (p : ℕ) (ids zs : List ℕ) where
  pub insert_at-append :
      (v : ℕ) → p ≤ length ids → insert_at p v (ids ++ zs) ≡ insert_at p v ids ++ zs
  insert_at-append v le =
      ap₂ (λ a b. a ++ v ∷ b) (take-append_le p ids zs le) (drop-append_le p ids zs le)
      ∙ sym (append_assoc (take p ids) (v ∷ drop p ids) zs)

  pub remove_at-append : p < length ids → remove_at p (ids ++ zs) ≡ remove_at p ids ++ zs
  remove_at-append lt =
      ap₂ ◌++◌ (take-append_le p ids zs (omega arith)) (drop-append_le (p + 1) ids zs (omega arith))
      ∙ sym (append_assoc (take p ids) (drop (p + 1) ids) zs)

  pub length-remove_at : p < length ids → length (remove_at p ids) + 1 ≡ length ids
  length-remove_at lt = omega (
    arith,
    length-append (take p ids) (drop (p + 1) ids),
    length-take p ids (omega arith),
    length-drop (p + 1) ids,
  )

-- A refusal, or the same ids in an array of the new size.
abbrev pub Resized : Heap → ℕ → List ℕ → Option IdList → Type 0
Resized h n ids none = h.grants n ≡ false
Resized h n ids (some l') =
    Holds l' ids × (l'.idlist_allocated ≡ n) × (l'.idlist_size ≡ length ids + 1)

pub idlist_resize-Resized :
    (h : Heap) (n : ℕ) (l : IdList) (ids : List ℕ)
    → Holds l ids
    → l.idlist_size ≤ n
    → n < 2 ^ 30
    → Resized h n ids (idlist_resize h n l)
unfolding idlist_resize
idlist_resize-Resized h n l ids v fits small =
    let bytes : n * 4 % size_mod / 4 ≡ n = omega arith in
    let inside : l.idlist_size ≤ length l.idlist = omega (arith, v.whole, v.room) in
    elim (Bool-cases (h.grants n)) [
      | inr b ↦ rw (bytes, b) b
      | inl b ↦
          rw (bytes, b)
            (
              record {
                whole = omega (
                  arith,
                  length-append (take n l.idlist) (h.fresh (n - length l.idlist)),
                  h.fresh_length (n - length l.idlist),
                  length-take-sub n l.idlist,
                );
                room = fits;
                small = small;
                cells =
                    take-append_le l.idlist_size (take n l.idlist) (h.fresh (n - length l.idlist))
                      (length-take_ge l.idlist_size n l.idlist fits inside)
                    ∙ take-take l.idlist_size n l.idlist fits
                    ∙ v.cells;
              },
              refl,
              idlist_size_lem l ids v,
            )
    ]
