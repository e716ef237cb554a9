-- ===== src/ValueList/Follow.antt =====
-- The iterators registered with a list while `_xmmsv_list_insert` changes it under them.
use xmms2remote.Prelude.{
  ℕ, zero, suc, ◌+◌, ◌^◌, ◌≤◌, ◌<◌, ◌≡◌, refl, sym, ap, subst, ◌∙◌, List, [], ◌∷◌, map, none, some,
  true, length, get_elem?, take, drop, ltb, lt→ltb, Bool-cases, inl, inr, ltb→lt, ltb→le,
  length-append, length-take, length-drop, arith,
}
use xmms2remote.Value.{Value}
use xmms2remote.ValueList.{ValueList, ℤ, pos, Heap, done, ahead, shift_insert, list_insert}
use xmms2remote.ValueList.Cells.{insert_at}
use xmms2remote.ValueList.Inv.{contents, IsValid}
use xmms2remote.ValueList.Places.{Points, Negatable}
use xmms2remote.ValueList.Insert.{Inserted, list_insert_refines}
use xmms2remote.ValueList.Iter.{
  Entry, entry, iter_entry, iter_valid, read_cell, get_elem?-take, length-contents,
}

module _ {ℓ} {A : Type ℓ} where
  get_elem?-before :
      (p q : ℕ) (xs : List A) (w : A)
      → q < p
      → p ≤ length xs
      → get_elem? (insert_at p w xs) q ≡ get_elem? xs q
  get_elem?-before zero q xs w lt le = absurd (omega arith)
  get_elem?-before (suc p) q [] w lt le = absurd (omega arith)
  get_elem?-before (suc p) zero (x ∷ xs) w lt le = refl
  get_elem?-before (suc p) (suc q) (x ∷ xs) w lt le =
      get_elem?-before p q xs w (omega arith) (omega arith)

  get_elem?-behind :
      (p q : ℕ) (xs : List A) (w : A)
      → p ≤ q
      → p ≤ length xs
      → get_elem? (insert_at p w xs) (suc q) ≡ get_elem? xs q
  get_elem?-behind zero q xs w le le' = refl
  get_elem?-behind (suc p) q [] w le le' = absurd (omega arith)
  get_elem?-behind (suc p) zero (x ∷ xs) w le le' = absurd (omega arith)
  get_elem?-behind (suc p) (suc q) (x ∷ xs) w le le' =
      get_elem?-behind p q xs w (omega arith) (omega arith)

  length-insert_at :
      (p : ℕ) (xs : List A) (w : A) → p ≤ length xs → length (insert_at p w xs) ≡ suc (length xs)
  length-insert_at p xs w le =
      omega
        (arith, length-append (take p xs) (w ∷ drop p xs), length-take p xs le, length-drop p xs)

get_elem?-map :
    (f : ℤ → ℤ) (its : List ℤ) (i : ℕ) (it : ℤ)
    → get_elem? its i ≡ some it
    → get_elem? (map f its) i ≡ some (f it)
get_elem?-map f [] i it e = absurd (cc)
get_elem?-map f (x ∷ its) zero it e = ap (λ o. elim o [ none ↦ none | some y ↦ some (f y) ]) e
get_elem?-map f (x ∷ its) (suc i) it e = get_elem?-map f its i it e

-- The value that an iterator within the list reads.
entry_lem :
    (l : ValueList) (q : ℕ)
    → q < l.size
    → iter_entry l (pos q)
      ≡ elim (get_elem? (contents l) q) [ none ↦ Entry.fault | some v ↦ entry v ]
unfolding iter_entry iter_valid read_cell
entry_lem l q lt =
    rw (iter_entry, iter_valid, lt→ltb q l.size lt, get_elem?-take q l.size l.list lt) refl

shift_elem :
    (p q : ℕ) (xs : List Value) (w : Value)
    → p ≤ length xs
    → ¬ (q ≡ p)
    → q < length xs
    → (get_elem? (insert_at p w xs) (shift_insert p q) ≡ get_elem? xs q)
      × (shift_insert p q ≤ length xs)
unfolding shift_insert
shift_elem p q xs w le other lt = elim (Bool-cases (ltb p q)) [
  | inl b ↦
      let e : q + 1 ≡ suc q = omega arith in
      rw (shift_insert, b, e) (get_elem?-behind p q xs w (omega (arith, ltb→lt p q b)) le, lt)
  | inr b ↦ rw (shift_insert, b) (get_elem?-before p q xs w (below (ltb→le p q b)) le, omega arith)
]
  where
    below : q ≤ p → q < p
    below h = grind arith

module _ (h : Heap) (at : ℤ) (w : Value) (l l' : ValueList) (v : IsValid l) where
  -- When a value is inserted in a well-formed list below 2^30 values, every registered iterator
  -- that stands on a value, other than at the place of the insertion, still reads that same value.
  pub iter_entry-list_insert :
      Negatable at
      → l.size < 2 ^ 30
      → list_insert h at w l ≡ done true l'
      → (i q : ℕ) → get_elem? l.iterators i ≡ some (pos q)
      → q < l.size
      → ¬ Points at l.size q
      → (it : ℤ) × (get_elem? l'.iterators i ≡ some it) × (iter_entry l' it ≡ iter_entry l (pos q))
  unfolding ahead
  iter_entry-list_insert ok small run i q reg lt other =
      let (p, points, le, a, valid, values, its) =
        subst (Inserted h at w l) run (list_insert_refines h at w l v ok small) in
      let (same, fits) =
        shift_elem p q (contents l) w (omega (arith, length-contents l v))
          (λ e. other (subst (Points at l.size) (sym e) points))
          (omega (arith, length-contents l v)) in
      let size = length-contents l' valid in
      let size' =
        ap length values ∙ length-insert_at p (contents l) w (omega (arith, length-contents l v)) in
      let moved = entry_lem l' (shift_insert p q) (omega (arith, size, size', fits)) in
      (
        pos (shift_insert p q),
        ap (λ js. get_elem? js i) its
            ∙ get_elem?-map (ahead (shift_insert p)) l.iterators i (pos q) reg,
        moved
            ∙ ap (λ o. elim o [ none ↦ Entry.fault | some v ↦ entry v ])
                (ap (λ xs. get_elem? xs (shift_insert p q)) values ∙ same)
            ∙ sym (entry_lem l q lt),
      )
