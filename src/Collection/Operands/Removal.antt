-- ===== src/Collection/Operands/Removal.antt =====
-- Adding and removing operands: a search finds the first place, and nothing else moves.
use xmms2remote.Prelude.{
  ℕ, zero, suc, ◌+◌, ◌-◌, ◌/◌, ◌≤◌, ◌<◌, ◌≡◌, ◌^◌, refl, sym, ap, subst, ◌∙◌, Bool, true, false,
  if◌then◌else◌, List, [], ◌∷◌, map, Option, none, some, length, drop, drop_all, ltb, ltb→lt,
  ltb→le, inl, inr, Bool-cases, All, arith,
}
use xmms2remote.Value.{Value}
use xmms2remote.ValueList.{
  ValueList, Heap, Outcome, done, fault, ℤ, pos, ahead, shift_remove, list_append, list_remove,
}
use xmms2remote.ValueList.Inv.{contents, Within, IsValid}
use xmms2remote.ValueList.Cells.{remove_at}
use xmms2remote.ValueList.Iter.{
  iter_valid, iter_entry, read_cell, length-contents, drop_next, next_lem, get_elem?-take,
}
use xmms2remote.ValueList.Remove.{Removed, list_remove_refines}
use xmms2remote.ValueList.Insert.{Inserted, list_insert_refines}
use xmms2remote.Collection.Operands.{
  iter_new, iter_at, iter_free, freed, operand_find, remove_found, operands_remove, add_found,
  operands_add,
}

module _ (is_op : Value → Bool) where
  -- The place of the operand in a list of values.
  unfoldable pub place_of : List Value → Option ℕ
  place_of [] = none
  place_of (v ∷ vs) =
      let rest : Option ℕ = elim (place_of vs) [ none ↦ none | some p ↦ some (suc p) ] in
      if is_op v then some 0 else rest

  place_of-lt :
      (vs : List Value) (r : Option ℕ) (p : ℕ) → place_of vs ≡ r → r ≡ some p → p < length vs
  unfolding place_of
  place_of-lt [] r p e e' = absurd (cc)
  place_of-lt (v ∷ vs) r p e e' = elim (Bool-cases (is_op v)) [
    | inl b ↦
        let found : some 0 ≡ some p = sym (rw (place_of, b) refl) ∙ (e ∙ e') in
        let same : 0 ≡ p = ap (λ o. elim o [ none ↦ 0 | some n ↦ n ]) found in omega arith
    | inr b ↦
        behind (place_of vs) (λ n h. place_of-lt vs (some n) n h refl)
          (sym (rw (place_of, b) refl) ∙ (e ∙ e'))
  ]
    where
      behind :
          (r : Option ℕ)
          → ((n : ℕ) → r ≡ some n → n < length vs)
          → elim r [ none ↦ none | some n ↦ some (suc n) ] ≡ some p
          → p < suc (length vs)
      behind none ih h = absurd (cc)
      behind (some n) ih h =
          let same : suc n ≡ p = ap (λ o. elim o [ none ↦ 0 | some k ↦ k ]) h in
          let lt = ih n refl in omega arith

  -- The answer of a search from the position `q` on.
  abbrev answer : ValueList → ℕ → Option ℕ → Option (Bool × ℤ)
  answer l q none = some (false, pos l.size)
  answer l q (some i) = some (true, pos (q + i))

  answer-next :
      (l : ValueList) (q : ℕ) (r : Option ℕ)
      → answer l (q + 1) r ≡ answer l q (elim r [ none ↦ none | some p ↦ some (suc p) ])
  answer-next l q none = refl
  answer-next l q (some i) =
      let e : q + 1 + i ≡ q + suc i = omega arith in ap (λ n. some (true, pos n)) e

  operand_find_lem :
      (l : ValueList) (v : IsValid l) (fuel q : ℕ)
      → q ≤ l.size
      → l.size - q < fuel
      → operand_find is_op fuel l (pos q) ≡ answer l q (place_of (drop q (contents l)))
  unfolding operand_find iter_entry iter_valid read_cell place_of
  operand_find_lem l v zero q le lt = absurd (omega arith)
  operand_find_lem l v (suc fuel) q le lt = elim (Bool-cases (ltb q l.size)) [
    | inr b ↦
        let e : q ≡ length (contents l) = omega (arith, length-contents l v, ltb→le q l.size b) in
        let size : q ≡ l.size = omega (arith, length-contents l v, e) in
        rw (operand_find, b)
          (ap (λ n. some (false, pos n)) size
            ∙ sym (
                ap (λ n. answer l q (place_of (drop n (contents l)))) e
                ∙ ap (λ xs. answer l q (place_of xs)) (drop_all (contents l))))
    | inl b ↦
        let inside = ltb→lt q l.size b in
        let (x, at, more) = drop_next q (contents l) (omega (arith, length-contents l v)) in
        elim (Bool-cases (is_op x)) [
          | inl yes' ↦
              let zero' : q ≡ q + 0 = omega arith in
              rw (b, sym (get_elem?-take q l.size l.list inside), at, yes')
                (rw (more, place_of, yes') (ap (λ n. some (true, pos n)) zero'))
          | inr no' ↦
              rw (b, sym (get_elem?-take q l.size l.list inside), at, no', next_lem l v q b)
                (operand_find_lem l v fuel (q + 1) (omega arith) (omega arith)
                  ∙ (rw (more, place_of, no')
                      (answer-next l q (place_of (drop (q + 1) (contents l))))))
        ]
  ]

  search_lem :
      (l : ValueList) (fuel : ℕ)
      → IsValid l
      → l.size < fuel
      → operand_find is_op fuel (iter_new l) (pos 0) ≡ answer l 0 (place_of (contents l))
  unfolding iter_new
  search_lem l fuel v lt =
      let v' : IsValid (iter_new l) = record {
        whole = v.whole;
        room = v.room;
        within = (omega arith, v.within);
      } in
      operand_find_lem (iter_new l) v' fuel 0 (omega arith) (omega arith)

  -- What removal leaves: without the operand nothing changes; else its first place is taken out,
  -- and the iterators behind that move down; or the smaller array was refused, and they stay.
  abbrev pub OperandRemoved : Heap → ValueList → Option ℕ → Outcome → Type 0
  OperandRemoved h l none o = o ≡ done false l
  OperandRemoved h l (some p) o =
      (b : Bool) × (l' : ValueList) × (o ≡ done b l')
      × (contents l' ≡ remove_at p (contents l))
      × (b ≡ true → IsValid l' × (l'.iterators ≡ map (ahead (shift_remove p)) l.iterators))
      × (b ≡ false → (h.grants (l.allocated / 2) ≡ false) × (l'.iterators ≡ l.iterators))

  drop-Within : (n : ℕ) (its : List ℤ) → All (Within n) its → All (Within n) (drop 1 its)
  drop-Within n [] a = tt
  drop-Within n (it ∷ its) (w, a) = a

  module _ (h : Heap) where
    freed-Removed :
        (l : ValueList) (p : ℕ) (o : Outcome)
        → p < l.size
        → Removed h (pos p) (iter_at (pos p) l) o
        → OperandRemoved h l (some p) (freed o)
    unfolding iter_at freed iter_free
    freed-Removed l p (done false l') lt (inl (e, bad)) = absurd (omega (arith, bad p refl))
    freed-Removed l p (done false l') lt (inr (q, at, lt', g, e, its)) = (
      false,
      iter_free l',
      refl,
      e ∙ ap (λ n. remove_at n (contents l)) (sym at),
      cc,
      λ b. (g, ap (drop 1) its),
    )
    freed-Removed l p fault lt bad = elim bad [ ]
    freed-Removed l p (done true l') lt (q, at, lt', v, e, its) = (
      true,
      iter_free l',
      refl,
      e ∙ ap (λ n. remove_at n (contents l)) (sym at),
      λ t. (
        record {
          whole = v.whole;
          room = v.room;
          within = drop-Within l'.size l'.iterators v.within;
        },
        ap (drop 1) its ∙ ap (λ n. map (ahead (shift_remove n)) l.iterators) (sym at),
      ),
      cc,
    )

    found-Removed :
        (l : ValueList) (r : Option ℕ)
        → IsValid l
        → place_of (contents l) ≡ r
        → OperandRemoved h l r (remove_found is_op h l (answer l 0 r))
    unfolding remove_found iter_at
    found-Removed l none v e = refl
    found-Removed l (some p) v e =
        let lt : p < l.size =
          omega (arith, length-contents l v, place_of-lt (contents l) (some p) p e refl) in
        let v' : IsValid (iter_at (pos p) l) = record {
          whole = v.whole;
          room = v.room;
          within = (omega arith, v.within);
        } in
        let start : p ≡ 0 + p = omega arith in
        subst (λ n. OperandRemoved h l (some p) (remove_found is_op h l (some (true, pos n)))) start
          (freed-Removed l p (list_remove h (pos p) (iter_at (pos p) l)) lt
            (list_remove_refines h (pos p) (iter_at (pos p) l) v' tt))

    -- On a well-formed list with fuel above its number of values, removal of an operand stays inside
    -- the array. If the operand is not there, it answers false and nothing changes. Else the first
    -- place where it stands is taken out, and no other value: with the answer true the list is well
    -- formed and the other iterators follow; the answer is false only if the heap refuses the
    -- smaller array, and then the other iterators stay.
    pub operands_remove_refines :
        (l : ValueList) (fuel : ℕ)
        → IsValid l
        → l.size < fuel
        → OperandRemoved h l (place_of (contents l)) (operands_remove is_op h fuel l)
    unfolding operands_remove remove_found iter_new iter_at
    operands_remove_refines l fuel v lt =
        rw (operands_remove, search_lem l fuel v lt)
          (found-Removed l (place_of (contents l)) v refl)

    -- What addition leaves: nothing changes where the operand stands already; else its value goes
    -- behind the last.
    abbrev pub OperandAdded : Value → ValueList → Option ℕ → Outcome → Type 0
    OperandAdded op l none o = Inserted h (pos l.size) op l o
    OperandAdded op l (some p) o = o ≡ done false l

    added :
        (op : Value) (l : ValueList) (r : Option ℕ)
        → IsValid l
        → l.size < 2 ^ 30
        → OperandAdded op l r (add_found is_op h op l (answer l 0 r))
    unfolding add_found list_append
    added op l none v small = list_insert_refines h (pos l.size) op l v tt small
    added op l (some p) v small = refl

    -- On a well-formed list of fewer than 2^30 values with fuel above their number, addition of an operand stays
    -- inside the array; an operand that is there already is not added again.
    pub operands_add_refines :
        (l : ValueList) (fuel : ℕ) (op : Value)
        → IsValid l
        → l.size < fuel
        → l.size < 2 ^ 30
        → OperandAdded op l (place_of (contents l)) (operands_add is_op h fuel op l)
    unfolding operands_add iter_new
    operands_add_refines l fuel op v lt small =
        rw (operands_add, search_lem l fuel v lt) (added op l (place_of (contents l)) v small)
