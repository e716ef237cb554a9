-- ===== src/Strlist/Contents.antt =====
-- An array of strings holds them in order, with a null pointer behind the last.
use xmms2remote.Prelude.{
  ℕ, suc, ◌+◌, ◌-◌, ◌≤◌, ◌≡◌, refl, sym, ap, ◌∙◌, true, List, [], ◌∷◌, ◌++◌, Option, none, some,
  length, set, arith, append_assoc, length-append, lt→ltb, take_all,
}
use xmms2remote.Value.{Text}
use xmms2remote.Strlist.{
  Cells, Heap, put_cell, strlist_len, copy_cells, malloc, realloc, strlist_copy,
  strlist_prepend_copy, valist_from, valist_to_strlist,
}

-- The cells of an array with these strings and nothing behind the null pointer.
unfoldable pub cells_of : List Text → Cells
cells_of [] = none ∷ []
cells_of (s ∷ ss) = some s ∷ cells_of ss

-- The same with something behind it.
unfoldable pub with_slack : List Text → Cells → Cells
with_slack [] slack = none ∷ slack
with_slack (s ∷ ss) slack = some s ∷ with_slack ss slack

with_slack-nil : (ss : List Text) → with_slack ss [] ≡ cells_of ss
unfolding with_slack cells_of
with_slack-nil [] = refl
with_slack-nil (s ∷ ss) = ap (λ t. some s ∷ t) (with_slack-nil ss)

set-append :
    (a : Cells) (c : Option Text) (b : Cells) (v : Option Text)
    → set (a ++ c ∷ b) (length a) v ≡ a ++ v ∷ b
set-append [] c b v = refl
set-append (x ∷ a) c b v = ap (λ t. x ∷ t) (set-append a c b v)

put_cell-append :
    (a : Cells) (c : Option Text) (b : Cells) (i : ℕ) (v : Option Text)
    → i ≡ length a
    → put_cell (a ++ c ∷ b) i v ≡ some (a ++ v ∷ b)
unfolding put_cell
put_cell-append a c b i v e =
    rw (e, lt→ltb (length a) (length (a ++ c ∷ b)) (omega (arith, length-append a (c ∷ b))))
      (ap some (set-append a c b v))

strlist_len-with_slack :
    (ss : List Text) (slack : Cells) → strlist_len (with_slack ss slack) ≡ some (length ss)
unfolding strlist_len with_slack
strlist_len-with_slack [] slack = refl
strlist_len-with_slack (s ∷ ss) slack = rw (strlist_len-with_slack ss slack) refl

copy_cells-cells_of :
    (ss : List Text) (slack a b : Cells) (i : ℕ)
    → i ≡ length a
    → length b ≡ suc (length ss)
    → copy_cells (with_slack ss slack) (a ++ b) i ≡ some (a ++ cells_of ss)
unfolding copy_cells with_slack cells_of
copy_cells-cells_of [] slack a [] i e n = absurd (omega arith)
copy_cells-cells_of [] slack a (c ∷ []) i e n = put_cell-append a c [] i none e
copy_cells-cells_of [] slack a (c ∷ d ∷ b) i e n = absurd (omega arith)
copy_cells-cells_of (s ∷ ss) slack a [] i e n = absurd (omega arith)
copy_cells-cells_of (s ∷ ss) slack a (c ∷ b) i e n =
    rw (copy_cells, put_cell-append a c b i (some s) e, ← append_assoc a (some s ∷ []) b)
      (copy_cells-cells_of ss slack (a ++ some s ∷ []) b (suc i)
          (omega (arith, length-append a (some s ∷ []))) (omega arith)
        ∙ ap some (append_assoc a (some s ∷ []) (cells_of ss)))

module _ (h : Heap) (enough : (n : ℕ) → h.grants n ≡ true) where
  length-malloc : (n : ℕ) → length (malloc h n) ≡ n
  unfolding malloc
  length-malloc n = rw (enough n, malloc) (h.fresh_length n)

  strlist_copy_lem :
      (ss : List Text) (slack : Cells) → strlist_copy h (with_slack ss slack) ≡ some (cells_of ss)
  unfolding strlist_copy
  strlist_copy_lem ss slack =
      rw (strlist_copy, strlist_len-with_slack ss slack)
        (copy_cells-cells_of ss slack [] (malloc h (length ss + 1)) 0 refl
          (omega (arith, length-malloc (length ss + 1))))

  prepend_lem :
      (ss : List Text) (slack : Cells) (new : Text) (ret : Cells)
      → length ret ≡ length ss + 2
      → elim (put_cell ret 0 (some new)) [
        | none ↦ none
        | some ret ↦ copy_cells (with_slack ss slack) ret 1
      ]
        ≡ some (cells_of (new ∷ ss))
  unfolding cells_of
  prepend_lem ss slack new [] n = absurd (omega arith)
  prepend_lem ss slack new (c ∷ b) n =
      rw (put_cell-append [] c b 0 (some new) refl)
        (copy_cells-cells_of ss slack (some new ∷ []) b 1 refl (omega arith))

  strlist_prepend_copy_lem :
      (ss : List Text) (slack : Cells) (new : Text)
      → strlist_prepend_copy h (with_slack ss slack) new ≡ some (cells_of (new ∷ ss))
  unfolding strlist_prepend_copy
  strlist_prepend_copy_lem ss slack new =
      rw (strlist_prepend_copy, strlist_len-with_slack ss slack)
        (prepend_lem ss slack new (malloc h (length ss + 2)) (length-malloc (length ss + 2)))

  length-realloc :
      (ret : Cells) (n : ℕ)
      → length ret ≤ n
      → (b : Cells) × (realloc h ret n ≡ ret ++ b) × (length ret + length b ≡ n)
  unfolding realloc
  length-realloc ret n le = (
    h.fresh (n - length ret),
    rw (enough n, realloc, take_all ret n le) refl,
    omega (arith, h.fresh_length (n - length ret)),
  )

  -- A string is stored behind those that the array has, and one cell is left.
  store_next :
      (a b : Cells) (cur : Text)
      → length b ≤ 1
      → (d : Option Text) × (put_cell (realloc h (a ++ b) (length a + 2)) (length a) (some cur)
          ≡ some ((a ++ some cur ∷ []) ++ d ∷ []))
  store_next a b cur le =
      let (r, e, n) = length-realloc (a ++ b) (length a + 2) (omega (arith, length-append a b)) in
      let (d, e') = two (b ++ r) (omega (arith, length-append a b, length-append b r)) in
      (d, rw (e, append_assoc a b r) e')
    where
      two :
          (bs : Cells)
          → length bs ≡ 2
          → (d : Option Text) × (put_cell (a ++ bs) (length a) (some cur)
              ≡ some ((a ++ some cur ∷ []) ++ d ∷ []))
      two [] n = absurd (omega arith)
      two (x ∷ []) n = absurd (omega arith)
      two (x ∷ y ∷ []) n = (
        y,
        put_cell-append a x (y ∷ []) (length a) (some cur) refl
            ∙ ap some (sym (append_assoc a (some cur ∷ []) (y ∷ []))),
      )
      two (x ∷ y ∷ z ∷ bs) n = absurd (omega arith)

  valist_from-cells_of :
      (args : List Text) (a : Cells) (d : Option Text) (i : ℕ)
      → i ≡ length a
      → valist_from h (a ++ d ∷ []) i args ≡ some (a ++ cells_of args)
  unfolding valist_from cells_of
  valist_from-cells_of [] a d i e = put_cell-append a d [] i none e
  valist_from-cells_of (cur ∷ args) a d i e =
      let (y, stored) = store_next a (d ∷ []) cur (omega arith) in
      rw (e, valist_from, stored)
        (valist_from-cells_of args (a ++ some cur ∷ []) y (suc i)
            (omega (arith, e, length-append a (some cur ∷ [])))
          ∙ ap some (append_assoc a (some cur ∷ []) (cells_of args)))

  valist_to_strlist_lem :
      (first : Text) (args : List Text)
      → valist_to_strlist h first args ≡ some (cells_of (first ∷ args))
  unfolding valist_to_strlist valist_from cells_of
  valist_to_strlist_lem first args =
      let (y, stored) = store_next [] [] first (omega arith) in
      rw (valist_from, stored) (valist_from-cells_of args (some first ∷ []) y 1 refl)

  -- Where memory is granted, for one string or more: `valist_to_strlist` makes of its arguments the
  -- array that holds them in order, with the null pointer behind the last; and on an array that
  -- holds these strings, whatever stands behind its null pointer, `strlist_len` is their number,
  -- `strlist_copy` holds the same, and `strlist_prepend_copy` holds the new string and the same.
  -- These four functions read and write nothing outside an array.
  pub strlist_lem :
      (first : Text) (args : List Text) (slack : Cells) (new : Text)
      → let ss = first ∷ args in
        (valist_to_strlist h first args ≡ some (with_slack ss []))
        × (strlist_len (with_slack ss slack) ≡ some (length ss))
        × (strlist_copy h (with_slack ss slack) ≡ some (with_slack ss []))
        × (strlist_prepend_copy h (with_slack ss slack) new ≡ some (with_slack (new ∷ ss) []))
  strlist_lem first args slack new =
      rw (with_slack-nil (first ∷ args), with_slack-nil (new ∷ first ∷ args))
        (
          valist_to_strlist_lem first args,
          strlist_len-with_slack (first ∷ args) slack,
          strlist_copy_lem (first ∷ args) slack,
          strlist_prepend_copy_lem (first ∷ args) slack new,
        )
