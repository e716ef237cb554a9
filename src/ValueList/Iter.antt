-- ===== src/ValueList/Iter.antt =====
-- xmmsclient/xmmstypes/value.c, the `xmmsv_list_iter_*` functions on the position of one iterator of
-- a list, `xmmsv_list_foreach`, and what they visit.
use xmms2remote.Prelude.{
  ℕ, zero, suc, ◌+◌, ◌-◌, ◌≤◌, ◌<◌, ◌≡◌, refl, sym, ap, subst, ◌∙◌, List, [], ◌∷◌, Option, none,
  some, Bool, true, false, length, get_elem?, take, drop, drop_all, length-take, inl, inr, ltb,
  ltb→lt, ltb→le, if◌then◌else◌, Bool-cases, arith,
}
use xmms2remote.Value.{Value}
use xmms2remote.ValueList.{ValueList, ℤ, pos, negsuc, Place, cell, outside, overflow, absolutify}
use xmms2remote.ValueList.Inv.{contents, Within, IsValid}
use xmms2remote.ValueList.Places.{Negatable, Placed, absolutify_append}

-- `xmmsv_list_iter_valid` and `_entry`, which reads the cell of a valid iterator.
unfoldable pub iter_valid : ValueList → ℤ → Bool
iter_valid l (pos q) = ltb q l.size
iter_valid l (negsuc q) = false

pub data Entry : Type 0 where
  entry : Value → Entry
  no_entry fault : Entry

unfoldable pub read_cell : List Value → ℤ → Entry
read_cell cells (negsuc q) = fault
read_cell cells (pos q) = elim (get_elem? cells q) [ none ↦ fault | some v ↦ entry v ]

unfoldable pub iter_entry : ValueList → ℤ → Entry
unfolding iter_valid read_cell
iter_entry l it = if iter_valid l it then read_cell l.list it else no_entry

-- `xmmsv_list_iter_first`, `_last`, `_next`, `_prev` and `_seek` (none if the position is not there).
unfoldable pub iter_first : ValueList → ℤ → ℤ
iter_first l it = pos 0

unfoldable pub iter_last : ValueList → ℤ → ℤ
iter_last l it = if ltb 0 l.size then pos (l.size - 1) else pos l.size

unfoldable pub iter_next : ValueList → ℤ → ℤ
iter_next l (pos q) = if ltb q l.size then pos (q + 1) else pos q
iter_next l (negsuc zero) = pos 0
iter_next l (negsuc (suc q)) = negsuc q

unfoldable pub iter_prev : ValueList → ℤ → ℤ
iter_prev l (pos zero) = negsuc 0
iter_prev l (pos (suc q)) = pos q
iter_prev l (negsuc q) = negsuc q

unfoldable pub iter_seek : ValueList → ℤ → Option ℤ
unfolding absolutify
iter_seek l at = elim (absolutify at l.size true) [ cell p ↦ some (pos p) | _ ↦ none ]

-- `xmmsv_list_foreach`: the values that the callback is given, in order, from the position on;
-- `none` is a read outside the array, or the end of the fuel.
unfoldable pub foreach_from : ℕ → ValueList → ℤ → Option (List Value)
unfolding iter_valid iter_entry iter_next
foreach_from zero l it = none
foreach_from (suc fuel) l it =
    let rest = foreach_from fuel l (iter_next l it) in
    if iter_valid l it
    then elim (iter_entry l it) [
      | entry v ↦ elim rest [ none ↦ none | some vs ↦ some (v ∷ vs) ]
      | _ ↦ none
    ]
    else some []

unfoldable pub foreach : ℕ → ValueList → Option (List Value)
unfolding foreach_from
foreach fuel l = foreach_from fuel l (pos 0)

-- One call that moves an iterator of a list.
pub data Move (l : ValueList) : ℤ → ℤ → Type 0 where
  first : (it : ℤ) → Move l it (iter_first l it)
  last : (it : ℤ) → Move l it (iter_last l it)
  next : (it : ℤ) → Move l it (iter_next l it)
  prev : (it : ℤ) → Move l it (iter_prev l it)
  seek : (it at it' : ℤ) → Negatable at → iter_seek l at ≡ some it' → Move l it it'

last-Within : (l : ValueList) (it : ℤ) → Within l.size (iter_last l it)
unfolding iter_last
last-Within l it = elim (Bool-cases (ltb 0 l.size)) [
  | inl b ↦ rw b (omega arith)
  | inr b ↦ rw b (omega arith)
]

next-Within : (l : ValueList) (it : ℤ) → Within l.size it → Within l.size (iter_next l it)
unfolding iter_next
next-Within l (pos q) w = elim (Bool-cases (ltb q l.size)) [
  | inl b ↦ rw b (omega (arith, ltb→lt q l.size b))
  | inr b ↦ rw b w
]
next-Within l (negsuc zero) w = omega arith
next-Within l (negsuc (suc q)) w = absurd (omega (arith, w))

prev-Within : (l : ValueList) (it : ℤ) → Within l.size it → Within l.size (iter_prev l it)
unfolding iter_prev
prev-Within l (pos zero) w = refl
prev-Within l (pos (suc q)) w = omega (arith, w)
prev-Within l (negsuc q) w = w

seek-Within :
    (l : ValueList) (at it : ℤ) (r : Place)
    → Placed at l.size (suc l.size) r
    → elim r [ cell p ↦ some (pos p) | _ ↦ none ] ≡ some it
    → Within l.size it
seek-Within l at it (cell p) (e, lt) eq =
    let same : pos p ≡ it = ap (λ o. elim o [ none ↦ it | some x ↦ x ]) eq in
    subst (Within l.size) same (omega arith)
seek-Within l at it outside w eq = absurd (cc)
seek-Within l at it overflow w eq = elim w [ ]

-- Every call that moves an iterator leaves it on a value, behind the last or just before the first.
pub Move-Within :
    (l : ValueList) (it it' : ℤ) → Within l.size it → Move l it it' → Within l.size it'
unfolding iter_seek iter_first
Move-Within l it it' w (first _) = omega arith
Move-Within l it it' w (last _) = last-Within l it
Move-Within l it it' w (next _) = next-Within l it w
Move-Within l it it' w (prev _) = prev-Within l it w
Move-Within l it it' w (seek _ at _ ok eq) =
    seek-Within l at it' (absolutify at l.size true) (absolutify_append at l.size ok) eq

module _ {ℓ} {A : Type ℓ} where
  pub drop_next :
      (q : ℕ) (xs : List A)
      → q < length xs
      → (v : A) × (get_elem? xs q ≡ some v) × (drop q xs ≡ v ∷ drop (q + 1) xs)
  drop_next q [] lt = absurd (omega arith)
  drop_next zero (x ∷ xs) lt = (x, refl, refl)
  drop_next (suc q) (x ∷ xs) lt =
      let (v, e, d) = drop_next q xs (omega arith) in
      let n : suc q + 1 ≡ suc (q + 1) = omega arith in (v, e, rw n d)

  pub get_elem?-take : (q n : ℕ) (xs : List A) → q < n → get_elem? (take n xs) q ≡ get_elem? xs q
  get_elem?-take q zero xs lt = absurd (omega arith)
  get_elem?-take q (suc n) [] lt = refl
  get_elem?-take zero (suc n) (x ∷ xs) lt = refl
  get_elem?-take (suc q) (suc n) (x ∷ xs) lt = get_elem?-take q n xs (omega arith)

module _ (l : ValueList) (v : IsValid l) where
  pub length-contents : length (contents l) ≡ l.size
  length-contents = length-take l.size l.list (omega (arith, v.whole, v.room))

  pub next_lem : (q : ℕ) → ltb q l.size ≡ true → iter_next l (pos q) ≡ pos (q + 1)
  unfolding iter_next
  next_lem q b = rw b refl

  foreach_from_lem :
      (fuel q : ℕ)
      → q ≤ l.size
      → l.size - q < fuel
      → foreach_from fuel l (pos q) ≡ some (drop q (contents l))
  unfolding foreach_from iter_entry iter_valid read_cell
  foreach_from_lem zero q le lt = absurd (omega arith)
  foreach_from_lem (suc fuel) q le lt = elim (Bool-cases (ltb q l.size)) [
    | inr b ↦
        let e : q ≡ length (contents l) = omega (arith, length-contents, ltb→le q l.size b) in
        rw b (ap some (sym (ap (λ n. drop n (contents l)) e ∙ drop_all (contents l))))
    | inl b ↦
        let inside = ltb→lt q l.size b in
        let (x, at, more) = drop_next q (contents l) (omega (arith, length-contents)) in
        rw
          (
            b,
            sym (get_elem?-take q l.size l.list inside),
            at,
            next_lem q b,
            foreach_from_lem fuel (q + 1) (omega arith) (omega arith),
            more,
          )
          refl
  ]

  -- On a well-formed list, foreach gives the callback exactly the values of the list, in order, and
  -- ends with fuel above their number, without reading outside the array.
  pub foreach-contents : (fuel : ℕ) → l.size < fuel → foreach fuel l ≡ some (contents l)
  unfolding foreach
  foreach-contents fuel lt = foreach_from_lem fuel 0 (omega arith) (omega arith)
