-- ===== src/Collection/IdList/Loops.antt =====
-- The two loops that shift cells, against moving a block of cells at once.
use xmms2remote.Prelude.{
  ℕ, zero, suc, ◌+◌, ◌-◌, ◌<◌, ◌≡◌, refl, sym, ap, ap₂, ◌∙◌, List, [], ◌∷◌, ◌++◌, append_assoc,
  some, length, get_elem?, set, take, drop, lt→ltb, length-take, length-drop, take-append-drop,
  take-take, take-append_le, drop-append_le, drop-append_at, take-add, arith,
}
use xmms2remote.Collection.IdList.{store, copy_cell, shift_up, shift_down}
use xmms2remote.ValueList.Cells.{moved, set_lem, length-set, drop-take, take-set}
use xmms2remote.ValueList.Shift.{drop-drop}

-- A cell that is there.
pub get_elem?-drop :
    (xs : List ℕ) (i : ℕ)
    → i < length xs
    → (v : ℕ) × (get_elem? xs i ≡ some v) × (drop i xs ≡ v ∷ drop (suc i) xs)
get_elem?-drop [] i lt = absurd (omega arith)
get_elem?-drop (x ∷ xs) zero lt = (x, refl, refl)
get_elem?-drop (x ∷ xs) (suc i) lt = get_elem?-drop xs i (omega arith)

drop-set : (xs : List ℕ) (i j v : ℕ) → i < j → drop j (set xs i v) ≡ drop j xs
drop-set [] i j v lt = refl
drop-set (x ∷ xs) i zero v lt = absurd (omega arith)
drop-set (x ∷ xs) zero (suc j) v lt = refl
drop-set (x ∷ xs) (suc i) (suc j) v lt = drop-set xs i j v (omega arith)

copy_cell_lem :
    (xs : List ℕ) (to from v : ℕ)
    → to < length xs
    → get_elem? xs from ≡ some v
    → copy_cell xs to from ≡ some (set xs to v)
unfolding copy_cell store
copy_cell_lem xs to from v lt e = rw (copy_cell, e, lt→ltb to (length xs) lt) refl

pub moved_none : (dst src : ℕ) (xs : List ℕ) → moved dst src 0 xs ≡ xs
moved_none dst src xs = ap (λ k. take dst xs ++ drop k xs) (omega arith) ∙ take-append-drop dst xs

-- One round more of the loops.
moved_down :
    (n i v : ℕ) (xs : List ℕ)
    → i + 1 < length xs
    → drop (i + 1) xs ≡ v ∷ drop (suc (i + 1)) xs
    → moved (i + 1) ((i + 1) + 1) n (set xs i v) ≡ moved i (i + 1) (suc n) xs
moved_down n i v xs lt tail =
    ap₂ ◌++◌ (take-set xs i v (omega arith)) (
      ap₂ (λ a b. take n a ++ b) (drop-set xs i ((i + 1) + 1) v (omega arith))
        (drop-set xs i ((i + 1) + n) v (omega arith)))
    ∙ append_assoc (take i xs) (v ∷ []) (take n (drop ((i + 1) + 1) xs) ++ drop ((i + 1) + n) xs)
    ∙ ap₂ (λ a b. take i xs ++ (a ++ drop b xs)) block (omega arith)
  where
    next : (i + 1) + 1 ≡ suc (i + 1)
    next = omega arith

    block : v ∷ take n (drop ((i + 1) + 1) xs) ≡ take (suc n) (drop (i + 1) xs)
    block = ap (λ k. v ∷ take n (drop k xs)) next ∙ ap (take (suc n)) (sym tail)

moved_up :
    (n i v : ℕ) (xs : List ℕ)
    → i + suc n < length xs
    → drop (i + n) xs ≡ v ∷ drop (suc (i + n)) xs
    → moved (i + 1) i n (set xs (i + suc n) v) ≡ moved (i + 1) i (suc n) xs
moved_up n i v xs lt tail = ap₂ ◌++◌ front (ap₂ ◌++◌ block back) ∙ ap (◌++◌ (take (i + 1) xs)) rest
  where
    cells : List ℕ
    cells = set xs (i + suc n) v

    cells_lem : cells ≡ take (i + suc n) xs ++ v ∷ drop (suc (i + suc n)) xs
    cells_lem = set_lem xs (i + suc n) v lt

    len : length (take (i + suc n) xs) ≡ i + suc n
    len = length-take (i + suc n) xs (omega arith)

    front : take (i + 1) cells ≡ take (i + 1) xs
    front =
        ap (take (i + 1)) cells_lem
        ∙ take-append_le (i + 1) (take (i + suc n) xs) _ (omega (arith, len))
        ∙ take-take (i + 1) (i + suc n) xs (omega arith)

    one_more : take (suc n) (drop i xs) ≡ take n (drop i xs) ++ v ∷ []
    one_more =
        let e : suc n ≡ n + 1 = omega arith in
        ap (λ k. take k (drop i xs)) e
        ∙ take-add n 1 (drop i xs)
        ∙ ap (λ ys. take n (drop i xs) ++ take 1 ys) (drop-drop n i xs ∙ tail)

    rest :
        take n (drop i xs) ++ v ∷ drop (suc (i + suc n)) xs
        ≡ take (suc n) (drop i xs) ++ drop ((i + 1) + suc n) xs
    rest =
        let e : suc (i + suc n) ≡ (i + 1) + suc n = omega arith in
        sym (append_assoc (take n (drop i xs)) (v ∷ []) (drop (suc (i + suc n)) xs))
        ∙ ap₂ (λ a k. a ++ drop k xs) (sym one_more) e

    block : take n (drop i cells) ≡ take n (drop i xs)
    block =
        ap (λ k. take n (drop i k)) cells_lem
        ∙ ap (take n) (drop-append_le i (take (i + suc n) xs) _ (omega (arith, len)))
        ∙ take-append_le n (drop i (take (i + suc n) xs)) _
            (omega (arith, length-drop i (take (i + suc n) xs), len))
        ∙ ap (take n) (drop-take i (i + suc n) xs)
        ∙ take-take n ((i + suc n) - i) (drop i xs) (omega arith)

    back : drop ((i + 1) + n) cells ≡ v ∷ drop (suc (i + suc n)) xs
    back =
        ap (drop ((i + 1) + n)) cells_lem
        ∙ drop-append_at ((i + 1) + n) (take (i + suc n) xs) _ (omega (arith, len))

pub shift_down-moved :
    (n i : ℕ) (xs : List ℕ) → i + n < length xs → shift_down n i xs ≡ some (moved i (i + 1) n xs)
unfolding shift_down
shift_down-moved zero i xs lt = ap some (sym (moved_none i (i + 1) xs))
shift_down-moved (suc n) i xs lt =
    let (v, e, tail) = get_elem?-drop xs (i + 1) (omega arith) in
    rw (shift_down, copy_cell_lem xs i (i + 1) v (omega arith) e)
      (shift_down-moved n (i + 1) (set xs i v) (omega (arith, length-set xs i v))
        ∙ ap some (moved_down n i v xs (omega arith) tail))

pub shift_up-moved :
    (n i : ℕ) (xs : List ℕ) → i + n < length xs → shift_up n i xs ≡ some (moved (i + 1) i n xs)
unfolding shift_up
shift_up-moved zero i xs lt = ap some (sym (moved_none (i + 1) i xs))
shift_up-moved (suc n) i xs lt =
    let (v, e, tail) = get_elem?-drop xs (i + n) (omega arith) in
    rw (shift_up, copy_cell_lem xs (i + suc n) (i + n) v (omega arith) e)
      (shift_up-moved n i (set xs (i + suc n) v) (omega (arith, length-set xs (i + suc n) v))
        ∙ ap some (moved_up n i v xs lt tail))
