-- ===== src/ValueList/Resize.antt =====
-- `xmmsv_list_resize`, which keeps the values that fit in the new array, and `memmove`.
use xmms2remote.Prelude.{
  ℕ, zero, suc, ◌+◌, ◌-◌, ◌≤◌, ◌≡◌, refl, ◌∙◌, List, [], ◌∷◌, ◌++◌, inl, inr, Option, none, some,
  false, length, take, le→leb, ◌==◌, Bool-cases, length-append, take-take, take-append_le, arith,
}
use xmms2remote.Value.{Value}
use xmms2remote.ValueList.{ValueList, Heap, list_resize, memmove}
use xmms2remote.ValueList.Cells.{moved}
use xmms2remote.ValueList.Inv.{contents}

module _ {ℓ} {A : Type ℓ} where
  pub length-take-sub : (n : ℕ) (xs : List A) → length (take n xs) + (n - length xs) ≡ n
  length-take-sub zero xs = omega arith
  length-take-sub (suc n) [] = omega arith
  length-take-sub (suc n) (x ∷ xs) = omega (arith, length-take-sub n xs)

  pub length-take_ge : (i n : ℕ) (xs : List A) → i ≤ n → i ≤ length xs → i ≤ length (take n xs)
  length-take_ge i zero xs h k = omega arith
  length-take_ge i (suc n) [] h k = k
  length-take_ge zero (suc n) (x ∷ xs) h k = omega arith
  length-take_ge (suc i) (suc n) (x ∷ xs) h k =
      omega (arith, length-take_ge i n xs (omega arith) (omega arith))

-- A refusal, or the same values in an array of the new size.
abbrev pub Resized : Heap → ℕ → ValueList → Option ValueList → Type 0
Resized h n l none = h.grants n ≡ false
Resized h n l (some l') =
    (length l'.list ≡ n)
    × (l'.allocated ≡ n)
    × (l'.size ≡ l.size)
    × (contents l' ≡ contents l)
    × (l'.iterators ≡ l.iterators)

pub list_resize-Resized :
    (h : Heap) (n : ℕ) (l : ValueList)
    → l.size ≤ n
    → l.size ≤ length l.list
    → Resized h n l (list_resize h n l)
unfolding list_resize
list_resize-Resized h n l fits inside = elim (Bool-cases (n == 0)) [
  | inl b ↦ rw b kept
  | inr b ↦ elim (Bool-cases (h.grants n)) [ inl g ↦ rw (b, g) kept | inr g ↦ rw (b, g) g ]
]
  where
    kept :
        (length (take n l.list ++ h.fresh (n - length l.list)) ≡ n)
        × (n ≡ n)
        × (l.size ≡ l.size)
        × (take l.size (take n l.list ++ h.fresh (n - length l.list)) ≡ take l.size l.list)
        × (l.iterators ≡ l.iterators)
    kept = (
      omega (
        arith,
        length-append (take n l.list) (h.fresh (n - length l.list)),
        h.fresh_length (n - length l.list),
        length-take-sub n l.list,
      ),
      refl,
      refl,
      take-append_le l.size (take n l.list) (h.fresh (n - length l.list))
            (length-take_ge l.size n l.list fits inside)
          ∙ take-take l.size n l.list fits,
      refl,
    )

pub memmove_lem :
    (xs : List Value) (dst src n : ℕ)
    → dst + n ≤ length xs
    → src + n ≤ length xs
    → memmove xs dst src n ≡ some (moved dst src n xs)
unfolding memmove
memmove_lem xs dst src n d s =
    rw (le→leb (dst + n) (length xs) d, le→leb (src + n) (length xs) s) refl
