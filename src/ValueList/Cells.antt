-- ===== src/ValueList/Cells.antt =====
-- The cells of an array after a memmove and a store: the lemmas behind insert and remove.
use xmms2remote.Prelude.{
  ℕ, zero, suc, ◌+◌, ◌-◌, ◌≤◌, ◌<◌, ◌≡◌, refl, sym, ap, ◌∙◌, List, [], ◌∷◌, ◌++◌, append_assoc,
  length, set, take, drop, length-append, length-take, length-drop, take-nil, take-take,
  take-append_le, take-append_at, drop-append_at, arith,
}

module _ {ℓ} {A : Type ℓ} where
  -- What insertion and removal at a position mean for a list.
  abbrev pub insert_at : ℕ → A → List A → List A
  insert_at p v xs = take p xs ++ v ∷ drop p xs

  abbrev pub remove_at : ℕ → List A → List A
  remove_at p xs = take p xs ++ drop (p + 1) xs

  -- The cells after `n` cells from `src` on were moved to `dst`.
  abbrev pub moved : ℕ → ℕ → ℕ → List A → List A
  moved dst src n xs = take dst xs ++ (take n (drop src xs) ++ drop (dst + n) xs)

  pub set_lem :
      (xs : List A) (i : ℕ) (v : A) → i < length xs → set xs i v ≡ take i xs ++ v ∷ drop (suc i) xs
  set_lem [] i v h = absurd (omega arith)
  set_lem (x ∷ xs) zero v h = refl
  set_lem (x ∷ xs) (suc i) v h = ap (◌∷◌ x) (set_lem xs i v (omega arith))

  pub length-set : (xs : List A) (i : ℕ) (v : A) → length (set xs i v) ≡ length xs
  length-set [] i v = refl
  length-set (x ∷ xs) zero v = refl
  length-set (x ∷ xs) (suc i) v = ap suc (length-set xs i v)

  pub drop-take : (p n : ℕ) (xs : List A) → drop p (take n xs) ≡ take (n - p) (drop p xs)
  drop-take zero n xs = ap (λ k. take k xs) (omega arith)
  drop-take (suc p) zero xs = let e : 0 - suc p ≡ 0 = omega arith in rw e refl
  drop-take (suc p) (suc n) [] = rw (take-nil (suc n - suc p)) refl
  drop-take (suc p) (suc n) (x ∷ xs) =
      let e : suc n - suc p ≡ n - p = omega arith in rw e (drop-take p n xs)

  pub length-moved :
      (dst src n : ℕ) (xs : List A)
      → dst + n ≤ length xs
      → src + n ≤ length xs
      → length (moved dst src n xs) ≡ length xs
  length-moved dst src n xs d s = omega (
    arith,
    length-append (take dst xs) (take n (drop src xs) ++ drop (dst + n) xs),
    length-append (take n (drop src xs)) (drop (dst + n) xs),
    length-take dst xs (omega arith),
    length-take n (drop src xs) (omega (arith, length-drop src xs)),
    length-drop src xs,
    length-drop (dst + n) xs,
  )

  -- A store at the end of the first `n` cells.
  pub take-set :
      (xs : List A) (n : ℕ) (v : A)
      → n < length xs
      → take (n + 1) (set xs n v) ≡ take n xs ++ v ∷ []
  take-set [] n v h = absurd (omega arith)
  take-set (x ∷ xs) zero v h = refl
  take-set (x ∷ xs) (suc n) v h =
      let e : suc n + 1 ≡ suc (n + 1) = omega arith in
      rw e (ap (◌∷◌ x) (take-set xs n v (omega arith)))

  -- Opening a gap at `p` among the first `n` cells and storing a value there inserts it.
  pub open_gap :
      (xs : List A) (p n : ℕ) (v : A)
      → p ≤ n
      → n < length xs
      → take (n + 1) (set (moved (p + 1) p (n - p) xs) p v) ≡ insert_at p v (take n xs)
  open_gap xs p n v le lt =
      rw
        (
          set_lem cells p v
              (omega (arith, length-moved (p + 1) p (n - p) xs (omega arith) (omega arith))),
          front,
          back,
          take-take p n xs le,
          drop-take p n xs,
        )
        (ap (take (n + 1)) (sym (append_assoc (take p xs) (v ∷ part) rest))
          ∙ take-append_at (n + 1) (take p xs ++ v ∷ part) rest (
              omega (
                arith,
                length-append (take p xs) (v ∷ part),
                length-take p xs (omega arith),
                length-take (n - p) (drop p xs) (omega (arith, length-drop p xs)),
              )))
    where
      cells : List A
      cells = moved (p + 1) p (n - p) xs

      part : List A
      part = take (n - p) (drop p xs)

      rest : List A
      rest = drop ((p + 1) + (n - p)) xs

      front : take p cells ≡ take p xs
      front =
          take-append_le p (take (p + 1) xs) (part ++ rest)
            (omega (arith, length-take (p + 1) xs (omega arith)))
          ∙ take-take p (p + 1) xs (omega arith)

      back : drop (suc p) cells ≡ part ++ rest
      back =
          drop-append_at (suc p) (take (p + 1) xs) (part ++ rest)
            (omega (arith, length-take (p + 1) xs (omega arith)))

  -- Closing the gap that is left at `p` among the first `n + 1` cells removes the value.
  pub close_gap :
      (xs : List A) (p n : ℕ)
      → p ≤ n
      → n < length xs
      → take n (moved p (p + 1) (n - p) xs) ≡ remove_at p (take (n + 1) xs)
  close_gap xs p n le lt =
      let e : (n + 1) - (p + 1) ≡ n - p = omega arith in
      rw (take-take p (n + 1) xs (omega arith), drop-take (p + 1) (n + 1) xs, e)
        (ap (take n) (sym (append_assoc (take p xs) part rest))
          ∙ take-append_at n (take p xs ++ part) rest (
              omega (
                arith,
                length-append (take p xs) part,
                length-take p xs (omega arith),
                length-take (n - p) (drop (p + 1) xs) (omega (arith, length-drop (p + 1) xs)),
              )))
    where
      part : List A
      part = take (n - p) (drop (p + 1) xs)

      rest : List A
      rest = drop (p + (n - p)) xs
