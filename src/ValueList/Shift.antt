-- ===== src/ValueList/Shift.antt =====
-- The cells of an array after a value is taken out of its place and put in another.
use xmms2remote.Prelude.{
  ℕ, zero, suc, ◌+◌, ◌-◌, ◌≤◌, ◌<◌, ◌≡◌, refl, sym, ap, ap₂, ◌∙◌, List, [], ◌∷◌, ◌++◌, append_assoc,
  length, set, take, drop, length-append, length-take, length-drop, take-take, take-append_le,
  take-append_at, drop-append_at, drop-append_le, arith,
}
use xmms2remote.ValueList.Cells.{insert_at, remove_at, moved, set_lem, length-moved, drop-take}

module _ {ℓ} {A : Type ℓ} where
  pub set-take : (n p : ℕ) (xs : List A) (v : A) → take n (set xs p v) ≡ set (take n xs) p v
  set-take zero p xs v = refl
  set-take (suc n) p [] v = refl
  set-take (suc n) zero (x ∷ xs) v = refl
  set-take (suc n) (suc p) (x ∷ xs) v = ap (◌∷◌ x) (set-take n p xs v)

  take-append_ge :
      (n : ℕ) (xs ys : List A) → length xs ≤ n → take n (xs ++ ys) ≡ xs ++ take (n - length xs) ys
  take-append_ge n [] ys le = ap (λ k. take k ys) (omega arith)
  take-append_ge zero (x ∷ xs) ys le = absurd (omega arith)
  take-append_ge (suc n) (x ∷ xs) ys le =
      let e : suc n - suc (length xs) ≡ n - length xs = omega arith in
      rw e (ap (◌∷◌ x) (take-append_ge n xs ys (omega arith)))

  drop-append_ge :
      (n : ℕ) (xs ys : List A) → length xs ≤ n → drop n (xs ++ ys) ≡ drop (n - length xs) ys
  drop-append_ge n [] ys le = ap (λ k. drop k ys) (omega arith)
  drop-append_ge zero (x ∷ xs) ys le = absurd (omega arith)
  drop-append_ge (suc n) (x ∷ xs) ys le =
      let e : suc n - suc (length xs) ≡ n - length xs = omega arith in
      rw e (drop-append_ge n xs ys (omega arith))

  drop-nil : (n : ℕ) → drop {A = A} n [] ≡ []
  drop-nil zero = refl
  drop-nil (suc n) = refl

  pub drop-drop : (i n : ℕ) (xs : List A) → drop i (drop n xs) ≡ drop (n + i) xs
  drop-drop i zero xs = ap (λ k. drop k xs) (omega arith)
  drop-drop i (suc n) [] = rw (drop-nil i, drop-nil (suc n + i)) refl
  drop-drop i (suc n) (x ∷ xs) =
      let e : suc n + i ≡ suc (n + i) = omega arith in rw e (drop-drop i n xs)

  -- The first `n` cells after a store at `i`.
  stored_at :
      (n i : ℕ) (xs : List A) (v : A)
      → i < n
      → n ≤ length xs
      → take n (set xs i v) ≡ take i xs ++ v ∷ take (n - suc i) (drop (suc i) xs)
  stored_at n i xs v lt le =
      set-take n i xs v
      ∙ set_lem (take n xs) i v (omega (arith, length-take n xs le))
      ∙ ap₂ (λ a b. a ++ v ∷ b) (take-take i n xs (omega arith)) (drop-take (suc i) n xs)

  module _ (xs : List A) (old new n : ℕ) (v : A) (inside : n ≤ length xs) (from : old < n)
      (to : new < n) where
    abbrev rest : List A
    rest = take (n - (old + 1)) (drop (old + 1) xs)

    removed_lem : remove_at old (take n xs) ≡ take old xs ++ rest
    removed_lem = ap₂ ◌++◌ (take-take old n xs (omega arith)) (drop-take (old + 1) n xs)

    length-front : length (take old xs) ≡ old
    length-front = length-take old xs (omega arith)

    -- Moving a value back.
    pub moved_back :
        new ≤ old
        → take n (set (moved (new + 1) new (old - new) xs) new v)
          ≡ insert_at new v (remove_at old (take n xs))
    moved_back le =
        stored_at n new cells v to
          (omega (arith, length-moved (new + 1) new (old - new) xs (omega arith) (omega arith)))
        ∙ ap₂ (λ a b. a ++ v ∷ b) front back
      where
        part : List A
        part = take (old - new) (drop new xs)

        tail : List A
        tail = drop ((new + 1) + (old - new)) xs

        cells : List A
        cells = take (new + 1) xs ++ (part ++ tail)

        length-part : length part ≡ old - new
        length-part = length-take (old - new) (drop new xs) (omega (arith, length-drop new xs))

        front : take new cells ≡ take new (remove_at old (take n xs))
        front =
            take-append_le new (take (new + 1) xs) (part ++ tail)
              (omega (arith, length-take (new + 1) xs (omega arith)))
            ∙ take-take new (new + 1) xs (omega arith)
            ∙ sym (
                ap (take new) removed_lem
                ∙ take-append_le new (take old xs) rest (omega (arith, length-front))
                ∙ take-take new old xs le)

        behind : take (n - suc new) (part ++ tail) ≡ part ++ rest
        behind =
            take-append_ge (n - suc new) part tail (omega (arith, length-part))
            ∙ ap₂ (λ i j. part ++ take i (drop j xs)) (omega (arith, length-part)) (omega arith)

        back : take (n - suc new) (drop (suc new) cells) ≡ drop new (remove_at old (take n xs))
        back =
            ap (take (n - suc new)) (
              drop-append_at (suc new) (take (new + 1) xs) (part ++ tail)
                (omega (arith, length-take (new + 1) xs (omega arith))))
            ∙ behind
            ∙ sym (
                ap (drop new) removed_lem
                ∙ drop-append_le new (take old xs) rest (omega (arith, length-front))
                ∙ ap (λ k. k ++ rest) (drop-take new old xs))

    -- Moving a value forth.
    pub moved_forth :
        old < new
        → take n (set (moved old (old + 1) (new - old) xs) new v)
          ≡ insert_at new v (remove_at old (take n xs))
    moved_forth lt =
        stored_at n new cells v to
          (omega (arith, length-moved old (old + 1) (new - old) xs (omega arith) (omega arith)))
        ∙ ap₂ (λ a b. a ++ v ∷ b) front back
      where
        part : List A
        part = take (new - old) (drop (old + 1) xs)

        tail : List A
        tail = drop (old + (new - old)) xs

        cells : List A
        cells = take old xs ++ (part ++ tail)

        length-both : length (take old xs ++ part) ≡ new
        length-both = omega (
          arith,
          length-append (take old xs) part,
          length-front,
          length-take (new - old) (drop (old + 1) xs) (omega (arith, length-drop (old + 1) xs)),
        )

        together : cells ≡ (take old xs ++ part) ++ tail
        together = sym (append_assoc (take old xs) part tail)

        short : take (new - old) rest ≡ part
        short = take-take (new - old) (n - (old + 1)) (drop (old + 1) xs) (omega arith)

        front : take new cells ≡ take new (remove_at old (take n xs))
        front =
            ap (take new) together
            ∙ take-append_at new (take old xs ++ part) tail (sym length-both)
            ∙ sym (
                ap (take new) removed_lem
                ∙ take-append_ge new (take old xs) rest (omega (arith, length-front))
                ∙ ap (λ k. take old xs ++ take (new - k) rest) length-front
                ∙ ap (◌++◌ (take old xs)) short)

        beyond : drop (suc new) cells ≡ drop (suc new) xs
        beyond =
            let e : (old + (new - old)) + (suc new - length (take old xs ++ part)) ≡ suc new =
              omega (arith, length-both) in
            ap (drop (suc new)) together
            ∙ drop-append_ge (suc new) (take old xs ++ part) tail (omega (arith, length-both))
            ∙ drop-drop (suc new - length (take old xs ++ part)) (old + (new - old)) xs
            ∙ ap (λ k. drop k xs) e

        back : take (n - suc new) (drop (suc new) cells) ≡ drop new (remove_at old (take n xs))
        back =
            let e : (n - (old + 1)) - (new - old) ≡ n - suc new = omega arith in
            let e' : (old + 1) + (new - old) ≡ suc new = omega arith in
            ap (take (n - suc new)) beyond
            ∙ sym (
                ap (drop new) removed_lem
                ∙ drop-append_ge new (take old xs) rest (omega (arith, length-front))
                ∙ ap (λ k. drop (new - k) rest) length-front
                ∙ drop-take (new - old) (n - (old + 1)) (drop (old + 1) xs)
                ∙ ap (take ((n - (old + 1)) - (new - old))) (drop-drop (new - old) (old + 1) xs)
                ∙ ap₂ (λ i j. take i (drop j xs)) e e')
