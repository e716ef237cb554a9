-- ===== src/CollParser/Number/Sums.antt =====
-- What `string_intadd` gives for a printed number, and where it goes wrong.
use xmms2remote.Prelude.{
  ℕ, zero, suc, ◌+◌, ◌-◌, ◌/◌, ◌%◌, ◌^◌, ◌≤◌, ◌<◌, ◌≡◌, refl, sym, ap, subst, ◌∙◌, ◌⊎◌, inl, inr,
  [], ◌∷◌, none, some, length, take, ltb, Bool-cases, arith, ltb→lt, ltb→le, le→ltb, le→leb,
  length-append, take-append_at, take_all, ℤ, pos, negsuc, ◌+ℤ◌,
}
use xmms2remote.Value.{Text}
use xmms2remote.CollParser.Number.{
  int_max, strtol, show_digits, show, show_int, wrap, string_intadd,
}
use xmms2remote.CollParser.Number.Digits.{
  length-show_digits_pos, length-show_mono, show_last, strtol-show,
}

string_intadd_lem :
    (s : Text) (n d : ℤ)
    → strtol s ≡ (n, [])
    → string_intadd s d ≡ some (take (length s) (show_int (wrap (n +ℤ d))))
unfolding string_intadd
string_intadd_lem s n d e =
    subst
      (λ r.
        elim r.1 [ [] ↦ some (take (length s) (show_int (wrap (r.0 +ℤ d)))) | c ∷ t ↦ none ]
        ≡ some (take (length s) (show_int (wrap (n +ℤ d)))))
      (sym e) refl

up_lem : (n d : ℕ) → n + d ≤ int_max → show_int (wrap (pos n +ℤ pos d)) ≡ show (n + d)
unfolding wrap show_int ◌+ℤ◌
up_lem n d le =
    let e : (n + d) - (0 + 0) ≡ n + d = omega arith in
    rw (le→leb (0 + 0) (n + d) (omega arith), e, le→ltb int_max (n + d) le) refl

down_lem : (n : ℕ) → suc n ≤ int_max → show_int (wrap (pos (suc n) +ℤ negsuc 0)) ≡ show n
unfolding wrap show_int ◌+ℤ◌
down_lem n le =
    let e : (suc n + 0) - (0 + 1) ≡ n = omega arith in
    rw (le→leb (0 + 1) (suc n + 0) (omega arith), e, le→ltb int_max n (omega arith)) refl

-- A sum with more digits has two at least.
long_sum : (n : ℕ) → length (show n) < length (show (n + 1)) → 10 ≤ n + 1
unfolding show show_digits
long_sum n shorter = elim (Bool-cases (ltb (n + 1) 10)) [
  | inr b ↦ ltb→le (n + 1) 10 b
  | inl b ↦ absurd (omega (arith, rw (show, show_digits, b) at shorter, length-show_digits_pos n n))
]

-- The number after a printed one: its digits if they are as many, and without the last one if they
-- are one more (9 gives 1, 99 gives 10).
pub string_intadd_up :
    (n : ℕ)
    → n < 2 ^ 31 - 1
    → ((length (show (n + 1)) ≡ length (show n))
        × (string_intadd (show n) (pos 1) ≡ some (show (n + 1))))
      ⊎ ((length (show (n + 1)) ≡ length (show n) + 1)
          × (string_intadd (show n) (pos 1) ≡ some (show ((n + 1) / 10))))
string_intadd_up n lt = elim (Bool-cases (ltb (length (show n)) (length (show (n + 1))))) [
  | inr b ↦ inl (
    omega (
      arith,
      ltb→le (length (show n)) (length (show (n + 1))) b,
      length-show_mono n (n + 1) (omega arith),
    ),
    whole
        ∙ ap some (
            take_all (show (n + 1)) (length (show n))
              (ltb→le (length (show n)) (length (show (n + 1))) b)),
  )
  | inl b ↦
      let shorter = ltb→lt (length (show n)) (length (show (n + 1))) b in
      let two_digits = long_sum n shorter in
      let last = show_last (n + 1) two_digits in
      let one_more : length (show n) ≡ length (show ((n + 1) / 10)) = omega (
        arith,
        ap length last,
        length-append (show ((n + 1) / 10)) ((b'0' + (n + 1) % 10) ∷ []),
        length-show_mono ((n + 1) / 10) n (omega arith),
        shorter,
      ) in
      inr (
        omega (
          arith,
          ap length last,
          length-append (show ((n + 1) / 10)) ((b'0' + (n + 1) % 10) ∷ []),
          one_more,
        ),
        whole
            ∙ ap some (
                ap (take (length (show n))) last
                ∙ take-append_at (length (show n)) (show ((n + 1) / 10))
                    ((b'0' + (n + 1) % 10) ∷ []) one_more),
      )
]
  where
    whole : string_intadd (show n) (pos 1) ≡ some (take (length (show n)) (show (n + 1)))
    whole =
        string_intadd_lem (show n) (pos n) (pos 1) (strtol-show n (omega arith))
        ∙ ap some (ap (take (length (show n))) (up_lem n 1 (omega arith)))

-- The number before a printed one.
pub string_intadd_down :
    (n : ℕ) → 0 < n → n < 2 ^ 31 → string_intadd (show n) (negsuc 0) ≡ some (show (n - 1))
string_intadd_down zero pos_n lt = absurd (omega arith)
string_intadd_down (suc n) pos_n lt =
    string_intadd_lem (show (suc n)) (pos (suc n)) (negsuc 0) (strtol-show (suc n) (omega arith))
    ∙ ap some (
        ap (take (length (show (suc n)))) (down_lem n (omega arith))
        ∙ take_all (show n) (length (show (suc n))) (length-show_mono n (suc n) (omega arith))
        ∙ ap show (omega arith))
