-- ===== src/CollParser/Number/Digits.antt =====
-- Printed numbers are read back, and how many digits they have.
use xmms2remote.Prelude.{
  ℕ, zero, suc, ◌+◌, ◌-◌, ◌*◌, ◌/◌, ◌%◌, ◌≤◌, ◌<◌, ◌≡◌, refl, inl, inr, true, false, [], ◌∷◌, ◌++◌,
  All, length, ltb, ◌==◌, Bool-cases, arith, ltb→lt, ltb→le, lt→ltb, le→ltb, length-append, pos,
}
use xmms2remote.Value.{Text}
use xmms2remote.CollParser.Number.{
  int_max, is_space, is_digit, read_digits, read_signed, read_sign, skip_whitespace, strtol,
  show_digits, show,
}

-- A printed number begins with a digit and is read back.
AllDigits : Text → Type 0
AllDigits = All (λ c. is_digit c ≡ true)

abbrev number_value : ℕ → Text → ℕ
number_value n [] = n
number_value n (c ∷ s) = number_value (n * 10 + (c - b'0')) s

number_value-append :
    (n : ℕ) (s t : Text) → number_value n (s ++ t) ≡ number_value (number_value n s) t
number_value-append n [] t = refl
number_value-append n (c ∷ s) t = number_value-append (n * 10 + (c - b'0')) s t

digit_lem : (d : ℕ) → d < 10 → is_digit (b'0' + d) ≡ true
digit_lem d lt = ground arith

All-append : (s t : Text) → AllDigits s → AllDigits t → AllDigits (s ++ t)
unfolding AllDigits
All-append [] t h k = k
All-append (c ∷ s) t (d, h) k = (d, All-append s t h k)

show_digits-AllDigits : (f n : ℕ) → AllDigits (show_digits f n)
unfolding AllDigits show_digits
show_digits-AllDigits zero n = tt
show_digits-AllDigits (suc f) n = elim (Bool-cases (ltb n 10)) [
  | inl b ↦ rw b (digit_lem n (ltb→lt n 10 b), tt)
  | inr b ↦ rw b (
      All-append (show_digits f (n / 10)) ((b'0' + n % 10) ∷ []) (show_digits-AllDigits f (n / 10))
        (digit_lem (n % 10) (omega arith), tt))
]

show_digits_value : (f n : ℕ) → n < f → number_value 0 (show_digits f n) ≡ n
unfolding show_digits
show_digits_value zero n lt = absurd (omega arith)
show_digits_value (suc f) n lt = elim (Bool-cases (ltb n 10)) [
  | inl b ↦ rw b (omega arith)
  | inr b ↦
      rw
        (
          b,
          number_value-append 0 (show_digits f (n / 10)) ((b'0' + n % 10) ∷ []),
          show_digits_value f (n / 10) (omega (arith, ltb→le n 10 b)),
        )
        (omega arith)
]

read_digits_lem : (n : ℕ) (s : Text) → AllDigits s → read_digits n s ≡ (number_value n s, [])
unfolding read_digits AllDigits
read_digits_lem n [] h = refl
read_digits_lem n (c ∷ s) (d, h) = rw (d, read_digits_lem (n * 10 + (c - b'0')) s h) refl

digit-ne :
    (c : ℕ)
    → is_digit c ≡ true
    → (is_space c ≡ false) × ((c == b'-') ≡ false) × ((c == b'+') ≡ false)
digit-ne c d = (ground arith, ground arith, ground arith)

strtol_lem :
    (c : ℕ) (s : Text)
    → AllDigits (c ∷ s)
    → number_value 0 (c ∷ s) ≤ int_max
    → strtol (c ∷ s) ≡ (pos (number_value 0 (c ∷ s)), [])
unfolding strtol skip_whitespace read_sign read_signed AllDigits
strtol_lem c s h le =
    let (space, minus, plus) = digit-ne c h.0 in
    rw
      (
        space,
        minus,
        plus,
        read_digits_lem 0 (c ∷ s) h,
        h.0,
        le→ltb int_max (number_value 0 (c ∷ s)) le,
      )
      refl

strtol-digits :
    (s : Text) (n : ℕ)
    → AllDigits s
    → 0 < length s
    → number_value 0 s ≡ n
    → n ≤ int_max
    → strtol s ≡ (pos n, [])
strtol-digits [] n h some_digit e le = absurd (omega arith)
strtol-digits (c ∷ s) n h some_digit e le = rw (← e) (strtol_lem c s h (omega (arith, e)))

pub length-show_digits_pos : (f n : ℕ) → 0 < length (show_digits (suc f) n)
unfolding show_digits
length-show_digits_pos f n = elim (Bool-cases (ltb n 10)) [
  | inl b ↦ rw b (omega arith)
  | inr b ↦ rw b (omega (arith, length-append (show_digits f (n / 10)) ((b'0' + n % 10) ∷ [])))
]

pub strtol-show : (n : ℕ) → n ≤ int_max → strtol (show n) ≡ (pos n, [])
unfolding show
strtol-show n le =
    strtol-digits (show n) n (show_digits-AllDigits (suc n) n) (length-show_digits_pos n n)
      (show_digits_value (suc n) n (omega arith)) le

-- More fuel changes nothing.
show_digits_fuel : (f g n : ℕ) → n < f → n < g → show_digits f n ≡ show_digits g n
unfolding show_digits
show_digits_fuel zero g n lt lt' = absurd (omega arith)
show_digits_fuel (suc f) zero n lt lt' = absurd (omega arith)
show_digits_fuel (suc f) (suc g) n lt lt' = elim (Bool-cases (ltb n 10)) [
  | inl b ↦ rw b refl
  | inr b ↦
      rw
        (
          b,
          show_digits_fuel f g (n / 10) (omega (arith, ltb→le n 10 b))
              (omega (arith, ltb→le n 10 b)),
        )
        refl
]

pub show_last : (n : ℕ) → 10 ≤ n → show n ≡ show (n / 10) ++ (b'0' + n % 10) ∷ []
unfolding show show_digits
show_last n le =
    rw (le→ltb n 10 le, show_digits_fuel n (suc (n / 10)) (n / 10) (omega arith) (omega arith)) refl

length-show_digits_mono : (f a b : ℕ) → a ≤ b → length (show_digits f a) ≤ length (show_digits f b)
unfolding show_digits
length-show_digits_mono zero a b le = omega arith
length-show_digits_mono (suc f) a b le = elim (Bool-cases (ltb b 10)) [
  | inl small ↦ rw (small, lt→ltb a 10 (omega (arith, ltb→lt b 10 small))) (omega arith)
  | inr big ↦ elim (Bool-cases (ltb a 10)) [
    | inl small ↦
        rw (big, small)
          (omega (arith, length-append (show_digits f (b / 10)) ((b'0' + b % 10) ∷ [])))
    | inr big' ↦
        rw (big, big')
          (omega (
            arith,
            length-append (show_digits f (b / 10)) ((b'0' + b % 10) ∷ []),
            length-append (show_digits f (a / 10)) ((b'0' + a % 10) ∷ []),
            length-show_digits_mono f (a / 10) (b / 10) (omega arith),
          ))
  ]
]

pub length-show_mono : (a b : ℕ) → a ≤ b → length (show a) ≤ length (show b)
unfolding show
length-show_mono a b le =
    rw (show_digits_fuel (suc a) (suc b) a (omega arith) (omega arith))
      (length-show_digits_mono (suc b) a b le)
