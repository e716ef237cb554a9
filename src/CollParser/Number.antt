-- ===== src/CollParser/Number.antt =====
-- xmmsclient/xmmsclient/collparser.c: `string_intadd`, with `strtol` and `snprintf ("%d")` of a
-- C library whose long has 32 bits.
pub mod Digits
pub mod Sums
use xmms2remote.Prelude.{
  ℕ, zero, suc, ◌+◌, ◌-◌, ◌*◌, ◌/◌, ◌%◌, ◌^◌, ◌≤◌, ◌<◌, ◌≡◌, refl, sym, ap, ◌∙◌, ◌⊎◌, inl, inr,
  Bool, true, false, not, ◌&&◌, ◌||◌, List, [], ◌∷◌, ◌++◌, All, Option, none, some, length, take,
  ltb, leb, ◌==◌, if◌then◌else◌, Bool-cases, arith, ltb→lt, ltb→le, lt→ltb, le→ltb, le→leb, leb→le,
  leb→gt, length-append, take-append_at, take_all, ℤ, pos, negsuc, ◌+ℤ◌, append-nil,
}
use xmms2remote.Value.{Text}

abbrev pub int_max : ℕ
int_max = 2 ^ 31 - 1

abbrev pub is_space : ℕ → Bool
is_space c = c == b' ' || (leb 9 c && leb c 13)

abbrev pub is_digit : ℕ → Bool
is_digit c = leb b'0' c && leb c b'9'

-- The digits at the front of a text, after a number read before them.
unfoldable pub read_digits : ℕ → Text → ℕ × Text
read_digits n [] = (n, [])
read_digits n (c ∷ s) =
    let more = read_digits (n * 10 + (c - b'0')) s in if is_digit c then more else (n, c ∷ s)

-- Digits after a sign, cut to the range of a long; `whole` is what is left if there is none.
unfoldable pub read_signed : Text → Bool → Text → ℤ × Text
unfolding read_digits
read_signed whole minus [] = (pos 0, whole)
read_signed whole minus (c ∷ s) =
    let (n, rest) = read_digits 0 (c ∷ s) in
    if not (is_digit c)
    then (pos 0, whole)
    else if not minus
    then (pos (if ltb int_max n then int_max else n), rest)
    else if n == 0
    then (pos 0, rest)
    else (negsuc (if ltb int_max (n - 1) then int_max else n - 1), rest)

unfoldable pub skip_whitespace : Text → Text
skip_whitespace [] = []
skip_whitespace (c ∷ s) = let rest = skip_whitespace s in if is_space c then rest else c ∷ s

unfoldable pub read_sign : Text → Text → ℤ × Text
unfolding read_signed
read_sign whole [] = (pos 0, whole)
read_sign whole (c ∷ s) =
    if c == b'-'
    then read_signed whole true s
    else if c == b'+'
    then read_signed whole false s
    else read_signed whole false (c ∷ s)

-- `strtol (s, &endptr, 10)`: the number, and what `endptr` points at.
unfoldable pub strtol : Text → ℤ × Text
unfolding skip_whitespace read_sign
strtol s = read_sign s (skip_whitespace s)

-- The decimal digits of a number, with fuel above it.
unfoldable pub show_digits : ℕ → ℕ → Text
show_digits zero n = []
show_digits (suc fuel) n =
    let more = show_digits fuel (n / 10) ++ (b'0' + n % 10) ∷ [] in
    if ltb n 10 then (b'0' + n) ∷ [] else more

unfoldable pub show : ℕ → Text
unfolding show_digits
show n = show_digits (suc n) n

-- `snprintf` of "%d".
unfoldable pub show_int : ℤ → Text
unfolding show
show_int (pos n) = show n
show_int (negsuc n) = b'-' ∷ show (suc n)

-- A sum of ints that is too large or too small wraps around.
unfoldable pub wrap : ℤ → ℤ
wrap (pos n) = if ltb int_max n then negsuc (2 ^ 32 - 1 - n) else pos n
wrap (negsuc n) = if ltb int_max n then pos (2 ^ 32 - 1 - n) else negsuc n

-- `string_intadd`: null if the text is no number. The result is printed into room for as many bytes
-- as the text has, and what is longer is cut.
unfoldable pub string_intadd : Text → ℤ → Option Text
unfolding strtol show_int wrap ◌+ℤ◌
string_intadd number delta =
    let (n, rest) = strtol number in
    elim rest [ [] ↦ some (take (length number) (show_int (wrap (n +ℤ delta)))) | c ∷ s ↦ none ]
