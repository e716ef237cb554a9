-- ===== src/CollParser/Progress.antt =====
-- The tokenizer ends: each token takes at least one byte of the text.
use xmms2remote.Prelude.{
  ℕ, zero, suc, ◌+◌, ◌≤◌, ◌<◌, ◌≡◌, ◌≢◌, refl, sym, ap, subst, ◌⊎◌, Bool, true, false, ◌||◌, List,
  [], ◌∷◌, All, Option, none, some, length, ◌==◌, if◌then◌else◌, Bool-cases, Option-cases, arith,
  inl, inr,
}
use xmms2remote.Value.{Text}
use xmms2remote.CollParser.{
  TokenType, Token, Scan, integer, string, scan_quoted, scan_bare, ends_property, parse_token,
  quoted_or_bare, text_token, match_operator, operators, after_prefix, skip_spaces, tokenize,
  operator_or_text, with_token, after_token, classify, pattern,
}

length-after_prefix : (p s r : Text) → after_prefix p s ≡ some r → length s ≡ length p + length r
unfolding after_prefix
length-after_prefix [] s r e = ground arith
length-after_prefix (c ∷ p) [] r e = absurd (cc)
length-after_prefix (c ∷ p) (d ∷ s) r e = elim (Bool-cases (c == d)) [
  | inl b ↦ omega (arith, length-after_prefix p s r (rw (b, after_prefix) at e))
  | inr b ↦ absurd (cc (rw (b, after_prefix) at e))
]

-- A token that was found leaves less than there was.
abbrev Shorter : Text → Option (Token × Text) → Type 0
Shorter s none = Unit
Shorter s (some (k, next)) = length next < length s

match_operator-Shorter :
    (ops : List (Text × TokenType)) (s : Text)
    → All (λ op. 0 < length op.0) ops
    → Shorter s (match_operator ops s)
unfolding match_operator
match_operator-Shorter [] s h = tt
match_operator-Shorter ((p, t) ∷ ops) s (h, hs) = elim (Option-cases (after_prefix p s)) [
  | inl e ↦ rw (match_operator, e) (match_operator-Shorter ops s hs)
  | inr (r, e) ↦ rw (match_operator, e) (omega (arith, length-after_prefix p s r e))
]

match_operator-none :
    (ops : List (Text × TokenType)) (s : Text)
    → match_operator ops s ≡ none
    → All (λ op. after_prefix op.0 s ≡ none) ops
unfolding match_operator
match_operator-none [] s e = tt
match_operator-none ((p, t) ∷ ops) s e = elim (Option-cases (after_prefix p s)) [
  | inl n ↦ (n, match_operator-none ops s (rw (n, match_operator) at e))
  | inr (r, n) ↦ absurd (cc (rw (n, match_operator) at e))
]

after_prefix-none : (c d : ℕ) (s : Text) → after_prefix (c ∷ []) (d ∷ s) ≡ none → (c == d) ≡ false
unfolding after_prefix
after_prefix-none c d s e = elim (Bool-cases (c == d)) [
  | inl b ↦ absurd (cc (rw (b, after_prefix) at e))
  | inr b ↦ b
]

length-scan_quoted :
    (quote : ℕ) (t : TokenType) (escape : Bool) (s : Text)
    → length (scan_quoted quote t escape s).rest ≤ length s
unfolding scan_quoted
length-scan_quoted quote t escape [] = omega arith
length-scan_quoted quote t true (c ∷ s) = omega (arith, length-scan_quoted quote t false s)
length-scan_quoted quote t false (c ∷ s) = ground (
  arith,
  length-scan_quoted quote t true s,
  length-scan_quoted quote t false s,
  length-scan_quoted quote pattern false s,
)

length-scan_bare :
    (t : TokenType) (escape : Bool) (n : ℕ) (s : Text)
    → length (scan_bare t escape n s).rest ≤ length s
unfolding scan_bare
length-scan_bare t escape n [] = omega arith
length-scan_bare t true n (c ∷ s) =
    omega (arith, length-scan_bare (classify t true c) false (n + 1) s)
length-scan_bare t false n (c ∷ s) = ground (
  arith,
  length-scan_bare t true (n + 1) s,
  length-scan_bare (classify t false c) false (n + 1) s,
)

Shorter-le :
    (s t : Text) (r : Option (Token × Text)) → length s ≤ length t → Shorter s r → Shorter t r
Shorter-le s t none le h = tt
Shorter-le s t (some (k, next)) le h = omega (arith, h)

text_token-Shorter : (s : Text) (r : Scan) → length r.rest < length s → Shorter s (text_token r)
unfolding text_token
text_token-Shorter s r lt = elim (Bool-cases r.escape) [
  | inl b ↦
      subst
        (λ x.
          Shorter s
            (if x then none else some (record { type = r.type; string = r.strval }, r.rest)))
        (sym b) tt
  | inr b ↦
      subst
        (λ x.
          Shorter s
            (if x then none else some (record { type = r.type; string = r.strval }, r.rest)))
        (sym b) lt
]

-- Neither a space nor a byte before which a bare text stops.
abbrev Plain : ℕ → Type 0
Plain c = ((c == b' ') ≡ false) × (ends_property c ≡ false) × ((c == b'(' || c == b')') ≡ false)

bare_takes :
    (c : ℕ) (s : Text) → Plain c → length (scan_bare integer false 0 (c ∷ s)).rest < length (c ∷ s)
unfolding scan_bare
bare_takes c s (space, prop, paren) = elim (Bool-cases (c == b'\\')) [
  | inl b ↦ rw (scan_bare, space, b) (omega (arith, length-scan_bare integer true 1 s))
  | inr b ↦
      rw (scan_bare, space, b, prop, paren)
        (omega (arith, length-scan_bare (classify integer false c) false 1 s))
]

quoted_or_bare-Shorter : (c : ℕ) (s : Text) → Plain c → Shorter (c ∷ s) (quoted_or_bare (c ∷ s))
unfolding quoted_or_bare
quoted_or_bare-Shorter c s p = elim (Bool-cases (c == b'"' || c == b'\'')) [
  | inl b ↦
      rw (quoted_or_bare, b)
        (text_token-Shorter (c ∷ s) (scan_quoted c string false s)
          (omega (arith, length-scan_quoted c string false s)))
  | inr b ↦
      rw (quoted_or_bare, b)
        (text_token-Shorter (c ∷ s) (scan_bare integer false 0 (c ∷ s)) (bare_takes c s p))
]

-- What no operator begins with is plain, unless it is a space.
plain_lem :
    (c : ℕ) (s : Text) → (c == b' ') ≡ false → match_operator operators (c ∷ s) ≡ none → Plain c
plain_lem c s space e =
    let no_op = match_operator-none operators (c ∷ s) e in
    let open_paren = after_prefix-none b'(' c s no_op.0 in
    let close_paren = after_prefix-none b')' c s no_op.1.0 in
    let colon = after_prefix-none b':' c s no_op.1.1.1.1.0 in
    let tilde = after_prefix-none b'~' c s no_op.1.1.1.1.1.0 in
    let less = after_prefix-none b'<' c s no_op.1.1.1.1.1.1.1.1.0 in
    let greater = after_prefix-none b'>' c s no_op.1.1.1.1.1.1.1.1.1.0 in
    (space, ground arith, ground arith)

no_space :
    (s : Text)
    → (skip_spaces s ≡ [])
      ⊎ ((c : ℕ) × (t : Text) × (skip_spaces s ≡ c ∷ t) × ((c == b' ') ≡ false))
unfolding skip_spaces
no_space [] = inl refl
no_space (c ∷ s) = elim (Bool-cases (c == b' ')) [
  | inl b ↦ rw (skip_spaces, b) (no_space s)
  | inr b ↦ inr (c, s, rw (skip_spaces, b) refl, b)
]

length-skip_spaces : (s : Text) → length (skip_spaces s) ≤ length s
unfolding skip_spaces
length-skip_spaces [] = omega arith
length-skip_spaces (c ∷ s) = ground (arith, length-skip_spaces s)

operator_or_text-Shorter :
    (c : ℕ) (t : Text) → (c == b' ') ≡ false → Shorter (c ∷ t) (operator_or_text (c ∷ t))
unfolding operator_or_text
operator_or_text-Shorter c t space = elim (Option-cases (match_operator operators (c ∷ t))) [
  | inl none_is ↦
      rw (operator_or_text, none_is) (quoted_or_bare-Shorter c t (plain_lem c t space none_is))
  | inr (r, found) ↦
      rw (operator_or_text, found)
        (subst (Shorter (c ∷ t)) found (match_operator-Shorter operators (c ∷ t) (omega arith)))
]

nothing_left : operator_or_text [] ≡ none
unfolding operator_or_text match_operator quoted_or_bare after_prefix
nothing_left = refl

parse_token-Shorter : (s : Text) → Shorter s (parse_token s)
unfolding parse_token
parse_token-Shorter s = elim (no_space s) [
  | inl e ↦ rw (parse_token, e, nothing_left) tt
  | inr (c, t, e, space) ↦
      rw (parse_token, e)
        (Shorter-le (c ∷ t) s (operator_or_text (c ∷ t))
          (omega (arith, length-skip_spaces s, ap length e)) (operator_or_text-Shorter c t space))
]

with_token_ends : (k : Token) (more : Option (List Token)) → more ≢ none → with_token k more ≢ none
unfolding with_token
with_token_ends k none h = absurd (h refl)
with_token_ends k (some ks) h = λ e. ground arith

after_token_ends :
    (again : Text → Option (List Token)) (s : Text) (r : Option (Token × Text))
    → Shorter s r
    → ((t : Text) → length t < length s → again t ≢ none)
    → after_token again r ≢ none
unfolding after_token
after_token_ends again s none lt h = λ e. cc e
after_token_ends again s (some (k, next)) lt h = with_token_ends k (again next) (h next lt)

-- With fuel above the length of the text, tokenizing ends.
pub tokenize_ends : (fuel : ℕ) (s : Text) → length s < fuel → tokenize fuel s ≢ none
unfolding tokenize
tokenize_ends zero s lt = absurd (omega arith)
tokenize_ends (suc fuel) [] lt = λ e. cc e
tokenize_ends (suc fuel) (c ∷ s) lt =
    after_token_ends (λ next. tokenize fuel next) (c ∷ s) (parse_token (c ∷ s))
      (parse_token-Shorter (c ∷ s)) (λ t shorter. tokenize_ends fuel t (omega arith))

-- There are no more tokens than bytes.
abbrev Few : ℕ → Option (List Token) → Type 0
Few n none = Unit
Few n (some ks) = length ks ≤ n

with_token-Few :
    (n : ℕ) (k : Token) (more : Option (List Token)) → Few n more → Few (suc n) (with_token k more)
unfolding with_token
with_token-Few n k none h = ground arith
with_token-Few n k (some ks) h = ground arith

after_token-Few :
    (n : ℕ) (s : Text) (again : Text → Option (List Token)) (r : Option (Token × Text))
    → length s ≤ suc n
    → Shorter s r
    → ((t : Text) → length t ≤ n → Few n (again t))
    → Few (suc n) (after_token again r)
unfolding after_token
after_token-Few n s again none le lt h = omega arith
after_token-Few n s again (some (k, next)) le lt h =
    with_token-Few n k (again next) (h next (omega arith))

tokenize-Few : (fuel n : ℕ) (s : Text) → length s ≤ n → Few n (tokenize fuel s)
unfolding tokenize
tokenize-Few zero n s le = tt
tokenize-Few (suc fuel) n [] le = omega arith
tokenize-Few (suc fuel) zero (c ∷ s) le = absurd (omega arith)
tokenize-Few (suc fuel) (suc n) (c ∷ s) le =
    after_token-Few n (c ∷ s) (λ next. tokenize fuel next) (parse_token (c ∷ s)) le
      (parse_token-Shorter (c ∷ s)) (λ t le'. tokenize-Few fuel n t le')

pub length-tokenize :
    (fuel : ℕ) (s : Text) (ks : List Token) → tokenize fuel s ≡ some ks → length ks ≤ length s
length-tokenize fuel s ks e =
    subst (Few (length s)) e (tokenize-Few fuel (length s) s (omega arith))
