-- ===== src/Url/RoundTrip.antt =====
-- What is encoded is decoded again.
use xmms2remote.Prelude.{
  ℕ, ◌+◌, ◌*◌, ◌/◌, ◌%◌, ◌<◌, ◌≡◌, refl, sym, ap, ◌∙◌, ==_iff, inl, inr, [], ◌∷◌, ◌++◌, All, none,
  some, true, false, ◌==◌, length, Bool-cases, arith,
}
use xmms2remote.Value.{Text, Value}
use xmms2remote.Url.Bounds.{in_buffer-encoded, length-encode_chars}
use xmms2remote.Url.{
  good_char, hex, hex_value, two_digits, encode_char, encode_chars, encoded, write, encode_url,
  verify_char, verify_url, decode_chars, decode_url,
}

hex_value-hex : (d : ℕ) → d < 16 → hex_value (hex d) ≡ some d
unfolding hex_value hex
hex_value-hex d lt = ground arith

verify_char-hex : (d : ℕ) → d < 16 → verify_char (hex d) ≡ true
unfolding verify_char good_char hex
verify_char-hex d lt = ground arith

good-ne : (c : ℕ) → good_char c ≡ true → ((c == b'+') ≡ false) × ((c == b'%') ≡ false)
unfolding good_char
good-ne c g = (ground arith, ground arith)

decode_chars-plain :
    (c : ℕ) (s t : Text)
    → (c == b'+') ≡ false
    → (c == b'%') ≡ false
    → decode_chars s ≡ some t
    → decode_chars (c ∷ s) ≡ some (c ∷ t)
unfolding decode_chars
decode_chars-plain c [] t p q e =
    rw (p, q) (ap (λ r. elim r [ none ↦ none | some s ↦ some (c ∷ s) ]) e)
decode_chars-plain c (a ∷ []) t p q e = rw (decode_chars, p, q, e) refl
decode_chars-plain c (a ∷ b ∷ s) t p q e = rw (decode_chars, p, q, e) refl

decode_chars-plus :
    (s t : Text) → decode_chars s ≡ some t → decode_chars (b'+' ∷ s) ≡ some (b' ' ∷ t)
unfolding decode_chars
decode_chars-plus [] t e = ap (λ r. elim r [ none ↦ none | some s ↦ some (b' ' ∷ s) ]) e
decode_chars-plus (a ∷ []) t e = rw (decode_chars, e) refl
decode_chars-plus (a ∷ b ∷ s) t e = rw (decode_chars, e) refl

decode_chars-hex :
    (c : ℕ) (s t : Text)
    → c < 256
    → decode_chars s ≡ some t
    → decode_chars (b'%' ∷ hex (c / 16) ∷ hex (c % 16) ∷ s) ≡ some (c ∷ t)
unfolding decode_chars two_digits
decode_chars-hex c s t lt e =
    let whole : c / 16 * 16 + c % 16 ≡ c = omega arith in
    rw
      (
        decode_chars,
        hex_value-hex (c % 16) (omega arith),
        two_digits,
        hex_value-hex (c / 16) (omega arith),
        e,
        whole,
      )
      refl

decode_chars-encode_char :
    (c : ℕ) (s t : Text)
    → c < 256
    → decode_chars s ≡ some t
    → decode_chars (encode_char c ++ s) ≡ some (c ∷ t)
unfolding encode_char
decode_chars-encode_char c s t lt e = elim (Bool-cases (good_char c)) [
  | inl g ↦ let (plus, percent) = good-ne c g in rw g (decode_chars-plain c s t plus percent e)
  | inr g ↦ elim (Bool-cases (c == b' ')) [
    | inl b ↦
        rw (g, b) (decode_chars-plus s t e ∙ ap (λ k. some (k ∷ t)) (sym ((==_iff c b' ').0 b)))
    | inr b ↦ rw (g, b) (decode_chars-hex c s t lt e)
  ]
]

decode_chars-encode_chars :
    (s : Text) → All (λ c. c < 256) s → decode_chars (encode_chars s) ≡ some s
unfolding encode_chars decode_chars
decode_chars-encode_chars [] a = refl
decode_chars-encode_chars (c ∷ s) (lt, a) =
    decode_chars-encode_char c (encode_chars s) s lt (decode_chars-encode_chars s a)

verify_url-encode_chars : (s : Text) → All (λ c. c < 256) s → verify_url (encode_chars s) ≡ true
unfolding encode_chars verify_url
verify_url-encode_chars [] a = refl
verify_url-encode_chars (c ∷ s) (lt, a) = elim (Bool-cases (good_char c)) [
  | inl g ↦
      rw (encode_chars, encode_char, g, verify_url, verify_char, g) (verify_url-encode_chars s a)
  | inr g ↦ elim (Bool-cases (c == b' ')) [
    | inl b ↦ rw (encode_chars, encode_char, g, b) (verify_url-encode_chars s a)
    | inr b ↦
        rw
          (
            encode_chars,
            encode_char,
            g,
            b,
            verify_url,
            verify_char-hex (c / 16) (omega arith),
            verify_char-hex (c % 16) (omega arith),
          )
          (verify_url-encode_chars s a)
  ]
]

-- Any bytes that are encoded as a URL without arguments fit in the buffer, are accepted as an encoded
-- URL, and are decoded to the same bytes.
pub decode_url-encode_url :
    (url : Text)
    → All (λ c. c < 256) url
    → (t : Text) × (encode_url true url none ≡ encoded t)
      × (verify_url t ≡ true)
      × (decode_url true (Value.string t) ≡ some (Value.bin url))
unfolding encode_url write decode_url
decode_url-encode_url url a = (
  encode_chars url,
  in_buffer-encoded (length url * 3 + 1) (encode_chars url)
      (omega (arith, length-encode_chars url)),
  verify_url-encode_chars url a,
  ap (λ r. elim r [ none ↦ none | some s ↦ some (Value.bin s) ]) (decode_chars-encode_chars url a),
)
