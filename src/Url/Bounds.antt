-- ===== src/Url/Bounds.antt =====
-- The room that is made for an encoded URL.
use xmms2remote.Prelude.{
  ℕ, ◌+◌, ◌*◌, ◌≤◌, ◌<◌, ◌≡◌, refl, inl, inr, List, [], ◌∷◌, ◌++◌, All, Bool, some, true, false,
  ◌==◌, lt→ltb, le→ltb, length, Bool-cases, length-append, arith,
}
use xmms2remote.Value.{Text, Value, Fields, end, field}
use xmms2remote.Url.{
  good_char, encode_char, encode_chars, encoded, overflow, in_buffer, write, argument_text,
  argument_room, extra, arguments, encode_url, old_extra, old_arguments, encode_url_old,
}

length-encode_char : (c : ℕ) → length (encode_char c) ≤ 3
unfolding encode_char
length-encode_char c = elim (Bool-cases (good_char c)) [
  | inl g ↦ rw (encode_char, g) (omega arith)
  | inr g ↦ elim (Bool-cases (c == b' ')) [
    | inl b ↦ rw (encode_char, g, b) (omega arith)
    | inr b ↦ rw (encode_char, g, b) (omega arith)
  ]
]

pub length-encode_chars : (s : Text) → length (encode_chars s) ≤ length s * 3
unfolding encode_chars
length-encode_chars [] = omega arith
length-encode_chars (c ∷ s) = omega (
  arith,
  length-append (encode_char c) (encode_chars s),
  length-encode_char c,
  length-encode_chars s,
)

pub in_buffer-encoded : (size : ℕ) (s : Text) → length s < size → in_buffer size s ≡ encoded s
unfolding in_buffer
in_buffer-encoded size s lt = rw (lt→ltb (length s) size lt) refl

length-old_arguments :
    (first : Bool) (args : List Text) → length (old_arguments first args) ≤ old_extra args
unfolding old_arguments old_extra
length-old_arguments first [] = omega arith
length-old_arguments first (a ∷ args) =
    omega (arith, length-append a (old_arguments false args), length-old_arguments false args)

-- The arguments that the function expects: strings, and keys without a value.
abbrev pub TextOrNone : Value → Type 0
TextOrNone (Value.string s) = Unit
TextOrNone Value.nothing = Unit
TextOrNone v = ⊥

abbrev pub AllTexts : Fields → Type 0
AllTexts end = Unit
AllTexts (field key v fs) = TextOrNone v × AllTexts fs

length-argument :
    (key : Text) (v : Value)
    → TextOrNone v
    → 1 + (length key + length (argument_text v)) ≤ argument_room key v
unfolding argument_text argument_room
length-argument key Value.nothing t = omega arith
length-argument key (Value.error s) t = elim t [ ]
length-argument key (Value.int n) t = elim t [ ]
length-argument key (Value.string s) t = omega arith
length-argument key (Value.coll c) t = elim t [ ]
length-argument key (Value.bin d) t = elim t [ ]
length-argument key (Value.list xs) t = elim t [ ]
length-argument key (Value.dict fs) t = elim t [ ]

length-arguments :
    (first : Bool) (fs : Fields) → AllTexts fs → length (arguments first fs) ≤ extra fs
unfolding arguments extra
length-arguments first end t = omega arith
length-arguments first (field key v fs) (t, ts) = omega (
  arith,
  length-append key (argument_text v ++ arguments false fs),
  length-append (argument_text v) (arguments false fs),
  length-argument key v t,
  length-arguments false fs ts,
)

-- A URL with arguments, each of them a string or none, is encoded without a write past the end of the
-- buffer, whatever bytes it has: its bytes one by one, and the arguments behind them.
pub encode_url_fits :
    (url : Text) (fs : Fields)
    → AllTexts fs
    → encode_url true url (some (Value.dict fs)) ≡ encoded (encode_chars url ++ arguments true fs)
unfolding encode_url write
encode_url_fits url fs t =
    in_buffer-encoded (length url * 3 + 1 + extra fs) (encode_chars url ++ arguments true fs) (
      omega (
        arith,
        length-append (encode_chars url) (arguments true fs),
        length-encode_chars url,
        length-arguments true fs t,
      ))

-- The same of the older function, whose arguments are all strings.
pub encode_url_old_fits :
    (url : Text) (args : List Text)
    → encode_url_old true url args ≡ encoded (encode_chars url ++ old_arguments true args)
unfolding encode_url_old write
encode_url_old_fits url args =
    in_buffer-encoded (length url * 3 + 1 + old_extra args)
      (encode_chars url ++ old_arguments true args)
      (omega (
        arith,
        length-append (encode_chars url) (old_arguments true args),
        length-encode_chars url,
        length-old_arguments true args,
      ))

-- Bytes that are written as three.
abbrev pub AllEscaped : Text → Type 0
AllEscaped = All (λ c. (good_char c ≡ false) × ((c == b' ') ≡ false))

length-encode_chars_escaped : (s : Text) → AllEscaped s → length (encode_chars s) ≡ length s * 3
unfolding encode_chars encode_char
length-encode_chars_escaped [] a = omega arith
length-encode_chars_escaped (c ∷ s) ((g, b), a) =
    rw (encode_chars, encode_char, g, b) (omega (arith, length-encode_chars_escaped s a))

-- A URL of which every byte is escaped, with an integer as its only argument, is written past the end
-- of the buffer: the key is written, but no room was made for it.
pub encode_url_overflow :
    (url key : Text) (n : ℕ)
    → AllEscaped url
    → encode_url true url (some (Value.dict (field key (Value.int n) end))) ≡ overflow
unfolding encode_url write in_buffer extra argument_room arguments argument_text
encode_url_overflow url key n a =
    let written = encode_chars url ++ b'?' ∷ (key ++ []) in
    let size = length url * 3 + 1 + (0 + 0) in
    let past : size ≤ length written = omega (
      arith,
      length-append (encode_chars url) (b'?' ∷ (key ++ [])),
      length-encode_chars_escaped url a,
    ) in
    rw (le→ltb (length written) size past) refl
