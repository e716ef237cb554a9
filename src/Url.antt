-- ===== src/Url.antt =====
-- Encoding and decoding of URLs: `_xmmsc_medialib_encode_url`, `_encode_url_old` and `_verify_url` of
-- xmmsclient/xmmsclient/medialib.c, and `xmmsv_decode_url` of xmmsclient/xmmstypes/value.c.
pub mod RoundTrip
pub mod Bounds
pub mod Parse
mod Tests
use xmms2remote.Prelude.{
  ℕ, zero, suc, ◌+◌, ◌-◌, ◌*◌, ◌/◌, ◌%◌, ltb, leb, ◌==◌, if◌then◌else◌, Bool, true, false, not,
  ◌&&◌, ◌||◌, List, [], ◌∷◌, ◌++◌, Option, none, some, length,
}
use xmms2remote.Value.{Text, Value, Fields, end, field}

-- `GOODCHAR`.
unfoldable pub good_char : ℕ → Bool
good_char c =
    (leb b'a' c && leb c b'z')
    || ((leb b'A' c && leb c b'Z')
        || ((leb b'0' c && leb c b'9')
            || (c == b':' || (c == b'/' || (c == b'-' || (c == b'.' || c == b'_'))))))

-- The table `hex`.
unfoldable pub hex : ℕ → ℕ
hex d = if ltb d 10 then b'0' + d else b'a' + (d - 10)

-- The body of the loop over the url. `(chr & 0xf0) >> 4` and `chr & 0x0f` of a byte are the quotient
-- and the remainder by 16.
unfoldable pub encode_char : ℕ → Text
unfolding good_char hex
encode_char c =
    if good_char c
    then c ∷ []
    else if c == b' '
    then b'+' ∷ []
    else b'%' ∷ hex (c / 16) ∷ hex (c % 16) ∷ []

unfoldable pub encode_chars : Text → Text
unfolding encode_char
encode_chars [] = []
encode_chars (c ∷ s) = encode_char c ++ encode_chars s

-- How a call ends: a text, a null pointer, or a write past the end of the buffer.
pub data Encoded : Type 0 where
  encoded : Text → Encoded
  null overflow : Encoded

-- What is written, and the NUL behind it, in a buffer of the given size.
unfoldable pub in_buffer : ℕ → Text → Encoded
in_buffer size s = if ltb (length s) size then encoded s else overflow

abbrev pub separator : Bool → ℕ
separator first = if first then b'?' else b'&'

-- `_xmmsc_medialib_encode_url_old`: the room for the arguments, and the arguments.
unfoldable pub old_extra : List Text → ℕ
old_extra [] = 0
old_extra (a ∷ args) = (length a + 2) + old_extra args

unfoldable pub old_arguments : Bool → List Text → Text
old_arguments first [] = []
old_arguments first (a ∷ args) = separator first ∷ (a ++ old_arguments false args)

-- `_sum_len_string_dict`, over the dict: nothing is counted for a value of another type.
unfoldable pub argument_room : Text → Value → ℕ
argument_room key (Value.string s) = length key + length s + 2
argument_room key Value.nothing = length key + 1
argument_room key v = 0

unfoldable pub extra : Fields → ℕ
unfolding argument_room
extra end = 0
extra (field key v fs) = argument_room key v + extra fs

-- What is written of a value: a string behind an equals sign.
unfoldable pub argument_text : Value → Text
argument_text (Value.string s) = b'=' ∷ s
argument_text v = []

unfoldable pub arguments : Bool → Fields → Text
unfolding argument_text
arguments first end = []
arguments first (field key v fs) =
    separator first ∷ (key ++ (argument_text v ++ arguments false fs))

-- Whether malloc grants the buffer.
module _ (granted : Bool) where
  unfoldable pub write : ℕ → Text → Encoded
  unfolding in_buffer
  write size s = if granted then in_buffer size s else null

  -- `_xmmsc_medialib_encode_url_old`.
  unfoldable pub encode_url_old : Text → List Text → Encoded
  unfolding write encode_chars old_extra old_arguments
  encode_url_old url args =
      write (length url * 3 + 1 + old_extra args) (encode_chars url ++ old_arguments true args)

  -- `_xmmsc_medialib_encode_url`; the arguments may be null, and a value that is no dict is refused.
  unfoldable pub encode_url : Text → Option Value → Encoded
  unfolding write encode_chars extra arguments
  encode_url url none = write (length url * 3 + 1) (encode_chars url)
  encode_url url (some (Value.dict fs)) =
      write (length url * 3 + 1 + extra fs) (encode_chars url ++ arguments true fs)
  encode_url url (some v) = null

-- `_xmmsc_medialib_verify_url`.
unfoldable pub verify_char : ℕ → Bool
unfolding good_char
verify_char c = good_char c || (c == b'+' || (c == b'%' || (c == b'?' || (c == b'=' || c == b'&'))))

unfoldable pub verify_url : Text → Bool
unfolding verify_char
verify_url [] = true
verify_url (c ∷ s) = verify_char c && verify_url s

-- A hexadecimal digit, and `isspace`.
unfoldable pub hex_value : ℕ → Option ℕ
hex_value c =
    if leb b'0' c && leb c b'9'
    then some (c - b'0')
    else if leb b'a' c && leb c b'f'
    then some (c - b'a' + 10)
    else if leb b'A' c && leb c b'F'
    then some (c - b'A' + 10)
    else none

abbrev pub is_blank : ℕ → Bool
is_blank c = c == b' ' || (leb 9 c && leb c 13)

-- `strtoul (ts, &t, 16)` on two bytes, as an unsigned char, if it reads both of them: two digits, or
-- one digit behind white space or a sign.
unfoldable pub two_digits : ℕ → Option ℕ → Option ℕ
two_digits a none = none
two_digits a (some low) = elim (hex_value a) [
  | some high ↦ some (high * 16 + low)
  | none ↦
      if is_blank a || a == b'+'
      then some low
      else if a == b'-'
      then some ((256 - low) % 256)
      else none
]

-- The loop of `xmmsv_decode_url`; `none` is the error.
abbrev decoded : ℕ → Option Text → Option Text
decoded c none = none
decoded c (some s) = some (c ∷ s)

abbrev escaped : Option ℕ → Option Text → Option Text
escaped none rest = none
escaped (some c) rest = decoded c rest

unfoldable pub decode_chars : Text → Option Text
unfolding hex_value two_digits
decode_chars [] = some []
decode_chars (c ∷ []) =
    if c == b'+' then some (b' ' ∷ []) else if c == b'%' then none else some (c ∷ [])
decode_chars (c ∷ a ∷ []) =
    let rest = decode_chars (a ∷ []) in
    if c == b'+' then decoded b' ' rest else if c == b'%' then none else decoded c rest
decode_chars (c ∷ a ∷ b ∷ s) =
    let rest = decode_chars (a ∷ b ∷ s) in
    let behind = decode_chars s in
    if c == b'+'
    then decoded b' ' rest
    else if c == b'%'
    then escaped (two_digits a (hex_value b)) behind
    else decoded c rest

-- `xmmsv_decode_url`: null for a value that is no string, or without memory (for the buffer or for
-- the value).
unfoldable pub decode_url : Bool → Value → Option Value
unfolding decode_chars
decode_url granted (Value.string s) = elim (decode_chars s) [
  | none ↦ none
  | some url ↦ if granted then some (Value.bin url) else none
]
decode_url granted v = none
