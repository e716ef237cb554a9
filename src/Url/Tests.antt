-- ===== src/Url/Tests.antt =====
-- Runs of the URL functions, and the theorems at inputs that meet their hypotheses.
use xmms2remote.Prelude.{◌≡◌, refl, [], ◌∷◌, ◌++◌, none, some, true}
use xmms2remote.Value.{Value, Fields, end, field}
use xmms2remote.Value.Text.{codes}
use xmms2remote.Url.{
  encoded, overflow, encode_url, decode_chars, encode_chars, arguments, good_char, hex_value,
  two_digits,
}
use xmms2remote.Url.Bounds.{encode_url_fits, encode_url_overflow}

encode_run : encode_url true (codes "a b%") none ≡ encoded (codes "a+b%25")
unfolding encode_url good_char
encode_run = refl

-- White space and signs are taken for digits.
decode_sign : decode_chars (codes "%-1% 5") ≡ some (255 ∷ 5 ∷ [])
unfolding decode_chars hex_value two_digits
decode_sign = refl

abbrev artist : Fields
artist = field (codes "artist") (Value.string (codes "x")) (field (codes "raw") Value.nothing end)

encode_url_fits_example :
    encode_url true (codes "a b") (some (Value.dict artist))
    ≡ encoded (encode_chars (codes "a b") ++ arguments true artist)
encode_url_fits_example = encode_url_fits (codes "a b") artist (tt, (tt, tt))

encode_url_overflow_example :
    encode_url true (codes "%%") (some (Value.dict (field (codes "id") (Value.int 7) end)))
    ≡ overflow
unfolding good_char
encode_url_overflow_example =
    encode_url_overflow (codes "%%") (codes "id") 7 ((refl, refl), ((refl, refl), tt))
