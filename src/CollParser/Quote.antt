-- ===== src/CollParser/Quote.antt =====
-- Writing a text so that the tokenizer reads it as one string token.
use xmms2remote.Prelude.{
  ℕ, ◌≡◌, refl, Bool, false, ◌||◌, [], ◌∷◌, ◌++◌, append_assoc, some, ◌==◌, if◌then◌else◌, arith,
}
use xmms2remote.Value.{Text}
use xmms2remote.CollParser.{
  string, scan_quoted, is_wildcard, parse_token, quoted_or_bare, text_token, match_operator,
  skip_spaces, operator_or_text,
}

abbrev is_special : ℕ → Bool
is_special c = c == b'"' || c == b'\\' || is_wildcard c

-- A backslash before each byte that would mean something.
unfoldable pub escape : Text → Text
escape [] = []
escape (c ∷ s) = if is_special c then b'\\' ∷ c ∷ escape s else c ∷ escape s

unfoldable pub quote : Text → Text
unfolding escape
quote s = b'"' ∷ (escape s ++ b'"' ∷ [])

scan_quoted-escape :
    (s rest : Text)
    → scan_quoted b'"' string false (escape s ++ b'"' ∷ rest)
      ≡ record { type = string; escape = false; strval = s; rest = rest }
unfolding scan_quoted escape
scan_quoted-escape [] rest = refl
scan_quoted-escape (c ∷ s) rest = ground (arith, scan_quoted-escape s rest)

-- A quoted text is read as a string token with exactly its bytes, wildcards and quotes included, and
-- what follows the closing quote is left.
pub parse_token-quote :
    (s rest : Text)
    → parse_token (quote s ++ rest) ≡ some (record { type = string; string = s }, rest)
unfolding parse_token operator_or_text match_operator skip_spaces quoted_or_bare text_token quote
parse_token-quote s rest =
    let regroup : (escape s ++ b'"' ∷ []) ++ rest ≡ escape s ++ b'"' ∷ rest =
      append_assoc (escape s) (b'"' ∷ []) rest in
    rw (regroup, scan_quoted-escape s rest) refl
