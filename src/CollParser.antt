-- ===== src/CollParser.antt =====
-- The parser of search patterns, xmmsclient/xmmsclient/collparser.c. Here: its tokens
-- (`xmmsv_coll_token_t` of xmmsclient/xmmsclient/xmmsclient.h) and the tokenizer.
pub mod Number
pub mod Prepare
pub mod Filters
pub mod Build
pub mod Uses
pub mod Terminates
pub mod Progress
pub mod Quote
pub mod Grammar
pub mod Leaves
pub mod Rounds
pub mod RoundTrip
pub mod Stable
mod Tests
use Number.{is_digit}
use xmms2remote.Prelude.{
  ℕ, zero, suc, ◌+◌, ◌-◌, ◌≤◌, ◌<◌, Bool, true, false, not, ◌&&◌, ◌||◌, List, [], ◌∷◌, Option, none,
  some, length, leb, ◌==◌, if◌then◌else◌,
}
use xmms2remote.Value.{Text}

-- `xmmsv_coll_token_type_t`.
pub data TokenType : Type 0 where
  invalid group_open group_close reference symbol_id string pattern integer sequence : TokenType
  prop_long prop_short opset_union opset_intersection opset_complement : TokenType
  opfil_has opfil_equals opfil_match opfil_smaller opfil_greater : TokenType
  opfil_smallereq opfil_greatereq : TokenType

-- A token; the operators, whose string is null, have the empty one.
pub record Token : Type 0 where
  pub type : TokenType
  pub string : Text

abbrev pub operator : TokenType → Token
operator t = record { type = t; string = [] }

-- `strncmp (expr, tmp, strlen (expr)) == 0`, with what follows.
unfoldable pub after_prefix : Text → Text → Option Text
after_prefix [] s = some s
after_prefix (c ∷ p) [] = none
after_prefix (c ∷ p) (d ∷ s) = let rest = after_prefix p s in if c == d then rest else none

-- The texts of the operators, in the order in which they are tried.
abbrev pub operators : List (Text × TokenType)
operators =
    ((b'(' ∷ []), group_open)
    ∷ ((b')' ∷ []), group_close)
    ∷ ((b'#' ∷ []), symbol_id)
    ∷ ((b'+' ∷ []), opfil_has)
    ∷ ((b':' ∷ []), opfil_equals)
    ∷ ((b'~' ∷ []), opfil_match)
    ∷ ((b'<' ∷ b'=' ∷ []), opfil_smallereq)
    ∷ ((b'>' ∷ b'=' ∷ []), opfil_greatereq)
    ∷ ((b'<' ∷ []), opfil_smaller)
    ∷ ((b'>' ∷ []), opfil_greater)
    ∷ ((b'O' ∷ b'R' ∷ []), opset_union)
    ∷ ((b'A' ∷ b'N' ∷ b'D' ∷ []), opset_intersection)
    ∷ ((b'N' ∷ b'O' ∷ b'T' ∷ []), opset_complement)
    ∷ ((b'i' ∷ b'n' ∷ b':' ∷ []), reference)
    ∷ []

-- `TOKEN_MATCH_CHAR` and `TOKEN_MATCH_STRING`, one after the other.
unfoldable pub match_operator : List (Text × TokenType) → Text → Option (Token × Text)
unfolding after_prefix
match_operator [] s = none
match_operator ((p, t) ∷ ops) s = elim (after_prefix p s) [
  | some rest ↦ some (operator t, rest)
  | none ↦ match_operator ops s
]

abbrev pub is_wildcard : ℕ → Bool
is_wildcard c = c == b'*' || c == b'?'

-- What a scan has found: the type, whether the text ended in an escape, its bytes, and the rest.
pub record Scan : Type 0 where
  pub type : TokenType
  pub escape : Bool
  pub strval : Text
  pub rest : Text

abbrev pub keep : ℕ → Scan → Scan
keep c r = record r { strval = c ∷ r.strval }

-- The loop over a quoted text; the closing quote is passed over.
unfoldable pub scan_quoted : ℕ → TokenType → Bool → Text → Scan
scan_quoted quote t escape [] = record { type = t; escape = escape; strval = []; rest = [] }
scan_quoted quote t true (c ∷ s) = keep c (scan_quoted quote t false s)
scan_quoted quote t false (c ∷ s) =
    let escaped = scan_quoted quote t true s in
    let kept = keep c (scan_quoted quote (if is_wildcard c then pattern else t) false s) in
    if c == quote
    then record { type = t; escape = false; strval = []; rest = s }
    else if c == b'\\'
    then escaped
    else kept

-- `/* contains [*?] => PATTERN */` and the two cases that fall through to it.
unfoldable pub classify_text : Bool → ℕ → TokenType
classify_text escape c = if not escape && is_wildcard c then pattern else string

unfoldable pub classify_sequence : TokenType → Bool → ℕ → TokenType
unfolding classify_text
classify_sequence t escape c =
    if not (is_digit c) && not (c == b',') && not (c == b'-')
    then classify_text escape c
    else if not escape && is_wildcard c
    then pattern
    else t

-- The `switch (type)` of the loop over a bare text.
unfoldable pub classify : TokenType → Bool → ℕ → TokenType
unfolding classify_text classify_sequence
classify integer escape c =
    if c == b',' || c == b'-' then sequence else classify_sequence integer escape c
classify sequence escape c = classify_sequence sequence escape c
classify string escape c = classify_text escape c
classify pattern escape c = pattern
classify _ escape c = invalid

abbrev pub ends_property : ℕ → Bool
ends_property c = c == b':' || c == b'~' || c == b'<' || c == b'>'

-- The loop over a bare text, `n` bytes of which are read (`tmp - str`).
unfoldable pub scan_bare : TokenType → Bool → ℕ → Text → Scan
unfolding classify
scan_bare t escape n [] = record { type = t; escape = escape; strval = []; rest = [] }
scan_bare t true n (c ∷ s) = keep c (scan_bare (classify t true c) false (n + 1) s)
scan_bare t false n (c ∷ s) =
    let escaped = scan_bare t true (n + 1) s in
    let kept = keep c (scan_bare (classify t false c) false (n + 1) s) in
    let stop : TokenType → Scan =
      λ u. record { type = u; escape = false; strval = []; rest = c ∷ s } in
    if c == b' '
    then stop t
    else if c == b'\\'
    then escaped
    else if ends_property c
    then stop (if n == 1 then prop_short else prop_long)
    else if c == b'(' || c == b')'
    then stop t
    else kept

-- No token for a text that ends in an escape.
unfoldable pub text_token : Scan → Option (Token × Text)
text_token r = if r.escape then none else some (record { type = r.type; string = r.strval }, r.rest)

unfoldable pub skip_spaces : Text → Text
skip_spaces [] = []
skip_spaces (c ∷ s) = let rest = skip_spaces s in if c == b' ' then rest else c ∷ s

unfoldable pub quoted_or_bare : Text → Option (Token × Text)
unfolding scan_quoted scan_bare text_token
quoted_or_bare [] = none
quoted_or_bare (c ∷ s) =
    if c == b'"' || c == b'\''
    then text_token (scan_quoted c string false s)
    else text_token (scan_bare integer false 0 (c ∷ s))

unfoldable pub operator_or_text : Text → Option (Token × Text)
operator_or_text s = elim (match_operator operators s) [ some r ↦ some r | none ↦ quoted_or_bare s ]

-- `xmmsv_coll_default_parse_tokens`.
unfoldable pub parse_token : Text → Option (Token × Text)
parse_token s = operator_or_text (skip_spaces s)

-- A token and those behind it; an invalid one ends the list.
unfoldable pub with_token : Token → Option (List Token) → Option (List Token)
with_token k more = elim k.type [
  | invalid ↦ some []
  | _ ↦ elim more [ none ↦ none | some ks ↦ some (k ∷ ks) ]
]

unfoldable pub after_token :
    (Text → Option (List Token)) → Option (Token × Text) → Option (List Token)
unfolding with_token
after_token again none = some []
after_token again (some (k, next)) = with_token k (again next)

-- The loop of `xmmsv_coll_parse_custom` with it: tokens up to the end or the first null or invalid
-- one. `none` is the end of the fuel.
unfoldable pub tokenize : ℕ → Text → Option (List Token)
unfolding after_token
tokenize zero s = none
tokenize (suc fuel) [] = some []
tokenize (suc fuel) (c ∷ s) = after_token (λ next. tokenize fuel next) (parse_token (c ∷ s))
