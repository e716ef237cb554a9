-- ===== src/CollParser/Prepare.antt =====
-- xmmsclient/xmmsclient/collparser.c: `coll_parse_prepare`, which changes tokens by their
-- neighbours.
use xmms2remote.Prelude.{
  ℕ, List, [], ◌∷◌, ◌++◌, none, some, length, ◌==◌, if◌then◌else◌, ℤ, pos, negsuc,
}
use xmms2remote.Value.{Text}
use xmms2remote.CollParser.{
  TokenType, Token, string, pattern, integer, prop_long, prop_short, opfil_has, opfil_equals,
  opfil_match, opfil_smaller, opfil_greater, opfil_smallereq, opfil_greatereq,
}
use xmms2remote.CollParser.Number.{string_intadd}

abbrev retyped : TokenType → Token → Token
retyped t k = record k { type = t }

-- A string becomes the name of a property.
unfoldable pub to_property : Token → Token
to_property k = elim k.type [
  | string ↦ retyped (if length k.string == 1 then prop_short else prop_long) k
  | _ ↦ k
]

unfoldable pub to_string : Token → Token
to_string k = elim k.type [ integer ↦ retyped string k | _ ↦ k ]

-- The last byte of a text that begins with `c`.
unfoldable pub last_byte : ℕ → Text → ℕ
last_byte c [] = c
last_byte c (d ∷ s) = last_byte d s

-- `/* Fuzzy match the operand to MATCH, i.e. surround with '*' */`
unfoldable pub fuzzy : Text → Text
unfolding last_byte
fuzzy [] = b'*' ∷ []
fuzzy (c ∷ s) =
    let front = if c == b'*' then c ∷ s else b'*' ∷ c ∷ s in
    if last_byte c s == b'*' then front else front ++ b'*' ∷ []

unfoldable pub to_fuzzy : Token → Token
unfolding fuzzy
to_fuzzy k = elim k.type [
  | string ↦ record k { string = fuzzy k.string }
  | pattern ↦ record k { string = fuzzy k.string }
  | _ ↦ k
]

-- The number after `<=` or `>=`: the comparison becomes strict and the number moves by one.
unfoldable pub strict : TokenType → ℤ → Token → Token → Token × Token
unfolding string_intadd
strict t delta prev curr = elim curr.type [
  | integer ↦ elim (string_intadd curr.string delta) [
    | none ↦ (prev, curr)
    | some s ↦ (retyped t prev, record curr { string = s })
  ]
  | _ ↦ (prev, curr)
]

-- The switch on the current token, which looks back.
unfoldable pub before_comparison : Token → Token → Token
unfolding to_property
before_comparison prev curr = elim curr.type [
  | opfil_greatereq ↦ to_property prev
  | opfil_smallereq ↦ to_property prev
  | opfil_greater ↦ to_property prev
  | opfil_smaller ↦ to_property prev
  | _ ↦ prev
]

-- The switch on the previous token.
unfoldable pub after_previous : Token → Token → Token × Token
unfolding to_property to_string to_fuzzy strict
after_previous prev curr = elim prev.type [
  | opfil_has ↦ (prev, to_property curr)
  | opfil_match ↦ (prev, to_fuzzy (to_string curr))
  | opfil_equals ↦ elim curr.type [
    | pattern ↦ (retyped opfil_match prev, curr)
    | _ ↦ (prev, to_string curr)
  ]
  | opfil_greatereq ↦ strict opfil_greater (negsuc 0) prev curr
  | opfil_smallereq ↦ strict opfil_smaller (pos 1) prev curr
  | _ ↦ (prev, curr)
]

unfoldable pub prepare_from : Token → List Token → List Token
unfolding before_comparison after_previous
prepare_from prev [] = prev ∷ []
prepare_from prev (curr ∷ ks) =
    let (prev', curr') = after_previous (before_comparison prev curr) curr in
    prev' ∷ prepare_from curr' ks

-- `coll_parse_prepare`.
unfoldable pub prepare : List Token → List Token
unfolding prepare_from
prepare [] = []
prepare (k ∷ ks) = prepare_from k ks
