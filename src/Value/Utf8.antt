-- ===== src/Value/Utf8.antt =====
-- xmmsclient/xmmstypes/value.c: `xmmsv_utf8_validate`, and the constructor that asks it.
use Prim.Native.Nat.{bit_and}
use xmms2remote.Prelude.{ℕ, zero, suc, ◌-◌, ◌==◌, if◌then◌else◌, Bool, true, false, List, [], ◌∷◌}

-- `_xmmsv_utf8_charlen`: the length of the sequence that a lead byte begins, 0 for no lead byte.
unfoldable pub utf8_charlen : ℕ → ℕ
utf8_charlen c =
    if bit_and c 0x80 == 0
    then 1
    else if bit_and c 0x60 == 0x40
    then 2
    else if bit_and c 0x70 == 0x60
    then 3
    else if bit_and c 0x78 == 0x70
    then 4
    else 0

-- The loop of `xmmsv_utf8_validate`; the number counts the continuation bytes still due. The NUL
-- at the end is no continuation byte.
unfoldable pub utf8_validate_from : ℕ → List ℕ → Bool
unfolding utf8_charlen
utf8_validate_from zero [] = true
utf8_validate_from (suc due) [] = false
utf8_validate_from zero (c ∷ s) =
    let rest = utf8_validate_from (utf8_charlen c - 1) s in
    if c == 0 then true else if utf8_charlen c == 0 then false else rest
utf8_validate_from (suc due) (c ∷ s) =
    let rest = utf8_validate_from due s in if bit_and c 0xC0 == 0x80 then rest else false

unfoldable pub utf8_validate : List ℕ → Bool
unfolding utf8_validate_from
utf8_validate s = utf8_validate_from 0 s
