-- ===== src/Dict/Format.antt =====
-- Texts with fields of a dict in them: `xmmsv_dict_format` of xmmsclient/xmmstypes/value.c (which
-- `xmmsc_entry_format` passes on). The buffer is taken by the text in it.
pub mod Template
mod Tests
use xmms2remote.Prelude.{
  ℕ, zero, suc, ◌+◌, ◌-◌, ◌/◌, ◌%◌, ◌^◌, ltb, ◌==◌, if◌then◌else◌, min, Bool, true, false, List, [],
  ◌∷◌, ◌++◌, Option, none, some, length, take, drop, ℤ, pos, negsuc, ◌+ℤ◌,
}
use xmms2remote.Value.{Text, Value, int, string}
use xmms2remote.Value.Text.{Sign, less, same, greater, strcmp, codes}
use xmms2remote.Value.Search.{strchr, strstr}
use xmms2remote.CollParser.Number.{show, wrap, int_max}
use xmms2remote.Dict.{get}
use xmms2remote.Dict.Propdict.{sources_of}

-- `strncat (target, s, len - strlen (target) - 1)`.
unfoldable pub strncat : ℕ → Text → Text → Text
strncat len target s = target ++ take (len - length target - 1) s

-- `strcspn (s, "c")`.
unfoldable pub strcspn : Text → ℕ → ℕ
strcspn s c = elim (strchr s c) [ none ↦ length s | some n ↦ n ]

-- An int32 of this bit pattern.
unfoldable pub int32 : ℕ → ℤ
int32 w = if ltb int_max w then negsuc (2 ^ 32 - 1 - w) else pos w

-- A division and a remainder of ints, which C rounds towards zero; `f` is what it is above zero.
unfoldable pub towards_zero : (ℕ → ℕ) → ℤ → ℤ
towards_zero f (pos n) = pos (f n)
towards_zero f (negsuc n) = let q = f (suc n) in if q == 0 then pos 0 else negsuc (q - 1)

-- `snprintf` of "%02d".
unfoldable pub show_02 : ℤ → Text
show_02 (pos n) = if ltb n 10 then b'0' ∷ show n else show n
show_02 (negsuc n) = b'-' ∷ show (suc n)

-- `xmmsv_get_int` into a variable that holds `before`.
unfoldable pub get_int : ℕ → Value → ℕ
get_int before (int w) = w
get_int before v = before

-- What is written for a duration: "00" for none, or `f` of it after rounding.
unfoldable pub show_duration : (ℕ → ℕ) → ℕ → Text
unfolding int32 towards_zero show_02
show_duration f w =
    if w == 0 then codes "00" else show_02 (towards_zero f (wrap (int32 w +ℤ pos 500)))

unfoldable pub seconds : ℕ → ℕ
seconds ms = ms / 1000 % 60

unfoldable pub minutes : ℕ → ℕ
minutes ms = ms / 60000

-- What is written for another field. The type that the source names XMMSV_TYPE_UINT32 and asks for
-- first is XMMSV_TYPE_INT32.
unfoldable pub show_field : Option Value → Text
show_field (some (string s)) = s
show_field (some (int w)) = show w
show_field v = []

unfoldable pub is_key : Text → Text → Bool
is_key key name = elim (strcmp key name) [ same ↦ true | _ ↦ false ]

-- `uninit` is what the variable `duration` holds before it is set.
module _ (uninit : ℕ) where
  unfoldable pub duration_of : Option Value → ℕ
  unfolding get_int
  duration_of none = 0
  duration_of (some v) = get_int uninit v

  -- What is written for a key, by what the dict has for it and for "duration".
  unfoldable pub show_key : Text → Option Value → Option Value → Text
  unfolding is_key duration_of show_duration show_field seconds minutes
  show_key key found duration =
      if is_key key (codes "seconds")
      then show_duration seconds (duration_of duration)
      else if is_key key (codes "minutes")
      then show_duration minutes (duration_of duration)
      else show_field found

  -- The same after the searches in the dict; `none` is a read outside its array.
  unfoldable pub expand : List (Text × Value) → Text → Option Text
  unfolding show_key
  expand d key = elim (get d key) [
    | none ↦ none
    | some found ↦ elim (get d (codes "duration")) [
      | none ↦ none
      | some duration ↦ some (show_key key found duration)
    ]
  ]

  module _ (len : ℕ) (d : List (Text × Value)) where
    -- The loop from where the end of a key was searched, from where it was expanded, and from where
    -- it was searched; `again` is the next round, with what is left of the format.
    unfoldable pub after_end :
        (Text → Text → Option Text) → Text → ℕ → Text → Option ℕ → Option Text
    after_end again fmt n target none = some target
    after_end again fmt n target (some e) = again (drop (n + e + 1) fmt) target

    unfoldable pub after_expand :
        (Text → Text → Option Text) → Text → ℕ → Text → Option Text → Option Text
    unfolding after_end strncat strchr
    after_expand again fmt n target none = none
    after_expand again fmt n target (some s) =
        after_end again fmt n (strncat len target s) (strchr (drop n fmt) b'}')

    unfoldable pub after_search : (Text → Text → Option Text) → Text → Text → Option ℕ → Option Text
    unfolding after_expand expand strncat strcspn
    after_search again fmt target none = some (strncat len target fmt)
    after_search again fmt target (some n) =
        let behind = drop (n + 2) fmt in
        let key = take (strcspn behind b'}') behind in
        after_expand again fmt n (strncat len target (take n fmt)) (expand d key)

    unfoldable pub format_loop : ℕ → Text → Text → Option Text
    unfolding after_search strstr
    format_loop zero fmt target = none
    format_loop (suc fuel) fmt target =
        let more = after_search (format_loop fuel) fmt target (strstr fmt (codes "${")) in
        if ltb (length target + 1) len then more else some target

  -- `xmmsv_dict_format`: what is in the buffer of `len` bytes.
  unfoldable pub dict_format : ℕ → Text → Value → Option Text
  unfolding format_loop sources_of
  dict_format len fmt val = format_loop len (sources_of val) (suc (length fmt)) fmt []
