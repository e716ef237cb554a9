-- ===== src/Dict/Propdict/Flatten.antt =====
-- The whole dict: each key of which a source is wanted keeps its place, with that value.
use xmms2remote.Prelude.{◌≡◌, true, if◌then◌else◌, List, [], ◌∷◌, Option, none, some, All}
use xmms2remote.Value.{Text, Value}
use xmms2remote.Value.Utf8.{utf8_validate}
use xmms2remote.Dict.Sorted.{Sorted}
use xmms2remote.Dict.{Grants}
use xmms2remote.Dict.Changes.{succeeds}
use xmms2remote.Dict.Propdict.{default_source_pref, sources_of}
use xmms2remote.Dict.Propdict.Prefer.{prefer}

-- A pair for a key, if it has a value.
unfoldable pub with_value : Text → Option Value → List (Text × Value) → List (Text × Value)
with_value key none d = d
with_value key (some v) d = (key, v) ∷ d

-- The keys whose setting is granted, with the value that is preferred for them.
unfoldable pub preferred : (Text → Grants) → List Text → List (Text × Value) → List (Text × Value)
unfolding with_value
preferred grants prefs [] = []
preferred grants prefs ((key, v) ∷ keys) =
    with_value key (if succeeds (grants key) then prefer prefs (sources_of v) else none)
      (preferred grants prefs keys)

abbrev pub KeysAreUtf8 : List (Text × Value) → Type 0
KeysAreUtf8 = All (λ p. utf8_validate p.0 ≡ true)

-- The preferences that are used.
abbrev pub prefs_of : Option (List Text) → List Text
prefs_of none = default_source_pref
prefs_of (some prefs) = prefs
