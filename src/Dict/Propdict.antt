-- ===== src/Dict/Propdict.antt =====
-- From a dict of sources for each key to a plain dict: xmmsclient/xmmstypes/value.c,
-- `xmmsv_propdict_to_dict` with `find_match_index` and `source_match_pattern`.
pub mod Prefer
pub mod Flatten
mod Tests
use xmms2remote.Prelude.{
  ℕ, zero, suc, ltb, leb, ◌+◌, ◌-◌, ◌==◌, if◌then◌else◌, Bool, true, false, ◌&&◌, ◌||◌, List, [],
  ◌∷◌, Option, none, some, length,
}
use xmms2remote.Value.{Text, Value, dict, fields_to_list}
use xmms2remote.Value.Text.{codes}
use xmms2remote.Dict.{Grants, pairs_of, try_set}

-- `default_source_pref`.
abbrev pub default_source_pref : List Text
default_source_pref =
    codes "server"
    ∷ codes "client/*"
    ∷ codes "plugin/id3v2"
    ∷ codes "plugin/segment"
    ∷ codes "plugin/*"
    ∷ codes "*"
    ∷ []

-- `tolower`, and whether `strcasecmp` and `strncasecmp` answer 0.
unfoldable pub tolower : ℕ → ℕ
tolower c = if leb b'A' c && leb c b'Z' then c + 32 else c

unfoldable pub strcasecmp : Text → Text → Bool
unfolding tolower
strcasecmp [] [] = true
strcasecmp [] (b ∷ t) = false
strcasecmp (a ∷ s) [] = false
strcasecmp (a ∷ s) (b ∷ t) = (tolower a == tolower b) && strcasecmp s t

unfoldable pub strncasecmp : Text → Text → ℕ → Bool
unfolding tolower
strncasecmp s t zero = true
strncasecmp [] [] (suc n) = true
strncasecmp [] (b ∷ t) (suc n) = false
strncasecmp (a ∷ s) [] (suc n) = false
strncasecmp (a ∷ s) (b ∷ t) (suc n) = (tolower a == tolower b) && strncasecmp s t n

-- Whether the last byte of a text is a star.
unfoldable pub ends_in_star : Text → Bool
ends_in_star [] = false
ends_in_star (c ∷ []) = c == b'*'
ends_in_star (c ∷ d ∷ s) = ends_in_star (d ∷ s)

-- `source_match_pattern`.
unfoldable pub source_match_pattern : Text → Text → Bool
unfolding strcasecmp strncasecmp ends_in_star
source_match_pattern source pattern =
    let lpos = length pattern - 1 in
    strcasecmp pattern source
    || (ends_in_star pattern && (lpos == 0 || strncasecmp source pattern lpos))

-- `find_match_index`; `none` is its -1.
abbrev pub next : Option ℕ → Option ℕ
next none = none
next (some n) = some (suc n)

unfoldable pub find_match_index : Text → List Text → Option ℕ
find_match_index source [] = none
find_match_index source (p ∷ prefs) =
    let rest = find_match_index source prefs in
    if source_match_pattern source p then some 0 else next rest

-- A match replaces the best one if there is none, or if it is better.
unfoldable pub better : Value → Option ℕ → Option (Value × ℕ) → Option (Value × ℕ)
better v none best = best
better v (some i) none = some (v, i)
better v (some i) (some (w, j)) = if ltb i j then some (v, i) else some (w, j)

-- The loop over the sources of a key.
unfoldable pub best_match :
    List Text → List (Text × Value) → Option (Value × ℕ) → Option (Value × ℕ)
unfolding find_match_index better
best_match prefs [] best = best
best_match prefs ((source, v) ∷ sources) best =
    best_match prefs sources (better v (find_match_index source prefs) best)

-- What the iterator of a value goes over: nothing if it is no dict.
unfoldable pub sources_of : Value → List (Text × Value)
sources_of (dict fs) = fields_to_list fs
sources_of v = []

-- What the setting of each key is granted.
module _ (grants : Text → Grants) where
  -- The loop over the keys, with the dict that is being filled; what `xmmsv_dict_set` answers is not
  -- looked at. `none` is a read outside its array, or a pair that it left in halves.
  unfoldable pub set_best :
      List (Text × Value) → Text → Option (Value × ℕ) → Option (List (Text × Value))
  set_best d key none = some d
  set_best d key (some (v, i)) = pairs_of (try_set (grants key) d key v)

  unfoldable pub flatten :
      List Text → List (Text × Value) → List (Text × Value) → Option (List (Text × Value))
  unfolding set_best best_match sources_of
  flatten prefs [] d = some d
  flatten prefs ((key, v) ∷ keys) d = elim (set_best d key (best_match prefs (sources_of v) none)) [
    | none ↦ none
    | some d' ↦ flatten prefs keys d'
  ]

  -- `xmmsv_propdict_to_dict`, where its own two iterators and the new dict are granted.
  unfoldable pub propdict_to_dict : Value → Option (List Text) → Option (List (Text × Value))
  unfolding flatten sources_of
  propdict_to_dict propdict none = flatten default_source_pref (sources_of propdict) []
  propdict_to_dict propdict (some prefs) = flatten prefs (sources_of propdict) []
