-- ===== src/Dict/Tests.antt =====
-- Runs of the dict on a small array, and the theorems at inputs that meet their hypotheses.
use xmms2remote.Prelude.{ℕ, ◌≡◌, refl, true, false, List, [], ◌∷◌, some}
use xmms2remote.Value.{Text}
use xmms2remote.Value.Text.{strcmp}
use xmms2remote.Value.Utf8.{utf8_validate}
use xmms2remote.Dict.{Grants, pairs, find, find_loop, get, set_found, try_set, dict_set}
use xmms2remote.Dict.Sorted.{Sorted, lookup}
use xmms2remote.Dict.Search.{Found, find-Found}
use xmms2remote.Dict.Map.{get_refines}

abbrev three : List (Text × ℕ)
three = (b'a' ∷ [], 1) ∷ (b'c' ∷ [], 3) ∷ (b'e' ∷ [], 5) ∷ []

three-Sorted : Sorted three
unfolding strcmp
three-Sorted = ((refl, (refl, tt)), ((refl, tt), (tt, tt)))

find_middle : find three (b'd' ∷ []) ≡ some (false, 2)
unfolding find find_loop strcmp
find_middle = refl

set_last :
    dict_set three (b'f' ∷ []) 6
    ≡ some ((b'a' ∷ [], 1) ∷ (b'c' ∷ [], 3) ∷ (b'e' ∷ [], 5) ∷ (b'f' ∷ [], 6) ∷ [])
unfolding dict_set try_set set_found find find_loop strcmp utf8_validate
set_last = refl

find-Found_example : Found three (b'd' ∷ []) (find three (b'd' ∷ []))
find-Found_example = find-Found three (b'd' ∷ []) three-Sorted

get_refines_example : get three (b'c' ∷ []) ≡ some (lookup three (b'c' ∷ []))
get_refines_example = get_refines three (b'c' ∷ []) three-Sorted

-- The array has no room for two more cells, but for one.
abbrev tight : Grants
tight = record { iterator = true; first = true; second = false }

set_refused : try_set tight three (b'd' ∷ []) 4 ≡ pairs false three
unfolding try_set set_found find find_loop strcmp utf8_validate
set_refused = refl
