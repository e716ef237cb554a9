-- ===== src/Dict.antt =====
-- xmmsclient/xmmstypes/value.c, the `xmmsv_dict_*` functions: a dict is an array of key-value pairs
-- sorted by `strcmp`, searched by bisection. The array [k1, v1, k2, v2, ...] is taken as a list of
-- pairs, and a position of its iterator as the number of the pair; an array of odd length, which only
-- refused memory leaves, is a case of its own.
pub mod Order
pub mod Sorted
pub mod Search
pub mod Map
pub mod Changes
pub mod Append
pub mod Propdict
pub mod Format
mod Tests
use xmms2remote.Prelude.{
  ℕ, zero, suc, ◌+◌, ◌-◌, ◌/◌, ltb, if◌then◌else◌, Bool, true, false, ◌&&◌, List, [], ◌∷◌, ◌++◌,
  Option, none, some, length, get_elem?, set, take, drop,
}
use xmms2remote.Value.{Text}
use xmms2remote.Value.Utf8.{utf8_validate}
use xmms2remote.Value.Text.{Sign, less, same, greater, strcmp}

-- What the calls that a change of a dict makes are granted: the iterator, and the first and the
-- second of the two changes of its array. (A removal takes its value out even if the smaller array
-- is refused, and then answers false.)
pub record Grants : Type 0 where
  pub iterator : Bool
  pub first : Bool
  pub second : Bool

abbrev pub granted : Grants
granted = record { iterator = true; first = true; second = true }

-- What a change of a dict leaves: its answer and the pairs; or an array of odd length, in which a
-- key stands without its value, or a value without its key, with the answer false; or a read outside
-- the array.
pub data Change {ℓ} (V : Type ℓ) : Type ℓ where
  pairs : Bool → List (Text × V) → Change V
  lone_key : List (Text × V) → Text → List (Text × V) → Change V
  lone_value : List (Text × V) → V → List (Text × V) → Change V
  fault : Change V

module _ {ℓ} {V : Type ℓ} where
  -- The search loop of `xmmsv_dict_iter_find` over [left, end), where `end` is the source's
  -- `right + 1`; `cmp` and `pos` are the last comparison and the iterator. The answer is whether
  -- the key is there and the pair that the iterator points at; `none` is a read outside the array,
  -- or the end of the fuel.
  unfoldable pub find_loop : ℕ → List (Text × V) → Text → Sign → ℕ → ℕ → ℕ → Option (Bool × ℕ)
  find_loop zero d key cmp pos left end = none
  find_loop (suc fuel) d key cmp pos left end =
      let mid = left + (end - 1 - left) / 2 in
      let look : Option (Bool × ℕ) = elim (get_elem? d mid) [
        | none ↦ none
        | some (k, v) ↦ elim (strcmp k key) [
          | same ↦ some (true, mid)
          | less ↦ find_loop fuel d key less mid (mid + 1) end
          | greater ↦ find_loop fuel d key greater mid left mid
        ]
      ] in
      let stop : Option (Bool × ℕ) = elim cmp [
        | less ↦ some (false, pos + 1)
        | _ ↦ some (false, pos)
      ] in
      if ltb left end then look else stop

  -- `xmmsv_dict_iter_find`; for the empty dict the comparison is never read.
  unfoldable pub find : List (Text × V) → Text → Option (Bool × ℕ)
  find d key =
      if ltb 0 (length d)
      then find_loop (suc (length d)) d key same 0 0 (length d)
      else some (false, 0)

  -- `xmmsv_dict_get`, where its iterator is granted.
  pub get : List (Text × V) → Text → Option (Option V)
  get d key = elim (find d key) [
    | none ↦ none
    | some (found, pos) ↦
        if found
        then elim (get_elem? d pos) [ none ↦ none | some (k, v) ↦ some (some v) ]
        else some none
  ]

  -- Whether the array that holds all pairs was left, and which.
  unfoldable pub pairs_of : Change V → Option (List (Text × V))
  pairs_of (pairs answer d) = some d
  pairs_of (lone_key a k b) = none
  pairs_of (lone_value a v b) = none
  pairs_of fault = none

  -- `xmmsv_dict_iter_set`: the value at the iterator is removed, which takes it out of the array
  -- even if the smaller array is refused, and the new one is inserted there if there is room.
  unfoldable pub iter_set : Bool → List (Text × V) → ℕ → V → Change V
  iter_set granted d pos v = elim (get_elem? d pos) [
    | none ↦ fault
    | some (k, w) ↦
        if granted
        then pairs true (set d pos (k, v))
        else lone_key (take pos d) k (drop (pos + 1) d)
  ]

  -- `xmmsv_dict_set` from the search on: replace, or insert key and value where the search ended. A
  -- new key that is not UTF-8 makes no string value, and cannot be inserted; if only the value cannot
  -- be inserted, the key is removed again.
  unfoldable pub set_found : Grants → List (Text × V) → Text → V → Option (Bool × ℕ) → Change V
  unfolding iter_set
  set_found g d key v none = fault
  set_found g d key v (some (found, pos)) =
      let inserted : Change V =
        if utf8_validate key && (g.first && g.second)
        then pairs true (take pos d ++ (key, v) ∷ drop pos d)
        else pairs false d in
      if found then iter_set g.second d pos v else inserted

  -- `xmmsv_dict_set`.
  unfoldable pub try_set : Grants → List (Text × V) → Text → V → Change V
  unfolding set_found
  try_set g d key v = if g.iterator then set_found g d key v (find d key) else pairs false d

  -- `xmmsv_dict_set` where no memory is refused, for the callers that are modelled so.
  unfoldable pub dict_set : List (Text × V) → Text → V → Option (List (Text × V))
  unfolding pairs_of try_set
  dict_set d key v = pairs_of (try_set granted d key v)

  -- `xmmsv_dict_remove` from the search on: the key goes, and then the value unless the smaller array
  -- was refused at the key.
  unfoldable pub take_pair : Grants → List (Text × V) → Option (Bool × ℕ) → Change V
  take_pair g d none = fault
  take_pair g d (some (found, pos)) =
      let removed : Change V = elim (get_elem? d pos) [
        | none ↦ fault
        | some (k, w) ↦
            if g.first
            then pairs g.second (take pos d ++ drop (pos + 1) d)
            else lone_value (take pos d) w (drop (pos + 1) d)
      ] in
      if found then removed else pairs false d

  -- `xmmsv_dict_remove`.
  unfoldable pub remove : Grants → List (Text × V) → Text → Change V
  unfolding take_pair
  remove g d key = if g.iterator then take_pair g d (find d key) else pairs false d
