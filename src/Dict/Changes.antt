-- ===== src/Dict/Changes.antt =====
-- Setting and removing a key of a sorted dict, whichever memory is refused.
use xmms2remote.Prelude.{
  ℕ, ◌≡◌, refl, ap, ◌∙◌, Bool, true, false, ◌&&◌, if◌then◌else◌, List, ◌∷◌, ◌++◌, Option, none,
  some,
}
use native.Mathlib.Numerals.{add-one}
use xmms2remote.Value.{Text}
use xmms2remote.Value.Utf8.{utf8_validate}
use xmms2remote.Value.Text.{same, strcmp}
use xmms2remote.Dict.{
  Grants, granted, Change, pairs, lone_key, lone_value, get, pairs_of, iter_set, set_found, try_set,
  dict_set,
}
use xmms2remote.Dict.Sorted.{Sorted, lookup, insert}
use xmms2remote.Dict.Search.{Located, find-Found}
use xmms2remote.Dict.Map.{before, after, erase, absent, present, around}

-- Whether the insertion of a new key succeeds.
abbrev pub succeeds : Grants → Bool
succeeds g = g.iterator && (g.first && g.second)

module _ {ℓ} {V : Type ℓ} (g : Grants) where
  -- What setting and removing a key leave, by the value that the key had.
  unfoldable pub set_result : List (Text × V) → Text → V → Option V → Change V
  set_result d key v none =
      if g.first && g.second then pairs true (insert d key v) else pairs false d
  set_result d key v (some w) =
      if g.second then pairs true (insert d key v) else lone_key (before d key) key (after d key)

  unfoldable pub remove_result : List (Text × V) → Text → Option V → Change V
  remove_result d key none = pairs false d
  remove_result d key (some w) =
      if g.first then pairs g.second (erase d key) else lone_value (before d key) w (after d key)

  set_found_lem :
      (d : List (Text × V)) (key : Text) (v : V) (b : Bool) (pos : ℕ)
      → Sorted d
      → utf8_validate key ≡ true
      → Located d key b pos
      → set_found g d key v (some (b, pos)) ≡ set_result d key v (lookup d key)
  unfolding set_found iter_set set_result
  set_found_lem d key v true pos s utf8 (w, at) =
      let p = present d key v w pos s at in
      let (b, a, _) = around d key w pos s at in
      rw (set_found, iter_set, at, p.0, set_result, p.1, b, a, add-one) refl
  set_found_lem d key v false pos s utf8 (u, len, b, a) =
      let p = absent d key pos b a in rw (set_found, utf8, p.0, set_result, p.1 v) refl

  pub try_set_refines :
      (d : List (Text × V)) (key : Text) (v : V)
      → Sorted d
      → utf8_validate key ≡ true
      → try_set g d key v
        ≡ (if g.iterator then set_result d key v (lookup d key) else pairs false d)
  unfolding try_set
  try_set_refines d key v s utf8 =
      let (b, pos, e, l) = find-Found d key s in
      ap (λ c. if g.iterator then c else pairs false d)
        (ap (set_found g d key v) e ∙ set_found_lem d key v b pos s utf8 l)

  -- What is to be seen of a dict after setting a key: with the answer true it is sorted, and lookup
  -- finds the new value at the key and what was there before at every other; with the answer false
  -- something was refused, and the dict is as it was, or the value of the key is missing.
  abbrev pub AfterSet : List (Text × V) → Text → V → Change V → Type ℓ
  AfterSet d key v (pairs true d') =
      Sorted d'
      × ((j : Text) → get d' j ≡ some (elim (strcmp key j) [ same ↦ some v | _ ↦ lookup d j ]))
  AfterSet d key v (pairs false d') = (d' ≡ d) × (succeeds g ≡ false)
  AfterSet d key v (lone_key a k b) =
      (w : V) × (d ≡ a ++ (k, w) ∷ b) × (k ≡ key) × (g.second ≡ false)
  AfterSet d key v (lone_value a w b) = (u : Unit {ℓ}) × ⊥
  AfterSet d key v Change.fault = (u : Unit {ℓ}) × ⊥

module _ {ℓ} {V : Type ℓ} where
  -- Where no memory is refused, setting a key is insertion.
  pub dict_set_refines :
      (d : List (Text × V)) (key : Text) (v : V)
      → Sorted d
      → utf8_validate key ≡ true
      → dict_set d key v ≡ some (insert d key v)
  unfolding dict_set pairs_of set_result
  dict_set_refines d key v s utf8 =
      ap pairs_of (try_set_refines granted d key v s utf8) ∙ both (lookup d key)
    where
      both : (o : Option V) → pairs_of (set_result granted d key v o) ≡ some (insert d key v)
      both none = refl
      both (some w) = refl
