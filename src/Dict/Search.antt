-- ===== src/Dict/Search.antt =====
-- The bisection of `xmmsv_dict_iter_find` ends, reads inside the array, and finds the key or the
-- place where it belongs.
use xmms2remote.Prelude.{
  ℕ, zero, suc, ◌+◌, ◌-◌, ◌/◌, ◌≤◌, ◌<◌, ◌≡◌, refl, ap, Bool, true, false, List, [], ◌∷◌, Option,
  some, length, get_elem?, take, drop, arith, ltb, Bool-cases, ◌∙◌, drop_all, inl, inr, ltb→lt,
  ltb→le, lt→ltb,
}
use native.Mathlib.Numerals.{add-one}
use xmms2remote.Value.{Text}
use xmms2remote.Value.Text.{Sign, less, same, greater, strcmp}
use xmms2remote.Dict.{find, find_loop}
use xmms2remote.Dict.Order.{swap, strcmp-swap, strcmp_same}
use xmms2remote.Dict.Sorted.{Above, Below, Sorted, Below-take, Above-drop}

-- What the last comparison says of the bounds: after `less` the search goes on behind the
-- iterator, after `greater` it ends at the iterator; before the first one there is work to do.
abbrev pub Track : Sign → ℕ → ℕ → ℕ → Type 0
Track less pos left end = pos + 1 ≡ left
Track same pos left end = left < end
Track greater pos left end = pos ≡ end

module _ {ℓ} {V : Type ℓ} where
  -- The key stands at `pos`, or it is absent and belongs just before `pos`.
  abbrev pub Located : List (Text × V) → Text → Bool → ℕ → Type ℓ
  Located d key true pos = (v : V) × (get_elem? d pos ≡ some (key, v))
  Located d key false pos =
      (v : Unit {ℓ}) × (pos ≤ length d) × Below key (take pos d) × Above key (drop pos d)

  abbrev pub Found : List (Text × V) → Text → Option (Bool × ℕ) → Type ℓ
  Found d key r = (b : Bool) × (p : ℕ) × (r ≡ some (b, p)) × Located d key b p

  pub get_elem?-some :
      (d : List (Text × V)) (i : ℕ)
      → i < length d
      → (k : Text) × (v : V) × (get_elem? d i ≡ some (k, v))
  get_elem?-some [] i h = absurd (omega arith)
  get_elem?-some ((k, v) ∷ d) zero h = (k, v, refl)
  get_elem?-some (p ∷ d) (suc i) h = get_elem?-some d i (omega arith)

  -- What the loop answers once the interval is empty.
  stop_Found :
      (fuel : ℕ) (d : List (Text × V)) (key : Text) (cmp : Sign) (pos left right : ℕ)
      → ltb left right ≡ false
      → left ≤ right
      → right ≤ length d
      → Track cmp pos left right
      → Below key (take left d)
      → Above key (drop right d)
      → Found d key (find_loop (suc fuel) d key cmp pos left right)
  unfolding find_loop
  stop_Found fuel d key same pos left right e le len t b a =
      absurd (omega (arith, ltb→le left right e))
  stop_Found fuel d key less pos left right e le len t b a =
      let at : right ≡ pos + 1 = omega (arith, ltb→le left right e) in
      (false, pos + 1, rw e, (tt, omega arith, rw t b, rw at at a))
  stop_Found fuel d key greater pos left right e le len t b a =
      let at : left ≡ pos = omega (arith, ltb→le left right e) in
      (false, pos, rw e, (tt, omega arith, rw at at b, rw t a))

  -- With this fuel the search of any interval ends and locates the key.
  abbrev Searches : ℕ → List (Text × V) → Text → Type ℓ
  Searches fuel d key =
      (cmp : Sign) (pos left right : ℕ)
      → right - left < fuel
      → left ≤ right
      → right ≤ length d
      → Track cmp pos left right
      → Below key (take left d)
      → Above key (drop right d)
      → Found d key (find_loop fuel d key cmp pos left right)

  find_loop-Searches :
      (fuel : ℕ) (d : List (Text × V)) (key : Text) → Sorted d → Searches fuel d key
  unfolding find_loop
  find_loop-Searches zero d key s cmp pos left right h le len t b a = absurd (omega arith)
  find_loop-Searches (suc fuel) d key s cmp pos left right h le len t b a =
      elim (Bool-cases (ltb left right)) [
        | inl more ↦
            let lt : left < right = ltb→lt left right more in
            let (k, v, e) = get_elem?-some d mid (omega arith) in
            rw more (
              rw (e, find_loop) (go (find_loop-Searches fuel d key s) k v e (strcmp k key) refl lt))
        | inr done ↦ stop_Found fuel d key cmp pos left right done le len t b a
      ]
    where
      mid : ℕ
      mid = left + (right - 1 - left) / 2

      go :
          Searches fuel d key
          → (k : Text) (v : V) → get_elem? d mid ≡ some (k, v)
          → (c : Sign) → strcmp k key ≡ c
          → left < right
          → Found d key (elim c [
            | same ↦ some (true, mid)
            | less ↦ find_loop fuel d key less mid (mid + 1) right
            | greater ↦ find_loop fuel d key greater mid left mid
          ])
      go rec k v e less q lt =
          rec less mid (mid + 1) right (omega arith) (omega arith) len refl
            (rw add-one (Below-take d mid k key v s e q)) a
      go rec k v e same q lt = (true, mid, refl, (v, rw (← strcmp_same k key q) e))
      go rec k v e greater q lt =
          rec greater mid left mid (omega arith) (omega arith) (omega arith) refl b
            (Above-drop d mid k key v s e (strcmp-swap k key ∙ ap swap q))

  -- On a sorted dict the bisection ends, reads inside the array, and answers with the position of the
  -- key if it is there, else with the position where all keys before are below and all from there on
  -- above it.
  pub find-Found : (d : List (Text × V)) (key : Text) → Sorted d → Found d key (find d key)
  unfolding find
  find-Found [] key s = (false, 0, refl, (tt, omega arith, tt, tt))
  find-Found (p ∷ d) key s = rw (lt→ltb 0 (length (p ∷ d)) (omega arith)) (
      find_loop-Searches (suc (length (p ∷ d))) (p ∷ d) key s same 0 0 (length (p ∷ d))
        (omega arith) (omega arith) (omega arith) (omega arith) tt (rw drop_all tt))
