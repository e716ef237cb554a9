-- ===== src/Dict/Map.antt =====
-- The bisecting lookup of a dict is that of the plain map on sorted lists, and insertion keeps the
-- order.
use xmms2remote.Prelude.{
  ℕ, zero, suc, ◌≡◌, refl, ap, ◌∙◌, Bool, true, false, List, [], ◌∷◌, ◌++◌, none, some, get_elem?,
  set, take, drop, arith,
}
use xmms2remote.Value.{Text}
use xmms2remote.Value.Text.{Sign, less, same, greater, strcmp}
use xmms2remote.Dict.{find, get}
use xmms2remote.Dict.Order.{swap, strcmp_refl, strcmp-swap, strcmp_same}
use xmms2remote.Dict.Sorted.{Above, Below, Sorted, lookup, insert, Above-get_elem?, Above-trans}
use xmms2remote.Dict.Search.{Located, find-Found}

-- The pairs whose keys are below a key, those above it, and all but its own.
unfoldable pub before {ℓ} : {V : Type ℓ} → List (Text × V) → Text → List (Text × V)
before [] key = []
before ((k, w) ∷ d) key =
    let rest = before d key in elim (strcmp k key) [ less ↦ (k, w) ∷ rest | _ ↦ [] ]

unfoldable pub after {ℓ} : {V : Type ℓ} → List (Text × V) → Text → List (Text × V)
after [] key = []
after ((k, w) ∷ d) key =
    let rest = after d key in elim (strcmp k key) [ less ↦ rest | same ↦ d | greater ↦ (k, w) ∷ d ]

unfoldable pub erase {ℓ} : {V : Type ℓ} → List (Text × V) → Text → List (Text × V)
erase [] key = []
erase ((k, w) ∷ d) key =
    let rest = erase d key in elim (strcmp k key) [ same ↦ d | _ ↦ (k, w) ∷ rest ]

module _ {ℓ} {V : Type ℓ} where
  lookup-Above : (d : List (Text × V)) (key : Text) → Above key d → lookup d key ≡ none
  unfolding lookup
  lookup-Above [] key a = refl
  lookup-Above ((k, v) ∷ d) key a = ground (arith, strcmp-swap key k, lookup-Above d key a.1)

  insert-Above :
      (d : List (Text × V)) (key : Text) (v : V) → Above key d → insert d key v ≡ (key, v) ∷ d
  unfolding insert
  insert-Above [] key v a = refl
  insert-Above ((k, w) ∷ d) key v a = ground (arith, strcmp-swap key k)

  erase-Above : (d : List (Text × V)) (key : Text) → Above key d → erase d key ≡ d
  unfolding erase
  erase-Above [] key a = refl
  erase-Above ((k, w) ∷ d) key a = ground (arith, strcmp-swap key k, erase-Above d key a.1)

  -- Lookup, insertion and removal at an absent key, from where it belongs.
  pub absent :
      (d : List (Text × V)) (key : Text) (pos : ℕ)
      → Below key (take pos d)
      → Above key (drop pos d)
      → (lookup d key ≡ none)
        × ((v : V) → insert d key v ≡ take pos d ++ (key, v) ∷ drop pos d)
        × (erase d key ≡ d)
  unfolding lookup insert erase
  absent d key zero b a = (lookup-Above d key a, λ v. insert-Above d key v a, erase-Above d key a)
  absent [] key (suc pos) b a = (refl, λ v. refl, refl)
  absent ((k, w) ∷ d) key (suc pos) b a =
      let ih = absent d key pos b.1 a in
      (
        rw (b.0, lookup) ih.0,
        λ v. rw (b.0, insert) (ap (◌∷◌ (k, w)) (ih.1 v)),
        rw (b.0, erase) (ap (◌∷◌ (k, w)) ih.2),
      )

  -- The same at a key that is there.
  pub present :
      (d : List (Text × V)) (key : Text) (v w : V) (pos : ℕ)
      → Sorted d
      → get_elem? d pos ≡ some (key, w)
      → (lookup d key ≡ some w)
        × (insert d key v ≡ set d pos (key, v))
        × (erase d key ≡ take pos d ++ drop (suc pos) d)
  unfolding lookup insert erase
  present [] key v w pos s e = cc
  present ((k, u) ∷ d) key v w zero s e = ground (arith, strcmp_refl k)
  present ((k, u) ∷ d) key v w (suc pos) s e =
      let ih = present d key v w pos s.1 e in
      let lt : strcmp k key ≡ less = Above-get_elem? k d pos s.0 e in
      (
        rw (lt, lookup) ih.0,
        rw (lt, insert) (ap (◌∷◌ (k, u)) ih.1),
        rw (lt, erase) (ap (◌∷◌ (k, u)) ih.2),
      )

  -- What stands around a key that is there.
  pub around :
      (d : List (Text × V)) (key : Text) (w : V) (pos : ℕ)
      → Sorted d
      → get_elem? d pos ≡ some (key, w)
      → (before d key ≡ take pos d)
        × (after d key ≡ drop (suc pos) d)
        × (d ≡ take pos d ++ (key, w) ∷ drop (suc pos) d)
  unfolding before after
  around [] key w pos s e = cc
  around ((k, u) ∷ d) key w zero s e = (
    ground (arith, strcmp_refl k),
    ground (arith, strcmp_refl k),
    ap (λ o. elim o [ none ↦ (k, u) ∷ d | some p ↦ p ∷ d ]) e,
  )
  around ((k, u) ∷ d) key w (suc pos) s e =
      let ih = around d key w pos s.1 e in
      let lt : strcmp k key ≡ less = Above-get_elem? k d pos s.0 e in
      (rw (lt, before) (ap (◌∷◌ (k, u)) ih.0), rw (lt, after) ih.1, ap (◌∷◌ (k, u)) ih.2)

  -- On a sorted dict the bisecting lookup never reads outside the array, and answers like a search
  -- from the front.
  pub get_refines : (d : List (Text × V)) (key : Text) → Sorted d → get d key ≡ some (lookup d key)
  unfolding get
  get_refines d key s = let (b, pos, e, l) = find-Found d key s in go b pos e l
    where
      go :
          (b : Bool) (pos : ℕ)
          → find d key ≡ some (b, pos)
          → Located d key b pos
          → get d key ≡ some (lookup d key)
      go true pos e (w, at) = rw (e, get) (rw (at, get) (rw (present d key w w pos s at).0))
      go false pos e (u, len, b, a) = rw (e, get) (rw (absent d key pos b a).0)

  Above-insert :
      (j key : Text) (v : V) (d : List (Text × V))
      → strcmp j key ≡ less
      → Above j d
      → Above j (insert d key v)
  unfolding insert
  Above-insert j key v [] h a = (h, tt)
  Above-insert j key v ((k, w) ∷ d) h a = ground (arith, Above-insert j key v d h a.1)

  -- Insertion keeps a dict sorted.
  pub insert-Sorted :
      (d : List (Text × V)) (key : Text) (v : V) → Sorted d → Sorted (insert d key v)
  unfolding insert
  insert-Sorted [] key v s = (tt, tt)
  insert-Sorted ((k, w) ∷ d) key v s = go (strcmp k key) refl (insert-Sorted d key v s.1)
    where
      go :
          (c : Sign)
          → strcmp k key ≡ c
          → Sorted (insert d key v)
          → Sorted (insert ((k, w) ∷ d) key v)
      go less e ih = rw (e, insert) (Above-insert k key v d e s.0, ih)
      go same e ih = rw (e, insert) s
      go greater e ih =
          let lt : strcmp key k ≡ less = strcmp-swap k key ∙ ap swap e in
          rw (e, insert) ((lt, Above-trans key k d lt s.0), s)

  -- After an insertion its key has the new value, and every other key the old one.
  pub lookup-insert :
      (d : List (Text × V)) (j k : Text) (v : V)
      → lookup (insert d k v) j ≡ elim (strcmp k j) [ same ↦ some v | _ ↦ lookup d j ]
  unfolding lookup insert
  lookup-insert [] j k v = ground arith
  lookup-insert ((i, w) ∷ d) j k v = ground (
    arith,
    lookup-insert d j k v,
    strcmp_same i k,
    strcmp_same k j,
    strcmp_same i j,
    strcmp_refl k,
    strcmp_refl j,
  )
