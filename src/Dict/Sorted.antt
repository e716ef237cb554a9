-- ===== src/Dict/Sorted.antt =====
-- Sorted lists of pairs, and the plain linear map that the bisecting dict stands for.
use xmms2remote.Prelude.{
  ℕ, zero, suc, ◌≡◌, List, [], ◌∷◌, Option, none, some, get_elem?, take, drop, All,
}
use xmms2remote.Value.{Text}
use xmms2remote.Value.Text.{less, same, greater, strcmp}
use xmms2remote.Dict.Order.{strcmp_trans}

module _ {ℓ} {V : Type ℓ} where
  -- Every key of the list is above `k`, or below it.
  abbrev pub Above : Text → List (Text × V) → Type 0
  Above k = All (λ p. strcmp k p.0 ≡ less)

  abbrev pub Below : Text → List (Text × V) → Type 0
  Below k = All (λ p. strcmp p.0 k ≡ less)

  -- Strictly increasing keys.
  abbrev pub Sorted : List (Text × V) → Type 0
  Sorted [] = Unit
  Sorted ((k, v) ∷ d) = Above k d × Sorted d

  -- Lookup in a list of pairs, from the front.
  unfoldable pub lookup : List (Text × V) → Text → Option V
  lookup [] key = none
  lookup ((k, v) ∷ d) key =
      let rest = lookup d key in elim (strcmp k key) [ same ↦ some v | _ ↦ rest ]

  -- Insertion at the place that the order gives.
  unfoldable pub insert : List (Text × V) → Text → V → List (Text × V)
  insert [] key v = (key, v) ∷ []
  insert ((k, w) ∷ d) key v =
      let rest = insert d key v in
      elim (strcmp k key) [
        | less ↦ (k, w) ∷ rest
        | same ↦ (k, v) ∷ d
        | greater ↦ (key, v) ∷ (k, w) ∷ d
      ]

  pub Above-trans : (j k : Text) (d : List (Text × V)) → strcmp j k ≡ less → Above k d → Above j d
  Above-trans j k [] h a = tt
  Above-trans j k ((i, v) ∷ d) h a = (strcmp_trans j k i h a.0, Above-trans j k d h a.1)

  pub Above-get_elem? :
      (k : Text) (d : List (Text × V)) (i : ℕ) {p : Text × V}
      → Above k d
      → get_elem? d i ≡ some p
      → strcmp k p.0 ≡ less
  Above-get_elem? k [] i a e = cc
  Above-get_elem? k (q ∷ d) zero {p} a e = subst_key q p (some_eq q p e) a.0
    where
      some_eq : (q p : Text × V) → some q ≡ some p → q ≡ p
      some_eq q p e = cc

      subst_key : (q p : Text × V) → q ≡ p → strcmp k q.0 ≡ less → strcmp k p.0 ≡ less
      subst_key q p e h = rw (← e) h
  Above-get_elem? k (q ∷ d) (suc i) a e = Above-get_elem? k d i a.1 e

  -- A pair whose key is below `key` has all before it below, itself included.
  pub Below-take :
      (d : List (Text × V)) (i : ℕ) (k key : Text) (v : V)
      → Sorted d
      → get_elem? d i ≡ some (k, v)
      → strcmp k key ≡ less
      → Below key (take (suc i) d)
  Below-take [] i k key v s e h = tt
  Below-take ((j, w) ∷ d) zero k key v s e h = (cc, tt)
  Below-take ((j, w) ∷ d) (suc i) k key v s e h =
      (strcmp_trans j k key (Above-get_elem? j d i s.0 e) h, Below-take d i k key v s.1 e h)

  -- A pair whose key is above `key` has all after it above, itself included.
  pub Above-drop :
      (d : List (Text × V)) (i : ℕ) (k key : Text) (v : V)
      → Sorted d
      → get_elem? d i ≡ some (k, v)
      → strcmp key k ≡ less
      → Above key (drop i d)
  Above-drop [] zero k key v s e h = tt
  Above-drop [] (suc i) k key v s e h = tt
  Above-drop ((j, w) ∷ d) zero k key v s e h =
      let below : strcmp key j ≡ less = cc in (below, Above-trans key j d below s.0)
  Above-drop ((j, w) ∷ d) (suc i) k key v s e h = Above-drop d i k key v s.1 e h
