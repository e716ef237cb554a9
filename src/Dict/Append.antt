-- ===== src/Dict/Append.antt =====
-- A dict that is filled in the order of its keys grows at its end.
use xmms2remote.Prelude.{
  ◌≡◌, refl, ap, List, [], ◌∷◌, ◌++◌, some, true, ◌∙◌, Bool, false, ◌&&◌, if◌then◌else◌, none,
}
use xmms2remote.Value.{Text}
use xmms2remote.Value.Utf8.{utf8_validate}
use xmms2remote.Value.Text.{strcmp, less}
use xmms2remote.Dict.{Grants, pairs, try_set, dict_set}
use xmms2remote.Dict.Sorted.{Above, Below, Sorted, lookup, insert}
use xmms2remote.Dict.Changes.{succeeds, set_result, try_set_refines, dict_set_refines}

if_and {ℓ} :
    {A : Type ℓ} (b c : Bool) (x y : A)
    → (if b then (if c then x else y) else y) ≡ (if b && c then x else y)
if_and true c x y = refl
if_and false c x y = refl

module _ {ℓ} {V : Type ℓ} where
  insert-Below :
      (d : List (Text × V)) (key : Text) (v : V) → Below key d → insert d key v ≡ d ++ (key, v) ∷ []
  unfolding insert
  insert-Below [] key v b = refl
  insert-Below ((k, w) ∷ d) key v b = rw (b.0, insert) (ap (◌∷◌ (k, w)) (insert-Below d key v b.1))

  lookup-Below : (d : List (Text × V)) (key : Text) → Below key d → lookup d key ≡ none
  unfolding lookup
  lookup-Below [] key b = refl
  lookup-Below ((k, w) ∷ d) key b = rw (b.0, lookup) (lookup-Below d key b.1)

  pub Above-append_left : (k : Text) (a b : List (Text × V)) → Above k (a ++ b) → Above k a
  Above-append_left k [] b h = tt
  Above-append_left k (p ∷ a) b h = (h.0, Above-append_left k a b h.1)

  Above-append_head :
      (k : Text) (a b : List (Text × V)) (j : Text) (v : V)
      → Above k (a ++ (j, v) ∷ b)
      → strcmp k j ≡ less
  Above-append_head k [] b j v h = h.0
  Above-append_head k (p ∷ a) b j v h = Above-append_head k a b j v h.1

  Sorted-append_left : (a b : List (Text × V)) → Sorted (a ++ b) → Sorted a
  Sorted-append_left [] b s = tt
  Sorted-append_left ((k, v) ∷ a) b s = (Above-append_left k a b s.0, Sorted-append_left a b s.1)

  Sorted-append_Below :
      (a b : List (Text × V)) (k : Text) (v : V) → Sorted (a ++ (k, v) ∷ b) → Below k a
  Sorted-append_Below [] b k v s = tt
  Sorted-append_Below ((j, w) ∷ a) b k v s =
      (Above-append_head j a b k v s.0, Sorted-append_Below a b k v s.1)

  -- Setting the next key of a sorted sequence adds its pair at the end, or changes nothing.
  pub try_set_next :
      (g : Grants) (a b : List (Text × V)) (k : Text) (v : V)
      → Sorted (a ++ (k, v) ∷ b)
      → utf8_validate k ≡ true
      → try_set g a k v ≡ (if succeeds g then pairs true (a ++ (k, v) ∷ []) else pairs false a)
  unfolding set_result
  try_set_next g a b k v s utf8 =
      let below = Sorted-append_Below a b k v s in
      try_set_refines g a k v (Sorted-append_left a ((k, v) ∷ b) s) utf8
      ∙ rw (lookup-Below a k below, set_result, insert-Below a k v below)
          (if_and g.iterator (g.first && g.second) _ _)

  -- The same where no memory is refused.
  pub dict_set_next :
      (a b : List (Text × V)) (k : Text) (v : V)
      → Sorted (a ++ (k, v) ∷ b)
      → utf8_validate k ≡ true
      → dict_set a k v ≡ some (a ++ (k, v) ∷ [])
  dict_set_next a b k v s utf8 =
      dict_set_refines a k v (Sorted-append_left a ((k, v) ∷ b) s) utf8
      ∙ ap some (insert-Below a k v (Sorted-append_Below a b k v s))
