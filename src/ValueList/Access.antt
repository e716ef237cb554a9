-- ===== src/ValueList/Access.antt =====
-- xmmsclient/xmmstypes/value.c: `xmmsv_list_get`, `_set`, `_clear` and `_restrict_type`.
use xmms2remote.Prelude.{
  ℕ, zero, suc, ◌+◌, ◌≤◌, ◌<◌, ◌≡◌, refl, ◌∙◌, ◌⊎◌, inl, inr, List, [], ◌∷◌, All, map, none, some,
  Bool, true, false, ==_iff, length, get_elem?, set, ◌==◌, lt→ltb, if◌then◌else◌, Bool-cases, arith,
}
use xmms2remote.Value.{Value, get_type}
use xmms2remote.ValueList.{
  ValueList, ℤ, pos, Outcome, done, fault, Place, cell, outside, overflow, absolutify, store,
  at_place,
}
use xmms2remote.ValueList.Cells.{length-set}
use xmms2remote.ValueList.Shift.{set-take}
use xmms2remote.ValueList.Inv.{contents, IsValid}
use xmms2remote.ValueList.Places.{Points, Negatable, Placed, absolutify_inside}
use xmms2remote.ValueList.Iter.{Entry, entry, no_entry, read_cell, foreach, foreach-contents}

unfoldable pub get_place : ValueList → Place → Entry
unfolding read_cell
get_place l overflow = Entry.fault
get_place l outside = no_entry
get_place l (cell p) = read_cell l.list (pos p)

-- `xmmsv_list_get`.
unfoldable pub list_get : ValueList → ℤ → Entry
unfolding absolutify get_place
list_get l at = get_place l (absolutify at l.size false)

unfoldable pub set_cell : Value → ValueList → ℕ → Outcome
unfolding store
set_cell v l p = elim (store l.list p v) [
  | none ↦ fault
  | some cells ↦ done true (record l { list = cells })
]

-- `xmmsv_list_set`, which does not ask whether the list is restricted to a type.
unfoldable pub list_set : ValueList → ℤ → Value → Outcome
unfolding absolutify at_place set_cell
list_set l at v = at_place (set_cell v l) l (absolutify at l.size false)

-- `_xmmsv_list_clear`.
unfoldable pub list_clear : ValueList → ValueList
list_clear l = record l {
  list = [];
  size = 0;
  allocated = 0;
  iterators = map (λ it. pos 0) l.iterators;
}

unfoldable pub all_of_type : ℕ → List Value → Bool
all_of_type type [] = true
all_of_type type (v ∷ vs) = if get_type v == type then all_of_type type vs else false

-- `xmmsv_list_restrict_type`: once only, and only if every value has the type. When one has not,
-- the source leaves its new iterator registered with the list. Its allocation is taken to succeed.
unfoldable pub first_other : ℕ → List Value → ℕ
first_other type [] = 0
first_other type (v ∷ vs) =
    let rest = first_other type vs in if get_type v == type then rest + 1 else 0

unfoldable pub restrict_all : ℕ → ValueList → Outcome
unfolding foreach all_of_type first_other
restrict_all type l = elim (foreach (l.size + 1) l) [
  | none ↦ fault
  | some vs ↦
      if all_of_type type vs
      then done true (record l { restricted = true; restricttype = type })
      else done false (record l { iterators = pos (first_other type vs) ∷ l.iterators })
]

unfoldable pub list_restrict_type : ℕ → ValueList → Outcome
unfolding restrict_all
list_restrict_type type l = if l.restricted then done false l else restrict_all type l

module _ {ℓ} {A : Type ℓ} where
  get_elem?-set : (xs : List A) (p : ℕ) (v : A) → p < length xs → get_elem? (set xs p v) p ≡ some v
  get_elem?-set [] p v lt = absurd (omega arith)
  get_elem?-set (x ∷ xs) zero v lt = refl
  get_elem?-set (x ∷ xs) (suc p) v lt = get_elem?-set xs p v (omega arith)

-- What `xmmsv_list_set` must do: the value at the position that the int stands for is replaced and
-- is what a read at that int then gives; or there is no such position and nothing changes.
abbrev pub Replaced : ValueList → ℤ → Value → Outcome → Type 0
Replaced l at v fault = ⊥
Replaced l at v (done false l') = (l' ≡ l) × ((p : ℕ) → Points at l.size p → l.size ≤ p)
Replaced l at v (done true l') =
    (p : ℕ) × Points at l.size p
    × p < l.size
    × IsValid l'
    × (contents l' ≡ set (contents l) p v)
    × (list_get l' at ≡ entry v)

module _ (l : ValueList) (valid : IsValid l) (at : ℤ) (v : Value) where
  set_cell_lem :
      (p : ℕ) → p < length l.list → set_cell v l p ≡ done true (record l { list = set l.list p v })
  unfolding set_cell store
  set_cell_lem p inside = rw (set_cell, lt→ltb p (length l.list) inside) refl

  at_place-Replaced :
      (r : Place)
      → Placed at l.size l.size r
      → absolutify at l.size false ≡ r
      → Replaced l at v (at_place (set_cell v l) l r)
  unfolding at_place list_get get_place read_cell
  at_place-Replaced overflow placed e = elim placed [ ]
  at_place-Replaced outside placed e = (refl, placed)
  at_place-Replaced (cell p) (points, lt) e =
      let inside : p < length l.list = omega (arith, valid.whole, valid.room) in
      rw (set_cell_lem p inside) (
        p,
        points,
        lt,
        record {
          whole = length-set l.list p v ∙ valid.whole;
          room = valid.room;
          within = valid.within;
        },
        set-take l.size p l.list v,
        rw (e, get_place, read_cell, get_elem?-set l.list p v inside) refl,
      )

  -- On a well-formed list, set at an int (not the least) replaces the value at the position that it
  -- stands for, no other value, and get at the same int then reads the new value; or there is no
  -- such position and nothing changes. Neither goes outside the array.
  pub list_get-list_set : Negatable at → Replaced l at v (list_set l at v)
  unfolding list_set
  list_get-list_set ok =
      at_place-Replaced (absolutify at l.size false) (absolutify_inside at l.size ok) refl

-- What `xmmsv_list_restrict_type` must do.
abbrev pub Restricted : ℕ → ValueList → Outcome → Type 0
Restricted type l fault = ⊥
Restricted type l (done true l') =
    All (λ v. get_type v ≡ type) (contents l)
    × (l' ≡ record l { restricted = true; restricttype = type })
Restricted type l (done false l') =
    (contents l' ≡ contents l)
    × ((l.restricted ≡ true) ⊎ ¬ All (λ v. get_type v ≡ type) (contents l))

all_of_type_lem :
    (type : ℕ) (vs : List Value)
    → ((all_of_type type vs ≡ true) × All (λ v. get_type v ≡ type) vs)
      ⊎ ((all_of_type type vs ≡ false) × ¬ All (λ v. get_type v ≡ type) vs)
unfolding all_of_type
all_of_type_lem type [] = inl (refl, tt)
all_of_type_lem type (v ∷ vs) = elim (Bool-cases (get_type v == type)) [
  | inr b ↦ rw b (inr (refl, λ a. (let same : get_type v ≡ type = a.0 in ground arith)))
  | inl b ↦ rw b (elim (all_of_type_lem type vs) [
    | inl (e, a) ↦ inl (e, ((==_iff (get_type v) type).0 b, a))
    | inr (e, other) ↦ inr (e, λ a. other a.1)
  ])
]

module _ (type : ℕ) (l : ValueList) (v : IsValid l) where
  restrict_all-Restricted : Restricted type l (restrict_all type l)
  unfolding restrict_all
  restrict_all-Restricted =
      rw (restrict_all, foreach-contents l v (l.size + 1) (omega arith))
        (elim (all_of_type_lem type (contents l)) [
          | inl (e, a) ↦ rw e (a, refl)
          | inr (e, other) ↦ rw e (refl, inr other)
        ])

  if_restricted :
      (b : Bool)
      → l.restricted ≡ b
      → Restricted type l (if b then done false l else restrict_all type l)
  if_restricted true e = (refl, inl e)
  if_restricted false e = restrict_all-Restricted

  -- A well-formed list is restricted to a type exactly if it was not restricted before and all its
  -- values have the type; otherwise the call fails and the values stay.
  pub list_restrict_type_lem : Restricted type l (list_restrict_type type l)
  unfolding list_restrict_type
  list_restrict_type_lem = if_restricted l.restricted refl
