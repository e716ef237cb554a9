-- ===== src/Msg/Ends/Parts.antt =====
-- What each read that makes up a value takes off the unread data, or that it stops: the reads of
-- xmmsclient/xmmsipc/msg.c below `xmms_ipc_msg_get_collection_alloc`.
use xmms2remote.Prelude.{
  ℕ, zero, suc, ◌+◌, ◌*◌, ◌%◌, ◌≤◌, ◌<◌, ◌≡◌, ◌≢◌, refl, Bool, true, false, [], ◌∷◌, ◌++◌, Option,
  none, some, ltb, leb, if◌then◌else◌, arith, Bool-cases, inl, inr, Option-cases, ltb→le,
}
use xmms2remote.Value.{
  Text, Value, Fields, Coll, node, new_string, fields_to_list, fields_of_list, set_idlist,
}
use xmms2remote.Value.Text.{until_zero}
use xmms2remote.Dict.{dict_set}
use xmms2remote.Msg.{
  Msg, Memory, Result, ok, failed, fault, out_of_fuel, M, bind, ◌>>◌, pure, require, access,
  u32_mod, from_be32, read_at, get_length, head_len,
}
use xmms2remote.Msg.Get.{
  available, get_data, get_uint32, get_int32, get_string, get_error, get_bin, attribute_set,
  set_field, get_attributes, get_ids, get_idlist,
}

-- The call ended, and if it succeeded, at least `k` bytes of the unread data are gone.
pub data Ends {A : Type 0} (k : ℕ) (m : Msg) : Result A → Type 0 where
  done :
      {a : A} {m' : Msg}
      → available m' + k ≤ available m
      → m'.get_pos < u32_mod
      → Ends k m (ok a m')
  refused : {m' : Msg} → Ends k m (failed m')
  faulted : Ends k m fault

pub Ends-ne : {A : Type 0} {k : ℕ} {m : Msg} {r : Result A} → Ends k m r → r ≢ out_of_fuel
Ends-ne (done h lt) = cc
Ends-ne refused = cc
Ends-ne faulted = cc

-- What went on from a later message, seen from an earlier one.
later :
    {A : Type 0} {m' : Msg} {r : Result A} (j k l : ℕ) (m : Msg)
    → available m' + k ≤ available m
    → l ≤ j + k
    → Ends j m' r
    → Ends l m r
later j k l m h le (done g lt) = done (omega arith) lt
later j k l m h le refused = refused
later j k l m h le faulted = faulted

Ends-bind :
    {A B : Type 0} {r : Result A} (f : A → M B) (j k l : ℕ) (m : Msg)
    → l ≤ j + k
    → Ends k m r
    → ((a : A) (m' : Msg)
        → available m' + k ≤ available m
        → m'.get_pos < u32_mod
        → Ends j m' (f a m'))
    → Ends l m (bind r f)
Ends-bind f j k l m le (done {a} {m'} h lt) g = later j k l m h le (g a m' h lt)
Ends-bind f j k l m le refused g = refused
Ends-bind f j k l m le faulted g = faulted

get_data-Ends : (n : ℕ) (m : Msg) → m.get_pos < u32_mod → Ends n m (get_data n m)
unfolding get_data
get_data-Ends n m lt = elim (Bool-cases (ltb (available m) n)) [
  | inl short ↦ rw short refused
  | inr fits ↦ elim (Option-cases (read_at m.rawdata (head_len + m.get_pos) n)) [
    | inl out ↦ rw fits (rw (out, get_data) faulted)
    | inr (bs, e) ↦
        rw fits (rw (e, get_data) (done (shrinks (ltb→le (available m) n fits)) (omega arith)))
  ]
]
  where
    m' : Msg
    m' = record m { get_pos = (m.get_pos + n) % u32_mod }

    same_length : get_length m' ≡ get_length m
    same_length = unfold get_length in refl

    shrinks : n ≤ available m → available m' + n ≤ available m
    shrinks le = omega (arith, same_length)

module _ {A : Type 0} {l : ℕ} {m : Msg} where
  pub require-Ends : (b : Bool) (p : M A) → Ends l m (p m) → Ends l m ((require b >> p) m)
  require-Ends true p h = h
  require-Ends false p h = refused

  access-Ends : (b : Bool) (p : M A) → Ends l m (p m) → Ends l m ((access b >> p) m)
  access-Ends true p h = h
  access-Ends false p h = faulted

pub pure-Ends : {A : Type 0} {m : Msg} (a : A) → m.get_pos < u32_mod → Ends 0 m (pure a m)
pure-Ends a lt = done (omega arith) lt

pub if-Ends :
    {A : Type 0} {l : ℕ} {m : Msg} (b : Bool) (p q : M A)
    → Ends l m (p m)
    → Ends l m (q m)
    → Ends l m ((if b then p else q) m)
if-Ends true p q h k = h
if-Ends false p q h k = k

-- The rest of a call after a step that took `k` bytes.
pub andthen :
    {A B : Type 0} {r : Result A} (f : A → M B) (k l : ℕ) (m : Msg)
    → l ≤ k
    → Ends k m r
    → ((a : A) (m' : Msg)
        → available m' + k ≤ available m
        → m'.get_pos < u32_mod
        → Ends 0 m' (f a m'))
    → Ends l m (bind r f)
andthen f k l m le = Ends-bind f 0 k l m (omega arith)

pub get_uint32-Ends : (m : Msg) → m.get_pos < u32_mod → Ends 4 m (get_uint32 m)
unfolding get_uint32
get_uint32-Ends m lt =
    andthen _ 4 4 m (omega arith) (get_data-Ends 4 m lt) λ bs m' h lt'. pure-Ends (from_be32 bs) lt'

pub get_int32-Ends : (m : Msg) → m.get_pos < u32_mod → Ends 4 m (get_int32 m)
unfolding get_int32
get_int32-Ends m lt =
    andthen _ 4 4 m (omega arith) (get_data-Ends 4 m lt) λ bs m' h lt'. pure-Ends (from_be32 bs) lt'

pub set_field-Ends :
    (fs : Fields) (k : Text) (v : Option Value) (m : Msg)
    → m.get_pos < u32_mod
    → Ends 0 m (set_field fs k v m)
unfolding set_field
set_field-Ends fs k none m lt = pure-Ends fs lt
set_field-Ends fs k (some v) m lt = elim (Option-cases (dict_set (fields_to_list fs) k v)) [
  | inl e ↦ rw (e, set_field) faulted
  | inr (d, e) ↦ rw (e, set_field) (pure-Ends (fields_of_list d) lt)
]

attribute_set-Ends :
    (c : Option Coll) (k s : Text) (m : Msg)
    → m.get_pos < u32_mod
    → Ends 0 m (attribute_set c k s m)
unfolding attribute_set
attribute_set-Ends none k s m lt = elim (Option-cases (new_string s)) [
  | inl e ↦ rw (e, attribute_set) (pure-Ends none lt)
  | inr (v, e) ↦ rw (e, attribute_set) faulted
]
attribute_set-Ends (some (node t attrs ids ops)) k s m lt = elim (Option-cases (new_string s)) [
  | inl e ↦ rw (e, attribute_set) (pure-Ends (some (node t attrs ids ops)) lt)
  | inr (v, e) ↦
      rw (e, attribute_set)
        (andthen _ 0 0 m (omega arith) (set_field-Ends attrs k (some v) m lt)
          λ a m' h lt'. pure-Ends (some (node t a ids ops)) lt')
]

module _ (mem : Memory) where
  pub get_string-Ends : (m : Msg) → m.get_pos < u32_mod → Ends 4 m (get_string mem m)
  unfolding get_string
  get_string-Ends m lt = andthen _ 4 4 m (omega arith) (get_uint32-Ends m lt) λ l m' h lt'.
      require-Ends (leb l (available m')) _ (
        require-Ends (mem.grants ((l + 1) % u32_mod)) _ (
          access-Ends (ltb l ((l + 1) % u32_mod)) _
            (later l 0 0 m' (omega arith) (omega arith) (get_data-Ends l m' lt'))))

  pub get_error-Ends : (m : Msg) → m.get_pos < u32_mod → Ends 4 m (get_error mem m)
  unfolding get_error
  get_error-Ends m lt = get_string-Ends m lt

  pub get_bin-Ends : (m : Msg) → m.get_pos < u32_mod → Ends 4 m (get_bin mem m)
  unfolding get_bin
  get_bin-Ends m lt = andthen _ 4 4 m (omega arith) (get_uint32-Ends m lt) λ l m' h lt'.
      require-Ends (leb l (available m')) _ (
        require-Ends (mem.grants l) _
          (later l 0 0 m' (omega arith) (omega arith) (get_data-Ends l m' lt')))

  pub get_attributes-Ends :
      (n : ℕ) (c : Option Coll) (m : Msg)
      → m.get_pos < u32_mod
      → Ends 0 m (get_attributes mem n c m)
  unfolding get_attributes
  get_attributes-Ends zero c m lt = pure-Ends c lt
  get_attributes-Ends (suc n) c m lt =
      andthen _ 4 0 m (omega arith) (get_string-Ends m lt) λ k m₁ h₁ lt₁.
        andthen _ 4 0 m₁ (omega arith) (get_string-Ends m₁ lt₁) λ s m₂ h₂ lt₂.
          andthen _ 0 0 m₂ (omega arith) (attribute_set-Ends c (until_zero k) (until_zero s) m₂ lt₂)
            λ c' m₃ h₃ lt₃. get_attributes-Ends n c' m₃ lt₃

  get_ids-Ends :
      (n i cells : ℕ) (m : Msg) → m.get_pos < u32_mod → Ends 0 m (get_ids mem n i cells m)
  unfolding get_ids
  get_ids-Ends zero i cells m lt = pure-Ends [] lt
  get_ids-Ends (suc n) i cells m lt =
      andthen _ 4 0 m (omega arith) (get_uint32-Ends m lt) λ id m₁ h₁ lt₁.
        access-Ends (ltb i cells) _ (
          andthen _ 0 0 m₁ (omega arith) (get_ids-Ends n (i + 1) cells m₁ lt₁)
            λ ids m₂ h₂ lt₂. pure-Ends (id ∷ ids) lt₂)

  pub get_idlist-Ends :
      (c : Option Coll) (m : Msg) → m.get_pos < u32_mod → Ends 4 m (get_idlist mem c m)
  unfolding get_idlist
  get_idlist-Ends c m lt = andthen _ 4 4 m (omega arith) (get_uint32-Ends m lt) λ n m₁ h₁ lt₁.
      require-Ends (mem.grants (4 * ((n + 1) % u32_mod))) _ (
        andthen _ 0 0 m₁ (omega arith) (get_ids-Ends n 0 ((n + 1) % u32_mod) m₁ lt₁)
          λ ids m₂ h₂ lt₂.
            access-Ends (ltb n ((n + 1) % u32_mod)) _
              (pure-Ends (set_idlist c (ids ++ 0 ∷ [])) lt₂))
