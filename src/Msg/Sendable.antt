-- ===== src/Msg/Sendable.antt =====
-- Which values arrive as they were sent: texts without a NUL and in UTF-8, words of 32 bits, sorted
-- dicts, id lists without a zero, collections of a known type, and references without operands.
use xmms2remote.Prelude.{ℕ, ◌^◌, ◌≤◌, ◌<◌, ◌≡◌, ◌≢◌, refl, ap, List, [], ◌∷◌, ◌++◌, true, some, All}
use xmms2remote.Value.{
  Text, Value, Items, Fields, Coll, Operands, nothing, error, int, string, coll, bin, list, dict,
  nil, cons, end, field, node, no_operands, operand, collection_reference, collection_last,
  fields_to_list, fields_of_list, append_operand,
}
use xmms2remote.Value.Text.{ZeroFree}
use xmms2remote.Value.Utf8.{utf8_validate}
use xmms2remote.Dict.Sorted.{Sorted}
use xmms2remote.Dict.Append.{dict_set_next}
use xmms2remote.Msg.{ok}
use xmms2remote.Msg.Get.{set_field}

abbrev pub IsText : Text → Type 0
IsText s = ZeroFree s × (utf8_validate s ≡ true)

abbrev pub IsString : Value → Type 0
IsString (string s) = IsText s
IsString v = ⊥

abbrev pub AreAttributes : Fields → Type 0
AreAttributes end = Unit
AreAttributes (field k v fs) = IsText k × IsString v × AreAttributes fs

abbrev pub AreIds : List ℕ → Type 0
AreIds = All (λ i. (i ≢ 0) × (i < 2 ^ 32))

abbrev pub InOrder : Fields → Type 0
unfolding fields_to_list
InOrder fs = Sorted (fields_to_list fs)

abbrev mutual
  pub SendableColl : Coll → Type 0
  SendableColl (node type attrs ids ops) =
      (type ≤ collection_last)
      × InOrder attrs
      × AreAttributes attrs
      × AreIds ids
      × (type ≡ collection_reference → ops ≡ no_operands)
      × SendableOperands ops

  pub SendableOperands : Operands → Type 0
  SendableOperands no_operands = Unit
  SendableOperands (operand c cs) = SendableColl c × SendableOperands cs

abbrev mutual
  pub Sendable : Value → Type 0
  Sendable nothing = Unit
  Sendable (error s) = ZeroFree s
  Sendable (int w) = w < 2 ^ 32
  Sendable (string s) = IsText s
  Sendable (coll c) = SendableColl c
  Sendable (bin d) = Unit
  Sendable (list xs) = SendableItems xs
  Sendable (dict fs) = InOrder fs × SendableFields fs

  pub SendableItems : Items → Type 0
  SendableItems nil = Unit
  SendableItems (cons v xs) = Sendable v × SendableItems xs

  pub SendableFields : Fields → Type 0
  SendableFields end = Unit
  SendableFields (field k v fs) = IsText k × Sendable v × SendableFields fs

-- Joining dicts and operand lists.
unfoldable pub append_fields : Fields → Fields → Fields
append_fields end gs = gs
append_fields (field k v fs) gs = field k v (append_fields fs gs)

unfoldable pub append_operands : Operands → Operands → Operands
append_operands no_operands ds = ds
append_operands (operand c cs) ds = operand c (append_operands cs ds)

pub append_operands-append :
    (cs : Operands) (c : Coll) (ds : Operands)
    → append_operands (append_operand cs c) ds ≡ append_operands cs (operand c ds)
unfolding append_operands append_operand
append_operands-append no_operands c ds = refl
append_operands-append (operand b cs) c ds = ap (operand b) (append_operands-append cs c ds)

pub append_fields-end : (fs : Fields) → append_fields fs end ≡ fs
unfolding append_fields
append_fields-end end = refl
append_fields-end (field k v fs) = ap (field k v) (append_fields-end fs)

fields_of_list-append :
    (fs : Fields) (k : Text) (v : Value)
    → fields_of_list (fields_to_list fs ++ (k, v) ∷ []) ≡ append_fields fs (field k v end)
unfolding fields_of_list fields_to_list append_fields
fields_of_list-append end k v = refl
fields_of_list-append (field j w fs) k v = ap (field j w) (fields_of_list-append fs k v)

pub append_fields_assoc :
    (fs gs hs : Fields)
    → append_fields (append_fields fs gs) hs ≡ append_fields fs (append_fields gs hs)
unfolding append_fields
append_fields_assoc end gs hs = refl
append_fields_assoc (field k v fs) gs hs = ap (field k v) (append_fields_assoc fs gs hs)

fields_to_list-append :
    (fs gs : Fields) → fields_to_list (append_fields fs gs) ≡ fields_to_list fs ++ fields_to_list gs
unfolding fields_to_list append_fields
fields_to_list-append end gs = refl
fields_to_list-append (field k v fs) gs = ap (◌∷◌ (k, v)) (fields_to_list-append fs gs)

-- `xmmsv_dict_set` on a dict that is filled in order.
pub set_field_next :
    (acc rest : Fields) (k : Text) (v : Value)
    → InOrder (append_fields acc (field k v rest))
    → utf8_validate k ≡ true
    → set_field acc k (some v) ≡ λ m. ok (append_fields acc (field k v end)) m
unfolding set_field fields_to_list
set_field_next acc rest k v s utf8 =
    rw
      (
        dict_set_next (fields_to_list acc) (fields_to_list rest) k v
            (rw (fields_to_list-append acc (field k v rest)) at s) utf8,
        set_field,
      )
      (rw fields_of_list-append)
