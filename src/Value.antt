-- ===== src/Value.antt =====
-- The values that travel between client and server, xmmsclient/xmmstypes/value.c and coll.c:
-- `xmmsv_t` and `xmmsv_coll_t` with their constructors. A text is the bytes of its C string before
-- the NUL, an int32 its bit pattern below 2 ^ 32; a dict is its flat array, taken as pairs.
pub mod Text
pub mod Search
pub mod Utf8
use Utf8.{utf8_validate}
use Text.{until_zero}
use xmms2remote.Prelude.{
  ℕ, suc, ◌+◌, ◌≤◌, ◌<◌, Bool, true, false, ◌≡◌, refl, Option, none, some, List, [], ◌∷◌, leb,
  if◌then◌else◌,
}

-- A C string: its bytes without the NUL that ends it.
abbrev pub Text : Type 0
Text = List ℕ

-- `struct xmmsv_St`, one constructor for each `xmmsv_type_t`, and `struct xmmsv_coll_St` with the
-- contents of its operand list, its attribute dict and its id array (without the final zero).
mutual
  pub data Value : Type 0 where
    nothing : Value
    error : Text → Value
    int : ℕ → Value
    string : Text → Value
    coll : Coll → Value
    bin : List ℕ → Value
    list : Items → Value
    dict : Fields → Value

  pub data Items : Type 0 where
    nil : Items
    cons : Value → Items → Items

  pub data Fields : Type 0 where
    end : Fields
    field : Text → Value → Fields → Fields

  pub data Coll : Type 0 where
    node : ℕ → Fields → List ℕ → Operands → Coll

  pub data Operands : Type 0 where
    no_operands : Operands
    operand : Coll → Operands → Operands

-- The numbers of `xmmsv_type_t`.
abbrev pub type_none : ℕ
type_none = 0

abbrev pub type_error : ℕ
type_error = 1

abbrev pub type_int32 : ℕ
type_int32 = 2

abbrev pub type_string : ℕ
type_string = 3

abbrev pub type_coll : ℕ
type_coll = 4

abbrev pub type_bin : ℕ
type_bin = 5

abbrev pub type_list : ℕ
type_list = 6

abbrev pub type_dict : ℕ
type_dict = 7

-- `XMMS_COLLECTION_TYPE_REFERENCE` and `XMMS_COLLECTION_TYPE_LAST`.
abbrev pub collection_reference : ℕ
collection_reference = 0

abbrev pub collection_last : ℕ
collection_last = 11

unfoldable pub get_type : Value → ℕ
get_type nothing = type_none
get_type (error s) = type_error
get_type (int w) = type_int32
get_type (string s) = type_string
get_type (coll c) = type_coll
get_type (bin d) = type_bin
get_type (list xs) = type_list
get_type (dict fs) = type_dict

-- `xmmsv_new_string`: null (`none`) for bytes that are not UTF-8.
unfoldable pub new_string : Text → Option Value
new_string s = if utf8_validate s then some (string s) else none

-- `xmmsv_coll_new`: null for a type that there is not.
unfoldable pub coll_new : ℕ → Option Coll
coll_new type = if leb type collection_last then some (node type end [] no_operands) else none

-- `xmmsv_coll_set_idlist`: the ids up to the first zero; nothing for a null collection.
unfoldable pub set_idlist : Option Coll → List ℕ → Option Coll
unfolding until_zero
set_idlist none ids = none
set_idlist (some (node type attrs old ops)) ids = some (node type attrs (until_zero ids) ops)

unfoldable pub append_operand : Operands → Coll → Operands
append_operand no_operands c = operand c no_operands
append_operand (operand d ds) c = operand d (append_operand ds c)

-- `xmmsv_coll_add_operand` for an operand that is not in the list yet; nothing if one is null.
unfoldable pub add_operand : Option Coll → Option Coll → Option Coll
unfolding append_operand
add_operand none op = none
add_operand (some c) none = some c
add_operand (some (node type attrs ids ops)) (some op) =
    some (node type attrs ids (append_operand ops op))

-- The pairs of a dict as a list, and back.
unfoldable pub fields_to_list : Fields → List (Text × Value)
fields_to_list end = []
fields_to_list (field k v fs) = (k, v) ∷ fields_to_list fs

unfoldable pub fields_of_list : List (Text × Value) → Fields
fields_of_list [] = end
fields_of_list ((k, v) ∷ d) = field k v (fields_of_list d)
