-- ===== src/Collection.antt =====
-- Building a collection, xmmsclient/xmmstypes/coll.c: its types, its attributes, and the collection
-- of all media. A null pointer is `none`.
pub mod IdList
pub mod Operands
use xmms2remote.Prelude.{ℕ, Option, none, some}
use xmms2remote.Value.{
  Text, Value, Fields, Coll, node, new_string, coll_new, fields_to_list, fields_of_list,
  collection_reference,
}
use xmms2remote.Value.Text.{codes}
use xmms2remote.Dict.{dict_set, try_set, set_found, find, find_loop}

-- `xmmsv_coll_type_t`, from 1 on.
abbrev pub collection_union : ℕ
collection_union = 1

abbrev pub collection_intersection : ℕ
collection_intersection = 2

abbrev pub collection_complement : ℕ
collection_complement = 3

abbrev pub collection_has : ℕ
collection_has = 4

abbrev pub collection_equals : ℕ
collection_equals = 5

abbrev pub collection_match : ℕ
collection_match = 6

abbrev pub collection_smaller : ℕ
collection_smaller = 7

abbrev pub collection_greater : ℕ
collection_greater = 8

-- The attribute dict after `xmmsv_dict_set`. Its search cannot leave a sorted dict; `none` of it is
-- taken for no change.
unfoldable pub set_entry : Fields → Text → Value → Fields
unfolding dict_set try_set set_found find find_loop
set_entry fs key v = elim (dict_set (fields_to_list fs) key v) [
  | none ↦ fs
  | some d ↦ fields_of_list d
]

-- `xmmsv_coll_attribute_set`, on a value that may be null: nothing for one that is no UTF-8 text.
unfoldable pub coll_attribute_set : Option Coll → Text → Option Text → Option Coll
unfolding new_string set_entry
coll_attribute_set none key value = none
coll_attribute_set (some c) key none = some c
coll_attribute_set (some (node type attrs ids ops)) key (some s) = elim (new_string s) [
  | none ↦ some (node type attrs ids ops)
  | some v ↦ some (node type (set_entry attrs key v) ids ops)
]

-- `xmmsv_coll_universe`.
unfoldable pub universe : Option Coll
unfolding coll_new coll_attribute_set
universe =
    coll_attribute_set (coll_new collection_reference) (codes "reference")
      (some (codes "All Media"))
