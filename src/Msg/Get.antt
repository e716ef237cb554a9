-- ===== src/Msg/Get.antt =====
-- Reading values out of a message, xmmsclient/xmmsipc/msg.c: `xmms_ipc_msg_get_data`, the
-- `xmms_ipc_msg_get_*_alloc` functions and `xmmsc_deserialize_*`. A null value or collection is
-- `none`. Sizes passed to malloc are those of a 64-bit size_t.
use xmms2remote.Prelude.{
  ℕ, zero, suc, ◌+◌, ◌-◌, ◌*◌, ◌%◌, List, [], ◌∷◌, ◌++◌, Option, none, some, length, ltb, leb, ◌==◌,
  if◌then◌else◌,
}
use xmms2remote.Value.{
  Text, Value, Items, Fields, Coll, nothing, error, int, coll, bin, list, dict, nil, cons, end,
  node, type_none, type_error, type_int32, type_string, type_coll, type_bin, type_list, type_dict,
  new_string, coll_new, set_idlist, add_operand, fields_to_list, fields_of_list,
}
use xmms2remote.Value.Text.{until_zero}
use xmms2remote.Dict.{dict_set}
use xmms2remote.Msg.{
  Msg, Memory, ok, failed, fault, out_of_fuel, M, ◌>>=◌, ◌>>◌, pure, current, fail, crash, require,
  access, u32_mod, head_len, from_be32, read_at, get_length,
}

-- `xmms_ipc_msg_get_length (msg) - msg->get_pos`, in uint32_t.
abbrev pub available : Msg → ℕ
available m = (get_length m + u32_mod - m.get_pos) % u32_mod

-- `xmms_ipc_msg_get_data`.
unfoldable pub get_data : ℕ → M (List ℕ)
get_data len m =
    if ltb (available m) len
    then failed m
    else elim (read_at m.rawdata (head_len + m.get_pos) len) [
      | none ↦ fault
      | some bs ↦ ok bs (record m { get_pos = (m.get_pos + len) % u32_mod })
    ]

-- `xmms_ipc_msg_get_uint32` and `_get_int32`: the pattern of 32 bits.
unfoldable pub get_uint32 : M ℕ
get_uint32 = do bs ← get_data 4; pure (from_be32 bs)

unfoldable pub get_int32 : M ℕ
get_int32 = do bs ← get_data 4; pure (from_be32 bs)

-- The pairs of the attributes or of a dict after `xmmsv_dict_set`; a null value is not stored.
unfoldable pub set_field : Fields → Text → Option Value → M Fields
set_field fs key none = pure fs
set_field fs key (some v) = elim (dict_set (fields_to_list fs) key v) [
  | none ↦ crash
  | some d ↦ pure (fields_of_list d)
]

-- `xmmsv_coll_attribute_set`: nothing for a value that is not UTF-8; then the collection is read.
unfoldable pub attribute_set : Option Coll → Text → Text → M (Option Coll)
unfolding new_string set_field
attribute_set c key val = elim (new_string val) [
  | none ↦ pure c
  | some v ↦ elim c [
    | none ↦ crash
    | some (node type attrs ids ops) ↦ do
      attrs' ← set_field attrs key (some v)
      pure (some (node type attrs' ids ops))
  ]
]

module _ (mem : Memory) where
  -- `xmms_ipc_msg_get_string_alloc`: all the bytes sent; the buffer ends in one more zero.
  unfoldable pub get_string : M (List ℕ)
  get_string = do
    l ← get_uint32
    m ← current
    require (leb l (available m))
    require (mem.grants ((l + 1) % u32_mod))
    access (ltb l ((l + 1) % u32_mod))
    get_data l

  -- `xmms_ipc_msg_get_error_alloc`.
  unfoldable pub get_error : M (List ℕ)
  get_error = get_string

  -- `xmms_ipc_msg_get_bin_alloc`.
  unfoldable pub get_bin : M (List ℕ)
  get_bin = do
    l ← get_uint32
    m ← current
    require (leb l (available m))
    require (mem.grants l)
    get_data l

  -- The attribute loop of `xmms_ipc_msg_get_collection_alloc`, with the rounds left.
  unfoldable pub get_attributes : ℕ → Option Coll → M (Option Coll)
  get_attributes zero c = pure c
  get_attributes (suc n) c = do
    key ← get_string
    val ← get_string
    c' ← attribute_set c (until_zero key) (until_zero val)
    get_attributes n c'

  -- Its id loop: each id is written to cell `i` of an array of `cells`.
  unfoldable pub get_ids : ℕ → ℕ → ℕ → M (List ℕ)
  get_ids zero i cells = pure []
  get_ids (suc n) i cells = do
    id ← get_uint32
    access (ltb i cells)
    ids ← get_ids n (i + 1) cells
    pure (id ∷ ids)

  -- From the count to `xmmsv_coll_set_idlist`: the array has n_items + 1 cells, in uint32_t.
  unfoldable pub get_idlist : Option Coll → M (Option Coll)
  get_idlist c = do
    n ← get_uint32
    let cells = (n + 1) % u32_mod
    require (mem.grants (4 * cells))
    ids ← get_ids n 0 cells
    access (ltb n cells)
    pure (set_idlist c (ids ++ 0 ∷ []))

  -- `xmms_ipc_msg_get_collection_alloc`. The fuel bounds the calls; `out_of_fuel` is not of the
  -- program.
  unfoldable mutual
    pub get_collection : ℕ → M (Option Coll)
    get_collection zero = λ m. out_of_fuel
    get_collection (suc f) = do
      type ← get_uint32
      n_attrs ← get_uint32
      c ← get_attributes n_attrs (coll_new type)
      c' ← get_idlist c
      n_operands ← get_uint32
      get_operands f n_operands c'

    -- The operand loop, with the rounds left.
    pub get_operands : ℕ → ℕ → Option Coll → M (Option Coll)
    get_operands zero n c = λ m. out_of_fuel
    get_operands (suc f) zero c = pure c
    get_operands (suc f) (suc n) c = do
      type ← get_uint32
      require (type == type_coll)
      op ← get_collection f
      get_operands f n (add_operand c op)

  -- `xmmsv_new_coll`, null for null, and `xmmsv_new_bin`, null if its copy is not granted.
  unfoldable pub new_coll : Option Coll → Option Value
  new_coll none = none
  new_coll (some c) = some (coll c)

  unfoldable pub new_bin : List ℕ → Option Value
  new_bin d = if mem.grants (length d) then some (bin d) else none

  -- `xmmsv_list_append`: a null entry is not stored. (The entries that follow come last.)
  unfoldable pub add_item : Option Value → Items → Items
  add_item none xs = xs
  add_item (some v) xs = cons v xs

  -- `xmms_ipc_msg_get_value_alloc` with `xmms_ipc_msg_get_value_of_type_alloc`, and the loops of
  -- `xmmsc_deserialize_list` and `xmmsc_deserialize_dict` with the rounds left.
  unfoldable mutual
    pub get_value : ℕ → M (Option Value)
    get_value zero = λ m. out_of_fuel
    get_value (suc f) = do
      type ← get_int32
      let on_none : M (Option Value) = pure (some nothing)
      let on_error : M (Option Value) = do s ← get_error; pure (some (error (until_zero s)))
      let on_int : M (Option Value) = do w ← get_int32; pure (some (int w))
      let on_string : M (Option Value) = do s ← get_string; pure (new_string (until_zero s))
      let on_coll : M (Option Value) = do c ← get_collection f; pure (new_coll c)
      let on_bin : M (Option Value) = do d ← get_bin; pure (new_bin d)
      let on_list : M (Option Value) = do n ← get_uint32; xs ← get_items f n; pure (some (list xs))
      let on_dict : M (Option Value) = do
        n ← get_uint32
        fs ← get_fields f n end
        pure (some (dict fs))
      let unknown : M (Option Value) = fail
      if type == type_error
          then on_error
          else if type == type_int32
          then on_int
          else if type == type_string
          then on_string
          else if type == type_dict
          then on_dict
          else if type == type_list
          then on_list
          else if type == type_coll
          then on_coll
          else if type == type_bin
          then on_bin
          else if type == type_none
          then on_none
          else unknown

    pub get_items : ℕ → ℕ → M Items
    get_items zero n = λ m. out_of_fuel
    get_items (suc f) zero = pure nil
    get_items (suc f) (suc n) = do v ← get_value f; xs ← get_items f n; pure (add_item v xs)

    pub get_fields : ℕ → ℕ → Fields → M Fields
    get_fields zero n fs = λ m. out_of_fuel
    get_fields (suc f) zero fs = pure fs
    get_fields (suc f) (suc n) fs = do
      key ← get_string
      v ← get_value f
      fs' ← set_field fs (until_zero key) v
      get_fields f n fs'
