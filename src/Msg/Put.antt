-- ===== src/Msg/Put.antt =====
-- Writing values into a message, xmmsclient/xmmsipc/msg.c: `xmms_ipc_msg_put_data` and the
-- `internal_ipc_msg_put_*` functions over it. A message pointer is never null here.
use xmms2remote.Prelude.{
  ℕ, ◌+◌, ◌-◌, ◌%◌, List, [], ◌∷◌, ◌++◌, Option, none, some, length, take, ltb, ◌==◌, if◌then◌else◌,
}
use xmms2remote.Value.{
  Text, Value, Items, Fields, Coll, Operands, nothing, error, int, string, coll, bin, list, dict,
  nil, cons, end, field, node, no_operands, operand, get_type, type_coll, collection_reference,
}
use xmms2remote.Value.Text.{until_zero}
use xmms2remote.Msg.{
  Memory, ok, fault, M, bind, ◌>>=◌, ◌>>◌, pure, current, u32_mod, head_len, default_size, be32,
  store_at, get_length, set_length,
}

-- The number of pairs of a dict and of operands of a collection, as the loops count them.
unfoldable pub count_fields : Fields → ℕ
count_fields end = 0
count_fields (field k v fs) = count_fields fs + 1

unfoldable pub count_operands : Operands → ℕ
count_operands no_operands = 0
count_operands (operand c cs) = count_operands cs + 1

-- `xmms_ipc_msg_store_uint32`.
unfoldable pub store_uint32 : ℕ → ℕ → M (Unit {0})
unfolding store_at
store_uint32 offset v = store_at (head_len + offset) (be32 v)

module _ (mem : Memory) where
  -- `realloc (msg->data, size)`, whose failure nobody checks: the next access goes through null.
  unfoldable pub resize : ℕ → M (Unit {0})
  resize n m =
      if mem.grants n
      then ok tt
          (record m { rawdata = take n m.rawdata ++ mem.fresh (n - length m.rawdata); size = n })
      else fault

  -- The growth step of `xmms_ipc_msg_put_data`; sums are those of uint32_t.
  unfoldable pub make_room : ℕ → M (Unit {0})
  unfolding resize
  make_room len m =
      let realloc_size = if ltb default_size len then len else default_size in
      if ltb m.size ((get_length m + head_len + len) % u32_mod)
      then resize ((m.size + realloc_size) % u32_mod) m
      else ok tt m

  -- `xmms_ipc_msg_put_data`: the offset at which the bytes were placed.
  unfoldable pub put_data : List ℕ → M ℕ
  put_data bs m =
      let placed : M ℕ = λ m'.
        let total = get_length m' in
        bind (store_at (head_len + total) bs m')
          λ _ m₁. bind (set_length ((total + length bs) % u32_mod) m₁) λ _ m₂. ok total m₂ in
      bind (make_room (length bs) m) λ _. placed

  -- `internal_ipc_msg_put_uint32` and `_put_int32`: the same bytes for a pattern of 32 bits.
  unfoldable pub put_uint32 : ℕ → M ℕ
  put_uint32 v = put_data (be32 v)

  unfoldable pub put_int32 : ℕ → M ℕ
  put_int32 v = put_data (be32 v)

  unfoldable pub put_bin : List ℕ → M ℕ
  put_bin d = do _ ← put_uint32 (length d); put_data d

  -- `internal_ipc_msg_put_string`, with `none` for a null pointer: the NUL travels too.
  unfoldable pub put_string : Option Text → M ℕ
  put_string none = put_uint32 0
  put_string (some s) = do _ ← put_uint32 (length s + 1); put_data (s ++ 0 ∷ [])

  -- `internal_ipc_msg_put_error` has the same body.
  unfoldable pub put_error : Option Text → M ℕ
  put_error none = put_uint32 0
  put_error (some s) = do _ ← put_uint32 (length s + 1); put_data (s ++ 0 ∷ [])

  -- `xmms_ipc_append_coll_attr` for each attribute: one that is no string is skipped.
  unfoldable pub put_attributes : Fields → M (Unit {0})
  put_attributes end = pure tt
  put_attributes (field k (string s) fs) = do
    _ ← put_string (some k)
    _ ← put_string (some s)
    put_attributes fs
  put_attributes (field k v fs) = put_attributes fs

  unfoldable pub put_ids : List ℕ → M (Unit {0})
  put_ids [] = pure tt
  put_ids (i ∷ ids) = do _ ← put_uint32 i; put_ids ids

  -- `internal_ipc_msg_put_collection`; a reference does not send its operands.
  unfoldable mutual
    pub put_collection : Coll → M ℕ
    put_collection (node type attrs idlist ops) = do
      _ ← put_uint32 type
      _ ← put_uint32 (count_fields attrs)
      put_attributes attrs
      _ ← put_uint32 (length (until_zero idlist))
      put_ids (until_zero idlist)
      let n = if type == collection_reference then 0 else count_operands ops
      ret ← put_uint32 n
      let loop = put_operands ret ops
      if ltb 0 n then loop else pure ret

    -- The loop over the operands, each behind the number of its type.
    pub put_operands : ℕ → Operands → M ℕ
    put_operands ret no_operands = pure ret
    put_operands ret (operand c cs) = do
      _ ← put_int32 type_coll
      ret' ← put_collection c
      put_operands ret' cs

  -- `xmms_ipc_msg_put_value`, `internal_ipc_msg_put_value_list` and `_put_value_dict`. The result is
  -- `none` where the source returns a variable that it never set (an empty list or dict).
  unfoldable mutual
    pub put_value : Value → M (Option ℕ)
    put_value nothing = do _ ← put_int32 (get_type nothing); m ← current; pure (some (get_length m))
    put_value (error s) = do
      _ ← put_int32 (get_type (error s))
      ret ← put_error (some s)
      pure (some ret)
    put_value (int w) = do _ ← put_int32 (get_type (int w)); ret ← put_int32 w; pure (some ret)
    put_value (string s) = do
      _ ← put_int32 (get_type (string s))
      ret ← put_string (some s)
      pure (some ret)
    put_value (coll c) = do
      _ ← put_int32 (get_type (coll c))
      ret ← put_collection c
      pure (some ret)
    put_value (bin d) = do _ ← put_int32 (get_type (bin d)); ret ← put_bin d; pure (some ret)
    put_value (list xs) = do
      _ ← put_int32 (get_type (list xs))
      offset ← put_uint32 0
      (count, ret) ← put_items 0 none xs
      store_uint32 offset count
      pure ret
    put_value (dict fs) = do
      _ ← put_int32 (get_type (dict fs))
      offset ← put_uint32 0
      (count, ret) ← put_fields 0 none fs
      store_uint32 offset count
      pure ret

    pub put_items : ℕ → Option ℕ → Items → M (ℕ × Option ℕ)
    put_items count ret nil = pure (count, ret)
    put_items count ret (cons v xs) = do
      ret' ← put_value v
      put_items ((count + 1) % u32_mod) ret' xs

    pub put_fields : ℕ → Option ℕ → Fields → M (ℕ × Option ℕ)
    put_fields count ret end = pure (count, ret)
    put_fields count ret (field k v fs) = do
      _ ← put_string (some k)
      ret' ← put_value v
      put_fields ((count + 1) % u32_mod) ret' fs
