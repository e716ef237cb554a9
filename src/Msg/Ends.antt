-- ===== src/Msg/Ends.antt =====
-- Reading always ends: every read takes bytes off the unread data, so fuel above their number is
-- never used up, whatever the message holds.
mod Parts
use Parts.{
  Ends, refused, Ends-ne, require-Ends, pure-Ends, if-Ends, andthen, get_uint32-Ends,
  get_int32-Ends, set_field-Ends, get_string-Ends, get_error-Ends, get_bin-Ends,
  get_attributes-Ends, get_idlist-Ends,
}
use xmms2remote.Prelude.{
  ℕ, zero, suc, ◌+◌, ◌*◌, ◌%◌, ◌^◌, ◌≤◌, ◌<◌, ◌≡◌, ◌≢◌, refl, Bool, true, false, [], ◌∷◌, ◌++◌,
  Option, none, some, ltb, leb, ◌==◌, if◌then◌else◌, arith, Bool-cases, inl, inr, Option-cases,
  ltb→le,
}
use xmms2remote.Value.{
  Text, Value, Fields, Coll, end, node, coll_new, new_string, fields_to_list, fields_of_list,
  set_idlist, add_operand, type_coll, type_none, type_error, type_int32, type_string, type_bin,
  type_list, type_dict,
}
use xmms2remote.Value.Text.{until_zero}
use xmms2remote.Dict.{dict_set}
use xmms2remote.Msg.{
  Msg, Memory, Result, ok, failed, fault, out_of_fuel, M, bind, ◌>>◌, pure, require, access,
  u32_mod, from_be32, read_at, get_length, head_len,
}
use xmms2remote.Msg.Get.{
  available, get_data, get_uint32, get_int32, get_string, get_error, get_bin, attribute_set,
  set_field, get_attributes, get_ids, get_idlist, get_collection, get_operands, get_value,
  get_items, get_fields,
}

module _ (mem : Memory) where
  mutual
    unfolding get_collection

    get_collection-Ends :
        (f : ℕ) (m : Msg)
        → m.get_pos < u32_mod
        → available m < f
        → Ends 4 m (get_collection mem f m)
    get_collection-Ends zero m lt le = absurd (omega arith)
    get_collection-Ends (suc f) m lt le =
        andthen _ 4 4 m (omega arith) (get_uint32-Ends m lt) λ type m₁ h₁ lt₁.
          andthen _ 4 0 m₁ (omega arith) (get_uint32-Ends m₁ lt₁) λ n m₂ h₂ lt₂.
            andthen _ 0 0 m₂ (omega arith) (get_attributes-Ends mem n (coll_new type) m₂ lt₂)
              λ c m₃ h₃ lt₃.
                andthen _ 4 0 m₃ (omega arith) (get_idlist-Ends mem c m₃ lt₃) λ c' m₄ h₄ lt₄.
                  andthen _ 4 0 m₄ (omega arith) (get_uint32-Ends m₄ lt₄)
                    λ k m₅ h₅ lt₅. get_operands-Ends f k c' m₅ lt₅ (omega arith)

    get_operands-Ends :
        (f n : ℕ) (c : Option Coll) (m : Msg)
        → m.get_pos < u32_mod
        → available m + 1 < f
        → Ends 0 m (get_operands mem f n c m)
    get_operands-Ends zero n c m lt le = absurd (omega arith)
    get_operands-Ends (suc f) zero c m lt le = pure-Ends c lt
    get_operands-Ends (suc f) (suc n) c m lt le =
        andthen _ 4 0 m (omega arith) (get_uint32-Ends m lt) λ type m₁ h₁ lt₁.
          require-Ends (type == type_coll) _ (
            andthen _ 4 0 m₁ (omega arith) (get_collection-Ends f m₁ lt₁ (omega arith))
              λ op m₂ h₂ lt₂. get_operands-Ends f n (add_operand c op) m₂ lt₂ (omega arith))

  mutual
    unfolding get_value

    get_value-Ends :
        (f : ℕ) (m : Msg) → m.get_pos < u32_mod → available m < f → Ends 4 m (get_value mem f m)
    get_value-Ends zero m lt le = absurd (omega arith)
    get_value-Ends (suc f) m lt le =
        andthen _ 4 4 m (omega arith) (get_int32-Ends m lt) λ type m' h lt'.
          if-Ends (type == type_error) _ _
            (andthen _ 4 0 m' (omega arith) (get_error-Ends mem m' lt')
              λ s m₂ h₂ lt₂. pure-Ends _ lt₂)
            (if-Ends (type == type_int32) _ _
              (andthen _ 4 0 m' (omega arith) (get_int32-Ends m' lt')
                λ w m₂ h₂ lt₂. pure-Ends _ lt₂)
              (if-Ends (type == type_string) _ _
                (andthen _ 4 0 m' (omega arith) (get_string-Ends mem m' lt')
                  λ s m₂ h₂ lt₂. pure-Ends _ lt₂)
                (if-Ends (type == type_dict) _ _
                  (andthen _ 4 0 m' (omega arith) (get_uint32-Ends m' lt') λ n m₂ h₂ lt₂.
                    andthen _ 0 0 m₂ (omega arith) (get_fields-Ends f n end m₂ lt₂ (omega arith))
                      λ fs m₃ h₃ lt₃. pure-Ends _ lt₃)
                  (if-Ends (type == type_list) _ _
                    (andthen _ 4 0 m' (omega arith) (get_uint32-Ends m' lt') λ n m₂ h₂ lt₂.
                      andthen _ 0 0 m₂ (omega arith) (get_items-Ends f n m₂ lt₂ (omega arith))
                        λ xs m₃ h₃ lt₃. pure-Ends _ lt₃)
                    (if-Ends (type == type_coll) _ _
                      (andthen _ 4 0 m' (omega arith) (get_collection-Ends f m' lt' (omega arith))
                        λ c m₂ h₂ lt₂. pure-Ends _ lt₂)
                      (if-Ends (type == type_bin) _ _
                        (andthen _ 4 0 m' (omega arith) (get_bin-Ends mem m' lt')
                          λ d m₂ h₂ lt₂. pure-Ends _ lt₂)
                        (if-Ends (type == type_none) _ _ (pure-Ends _ lt') refused)))))))

    get_items-Ends :
        (f n : ℕ) (m : Msg)
        → m.get_pos < u32_mod
        → available m + 1 < f
        → Ends 0 m (get_items mem f n m)
    get_items-Ends zero n m lt le = absurd (omega arith)
    get_items-Ends (suc f) zero m lt le = pure-Ends _ lt
    get_items-Ends (suc f) (suc n) m lt le =
        andthen _ 4 0 m (omega arith) (get_value-Ends f m lt (omega arith)) λ v m₁ h₁ lt₁.
          andthen _ 0 0 m₁ (omega arith) (get_items-Ends f n m₁ lt₁ (omega arith))
            λ xs m₂ h₂ lt₂. pure-Ends _ lt₂

    get_fields-Ends :
        (f n : ℕ) (fs : Fields) (m : Msg)
        → m.get_pos < u32_mod
        → available m + 1 < f
        → Ends 0 m (get_fields mem f n fs m)
    get_fields-Ends zero n fs m lt le = absurd (omega arith)
    get_fields-Ends (suc f) zero fs m lt le = pure-Ends fs lt
    get_fields-Ends (suc f) (suc n) fs m lt le =
        andthen _ 4 0 m (omega arith) (get_string-Ends mem m lt) λ k m₁ h₁ lt₁.
          andthen _ 4 0 m₁ (omega arith) (get_value-Ends f m₁ lt₁ (omega arith)) λ v m₂ h₂ lt₂.
            andthen _ 0 0 m₂ (omega arith) (set_field-Ends fs (until_zero k) v m₂ lt₂)
              λ fs' m₃ h₃ lt₃. get_fields-Ends f n fs' m₃ lt₃ (omega arith)

  -- Whatever the message holds, `xmms_ipc_msg_get_value` returns: with more fuel than there are
  -- unread bytes the model never runs out of it.
  pub get_value_ends :
      (f : ℕ) (m : Msg) → m.get_pos < 2 ^ 32 → available m < f → get_value mem f m ≢ out_of_fuel
  get_value_ends f m lt le = Ends-ne (get_value-Ends f m lt le)
