-- ===== src/Msg/Encode.antt =====
-- The wire format of a value, as a function to bytes: what `xmms_ipc_msg_put_value` is to append.
use xmms2remote.Prelude.{ℕ, ◌+◌, List, [], ◌∷◌, ◌++◌, length, ◌==◌, if◌then◌else◌}
use xmms2remote.Value.{
  Text, Value, Items, Fields, Coll, Operands, nothing, error, int, string, coll, bin, list, dict,
  nil, cons, end, field, node, no_operands, operand, get_type, type_coll, collection_reference,
}
use xmms2remote.Value.Text.{until_zero}
use xmms2remote.Msg.{be32}
use xmms2remote.Msg.Put.{count_fields, count_operands}

unfoldable pub count_items : Items → ℕ
count_items nil = 0
count_items (cons v xs) = count_items xs + 1

-- A length word, the bytes and the NUL.
unfoldable pub encode_text : Text → List ℕ
encode_text s = be32 (length s + 1) ++ (s ++ 0 ∷ [])

unfoldable pub encode_attributes : Fields → List ℕ
encode_attributes end = []
encode_attributes (field k (string s) fs) = encode_text k ++ (encode_text s ++ encode_attributes fs)
encode_attributes (field k v fs) = encode_attributes fs

unfoldable pub encode_ids : List ℕ → List ℕ
encode_ids [] = []
encode_ids (i ∷ ids) = be32 i ++ encode_ids ids

-- The operands that travel: none for a reference.
unfoldable pub sent_operands : ℕ → Operands → Operands
sent_operands type ops = if type == collection_reference then no_operands else ops

unfoldable mutual
  pub encode_coll : Coll → List ℕ
  encode_coll (node type attrs idlist ops) =
      be32 type
      ++ (be32 (count_fields attrs)
          ++ (encode_attributes attrs
              ++ (be32 (length (until_zero idlist))
                  ++ (encode_ids (until_zero idlist)
                      ++ (be32 (count_operands (sent_operands type ops))
                          ++ (if type == collection_reference then [] else encode_operands ops))))))

  pub encode_operands : Operands → List ℕ
  encode_operands no_operands = []
  encode_operands (operand c cs) = be32 type_coll ++ (encode_coll c ++ encode_operands cs)

-- The type number and what follows it.
unfoldable mutual
  pub encode : Value → List ℕ
  encode nothing = be32 (get_type nothing) ++ []
  encode (error s) = be32 (get_type (error s)) ++ encode_text s
  encode (int w) = be32 (get_type (int w)) ++ be32 w
  encode (string s) = be32 (get_type (string s)) ++ encode_text s
  encode (coll c) = be32 (get_type (coll c)) ++ encode_coll c
  encode (bin d) = be32 (get_type (bin d)) ++ (be32 (length d) ++ d)
  encode (list xs) = be32 (get_type (list xs)) ++ (be32 (count_items xs) ++ encode_items xs)
  encode (dict fs) = be32 (get_type (dict fs)) ++ (be32 (count_fields fs) ++ encode_fields fs)

  pub encode_items : Items → List ℕ
  encode_items nil = []
  encode_items (cons v xs) = encode v ++ encode_items xs

  pub encode_fields : Fields → List ℕ
  encode_fields end = []
  encode_fields (field k v fs) = encode_text k ++ (encode v ++ encode_fields fs)
