-- ===== src/Msg/ReadColl.antt =====
-- A collection with its operands is read back as it was written.
use xmms2remote.Prelude.{
  ℕ, zero, suc, ◌+◌, ◌≤◌, ◌≡◌, refl, ap, true, List, [], ◌++◌, some, length, arith, length-append,
  le→leb,
}
use native.Mathlib.Numerals.{add-one}
use xmms2remote.Value.{
  Fields, Coll, Operands, end, node, no_operands, operand, type_coll, collection_last, coll_new,
  add_operand, append_operand,
}
use xmms2remote.Msg.{Memory, be32}
use xmms2remote.Msg.Put.{count_fields, count_operands}
use xmms2remote.Msg.Get.{get_collection, get_operands}
use xmms2remote.Msg.Encode.{encode_attributes, encode_coll, encode_operands}
use xmms2remote.Msg.Layout.{length-be32}
use xmms2remote.Msg.Reads.{Reads, Reads-pure, Reads-bind, get_uint32-Reads, count-Reads}
use xmms2remote.Msg.ReadParts.{
  get_attributes-Reads, get_idlist-Reads, count_attributes-le, count_operands-le, id_bytes,
  operand_bytes, encode_coll_whole, length-encode_coll,
}
use xmms2remote.Msg.Sendable.{
  SendableColl, SendableOperands, append_fields, append_operands, append_operands-append,
}

module _ (mem : Memory) (enough : (n : ℕ) → mem.grants n ≡ true) where
  append_operands-end : (cs : Operands) → append_operands cs no_operands ≡ cs
  unfolding append_operands
  append_operands-end no_operands = refl
  append_operands-end (operand c cs) = ap (operand c) (append_operands-end cs)

  abbrev pub ReadsColl : Coll → Type 0
  ReadsColl c =
      (f : ℕ) → length (encode_coll c) ≤ f → Reads (get_collection mem f) (encode_coll c) (some c)

  abbrev pub ReadsOperands : Operands → Type 0
  ReadsOperands cs =
      (f type : ℕ) (attrs : Fields) (ids : List ℕ) (acc : Operands)
      → length (encode_operands cs) + 1 ≤ f
      → Reads (get_operands mem f (count_operands cs) (some (node type attrs ids acc)))
          (encode_operands cs) (some (node type attrs ids (append_operands acc cs)))

  -- The reader of a collection, given the reader of its operands.
  get_collection_node :
      (f type : ℕ) (attrs : Fields) (ids : List ℕ) (ops : Operands)
      → SendableColl (node type attrs ids ops)
      → ReadsOperands ops
      → length (encode_coll (node type attrs ids ops)) ≤ f
      → Reads
          (get_collection mem f)
          (encode_coll (node type attrs ids ops))
          (some (node type attrs ids ops))
  unfolding get_collection coll_new append_fields append_operands
  get_collection_node zero type attrs ids ops h r le =
      absurd (omega (arith, length-encode_coll type attrs ids ops h))
  get_collection_node (suc f) type attrs ids ops h r le =
      rw (encode_coll_whole type attrs ids ops h) (
        Reads-bind _ _ (be32 type) _ type _ (get_uint32-Reads type (omega (arith, h.0))) (
          rw (le→leb type collection_last h.0) (
            count-Reads (count_fields attrs) _ _ _
              (omega (
                arith,
                count_attributes-le attrs h.2,
                length-append (encode_attributes attrs) (id_bytes ids ++ operand_bytes ops),
              ))
              (Reads-bind _ _ (encode_attributes attrs) _ _ _
                (get_attributes-Reads mem enough type end attrs [] no_operands h.1 h.2)
                (Reads-bind _ _ (id_bytes ids) _ _ _
                  (get_idlist-Reads mem enough type attrs ids no_operands h.3)
                  (count-Reads (count_operands ops) (encode_operands ops) _ _
                    (count_operands-le ops)
                    (r f type attrs ids no_operands
                      (omega (arith, length-encode_coll type attrs ids ops h)))))))))

  mutual
    unfolding get_operands encode_operands count_operands append_operands add_operand

    pub get_collection-Reads : (c : Coll) → SendableColl c → ReadsColl c
    get_collection-Reads (node type attrs ids ops) h f le =
        get_collection_node f type attrs ids ops h (get_operands-Reads ops h.5) le

    pub get_operands-Reads : (cs : Operands) → SendableOperands cs → ReadsOperands cs
    get_operands-Reads no_operands h zero type attrs ids acc le = absurd (omega arith)
    get_operands-Reads no_operands h (suc f) type attrs ids acc le =
        rw (append_operands-end acc) (Reads-pure (some (node type attrs ids acc)))
    get_operands-Reads (operand c cs) h zero type attrs ids acc le = absurd (omega arith)
    get_operands-Reads (operand c cs) h (suc f) type attrs ids acc le = rw add-one (
        Reads-bind _ _ (be32 type_coll) _ type_coll _ (get_uint32-Reads type_coll (omega arith)) (
          Reads-bind _ _ (encode_coll c) _ (some c) _
            (get_collection-Reads c h.0 f (omega (arith, long, length-be32 type_coll)))
            (rw (append_operands-append acc c cs) at (
              get_operands-Reads cs h.1 f type attrs ids (append_operand acc c)
                (omega (arith, long, length-be32 type_coll))))))
      where
        long :
            length (be32 type_coll ++ (encode_coll c ++ encode_operands cs))
            ≡ length (be32 type_coll) + (length (encode_coll c) + length (encode_operands cs))
        long = omega (
          arith,
          length-append (be32 type_coll) (encode_coll c ++ encode_operands cs),
          length-append (encode_coll c) (encode_operands cs),
        )
