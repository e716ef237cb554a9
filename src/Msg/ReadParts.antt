-- ===== src/Msg/ReadParts.antt =====
-- The attributes and the id list of a collection are read back as they were written.
use xmms2remote.Prelude.{
  ℕ, ◌+◌, ◌*◌, ◌%◌, ◌≤◌, ◌<◌, ◌≡◌, true, List, [], ◌∷◌, ◌++◌, some, length, ◌==◌, arith,
  length-append, append_assoc, append-nil, lt→ltb, Bool-cases, ==_iff, inl, inr,
}
use native.Mathlib.Numerals.{add-one}
use xmms2remote.Value.{
  Text, Fields, Operands, string, end, field, node, no_operands, operand, type_coll,
  collection_reference, new_string, set_idlist,
}
use xmms2remote.Value.Text.{until_zero, ZeroFree, until_zero-append, until_zero-ZeroFree}
use xmms2remote.Msg.{Memory, be32, u32_mod}
use xmms2remote.Msg.Put.{count_fields, count_operands}
use xmms2remote.Msg.Get.{get_string, attribute_set, get_attributes, get_ids, get_idlist}
use xmms2remote.Msg.Encode.{
  encode_text, encode_attributes, encode_ids, sent_operands, encode_coll, encode_operands,
}
use xmms2remote.Msg.Layout.{length-be32}
use xmms2remote.Msg.Reads.{
  Reads, Reads-pure, Reads-bind, get_uint32-Reads, count-Reads, get_string-Reads,
}
use xmms2remote.Msg.Sendable.{
  IsText, AreAttributes, AreIds, InOrder, SendableColl, append_fields, append_fields-end,
  append_fields_assoc, set_field_next,
}

AreIds-ZeroFree : (ids : List ℕ) → AreIds ids → ZeroFree ids
AreIds-ZeroFree [] h = tt
AreIds-ZeroFree (i ∷ ids) h = (h.0.0, AreIds-ZeroFree ids h.1)

length-encode_ids : (ids : List ℕ) → length (encode_ids ids) ≡ 4 * length ids
unfolding encode_ids
length-encode_ids [] = omega arith
length-encode_ids (i ∷ ids) =
    omega (arith, length-append (be32 i) (encode_ids ids), length-be32 i, length-encode_ids ids)

module _ (mem : Memory) (enough : (n : ℕ) → mem.grants n ≡ true) where
  pub get_text-Reads : (s : Text) → Reads (get_string mem) (encode_text s) (s ++ 0 ∷ [])
  unfolding encode_text
  get_text-Reads s =
      let h = get_string-Reads mem enough (s ++ 0 ∷ []) in rw (length-append s (0 ∷ [])) at h

  attribute_set_next :
      (type : ℕ) (acc rest : Fields) (ids : List ℕ) (ops : Operands) (k s : Text)
      → InOrder (append_fields acc (field k (string s) rest))
      → IsText k
      → IsText s
      → Reads
          (attribute_set
            (some (node type acc ids ops))
            (until_zero (k ++ 0 ∷ []))
            (until_zero (s ++ 0 ∷ [])))
          []
          (some (node type (append_fields acc (field k (string s) end)) ids ops))
  unfolding attribute_set new_string
  attribute_set_next type acc rest ids ops k s o hk hs =
      rw (until_zero-append k [] hk.0, until_zero-append s [] hs.0)
        (rw (hs.1, attribute_set)
          (rw (set_field_next acc rest k (string s) o hk.1, attribute_set) (Reads-pure _)))

  pub get_attributes-Reads :
      (type : ℕ) (acc fs : Fields) (ids : List ℕ) (ops : Operands)
      → InOrder (append_fields acc fs)
      → AreAttributes fs
      → Reads
          (get_attributes mem (count_fields fs) (some (node type acc ids ops)))
          (encode_attributes fs)
          (some (node type (append_fields acc fs) ids ops))
  unfolding get_attributes count_fields encode_attributes append_fields
  get_attributes-Reads type acc end ids ops o h =
      rw (append_fields-end acc) (Reads-pure (some (node type acc ids ops)))
  get_attributes-Reads type acc (field k (string s) fs) ids ops o h = rw add-one (
      Reads-bind _ _ (encode_text k) _ (k ++ 0 ∷ []) _ (get_text-Reads k) (
        Reads-bind _ _ (encode_text s) _ (s ++ 0 ∷ []) _ (get_text-Reads s) (
          Reads-bind _ _ [] _ _ _ (attribute_set_next type acc fs ids ops k s o h.0 h.1) (
            rw (append_fields_assoc acc (field k (string s) end) fs) at (
              get_attributes-Reads type (append_fields acc (field k (string s) end)) fs ids ops
                (rw (append_fields_assoc acc (field k (string s) end) fs) o) h.2)))))
  get_attributes-Reads type acc (field k _ fs) ids ops o h = absurd h.1

  get_ids-Reads :
      (ids : List ℕ) (i cells : ℕ)
      → AreIds ids
      → i + length ids < cells
      → Reads (get_ids mem (length ids) i cells) (encode_ids ids) ids
  unfolding get_ids encode_ids
  get_ids-Reads [] i cells h lt = Reads-pure []
  get_ids-Reads (id ∷ ids) i cells h lt =
      Reads-bind _ _ (be32 id) _ id _ (get_uint32-Reads id h.0.1) (
        rw (lt→ltb i cells (omega arith)) (
          rw (← append-nil (encode_ids ids)) (
            Reads-bind _ _ (encode_ids ids) [] ids _
              (get_ids-Reads ids (i + 1) cells h.1 (omega arith)) (Reads-pure (id ∷ ids)))))

  pub get_idlist-Reads :
      (type : ℕ) (attrs : Fields) (ids : List ℕ) (ops : Operands)
      → AreIds ids
      → Reads
          (get_idlist mem (some (node type attrs [] ops)))
          (be32 (length ids) ++ encode_ids ids)
          (some (node type attrs ids ops))
  unfolding get_idlist set_idlist
  get_idlist-Reads type attrs ids ops h m rest at =
      count-Reads (length ids) (encode_ids ids) _ _ (omega (arith, length-encode_ids ids))
        (rw enough (
          rw (← append-nil (encode_ids ids)) (
            Reads-bind _ _ (encode_ids ids) [] ids _
              (get_ids-Reads ids 0 cells h (omega (arith, lt)))
              (rw (lt→ltb (length ids) cells lt, until_zero-append ids [] (AreIds-ZeroFree ids h))
                (Reads-pure (some (node type attrs ids ops)))))))
        m rest at
    where
      cells : ℕ
      cells = (length ids + 1) % u32_mod

      lt : length ids < cells
      lt = omega (
        arith,
        at.small,
        length-append (be32 (length ids) ++ encode_ids ids) rest,
        length-append (be32 (length ids)) (encode_ids ids),
        length-encode_ids ids,
      )

-- Every attribute and every operand takes at least four bytes.
length-encode_text : (s : Text) → 4 ≤ length (encode_text s)
unfolding encode_text be32
length-encode_text s = omega arith

pub count_attributes-le :
    (fs : Fields) → AreAttributes fs → 4 * count_fields fs ≤ length (encode_attributes fs)
unfolding count_fields encode_attributes
count_attributes-le end h = omega arith
count_attributes-le (field k (string s) fs) h = omega (
  arith,
  count_attributes-le fs h.2,
  length-append (encode_text k) (encode_text s ++ encode_attributes fs),
  length-append (encode_text s) (encode_attributes fs),
  length-encode_text k,
)
count_attributes-le (field k _ fs) h = absurd h.1

pub count_operands-le : (cs : Operands) → 4 * count_operands cs ≤ length (encode_operands cs)
unfolding count_operands encode_operands
count_operands-le no_operands = omega arith
count_operands-le (operand c cs) = omega (
  arith,
  count_operands-le cs,
  length-append (be32 type_coll) (encode_coll c ++ encode_operands cs),
  length-append (encode_coll c) (encode_operands cs),
  length-be32 type_coll,
)

-- The bytes of a sendable collection, all operands included.
abbrev pub id_bytes : List ℕ → List ℕ
id_bytes ids = be32 (length ids) ++ encode_ids ids

abbrev pub operand_bytes : Operands → List ℕ
operand_bytes ops = be32 (count_operands ops) ++ encode_operands ops

pub encode_coll_whole :
    (type : ℕ) (attrs : Fields) (ids : List ℕ) (ops : Operands)
    → SendableColl (node type attrs ids ops)
    → encode_coll (node type attrs ids ops)
      ≡ be32 type
        ++ (be32 (count_fields attrs)
            ++ (encode_attributes attrs ++ (id_bytes ids ++ operand_bytes ops)))
unfolding encode_coll sent_operands
encode_coll_whole type attrs ids ops h =
    rw (until_zero-ZeroFree ids (AreIds-ZeroFree ids h.3))
      (elim (Bool-cases (type == collection_reference)) [
        | inl r ↦ rw (r, h.4 ((==_iff type collection_reference).0 r)) (simp append_assoc)
        | inr o ↦ rw o (simp append_assoc)
      ])

pub length-encode_coll :
    (type : ℕ) (attrs : Fields) (ids : List ℕ) (ops : Operands)
    → SendableColl (node type attrs ids ops)
    → 16 + length (encode_operands ops) ≤ length (encode_coll (node type attrs ids ops))
unfolding be32
length-encode_coll type attrs ids ops h = rw (encode_coll_whole type attrs ids ops h) (
    omega (
      arith,
      length-append (encode_attributes attrs) (id_bytes ids ++ operand_bytes ops),
      length-append (id_bytes ids) (operand_bytes ops),
    ))
