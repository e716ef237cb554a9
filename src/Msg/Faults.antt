-- ===== src/Msg/Faults.antt =====
-- Two messages that a server should not be able to send: the reader runs into a memory fault.
use xmms2remote.Prelude.{
  ℕ, suc, ◌+◌, ◌-◌, ◌*◌, ◌%◌, ◌^◌, ◌≤◌, ◌<◌, ◌≡◌, true, List, [], ◌++◌, Option, arith, gt→leb,
  le→ltb,
}
use xmms2remote.Value.{Text, Coll, coll_new, collection_last, new_string}
use xmms2remote.Value.Text.{until_zero-append}
use xmms2remote.Msg.{Msg, Memory, fault, be32, u32_mod}
use xmms2remote.Msg.Get.{get_idlist, get_ids, get_collection, get_attributes, attribute_set}
use xmms2remote.Msg.Encode.{encode_text}
use xmms2remote.Msg.Reads.{At, get_uint32-Reads}
use xmms2remote.Msg.ReadParts.{get_text-Reads}
use xmms2remote.Msg.Sendable.{IsText}

module _ (mem : Memory) (enough : (n : ℕ) → mem.grants n ≡ true) where
  -- An id beyond the array is written all the same.
  get_ids_overflow :
      (n i cells id : ℕ) (m : Msg) (rest : List ℕ)
      → cells ≤ i
      → id < 2 ^ 32
      → At m (be32 id ++ rest)
      → get_ids mem (suc n) i cells m ≡ fault
  unfolding get_ids
  get_ids_overflow n i cells id m rest le lt at =
      let (m₁, e₁, at₁) = get_uint32-Reads id lt m rest at in rw e₁ (rw (le→ltb i cells le))

  -- An id list that announces 2 ^ 32 - 1 ids is given an array of no cells, and the first id that
  -- follows is written outside it.
  pub get_idlist_overflow :
      (c : Option Coll) (m : Msg) (n id : ℕ) (rest : List ℕ)
      → suc n ≡ 2 ^ 32 - 1
      → id < 2 ^ 32
      → At m (be32 (suc n) ++ (be32 id ++ rest))
      → get_idlist mem c m ≡ fault
  unfolding get_idlist
  get_idlist_overflow c m n id rest e lt at =
      let (m₁, e₁, at₁) = get_uint32-Reads (suc n) (omega arith) m (be32 id ++ rest) at in
      rw e₁ (
        rw (enough (4 * ((suc n + 1) % u32_mod)))
          (rw (get_ids_overflow n 0 ((suc n + 1) % u32_mod) id m₁ rest (omega arith) lt at₁)))

  -- A collection of a type that there is not, with an attribute: the attribute is stored through
  -- the null pointer that `xmmsv_coll_new` returned.
  pub null_collection :
      (f type n : ℕ) (k s : Text) (m : Msg) (rest : List ℕ)
      → collection_last < type
      → type < 2 ^ 32
      → suc n < 2 ^ 32
      → IsText k
      → IsText s
      → At m (be32 type ++ (be32 (suc n) ++ (encode_text k ++ (encode_text s ++ rest))))
      → get_collection mem (suc f) m ≡ fault
  unfolding get_collection get_attributes attribute_set new_string coll_new
  null_collection f type n k s m rest bad lt ltn hk hs at =
      let (m₁, e₁, at₁) = get_uint32-Reads type lt m _ at in
      let (m₂, e₂, at₂) = get_uint32-Reads (suc n) ltn m₁ _ at₁ in
      let (m₃, e₃, at₃) = get_text-Reads mem enough k m₂ _ at₂ in
      let (m₄, e₄, at₄) = get_text-Reads mem enough s m₃ rest at₃ in
      rw e₁ (
        rw e₂ (
          rw (gt→leb type collection_last bad)
            (rw e₃ (rw e₄ (rw (until_zero-append s [] hs.0) (rw (hs.1, attribute_set)))))))
