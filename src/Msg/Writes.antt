-- ===== src/Msg/Writes.antt =====
-- Each `internal_ipc_msg_put_*` appends the wire format of what it is given.
use xmms2remote.Prelude.{
  ℕ, ◌+◌, ◌≡◌, refl, true, List, [], ◌∷◌, ◌++◌, some, length, ltb, lt→ltb, ◌==◌, if◌then◌else◌,
  arith, length-append, append_assoc, append-nil, Bool-cases, inl, inr,
}
use xmms2remote.Value.{
  Text, Fields, Coll, Operands, string, end, field, node, no_operands, operand, type_coll,
  collection_reference,
}
use xmms2remote.Value.Text.{until_zero}
use xmms2remote.Msg.{Msg, Memory, ok, M, ◌>>=◌, pure, be32}
use xmms2remote.Msg.Put.{
  count_fields, count_operands, put_data, put_uint32, put_int32, put_bin, put_string, put_error,
  put_attributes, put_ids, put_collection, put_operands,
}
use xmms2remote.Msg.Layout.{Frame}
use xmms2remote.Msg.Append.{Writable, Fits, put_data_lem}
use xmms2remote.Msg.Encode.{
  encode_text, encode_attributes, encode_ids, sent_operands, encode_coll, encode_operands,
}

-- On a message with room the operation succeeds and appends exactly these bytes.
abbrev pub Writes : {A : Type 0} → M A → List ℕ → Type 0
Writes {A} p bs =
    (f : Frame) (m : Msg) (d : List ℕ)
    → Writable f m d
    → Fits (length d + length bs)
    → (a : A) × (m' : Msg) × (p m ≡ ok a m') × Writable f m' (d ++ bs)

pub Writes-pure : {A : Type 0} (a : A) → Writes (pure a) []
Writes-pure a f m d w fits = (a, m, refl, rw append-nil w)

pub Writes-bind :
    {A B : Type 0} (p : M A) (k : A → M B) (bs cs : List ℕ)
    → Writes p bs
    → ((a : A) → Writes (k a) cs)
    → Writes (p >>= k) (bs ++ cs)
Writes-bind p k bs cs h g f m d w fits =
    let (a, m₁, e₁, w₁) = h f m d w (omega (arith, length-append bs cs)) in
    let (b, m₂, e₂, w₂) =
      g a f m₁ (d ++ bs) w₁ (omega (arith, length-append bs cs, length-append d bs)) in
    (b, m₂, rw e₁ e₂, rw (← append_assoc d bs cs) w₂)

module _ (mem : Memory) (enough : (n : ℕ) → mem.grants n ≡ true) where
  pub put_data-Writes : (bs : List ℕ) → Writes (put_data mem bs) bs
  put_data-Writes bs f m d w fits =
      let (m', e, w') = put_data_lem mem enough f m d bs w fits in (length d, m', e, w')

  pub put_uint32-Writes : (v : ℕ) → Writes (put_uint32 mem v) (be32 v)
  unfolding put_uint32
  put_uint32-Writes v = put_data-Writes (be32 v)

  pub put_int32-Writes : (v : ℕ) → Writes (put_int32 mem v) (be32 v)
  unfolding put_int32
  put_int32-Writes v = put_data-Writes (be32 v)

  pub put_string-Writes : (s : Text) → Writes (put_string mem (some s)) (encode_text s)
  unfolding put_string encode_text
  put_string-Writes s =
      Writes-bind _ _ (be32 (length s + 1)) (s ++ 0 ∷ []) (put_uint32-Writes (length s + 1))
        (λ _. put_data-Writes (s ++ 0 ∷ []))

  pub put_error-Writes : (s : Text) → Writes (put_error mem (some s)) (encode_text s)
  unfolding put_error encode_text
  put_error-Writes s =
      Writes-bind _ _ (be32 (length s + 1)) (s ++ 0 ∷ []) (put_uint32-Writes (length s + 1))
        (λ _. put_data-Writes (s ++ 0 ∷ []))

  pub put_bin-Writes : (d : List ℕ) → Writes (put_bin mem d) (be32 (length d) ++ d)
  unfolding put_bin
  put_bin-Writes d =
      Writes-bind _ _ (be32 (length d)) d (put_uint32-Writes (length d)) (λ _. put_data-Writes d)

  put_attributes-Writes : (fs : Fields) → Writes (put_attributes mem fs) (encode_attributes fs)
  unfolding put_attributes encode_attributes
  put_attributes-Writes end = Writes-pure tt
  put_attributes-Writes (field k (string s) fs) =
      Writes-bind _ _ (encode_text k) (encode_text s ++ encode_attributes fs) (put_string-Writes k)
        λ _.
          Writes-bind _ _ (encode_text s) (encode_attributes fs) (put_string-Writes s)
            λ _. put_attributes-Writes fs
  put_attributes-Writes (field k _ fs) = put_attributes-Writes fs

  put_ids-Writes : (ids : List ℕ) → Writes (put_ids mem ids) (encode_ids ids)
  unfolding put_ids encode_ids
  put_ids-Writes [] = Writes-pure tt
  put_ids-Writes (i ∷ ids) =
      Writes-bind _ _ (be32 i) (encode_ids ids) (put_uint32-Writes i) λ _. put_ids-Writes ids

  -- The loop over the operands runs only if there are any that travel.
  operands_loop-Writes :
      (type ret : ℕ) (ops : Operands)
      → Writes (put_operands mem ret ops) (encode_operands ops)
      → Writes
          (if ltb 0 (if type == collection_reference then 0 else count_operands ops)
            then put_operands mem ret ops
            else pure ret)
          (if type == collection_reference then [] else encode_operands ops)
  unfolding count_operands encode_operands
  operands_loop-Writes type ret no_operands h = elim (Bool-cases (type == collection_reference)) [
    | inl r ↦ rw r (Writes-pure ret)
    | inr o ↦ rw o (Writes-pure ret)
  ]
  operands_loop-Writes type ret (operand c cs) h =
      elim (Bool-cases (type == collection_reference)) [
        | inl r ↦ rw r (Writes-pure ret)
        | inr o ↦ rw (o, lt→ltb 0 (count_operands cs + 1) (omega arith)) h
      ]

  count_sent :
      (type : ℕ) (ops : Operands)
      → (if type == collection_reference then 0 else count_operands ops)
        ≡ count_operands (sent_operands type ops)
  unfolding count_operands sent_operands
  count_sent type ops = elim (Bool-cases (type == collection_reference)) [
    | inl r ↦ rw r
    | inr o ↦ rw o
  ]

  mutual
    unfolding put_collection encode_coll

    pub put_collection-Writes : (c : Coll) → Writes (put_collection mem c) (encode_coll c)
    put_collection-Writes (node type attrs ids ops) =
        Writes-bind _ _ (be32 type) _ (put_uint32-Writes type) λ _.
          Writes-bind _ _ (be32 (count_fields attrs)) _ (put_uint32-Writes (count_fields attrs))
            λ _. Writes-bind _ _ (encode_attributes attrs) _ (put_attributes-Writes attrs) λ _.
              Writes-bind _ _ (be32 (length (until_zero ids))) _
                (put_uint32-Writes (length (until_zero ids)))
                λ _.
                  Writes-bind _ _ (encode_ids (until_zero ids)) _ (put_ids-Writes (until_zero ids))
                    λ _.
                      Writes-bind _ _ (be32 (count_operands (sent_operands type ops))) _
                        (rw (← count_sent type ops) (
                          put_uint32-Writes
                            (if type == collection_reference then 0 else count_operands ops)))
                        λ ret. operands_loop-Writes type ret ops (put_operands-Writes ret ops)

    put_operands-Writes :
        (ret : ℕ) (ops : Operands) → Writes (put_operands mem ret ops) (encode_operands ops)
    put_operands-Writes ret no_operands = Writes-pure ret
    put_operands-Writes ret (operand c cs) =
        Writes-bind _ _ (be32 type_coll) _ (put_int32-Writes type_coll) λ _.
          Writes-bind _ _ (encode_coll c) _ (put_collection-Writes c)
            λ ret'. put_operands-Writes ret' cs
