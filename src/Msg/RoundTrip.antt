-- ===== src/Msg/RoundTrip.antt =====
-- What `xmms_ipc_msg_put_value` writes, `xmms_ipc_msg_get_value` reads back.
use xmms2remote.Prelude.{
  ℕ, zero, suc, ◌+◌, ◌≤◌, ◌<◌, ◌≡◌, true, List, [], ◌∷◌, ◌++◌, Option, some, length, arith,
  length-append,
}
use native.Mathlib.Numerals.{add-one}
use xmms2remote.Value.{
  Text, Value, Items, Fields, nothing, error, int, string, coll, bin, list, dict, nil, cons, end,
  field, get_type, type_coll, type_list, type_dict, new_string,
}
use xmms2remote.Value.Text.{until_zero, until_zero-append}
use xmms2remote.Msg.{Memory, M, ◌>>=◌, pure, be32}
use xmms2remote.Msg.Put.{count_fields}
use xmms2remote.Msg.Get.{
  get_int32, get_string, get_error, get_bin, get_collection, get_value, get_items, get_fields,
  add_item, new_bin, new_coll,
}
use xmms2remote.Msg.Encode.{
  count_items, encode_text, encode_coll, encode, encode_items, encode_fields,
}
use xmms2remote.Msg.Layout.{length-be32}
use xmms2remote.Msg.WriteValue.{count_items-le, count_fields-le, length-encode}
use xmms2remote.Msg.Reads.{
  Reads, Reads-pure, Reads-bind, get_int32-Reads, count-Reads, get_bin-Reads,
}
use xmms2remote.Msg.ReadParts.{get_text-Reads}
use xmms2remote.Msg.ReadColl.{get_collection-Reads}
use xmms2remote.Msg.Sendable.{
  InOrder, Sendable, SendableItems, SendableFields, append_fields, append_fields-end,
  append_fields_assoc, set_field_next,
}

module _ (mem : Memory) (enough : (n : ℕ) → mem.grants n ≡ true) where
  abbrev pub ReadsValue : Value → Type 0
  ReadsValue v = (f : ℕ) → length (encode v) ≤ f → Reads (get_value mem f) (encode v) (some v)

  abbrev pub ReadsItems : Items → Type 0
  ReadsItems xs =
      (f : ℕ)
      → length (encode_items xs) + 1 ≤ f
      → Reads (get_items mem f (count_items xs)) (encode_items xs) xs

  abbrev pub ReadsFields : Fields → Type 0
  ReadsFields fs =
      (f : ℕ) (acc : Fields)
      → InOrder (append_fields acc fs)
      → length (encode_fields fs) + 1 ≤ f
      → Reads (get_fields mem f (count_fields fs) acc) (encode_fields fs) (append_fields acc fs)

  -- A reader followed by a function of its result.
  then_pure :
      {A B : Type 0} (p : M A) (bs : List ℕ) (x : A) (g : A → B)
      → Reads p bs x
      → Reads (do y ← p; pure (g y)) bs (g x)
  then_pure p bs x g h m rest at = let (m', e, at') = h m rest at in (m', rw e, at')

  get_error_text : (s : Text) → Reads (get_error mem) (encode_text s) (s ++ 0 ∷ [])
  unfolding get_error
  get_error_text s = get_text-Reads mem enough s

  -- Behind its type number.
  behind :
      (n : ℕ) (bs : List ℕ) (k : ℕ → M (Option Value)) (v : Value)
      → n < 8
      → Reads (k n) bs (some v)
      → Reads (get_int32 >>= k) (be32 n ++ bs) (some v)
  behind n bs k v lt h =
      Reads-bind get_int32 k (be32 n) bs n (some v) (get_int32-Reads n (omega arith)) h

  mutual
    unfolding get_value encode get_type count_items count_fields new_string new_bin new_coll
        add_item append_fields

    pub get_value-Reads : (v : Value) → Sendable v → ReadsValue v
    get_value-Reads v h zero le = absurd (omega (arith, length-encode v))
    get_value-Reads nothing h (suc f) le = behind _ _ _ _ (omega arith) (Reads-pure (some nothing))
    get_value-Reads (error s) h (suc f) le = behind _ _ _ _ (omega arith) (
        rw (until_zero-append s [] h) at (
          then_pure (get_error mem) (encode_text s) (s ++ 0 ∷ []) (λ t. some (error (until_zero t)))
            (get_error_text s)))
    get_value-Reads (int w) h (suc f) le =
        behind _ _ _ _ (omega arith)
          (then_pure get_int32 (be32 w) w (λ n. some (int n)) (get_int32-Reads w h))
    get_value-Reads (string s) h (suc f) le = behind _ _ _ _ (omega arith) (
        rw (until_zero-append s [] h.0, h.1) at
          (then_pure (get_string mem) (encode_text s) (s ++ 0 ∷ []) (λ t. new_string (until_zero t))
            (get_text-Reads mem enough s)))
    get_value-Reads (coll c) h (suc f) le = behind _ _ _ _ (omega arith) (
        then_pure (get_collection mem f) (encode_coll c) (some c) (new_coll mem) (
          get_collection-Reads mem enough c h f
            (omega (arith, length-append (be32 type_coll) (encode_coll c), length-be32 type_coll))))
    get_value-Reads (bin d) h (suc f) le = behind _ _ _ _ (omega arith) (
        rw (enough (length d)) at (
          then_pure (get_bin mem) (be32 (length d) ++ d) d (new_bin mem)
            (get_bin-Reads mem enough d)))
    get_value-Reads (list xs) h (suc f) le = behind _ _ _ _ (omega arith) (
        count-Reads (count_items xs) (encode_items xs) _ _ (count_items-le xs) (
          then_pure (get_items mem f (count_items xs)) (encode_items xs) xs (λ ys. some (list ys))
            (get_items-Reads xs h f (
              omega (
                arith,
                length-append (be32 type_list) (be32 (count_items xs) ++ encode_items xs),
                length-append (be32 (count_items xs)) (encode_items xs),
                length-be32 type_list,
                length-be32 (count_items xs),
              )))))
    get_value-Reads (dict fs) h (suc f) le = behind _ _ _ _ (omega arith) (
        count-Reads (count_fields fs) (encode_fields fs) _ _ (count_fields-le fs) (
          then_pure (get_fields mem f (count_fields fs) end) (encode_fields fs) fs
            (λ gs. some (dict gs))
            (get_fields-Reads fs h.1 f end h.0 (
              omega (
                arith,
                length-append (be32 type_dict) (be32 (count_fields fs) ++ encode_fields fs),
                length-append (be32 (count_fields fs)) (encode_fields fs),
                length-be32 type_dict,
                length-be32 (count_fields fs),
              )))))

    get_items-Reads : (xs : Items) → SendableItems xs → ReadsItems xs
    get_items-Reads xs h zero le = absurd (omega arith)
    get_items-Reads nil h (suc f) le = Reads-pure nil
    get_items-Reads (cons v xs) h (suc f) le = rw add-one (
        Reads-bind _ _ (encode v) (encode_items xs) (some v) _
          (get_value-Reads v h.0 f (omega (arith, length-append (encode v) (encode_items xs))))
          (then_pure (get_items mem f (count_items xs)) (encode_items xs) xs (cons v) (
            get_items-Reads xs h.1 f
              (omega (arith, length-append (encode v) (encode_items xs), length-encode v)))))

    get_fields-Reads : (fs : Fields) → SendableFields fs → ReadsFields fs
    get_fields-Reads fs h zero acc o le = absurd (omega arith)
    get_fields-Reads end h (suc f) acc o le = rw (append_fields-end acc) (Reads-pure acc)
    get_fields-Reads (field k v fs) h (suc f) acc o le = rw add-one (
        Reads-bind _ _ (encode_text k) (encode v ++ encode_fields fs) (k ++ 0 ∷ []) _
          (get_text-Reads mem enough k)
          (Reads-bind _ _ (encode v) (encode_fields fs) (some v) _
            (get_value-Reads v h.1 f (omega (arith, long)))
            (rw (until_zero-append k [] h.0.0, set_field_next acc fs k v o h.0.1)
              (rw (append_fields_assoc acc (field k v end) fs) at (
                get_fields-Reads fs h.2 f (append_fields acc (field k v end))
                  (rw (append_fields_assoc acc (field k v end) fs) o)
                  (omega (arith, long, length-encode v)))))))
      where
        long :
            length (encode_text k ++ (encode v ++ encode_fields fs))
            ≡ length (encode_text k) + (length (encode v) + length (encode_fields fs))
        long = omega (
          arith,
          length-append (encode_text k) (encode v ++ encode_fields fs),
          length-append (encode v) (encode_fields fs),
        )
