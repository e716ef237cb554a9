-- ===== src/Msg/WriteValue.antt =====
-- `xmms_ipc_msg_put_value` appends the wire format of any value, lists and dicts with the count that
-- is patched in afterwards.
use xmms2remote.Prelude.{
  ℕ, ◌+◌, ◌*◌, ◌%◌, ◌≤◌, ◌<◌, ◌≡◌, refl, List, [], true, ◌++◌, Option, none, some, length, arith,
  length-append, append_assoc, append-nil,
}
use xmms2remote.Value.{
  Text, Value, Items, Fields, nothing, error, int, string, coll, bin, list, dict, nil, cons, end,
  field, get_type,
}
use xmms2remote.Msg.{Msg, Memory, ok, M, ◌>>=◌, ◌>>◌, pure, get_length, be32, u32_mod}
use xmms2remote.Msg.Put.{count_fields, put_uint32, put_value, put_items, put_fields, store_uint32}
use xmms2remote.Msg.Layout.{Frame, length-be32}
use xmms2remote.Msg.Append.{Writable, Fits, put_data_lem, store_uint32_lem}
use xmms2remote.Msg.Encode.{count_items, encode_text, encode, encode_items, encode_fields}
use xmms2remote.Msg.Writes.{
  Writes, Writes-bind, put_int32-Writes, put_string-Writes, put_error-Writes, put_bin-Writes,
  put_collection-Writes,
}

-- As `Writes`, for a loop that also counts: the count is `n`.
abbrev Counts : M (ℕ × Option ℕ) → ℕ → List ℕ → Type 0
Counts p n bs =
    (f : Frame) (m : Msg) (d : List ℕ)
    → Writable f m d
    → Fits (length d + length bs)
    → (r : Option ℕ) × (m' : Msg) × (p m ≡ ok (n, r) m') × Writable f m' (d ++ bs)

Counts-pure : (n : ℕ) (r : Option ℕ) → Counts (pure (n, r)) n []
Counts-pure n r f m d w fits = (r, m, refl, rw append-nil w)

Counts-bind :
    {A : Type 0} (p : M A) (k : A → M (ℕ × Option ℕ)) (n : ℕ) (bs cs : List ℕ)
    → Writes p bs
    → ((a : A) → Counts (k a) n cs)
    → Counts (p >>= k) n (bs ++ cs)
Counts-bind p k n bs cs h g f m d w fits =
    let (a, m₁, e₁, w₁) = h f m d w (omega (arith, length-append bs cs)) in
    let (r, m₂, e₂, w₂) =
      g a f m₁ (d ++ bs) w₁ (omega (arith, length-append bs cs, length-append d bs)) in
    (r, m₂, rw e₁ e₂, rw (← append_assoc d bs cs) w₂)

length-encode_text : (s : Text) → 4 ≤ length (encode_text s)
unfolding encode_text be32
length-encode_text s = omega arith

pub length-encode : (v : Value) → 4 ≤ length (encode v)
unfolding encode be32
length-encode nothing = omega arith
length-encode _ = omega arith

Counts-mod :
    (p : M (ℕ × Option ℕ)) (n : ℕ) (bs : List ℕ)
    → 4 * n ≤ length bs
    → Counts p (n % u32_mod) bs
    → Counts p n bs
Counts-mod p n bs le h f m d w fits =
    let small : n % u32_mod ≡ n = omega arith in rw small at (h f m d w fits)

-- Every item and every pair takes at least four bytes, so the counters cannot wrap.
pub count_items-le : (xs : Items) → 4 * count_items xs ≤ length (encode_items xs)
unfolding count_items encode_items
count_items-le nil = omega arith
count_items-le (cons v xs) =
    omega (arith, count_items-le xs, length-append (encode v) (encode_items xs), length-encode v)

pub count_fields-le : (fs : Fields) → 4 * count_fields fs ≤ length (encode_fields fs)
unfolding count_fields encode_fields
count_fields-le end = omega arith
count_fields-le (field k v fs) = omega (
  arith,
  count_fields-le fs,
  length-append (encode_text k) (encode v ++ encode_fields fs),
  length-append (encode v) (encode_fields fs),
  length-encode v,
)

module _ (mem : Memory) (enough : (n : ℕ) → mem.grants n ≡ true) where
  ret-Writes : (p : M ℕ) (bs : List ℕ) → Writes p bs → Writes (do r ← p; pure (some r)) bs
  ret-Writes p bs h f m d w fits = let (r, m', e, w') = h f m d w fits in (some r, m', rw e, w')

  -- A placeholder for the count, the counting loop, and the count stored over the placeholder.
  counted : M (ℕ × Option ℕ) → M (Option ℕ)
  counted loop = do
    offset ← put_uint32 mem 0
    (count, ret) ← loop
    store_uint32 offset count
    pure ret

  counted-Writes :
      (loop : M (ℕ × Option ℕ)) (n : ℕ) (bs : List ℕ)
      → Counts loop n bs
      → Writes (counted loop) (be32 n ++ bs)
  unfolding counted put_uint32
  counted-Writes loop n bs h f m d w fits =
      let (m₁, e₁, w₁) = put_data_lem mem enough f m d (be32 0) w (
        omega (
          arith,
          length-append (be32 0) bs,
          length-append (be32 n) bs,
          length-be32 0,
          length-be32 n,
        )) in
      let (r, m₂, e₂, w₂) = h f m₁ (d ++ be32 0) w₁ (
        omega (
          arith,
          length-append d (be32 0),
          length-append (be32 n) bs,
          length-be32 0,
          length-be32 n,
        )) in
      let (m₃, e₃, w₃) =
        store_uint32_lem f m₂ d (be32 0) bs n (rw (append_assoc d (be32 0) bs) at w₂)
          (length-be32 0) in
      (r, m₃, rw e₁ (rw e₂ (rw e₃)), w₃)

  mutual
    unfolding put_value encode count_items count_fields counted

    put_value-Writes : (v : Value) → Writes (put_value mem v) (encode v)
    put_value-Writes nothing =
        Writes-bind _ _ (be32 (get_type nothing)) []
          (put_int32-Writes mem enough (get_type nothing))
          λ _ f m d w fits. (some (get_length m), m, refl, rw append-nil w)
    put_value-Writes (error s) =
        Writes-bind _ _ (be32 (get_type (error s))) _
          (put_int32-Writes mem enough (get_type (error s)))
          λ _. ret-Writes _ _ (put_error-Writes mem enough s)
    put_value-Writes (int n) =
        Writes-bind _ _ (be32 (get_type (int n))) _ (put_int32-Writes mem enough (get_type (int n)))
          λ _. ret-Writes _ _ (put_int32-Writes mem enough n)
    put_value-Writes (string s) =
        Writes-bind _ _ (be32 (get_type (string s))) _
          (put_int32-Writes mem enough (get_type (string s)))
          λ _. ret-Writes _ _ (put_string-Writes mem enough s)
    put_value-Writes (coll c) =
        Writes-bind _ _ (be32 (get_type (coll c))) _
          (put_int32-Writes mem enough (get_type (coll c)))
          λ _. ret-Writes _ _ (put_collection-Writes mem enough c)
    put_value-Writes (bin b) =
        Writes-bind _ _ (be32 (get_type (bin b))) _ (put_int32-Writes mem enough (get_type (bin b)))
          λ _. ret-Writes _ _ (put_bin-Writes mem enough b)
    put_value-Writes (list xs) =
        Writes-bind _ _ (be32 (get_type (list xs))) _
          (put_int32-Writes mem enough (get_type (list xs)))
          λ _. counted-Writes _ (count_items xs) (encode_items xs) (
            Counts-mod _ (count_items xs) _ (count_items-le xs)
              (put_items-Counts 0 (count_items xs % u32_mod) none xs (omega arith) (omega arith)))
    put_value-Writes (dict fs) =
        Writes-bind _ _ (be32 (get_type (dict fs))) _
          (put_int32-Writes mem enough (get_type (dict fs)))
          λ _. counted-Writes _ (count_fields fs) (encode_fields fs) (
            Counts-mod _ (count_fields fs) _ (count_fields-le fs)
              (put_fields-Counts 0 (count_fields fs % u32_mod) none fs (omega arith) (omega arith)))

    put_items-Counts :
        (c n : ℕ) (r : Option ℕ) (xs : Items)
        → c < u32_mod
        → n ≡ (c + count_items xs) % u32_mod
        → Counts (put_items mem c r xs) n (encode_items xs)
    put_items-Counts c n r nil lt e =
        let same_count : n ≡ c = omega arith in rw same_count (Counts-pure c r)
    put_items-Counts c n r (cons v xs) lt e =
        Counts-bind _ _ n (encode v) (encode_items xs) (put_value-Writes v)
          λ r'. put_items-Counts ((c + 1) % u32_mod) n r' xs (omega arith) (omega arith)

    put_fields-Counts :
        (c n : ℕ) (r : Option ℕ) (fs : Fields)
        → c < u32_mod
        → n ≡ (c + count_fields fs) % u32_mod
        → Counts (put_fields mem c r fs) n (encode_fields fs)
    put_fields-Counts c n r end lt e =
        let same_count : n ≡ c = omega arith in rw same_count (Counts-pure c r)
    put_fields-Counts c n r (field k v fs) lt e =
        Counts-bind _ _ n (encode_text k) _ (put_string-Writes mem enough k) λ _.
          Counts-bind _ _ n (encode v) (encode_fields fs) (put_value-Writes v)
            λ r'. put_fields-Counts ((c + 1) % u32_mod) n r' fs (omega arith) (omega arith)

  -- `xmms_ipc_msg_put_value`, given a message with room for it and an allocator that never refuses,
  -- accesses nothing outside the buffer and appends the wire format of the value; header fields,
  -- read position and transfer count stay as they were.
  pub put_value_appends :
      (f : Frame) (m : Msg) (d : List ℕ) (v : Value)
      → Writable f m d
      → Fits (length d + length (encode v))
      → (ret : Option ℕ) × (m' : Msg) × (put_value mem v m ≡ ok ret m')
        × Writable f m' (d ++ encode v)
  put_value_appends f m d v = put_value-Writes v f m d
