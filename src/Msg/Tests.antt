-- ===== src/Msg/Tests.antt =====
-- Runs of the message code on concrete values, and the theorems at inputs that meet their
-- hypotheses.
use xmms2remote.Prelude.{
  ℕ, zero, suc, ◌+◌, ◌*◌, ◌^◌, ◌≤◌, ◌<◌, ◌≡◌, ◌≢◌, refl, ap, true, List, [], ◌∷◌, ◌++◌, Option,
  none, some, length, arith,
}
use xmms2remote.Value.{
  Value, int, string, coll, list, dict, nil, cons, end, field, node, no_operands, get_type,
  fields_to_list,
}
use xmms2remote.Value.Text.{until_zero, strcmp}
use xmms2remote.Value.Utf8.{utf8_validate}
use xmms2remote.Msg.{
  Msg, Memory, ok, fault, out_of_fuel, be32, new, get_object, get_cmd, get_length,
}
use xmms2remote.Msg.Put.{put_value, put_data, count_fields, count_operands}
use xmms2remote.Msg.Get.{available, get_value, get_idlist, get_collection}
use xmms2remote.Msg.Encode.{
  encode, encode_text, encode_coll, count_items, sent_operands, encode_attributes, encode_ids,
}
use xmms2remote.Msg.Layout.{Holds}
use xmms2remote.Msg.Append.{Writable, put_data_lem}
use xmms2remote.Msg.WriteValue.{put_value_appends}
use xmms2remote.Msg.Ends.{get_value_ends}
use xmms2remote.Msg.Reads.{At}
use xmms2remote.Msg.Sendable.{Sendable}
use xmms2remote.Msg.Fresh.{unsent, header}
use xmms2remote.Msg.Sent.{get_value-put_value, message_delivers}
use xmms2remote.Msg.Faults.{get_idlist_overflow, null_collection}

-- An allocator that grants everything and leaves 0xCC in fresh memory.
filled : ℕ → List ℕ
filled zero = []
filled (suc n) = 0xCC ∷ filled n

length-filled : (n : ℕ) → length (filled n) ≡ n
unfolding filled
length-filled zero = refl
length-filled (suc n) = ap suc (length-filled n)

abbrev heap : Memory
heap = record { grants = λ n. true; fresh = filled; length-fresh = length-filled }

granted : (n : ℕ) → heap.grants n ≡ true
granted n = refl

-- {"a": [7, "hé"], "b": an id list with an attribute}
abbrev sample : Value
sample = dict (
    field (b'a' ∷ []) (list (cons (int 7) (cons (string (b'h' ∷ 0xC3 ∷ 0xA9 ∷ [])) nil))) (
      field (b'b' ∷ [])
        (coll (node 9 (field (b'n' ∷ []) (string (b'x' ∷ [])) end) (3 ∷ 4 ∷ []) no_operands)) end))

sample-Sendable : Sendable sample
unfolding utf8_validate strcmp fields_to_list
sample-Sendable = (
  ((refl, tt), (tt, tt)),
  (
    ((omega arith, tt), refl),
    (omega arith, (((omega arith, (omega arith, (omega arith, tt))), refl), tt)),
    (
      ((omega arith, tt), refl),
      (
        omega arith,
        (tt, tt),
        (((omega arith, tt), refl), ((omega arith, tt), refl), tt),
        ((omega arith, omega arith), ((omega arith, omega arith), tt)),
        λ e. refl,
        tt,
      ),
      tt,
    ),
  ),
)

message_delivers_example :
    (ret : Option ℕ) × (m₀ m₁ : Msg) × (new heap 1 8 ≡ ok tt m₀)
    × (put_value heap sample m₀ ≡ ok ret m₁)
    × (get_object m₁ ≡ 1)
    × (get_cmd m₁ ≡ 8)
    × (get_length m₁ ≡ length (encode sample))
    × ((fuel : ℕ)
        → available m₁ ≤ fuel
        → (m₂ : Msg) × (get_value heap fuel m₁ ≡ ok (some sample) m₂) × (available m₂ ≡ 0))
message_delivers_example =
    message_delivers heap granted 1 8 sample (omega arith) (omega arith) sample-Sendable sample_fits
  where
    sample_fits : 2 * length (encode sample) + 400 < 2 ^ 32
    sample_fits =
        unfold encode encode_text encode_coll count_items count_fields count_operands get_type be32
          sent_operands encode_attributes encode_ids until_zero in
        omega arith

-- An empty message of object 6, command 5, as `new` makes it on this heap.
abbrev empty_message : Msg
empty_message = record {
  rawdata = header 6 5 0 ++ (be32 0 ++ filled 112);
  get_pos = 0;
  size = 128;
  xfered = 0;
}

empty-Holds : Holds (unsent 6 5 0) empty_message []
unfolding be32
empty-Holds = record {
  slack = filled 112;
  bytes = refl;
  hdr_len = refl;
  size_eq = omega (arith, length-filled 112);
  pos_eq = refl;
  sent_eq = refl;
}

empty-Writable : Writable (unsent 6 5 0) empty_message []
empty-Writable = record { holds = empty-Holds; slim = omega arith }

abbrev numbers : Value
numbers = list (cons (int 7) (cons (int 0xFFFFFFFF) nil))

numbers_fit : 2 * length (encode numbers) + 400 < 2 ^ 32
unfolding encode count_items be32
numbers_fit = omega arith

encode-numbers :
    encode numbers
    ≡ 0 ∷ 0 ∷ 0 ∷ 6 ∷ 0 ∷ 0 ∷ 0 ∷ 2 ∷ 0 ∷ 0 ∷ 0 ∷ 2 ∷ 0 ∷ 0 ∷ 0 ∷ 7 ∷ 0 ∷ 0 ∷ 0 ∷ 2 ∷ 255 ∷ 255
      ∷ 255 ∷ 255 ∷ []
unfolding encode count_items be32 get_type
encode-numbers = refl

get_value-put_value_example :
    (ret : Option ℕ) × (m₁ : Msg) × (put_value heap numbers empty_message ≡ ok ret m₁)
    × ((fuel : ℕ)
        → available m₁ ≤ fuel
        → (m₂ : Msg) × (get_value heap fuel m₁ ≡ ok (some numbers) m₂) × (available m₂ ≡ 0))
get_value-put_value_example =
    get_value-put_value heap granted (unsent 6 5 0) empty_message [] numbers empty-Writable refl
      (omega arith) (omega (arith, numbers_fit))

put_value_appends_example :
    (ret : Option ℕ) × (m' : Msg) × (put_value heap numbers empty_message ≡ ok ret m')
    × Writable (unsent 6 5 0) m' ([] ++ encode numbers)
put_value_appends_example =
    put_value_appends heap granted (unsent 6 5 0) empty_message [] numbers empty-Writable
      (omega (arith, numbers_fit))

-- 200 bytes do not fit the first 128.
put_data_lem_example :
    (m' : Msg) × (put_data heap (filled 200) empty_message ≡ ok 0 m')
    × Writable (unsent 6 5 0) m' ([] ++ filled 200)
put_data_lem_example =
    put_data_lem heap granted (unsent 6 5 0) empty_message [] (filled 200) empty-Writable
      (omega (arith, length-filled 200))

abbrev counted_message : Msg
counted_message = record {
  rawdata = header 6 5 0 ++ (be32 4 ++ (be32 0 ++ filled 108));
  get_pos = 0;
  size = 128;
  xfered = 0;
}

counted-Writable : Writable (unsent 6 5 0) counted_message ([] ++ (be32 0 ++ []))
unfolding be32
counted-Writable = record {
  holds = record {
    slack = filled 108;
    bytes = refl;
    hdr_len = refl;
    size_eq = omega (arith, length-filled 108);
    pos_eq = refl;
    sent_eq = refl;
  };
  slim = omega arith;
}

get_value_ends_example :
    get_value heap (available counted_message + 1) counted_message ≢ out_of_fuel
get_value_ends_example =
    get_value_ends heap (available counted_message + 1) counted_message (omega arith) (omega arith)

-- A message of these bytes, to be read from its start.
abbrev received : List ℕ → Msg
received bs = record {
  rawdata = header 0 0 0 ++ (be32 (length bs) ++ (bs ++ []));
  get_pos = 0;
  size = 16 + length bs;
  xfered = 0;
}

abbrev huge_list : List ℕ
huge_list = be32 (suc 0xFFFFFFFE) ++ (be32 1 ++ [])

huge_list-At : At (received huge_list) huge_list
unfolding be32
huge_list-At = record {
  hdr = header 0 0 0;
  before = [];
  slack = [];
  bytes = refl;
  hdr_len = refl;
  pos = refl;
  small = omega arith;
}

get_idlist_overflow_example : get_idlist heap none (received huge_list) ≡ fault
get_idlist_overflow_example =
    get_idlist_overflow heap granted none (received huge_list) 0xFFFFFFFE 1 [] (omega arith)
      (omega arith) huge_list-At

abbrev unknown_type : List ℕ
unknown_type = be32 12 ++ (be32 1 ++ (encode_text (b'k' ∷ []) ++ (encode_text [] ++ [])))

unknown_type-At : At (received unknown_type) unknown_type
unfolding be32 encode_text
unknown_type-At = record {
  hdr = header 0 0 0;
  before = [];
  slack = [];
  bytes = refl;
  hdr_len = refl;
  pos = refl;
  small = omega arith;
}

null_collection_example : get_collection heap 1 (received unknown_type) ≡ fault
unfolding utf8_validate
null_collection_example =
    null_collection heap granted 0 12 0 (b'k' ∷ []) [] (received unknown_type) [] (omega arith)
      (omega arith) (omega arith) ((omega arith, tt), refl) (tt, refl) unknown_type-At
