-- ===== src/Msg/Sent.antt =====
-- From a value to a message and back: the promise of msg.c as a whole.
use xmms2remote.Prelude.{
  ℕ, ◌+◌, ◌-◌, ◌^◌, ◌≤◌, ◌<◌, ◌≡◌, refl, sym, ◌∙◌, true, List, [], ◌++◌, Option, some, length,
  arith, length-append, append_assoc, append-nil,
}
use xmms2remote.Value.{Value}
use xmms2remote.Msg.{Msg, Memory, ok, new, get_object, get_cmd, get_length}
use xmms2remote.Msg.Put.{put_value}
use xmms2remote.Msg.Get.{available, get_value}
use xmms2remote.Msg.Encode.{encode}
use xmms2remote.Msg.Layout.{Frame, Holds, Holds-get_length}
use xmms2remote.Msg.Append.{Writable, Fits}
use xmms2remote.Msg.WriteValue.{put_value_appends}
use xmms2remote.Msg.Reads.{At, At-available}
use xmms2remote.Msg.Sendable.{Sendable}
use xmms2remote.Msg.RoundTrip.{get_value-Reads}
use xmms2remote.Msg.Fresh.{unsent, new-Writable, header_words}

-- A written message is read from its read position on.
Holds-At :
    (f : Frame) (m : Msg) (d bs : List ℕ)
    → Holds f m (d ++ bs)
    → f.pos ≡ length d
    → length d + length bs < 2 ^ 32 - 1
    → At m bs
Holds-At f m d bs h pos lt = record {
  hdr = f.hdr;
  before = d;
  slack = h.slack;
  bytes = rw (← length-append d bs) (h.bytes ∙ simp append_assoc);
  hdr_len = h.hdr_len;
  pos = h.pos_eq ∙ pos;
  small = lt;
}

module _ (mem : Memory) (enough : (n : ℕ) → mem.grants n ≡ true) where
  -- Writing a sendable value to a message whose data has all been read, and reading from there,
  -- gives that value and uses up the message; any fuel from the number of unread bytes on will do.
  pub get_value-put_value :
      (f : Frame) (m : Msg) (d : List ℕ) (v : Value)
      → Writable f m d
      → f.pos ≡ length d
      → Sendable v
      → Fits (length d + length (encode v))
      → (ret : Option ℕ) × (m₁ : Msg) × (put_value mem v m ≡ ok ret m₁)
        × ((fuel : ℕ)
            → available m₁ ≤ fuel
            → (m₂ : Msg) × (get_value mem fuel m₁ ≡ ok (some v) m₂) × (available m₂ ≡ 0))
  get_value-put_value f m d v w pos s fits =
      let (ret, m₁, e, w₁) = put_value_appends mem enough f m d v w fits in
      let at : At m₁ (encode v) = Holds-At f m₁ d (encode v) w₁.holds pos (omega arith) in
      let size : available m₁ ≡ length (encode v) = At-available m₁ (encode v) at in
      (
        ret,
        m₁,
        e,
        λ fuel le.
            let (m₂, e₂, at₂) =
              get_value-Reads mem enough v s fuel (omega (arith, size)) m₁ []
                (rw (append-nil (encode v)) at) in
            (m₂, e₂, At-available m₂ [] at₂),
      )

  -- A new message into which a sendable value is written has the object, command and data length
  -- that it should, and whoever reads it gets that value and has read it all.
  pub message_delivers :
      (object cmd : ℕ) (v : Value)
      → object < 2 ^ 32
      → cmd < 2 ^ 32
      → Sendable v
      → Fits (length (encode v))
      → (ret : Option ℕ) × (m₀ m₁ : Msg) × (new mem object cmd ≡ ok tt m₀)
        × (put_value mem v m₀ ≡ ok ret m₁)
        × (get_object m₁ ≡ object)
        × (get_cmd m₁ ≡ cmd)
        × (get_length m₁ ≡ length (encode v))
        × ((fuel : ℕ)
            → available m₁ ≤ fuel
            → (m₂ : Msg) × (get_value mem fuel m₁ ≡ ok (some v) m₂) × (available m₂ ≡ 0))
  message_delivers object cmd v o c s fits =
      let (m₀, e₀, w₀) = new-Writable mem enough object cmd in
      let (ret, m₁, e₁, w₁) =
        put_value_appends mem enough (unsent object cmd 0) m₀ [] v w₀ (omega arith) in
      let (ret', m₁', e₁', read) =
        get_value-put_value (unsent object cmd 0) m₀ [] v w₀ refl s (omega arith) in
      let words =
        header_words m₁' object cmd 0 0 0 (encode v) (same m₁ m₁' ret ret' (sym e₁ ∙ e₁') w₁.holds)
          o c (omega arith) in
      (
        ret',
        m₀,
        m₁',
        e₀,
        e₁',
        words.0,
        words.1,
        Holds-get_length (unsent object cmd 0) m₁' (encode v)
            (same m₁ m₁' ret ret' (sym e₁ ∙ e₁') w₁.holds) (omega arith),
        read,
      )
    where
      same :
          (a b : Msg) (r q : Option ℕ)
          → ok r a ≡ ok q b
          → Holds (unsent object cmd 0) a (encode v)
          → Holds (unsent object cmd 0) b (encode v)
      same a b r q e h = let eq : a ≡ b = cc in rw (← eq) h
