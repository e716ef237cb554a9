-- ===== src/Msg/Append.antt =====
-- `xmms_ipc_msg_put_data` appends to the data of a message, inside the buffer, and
-- `xmms_ipc_msg_store_uint32` replaces a word of it.
use xmms2remote.Prelude.{
  ℕ, ◌+◌, ◌-◌, ◌*◌, ◌%◌, ◌^◌, ◌≤◌, ◌<◌, ◌≡◌, refl, sym, ◌∙◌, true, List, ◌++◌, length, take, drop,
  ltb, if◌then◌else◌, arith, length-append, take_all, take-append-drop, length-take, length-drop,
  Bool-cases, inl, inr, append_assoc,
}
use xmms2remote.Msg.{
  Msg, Memory, Result, ok, be32, store_at, get_length, set_length, u32_mod, default_size, head_len,
}
use xmms2remote.Msg.Put.{resize, make_room, put_data, store_uint32}
use xmms2remote.Msg.Layout.{
  Frame, Holds, Holds-get_length, set_length_bytes, store_at-some, write_at_middle, length-be32,
  Holds-length,
}

-- The buffer stays within twice its data and a constant, so that no sum of sizes wraps.
pub record Writable (f : Frame) (m : Msg) (payload : List ℕ) : Type 0 where
  pub holds : Holds f m payload
  pub slim : m.size ≤ 2 * length payload + 144

-- Data of this many bytes can be written without a sum that passes 2 ^ 32.
abbrev pub Fits : ℕ → Type 0
Fits n = 2 * n + 400 < 2 ^ 32

module _ (mem : Memory) (enough : (n : ℕ) → mem.grants n ≡ true) where
  abbrev Room : Frame → Msg → List ℕ → ℕ → Result (Unit {0}) → Type 0
  Room f m p len r =
      (m' : Msg) × (r ≡ ok tt m')
      × Holds f m' p
      × (16 + length p + len ≤ m'.size)
      × (m'.size ≤ 2 * (length p + len) + 144)

  resize_lem :
      (f : Frame) (m : Msg) (p : List ℕ) (n : ℕ)
      → Holds f m p
      → m.size ≤ n
      → (m' : Msg) × (resize mem n m ≡ ok tt m') × Holds f m' p × (m'.size ≡ n)
  unfolding resize
  resize_lem f m p n h le = (
    record m { rawdata = take n m.rawdata ++ mem.fresh (n - length m.rawdata); size = n },
    rw (enough n),
    record {
      slack = h.slack ++ mem.fresh (n - length m.rawdata);
      bytes = rw (take_all m.rawdata n (omega (arith, len)), h.bytes) (simp append_assoc);
      hdr_len = h.hdr_len;
      size_eq =
          omega (arith, len, length-append h.slack extra, mem.length-fresh (n - length m.rawdata));
      pos_eq = h.pos_eq;
      sent_eq = h.sent_eq;
    },
    refl,
  )
    where
      len : length m.rawdata ≡ m.size
      len = Holds-length f m p h

      extra : List ℕ
      extra = mem.fresh (n - length m.rawdata)

  -- The growth step makes room for the bytes that are to come, and keeps the data.
  make_room-Room :
      (f : Frame) (m : Msg) (p : List ℕ) (len : ℕ)
      → Writable f m p
      → Fits (length p + len)
      → Room f m p len (make_room mem len m)
  unfolding make_room
  make_room-Room f m p len w fits =
      elim (Bool-cases (ltb m.size ((get_length m + head_len + len) % u32_mod))) [
        | inl small ↦
            let (m', e, h, at) =
              resize_lem f m p ((m.size + grow) % u32_mod) w.holds
                (ground (arith, known, w.holds.size_eq)) in
            (
              m',
              rw small e,
              h,
              ground (arith, known, w.holds.size_eq),
              ground (arith, known, w.holds.size_eq),
            )
        | inr big ↦
            (m, rw big, w.holds, ground (arith, known, w.holds.size_eq), ground (arith, w.slim))
      ]
    where
      grow : ℕ
      grow = if ltb default_size len then len else default_size

      known : get_length m ≡ length p
      known = Holds-get_length f m p w.holds (omega arith)

  -- The copy and the new length, once there is room.
  place_lem :
      (f : Frame) (m : Msg) (p bs : List ℕ)
      → Holds f m p
      → 16 + length p + length bs ≤ m.size
      → length p + length bs < 2 ^ 32
      → (m₁ m₂ : Msg) × (store_at (head_len + length p) bs m ≡ ok tt m₁)
        × (set_length ((length p + length bs) % u32_mod) m₁ ≡ ok tt m₂)
        × Holds f m₂ (p ++ bs)
        × (m₂.size ≡ m.size)
  place_lem f m p bs h room lt = (
    m₁,
    m₂,
    store_at-some m (head_len + length p) bs (before ++ (bs ++ s₂))
        (rw split (write_at_middle before s₁ s₂ (head_len + length p) bs len_before (sym len₁))),
    set_length_bytes m₁ f.hdr (p ++ (bs ++ s₂)) (length p) ((length p + length bs) % u32_mod)
        (simp append_assoc) h.hdr_len,
    record {
      slack = s₂;
      bytes = rw total (simp append_assoc);
      hdr_len = h.hdr_len;
      size_eq = omega (arith, h.size_eq, length-append p bs, length-drop (length bs) h.slack);
      pos_eq = h.pos_eq;
      sent_eq = h.sent_eq;
    },
    refl,
  )
    where
      w : List ℕ
      w = be32 (length p)

      before : List ℕ
      before = f.hdr ++ (w ++ p)

      s₁ : List ℕ
      s₁ = take (length bs) h.slack

      s₂ : List ℕ
      s₂ = drop (length bs) h.slack

      total : length (p ++ bs) ≡ (length p + length bs) % u32_mod
      total = omega (arith, length-append p bs)

      split : m.rawdata ≡ before ++ (s₁ ++ s₂)
      split = rw (h.bytes, take-append-drop (length bs) h.slack) (simp append_assoc)

      len₁ : length s₁ ≡ length bs
      len₁ = length-take (length bs) h.slack (omega (arith, h.size_eq))

      len_before : head_len + length p ≡ length before
      len_before = omega (
        arith,
        length-append f.hdr (w ++ p),
        length-append w p,
        length-be32 (length p),
        h.hdr_len,
      )

      m₁ : Msg
      m₁ = record m { rawdata = before ++ (bs ++ s₂) }

      m₂ : Msg
      m₂ = record m {
        rawdata = f.hdr ++ (be32 ((length p + length bs) % u32_mod) ++ (p ++ (bs ++ s₂)));
      }

  -- `xmms_ipc_msg_put_data` accesses nothing outside the buffer, appends the bytes and returns the
  -- offset at which they stand.
  pub put_data_lem :
      (f : Frame) (m : Msg) (p bs : List ℕ)
      → Writable f m p
      → Fits (length p + length bs)
      → (m' : Msg) × (put_data mem bs m ≡ ok (length p) m') × Writable f m' (p ++ bs)
  unfolding put_data
  put_data_lem f m p bs w fits =
      let (m₀, e₀, h₀, room, slim) = make_room-Room f m p (length bs) w fits in
      let (m₁, m₂, e₁, e₂, h₂, size) = place_lem f m₀ p bs h₀ room (omega arith) in
      (
        m₂,
        rw e₀ (rw (Holds-get_length f m₀ p h₀ (omega arith)) (rw e₁ (rw e₂))),
        record { holds = h₂; slim = omega (arith, length-append p bs) },
      )

-- `xmms_ipc_msg_store_uint32` replaces four bytes of the data.
pub store_uint32_lem :
    (f : Frame) (m : Msg) (a old b : List ℕ) (v : ℕ)
    → Writable f m (a ++ (old ++ b))
    → length old ≡ 4
    → (m' : Msg) × (store_uint32 (length a) v m ≡ ok tt m') × Writable f m' (a ++ (be32 v ++ b))
unfolding store_uint32
store_uint32_lem f m a old b v w l = (
  m',
  store_at-some m (head_len + length a) (be32 v) (before ++ (be32 v ++ (b ++ w.holds.slack))) (
      rw split (
        write_at_middle before old (b ++ w.holds.slack) (head_len + length a) (be32 v) len_before
          (length-be32 v ∙ sym l))),
  record {
    holds = record {
      slack = w.holds.slack;
      bytes = rw same_len (simp append_assoc);
      hdr_len = w.holds.hdr_len;
      size_eq = rw same_len w.holds.size_eq;
      pos_eq = w.holds.pos_eq;
      sent_eq = w.holds.sent_eq;
    };
    slim = rw same_len w.slim;
  },
)
  where
    n : ℕ
    n = length (a ++ (old ++ b))

    before : List ℕ
    before = f.hdr ++ (be32 n ++ a)

    same_len : length (a ++ (be32 v ++ b)) ≡ n
    same_len = omega (
      arith,
      length-append a (be32 v ++ b),
      length-append (be32 v) b,
      length-append a (old ++ b),
      length-append old b,
      length-be32 v,
    )

    split : m.rawdata ≡ before ++ (old ++ (b ++ w.holds.slack))
    split = rw w.holds.bytes (simp append_assoc)

    len_before : head_len + length a ≡ length before
    len_before = omega (
      arith,
      length-append f.hdr (be32 n ++ a),
      length-append (be32 n) a,
      length-be32 n,
      w.holds.hdr_len,
    )

    m' : Msg
    m' = record m { rawdata = before ++ (be32 v ++ (b ++ w.holds.slack)) }
