-- ===== src/Msg/Transport/Writing.antt =====
-- Sending in pieces: whatever the socket takes at each attempt, the bytes of the message go out in
-- order and once.
use xmms2remote.Prelude.{
  ℕ, zero, suc, ◌+◌, ◌-◌, ◌%◌, ◌^◌, ◌≤◌, ◌<◌, ◌≡◌, refl, ap, sym, ◌∙◌, Bool, true, false, not, List,
  ◌++◌, some, length, take, drop, leb, ◌==◌, arith, Bool-cases, inl, inr, append_assoc, le→leb,
  leb→le, leb→gt, length-take, length-drop, take-add, take-take, ==_iff, ◌↔◌, append-nil,
}
use xmms2remote.Msg.{Msg, u32_mod, head_len, get_length, read_at}
use xmms2remote.Msg.Transport.{
  Channel, Outgoing, Outcome, took, broke, stop, accepted, after_send, write_transport,
}
use xmms2remote.Msg.Layout.{Frame, Holds, Holds-get_length, Holds-length}

module _ (c : Channel) where
  open c use {State, send, said, send_le, send_said}

  -- The call ended without a memory fault; the message is unchanged but for its position; what went
  -- over the channel since `past` is the message up to that position; and the result says whether
  -- that is all of it.
  abbrev pub Progress : List ℕ → Msg → ℕ → Outcome State → Type 0
  Progress past m len o =
      (b disconnected : Bool) × (s : State) × (n : ℕ) × (o
        ≡ stop b disconnected s (record m { xfered = n }))
      × (n ≤ len)
      × (said s ≡ past ++ take n m.rawdata)
      × ((b ≡ true) ↔ (n ≡ len))

  after_send-Progress :
      (past : List ℕ) (m : Msg) (len : ℕ) (s : State) (buf : List ℕ) (out : Outgoing)
      → len < 2 ^ 32
      → m.xfered < len
      → accepted out ≤ len - m.xfered
      → said s ≡ (past ++ take m.xfered m.rawdata) ++ take (accepted out) buf
      → buf ≡ take (len - m.xfered) (drop m.xfered m.rawdata)
      → Progress past m len (after_send c len m (out, s))
  unfolding after_send
  after_send-Progress past m len s buf (broke r) lt more le h e = (
    false,
    not r,
    s,
    m.xfered,
    refl,
    omega arith,
    h ∙ append-nil (past ++ take m.xfered m.rawdata),
    (cc, λ q. absurd (omega arith)),
  )
  after_send-Progress past m len s buf (took zero) lt more le h e = (
    len == m.xfered,
    true,
    s,
    m.xfered,
    refl,
    omega arith,
    h ∙ append-nil (past ++ take m.xfered m.rawdata),
    (λ q. sym ((==_iff len m.xfered).0 q), λ q. absurd (omega arith)),
  )
  after_send-Progress past m len s buf (took (suc n)) lt more le h e = (
    len == n',
    false,
    s,
    n',
    rw (some_taken, wrap),
    omega arith,
    h ∙ whole,
    (λ q. sym ((==_iff len n').0 q), λ q. (==_iff len n').1 (sym q)),
  )
    where
      n' : ℕ
      n' = m.xfered + suc n

      some_taken : (suc n == 0) ≡ false
      some_taken = ground arith

      wrap : (m.xfered + suc n) % u32_mod ≡ n'
      wrap = omega arith

      whole : (past ++ take m.xfered m.rawdata) ++ take (suc n) buf ≡ past ++ take n' m.rawdata
      whole =
          rw
            (
              e,
              take-take (suc n) (len - m.xfered) (drop m.xfered m.rawdata) le,
              take-add m.xfered (suc n) m.rawdata,
            )
            (append_assoc past (take m.xfered m.rawdata) (take (suc n) (drop m.xfered m.rawdata)))

  -- Each attempt to send a well-formed message, of which a first part has gone out, stays inside the
  -- buffer and continues that part: what the channel took is the message up to the new position,
  -- and the result is true exactly when the message has gone out as a whole.
  pub write_transport_lem :
      (f : Frame) (m : Msg) (d past : List ℕ) (s : State)
      → Holds f m d
      → 16 + length d < 2 ^ 32
      → m.xfered ≤ 16 + length d
      → said s ≡ past ++ take m.xfered m.rawdata
      → Progress past m (16 + length d) (write_transport c s m)
  unfolding write_transport
  write_transport_lem f m d past s h lt le sent = elim (Bool-cases (leb len m.xfered)) [
    | inl all ↦
        let at : m.xfered ≡ 16 + length d = omega (arith, known, leb→le len m.xfered all) in
        (true, false, s, m.xfered, rw all, le, sent, (λ q. at, λ q. refl))
    | inr more ↦ rw more (
        rw (buffer, write_transport)
          (rw known (
            after_send-Progress past m (16 + length d) (send s part).1 part (send s part).0 lt
              (omega (arith, known, leb→gt len m.xfered more))
              (omega (arith, send_le s part, part_len))
              (send_said s part ∙ ap (λ t. t ++ take (accepted (send s part).0) part) sent) refl)))
  ]
    where
      len : ℕ
      len = (get_length m + head_len) % u32_mod

      known : len ≡ 16 + length d
      known = omega (arith, Holds-get_length f m d h (omega arith))

      part : List ℕ
      part = take (16 + length d - m.xfered) (drop m.xfered m.rawdata)

      fits : 16 + length d ≤ length m.rawdata
      fits = omega (arith, Holds-length f m d h, h.size_eq)

      part_len : length part ≡ 16 + length d - m.xfered
      part_len =
          length-take (16 + length d - m.xfered) (drop m.xfered m.rawdata)
            (omega (arith, length-drop m.xfered m.rawdata, fits))

      buffer : read_at m.rawdata m.xfered (len - m.xfered) ≡ some part
      buffer = rw known (
          unfold read_at in
          rw (
            le→leb (m.xfered + (16 + length d - m.xfered)) (length m.rawdata)
              (omega (arith, fits))))
