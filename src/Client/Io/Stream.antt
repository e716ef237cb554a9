-- ===== src/Client/Io/Stream.antt =====
-- What goes over the socket is the messages in the queue, in order and once, in whatever pieces the
-- socket takes them.
use xmms2remote.Prelude.{
  ℕ, ◌+◌, ◌^◌, ◌<◌, ◌≡◌, refl, sym, ap, ◌∙◌, Bool, true, false, ◌||◌, List, [], ◌∷◌, ◌++◌, length,
  take, All, arith, append_assoc, append-nil, Bool-cases, inl, inr, ltb, ltb→lt, ltb→le,
}
use xmms2remote.Msg.{Msg, get_length, word_at}
use xmms2remote.Msg.Transport.{Channel, write_transport}
use xmms2remote.Msg.Transport.Writing.{Progress, write_transport_lem}
use xmms2remote.Msg.Layout.{Frame, Holds, Holds-get_length}
use xmms2remote.Client.Io.{Sending, sending, out_loop}

-- The bytes of a message as they go over the socket: the header and as much data as it announces.
unfoldable pub wire : Msg → List ℕ
unfolding get_length word_at
wire m = take (16 + get_length m) m.rawdata

unfoldable pub wires : List Msg → List ℕ
unfolding wire
wires [] = []
wires (m ∷ q) = wire m ++ wires q

-- A well-formed message that has not gone out as a whole, and one of which nothing has.
abbrev pub Unfinished : Msg → Type 0
Unfinished m =
    (f : Frame) × (d : List ℕ) × Holds f m d × (16 + length d < 2 ^ 32) × (m.xfered < 16 + length d)

abbrev pub Unsent : Msg → Type 0
Unsent m = Unfinished m × (m.xfered ≡ 0)

module _ (c : Channel) where
  open c use {State, said}

  -- Messages that went out as a whole were `past`, and of the queue only the front of its first
  -- message has gone out.
  abbrev pub InLine : List ℕ → State → List Msg → Type 0
  InLine past s [] = said s ≡ past
  InLine past s (m ∷ q) = Unfinished m × (said s ≡ past ++ take m.xfered m.rawdata) × All Unsent q

  -- The loop ended without a memory fault, and all bytes keep their place.
  abbrev pub Goes : List ℕ → List Msg → Sending State → Type 0
  Goes past q o =
      (disco : Bool) × (s : State) × (q' : List Msg) × (past' : List ℕ) × (o ≡ sending disco s q')
      × InLine past' s q'
      × (past' ++ wires q' ≡ past ++ wires q)

  next-InLine :
      (past : List ℕ) (s : State) (q : List Msg) → said s ≡ past → All Unsent q → InLine past s q
  next-InLine past s [] e a = e
  next-InLine past s (m ∷ q) e (u, a) = (u.0, rw u.1 (e ∙ sym (append-nil past)), a)

  -- One message of the loop, from the attempt to send it.
  write_transport-Goes :
      (past : List ℕ) (s : State) (disco : Bool) (m : Msg) (q : List Msg) (f : Frame) (d : List ℕ)
      → Holds f m d
      → 16 + length d < 2 ^ 32
      → All Unsent q
      → ((past' : List ℕ) (s' : State) (disco' : Bool)
          → InLine past' s' q
          → Goes past' q (out_loop c s' disco' q))
      → Progress c past m (16 + length d) (write_transport c s m)
      → Goes past (m ∷ q) (out_loop c s disco (m ∷ q))
  unfolding out_loop wires wire get_length word_at
  write_transport-Goes past s disco m q f d h lt a again (true, lost, s', n, e, le, e', iff) =
      let whole : wire m ≡ take n m.rawdata =
        rw (iff.0 refl)
          (ap (λ k. take (16 + k) m.rawdata) (Holds-get_length f m d h (omega arith))) in
      let v = next-InLine (past ++ wire m) s' q (e' ∙ ap (λ w. past ++ w) (sym whole)) a in
      let (disco', s'', q', past', r, v', same) = again (past ++ wire m) s' (disco || lost) v in
      (disco', s'', q', past', rw (out_loop, e) r, v', same ∙ append_assoc past (wire m) (wires q))
  write_transport-Goes past s disco m q f d h lt a again (false, lost, s', n, e, le, e', iff) =
      let more : n < 16 + length d = elim (Bool-cases (ltb n (16 + length d))) [
        | inl b ↦ ltb→lt n (16 + length d) b
        | inr b ↦ let t : false ≡ true = iff.1 (omega (arith, ltb→le n (16 + length d) b)) in cc
      ] in
      let h' : Holds (record f { sent = n }) (record m { xfered = n }) d = record {
        slack = h.slack;
        bytes = h.bytes;
        hdr_len = h.hdr_len;
        size_eq = h.size_eq;
        pos_eq = h.pos_eq;
        sent_eq = refl;
      } in
      (
        disco || lost,
        s',
        record m { xfered = n } ∷ q,
        past,
        rw (out_loop, e) refl,
        ((record f { sent = n }, d, h', lt, more), e', a),
        refl,
      )

  -- The loop over a queue of well-formed messages makes no memory fault, and whatever the socket
  -- takes, what was sent and what is left is together what was sent and in the queue before.
  pub out_loop-Goes :
      (past : List ℕ) (s : State) (disco : Bool) (q : List Msg)
      → InLine past s q
      → Goes past q (out_loop c s disco q)
  unfolding out_loop
  out_loop-Goes past s disco [] v = (disco, s, [], past, refl, v, refl)
  out_loop-Goes past s disco (m ∷ q) ((f, d, h, lt, more), e, a) =
      write_transport-Goes past s disco m q f d h lt a
        (λ past' s' disco' v. out_loop-Goes past' s' disco' q v)
        (write_transport_lem c f m d past s h lt (omega arith) e)
