-- ===== src/Client/Io/Traffic.antt =====
-- One write to a connection and one run of its callback: every byte that was written keeps its
-- place, on the socket or in the queue.
use xmms2remote.Prelude.{
  ℕ, ◌+◌, ◌^◌, ◌<◌, ◌≡◌, refl, sym, ap, ap₂, ◌∙◌, Bool, true, false, List, [], ◌∷◌, ◌++◌, none,
  some, length, take, All, arith, append_assoc, append-nil, Bool-cases, inl, inr, take-append_at,
  if◌then◌else◌, length-append,
}
use xmms2remote.Value.Text.{codes}
use xmms2remote.Msg.{Msg, be32, get_length}
use xmms2remote.Msg.Transport.{Channel}
use xmms2remote.Msg.Layout.{Frame, Holds, Holds-get_length, set_cookie-Holds, length-be32}
use xmms2remote.Client.Io.{
  Ipc, called, io_out, need_out, ipc_disconnect, msg_write, out_loop, after_loop, io_out_callback,
}
use xmms2remote.Client.Io.Stream.{wire, wires, Unsent, InLine, out_loop-Goes}

-- The bytes of a message with the cookie: eight bytes of object and command, the cookie, the length
-- and the data.
abbrev pub frame_bytes : Frame → ℕ → List ℕ → List ℕ
frame_bytes f cookie d = take 8 f.hdr ++ (be32 cookie ++ (be32 (length d) ++ d))

wire_lem :
    (f : Frame) (m : Msg) (d : List ℕ) (cookie : ℕ)
    → Holds (record f { hdr = take 8 f.hdr ++ be32 cookie }) m d
    → length d < 2 ^ 32
    → wire m ≡ frame_bytes f cookie d
unfolding wire
wire_lem f m d cookie h lt =
    let g : Frame = record f { hdr = take 8 f.hdr ++ be32 cookie } in
    let len : get_length m ≡ length d = Holds-get_length g m d h lt in
    let e : m.rawdata ≡ frame_bytes f cookie d ++ h.slack = h.bytes ∙ simp append_assoc in
    let n : length (frame_bytes f cookie d) ≡ 16 + length d = omega (
      arith,
      length-append (take 8 f.hdr) (be32 cookie),
      length-append (take 8 f.hdr) (be32 cookie ++ (be32 (length d) ++ d)),
      length-append (be32 cookie) (be32 (length d) ++ d),
      length-append (be32 (length d)) d,
      length-be32 cookie,
      length-be32 (length d),
      h.hdr_len,
    ) in
    rw (len, e) (take-append_at (16 + length d) (frame_bytes f cookie d) h.slack (sym n))

wires-append : (q r : List Msg) → wires (q ++ r) ≡ wires q ++ wires r
unfolding wires
wires-append [] r = refl
wires-append (m ∷ q) r =
    ap (λ w. wire m ++ w) (wires-append q r) ∙ sym (append_assoc (wire m) (wires q) (wires r))

All-snoc : (q : List Msg) (m : Msg) → All Unsent q → Unsent m → All Unsent (q ++ m ∷ [])
All-snoc [] m a u = (u, tt)
All-snoc (n ∷ q) m (v, a) u = (v, All-snoc q m a u)

module _ (c : Channel) where
  open c use {State, said}

  -- All that was written to the connection is these bytes: those that went over the socket, and
  -- those that the queue still holds.
  abbrev pub Carries : List ℕ → Ipc State → Type 0
  Carries total i =
      (past : List ℕ) × InLine c past i.transport i.out_msg × (past ++ wires i.out_msg ≡ total)

  InLine-snoc :
      (past : List ℕ) (s : State) (q : List Msg) (m : Msg)
      → InLine c past s q
      → Unsent m
      → InLine c past s (q ++ m ∷ [])
  InLine-snoc past s [] m e (u, z) = (u, rw z (e ∙ sym (append-nil past)), tt)
  InLine-snoc past s (n ∷ q) m (u, e, a) v = (u, e, All-snoc q m a v)

  need_out-same :
      (i : Ipc State) (b : Bool)
      → (need_outs : List Bool) × (need_out i b ≡ record i { need_outs = need_outs })
  unfolding need_out
  need_out-same i b = elim (Bool-cases i.need_out_callback) [
    | inl e ↦ (i.need_outs ++ b ∷ [], rw e refl)
    | inr e ↦ (i.need_outs, rw e refl)
  ]

  -- Writing a message that was never sent adds its bytes, with the cookie, to the end.
  pub msg_write-Carries :
      (total : List ℕ) (i : Ipc State) (f : Frame) (m : Msg) (d : List ℕ) (cookie : ℕ)
      → Carries total i
      → Holds f m d
      → f.sent ≡ 0
      → 16 + length d < 2 ^ 32
      → (i' : Ipc State) × (msg_write i m cookie ≡ called true i')
        × Carries (total ++ frame_bytes f cookie d) i'
  unfolding msg_write wires
  msg_write-Carries total i f m d cookie (past, v, e) h z lt =
      let (m', stored, h') = set_cookie-Holds f m d cookie h in
      let i' : Ipc State = record i { out_msg = i.out_msg ++ m' ∷ [] } in
      let (outs, same) = need_out-same i' true in
      let fresh : m'.xfered ≡ 0 = h'.sent_eq ∙ z in
      let u : Unsent m' =
        ((record f { hdr = take 8 f.hdr ++ be32 cookie }, d, h', lt, omega arith), fresh) in
      let bytes : past ++ (wires i.out_msg ++ wires (m' ∷ [])) ≡ total ++ frame_bytes f cookie d =
        (sym (append_assoc past (wires i.out_msg) (wires (m' ∷ []))))
        ∙ ap₂ (λ a b. a ++ b) e (append-nil (wire m') ∙ wire_lem f m' d cookie h' (omega arith)) in
      (
        record i' { need_outs = outs },
        rw (msg_write, stored) (ap (called true) same),
        (
          past,
          InLine-snoc past i.transport i.out_msg m' v u,
          rw (wires-append i.out_msg (m' ∷ [])) bytes,
        ),
      )

  -- What the callback leaves: the connection is lost, or nothing but the socket and the queue
  -- changes and the next callback is asked for if something is left.
  abbrev pub Flushed : Ipc State → Bool → Ipc State → Type 0
  Flushed i true i' =
      let j : Ipc State = record i { transport = i'.transport; out_msg = i'.out_msg } in
      i' ≡ need_out j (io_out j)
  Flushed i false i' =
      (i'.disconnect ≡ true) × (i'.read_msg ≡ none) × (i'.error ≡ some (codes "Disconnected"))

  opened :
      (i : Ipc State)
      → i.disconnect ≡ false
      → io_out_callback c i ≡ after_loop c i (out_loop c i.transport false i.out_msg)
  unfolding io_out_callback
  opened i e =
      ap
        (λ b. if b then called false i else after_loop c i (out_loop c i.transport false i.out_msg))
        e

  pub io_out_callback_lem :
      (total : List ℕ) (i : Ipc State)
      → Carries total i
      → i.disconnect ≡ false
      → (b : Bool) × (i' : Ipc State) × (io_out_callback c i ≡ called b i')
        × Carries total i'
        × Flushed i b i'
  unfolding after_loop
  io_out_callback_lem total i (past, v, e) open_ =
      let (disco, s, q, past', r, v', same) = out_loop-Goes c past i.transport false i.out_msg v in
      elim (Bool-cases disco) [
        | inl lost ↦ (
          false,
          ipc_disconnect (record i { transport = s; out_msg = q }),
          opened i open_ ∙ rw (r, lost) refl,
          (past', v', same ∙ e),
          (refl, refl, refl),
        )
        | inr kept ↦
            let j : Ipc State = record i { transport = s; out_msg = q } in
            let (outs, noted) = need_out-same j (io_out j) in
            (
              true,
              record j { need_outs = outs },
              opened i open_ ∙ rw (r, kept) (ap (called true) noted),
              (past', v', same ∙ e),
              sym noted,
            )
      ]
