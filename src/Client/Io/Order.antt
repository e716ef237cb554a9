-- ===== src/Client/Io/Order.antt =====
-- All that a client does with a connection: what was written to it goes out, in order and once.
use xmms2remote.Prelude.{
  ℕ, ◌+◌, ◌^◌, ◌<◌, ◌≡◌, refl, sym, ap, subst, ◌∙◌, Bool, false, List, [], ◌∷◌, ◌++◌, length, take,
  drop, append_assoc, append-nil, Bool-cases, inl, inr, take-append-drop, take-take, arith,
}
use xmms2remote.Msg.{Msg, get_length}
use xmms2remote.Msg.Transport.{Channel}
use xmms2remote.Msg.Layout.{Frame, Holds, Holds-get_length}
use xmms2remote.Client.Io.{Ipc, called, init, msg_write, io_out_callback}
use xmms2remote.Client.Io.Stream.{wire, wires, Unfinished, InLine}
use xmms2remote.Client.Io.Traffic.{frame_bytes, Carries, msg_write-Carries, io_out_callback_lem}

-- What a client and the socket do to a connection: messages are written to it, the callback runs
-- when the socket can take something, and other changes (of what is received) send nothing and
-- leave the queue alone. The list is all that was written.
pub data Traffic (c : Channel) : List ℕ → Ipc c.State → Type 0 where
  opens : (s : c.State) → c.said s ≡ [] → Traffic c [] (init s)
  writes :
      (total : List ℕ) (i i' : Ipc c.State) (f : Frame) (m : Msg) (d : List ℕ) (cookie : ℕ)
      (b : Bool)
      → Traffic c total i
      → Holds f m d
      → f.sent ≡ 0
      → 16 + length d < 2 ^ 32
      → msg_write i m cookie ≡ called b i'
      → Traffic c (total ++ frame_bytes f cookie d) i'
  flushes :
      (total : List ℕ) (i i' : Ipc c.State) (b : Bool)
      → Traffic c total i
      → io_out_callback c i ≡ called b i'
      → Traffic c total i'
  receives :
      (total : List ℕ) (i i' : Ipc c.State)
      → Traffic c total i
      → i'.out_msg ≡ i.out_msg
      → c.said i'.transport ≡ c.said i.transport
      → Traffic c total i'

-- What went out of the first message is the front of its bytes.
front-wire : (m : Msg) → Unfinished m → take m.xfered m.rawdata ≡ take m.xfered (wire m)
unfolding wire
front-wire m (f, d, h, lt, more) = sym (
    take-take m.xfered (16 + get_length m) m.rawdata
      (omega (arith, Holds-get_length f m d h (omega arith))))

module _ (c : Channel) where
  open c use {State, said}

  callback-Carries :
      (total : List ℕ) (i i' : Ipc State) (b : Bool)
      → Carries c total i
      → io_out_callback c i ≡ called b i'
      → Carries c total i'
  unfolding io_out_callback
  callback-Carries total i i' b v e = elim (Bool-cases i.disconnect) [
    | inl closed ↦
        let r : io_out_callback c i ≡ called false i = rw (io_out_callback, closed) refl in
        let same : i ≡ i' = cc in subst (Carries c total) same v
    | inr open_ ↦
        let (b', j, r, v', flushed) = io_out_callback_lem c total i v open_ in
        let same : j ≡ i' = cc in subst (Carries c total) same v'
  ]

  said-InLine :
      (past : List ℕ) (s s' : State) (q : List Msg)
      → said s' ≡ said s
      → InLine c past s q
      → InLine c past s' q
  said-InLine past s s' [] same e = same ∙ e
  said-InLine past s s' (m ∷ q) same (u, e, a) = (u, same ∙ e, a)

  Traffic-Carries : (total : List ℕ) (i : Ipc State) → Traffic c total i → Carries c total i
  unfolding init wires
  Traffic-Carries _ _ (opens s e) = ([], e, refl)
  Traffic-Carries _ i' (writes total i _ f m d cookie b t h z lt e) =
      let (j, r, v) = msg_write-Carries c total i f m d cookie (Traffic-Carries total i t) h z lt in
      let same : j ≡ i' = cc in subst (Carries c (total ++ frame_bytes f cookie d)) same v
  Traffic-Carries total i' (flushes _ i _ b t e) =
      callback-Carries total i i' b (Traffic-Carries total i t) e
  Traffic-Carries total i' (receives _ i _ t queue sent) =
      let (past, v, e) = Traffic-Carries total i t in
      (
        past,
        subst (InLine c past i'.transport) (sym queue)
            (said-InLine past i.transport i'.transport i.out_msg sent v),
        ap (λ q. past ++ wires q) queue ∙ e,
      )

  InLine-Prefix :
      (past : List ℕ) (s : State) (q : List Msg)
      → InLine c past s q
      → (rest : List ℕ) × (said s ++ rest ≡ past ++ wires q) × (q ≡ [] → said s ≡ past)
  unfolding wires
  InLine-Prefix past s [] e = ([], ap (λ x. x ++ []) e, λ q. e)
  InLine-Prefix past s (m ∷ q) (u, e, a) = (
    drop m.xfered (wire m) ++ wires q,
    (ap (λ x. x ++ (drop m.xfered (wire m) ++ wires q)) (e ∙ ap (λ w. past ++ w) (front-wire m u)))
        ∙ (append_assoc past (take m.xfered (wire m)) (drop m.xfered (wire m) ++ wires q)
            ∙ ap (λ w. past ++ w)
                (sym (append_assoc (take m.xfered (wire m)) (drop m.xfered (wire m)) (wires q))
                  ∙ ap (λ w. w ++ wires q) (take-append-drop m.xfered (wire m)))),
    cc,
  )

  -- Whatever messages were written to a connection, and however the socket took them: what it has
  -- sent is the front of what was written, in order and once; and it is all of it when the queue is
  -- empty.
  pub Traffic-Prefix :
      (total : List ℕ) (i : Ipc State)
      → Traffic c total i
      → (rest : List ℕ) × (said i.transport ++ rest ≡ total)
        × (i.out_msg ≡ [] → said i.transport ≡ total)
  unfolding wires
  Traffic-Prefix total i t =
      let (past, v, e) = Traffic-Carries total i t in
      let (rest, whole, all) = InLine-Prefix past i.transport i.out_msg v in
      (rest, whole ∙ e, λ q. all q ∙ done past q e)
    where
      done : (past : List ℕ) → i.out_msg ≡ [] → past ++ wires i.out_msg ≡ total → past ≡ total
      done past q e = sym (append-nil past) ∙ (ap (λ x. past ++ wires x) (sym q) ∙ e)
