-- ===== src/Client/Io/Input/Order.antt =====
-- Every whole message that arrives is handled once, in the order of arrival, however the socket
-- cuts the messages into pieces.
use xmms2remote.Prelude.{
  ℕ, zero, suc, ◌+◌, ◌^◌, ◌≤◌, ◌<◌, ◌≡◌, refl, sym, ap, ◌∙◌, Bool, true, false, List, [], ◌∷◌, ◌++◌,
  Option, none, some, length, take, All, arith, append_assoc, append-nil, length-append,
  length-take,
}
use xmms2remote.Msg
use xmms2remote.Msg.{Msg, Memory, alloc, get_length}
use xmms2remote.Msg.Fresh.{blank, alloc_lem, length-rest}
use xmms2remote.Msg.Transport.{Channel, Outcome, read_transport}
use xmms2remote.Msg.Transport.Reading.{Receiving, Whole, Finished, read_transport_lem}
use xmms2remote.Client.{Connection, Handled, handled, exec_msg}
use xmms2remote.Client.Io.Input.{Taking, taking, current_msg, after_exec, after_read, in_loop}

-- The bytes of a message that have arrived, of all messages in a list, and of the current one.
abbrev pub bytes_of : Msg → List ℕ
bytes_of m = take m.xfered m.rawdata

unfoldable pub all_bytes : List Msg → List ℕ
all_bytes [] = []
all_bytes (m ∷ ms) = bytes_of m ++ all_bytes ms

unfoldable pub rest_of : Option Msg → List ℕ
rest_of none = []
rest_of (some m) = bytes_of m

-- The current message is not whole.
abbrev pub Unfinished : Option Msg → Type 0
Unfinished none = Unit
Unfinished (some m) = ¬ Whole m

module _ (c : Channel) (mem : Memory) (read_fuel exec_fuel : ℕ) where
  open c use {State, heard}

  -- Handling messages in turn, until there is a memory fault.
  unfoldable pub deliver : Connection → List Msg → Handled
  deliver client [] = handled client
  deliver client (m ∷ ms) = elim (exec_msg mem exec_fuel client m) [
    | handled client' ↦ deliver client' ms
    | Handled.fault ↦ Handled.fault
    | Handled.out_of_fuel ↦ Handled.out_of_fuel
  ]

  -- The loop ended as the handling of whole messages in turn ends; if that is well, these messages
  -- and the current one, which is not whole, are all that came over the channel since `past`.
  pub data Dispatched (past : List ℕ) (client : Connection) : Taking State → Type 0 where
    takes :
        (ms : List Msg) (disco : Bool) (s : State) (read_msg : Option Msg) (client' : Connection)
        → All Whole ms
        → Unfinished read_msg
        → deliver client ms ≡ handled client'
        → heard s ≡ past ++ (all_bytes ms ++ rest_of read_msg)
        → Dispatched past client (taking disco s read_msg client')
    faults :
        (ms : List Msg)
        → All Whole ms
        → deliver client ms ≡ Handled.fault
        → Dispatched past client Taking.fault
    starves :
        (ms : List Msg)
        → All Whole ms
        → deliver client ms ≡ Handled.out_of_fuel
        → Dispatched past client Taking.out_of_fuel

  -- A state of the current message.
  abbrev pub Current : List ℕ → State → Option Msg → Type 0
  Current past s none = heard s ≡ past
  Current past s (some m) = Receiving c past s m

  Current-length :
      (past : List ℕ) (s : State) (r : Option Msg)
      → Current past s r
      → length past ≤ length (heard s)
  Current-length past s none e = rw e (omega arith)
  Current-length past s (some m) v = rw v.in_order (omega (arith, length-append past (bytes_of m)))

  module _ (enough : (n : ℕ) → mem.grants n ≡ true) where
    current_msg_lem :
        (past : List ℕ) (s : State) (r : Option Msg)
        → Current past s r
        → (m : Msg) × (current_msg mem r ≡ Msg.Result.ok tt m) × Receiving c past s m
    unfolding current_msg blank
    current_msg_lem past s none e = (
      blank mem enough,
      alloc_lem mem enough,
      record {
        whole = omega (arith, length-rest mem enough);
        room = omega arith;
        inside = omega arith;
        small = omega arith;
        in_order = e ∙ sym (append-nil past);
      },
    )
    current_msg_lem past s (some m) v = (m, refl, v)

    first :
        (past : List ℕ) (client client' : Connection) (m : Msg) (o : Taking State)
        → Whole m
        → exec_msg mem exec_fuel client m ≡ handled client'
        → Dispatched (past ++ bytes_of m) client' o
        → Dispatched past client o
    unfolding deliver all_bytes
    first past client client' m _ w e (takes ms disco s r client'' a u d h) =
        takes (m ∷ ms) disco s r client'' (w, a) u (rw (deliver, e) d)
          (h
            ∙ (append_assoc past (bytes_of m) (all_bytes ms ++ rest_of r)
                ∙ ap (λ x. past ++ x) (sym (append_assoc (bytes_of m) (all_bytes ms) (rest_of r)))))
    first past client client' m _ w e (faults ms a d) = faults (m ∷ ms) (w, a) (rw (deliver, e) d)
    first past client client' m _ w e (starves ms a d) = starves (m ∷ ms) (w, a) (rw (deliver, e) d)

    -- A message that has arrived as a whole, and what comes behind it.
    after_exec-Dispatched :
        (past : List ℕ) (again : State → Option Msg → Connection → Taking State)
        (client : Connection) (m : Msg) (lost : Bool) (s : State) (h : Handled)
        → Whole m
        → heard s ≡ past ++ bytes_of m
        → exec_msg mem exec_fuel client m ≡ h
        → ((client' : Connection) → Dispatched (past ++ bytes_of m) client' (again s none client'))
        → Dispatched past client (after_exec c mem read_fuel exec_fuel again lost s h)
    unfolding after_exec deliver all_bytes rest_of
    after_exec-Dispatched past again client m true s (handled client') w e r ih =
        first past client client' m _ w r
          (takes [] true s none client' tt tt refl (e ∙ sym (append-nil (past ++ bytes_of m))))
    after_exec-Dispatched past again client m false s (handled client') w e r ih =
        first past client client' m _ w r (ih client')
    after_exec-Dispatched past again client m lost s Handled.fault w e r ih =
        faults (m ∷ []) (w, tt) (rw (deliver, r) refl)
    after_exec-Dispatched past again client m lost s Handled.out_of_fuel w e r ih =
        starves (m ∷ []) (w, tt) (rw (deliver, r) refl)

    after_read-Dispatched :
        (past : List ℕ) (again : State → Option Msg → Connection → Taking State)
        (client : Connection) (o : Outcome State)
        → Finished c past o
        → ((m : Msg) (s : State) (client' : Connection)
            → Whole m
            → m.xfered ≤ length m.rawdata
            → heard s ≡ past ++ bytes_of m
            → Dispatched (past ++ bytes_of m) client' (again s none client'))
        → Dispatched past client (after_read c mem read_fuel exec_fuel again client o)
    unfolding after_read deliver all_bytes rest_of
    after_read-Dispatched past again client o (true, lost, s, m, e, v, w, w') ih = rw e (
        after_exec-Dispatched past again client m lost s (exec_msg mem exec_fuel client m) (w refl)
          v.in_order refl
          (λ client'. ih m s client' (w refl) (omega (arith, v.whole, v.inside)) v.in_order))
    after_read-Dispatched past again client o (false, lost, s, m, e, v, w, w') ih =
        rw e (takes [] lost s (some m) client tt (w' refl) refl v.in_order)

    -- On a socket that delivers no more than `bound` bytes in all, where memory is granted: the loop
    -- handles each whole message that arrives once, in the order of arrival, and ends as that does;
    -- no byte is lost between the messages, and the rest, which is no whole message, is kept as the
    -- current one.
    pub in_loop-Dispatched :
        (bound : ℕ)
        → ((s : State) → length (heard s) ≤ bound)
        → 2 ^ 32 < read_fuel
        → (fuel : ℕ) (past : List ℕ) (s : State) (read_msg : Option Msg) (client : Connection)
        → Current past s read_msg
        → bound < length past + fuel
        → Dispatched past client (in_loop c mem read_fuel exec_fuel fuel s read_msg client)
    unfolding in_loop
    in_loop-Dispatched bound within enough_fuel zero past s r client v lt =
        absurd (omega (arith, within s, Current-length past s r v))
    in_loop-Dispatched bound within enough_fuel (suc fuel) past s r client v lt =
        let (m, e, v') = current_msg_lem past s r v in
        rw (in_loop, e)
          (after_read-Dispatched past (in_loop c mem read_fuel exec_fuel fuel) client
            (read_transport c mem read_fuel s m)
            (read_transport_lem c mem past read_fuel s m v' (omega arith))
            (λ m' s' client' w le h.
              in_loop-Dispatched bound within enough_fuel fuel (past ++ bytes_of m') s' none client'
                h
                (omega (
                  arith,
                  length-append past (bytes_of m'),
                  length-take m'.xfered m'.rawdata le,
                  w.0,
                ))))
