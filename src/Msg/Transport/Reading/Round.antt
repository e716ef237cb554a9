-- ===== src/Msg/Transport/Reading/Round.antt =====
-- One round of the loop of `xmms_ipc_msg_read_transport`: what is received goes behind what was.
use xmms2remote.Prelude.{
  ℕ, suc, ◌+◌, ◌-◌, ◌%◌, ◌^◌, ◌≤◌, ◌<◌, ◌≡◌, refl, ap, sym, ◌∙◌, Bool, true, false, not, List, [],
  ◌∷◌, ◌++◌, some, length, take, drop, ltb, arith, Bool-cases, inl, inr, append_assoc, append-nil,
  le→leb, ltb→lt, length-take, length-drop, length-append, take-append_at,
}
use xmms2remote.Msg.{Msg, u32_mod, get_length, write_at}
use xmms2remote.Msg.Transport.{
  Channel, Incoming, Outcome, got, broke, stop, arrived, after_recv, receive,
}

-- The header has arrived, with as much data as it announces.
abbrev pub Whole : Msg → Type 0
Whole m = (16 ≤ m.xfered) × (m.xfered ≡ (16 + get_length m) % 2 ^ 32)

module _ (c : Channel) where
  open c use {State, recv, heard, recv_le, recv_heard}

  -- A message that is being received: its buffer has the size noted and room for the header, and
  -- holds what came over the channel since `past`.
  pub record Receiving (past : List ℕ) (s : State) (m : Msg) : Type 0 where
    pub whole : length m.rawdata ≡ m.size
    pub room : 16 ≤ m.size
    pub inside : m.xfered ≤ m.size
    pub small : m.xfered < 2 ^ 32
    pub in_order : heard s ≡ past ++ take m.xfered m.rawdata

  -- The call ended without a memory fault in such a state, with true if the message is whole, and
  -- with false if it is not.
  abbrev pub Finished : List ℕ → Outcome State → Type 0
  Finished past o =
      (b disconnected : Bool) × (s : State) × (m : Msg) × (o ≡ stop b disconnected s m)
      × Receiving past s m
      × (b ≡ true → Whole m)
      × (b ≡ false → ¬ Whole m)

  abbrev pub Continues : List ℕ → ℕ → (State → Msg → Outcome State) → Type 0
  Continues past fuel again =
      (s : State) (m : Msg)
      → Receiving past s m
      → 2 ^ 32 - m.xfered < fuel
      → Finished past (again s m)

  after_recv-Finished :
      (past : List ℕ) (fuel : ℕ) (again : State → Msg → Outcome State) (m : Msg) (len : ℕ)
      (s s' : State) (inc : Incoming)
      → Continues past fuel again
      → Receiving past s m
      → 2 ^ 32 - m.xfered < suc fuel
      → len ≤ m.size
      → len < 2 ^ 32
      → m.xfered < len
      → ¬ Whole m
      → length (arrived inc) ≤ len - m.xfered
      → heard s' ≡ heard s ++ arrived inc
      → Finished past (after_recv c again m (inc, s'))
  unfolding after_recv
  after_recv-Finished past fuel again m len s s' (broke r) ih v fl le lt more open_ n h = (
    false,
    not r,
    s',
    m,
    refl,
    record {
      whole = v.whole;
      room = v.room;
      inside = v.inside;
      small = v.small;
      in_order = h ∙ append-nil (heard s) ∙ v.in_order;
    },
    cc,
    λ b. open_,
  )
  after_recv-Finished past fuel again m len s s' (got []) ih v fl le lt more open_ n h = (
    false,
    true,
    s',
    m,
    refl,
    record {
      whole = v.whole;
      room = v.room;
      inside = v.inside;
      small = v.small;
      in_order = h ∙ append-nil (heard s) ∙ v.in_order;
    },
    cc,
    λ b. open_,
  )
  after_recv-Finished past fuel again m len s s' (got (b ∷ bs)) ih v fl le lt more open_ n h =
      rw (written, after_recv)
        (rw wrap (
          ih s' m'
            (record {
              whole = omega (
                arith,
                length-append front (b ∷ (bs ++ back)),
                length-append bs back,
                front_len,
                back_len,
                v.whole,
              );
              room = v.room;
              inside = omega arith;
              small = omega arith;
              in_order =
                  h
                  ∙ ap (λ t. t ++ b ∷ bs) v.in_order
                  ∙ append_assoc past front (b ∷ bs)
                  ∙ ap (λ t. past ++ t) (sym arrived_all);
            })
            (omega arith)))
    where
      k : ℕ
      k = m.xfered + length (b ∷ bs)

      front : List ℕ
      front = take m.xfered m.rawdata

      back : List ℕ
      back = drop k m.rawdata

      m' : Msg
      m' = record m { rawdata = front ++ (b ∷ (bs ++ back)); xfered = k }

      front_len : length front ≡ m.xfered
      front_len = length-take m.xfered m.rawdata (omega (arith, v.whole, v.inside))

      back_len : length back ≡ m.size - k
      back_len = omega (arith, length-drop k m.rawdata, v.whole)

      wrap : k % u32_mod ≡ k
      wrap = omega arith

      written : write_at m.rawdata m.xfered (b ∷ bs) ≡ some (front ++ (b ∷ (bs ++ back)))
      written = unfold write_at in rw (le→leb k (length m.rawdata) (omega (arith, v.whole)))

      arrived_all : take k (front ++ (b ∷ (bs ++ back))) ≡ front ++ b ∷ bs
      arrived_all =
          let regroup : front ++ (b ∷ (bs ++ back)) ≡ (front ++ b ∷ bs) ++ back =
            simp append_assoc in
          rw regroup (
            take-append_at k (front ++ b ∷ bs) back
              (omega (arith, front_len, length-append front (b ∷ bs))))

  pub receive-Finished :
      (past : List ℕ) (fuel : ℕ) (again : State → Msg → Outcome State) (len : ℕ) (s : State)
      (m : Msg)
      → Continues past fuel again
      → Receiving past s m
      → 2 ^ 32 - m.xfered < suc fuel
      → len ≤ m.size
      → len < 2 ^ 32
      → ¬ Whole m
      → Finished past (receive c again len s m)
  unfolding receive
  receive-Finished past fuel again len s m ih v fl le lt open_ =
      elim (Bool-cases (ltb m.xfered len)) [
        | inl more ↦ rw more (
            after_recv-Finished past fuel again m len s (recv s (len - m.xfered)).1
              (recv s (len - m.xfered)).0 ih v fl le lt (ltb→lt m.xfered len more) open_
              (recv_le s (len - m.xfered)) (recv_heard s (len - m.xfered)))
        | inr none_left ↦ (false, false, s, m, rw none_left, v, cc, λ b. open_)
      ]
