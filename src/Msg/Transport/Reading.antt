-- ===== src/Msg/Transport/Reading.antt =====
-- Receiving in pieces: whatever portions the socket delivers, the buffer holds what arrived, in
-- order, and nothing is written outside it.
mod Round
pub use Round.{Receiving, Whole, Finished}
use Round.{Continues, receive-Finished}
use xmms2remote.Prelude.{
  ℕ, zero, suc, ◌+◌, ◌-◌, ◌%◌, ◌^◌, ◌≤◌, ◌<◌, ◌≡◌, refl, ap, sym, ◌∙◌, Bool, true, false, not, List,
  [], ◌∷◌, ◌++◌, Option, none, some, length, take, drop, ltb, leb, ◌==◌, if◌then◌else◌, arith,
  Bool-cases, inl, inr, append_assoc, append-nil, le→leb, leb→le, ltb→lt, ltb→le, length-take,
  length-drop, length-append, ==_iff, take-append_le, drop-append_le, take_all, take-append_at,
}
use xmms2remote.Msg.{Msg, Memory, u32_mod, head_len, get_length, write_at}
use xmms2remote.Msg.Transport.{
  Channel, Incoming, Outcome, got, broke, stop, arrived, after_recv, receive, grow, read_transport,
}

module _ (c : Channel) where
  open c use {State}

  module _ (mem : Memory) where
    -- The buffer after growing, if the request was granted.
    abbrev Grown : List ℕ → State → Msg → ℕ → Option Msg → Type 0
    Grown past s m len none = m.size < len
    Grown past s m len (some m') =
        Receiving c past s m'
        × (len ≤ m'.size)
        × (m'.xfered ≡ m.xfered)
        × (get_length m' ≡ get_length m)

    grow-Grown :
        (past : List ℕ) (s : State) (m : Msg) (len : ℕ)
        → Receiving c past s m
        → Grown past s m len (grow c mem len m)
    unfolding grow
    grow-Grown past s m len v = elim (Bool-cases (ltb m.size len)) [
      | inl small ↦
          let lt = ltb→lt m.size len small in
          elim (Bool-cases (mem.grants len)) [
            | inl yes' ↦
                rw (small, yes')
                  (
                    record {
                      whole = rw (bytes lt) (
                          omega (
                            arith,
                            length-append m.rawdata extra,
                            mem.length-fresh (len - length m.rawdata),
                            v.whole,
                            lt,
                          ));
                      room = omega (arith, v.room, lt);
                      inside = omega (arith, v.inside, lt);
                      small = v.small;
                      in_order =
                          rw
                            (
                              bytes lt,
                              take-append_le m.xfered m.rawdata extra
                                  (omega (arith, v.whole, v.inside)),
                            )
                            v.in_order;
                    },
                    omega arith,
                    refl,
                    same_word lt,
                  )
            | inr no' ↦ rw (small, no') lt
          ]
      | inr big ↦ rw big (v, ltb→le m.size len big, refl, refl)
    ]
      where
        extra : List ℕ
        extra = mem.fresh (len - length m.rawdata)

        bytes : m.size < len → take len m.rawdata ++ extra ≡ m.rawdata ++ extra
        bytes lt = rw (take_all m.rawdata len (omega (arith, v.whole, lt)))

        same_word :
            m.size < len
            → get_length (record m { rawdata = take len m.rawdata ++ extra; size = len })
              ≡ get_length m
        same_word lt =
            unfold get_length in
            rw (bytes lt, drop-append_le 12 m.rawdata extra (omega (arith, v.whole, v.room)))
              (rw (
                take-append_le 4 (drop 12 m.rawdata) extra
                  (omega (arith, length-drop 12 m.rawdata, v.whole, v.room))))

    -- Whatever the channel delivers and whatever requests for memory are granted, reading ends with
    -- fuel above the bytes that a 32-bit count leaves; it writes nothing outside the buffer; what
    -- arrived stands at the front of the buffer, in order; and the result is true exactly when the
    -- header has arrived with as much data as it announces (in 32-bit arithmetic).
    pub read_transport_lem :
        (past : List ℕ) (fuel : ℕ) (s : State) (m : Msg)
        → Receiving c past s m
        → 2 ^ 32 - m.xfered < fuel
        → Finished c past (read_transport c mem fuel s m)
    unfolding read_transport
    read_transport_lem past zero s m v fl = absurd (omega arith)
    read_transport_lem past (suc fuel) s m v fl = elim (Bool-cases (leb head_len m.xfered)) [
      | inl header ↦ rw header (
          with_header (grow c mem len m) refl (grow-Grown past s m len v)
            (leb→le head_len m.xfered header) (read_transport_lem past fuel))
      | inr part ↦ rw part (
          receive-Finished c past fuel (read_transport c mem fuel) 16 s m
            (read_transport_lem past fuel) v fl v.room (omega arith)
            (λ w. absurd (omega (arith, w.0, not_yet part))))
    ]
      where
        len : ℕ
        len = (head_len + get_length m) % u32_mod

        not_yet : leb head_len m.xfered ≡ false → m.xfered < 16
        not_yet part = ground arith

        differs :
            (m' : Msg)
            → get_length m' ≡ get_length m
            → (m'.xfered == len) ≡ false
            → ¬ (m'.xfered ≡ (16 + get_length m') % 2 ^ 32)
        differs m' word more e =
            absurd (ground (arith, (==_iff m'.xfered len).1 (e ∙ ap (λ n. (16 + n) % 2 ^ 32) word)))

        with_header :
            (g : Option Msg)
            → grow c mem len m ≡ g
            → Grown past s m len g
            → 16 ≤ m.xfered
            → Continues c past fuel (read_transport c mem fuel)
            → Finished c past (elim g [
              | none ↦ stop false true s m
              | some m' ↦
                  if m'.xfered == len
                  then stop true false s m'
                  else receive c (read_transport c mem fuel) len s m'
            ])
        with_header none e t header ih =
            (false, true, s, m, refl, v, cc, λ b w. absurd (omega (arith, v.inside, t, w.1)))
        with_header (some m') e (v', le, same, word) header ih =
            elim (Bool-cases (m'.xfered == len)) [
              | inl all ↦ (
                true,
                false,
                s,
                m',
                rw all,
                v',
                λ q. (omega (arith, same, header), rw word ((==_iff m'.xfered len).0 all)),
                cc,
              )
              | inr more ↦ rw more (
                  receive-Finished c past fuel (read_transport c mem fuel) len s m' ih v'
                    (omega (arith, same, fl)) le (omega arith)
                    (λ w. absurd (differs m' word more w.1)))
            ]
