-- ===== src/Msg/Transport/Tests.antt =====
-- A socket in memory, and the transport theorems over it.
use xmms2remote.Prelude.{
  length-take_le, ℕ, zero, suc, ◌+◌, ◌^◌, ◌≡◌, refl, true, List, [], ◌∷◌, ◌++◌, length, take, drop,
  arith,
}
use xmms2remote.Msg.{Msg, Memory, be32}
use xmms2remote.Msg.Layout.{Frame, Holds}
use xmms2remote.Msg.Transport.{Channel, got, took, write_transport, read_transport}
use xmms2remote.Msg.Transport.Writing.{Progress, write_transport_lem}
use xmms2remote.Msg.Transport.Reading.{Receiving, Finished, read_transport_lem}

-- The bytes that are still to come, those that came, and those that were sent.
abbrev Pipe : Type 0
Pipe = List ℕ × List ℕ × List ℕ

-- It delivers all that is asked for and there, and takes all that it is given.
abbrev pipe : Channel
pipe = record {
  State = Pipe;
  recv = λ p n. (got (take n p.0), (drop n p.0, p.1 ++ take n p.0, p.2));
  send = λ p bs. (took (length bs), (p.0, p.1, p.2 ++ take (length bs) bs));
  heard = λ p. p.1;
  said = λ p. p.2;
  recv_le = λ p n. length-take_le n p.0;
  recv_heard = λ p n. refl;
  send_le = λ p bs. omega arith;
  send_said = λ p bs. refl;
}

filled : ℕ → List ℕ
filled zero = []
filled (suc n) = 0 ∷ filled n

length-filled : (n : ℕ) → length (filled n) ≡ n
unfolding filled
length-filled zero = refl
length-filled (suc n) = omega (arith, length-filled n)

abbrev heap : Memory
heap = record { grants = λ n. true; fresh = filled; length-fresh = length-filled }

abbrev frame : Frame
frame = record { hdr = be32 1 ++ (be32 2 ++ be32 3); pos = 0; sent = 5 }

-- Three bytes of data, of which header and data five bytes have gone out.
abbrev half_sent : Msg
half_sent = record {
  rawdata = (be32 1 ++ (be32 2 ++ be32 3)) ++ (be32 3 ++ (7 ∷ 8 ∷ 9 ∷ []));
  get_pos = 0;
  size = 19;
  xfered = 5;
}

half_sent-Holds : Holds frame half_sent (7 ∷ 8 ∷ 9 ∷ [])
unfolding be32
half_sent-Holds = record {
  slack = [];
  bytes = refl;
  hdr_len = refl;
  size_eq = omega arith;
  pos_eq = refl;
  sent_eq = refl;
}

write_transport_lem_example :
    Progress pipe [] half_sent 19
      (write_transport pipe ([], [], take 5 half_sent.rawdata) half_sent)
write_transport_lem_example =
    write_transport_lem pipe frame half_sent (7 ∷ 8 ∷ 9 ∷ []) [] ([], [], take 5 half_sent.rawdata)
      half_sent-Holds (omega arith) (omega arith) refl

abbrev fresh_message : Msg
fresh_message = record { rawdata = filled 128; get_pos = 0; size = 128; xfered = 0 }

fresh-Receiving : Receiving pipe [] (half_sent.rawdata, [], []) fresh_message
fresh-Receiving = record {
  whole = length-filled 128;
  room = omega arith;
  inside = omega arith;
  small = omega arith;
  in_order = refl;
}

read_transport_lem_example :
    Finished pipe []
      (read_transport pipe heap (2 ^ 32 + 1) (half_sent.rawdata, [], []) fresh_message)
read_transport_lem_example =
    read_transport_lem pipe heap [] (2 ^ 32 + 1) (half_sent.rawdata, [], []) fresh_message
      fresh-Receiving (omega arith)
