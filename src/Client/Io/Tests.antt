-- ===== src/Client/Io/Tests.antt =====
-- A socket that takes eighteen bytes at a time, and the theorems on the queue over it.
use xmms2remote.Prelude.{
  length-take_all, take-length, ℕ, ap, sym, ◌≡◌, refl, true, false, List, [], ◌∷◌, ◌++◌, none,
  length, take, arith,
}
use xmms2remote.Msg.{
  Msg, be32, set_cookie, store_at, write_at, get_length, word_at, from_be32, read_at,
}
use xmms2remote.Msg.Layout.{Frame, Holds}
use xmms2remote.Msg.Transport.{Channel, got, took, write_transport, after_send}
use xmms2remote.Client.Io.{
  Ipc, called, init, io_out, need_out, msg_write, out_loop, after_loop, io_out_callback,
}
use xmms2remote.Client.Io.Traffic.{frame_bytes}
use xmms2remote.Client.Io.Order.{Traffic, opens, writes, flushes, Traffic-Prefix}

-- Its state is what it has taken; it never delivers anything.
abbrev narrow : Channel
narrow = record {
  State = List ℕ;
  recv = λ s n. (got [], s);
  send = λ s bs. (took (length (take 18 bs)), s ++ take 18 bs);
  heard = λ s. [];
  said = λ s. s;
  recv_le = λ s n. omega arith;
  recv_heard = λ s n. refl;
  send_le = λ s bs. length-take_all 18 bs;
  send_said = λ s bs. ap (λ t. s ++ t) (sym (take-length 18 bs));
}

abbrev frame : Frame
frame = record { hdr = be32 1 ++ (be32 2 ++ be32 0); pos = 0; sent = 0 }

-- A message with three bytes of data.
abbrev message : Msg
message = record {
  rawdata = (be32 1 ++ (be32 2 ++ be32 0)) ++ (be32 3 ++ (7 ∷ 8 ∷ 9 ∷ []));
  get_pos = 0;
  size = 19;
  xfered = 0;
}

message-Holds : Holds frame message (7 ∷ 8 ∷ 9 ∷ [])
unfolding be32
message-Holds = record {
  slack = [];
  bytes = refl;
  hdr_len = refl;
  size_eq = omega arith;
  pos_eq = refl;
  sent_eq = refl;
}

abbrev queued : Msg
queued = record message { rawdata = (be32 1 ++ (be32 2 ++ be32 5)) ++ (be32 3 ++ (7 ∷ 8 ∷ 9 ∷ [])) }

abbrev before : Ipc (List ℕ)
before = record {
  transport = [];
  out_msg = queued ∷ [];
  read_msg = none;
  disconnect = false;
  error = none;
  need_out_callback = false;
  need_outs = [];
  disconnect_callback = false;
  disconnects = 0;
}

-- One byte is left.
abbrev after : Ipc (List ℕ)
after = record before {
  transport = take 18 queued.rawdata;
  out_msg = record queued { xfered = 18 } ∷ [];
}

written : msg_write (init []) message 5 ≡ called true before
unfolding msg_write init set_cookie store_at write_at need_out be32
written = refl

flushed : io_out_callback narrow before ≡ called true after
unfolding io_out_callback out_loop after_loop write_transport after_send get_length word_at
    from_be32 read_at need_out io_out be32
flushed = refl

traffic : Traffic narrow (frame_bytes frame 5 (7 ∷ 8 ∷ 9 ∷ [])) after
traffic =
    flushes (frame_bytes frame 5 (7 ∷ 8 ∷ 9 ∷ [])) before after true
      (writes [] (init []) before frame message (7 ∷ 8 ∷ 9 ∷ []) 5 true (opens [] refl)
        message-Holds refl (omega arith) written)
      flushed

Traffic-Prefix_example :
    (rest : List ℕ) × (take 18 queued.rawdata ++ rest ≡ frame_bytes frame 5 (7 ∷ 8 ∷ 9 ∷ []))
    × (after.out_msg ≡ [] → take 18 queued.rawdata ≡ frame_bytes frame 5 (7 ∷ 8 ∷ 9 ∷ []))
Traffic-Prefix_example = Traffic-Prefix narrow (frame_bytes frame 5 (7 ∷ 8 ∷ 9 ∷ [])) after traffic
