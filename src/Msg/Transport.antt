-- ===== src/Msg/Transport.antt =====
-- Sending and receiving a message, xmmsclient/xmmsipc/msg.c: `xmms_ipc_msg_write_transport` and
-- `xmms_ipc_msg_read_transport`, over a channel that stands for the socket behind
-- xmmsclient/xmmsipc/transport.c.
pub mod Writing
pub mod Reading
mod Tests
use xmms2remote.Prelude.{
  ℕ, zero, suc, ◌+◌, ◌-◌, ◌%◌, ◌≤◌, ◌≡◌, Bool, true, false, not, List, [], ◌∷◌, ◌++◌, Option, none,
  some, length, take, ltb, leb, ◌==◌, if◌then◌else◌,
}
use xmms2remote.Msg.{Msg, Memory, u32_mod, head_len, get_length, read_at, write_at}

-- What the socket calls answer: bytes (none of them at the end of the stream) or an error, with
-- `xmms_socket_error_recoverable`; a count of bytes taken or an error.
pub data Incoming : Type 0 where
  got : List ℕ → Incoming
  broke : Bool → Incoming

pub data Outgoing : Type 0 where
  took : ℕ → Outgoing
  broke : Bool → Outgoing

abbrev pub arrived : Incoming → List ℕ
arrived (got bs) = bs
arrived (broke r) = []

abbrev pub accepted : Outgoing → ℕ
accepted (took n) = n
accepted (broke r) = 0

-- A connected socket. It never hands over more bytes than were asked for, nor takes more than it
-- was given; `heard` and `said` record all bytes that went over it in either direction.
pub record Channel : Type 1 where
  pub State : Type 0
  pub recv : State → ℕ → Incoming × State
  pub send : State → List ℕ → Outgoing × State
  pub heard : State → List ℕ
  pub said : State → List ℕ
  pub recv_le : (s : State) (n : ℕ) → length (arrived (recv s n).0) ≤ n
  pub recv_heard : (s : State) (n : ℕ) → heard (recv s n).1 ≡ heard s ++ arrived (recv s n).0
  pub send_le : (s : State) (bs : List ℕ) → accepted (send s bs).0 ≤ length bs
  pub send_said :
      (s : State) (bs : List ℕ) → said (send s bs).1 ≡ said s ++ take (accepted (send s bs).0) bs

-- How a call ends: its result, whether it set `disconnected`, the channel and the message; or by a
-- memory fault. `out_of_fuel` is not of the program.
pub data Outcome (S : Type 0) : Type 0 where
  stop : Bool → Bool → S → Msg → Outcome S
  fault out_of_fuel : Outcome S

module _ (c : Channel) where
  open c use {State, recv, send}

  -- `xmms_ipc_msg_write_transport` after the call of `xmms_ipc_transport_write`.
  unfoldable pub after_send : ℕ → Msg → Outgoing × State → Outcome State
  after_send len m (broke recoverable, s) = stop false (not recoverable) s m
  after_send len m (took n, s) =
      let m' = record m { xfered = (m.xfered + n) % u32_mod } in
      if n == 0 then stop (len == m.xfered) true s m else stop (len == m'.xfered) false s m'

  -- `xmms_ipc_msg_write_transport`: one attempt to send what is left.
  unfoldable pub write_transport : State → Msg → Outcome State
  unfolding after_send
  write_transport s m =
      let len = (get_length m + head_len) % u32_mod in
      if leb len m.xfered
      then stop true false s m
      else elim (read_at m.rawdata m.xfered (len - m.xfered)) [
        | none ↦ fault
        | some buf ↦ after_send len m (send s buf)
      ]

  -- One round of the loop of `xmms_ipc_msg_read_transport`, from the check of the position on;
  -- `again` is the next round.
  unfoldable pub after_recv : (State → Msg → Outcome State) → Msg → Incoming × State → Outcome State
  after_recv again m (broke recoverable, s) = stop false (not recoverable) s m
  after_recv again m (got [], s) = stop false true s m
  after_recv again m (got (b ∷ bs), s) = elim (write_at m.rawdata m.xfered (b ∷ bs)) [
    | none ↦ fault
    | some buf ↦
        again s (record m { rawdata = buf; xfered = (m.xfered + length (b ∷ bs)) % u32_mod })
  ]

  unfoldable pub receive : (State → Msg → Outcome State) → ℕ → State → Msg → Outcome State
  unfolding after_recv
  receive again len s m =
      if ltb m.xfered len
      then after_recv again m (recv s (len - m.xfered))
      else stop false false s m

  module _ (mem : Memory) where
    -- The buffer is grown to hold a message of `len` bytes, if it must.
    unfoldable pub grow : ℕ → Msg → Option Msg
    grow len m =
        if ltb m.size len
        then (if mem.grants len
            then some (record m {
              rawdata = take len m.rawdata ++ mem.fresh (len - length m.rawdata);
              size = len;
            })
            else none)
        else some m

    -- `xmms_ipc_msg_read_transport`: rounds until the message is whole or no more can be had.
    unfoldable pub read_transport : ℕ → State → Msg → Outcome State
    unfolding receive grow
    read_transport zero s m = out_of_fuel
    read_transport (suc fuel) s m =
        let again = read_transport fuel in
        let len = (head_len + get_length m) % u32_mod in
        let with_header : Outcome State = elim (grow len m) [
          | none ↦ stop false true s m
          | some m' ↦ if m'.xfered == len then stop true false s m' else receive again len s m'
        ] in
        if leb head_len m.xfered then with_header else receive again head_len s m
