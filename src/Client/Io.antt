-- ===== src/Client/Io.antt =====
-- The connection as a queue of messages: xmmsclient/xmmsclient/ipc.c, `xmmsc_ipc_init`,
-- `xmmsc_ipc_msg_write`, `xmmsc_ipc_io_out`, `xmmsc_ipc_io_out_callback` and
-- `xmmsc_ipc_disconnect`, over the socket that Msg/Transport takes as a parameter.
pub mod Stream
pub mod Traffic
pub mod Order
pub mod Input
mod Tests
use xmms2remote.Prelude.{
  ℕ, suc, ◌+◌, if◌then◌else◌, Bool, true, false, not, ◌&&◌, ◌||◌, List, [], ◌∷◌, ◌++◌, Option, none,
  some,
}
use xmms2remote.Value.{Text}
use xmms2remote.Value.Text.{codes}
use xmms2remote.Msg
use xmms2remote.Msg.{Msg, set_cookie}
use xmms2remote.Msg.Transport.{Channel, Outcome, stop, write_transport}

-- The part of `struct xmmsc_ipc_St` that messages go through: the socket, the messages to be sent,
-- the one that is being received, and whether the connection is closed. Of the two callbacks it is
-- kept whether they are set and (not of the program) how they were called.
pub record Ipc (S : Type 0) : Type 0 where
  pub transport : S
  pub out_msg : List Msg
  pub read_msg : Option Msg
  pub disconnect : Bool
  pub error : Option Text
  pub need_out_callback : Bool
  pub need_outs : List Bool
  pub disconnect_callback : Bool
  pub disconnects : ℕ

-- How a call ends.
pub data Called (S : Type 0) : Type 0 where
  called : Bool → Ipc S → Called S
  fault out_of_fuel : Called S

-- How the loop over the queue ends: whether the connection was lost, the socket, and what is left.
pub data Sending (S : Type 0) : Type 0 where
  sending : Bool → S → List Msg → Sending S
  fault out_of_fuel : Sending S

-- `xmmsc_ipc_init`, and the transport that `xmmsc_ipc_connect` sets.
unfoldable pub init : {S : Type 0} → S → Ipc S
init s = record {
  transport = s;
  out_msg = [];
  read_msg = none;
  disconnect = false;
  error = none;
  need_out_callback = false;
  need_outs = [];
  disconnect_callback = false;
  disconnects = 0;
}

unfoldable pub is_empty : List Msg → Bool
is_empty [] = true
is_empty (m ∷ q) = false

-- `xmmsc_ipc_io_out`.
unfoldable pub io_out : {S : Type 0} → Ipc S → Bool
unfolding is_empty
io_out i = not (is_empty i.out_msg) && not i.disconnect

-- A call of `need_out_callback`, if it is set.
unfoldable pub need_out : {S : Type 0} → Ipc S → Bool → Ipc S
need_out i b = if i.need_out_callback then record i { need_outs = i.need_outs ++ b ∷ [] } else i

-- `xmmsc_ipc_disconnect`.
unfoldable pub ipc_disconnect : {S : Type 0} → Ipc S → Ipc S
ipc_disconnect i = record i {
  disconnect = true;
  read_msg = none;
  error = some (codes "Disconnected");
  disconnects = if i.disconnect_callback then suc i.disconnects else i.disconnects;
}

-- `xmmsc_ipc_msg_write`.
unfoldable pub msg_write : {S : Type 0} → Ipc S → Msg → ℕ → Called S
unfolding need_out
msg_write i m cookie = elim (set_cookie cookie m) [
  | Msg.Result.ok u m' ↦ called true (need_out (record i { out_msg = i.out_msg ++ m' ∷ [] }) true)
  | Msg.Result.failed m' ↦ called true (need_out (record i { out_msg = i.out_msg ++ m' ∷ [] }) true)
  | Msg.Result.fault ↦ fault
  | Msg.Result.out_of_fuel ↦ out_of_fuel
]

module _ (c : Channel) where
  open c use {State}

  -- The loop of `xmmsc_ipc_io_out_callback`; `disco` is the flag that it passes on.
  unfoldable pub out_loop : State → Bool → List Msg → Sending State
  out_loop s disco [] = sending disco s []
  out_loop s disco (m ∷ q) = elim (write_transport c s m) [
    | stop true lost s' m' ↦ out_loop s' (disco || lost) q
    | stop false lost s' m' ↦ sending (disco || lost) s' (m' ∷ q)
    | Outcome.fault ↦ fault
    | Outcome.out_of_fuel ↦ out_of_fuel
  ]

  -- `xmmsc_ipc_io_out_callback` behind the loop.
  unfoldable pub after_loop : Ipc State → Sending State → Called State
  unfolding ipc_disconnect need_out io_out
  after_loop i (sending disco s q) =
      let i' : Ipc State = record i { transport = s; out_msg = q } in
      if disco then called false (ipc_disconnect i') else called true (need_out i' (io_out i'))
  after_loop i fault = fault
  after_loop i out_of_fuel = out_of_fuel

  -- `xmmsc_ipc_io_out_callback`.
  unfoldable pub io_out_callback : Ipc State → Called State
  unfolding out_loop after_loop
  io_out_callback i =
      if i.disconnect then called false i else after_loop i (out_loop i.transport false i.out_msg)
