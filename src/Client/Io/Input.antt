-- ===== src/Client/Io/Input.antt =====
-- The messages that arrive: `xmmsc_ipc_io_in_callback` of xmmsclient/xmmsclient/ipc.c. What a
-- notifier asks the server for is recorded in the connection's requests.
pub mod Order
mod Tests
use xmms2remote.Prelude.{
  ℕ, zero, suc, if◌then◌else◌, Bool, true, false, not, List, [], ◌∷◌, Option, none, some,
}
use xmms2remote.Msg
use xmms2remote.Msg.{Msg, Memory, alloc}
use xmms2remote.Msg.Transport.{Channel, Outcome, stop, read_transport}
use xmms2remote.Client.{Connection, Handled, handled, exec_msg}
use xmms2remote.Client.Io.{Ipc, ipc_disconnect}

-- How the loop ends: whether the connection was lost, the socket, the message that is still being
-- received, and the results.
pub data Taking (S : Type 0) : Type 0 where
  taking : Bool → S → Option Msg → Connection → Taking S
  fault out_of_fuel : Taking S

-- How the callback ends.
pub data Answered (S : Type 0) : Type 0 where
  answered : Bool → Ipc S → Connection → Answered S
  fault out_of_fuel : Answered S

-- The message that is being received, or a new one.
unfoldable pub current_msg : Memory → Option Msg → Msg.Result (Unit {0})
current_msg mem none = alloc mem
current_msg mem (some m) = Msg.Result.ok tt m

-- `read_fuel` is for the receiving of one message, `exec_fuel` for its parsing.
module _ (c : Channel) (mem : Memory) (read_fuel exec_fuel : ℕ) where
  open c use {State}

  -- The loop of `xmmsc_ipc_io_in_callback` behind `xmms_ipc_msg_read_transport`: a whole message is
  -- handled and no longer the current one; `again` is the next round.
  unfoldable pub after_exec :
      (State → Option Msg → Connection → Taking State) → Bool → State → Handled → Taking State
  after_exec again lost s (handled client) =
      if lost then taking true s none client else again s none client
  after_exec again lost s Handled.fault = fault
  after_exec again lost s Handled.out_of_fuel = out_of_fuel

  unfoldable pub after_read :
      (State → Option Msg → Connection → Taking State) → Connection → Outcome State → Taking State
  unfolding after_exec
  after_read again client (stop true lost s m) =
      after_exec again lost s (exec_msg mem exec_fuel client m)
  after_read again client (stop false lost s m) = taking lost s (some m) client
  after_read again client Outcome.fault = fault
  after_read again client Outcome.out_of_fuel = out_of_fuel

  unfoldable pub in_loop : ℕ → State → Option Msg → Connection → Taking State
  unfolding current_msg after_read
  in_loop zero s read_msg client = out_of_fuel
  in_loop (suc fuel) s read_msg client = elim (current_msg mem read_msg) [
    | Msg.Result.ok u m ↦ after_read (in_loop fuel) client (read_transport c mem read_fuel s m)
    | Msg.Result.failed m ↦ fault
    | Msg.Result.fault ↦ fault
    | Msg.Result.out_of_fuel ↦ out_of_fuel
  ]

  -- `xmmsc_ipc_io_in_callback`.
  unfoldable pub after_input : Ipc State → Taking State → Answered State
  after_input i (taking disco s read_msg client) =
      let i' : Ipc State = record i { transport = s; read_msg = read_msg } in
      if disco then answered false (ipc_disconnect i') client else answered true i' client
  after_input i fault = fault
  after_input i out_of_fuel = out_of_fuel

  unfoldable pub io_in_callback : ℕ → Ipc State → Connection → Answered State
  unfolding in_loop after_input
  io_in_callback fuel i client =
      if i.disconnect
      then answered false i client
      else after_input i (in_loop fuel i.transport i.read_msg client)
