-- ===== src/Client.antt =====
-- Requests and their results: xmmsclient/xmmsclient/result.c, the results that a connection waits for
-- in xmmsclient/xmmsclient/ipc.c, and how xmmsclient/xmmsclient/xmmsclient.c numbers requests. The
-- notifiers of a client decide whether they stay, and call no function of the library.
pub mod Store
pub mod Replace
pub mod Dispatch
pub mod Exec
pub mod Steps
pub mod Io
pub mod Commands
mod Tests
use xmms2remote.Prelude.{
  ℕ, zero, suc, ◌+◌, ◌-◌, ◌%◌, ◌^◌, ltb, ◌==◌, if◌then◌else◌, Bool, true, false, not, ◌&&◌, ◌||◌,
  List, [], ◌∷◌, ◌++◌, Option, none, some,
}
use xmms2remote.Value.{Text, Value, nil, cons}
use xmms2remote.Value.Text.{codes}
use xmms2remote.Msg
use xmms2remote.Msg.{Memory, get_cmd, get_cookie}
use xmms2remote.Msg.Get.{get_value}

-- `xmmsc_result_type_t`.
pub data ResultType : Type 0 where
  default signal broadcast : ResultType

-- A notifier, with the number that its calls are recorded under; it says whether it stays.
pub record Notifier : Type 0 where
  pub user_data : ℕ
  pub func : Option Value → Bool

-- `struct xmmsc_result_St`.
pub record CallResult : Type 0 where
  pub ref : ℕ
  pub type : ResultType
  pub notifiers : List Notifier
  pub parsed : Bool
  pub cookie : ℕ
  pub restart_signal : ℕ
  pub data_ : Option Value

-- A request: the object, the command and the arguments of its message.
pub record Request : Type 0 where
  pub object : ℕ
  pub cmd : ℕ
  pub args : Value

-- The next cookie, the results that are waited for, the requests to be sent with their cookies, and
-- (not of the program) the calls of notifiers so far.
pub record Connection : Type 0 where
  pub next_cookie : ℕ
  pub results_list : List CallResult
  pub out_msg : List (Request × ℕ)
  pub calls : List (ℕ × Option Value)

abbrev pub object_signal : ℕ
object_signal = 0

abbrev pub cmd_signal : ℕ
cmd_signal = 32

abbrev pub cmd_broadcast : ℕ
cmd_broadcast = 33

abbrev pub cmd_error : ℕ
cmd_error = 1

-- `xmmsc_ipc_result_lookup`.
unfoldable pub result_lookup : List CallResult → ℕ → Option CallResult
result_lookup [] cookie = none
result_lookup (r ∷ rs) cookie =
    let rest = result_lookup rs cookie in if r.cookie == cookie then some r else rest

-- `xmmsc_ipc_result_unregister`: the first with the cookie.
unfoldable pub result_unregister : List CallResult → ℕ → List CallResult
result_unregister [] cookie = []
result_unregister (r ∷ rs) cookie =
    let rest = result_unregister rs cookie in if r.cookie == cookie then rs else r ∷ rest

-- A change of the result that the lookup of a cookie finds.
unfoldable pub result_update : List CallResult → ℕ → CallResult → List CallResult
result_update [] cookie new = []
result_update (r ∷ rs) cookie new =
    let rest = result_update rs cookie new in if r.cookie == cookie then new ∷ rs else r ∷ rest

-- `xmmsc_write_msg_to_ipc`, with `xmmsc_next_id` and `xmmsc_ipc_msg_write`; the cookie is a uint32.
unfoldable pub write_msg_to_ipc : Connection → Request → Connection
write_msg_to_ipc c r = record c {
  next_cookie = (c.next_cookie + 1) % 2 ^ 32;
  out_msg = c.out_msg ++ (r, c.next_cookie) ∷ [];
}

-- `xmmsc_result_new`, for a request with the cookie.
unfoldable pub result_new : Connection → ResultType → ℕ → Connection
result_new c t cookie = record c {
  results_list =
      record {
        ref = 1;
        type = t;
        notifiers = [];
        parsed = false;
        cookie = cookie;
        restart_signal = 0;
        data_ = none;
      }
      ∷ c.results_list;
}

unfoldable pub request_type : Request → ResultType
request_type r =
    if r.object == object_signal
    then (if r.cmd == cmd_signal
        then signal
        else if r.cmd == cmd_broadcast
        then broadcast
        else default)
    else default

-- `xmmsc_send_msg`.
unfoldable pub send_msg : Connection → Request → Connection
unfolding write_msg_to_ipc result_new request_type
send_msg c r = result_new (write_msg_to_ipc c r) (request_type r) c.next_cookie

-- `xmmsc_result_notifier_set_full`, on the result with the cookie.
unfoldable pub notifier_set : Connection → ℕ → Notifier → Connection
unfolding result_lookup result_update
notifier_set c cookie n = elim (result_lookup c.results_list cookie) [
  | none ↦ c
  | some r ↦
      let r' : CallResult = record r { ref = r.ref + 1; notifiers = r.notifiers ++ n ∷ [] } in
      record c { results_list = result_update c.results_list cookie r' }
]

-- `xmmsc_result_unref` of a result that is registered in the list.
unfoldable pub result_unref : CallResult → List CallResult → List CallResult
unfolding result_update result_unregister
result_unref r rs =
    let left = result_update rs r.cookie (record r { ref = r.ref - 1 }) in
    if r.ref == 1 then result_unregister left r.cookie else left

-- The loop of `xmmsc_result_run`: the notifiers that stay, and the calls that were made.
unfoldable pub run_notifiers :
    ResultType → Option Value → List Notifier → List Notifier × List (ℕ × Option Value)
run_notifiers t v [] = ([], [])
run_notifiers t v (n ∷ ns) =
    let rest = run_notifiers t v ns in
    let once : Bool = elim t [ default ↦ true | signal ↦ false | broadcast ↦ false ] in
    let kept = if not (n.func v) || once then rest.0 else n ∷ rest.0 in
    (kept, (n.user_data, v) ∷ rest.1)

unfoldable pub count : List Notifier → ℕ
count [] = 0
count (n ∷ ns) = suc (count ns)

-- A result after its notifiers were run: each that goes gives its reference back.
unfoldable pub after_notifiers : CallResult → Option Value → CallResult
unfolding run_notifiers count
after_notifiers r v =
    let kept = (run_notifiers r.type v r.notifiers).0 in
    record r {
      ref = r.ref - (count r.notifiers - count kept);
      notifiers = kept;
      parsed = true;
      data_ = elim r.type [ broadcast ↦ none | _ ↦ v ];
    }

-- `xmmsc_write_signal_msg`.
abbrev pub signal_request : ℕ → Request
signal_request id = record {
  object = object_signal;
  cmd = cmd_signal;
  args = Value.list (cons (Value.int id) nil);
}

-- Whether `xmmsc_result_restart` is called.
unfoldable pub restarts : CallResult → Bool
restarts r = elim r.notifiers [ [] ↦ false | n ∷ ns ↦ elim r.type [ signal ↦ true | _ ↦ false ] ]

-- `xmmsc_result_run` behind the parsing of the message: the notifiers, the restart, and the reference
-- that the call itself held.
unfoldable pub result_run : Connection → CallResult → Option Value → Connection
unfolding after_notifiers run_notifiers restarts write_msg_to_ipc result_update result_unref
result_run c r v =
    let ran = after_notifiers (record r { ref = r.ref + 1 }) v in
    let called : Connection = record c {
      calls = c.calls ++ (run_notifiers r.type v r.notifiers).1;
    } in
    let restarted = write_msg_to_ipc called (signal_request r.restart_signal) in
    let c' = if restarts ran then restarted else called in
    let r' : CallResult = if restarts ran then record ran { cookie = c.next_cookie } else ran in
    record c' { results_list = result_unref r' (result_update c.results_list r.cookie r') }

-- How the handling of a message ends.
pub data Handled : Type 0 where
  handled : Connection → Handled
  fault out_of_fuel : Handled

-- `xmmsv_get_error`, and what is saved if there is none.
unfoldable pub error_value : Option Value → Value
error_value (some (Value.error s)) = Value.error s
error_value v = Value.error (codes "No error message!")

module _ (mem : Memory) (fuel : ℕ) where
  -- `xmmsc_result_parse_msg`.
  unfoldable pub parse_msg : Msg.Msg → Msg.Result (Option Value)
  unfolding error_value
  parse_msg m =
      let error_result : Msg.Result (Option Value) = elim (get_value mem fuel m) [
        | Msg.Result.ok v m' ↦ Msg.Result.ok (some (error_value v)) m'
        | Msg.Result.failed m' ↦ Msg.Result.ok (some (Value.error (codes "No error value!"))) m'
        | Msg.Result.fault ↦ Msg.Result.fault
        | Msg.Result.out_of_fuel ↦ Msg.Result.out_of_fuel
      ] in
      if get_cmd m == cmd_error then error_result else get_value mem fuel m

  -- `xmmsc_ipc_exec_msg`: a message with an unknown cookie, or without a value, changes nothing.
  unfoldable pub run_parsed : Connection → CallResult → Msg.Result (Option Value) → Handled
  unfolding result_run
  run_parsed c r (Msg.Result.ok v m) = handled (result_run c r v)
  run_parsed c r (Msg.Result.failed m) = handled c
  run_parsed c r Msg.Result.fault = fault
  run_parsed c r Msg.Result.out_of_fuel = out_of_fuel

  unfoldable pub exec_msg : Connection → Msg.Msg → Handled
  unfolding result_lookup parse_msg run_parsed
  exec_msg c m = elim (result_lookup c.results_list (get_cookie m)) [
    | none ↦ handled c
    | some r ↦ run_parsed c r (parse_msg m)
  ]
