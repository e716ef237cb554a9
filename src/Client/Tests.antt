-- ===== src/Client/Tests.antt =====
-- Runs of the handling of replies, and the theorems at a connection that waits for two results.
use xmms2remote.Prelude.{
  ℕ, zero, suc, ◌<◌, ◌≡◌, ◌≢◌, ◌⊎◌, refl, ap, List, [], ◌∷◌, none, some, true, false, length, arith,
}
use xmms2remote.Value.{Value}
use xmms2remote.Msg
use xmms2remote.Msg.{Memory, be32, get_cookie, get_cmd, word_at, from_be32}
use xmms2remote.Msg.Get.{get_value, get_int32, get_data}
use xmms2remote.Client.{
  CallResult, Connection, Notifier, default, signal, handled, result_lookup, result_run,
  run_notifiers, parse_msg, exec_msg, count, send_msg, signal_request,
}
use xmms2remote.Client.Replace.{IsValid}
use xmms2remote.Client.Dispatch.{result_run-default, result_run-signal}
use xmms2remote.Client.Exec.{exec_msg_lem}
use xmms2remote.Client.Steps.{connected, starts, then_, sends, Reachable-IsValid}

zeros : ℕ → List ℕ
zeros zero = []
zeros (suc n) = 0 ∷ zeros n

length-zeros : (n : ℕ) → length (zeros n) ≡ n
unfolding zeros
length-zeros zero = refl
length-zeros (suc n) = ap suc (length-zeros n)

abbrev memory : Memory
memory = record { grants = λ n. true; fresh = zeros; length-fresh = length-zeros }

abbrev stays : Notifier
stays = record { user_data = 8; func = λ v. true }

abbrev playback : CallResult
playback = record {
  ref = 1;
  type = signal;
  notifiers = stays ∷ [];
  parsed = false;
  cookie = 4;
  restart_signal = 6;
  data_ = none;
}

abbrev stats : CallResult
stats = record {
  ref = 1;
  type = default;
  notifiers = stays ∷ [];
  parsed = false;
  cookie = 3;
  restart_signal = 0;
  data_ = none;
}

abbrev waiting : Connection
waiting = record { next_cookie = 5; results_list = playback ∷ stats ∷ []; out_msg = []; calls = [] }

waiting-IsValid : IsValid waiting
waiting-IsValid = record {
  below = (omega arith, (omega arith, tt));
  distinct = ((refl, tt), (tt, tt));
}

-- A reply with cookie 3 that holds the int 7.
abbrev reply : Msg.Msg
reply = record {
  rawdata =
      0 ∷ 0 ∷ 0 ∷ 0 ∷ 0 ∷ 0 ∷ 0 ∷ 0 ∷ 0 ∷ 0 ∷ 0 ∷ 3 ∷ 0 ∷ 0 ∷ 0 ∷ 8 ∷ 0 ∷ 0 ∷ 0 ∷ 2 ∷ 0 ∷ 0 ∷ 0 ∷ 7
      ∷ [];
  get_pos = 0;
  size = 24;
  xfered = 24;
}

exec_msg_lem_example :
    (c' : Connection) × (exec_msg memory 9 waiting reply ≡ handled c')
    × IsValid c'
    × (c'.calls ≡ (8, some (Value.int 7)) ∷ [])
    × ((j : ℕ)
        → j ≢ get_cookie reply
        → j < 5
        → result_lookup c'.results_list j ≡ result_lookup waiting.results_list j)
unfolding parse_msg result_lookup get_cookie word_at from_be32 get_cmd get_value get_int32 get_data
    Msg.get_length Msg.read_at
exec_msg_lem_example = exec_msg_lem memory 9 waiting reply waiting-IsValid (omega arith)

result_run-default_example :
    ((1 ≡ count (stays ∷ []))
      × (result_lookup (result_run waiting stats (some (Value.int 7))).results_list 3 ≡ none))
    ⊎ ((r' : CallResult) × (result_lookup
            (result_run waiting stats (some (Value.int 7))).results_list
            3
          ≡ some r')
        × (1 < 1)
        × (r'.ref ≡ 0)
        × (r'.notifiers ≡ [])
        × (r'.parsed ≡ true)
        × (r'.data_ ≡ some (Value.int 7)))
unfolding result_lookup count
result_run-default_example =
    result_run-default waiting stats (some (Value.int 7)) waiting-IsValid (omega arith) refl
      (omega arith) refl (omega arith)

result_run-signal_example :
    (r' : CallResult) × (result_lookup
        (result_run waiting playback (some (Value.int 7))).results_list
        5
      ≡ some r')
    × (r'.notifiers ≡ stays ∷ [])
    × (r'.type ≡ signal)
    × ((result_run waiting playback (some (Value.int 7))).out_msg ≡ (signal_request 6, 5) ∷ [])
unfolding result_lookup count run_notifiers
result_run-signal_example =
    result_run-signal waiting playback (some (Value.int 7)) waiting-IsValid (omega arith) refl
      (omega arith) stays [] refl refl (omega arith)

Reachable-IsValid_example : IsValid (send_msg (connected 0) (signal_request 6))
Reachable-IsValid_example = Reachable-IsValid (send_msg (connected 0) (signal_request 6)) (
    then_ (connected 0) (send_msg (connected 0) (signal_request 6)) (starts 0)
      (sends (connected 0) (signal_request 6) (omega arith)))
