-- ===== src/Client/Exec.antt =====
-- `xmmsc_ipc_exec_msg`: a message that has arrived goes to the result with its cookie.
use xmms2remote.Prelude.{ℕ, ◌+◌, ◌^◌, ◌<◌, ◌≡◌, ◌≢◌, refl, ap, ◌∙◌, ◌++◌, map, Option, none, some}
use xmms2remote.Value.{Value}
use xmms2remote.Msg
use xmms2remote.Msg.{Memory, get_cookie}
use xmms2remote.Client.{
  CallResult, Connection, Handled, handled, result_lookup, result_run, parse_msg, run_parsed,
  exec_msg,
}
use xmms2remote.Client.Store.{result_lookup-cookie}
use xmms2remote.Client.Replace.{IsValid}
use xmms2remote.Client.Dispatch.{result_run_lem}

-- What handling a message with a cookie leaves of a connection, by the result that waits for the
-- cookie and by what the message holds.
abbrev pub Executed :
    Connection → ℕ → Option CallResult → Msg.Result (Option Value) → Handled → Type 0
Executed c cookie none parsed h = h ≡ handled c
Executed c cookie (some r) (Msg.Result.ok v m) h =
    (c' : Connection) × (h ≡ handled c')
    × IsValid c'
    × (c'.calls ≡ c.calls ++ map (λ n. (n.user_data, v)) r.notifiers)
    × ((j : ℕ)
        → j ≢ cookie
        → j < c.next_cookie
        → result_lookup c'.results_list j ≡ result_lookup c.results_list j)
Executed c cookie (some r) (Msg.Result.failed m) h = h ≡ handled c
Executed c cookie (some r) Msg.Result.fault h = h ≡ Handled.fault
Executed c cookie (some r) Msg.Result.out_of_fuel h = h ≡ Handled.out_of_fuel

module _ (mem : Memory) (fuel : ℕ) (c : Connection) (m : Msg.Msg) where
  -- On a valid connection that has cookies left: a message whose cookie no result waits for changes
  -- nothing, nor does one that holds no value. A message with a value, or with an error, for a
  -- waiting result calls each notifier of this result once, in order, with that value, and no
  -- others; every other waiting result stays as it is, and the connection stays valid. A memory
  -- fault of the parsing is one of the handling.
  pub exec_msg_lem :
      IsValid c
      → c.next_cookie + 1 < 2 ^ 32
      → Executed c
          (get_cookie m)
          (result_lookup c.results_list (get_cookie m))
          (parse_msg mem fuel m)
          (exec_msg mem fuel c m)
  unfolding exec_msg run_parsed
  exec_msg_lem valid small =
      go (result_lookup c.results_list (get_cookie m)) (parse_msg mem fuel m) refl
    where
      go :
          (o : Option CallResult) (p : Msg.Result (Option Value))
          → result_lookup c.results_list (get_cookie m) ≡ o
          → Executed c
              (get_cookie m)
              o
              p
              (elim o [ none ↦ handled c | some r ↦ run_parsed mem fuel c r p ])
      go none p e = refl
      go (some r) (Msg.Result.failed m') e = refl
      go (some r) Msg.Result.fault e = refl
      go (some r) Msg.Result.out_of_fuel e = refl
      go (some r) (Msg.Result.ok v m') e =
          let (same, lt) =
            result_lookup-cookie c.results_list (get_cookie m) c.next_cookie r valid.below e in
          let waits = ap (result_lookup c.results_list) same ∙ e in
          let (valid', calls, others) = result_run_lem c r v valid small waits lt in
          (result_run c r v, refl, valid', calls, λ j ne. others j (λ q. ne (q ∙ same)))
