-- ===== src/Client/Steps.antt =====
-- The calls that change a connection, as steps: what holds of every connection that they lead to.
use xmms2remote.Prelude.{
  ℕ, ◌+◌, ◌%◌, ◌^◌, ◌<◌, ◌≡◌, sym, ap, subst, ◌∙◌, inl, inr, [], Option, some, Option-cases, arith,
}
use xmms2remote.Value.{Value}
use xmms2remote.Client.{
  CallResult, Connection, Notifier, Request, result_lookup, result_run, result_unref, send_msg,
  notifier_set, write_msg_to_ipc, result_new,
}
use xmms2remote.Client.Store.{
  Below, Below-mono, Below-Distinct, All-result_update, result_update-Distinct,
  result_lookup-cookie,
}
use xmms2remote.Client.Replace.{IsValid, result_unref-Valid}
use xmms2remote.Client.Dispatch.{result_run_lem}

-- A client sends a request, sets a notifier on a result or gives its reference to one back; and a
-- result takes the value of a reply. (Cookies are given out while there are some left.)
pub data Step : Connection → Connection → Type 0 where
  sends : (c : Connection) (r : Request) → c.next_cookie + 1 < 2 ^ 32 → Step c (send_msg c r)
  notifies : (c : Connection) (cookie : ℕ) (n : Notifier) → Step c (notifier_set c cookie n)
  releases :
      (c : Connection) (cookie : ℕ) (r : CallResult)
      → result_lookup c.results_list cookie ≡ some r
      → Step c (record c { results_list = result_unref r c.results_list })
  runs :
      (c : Connection) (cookie : ℕ) (r : CallResult) (v : Option Value)
      → result_lookup c.results_list cookie ≡ some r
      → c.next_cookie + 1 < 2 ^ 32
      → Step c (result_run c r v)

abbrev pub connected : ℕ → Connection
connected cookie = record { next_cookie = cookie; results_list = []; out_msg = []; calls = [] }

-- The connections that steps lead to from a new one.
pub data Reachable : Connection → Type 0 where
  starts : (cookie : ℕ) → Reachable (connected cookie)
  then_ : (c c' : Connection) → Reachable c → Step c c' → Reachable c'

send_msg-IsValid :
    (c : Connection) (r : Request) → c.next_cookie + 1 < 2 ^ 32 → IsValid c → IsValid (send_msg c r)
unfolding send_msg write_msg_to_ipc result_new
send_msg-IsValid c r lt v =
    let next : (c.next_cookie + 1) % 2 ^ 32 ≡ c.next_cookie + 1 = omega arith in
    record {
      below =
          subst (λ k. Below k (send_msg c r).results_list) (sym next)
            (
              omega arith,
              Below-mono c.next_cookie (c.next_cookie + 1) c.results_list (omega arith) v.below,
            );
      distinct = (Below-Distinct c.next_cookie c.results_list v.below, v.distinct);
    }

notifier_set-IsValid :
    (c : Connection) (cookie : ℕ) (n : Notifier) → IsValid c → IsValid (notifier_set c cookie n)
unfolding notifier_set
notifier_set-IsValid c cookie n v = elim (Option-cases (result_lookup c.results_list cookie)) [
  | inl e ↦ rw (notifier_set, e) v
  | inr (r, e) ↦
      let (same, lt) = result_lookup-cookie c.results_list cookie c.next_cookie r v.below e in
      rw (notifier_set, e)
        (record {
          below =
              All-result_update (λ s. s.cookie < c.next_cookie) c.results_list cookie _ v.below lt;
          distinct = result_update-Distinct c.results_list cookie _ v.distinct (inl same);
        })
]

Step-IsValid : (c c' : Connection) → Step c c' → IsValid c → IsValid c'
Step-IsValid c _ (sends _ r lt) v = send_msg-IsValid c r lt v
Step-IsValid c _ (notifies _ cookie n) v = notifier_set-IsValid c cookie n v
Step-IsValid c _ (releases _ cookie r e) v =
    let (same, lt) = result_lookup-cookie c.results_list cookie c.next_cookie r v.below e in
    let (below, distinct) =
      result_unref-Valid c.next_cookie c.results_list r v.below v.distinct lt in
    record { below = below; distinct = distinct }
Step-IsValid c _ (runs _ cookie r w e small) v =
    let (same, lt) = result_lookup-cookie c.results_list cookie c.next_cookie r v.below e in
    (result_run_lem c r w v small (ap (result_lookup c.results_list) same ∙ e) lt).0

-- However requests, notifiers, references and replies follow each other, while there are cookies left
-- no two results that wait have the same cookie, and none has one that is yet to be given out.
pub Reachable-IsValid : (c : Connection) → Reachable c → IsValid c
Reachable-IsValid _ (starts cookie) = record { below = tt; distinct = tt }
Reachable-IsValid _ (then_ c c' r s) = Step-IsValid c c' s (Reachable-IsValid c r)
