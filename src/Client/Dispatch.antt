-- ===== src/Client/Dispatch.antt =====
-- What a reply does to the result that waits for it, and to all others.
use xmms2remote.Prelude.{
  ℕ, suc, ◌+◌, ◌-◌, ◌%◌, ◌^◌, ◌<◌, ◌≤◌, ◌≡◌, ◌≢◌, refl, ap, subst, ◌∙◌, ◌⊎◌, inl, inr, List, [],
  ◌∷◌, ◌++◌, map, Bool, true, false, ◌==◌, ==_iff, if◌then◌else◌, Option, none, some, Bool-cases,
  arith,
}
use xmms2remote.Value.{Value}
use xmms2remote.Client.{
  CallResult, Connection, Notifier, ResultType, default, signal, result_lookup, result_update,
  result_unref, result_run, run_notifiers, after_notifiers, count, restarts, signal_request,
  write_msg_to_ipc,
}
use xmms2remote.Client.Store.{Renews, ne_false}
use xmms2remote.Client.Replace.{IsValid, replaced-Valid, replaced-others, replaced-itself}

count-if :
    (b : Bool) (n : Notifier) (ns : List Notifier) (m : ℕ)
    → count ns ≤ m
    → count (if b then ns else n ∷ ns) ≤ suc m
unfolding count
count-if true n ns m le = omega arith
count-if false n ns m le = omega arith

count-run_notifiers :
    (t : ResultType) (v : Option Value) (ns : List Notifier)
    → count (run_notifiers t v ns).0 ≤ count ns
unfolding run_notifiers count
count-run_notifiers t v [] = omega arith
count-run_notifiers t v (n ∷ ns) =
    count-if _ n (run_notifiers t v ns).0 (count ns) (count-run_notifiers t v ns)

run_notifiers-default :
    (v : Option Value) (ns : List Notifier) → (run_notifiers default v ns).0 ≡ []
unfolding run_notifiers
run_notifiers-default v [] = refl
run_notifiers-default v (n ∷ ns) = ground (arith, run_notifiers-default v ns)

-- The loop calls every notifier once, in order.
run_notifiers-calls :
    (t : ResultType) (v : Option Value) (ns : List Notifier)
    → (run_notifiers t v ns).1 ≡ map (λ n. (n.user_data, v)) ns
unfolding run_notifiers
run_notifiers-calls t v [] = refl
run_notifiers-calls t v (n ∷ ns) = ap (λ cs. (n.user_data, v) ∷ cs) (run_notifiers-calls t v ns)

restarts-signal :
    (r : CallResult) (n : Notifier) (ns : List Notifier)
    → r.notifiers ≡ n ∷ ns
    → r.type ≡ signal
    → restarts r ≡ true
unfolding restarts
restarts-signal r n ns e t = rw (restarts, e, t) refl

module _ (c : Connection) (r : CallResult) (v : Option Value) (valid : IsValid c)
    (small : c.next_cookie + 1 < 2 ^ 32) (waits : result_lookup c.results_list r.cookie ≡ some r)
    (old : r.cookie < c.next_cookie) where
  abbrev ran : CallResult
  ran = after_notifiers (record r { ref = r.ref + 1 }) v

  pub result_run_lem :
      IsValid (result_run c r v)
      × ((result_run c r v).calls ≡ c.calls ++ map (λ n. (n.user_data, v)) r.notifiers)
      × ((j : ℕ)
          → j ≢ r.cookie
          → j < c.next_cookie
          → result_lookup (result_run c r v).results_list j ≡ result_lookup c.results_list j)
  unfolding result_run write_msg_to_ipc after_notifiers
  result_run_lem =
      let called = ap (λ cs. c.calls ++ cs) (run_notifiers-calls r.type v r.notifiers) in
      elim (Bool-cases (restarts ran)) [
        | inl b ↦
            let next : (c.next_cookie + 1) % 2 ^ 32 ≡ c.next_cookie + 1 = omega arith in
            let new : CallResult = record ran { cookie = c.next_cookie } in
            let w : Renews c.results_list r.cookie new = inr valid.below in
            let (below, distinct) =
              replaced-Valid c r.cookie r new (c.next_cookie + 1) valid waits w (omega arith)
                (omega arith) in
            rw (result_run, b, write_msg_to_ipc, next)
              (
                record { below = below; distinct = distinct },
                called,
                λ j ne lt.
                    replaced-others c r.cookie r new (c.next_cookie + 1) valid waits w (omega arith)
                      (omega arith) j ne (λ e. absurd (omega arith)),
              )
        | inr b ↦
            let w : Renews c.results_list r.cookie ran = inl refl in
            let (below, distinct) =
              replaced-Valid c r.cookie r ran c.next_cookie valid waits w (omega arith) old in
            rw (result_run, b)
              (
                record { below = below; distinct = distinct },
                called,
                λ j ne lt.
                    replaced-others c r.cookie r ran c.next_cookie valid waits w (omega arith) old j
                      ne ne,
              )
      ]

  -- The list after the call, if the result is not restarted and if it is.
  stays :
      (d : CallResult)
      → ran ≡ d
      → restarts d ≡ false
      → (result_run c r v).results_list ≡ result_unref d (result_update c.results_list r.cookie d)
  unfolding result_run
  stays d e b =
      subst
        (λ d.
          restarts d ≡ false
          → (result_run c r v).results_list
            ≡ result_unref d (result_update c.results_list r.cookie d))
        e (λ b. rw (result_run, b) refl) b

  again :
      (d : CallResult)
      → ran ≡ d
      → restarts d ≡ true
      → ((result_run c r v).results_list
          ≡ result_unref
              (record d { cookie = c.next_cookie })
              (result_update c.results_list r.cookie (record d { cookie = c.next_cookie })))
        × ((result_run c r v).out_msg
            ≡ c.out_msg ++ (signal_request r.restart_signal, c.next_cookie) ∷ [])
  unfolding result_run write_msg_to_ipc
  again d e b =
      subst
        (λ d.
          restarts d ≡ true
          → ((result_run c r v).results_list
              ≡ result_unref (record d { cookie = c.next_cookie })
                  (result_update c.results_list r.cookie (record d { cookie = c.next_cookie })))
            × ((result_run c r v).out_msg
                ≡ c.out_msg ++ (signal_request r.restart_signal, c.next_cookie) ∷ []))
        e (λ b. rw (result_run, b, write_msg_to_ipc) (refl, refl)) b

  ran-default :
      r.type ≡ default
      → ran ≡ record r {
        ref = (r.ref + 1) - (count r.notifiers - 0);
        notifiers = [];
        parsed = true;
        data_ = v;
      }
  unfolding after_notifiers count
  ran-default t = rw (t, run_notifiers-default v r.notifiers) refl

  ran-signal :
      (ns : List Notifier)
      → r.type ≡ signal
      → (run_notifiers signal v r.notifiers).0 ≡ ns
      → ran ≡ record r {
        ref = (r.ref + 1) - (count r.notifiers - count ns);
        notifiers = ns;
        parsed = true;
        data_ = v;
      }
  unfolding after_notifiers
  ran-signal ns t kept = rw (t, kept) refl

  -- A default result is over with its reply (on a valid connection that has cookies left, where it
  -- has a reference for each notifier): it leaves the list if the notifiers hold all its references;
  -- else it stays, with the references that they do not hold, the value and no notifier.
  pub result_run-default :
      r.type ≡ default
      → count r.notifiers ≤ r.ref
      → ((r.ref ≡ count r.notifiers)
          × (result_lookup (result_run c r v).results_list r.cookie ≡ none))
        ⊎ ((r' : CallResult) × (result_lookup (result_run c r v).results_list r.cookie ≡ some r')
            × (count r.notifiers < r.ref)
            × (r'.ref ≡ r.ref - count r.notifiers)
            × (r'.notifiers ≡ [])
            × (r'.parsed ≡ true)
            × (r'.data_ ≡ v))
  unfolding restarts
  result_run-default t le =
      let d : CallResult = record r {
        ref = (r.ref + 1) - (count r.notifiers - 0);
        notifiers = [];
        parsed = true;
        data_ = v;
      } in
      let list = stays d (ran-default t) refl in
      let w : Renews c.results_list r.cookie d = inl refl in
      let found =
        ap (λ l. result_lookup l r.cookie) list
        ∙ replaced-itself c r.cookie r d c.next_cookie valid waits w (omega arith) old in
      elim (Bool-cases (d.ref == 1)) [
        | inl b ↦ inl (
          omega (arith, (==_iff d.ref 1).0 b),
          found ∙ ap (λ b. if b then none else some (record d { ref = d.ref - 1 })) b,
        )
        | inr b ↦ inr (
          _,
          found ∙ ap (λ b. if b then none else some (record d { ref = d.ref - 1 })) b,
          kept_alive b,
          omega arith,
          refl,
          refl,
          refl,
        )
      ]
    where
      kept_alive : ((r.ref + 1) - (count r.notifiers - 0) == 1) ≡ false → count r.notifiers < r.ref
      kept_alive b = ground (arith, ==_iff ((r.ref + 1) - (count r.notifiers - 0)) 1)

  -- A signal of which a notifier stays waits again, with a new cookie, and is asked for again.
  pub result_run-signal :
      (n : Notifier) (ns : List Notifier)
      → r.type ≡ signal
      → (run_notifiers signal v r.notifiers).0 ≡ n ∷ ns
      → count r.notifiers ≤ r.ref
      → (r' : CallResult) × (result_lookup (result_run c r v).results_list c.next_cookie ≡ some r')
        × (r'.notifiers ≡ n ∷ ns)
        × (r'.type ≡ signal)
        × ((result_run c r v).out_msg
            ≡ c.out_msg ++ (signal_request r.restart_signal, c.next_cookie) ∷ [])
  unfolding count
  result_run-signal n ns t kept le =
      let d : CallResult = record r {
        ref = (r.ref + 1) - (count r.notifiers - count (n ∷ ns));
        notifiers = n ∷ ns;
        parsed = true;
        data_ = v;
      } in
      let restarted : restarts d ≡ true = restarts-signal d n ns refl t in
      let (list, out) = again d (ran-signal (n ∷ ns) t kept) restarted in
      let new : CallResult = record d { cookie = c.next_cookie } in
      let w : Renews c.results_list r.cookie new = inr valid.below in
      let found =
        ap (λ l. result_lookup l c.next_cookie) list
        ∙ replaced-itself c r.cookie r new (c.next_cookie + 1) valid waits w (omega arith)
            (omega arith) in
      let fewer : count (n ∷ ns) ≤ count r.notifiers =
        subst (λ k. count k ≤ count r.notifiers) kept (count-run_notifiers signal v r.notifiers) in
      let alive : (new.ref == 1) ≡ false = ne_false new.ref 1 (λ e. absurd (omega arith)) in
      (
        _,
        found ∙ ap (λ b. if b then none else some (record new { ref = new.ref - 1 })) alive,
        refl,
        t,
        out,
      )
