-- ===== src/Mdrive/Transaction/Stale.antt =====
-- mdrive_communicate of drivers/mdrive/serial.c and responses that belong to other transactions.
use mcontrol.Base.{
  ℕ, suc, ◌+◌, ◌*◌, ◌≡◌, refl, sym, ap, ◌∙◌, ◌≢◌, Bool, true, false, not, none, some, List, [], ◌∷◌,
  map, arith, ◌==◌, if◌then◌else◌, if_cases, length,
}
use mcontrol.Mdrive.Response.{Response}
use mcontrol.Mdrive.Classify.{ResponseClass, response_ok, arrives, Device, Nested}
use mcontrol.Mdrive.Transaction.{
  SendOpts, resend, process_one, await_round, await, finish, by_verdict, after_wait, tries_loop,
  transact, count_response,
}
use mcontrol.Mdrive.Transaction.Laws.{number_of_tries, sent_once}

abbrev pub expects : List Response → Device → Device
expects rs d = record d { queue = []; arrivals = map arrives rs }

-- Each of the responses has another id than the transaction of its try.
abbrev pub AllStale : ℕ → List Response → Type 0
AllStale txid [] = Unit {0}
AllStale txid (r ∷ rs) = (r.txid ≢ txid + 1) × AllStale (txid + 1) rs

-- One try that a stale response ends.
abbrev pub passed_over : ℕ → Response → Device → Device
passed_over length r d =
    let e = count_response r (sent_once length d) in record e { resends = e.resends + 1 }

abbrev pub all_passed_over : ℕ → List Response → Device → Device
all_passed_over length [] d = d
all_passed_over length (r ∷ rs) d = all_passed_over length rs (passed_over length r d)

await-stale :
    (n : ℕ) (options : SendOpts) (sent : List ℕ) (txid : ℕ) (status : ResponseClass) (r : Response)
    (rs : List Response) (d : Device)
    → r.txid ≢ txid
    → await (suc n) options sent txid status none (expects (r ∷ rs) d)
      ≡ some (record { verdict = resend; status = status; response = some r }, expects rs d)
unfolding await await_round process_one
await-stale n options sent txid status r rs d h =
    let e : not (r.txid == txid) ≡ true = ground (arith, h) in rw e refl

tries_loop-stale :
    (ops : Nested) (written : ℕ → Bool) (options : SendOpts) (sent : List ℕ) (rs : List Response)
    (status : ResponseClass) (d : Device)
    → ((n : ℕ) → written n ≡ true)
    → AllStale d.txid rs
    → tries_loop ops written options sent (length rs) status (expects rs d)
      ≡ finish false status none (expects [] (all_passed_over (length sent) rs d))
unfolding tries_loop after_wait by_verdict
tries_loop-stale ops written options sent [] status d w h = refl
tries_loop-stale ops written options sent (r ∷ rs) status d w h =
    rw (w (d.txid + 1)) (
      ap (after_wait ops options (length rs == 0) (tries_loop ops written options sent (length rs)))
        fuel)
    ∙ tries_loop-stale ops written options sent rs status (passed_over (length sent) r d) w h.1
  where
    arriving : ℕ
    arriving = length (map arrives (r ∷ rs))

    fuel :
        await
          (2 * (0 + arriving) + 2)
          options
          sent
          (d.txid + 1)
          status
          none
          (expects (r ∷ rs) (sent_once (length sent) d))
        ≡ some (
          record { verdict = resend; status = status; response = some r },
          expects rs (sent_once (length sent) d),
        )
    fuel =
        ap
          (λ k.
            await k options sent (d.txid + 1) status none
              (expects (r ∷ rs) (sent_once (length sent) d)))
          {x = 2 * (0 + arriving) + 2} {y = suc (2 * (0 + arriving) + 1)} (omega arith)
        ∙ await-stale (2 * (0 + arriving) + 1) options sent (d.txid + 1) status r rs
            (sent_once (length sent) d) h.0

-- When every try receives a response of another transaction, all of them are passed over and
-- counted as sent again, and the transaction ends with the status OK although it has no response
-- for the caller.
pub transact-stale :
    (ops : Nested) (written : ℕ → Bool) (options : SendOpts) (sent : List ℕ) (rs : List Response)
    (d : Device)
    → ((n : ℕ) → written n ≡ true)
    → length rs ≡ number_of_tries options
    → AllStale d.txid rs
    → transact ops written options sent (expects rs d)
      ≡ finish false response_ok none
          (expects [] (all_passed_over (length sent) rs (record d { txnest = d.txnest + 1 })))
unfolding transact
transact-stale ops written options sent rs d w l h =
    ap
      (λ f.
        tries_loop ops written options sent (number_of_tries options) response_ok
          (record f { txnest = d.txnest + 1 }))
      flush
    ∙ ap
        (λ n.
          tries_loop ops written options sent n response_ok
            (expects rs (record d { txnest = d.txnest + 1 })))
        (sym l)
    ∙ tries_loop-stale ops written options sent rs response_ok (record d { txnest = d.txnest + 1 })
        w h
  where
    flush :
        (if d.txnest == 0 then record (expects rs d) { queue = [] } else expects rs d)
        ≡ expects rs d
    flush =
        if_cases {A = Device} (λ f. f ≡ expects rs d) (d.txnest == 0) _ _ (λ e. refl) (λ e. refl)
