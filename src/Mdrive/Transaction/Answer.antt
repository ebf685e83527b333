-- ===== src/Mdrive/Transaction/Answer.antt =====
-- mdrive_communicate of drivers/mdrive/serial.c with a unit that answers: at once, or with an early
-- acknowledgement that the characters follow.
use mcontrol.Base.{
  ℕ, suc, ◌+◌, ◌-◌, ◌*◌, ◌≡◌, refl, sym, ap, ◌∙◌, ◌≢◌, Bool, true, false, not, ◌&&◌, ◌||◌, Option,
  none, some, List, [], ◌∷◌, map, arith, ◌==◌, if◌then◌else◌, if_cases, length,
}
use mcontrol.Mdrive.Response.{Response}
use mcontrol.Mdrive.Classify.{
  ResponseClass, response_ok, arrives, Device, Nested, classify_response, combined,
}
use mcontrol.Mdrive.Transaction.{
  SendOpts, classify, wait_longer, Round, process_one, await_round, await, Outcome, after_class,
  by_verdict, after_wait, tries_loop, transact, count_response, count_signs, take_in, same_text,
  or_first, goes_on,
}
use mcontrol.Mdrive.Classify.Laws.{txid-combined, combine_same}
use mcontrol.Mdrive.Transaction.Laws.{number_of_tries, number_of_tries-suc, sent_once}
use mcontrol.Mdrive.Transaction.Stale.{expects}

-- The transaction that takes a classified response for its own.
abbrev pub ends_with : Response → Device → Outcome
ends_with r d = some (response_ok, (some r, record (count_response r d) { txnest = d.txnest - 1 }))

flush :
    (rs : List Response) (d : Device)
    → (if d.txnest == 0 then record (expects rs d) { queue = [] } else expects rs d) ≡ expects rs d
flush rs d =
    if_cases {A = Device} (λ f. f ≡ expects rs d) (d.txnest == 0) _ _ (λ e. refl) (λ e. refl)

-- What is classified is handed over if the class is OK.
after_wait-ok :
    (ops : Nested) (options : SendOpts) (last : Bool) (again : ResponseClass → Device → Outcome)
    (status : ResponseClass) (r : Response) (d : Device) (r' : Response) (d' : Device)
    → classify_response ops (count_signs r d) r ≡ (response_ok, (d', r'))
    → after_wait ops options last again
        (some (record { verdict = classify; status = status; response = some r }, d))
      ≡ ends_with r' d'
unfolding after_wait by_verdict after_class
after_wait-ok ops options last again status r d r' d' h = ap (after_class options last again) h

-- The first try, once the waiting for it is known.
transact-first :
    (ops : Nested) (written : ℕ → Bool) (options : SendOpts) (sent : List ℕ) (rs : List Response)
    (d : Device) (r r' : Response) (e d' : Device) (status : ResponseClass)
    → written (d.txid + 1) ≡ true
    → await
        (2 * (0 + length (map arrives rs)) + 2)
        options
        sent
        (d.txid + 1)
        response_ok
        none
        (expects rs (sent_once (length sent) (record d { txnest = d.txnest + 1 })))
      ≡ some (record { verdict = classify; status = status; response = some r }, e)
    → classify_response ops (count_signs r e) r ≡ (response_ok, (d', r'))
    → transact ops written options sent (expects rs d) ≡ ends_with r' d'
unfolding transact tries_loop
transact-first ops written options sent rs d r r' e d' status w a h =
    let i = number_of_tries options - 1 in
    ap
      (λ f.
        tries_loop ops written options sent (number_of_tries options) response_ok
          (record f { txnest = d.txnest + 1 }))
      (flush rs d)
    ∙ ap
        (λ n.
          tries_loop ops written options sent n response_ok
            (expects rs (record d { txnest = d.txnest + 1 })))
        (number_of_tries-suc options)
    ∙ rw w (ap (after_wait ops options (i == 0) (tries_loop ops written options sent i)) a)
    ∙ after_wait-ok ops options (i == 0) (tries_loop ops written options sent i) status r e r' d' h

process_one-plain :
    (options : SendOpts) (sent : List ℕ) (echo txid : ℕ) (status : ResponseClass) (r : Response)
    → r.txid ≡ txid
    → options.expect_data ≡ false
    → process_one options sent echo txid status r
      ≡ record { verdict = classify; status = status; response = some r }
unfolding process_one
process_one-plain options sent echo txid status r t x =
    let own : not (r.txid == txid) ≡ false = ground (arith, t) in rw own (rw x refl)

abbrev sending : List ℕ → Device → Device
sending sent d = sent_once (length sent) (record d { txnest = d.txnest + 1 })

await-last :
    (n : ℕ) (options : SendOpts) (sent : List ℕ) (txid : ℕ) (so_far : Option Response)
    (r : Response) (rs : List Response) (d : Device) (t : Round)
    → process_one options sent d.echo txid response_ok (take_in so_far r) ≡ t
    → goes_on t.verdict ≡ false
    → await (suc n) options sent txid response_ok so_far (expects (r ∷ rs) d)
      ≡ some (t, expects rs d)
unfolding await await_round
await-last n options sent txid so_far r rs d t p g = rw (p, g) refl

await-more :
    (n : ℕ) (options : SendOpts) (sent : List ℕ) (txid : ℕ) (so_far : Option Response)
    (r : Response) (rs : List Response) (d : Device) (t : Round)
    → process_one options sent d.echo txid response_ok (take_in so_far r) ≡ t
    → goes_on t.verdict ≡ true
    → await (suc n) options sent txid response_ok so_far (expects (r ∷ rs) d)
      ≡ await n options sent txid t.status t.response (expects rs d)
unfolding await await_round
await-more n options sent txid so_far r rs d t p g = rw (p, g) refl

fuel_suc : (n : ℕ) → 2 * (0 + n) + 2 ≡ suc (2 * (0 + n) + 1)
fuel_suc n = omega arith

-- A command without data whose response, the next to arrive, carries the transaction's id and is
-- classified as OK: the transaction ends in its first try with the status OK and that response.
pub transact-answered :
    (ops : Nested) (written : ℕ → Bool) (options : SendOpts) (sent : List ℕ) (r : Response)
    (rs : List Response) (d : Device) (r' : Response) (d' : Device)
    → written (d.txid + 1) ≡ true
    → options.expect_data ≡ false
    → r.txid ≡ d.txid + 1
    → classify_response ops
        (count_signs r (expects rs (sent_once (length sent) (record d { txnest = d.txnest + 1 }))))
        r
      ≡ (response_ok, (d', r'))
    → transact ops written options sent (expects (r ∷ rs) d) ≡ ends_with r' d'
transact-answered ops written options sent r rs d r' d' w x t h =
    transact-first ops written options sent (r ∷ rs) d r r' (expects rs (sending sent d)) d'
      response_ok w
      (ap
          (λ k.
            await k options sent (d.txid + 1) response_ok none (expects (r ∷ rs) (sending sent d)))
          (fuel_suc (length (map arrives (r ∷ rs))))
        ∙ await-last (2 * (0 + length (map arrives (r ∷ rs))) + 1) options sent (d.txid + 1) none r
            rs (sending sent d)
            (record { verdict = classify; status = response_ok; response = some r })
            (process_one-plain options sent d.echo (d.txid + 1) response_ok r t x) refl)
      h

-- The early acknowledgement of a command: the unit's characters are still to come.
pub record IsEarly (txid : ℕ) (a : Response) : Type 0 where
  pub own : a.txid ≡ txid
  pub empty : a.length ≡ 0
  pub sign : a.ack || (a.nack || a.crlf) ≡ true
  pub no_code : a.code ≡ 0

process_one-IsEarly :
    (options : SendOpts) (sent : List ℕ) (echo txid : ℕ) (a : Response)
    → options.expect_data ≡ true
    → IsEarly txid a
    → process_one options sent echo txid response_ok a
      ≡ record { verdict = wait_longer; status = response_ok; response = some a }
unfolding process_one
process_one-IsEarly options sent echo txid a x e =
    let own : not (a.txid == txid) ≡ false = ground (arith, e.own) in
    let waits : (options.expect_data && (a.length == 0 && (a.ack || (a.nack || a.crlf)))) ≡ true =
      ground (arith, x, e.empty, e.sign) in
    let no_code : not (a.code == 0) ≡ false = ground (arith, e.no_code) in
    rw own (rw waits (rw no_code refl))

process_one_complete :
    (options : SendOpts) (sent : List ℕ) (echo txid : ℕ) (r : Response)
    → r.txid ≡ txid
    → r.length ≢ 0
    → echo ≢ 0
    → process_one options sent echo txid response_ok r
      ≡ record { verdict = classify; status = response_ok; response = some r }
unfolding process_one
process_one_complete options sent echo txid r t l e =
    let own : not (r.txid == txid) ≡ false = ground (arith, t) in
    let waits : (options.expect_data && (r.length == 0 && (r.ack || (r.nack || r.crlf)))) ≡ false =
      ground (arith, l) in
    let no_echo : (options.expect_data
          && (echo == 0 && (not (r.length == 0) && same_text r.length r.buffer sent)))
        ≡ false =
      silent_line options.expect_data (not (r.length == 0) && same_text r.length r.buffer sent) in
    rw own (rw waits (rw no_echo refl))
  where
    silent_line : (x y : Bool) → (x && (echo == 0 && y)) ≡ false
    silent_line x y = ground (arith, e)

take_in-combined : (a b : Response) → a.txid ≡ b.txid → take_in (some a) b ≡ combined a b
take_in-combined a b t = ap (or_first a) (combine_same a b t)

-- A query of a unit that does not echo: an early acknowledgement arrives first and the characters
-- in a second response, both with the transaction's id. They are combined, and if the combination
-- is classified as OK the transaction ends in its first try with the status OK and the combination.
pub transact-answered_late :
    (ops : Nested) (written : ℕ → Bool) (options : SendOpts) (sent : List ℕ) (a b : Response)
    (rs : List Response) (d : Device) (r' : Response) (d' : Device)
    → written (d.txid + 1) ≡ true
    → options.expect_data ≡ true
    → d.echo ≢ 0
    → IsEarly (d.txid + 1) a
    → b.txid ≡ d.txid + 1
    → (combined a b).length ≢ 0
    → classify_response ops
        (count_signs
          (combined a b)
          (expects rs (sent_once (length sent) (record d { txnest = d.txnest + 1 }))))
        (combined a b)
      ≡ (response_ok, (d', r'))
    → transact ops written options sent (expects (a ∷ b ∷ rs) d) ≡ ends_with r' d'
transact-answered_late ops written options sent a b rs d r' d' w x e early t l h =
    let n = length (map arrives (a ∷ b ∷ rs)) in
    let c = combined a b in
    let one : await (2 * (0 + n) + 2) options sent (d.txid + 1) response_ok none
          (expects (a ∷ b ∷ rs) (sending sent d))
        ≡ await (suc (2 * (0 + n))) options sent (d.txid + 1) response_ok (some a)
            (expects (b ∷ rs) (sending sent d)) =
      ap
        (λ k.
          await k options sent (d.txid + 1) response_ok none
            (expects (a ∷ b ∷ rs) (sending sent d)))
        {x = 2 * (0 + n) + 2} {y = suc (suc (2 * (0 + n)))} (omega arith)
      ∙ await-more (suc (2 * (0 + n))) options sent (d.txid + 1) none a (b ∷ rs) (sending sent d)
          (record { verdict = wait_longer; status = response_ok; response = some a })
          (process_one-IsEarly options sent d.echo (d.txid + 1) a x early) refl in
    let both : process_one options sent d.echo (d.txid + 1) response_ok (take_in (some a) b)
        ≡ record { verdict = classify; status = response_ok; response = some c } =
      ap (process_one options sent d.echo (d.txid + 1) response_ok)
        (take_in-combined a b (early.own ∙ sym t))
      ∙ process_one_complete options sent d.echo (d.txid + 1) c (txid-combined a b ∙ early.own) l
          e in
    transact-first ops written options sent (a ∷ b ∷ rs) d c r' (expects rs (sending sent d)) d'
      response_ok w
      (one
        ∙ await-last (2 * (0 + n)) options sent (d.txid + 1) (some a) b rs (sending sent d)
            (record { verdict = classify; status = response_ok; response = some c }) both refl)
      h
