-- ===== src/Mdrive/Transaction/Fuel.antt =====
-- mdrive_communicate of drivers/mdrive/serial.c ends: the rounds of waiting are bounded by what can
-- arrive, and the tries by their number.
use mcontrol.Base.{
  ℕ, zero, suc, ◌+◌, ◌*◌, ◌≤◌, ◌<◌, ◌≡◌, refl, ◌≢◌, Bool, true, false, not, ◌&&◌, ◌||◌, Option,
  none, some, List, [], ◌∷◌, arith, ◌==◌, if◌then◌else◌, if_cases, length,
}
use mcontrol.Mdrive.Response.{Response}
use mcontrol.Mdrive.Classify.{
  ResponseClass, response_ok, response_timeout, response_ioerror, Arrival, arrives, times_out,
  Device, Nested, classify_response,
}
use mcontrol.Mdrive.Transaction.{
  same_text, SendOpts, Verdict, silent, resend, broken, wait_longer, classify, Round, next_response,
  process_one, process, take_in, take_next, await_round, goes_on, await, enough, Outcome, finish,
  after_class, by_verdict, after_wait, count_sent, tries_loop, transact, accepted, count_signs,
}

-- What can still arrive.
abbrev size : Device → ℕ
size d = length d.queue + length d.arrivals

-- A response with characters may be taken for an echo, once.
abbrev pending : Option Response → ℕ
pending none = 0
pending (some r) = if r.length == 0 then 0 else 1

pending_le : (r : Option Response) → pending r ≤ 1
pending_le none = omega arith
pending_le (some r) = ground arith

-- After a timeout the waiting goes on only to take out an echo, and then the response is empty.
process_one-timeout :
    (options : SendOpts) (sent : List ℕ) (echo txid : ℕ) (r : Response)
    → goes_on (process_one options sent echo txid response_timeout r).verdict ≡ true
    → (r.length ≢ 0)
      × (pending (process_one options sent echo txid response_timeout r).response ≡ 0)
unfolding process_one
process_one-timeout options sent echo txid r =
    if_cases Empties (not (r.txid == txid)) _ _ (λ e h. absurd (ground arith))
      λ e.
        if_cases Empties (options.expect_data && (r.length == 0 && (r.ack || (r.nack || r.crlf)))) _
          _
          (λ f.
            if_cases Empties (not (r.code == 0)) _ _ (λ g h. absurd (ground arith))
              (λ g h. absurd (ground arith)))
          λ f.
            if_cases Empties
              (options.expect_data
                && (echo == 0 && (not (r.length == 0) && same_text r.length r.buffer sent)))
              _ _ (λ g h. ((λ z. absurd (ground (arith, g, z))), refl))
              (λ g h. absurd (ground arith))
  where
    Empties : Round → Type 0
    Empties t = goes_on t.verdict ≡ true → (r.length ≢ 0) × (pending t.response ≡ 0)

pending-process :
    (options : SendOpts) (sent : List ℕ) (echo txid : ℕ) (r : Option Response)
    → goes_on (process options sent echo txid response_timeout r).verdict ≡ true
    → pending (process options sent echo txid response_timeout r).response + 1 ≤ pending r
pending-process options sent echo txid none h = absurd (ground arith)
pending-process options sent echo txid (some r) h =
    let t = process_one-timeout options sent echo txid r h in ground (arith, t.0, t.1)

abbrev taken : Option Response → ℕ
taken none = 0
taken (some r) = 2

size-take_next :
    (queue : List Response) (coming : List Arrival) (d : Device)
    → 2 * size (take_next queue coming d).1 + taken (take_next queue coming d).0
      ≤ 2 * (length queue + length coming)
size-take_next (r ∷ rs) coming d = omega arith
size-take_next [] [] d = omega arith
size-take_next [] (times_out ∷ rest) d = omega arith
size-take_next [] (arrives r ∷ rest) d = omega arith

await_round-goes_on :
    (options : SendOpts) (sent : List ℕ) (txid : ℕ) (status : ResponseClass)
    (response : Option Response) (t : Option Response × Device)
    → goes_on (await_round options sent txid status response t).0.verdict ≡ true
    → 2 * size (await_round options sent txid status response t).1
        + pending (await_round options sent txid status response t).0.response
      < 2 * size t.1 + taken t.0 + pending response
unfolding await_round
await_round-goes_on options sent txid status response (some r, e) h = omega (
  arith,
  pending_le (process options sent e.echo txid status (some (take_in response r))).response,
)
await_round-goes_on options sent txid status response (none, e) g =
    if_cases {A = Round × Device}
      (λ u.
        goes_on u.0.verdict ≡ true
        → 2 * size u.1 + pending u.0.response < 2 * size e + 0 + pending response)
      ((e.echo == 2 || e.address == b'*') && not options.expect_data) _ _
      (λ q h. absurd (ground arith))
      (λ q h. omega (arith, pending-process options sent e.echo txid response h)) g

abbrev settled : Option (Round × Device) → Bool
settled none = false
settled (some t) = not (goes_on t.0.verdict)

-- With fuel for all that can still arrive, the waiting ends with a verdict.
await-settled :
    (n : ℕ) (options : SendOpts) (sent : List ℕ) (txid : ℕ) (status : ResponseClass)
    (response : Option Response) (d : Device)
    → 2 * size d + pending response < n
    → settled (await n options sent txid status response d) ≡ true
unfolding await
await-settled zero options sent txid status response d h = absurd (omega arith)
await-settled (suc n) options sent txid status response d h =
    let t = await_round options sent txid status response (next_response d) in
    if_cases (λ o. settled o ≡ true) (goes_on t.0.verdict) _ _
      (λ e. await-settled n options sent txid t.0.status t.0.response t.1 (
        omega (
          arith,
          await_round-goes_on options sent txid status response (next_response d) e,
          size-take_next d.queue d.arrivals d,
          h,
        )))
      (λ e. ground (arith, e))

-- One try ends the transaction or goes on to the next.
abbrev pub ended : Outcome → Bool
ended none = false
ended (some t) = true

finish-ended :
    (last : Bool) (status : ResponseClass) (response : Option Response) (d : Device)
    → ended (finish last status response d) ≡ true
finish-ended last status none d = refl
finish-ended last status (some r) d = refl

by_verdict-ended :
    (ops : Nested) (options : SendOpts) (last : Bool) (again : ResponseClass → Device → Outcome)
    (verdict : Verdict) (status : ResponseClass) (response : Option Response) (d : Device)
    → goes_on verdict ≡ false
    → ((class : ResponseClass) (e : Device) → ended (again class e) ≡ true)
    → ended (by_verdict ops options last again verdict status response d) ≡ true
unfolding by_verdict after_class
by_verdict-ended ops options last again silent status response d s h =
    finish-ended last status response d
by_verdict-ended ops options last again resend status response d s h = h _ _
by_verdict-ended ops options last again broken status response d s h =
    finish-ended last status response d
by_verdict-ended ops options last again wait_longer status response d s h = absurd (ground arith)
by_verdict-ended ops options last again classify status none d s h = h _ _
by_verdict-ended ops options last again classify status (some r) d s h =
    let t = classify_response ops (count_signs r d) r in
    if_cases {A = Outcome} (λ o. ended o ≡ true) (accepted options t.0 t.1.1) _ _
      (λ e. finish-ended last t.0 (some t.1.1) t.1.0) (λ e. h _ _)

after_wait-ended :
    (ops : Nested) (options : SendOpts) (last : Bool) (again : ResponseClass → Device → Outcome)
    (o : Option (Round × Device))
    → settled o ≡ true
    → ((class : ResponseClass) (d : Device) → ended (again class d) ≡ true)
    → ended (after_wait ops options last again o) ≡ true
unfolding after_wait
after_wait-ended ops options last again none s h = absurd (ground arith)
after_wait-ended ops options last again (some (t, d)) s h =
    by_verdict-ended ops options last again t.verdict t.status t.response d (ground arith) h

tries_loop-ended :
    (ops : Nested) (written : ℕ → Bool) (options : SendOpts) (sent : List ℕ) (i : ℕ)
    (status : ResponseClass) (d : Device)
    → ended (tries_loop ops written options sent i status d) ≡ true
unfolding tries_loop
tries_loop-ended ops written options sent zero status d = finish-ended false status none d
tries_loop-ended ops written options sent (suc i) status d =
    let d' : Device = record d { txid = d.txid + 1 } in
    if_cases {A = Outcome} (λ o. ended o ≡ true) (written d'.txid) _ _
      (λ e.
        after_wait-ended ops options (i == 0) (tries_loop ops written options sent i)
          (await (enough d') options sent d'.txid status none (count_sent sent d'))
          (await-settled (enough d') options sent d'.txid status none (count_sent sent d')
            (omega arith))
          (tries_loop-ended ops written options sent i))
      (λ e. finish-ended (i == 0) response_ioerror none d')

-- A transaction ends when the line falls silent: for every finite sequence of arrivals and timeouts,
-- after which each wait times out, the transaction comes to a result, whatever fails to be written
-- and whatever the nested operations do to the device; the fuel of the waiting, twice what is queued
-- or still arrives and two, is enough.
pub transact_total :
    (ops : Nested) (written : ℕ → Bool) (options : SendOpts) (sent : List ℕ) (d : Device)
    → ended (transact ops written options sent d) ≡ true
unfolding transact
transact_total ops written options sent d =
    let flushed : Device = if d.txnest == 0 then record d { queue = [] } else d in
    let tries = if options.tries == 0 then 2 else options.tries in
    tries_loop-ended ops written options sent tries response_ok
      (record flushed { txnest = d.txnest + 1 })
