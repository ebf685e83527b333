-- ===== src/Mdrive/Transaction.antt =====
-- drivers/mdrive/serial.c: mdrive_communicate, one transaction with a unit: the command is sent, the
-- response awaited and classified, and the command sent again where that failed. The locks make a
-- transaction one step; times are not modelled, only whether a wait ends by a response or by its
-- timeout, which `arrivals` of the device tells. The counters of the statistics have no bound here.
-- The response queue is a stack, its top first.
pub mod Fuel
pub mod Laws
pub mod Stale
pub mod Answer
mod Tests
use mcontrol.Base.{
  ℕ, zero, suc, ◌+◌, ◌-◌, ◌*◌, Bool, true, false, not, ◌&&◌, ◌||◌, Option, none, some, List, [],
  ◌∷◌, ◌++◌, leb, ◌==◌, if◌then◌else◌, length, get_or, set,
}
use mcontrol.Mdrive.Checksum.{calc_checksum}
use mcontrol.Mdrive.Response.{Response}
use mcontrol.Mdrive.Classify.{
  ResponseClass, response_ok, response_retry, response_error, response_bad_checksum,
  response_timeout, response_ioerror, Arrival, arrives, times_out, Device, Nested,
  classify_response, combine_response,
}

-- struct mdrive_send_opts, less the waiting time and the place for the result.
pub record SendOpts : Type 0 where
  pub expect_data : Bool
  pub expect_err : Bool
  pub raw : Bool
  pub tries : ℕ

abbrev pub em_on : ℕ
em_on = 0

abbrev pub em_quiet : ℕ
em_quiet = 2

-- The characters before the end of line.
abbrev pub command_body : Device → List ℕ → List ℕ
command_body d command = if d.party_mode then d.address ∷ command else command

abbrev pub end_of_command : Device → SendOpts → List ℕ
end_of_command d options = if options.raw then [] else if d.party_mode then 10 ∷ [] else 13 ∷ []

-- What mdrive_communicate sends: the checksum goes before the end of line. A command that the
-- buffer of 63 cannot hold is none of the model's.
unfoldable pub frame_command : Device → SendOpts → List ℕ → Option (List ℕ)
frame_command d options command =
    let body = command_body d command in
    let eol = end_of_command d options in
    if leb (length body + length eol) 61
    then if d.checksum == 0 then some (body ++ eol) else some (body ++ calc_checksum body ∷ eol)
    else none

-- `strncmp(a, b, n) == 0`
abbrev drop_head : List ℕ → List ℕ
drop_head [] = []
drop_head (x ∷ xs) = xs

abbrev pub same_text : ℕ → List ℕ → List ℕ → Bool
same_text zero a b = true
same_text (suc n) a b =
    let rest = same_text n (drop_head a) (drop_head b) in
    if get_or a 0 0 == get_or b 0 0 then (if get_or a 0 0 == 0 then true else rest) else false

-- The wait for a response: the top of the queue, or what arrives. The arrivals are finitely many, and
-- each wait behind them times out: a unit that never stops to answer without data, to which
-- mdrive_communicate listens without bound, is outside the model.
abbrev pub take_next : List Response → List Arrival → Device → Option Response × Device
take_next (r ∷ rs) coming d = (some r, record d { queue = rs; arrivals = coming })
take_next [] [] d = (none, record d { queue = []; arrivals = [] })
take_next [] (times_out ∷ rest) d = (none, record d { queue = []; arrivals = rest })
take_next [] (arrives r ∷ rest) d = (some r, record d { queue = []; arrivals = rest })

abbrev pub next_response : Device → Option Response × Device
next_response d = take_next d.queue d.arrivals d

-- How a round of waiting goes on.
pub data Verdict : Type 0 where
  -- `goto finish`: no response is one.
  silent : Verdict
  -- `goto resend`
  resend : Verdict
  -- `break` for a response that has an error code
  broken : Verdict
  -- `goto wait_longer`
  wait_longer : Verdict
  -- The response is classified.
  classify : Verdict

-- What the waiting leaves: its verdict, the status, and the response so far.
pub record Round : Type 0 where
  pub verdict : Verdict
  pub status : ResponseClass
  pub response : Option Response

abbrev pub is_timeout : ResponseClass → Bool
is_timeout response_timeout = true
is_timeout _ = false

-- The echo of the command is taken out of the response.
abbrev pub clear_echo : Response → Response
clear_echo r = record r { buffer = set r.buffer 0 0; length = 0; echo = true }

-- From the label `process` to the classification, for a response.
pub process_one : SendOpts → List ℕ → ℕ → ℕ → ResponseClass → Response → Round
process_one options sent echo txid status r =
    if not (r.txid == txid)
    then record { verdict = resend; status = status; response = some r }
    else if options.expect_data && (r.length == 0 && (r.ack || (r.nack || r.crlf)))
    then if not (r.code == 0)
      then record { verdict = broken; status = status; response = some r }
      else if not (is_timeout status)
      then record { verdict = wait_longer; status = status; response = some r }
      else record { verdict = classify; status = status; response = some r }
    else if options.expect_data
        && (echo == em_on && (not (r.length == 0) && same_text r.length r.buffer sent))
    then record { verdict = wait_longer; status = status; response = some (clear_echo r) }
    else record { verdict = classify; status = status; response = some r }

abbrev pub process : SendOpts → List ℕ → ℕ → ℕ → ResponseClass → Option Response → Round
process options sent echo txid status none = record {
  verdict = resend;
  status = status;
  response = none;
}
process options sent echo txid status (some r) = process_one options sent echo txid status r

abbrev pub or_first : Response → Option Response → Response
or_first a none = a
or_first a (some c) = c

-- The response so far, with the one that came.
abbrev pub take_in : Option Response → Response → Response
take_in none r = r
take_in (some a) r = or_first a (combine_response a r)

-- One wait, up to the next verdict. A unit that is quiet, or that all are addressed as, answers a
-- command without data by silence.
await_round :
    SendOpts
    → List ℕ
    → ℕ
    → ResponseClass
    → Option Response
    → Option Response × Device
    → Round × Device
await_round options sent txid status response (some r, d) =
    (process options sent d.echo txid status (some (take_in response r)), d)
await_round options sent txid status response (none, d) =
    if (d.echo == em_quiet || d.address == b'*') && not options.expect_data
    then (record { verdict = silent; status = response_ok; response = response }, d)
    else (
      process options sent d.echo txid response_timeout response,
      record d { timeouts = d.timeouts + 1 },
    )

abbrev pub goes_on : Verdict → Bool
goes_on wait_longer = true
goes_on _ = false

-- The rounds of waiting; no fuel, no result.
await :
    ℕ → SendOpts → List ℕ → ℕ → ResponseClass → Option Response → Device → Option (Round × Device)
unfolding await_round
await zero options sent txid status response d = none
await (suc n) options sent txid status response d =
    let t = await_round options sent txid status response (next_response d) in
    let rest = await n options sent txid t.0.status t.0.response t.1 in
    if goes_on t.0.verdict then rest else some t

-- How many rounds there can be.
abbrev pub enough : Device → ℕ
enough d = 2 * (length d.queue + length d.arrivals) + 2

-- The statistics of a response that is done with.
abbrev pub count_response : Response → Device → Device
count_response r d = record d { rx = d.rx + 1; rxbytes = d.rxbytes + r.received }

abbrev pub count_resend : Option Response → Device → Device
count_resend none d = record d { resends = d.resends + 1 }
count_resend (some r) d = record (count_response r d) { resends = d.resends + 1 }

abbrev pub count_signs : Response → Device → Device
count_signs r d = record d {
  acks = d.acks + (if r.ack then 1 else 0);
  nacks = d.nacks + (if r.nack then 1 else 0);
}

abbrev pub count_failure : ResponseClass → Device → Device
count_failure response_retry d = record d { overflows = d.overflows + 1 }
count_failure response_bad_checksum d = record d { bad_checksums = d.bad_checksums + 1 }
count_failure _ d = d

abbrev pub is_ok : ResponseClass → Bool
is_ok response_ok = true
is_ok _ = false

abbrev pub is_error : ResponseClass → Bool
is_error response_error = true
is_error _ = false

-- What a transaction gives: its status, the response for the caller, the device; no fuel, nothing.
abbrev pub Outcome : Type 0
Outcome = Option (ResponseClass × (Option Response × Device))

-- The label `finish`.
abbrev pub finish : Bool → ResponseClass → Option Response → Device → Outcome
finish last status (some r) d =
    let d' = count_response r d in some (status, (some r, record d' { txnest = d'.txnest - 1 }))
finish last status none d =
    some ((if last then response_ioerror else status), (none, record d { txnest = d.txnest - 1 }))

-- What follows the classification: the end of the transaction, or `resend`.
abbrev pub accepted : SendOpts → ResponseClass → Response → Bool
accepted options class r =
    is_ok class || (options.expect_err || (is_error class && not (r.code == 0)))

-- What follows a classified response.
after_class :
    SendOpts
    → Bool
    → (ResponseClass → Device → Outcome)
    → ResponseClass × (Device × Response)
    → Outcome
after_class options last again (class, (d, r)) =
    if accepted options class r
    then finish last class (some r) d
    else again class (count_resend (some r) (count_failure class d))

-- What follows the waiting of one try, by its verdict.
by_verdict :
    Nested
    → SendOpts
    → Bool
    → (ResponseClass → Device → Outcome)
    → Verdict
    → ResponseClass
    → Option Response
    → Device
    → Outcome
unfolding after_class
by_verdict ops options last again silent status response d = finish last status response d
by_verdict ops options last again resend status response d = again status (count_resend response d)
by_verdict ops options last again broken status response d = finish last status response d
by_verdict ops options last again wait_longer status response d = none
by_verdict ops options last again classify status none d = again status (count_resend none d)
by_verdict ops options last again classify status (some r) d =
    after_class options last again (classify_response ops (count_signs r d) r)

after_wait :
    Nested
    → SendOpts
    → Bool
    → (ResponseClass → Device → Outcome)
    → Option (Round × Device)
    → Outcome
unfolding by_verdict
after_wait ops options last again none = none
after_wait ops options last again (some (t, d)) =
    by_verdict ops options last again t.verdict t.status t.response d

abbrev count_sent : List ℕ → Device → Device
count_sent sent d = record d { tx = d.tx + 1; txbytes = d.txbytes + length sent }

-- The tries that remain, `while (i--)`. `written` tells for each transaction if it could be written.
-- Behind the loop i is -1, so that the test for 0 at `finish` fails there.
tries_loop : Nested → (ℕ → Bool) → SendOpts → List ℕ → ℕ → ResponseClass → Device → Outcome
unfolding await after_wait
tries_loop ops written options sent zero status d = finish false status none d
tries_loop ops written options sent (suc i) status d =
    let d' : Device = record d { txid = d.txid + 1 } in
    let again : ResponseClass → Device → Outcome = tries_loop ops written options sent i in
    if written d'.txid
    then after_wait ops options (i == 0) again
        (await (enough d') options sent d'.txid status none (count_sent sent d'))
    else finish (i == 0) response_ioerror none d'

-- mdrive_communicate, from the place where the command is in the buffer.
pub transact : Nested → (ℕ → Bool) → SendOpts → List ℕ → Device → Outcome
unfolding tries_loop
transact ops written options sent d =
    let flushed : Device = if d.txnest == 0 then record d { queue = [] } else d in
    let tries = if options.tries == 0 then 2 else options.tries in
    tries_loop ops written options sent tries response_ok (record flushed { txnest = d.txnest + 1 })

if_framed : Option (List ℕ) → (List ℕ → Outcome) → Outcome
if_framed none f = none
if_framed (some sent) f = f sent

-- mdrive_communicate
pub communicate : Nested → (ℕ → Bool) → SendOpts → List ℕ → Device → Outcome
unfolding transact frame_command if_framed
communicate ops written options command d =
    if_framed (frame_command d options command) (λ sent. transact ops written options sent d)

-- mdrive_send
pub send : Nested → (ℕ → Bool) → List ℕ → Device → Outcome
unfolding communicate
send ops written command d =
    communicate ops written
      (record { expect_data = false; expect_err = false; raw = false; tries = 0 }) command d
