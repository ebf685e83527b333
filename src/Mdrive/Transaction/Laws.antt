-- ===== src/Mdrive/Transaction/Laws.antt =====
-- What mdrive_communicate of drivers/mdrive/serial.c says of a unit that does not answer, and of
-- answers to other transactions.
use mcontrol.Base.{
  ℕ, zero, suc, ◌+◌, ◌-◌, ◌≡◌, refl, sym, ap, ◌∙◌, Bool, true, false, not, ◌&&◌, ◌||◌, none, some,
  List, [], arith, ◌==◌, if◌then◌else◌, if_cases, length,
}
use mcontrol.Mdrive.Classify.{
  ResponseClass, response_ok, response_timeout, response_ioerror, Device, Nested,
}
use mcontrol.Mdrive.Transaction.{
  frame_command, if_framed, communicate, SendOpts, silent, resend, await_round, await, finish,
  by_verdict, after_wait, tries_loop, transact, em_quiet,
}

-- A device for which nothing is queued and nothing arrives.
abbrev pub idle : Device → Device
idle d = record d { queue = []; arrivals = [] }

abbrev pub answers_by_silence : SendOpts → Device → Bool
answers_by_silence options d = (d.echo == em_quiet || d.address == b'*') && not options.expect_data

-- One try of which nothing comes.
abbrev pub tried : ℕ → Device → Device
tried length d = record d {
  txid = d.txid + 1;
  tx = d.tx + 1;
  txbytes = d.txbytes + length;
  timeouts = d.timeouts + 1;
  resends = d.resends + 1;
}

abbrev pub tried_times : ℕ → ℕ → Device → Device
tried_times zero length d = d
tried_times (suc n) length d = tried_times n length (tried length d)

await-dead :
    (n : ℕ) (options : SendOpts) (sent : List ℕ) (txid : ℕ) (status : ResponseClass) (d : Device)
    → answers_by_silence options d ≡ false
    → await (suc n) options sent txid status none (idle d)
      ≡ some (
        record { verdict = resend; status = response_timeout; response = none },
        record (idle d) { timeouts = d.timeouts + 1 },
      )
unfolding await await_round
await-dead n options sent txid status d h = rw h refl

tries_loop_step :
    (ops : Nested) (written : ℕ → Bool) (options : SendOpts) (sent : List ℕ) (i : ℕ)
    (status : ResponseClass) (d : Device)
    → written (d.txid + 1) ≡ true
    → answers_by_silence options d ≡ false
    → tries_loop ops written options sent (suc i) status (idle d)
      ≡ tries_loop ops written options sent i response_timeout (idle (tried (length sent) d))
unfolding tries_loop after_wait by_verdict
tries_loop_step ops written options sent i status d w h =
    let e : Device = record d {
      txid = d.txid + 1;
      tx = d.tx + 1;
      txbytes = d.txbytes + length sent;
    } in
    rw w (
      ap (after_wait ops options (i == 0) (tries_loop ops written options sent i))
        (await-dead 1 options sent (d.txid + 1) status e h))

tries_loop-dead :
    (ops : Nested) (written : ℕ → Bool) (options : SendOpts) (sent : List ℕ) (i : ℕ)
    (status : ResponseClass) (d : Device)
    → ((n : ℕ) → written n ≡ true)
    → answers_by_silence options d ≡ false
    → tries_loop ops written options sent (suc i) status (idle d)
      ≡ finish false response_timeout none (tried_times (suc i) (length sent) (idle d))
unfolding tries_loop
tries_loop-dead ops written options sent zero status d w h =
    tries_loop_step ops written options sent zero status d (w _) h
tries_loop-dead ops written options sent (suc i) status d w h =
    tries_loop_step ops written options sent (suc i) status d (w _) h
    ∙ tries_loop-dead ops written options sent i response_timeout (tried (length sent) d) w h

-- The number of tries is never 0.
abbrev pub number_of_tries : SendOpts → ℕ
number_of_tries options = if options.tries == 0 then 2 else options.tries

pub number_of_tries-suc :
    (options : SendOpts) → number_of_tries options ≡ suc (number_of_tries options - 1)
number_of_tries-suc options = ground arith

-- A unit that should answer and from which nothing comes: every try is counted as sent, timed out
-- and sent again, and the status is a timeout (not the IO error of "out of retries"), without a response.
pub transact-dead :
    (ops : Nested) (written : ℕ → Bool) (options : SendOpts) (sent : List ℕ) (d : Device)
    → ((n : ℕ) → written n ≡ true)
    → answers_by_silence options d ≡ false
    → transact ops written options sent (idle d)
      ≡ finish false response_timeout none (
          tried_times
            (number_of_tries options)
            (length sent)
            (record (idle d) { txnest = d.txnest + 1 }))
unfolding transact
transact-dead ops written options sent d w h =
    let e : Device = record d { txnest = d.txnest + 1 } in
    ap
      (λ f.
        tries_loop ops written options sent (number_of_tries options) response_ok
          (record f { txnest = d.txnest + 1 }))
      (flush d)
    ∙ ap (λ n. tries_loop ops written options sent n response_ok (idle e))
        (number_of_tries-suc options)
    ∙ tries_loop-dead ops written options sent (number_of_tries options - 1) response_ok e w h
    ∙ ap (λ n. finish false response_timeout none (tried_times n (length sent) (idle e)))
        (sym (number_of_tries-suc options))
  where
    flush :
        (d : Device) → (if d.txnest == 0 then record (idle d) { queue = [] } else idle d) ≡ idle d
    flush d = if_cases {A = Device} (λ f. f ≡ idle d) (d.txnest == 0) _ _ (λ e. refl) (λ e. refl)

-- One try, sent.
abbrev pub sent_once : ℕ → Device → Device
sent_once length d = record d { txid = d.txid + 1; tx = d.tx + 1; txbytes = d.txbytes + length }

await-silent :
    (n : ℕ) (options : SendOpts) (sent : List ℕ) (txid : ℕ) (status : ResponseClass) (d : Device)
    → answers_by_silence options d ≡ true
    → await (suc n) options sent txid status none (idle d)
      ≡ some (record { verdict = silent; status = response_ok; response = none }, idle d)
unfolding await await_round
await-silent n options sent txid status d h = rw h refl

-- A unit that answers by silence: the command is sent once, and the status is OK if there would
-- have been another try, but an IO error if the options ask for a single try.
pub transact-silent :
    (ops : Nested) (written : ℕ → Bool) (options : SendOpts) (sent : List ℕ) (d : Device)
    → written (d.txid + 1) ≡ true
    → answers_by_silence options d ≡ true
    → transact ops written options sent (idle d)
      ≡ some (
        (if options.tries == 1 then response_ioerror else response_ok),
        (none, record (sent_once (length sent) (idle d)) { txnest = d.txnest + 1 - 1 }),
      )
unfolding transact tries_loop after_wait by_verdict
transact-silent ops written options sent d w h =
    let e : Device = record d { txnest = d.txnest + 1 } in
    let e' : Device = record (sent_once (length sent) d) { txnest = d.txnest + 1 } in
    let i = number_of_tries options - 1 in
    ap
      (λ f.
        tries_loop ops written options sent (number_of_tries options) response_ok
          (record f { txnest = d.txnest + 1 }))
      (flush d)
    ∙ ap (λ n. tries_loop ops written options sent n response_ok (idle e))
        (number_of_tries-suc options)
    ∙ rw w (
        ap (after_wait ops options (i == 0) (tries_loop ops written options sent i))
          (await-silent 1 options sent (d.txid + 1) response_ok e' h))
    ∙ ap (λ b. finish b response_ok none (idle e')) (single options)
  where
    flush :
        (d : Device) → (if d.txnest == 0 then record (idle d) { queue = [] } else idle d) ≡ idle d
    flush d = if_cases {A = Device} (λ f. f ≡ idle d) (d.txnest == 0) _ _ (λ e. refl) (λ e. refl)

    single : (options : SendOpts) → (number_of_tries options - 1 == 0) ≡ (options.tries == 1)
    single options = ground arith

-- A command that the buffer holds is sent as it is framed.
pub communicate-framed :
    (ops : Nested) (written : ℕ → Bool) (options : SendOpts) (command sent : List ℕ) (d : Device)
    → frame_command d options command ≡ some sent
    → communicate ops written options command d ≡ transact ops written options sent d
unfolding communicate if_framed
communicate-framed ops written options command sent d e = rw (e) refl
