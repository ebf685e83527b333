-- ===== src/Mdrive/Transaction/Tests.antt =====
-- Transactions of drivers/mdrive/serial.c with a unit that is silent, and with one that answers
-- late.
use mcontrol.Base.{ℕ, ◌≡◌, refl, true, false, List, [], ◌∷◌, ltb, replicate}
use mcontrol.Mdrive.Response.{Response, blank}
use mcontrol.Mdrive.Classify.{Device, Nested}
use mcontrol.Mdrive.Transaction.{SendOpts, transact}
use mcontrol.Mdrive.Classify.{combined, put, text, same}
use mcontrol.Mdrive.Transaction.Fuel.{ended, transact_total}
use mcontrol.Mdrive.Transaction.Laws.{sent_once}
use mcontrol.Mdrive.Transaction.Stale.{expects}

abbrev ops : Nested
ops = record {
  after_reboot = λ d. d;
  get_error = λ d. (0, d);
  clear_error = λ d. d;
  signal_error = λ code d. d;
}

abbrev unit_b : Device
unit_b = record {
  checksum = 0;
  echo = 1;
  address = b'b';
  party_mode = true;
  ignore_errors = false;
  txnest = 0;
  txid = 5;
  queue = [];
  arrivals = [];
  tx = 0;
  txbytes = 0;
  rx = 0;
  rxbytes = 0;
  acks = 0;
  nacks = 0;
  timeouts = 0;
  resends = 0;
  overflows = 0;
  bad_checksums = 0;
  reboots = 0;
}

abbrev quiet_unit : Device
quiet_unit = record unit_b { echo = 2 }

abbrev plain_send : SendOpts
plain_send = record { expect_data = false; expect_err = false; raw = false; tries = 0 }

abbrev once : SendOpts
once = record { expect_data = false; expect_err = false; raw = false; tries = 1 }

abbrev bytes : List ℕ
bytes = b'b' ∷ b'S' ∷ b'T' ∷ 10 ∷ []

-- A response with the id 0.
abbrev late : Response
late = record blank { crlf = true }

transact_total_example : ended (transact ops (λ n. true) plain_send bytes unit_b) ≡ true
transact_total_example = transact_total ops (λ n. true) plain_send bytes unit_b

abbrev checked_unit : Device
checked_unit = record unit_b { checksum = 1 }

abbrev query : SendOpts
query = record { expect_data = true; expect_err = false; raw = false; tries = 0 }

abbrev ack : Response
ack = record blank { ack = true; txid = 6 }

abbrev payload : Response
payload = record blank {
  buffer = b'7' ∷ replicate 63 0;
  length = 1;
  checksum_good = true;
  crlf = true;
  txid = 6;
}

abbrev sent_checked : Device
sent_checked = expects [] (sent_once 4 (record checked_unit { txnest = 1 }))

whole_length : (combined ack payload).length ≡ 1
unfolding combined put text
whole_length = refl

whole_good : (combined ack payload).checksum_good ≡ true
unfolding combined
whole_good = refl

whole_ack : (combined ack payload).ack ≡ true
unfolding combined
whole_ack = refl

whole_clean : same (ltb 0 (combined ack payload).length) (combined ack payload).checksum_good ≡ true
whole_clean = rw whole_length (rw whole_good refl)
