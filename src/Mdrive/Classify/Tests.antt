-- ===== src/Mdrive/Classify/Tests.antt =====
-- The classification of drivers/mdrive/serial.c for small responses, with nested operations that
-- leave the device as it is.
use mcontrol.Base.{◌≡◌, refl, ◌⊎◌, true, false, []}
use mcontrol.Mdrive.Response.{Response, blank}
use mcontrol.Mdrive.Classify.{Device, Nested, response_ok, classify_response, checksum_part, settle}
use mcontrol.Mdrive.Classify.Laws.{IsCleanAck, IsStall, IsPrompt, classify_response-ok}

abbrev pub quiet_ops : Nested
quiet_ops = record {
  after_reboot = λ d. d;
  get_error = λ d. (0, d);
  clear_error = λ d. d;
  signal_error = λ code d. d;
}

abbrev pub unit_a : Device
unit_a = record {
  checksum = 1;
  echo = 1;
  address = b'a';
  party_mode = true;
  ignore_errors = false;
  txnest = 0;
  txid = 0;
  queue = [];
  arrivals = [];
  tx = 0;
  txbytes = 0;
  rx = 0;
  rxbytes = 0;
  acks = 0;
  nacks = 0;
  timeouts = 0;
  resends = 0;
  overflows = 0;
  bad_checksums = 0;
  reboots = 0;
}

abbrev clean : Response
clean = record blank { ack = true }

abbrev noisy : Response
noisy = record blank { ack = true; length = 2 }

clean_ok : (classify_response quiet_ops unit_a clean).0 ≡ response_ok
unfolding classify_response checksum_part settle
clean_ok = refl

classify_response-ok_example :
    IsCleanAck unit_a clean
    ⊎ (IsStall (classify_response quiet_ops unit_a clean).1.1 ⊎ IsPrompt unit_a clean)
classify_response-ok_example = classify_response-ok quiet_ops unit_a clean clean_ok
