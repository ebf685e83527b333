-- ===== src/Mdrive/Motion/Tests.antt =====
-- Moves, conversions and profiles at concrete inputs: a unit of 51200 steps to the revolution.
use mcontrol.Base.{◌/◌, ◌%◌, ◌≡◌, refl, ◌≢◌, true, false, [], arith, pos, negsuc, ◌*ℤ◌, ◌/ℤ◌, eio}
use mcontrol.Motor.{blank_profile}
use mcontrol.Mdrive.Classify.{Device, response_ok, response_timeout}
use mcontrol.Mdrive.Dialogue.{Transmit, get_integers}
use mcontrol.Mdrive.Axis.{
  Axis, slew, lazyload_motion_config, steps_of, microrevs_of, microrevs_to_steps,
  steps_to_microrevs,
}
use mcontrol.Mdrive.Axis.Conversion.{LosesStep, microrevs_to_steps-steps_to_microrevs}
use mcontrol.Mdrive.Motion.{resting, mcestop, stop, packed}
use mcontrol.Mdrive.Motion.Stopping.{IsAtRest, stop-IsAtRest, stop-mcestop}
use mcontrol.Mdrive.Motion.Packing.{packed_lem}

abbrev unit_b : Device
unit_b = record {
  checksum = 1;
  echo = 1;
  address = b'b';
  party_mode = true;
  ignore_errors = false;
  txnest = 0;
  txid = 5;
  queue = [];
  arrivals = [];
  tx = 0;
  txbytes = 0;
  rx = 0;
  rxbytes = 0;
  acks = 0;
  nacks = 0;
  timeouts = 0;
  resends = 0;
  overflows = 0;
  bad_checksums = 0;
  reboots = 0;
}

abbrev axis : Axis
axis = record {
  device = unit_b;
  steps_per_rev = pos 51200;
  encoder = pos 0;
  position = pos 7;
  drive_enabled = pos 1;
  profile = blank_profile;
  movement = resting;
  cb_complete = 0;
  completion = false;
  event_handlers = [];
  cancelled = [];
  signalled = [];
  loaded_profile = true;
  loaded_encoder = true;
  loaded_enabled = true;
  feature_move = false;
  label_move = [];
}

-- A unit that takes every command, and one that takes none.
abbrev obeys : Transmit
obeys options command d = (response_ok, ([], d))

abbrev silent : Transmit
silent options command d = (response_timeout, ([], d))

one_step : steps_of 51200 (microrevs_of 51200 (negsuc 6)) ≡ negsuc 5
unfolding ◌*ℤ◌ ◌/ℤ◌
one_step = refl

microrevs_to_steps-steps_to_microrevs_example :
    let there = steps_to_microrevs silent (pos 1000) axis in
    let back = microrevs_to_steps silent there.0 there.1 in
    LosesStep (pos 1000) back.0 × (back.1 ≡ axis)
microrevs_to_steps-steps_to_microrevs_example =
    microrevs_to_steps-steps_to_microrevs silent (pos 1000) axis refl (omega arith, omega arith)
      (omega arith) (omega arith)

abbrev unread : Axis
unread = record axis { loaded_encoder = false }

unread_config : (lazyload_motion_config silent unread).0 ≡ eio
unfolding lazyload_motion_config get_integers
unread_config = refl

stop-IsAtRest_example :
    let u : Axis = record axis { completion = true; cb_complete = 4 } in
    IsAtRest u (stop obeys mcestop u).1
stop-IsAtRest_example =
    stop-IsAtRest obeys mcestop (record axis { completion = true; cb_complete = 4 })

emergency : (stop obeys mcestop axis).0 ≢ 0
emergency = stop-mcestop obeys axis

unpacked_three : (packed 3 5 1 % 8 ≡ 3) × (packed 3 5 1 / 8 % 8 ≡ 5) × (packed 3 5 1 / 64 ≡ 1)
unpacked_three = packed_lem slew 3 5 1 refl
