-- ===== src/Requests/Tests.antt =====
-- Requests at concrete inputs: the connection 3 of the process 10 to the driver 1.
use mcontrol.Base.{ℕ, ◌≡◌, refl, ◌≢◌, true, false, none, some, List, [], ◌∷◌, arith, ℤ, pos, ◌*ℤ◌}
use mcontrol.Motor.{
  Motor, Profile, OpProfile, blank_motor, blank_profile, find_motor_by_id, update_motor,
}
use mcontrol.Locks.{driver_lock}
use mcontrol.Requests.Locking.{motor_lock-asked}
use mcontrol.Mdrive.Classify.{Device, response_ok}
use mcontrol.Mdrive.Dialogue.{Transmit}
use mcontrol.Mdrive.Axis.{Axis, no_move}
use mcontrol.Requests.{Entries, Running, World, driver_of, find_running, revs, motor_lock}
use mcontrol.Requests.Units.{Floats}
use mcontrol.Requests.Units.Laws.{distance_to_microrevs_lem}
use mcontrol.Requests.Profiles.{profile_set}
use mcontrol.Requests.Profiles.Converted.{AllConverted, profile_set-AllConverted}
use mcontrol.Requests.Safety.{asked, relatively, mdrive_entries}

-- Whole numbers in place of floating point.
abbrev pub whole : Floats ℤ
whole = record {
  of_integer = λ z. z;
  times = λ a b. a *ℤ b;
  over = λ a b. a;
  truncated = λ z. z;
  scale = λ row. pos 1;
}

-- The units are millimeters, of 1000 micro-revolutions.
abbrev pub mm : OpProfile
mm = record { units = 5; scale = pos 1000 }

abbrev pub motor : Motor
motor = record blank_motor {
  id = 3;
  client_pid = 10;
  active = true;
  driver = some 1;
  op_profile = mm;
}

-- A driver whose state is the last amount that it was told to move by.
abbrev pub entries : Entries ℤ
entries = record { move = some (λ c s. (0, c.amount)); stop = none; home = none }

abbrev pub driver : List ℕ → Running ℤ
driver locks = record { id = 1; locks = locks; entries = entries; state = pos 0 }

abbrev pub world : List ℕ → World ℤ
world locks = record { motor_list = motor ∷ []; drivers = driver locks ∷ [] }

pub found : find_motor_by_id 3 10 (motor ∷ []) ≡ some motor
unfolding find_motor_by_id
found = refl

pub driver_found : (locks : List ℕ) → driver_of motor (world locks) ≡ some (driver locks)
unfolding driver_of find_running
driver_found locks = refl

five_mm : revs whole motor (pos 5) 0 ≡ (0, some (pos 5000))
unfolding revs ◌*ℤ◌
five_mm = distance_to_microrevs_lem whole mm (pos 5) (omega arith) (omega arith) refl refl

profile_set-AllConverted_example :
    (p' : Profile) × ((profile_set whole 3 10 (world []) blank_profile).1.motor_list
      ≡ update_motor 3 10 (λ x. record x { profile = p' }) (motor ∷ []))
    × ((profile_set whole 3 10 (world []) blank_profile).0 ≡ 0
        → AllConverted whole motor.op_profile blank_profile p')
profile_set-AllConverted_example =
    profile_set-AllConverted whole 3 10 (world []) blank_profile motor found

abbrev obeys : Transmit
obeys options command d = (response_ok, ([], d))

abbrev pub unit_b : Device
unit_b = record {
  checksum = 1;
  echo = 1;
  address = b'b';
  party_mode = true;
  ignore_errors = false;
  txnest = 0;
  txid = 5;
  queue = [];
  arrivals = [];
  tx = 0;
  txbytes = 0;
  rx = 0;
  rxbytes = 0;
  acks = 0;
  nacks = 0;
  timeouts = 0;
  resends = 0;
  overflows = 0;
  bad_checksums = 0;
  reboots = 0;
}

abbrev pub axis : Axis
axis = record {
  device = unit_b;
  steps_per_rev = pos 51200;
  encoder = pos 0;
  position = pos 7;
  drive_enabled = pos 1;
  profile = blank_profile;
  movement = record { pstart = pos 0; type = no_move; urevs = pos 0; moving = false };
  cb_complete = 0;
  completion = false;
  event_handlers = [];
  cancelled = [];
  signalled = [];
  loaded_profile = true;
  loaded_encoder = true;
  loaded_enabled = true;
  feature_move = false;
  label_move = [];
}

abbrev mdrive : Running Axis
mdrive = record { id = 1; locks = 0 ∷ []; entries = mdrive_entries obeys 1; state = axis }

abbrev mdrives : World Axis
mdrives = record { motor_list = motor ∷ []; drivers = mdrive ∷ [] }

mdrive_found : driver_of motor mdrives ≡ some mdrive
unfolding driver_of find_running
mdrive_found = refl

abbrev locked_once : List ℕ
locked_once = 3 ∷ 0 ∷ []

locks_once : driver_lock (0 ∷ 0 ∷ []) 3 ≡ some (0, locked_once)
unfolding driver_lock
locks_once = refl

motor_lock-asked_example :
    (w' : World ℤ) × (error : ℕ) × (motor_lock 3 10 (world (0 ∷ 0 ∷ [])) 3 ≡ some (0, w'))
    × (error ≢ 0)
    × (asked whole 3 10 w' (relatively (pos 5)) ≡ some (error, w'))
motor_lock-asked_example =
    motor_lock-asked whole 3 10 3 (world (0 ∷ 0 ∷ [])) motor (driver (0 ∷ 0 ∷ [])) 0 locked_once 3
      10 motor (relatively (pos 5)) found (driver_found (0 ∷ 0 ∷ [])) (omega arith) locks_once found
      refl
