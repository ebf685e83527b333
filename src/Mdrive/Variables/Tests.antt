-- ===== src/Mdrive/Variables/Tests.antt =====
-- Variables at concrete inputs.
use mcontrol.Base.{◌≡◌, true, false, List, [], replicate, print_int, pos, negsuc, einval, enotsup}
use mcontrol.Motor.{blank_profile}
use mcontrol.Mdrive.Classify.{Device, response_ok, response_timeout}
use mcontrol.Mdrive.Dialogue.{Transmit}
use mcontrol.Mdrive.Axis.{Axis, no_move}
use mcontrol.Mdrive.Variables.{
  Name, position, deadband, io_type, io_parm1, Query, Handler, read_variable,
}
use mcontrol.Mdrive.Variables.Reading.{read_variable-deadband}
use mcontrol.Mdrive.Variables.Ports.{IoConfig, blank_io}

abbrev unit_b : Device
unit_b = record {
  checksum = 1;
  echo = 1;
  address = b'b';
  party_mode = true;
  ignore_errors = false;
  txnest = 0;
  txid = 5;
  queue = [];
  arrivals = [];
  tx = 0;
  txbytes = 0;
  rx = 0;
  rxbytes = 0;
  acks = 0;
  nacks = 0;
  timeouts = 0;
  resends = 0;
  overflows = 0;
  bad_checksums = 0;
  reboots = 0;
}

abbrev axis : Axis
axis = record {
  device = unit_b;
  steps_per_rev = pos 51200;
  encoder = pos 0;
  position = pos 7;
  drive_enabled = pos 1;
  profile = blank_profile;
  movement = record { pstart = pos 0; type = no_move; urevs = pos 0; moving = false };
  cb_complete = 0;
  completion = false;
  event_handlers = [];
  cancelled = [];
  signalled = [];
  loaded_profile = true;
  loaded_encoder = true;
  loaded_enabled = true;
  feature_move = false;
  label_move = [];
}

abbrev query : Query
query = record {
  query = position;
  number = pos 0;
  string = [];
  size = 0;
  arg_number = pos 1;
  arg_string = [];
}

abbrev no_others : Name → Handler
no_others n q u = (enotsup, (q, u))

-- Units that print -40 for all, and that are silent.
abbrev prints : Transmit
prints options command d = (response_ok, (print_int (negsuc 39), d))

abbrev silent : Transmit
silent options command d = (response_timeout, ([], d))

no_deadband : (read_variable prints no_others (record query { query = deadband }) axis).0 ≡ einval
no_deadband = read_variable-deadband prints no_others query axis

abbrev ports : List IoConfig
ports = replicate 5 blank_io

-- Port 1 active high, then an output.
abbrev parameter : Query
parameter = record query { query = io_parm1; number = pos 1 }

abbrev type : Query
type = record query { query = io_type; number = pos 16 }
