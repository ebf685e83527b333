-- ===== src/Mdrive/Config/Tests.antt =====
-- The settings of a unit at concrete inputs: it has no checksums and the echo mode 1.
use mcontrol.Base.{◌≡◌, refl, true, false, [], if◌then◌else◌}
use mcontrol.Mdrive.Classify.{Device, response_timeout}
use mcontrol.Mdrive.Dialogue.{Transmit}
use mcontrol.Mdrive.Config.{set_echo}
use mcontrol.Mdrive.Config.Modes.{KeepsEcho, set_echo_lem}

abbrev unit_b : Device
unit_b = record {
  checksum = 1;
  echo = 2;
  address = b'b';
  party_mode = true;
  ignore_errors = false;
  txnest = 0;
  txid = 5;
  queue = [];
  arrivals = [];
  tx = 0;
  txbytes = 0;
  rx = 0;
  rxbytes = 0;
  acks = 0;
  nacks = 0;
  timeouts = 0;
  resends = 0;
  overflows = 0;
  bad_checksums = 0;
  reboots = 0;
}

-- A line with no unit.
abbrev empty_line : Transmit
empty_line options command d = (response_timeout, ([], d))

empty_line-KeepsEcho : KeepsEcho empty_line
unfolding KeepsEcho
empty_line-KeepsEcho options command d = refl

echo_failed : let r = set_echo empty_line 1 true unit_b in r.1.echo ≡ (if r.0 then 1 else 2)
echo_failed = set_echo_lem empty_line 1 true unit_b empty_line-KeepsEcho
