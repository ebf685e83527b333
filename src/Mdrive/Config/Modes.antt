-- ===== src/Mdrive/Config/Modes.antt =====
-- drivers/mdrive/config.c: after mdrive_set_checksum and mdrive_set_echo the driver's idea of a mode
-- goes with their result.
use mcontrol.Base.{ℕ, ◌≡◌, Bool, List, arith, if◌then◌else◌, ascii, ℤ, pos}
use mcontrol.Mdrive.Classify.{Device}
use mcontrol.Mdrive.Transaction.{SendOpts}
use mcontrol.Mdrive.Dialogue.{Transmit, send_text, set_variable, set_variable_string}
use mcontrol.Mdrive.Config.{set_checksum, set_echo}

-- Whatever the line does, also if it changes the device: mdrive_set_checksum that succeeds leaves
-- the device with the mode that was asked for, and one that fails leaves the mode as it was.
pub set_checksum_lem :
    (transmit : Transmit) (mode : ℕ) (force : Bool) (d : Device)
    → let r = set_checksum transmit mode force d in
      r.1.checksum ≡ (if r.0 then mode else d.checksum)
unfolding set_checksum
set_checksum_lem transmit mode force d = ground arith

-- A line on which no transaction changes the driver's idea of the echo mode.
unfoldable pub KeepsEcho : Transmit → Type 0
KeepsEcho transmit =
    (options : SendOpts) (command : List ℕ) (d : Device)
    → (transmit options command d).1.1.echo ≡ d.echo

variable-KeepsEcho :
    (transmit : Transmit) (variable : List ℕ) (value : ℤ) (d : Device)
    → KeepsEcho transmit
    → (set_variable transmit variable value d).1.echo ≡ d.echo
unfolding KeepsEcho set_variable set_variable_string send_text
variable-KeepsEcho transmit variable value d h = h _ _ d

-- The same of mdrive_set_echo, on a line on which no transaction changes the echo mode.
pub set_echo_lem :
    (transmit : Transmit) (mode : ℕ) (force : Bool) (d : Device)
    → KeepsEcho transmit
    → let r = set_echo transmit mode force d in r.1.echo ≡ (if r.0 then mode else d.echo)
unfolding set_echo
set_echo_lem transmit mode force d h =
    let k = variable-KeepsEcho transmit (ascii "EM") (pos mode) (record d { echo = mode }) h in
    ground (arith, k)
