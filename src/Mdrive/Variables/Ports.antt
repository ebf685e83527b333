-- ===== src/Mdrive/Variables/Ports.antt =====
-- drivers/mdrive/query.c: mdrive_io_poke, which configures an I/O port of the unit.
pub mod Lost
use mcontrol.Base.{
  ℕ, ◌-◌, Bool, true, false, not, ◌&&◌, ◌||◌, Option, none, some, List, [], ◌∷◌, ◌++◌, ltb, ◌==◌,
  if◌then◌else◌, get_or, ascii, print_int, ℤ, pos, wrap32, pos_part, eqb_ℤ, einval, enotsup,
}
use mcontrol.Mdrive.Classify.{Device, ResponseClass}
use mcontrol.Mdrive.Transaction.{SendOpts}
use mcontrol.Mdrive.Dialogue.{Transmit, asking}
use mcontrol.Mdrive.Axis.{Axis}
use mcontrol.Mdrive.Variables.{Name, io_type, io_parm1, io_parm2, Query, send_or_eio}

-- struct mdrive_io_config; the type by its number.
pub record IoConfig : Type 0 where
  pub type : ℤ
  pub output : Bool
  pub active_high : Bool
  pub source : Bool
  pub wide_range : Bool

-- mdrive_lazyload_io: `loaded.io` is never set, and the response is not used.
pub lazyload_io : Transmit → Axis → ℕ × Axis
unfolding send_or_eio
lazyload_io transmit u =
    let (class, (result, d)) =
      transmit asking (ascii "PR S1,\":\",S2,\":\",S3,\":\",S4,\":\",S5") u.device in
    (0, record u { device = d })

abbrev pub member : ℤ → List ℕ → Bool
member z [] = false
member z (n ∷ ns) = eqb_ℤ z (pos n) || member z ns

-- The numbers of enum mdrive_io_type: the analog ones, the outputs, and the inputs with the reset.
abbrev pub analog_types : List ℕ
analog_types = 9 ∷ 10 ∷ []

abbrev pub output_types : List ℕ
output_types = 16 ∷ 17 ∷ 18 ∷ 19 ∷ 20 ∷ 23 ∷ []

abbrev pub input_types : List ℕ
input_types = 0 ∷ 1 ∷ 2 ∷ 3 ∷ 4 ∷ 5 ∷ 6 ∷ 7 ∷ 8 ∷ 11 ∷ []

-- `(bool) value`
abbrev pub truth : ℤ → Bool
truth z = not (eqb_ℤ z (pos 0))

-- The switch: the changed copy of the configuration, or EINVAL.
pub changed : Name → ℕ → ℤ → IoConfig → Option IoConfig
changed io_type port value io =
    if port == 5
    then if member value analog_types then some (record io { type = value }) else none
    else if member value output_types
    then some (record io { type = value; output = true })
    else if member value input_types
    then some (record io { type = value })
    else none
changed io_parm1 port value io = some (
    if eqb_ℤ value (pos 5)
    then record io { wide_range = truth value }
    else record io { active_high = truth value })
changed io_parm2 port value io =
    if eqb_ℤ value (pos 5) then none else some (record io { source = truth value })
changed _ port value io = none

abbrev pub flag : Bool → List ℕ
flag b = if b then ascii "1" else ascii "0"

-- The command for the unit.
abbrev pub io_command : ℕ → IoConfig → List ℕ
io_command port io =
    if port == 5
    then ascii "S"
      ++ print_int (pos port)
      ++ ascii "="
      ++ print_int io.type
      ++ ascii ","
      ++ flag io.wide_range
    else ascii "S"
      ++ print_int (pos port)
      ++ ascii "="
      ++ print_int io.type
      ++ ascii ","
      ++ flag io.active_high
      ++ ascii ","
      ++ flag io.source

-- The configuration is sent, unless the type of the analog port is not set.
pub send_io : Transmit → ℕ → Option IoConfig → Axis → ℕ × Axis
unfolding send_or_eio
send_io transmit port none u = (einval, u)
send_io transmit port (some io) u =
    if port == 5 && eqb_ℤ io.type (pos 0)
    then (0, u)
    else send_or_eio transmit (io_command port io) u

abbrev pub blank_io : IoConfig
blank_io = record {
  type = pos 0;
  output = false;
  active_high = false;
  source = false;
  wide_range = false;
}

-- The port of the argument, from 1 to 5.
abbrev pub port_of : ℤ → ℕ
port_of z = pos_part (wrap32 z)

-- mdrive_io_poke, with `device->io`: the status, the configurations after it, and the axis.
pub io_poke : Transmit → Query → List IoConfig → Axis → ℕ × (List IoConfig × Axis)
unfolding lazyload_io changed send_io
io_poke transmit q ios u =
    let port = port_of q.arg_number in
    let u' = (lazyload_io transmit u).1 in
    let io = changed q.query port q.number (get_or ios (port - 1) blank_io) in
    let (status, sent) = send_io transmit port io u' in
    if ltb port 1
    then (einval, (ios, u))
    else if ltb 5 port
    then (enotsup, (ios, u))
    else (status, (ios, sent))
