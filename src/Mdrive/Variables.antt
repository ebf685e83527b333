-- ===== src/Mdrive/Variables.antt =====
-- drivers/mdrive/query.c: the table of the variables that a client can read and write, and what
-- reading and writing comes to. The entries that deal with baud rates, names, the firmware's upgrade
-- mode and factory defaults, and those that copy a text of the unit, are arguments. The pointers are
-- not null.
pub mod Reading
pub mod Ports
mod Tests
use mcontrol.Base.{
  ℕ, zero, suc, ◌%◌, ◌^◌, Bool, true, false, Option, none, some, List, [], ◌++◌, ltb, ◌==◌,
  if◌then◌else◌, of_bool, ascii, fit, print_int, ℤ, pos, wrap32, pos_part, unsigned64, signed64,
  eqb_ℤ, eio, einval, enotsup,
}
pub use mcontrol.Motor.{
  Name, position, velocity, accelerating, moving, stalled, input, output, accel, decel, vmax,
  vinitial, deadband, run_current, hold_current, slip_max, encoder, variable, execute, io_type,
  io_parm1, io_parm2, serial, part, firmware, microcode, baudrate, checksum, echo, ug_mode, address,
  name, reset, hard_reset, Query,
}
use mcontrol.Mdrive.Classify.{Device, ResponseClass}
use mcontrol.Mdrive.Transaction.{is_ok}
use mcontrol.Mdrive.Dialogue.{Transmit, send_text, asking, get_integer, get_string}
use mcontrol.Mdrive.Config.{set_checksum}
use mcontrol.Mdrive.Axis.{returned, Axis, microrevs_to_steps, steps_to_microrevs}
use mcontrol.Mdrive.Profile.{lazyload_profile}

-- The functions of the table, by their names; `none` is a null pointer.
pub data Peek : Type 0 where
  profile_peek var_peek other_peek : Peek

pub data Poke : Type 0 where
  write_simple ee_poke var_poke ex_poke io_poke checksum_poke other_poke : Poke

-- struct query_variable, less the name.
pub record Entry : Type 0 where
  pub type : ℕ
  pub variable : List ℕ
  pub read : Option Peek
  pub write : Option Poke

abbrev entry : ℕ → List ℕ → Option Peek → Option Poke → Entry
entry t v r w = record { type = t; variable = v; read = r; write = w }

-- query_xref; a name that is not in it has the entry that ends it.
unfoldable pub query_xref : Name → Entry
query_xref position = entry 9 (ascii "P") none (some write_simple)
query_xref velocity = entry 9 (ascii "V") none none
query_xref accelerating = entry 1 (ascii "VC") none none
query_xref moving = entry 1 (ascii "MV") none none
query_xref stalled = entry 1 (ascii "ST") none (some write_simple)
query_xref input = entry 3 (ascii "I") none none
query_xref output = entry 19 (ascii "O") none (some write_simple)
query_xref accel = entry 5 [] (some profile_peek) none
query_xref decel = entry 5 [] (some profile_peek) none
query_xref vmax = entry 5 [] (some profile_peek) none
query_xref vinitial = entry 5 [] (some profile_peek) none
query_xref deadband = entry 5 [] (some profile_peek) none
query_xref run_current = entry 5 [] (some profile_peek) none
query_xref hold_current = entry 5 [] (some profile_peek) none
query_xref slip_max = entry 5 [] (some profile_peek) none
query_xref encoder = entry 1 (ascii "EE") none (some ee_poke)
query_xref variable = entry 1 [] (some var_peek) (some var_poke)
query_xref execute = entry 20 [] none (some ex_poke)
query_xref io_type = entry 4 (ascii "S") none (some io_poke)
query_xref io_parm1 = entry 4 (ascii "S") none (some io_poke)
query_xref io_parm2 = entry 4 (ascii "S") none (some io_poke)
query_xref serial = entry 5 (ascii "SN") (some other_peek) none
query_xref part = entry 5 (ascii "PN") (some other_peek) none
query_xref firmware = entry 5 (ascii "VR") (some other_peek) none
query_xref microcode = entry 2 (ascii "AA") none none
query_xref baudrate = entry 5 (ascii "BD") (some other_peek) (some other_poke)
query_xref checksum = entry 1 (ascii "CK") none (some checksum_poke)
query_xref echo = entry 1 (ascii "EM") none none
query_xref ug_mode = entry 5 (ascii "UG") (some other_peek) none
query_xref address = entry 2 (ascii "DN") none (some other_poke)
query_xref name = entry 6 [] none (some other_poke)
query_xref reset = entry 6 [] none none
query_xref hard_reset = entry 6 (ascii "FD") none (some other_poke)

abbrev pub Handler : Type 0
Handler = Query → Axis → ℕ × (Query × Axis)

-- mdrive_profile_peek: the value of the profile, where the switch has the name.
pub profile_value : Name → Axis → Option ℕ
profile_value accel u = some u.profile.accel.value
profile_value decel u = some u.profile.decel.value
profile_value vinitial u = some u.profile.vstart.value
profile_value vmax u = some u.profile.vmax.value
profile_value run_current u = some u.profile.current_run
profile_value hold_current u = some u.profile.current_hold
profile_value slip_max u = some u.profile.slip_max.value
profile_value _ u = none

pub peeked : Query → Axis → Option ℕ → ℕ × (Query × Axis)
peeked q u none = (einval, (q, u))
peeked q u (some n) = (0, (record q { number = signed64 n }, u))

pub peek_profile : Transmit → Handler
unfolding peeked profile_value
peek_profile transmit q u =
    let u' = (lazyload_profile transmit u).1 in peeked q u' (profile_value q.query u')

abbrev pub or_zero : Option ℤ → ℤ
or_zero none = pos 0
or_zero (some z) = z

-- An integer of the unit as the value; mdrive_var_peek and the types 1 and 3.
pub read_integer : Transmit → List ℕ → Handler
read_integer transmit v q u =
    let (status, (value, d)) = get_integer transmit v u.device in
    let u' = returned d u in
    if status == 0 then (0, (record q { number = or_zero value }, u')) else (eio, (q, u'))

-- The type 9: an integer in steps.
pub integer_result : Transmit → ℕ × (Query × Axis) → ℕ × (Query × Axis)
integer_result transmit (zero, (q, u)) =
    let (urevs, u') = steps_to_microrevs transmit q.number u in
    (0, (record q { number = urevs }, u'))
integer_result transmit (suc status, (q, u)) = (suc status, (q, u))

-- The type 2: a text. Its size is an unsigned short, also where mdrive_get_string returns an error.
abbrev pub size_of : ℤ → ℕ
size_of z = unsigned64 z % 2 ^ 16

abbrev pub or_text : List ℕ → Option (List ℕ) → List ℕ
or_text s none = s
or_text s (some t) = t

pub read_string : Transmit → List ℕ → Handler
read_string transmit v q u =
    let (size, (value, d)) = get_string transmit v 32 u.device in
    let n = size_of size in
    (
      if ltb 0 n then 0 else eio,
      (record q { string = or_text q.string value; size = n }, returned d u),
    )

pub read_by_peek : Transmit → (Name → Handler) → Option Peek → Handler
unfolding peek_profile read_integer
read_by_peek transmit others none q u = (enotsup, (q, u))
read_by_peek transmit others (some profile_peek) q u = peek_profile transmit q u
read_by_peek transmit others (some var_peek) q u = read_integer transmit q.arg_string q u
read_by_peek transmit others (some other_peek) q u = others q.query q u

-- The switch of mdrive_read_variable.
pub read_entry : Transmit → (Name → Handler) → Entry → Handler
unfolding read_integer integer_result read_string read_by_peek
read_entry transmit others e q u =
    if e.type == 1
    then read_integer transmit e.variable q u
    else if e.type == 9
    then integer_result transmit (read_integer transmit e.variable q u)
    else if e.type == 2
    then read_string transmit e.variable q u
    else if e.type == 3
    then read_integer transmit (fit 4 (e.variable ++ print_int q.arg_number)) q u
    else if e.type == 5
    then read_by_peek transmit others e.read q u
    else (enotsup, (q, u))

-- mdrive_read_variable
pub read_variable : Transmit → (Name → Handler) → Handler
unfolding read_entry query_xref
read_variable transmit others q u = read_entry transmit others (query_xref q.query) q u

-- A command whose failure is EIO.
pub send_or_eio : Transmit → List ℕ → Axis → ℕ × Axis
send_or_eio transmit command u =
    let (class, d) = send_text transmit command u.device in
    (if is_ok class then 0 else eio, returned d u)

abbrev pub is_position : Name → Bool
is_position position = true
is_position _ = false

-- mdrive_write_simple; the commands are cut off at 15 characters.
pub write_by_type : Transmit → Entry → Query → Axis → ℕ × Axis
unfolding send_or_eio
write_by_type transmit e q u =
    let type = e.type % 16 in
    let (steps, u') = microrevs_to_steps transmit (wrap32 q.number) u in
    let u'' : Axis = if is_position q.query then record u' { position = steps } else u' in
    if type == 9
    then send_or_eio transmit (fit 16 (e.variable ++ ascii "=" ++ print_int steps)) u''
    else if type == 1
    then send_or_eio transmit (fit 16 (e.variable ++ ascii "=" ++ print_int (wrap32 q.number))) u
    else if type == 2
    then send_or_eio transmit (fit 16 (e.variable ++ ascii "=" ++ q.string)) u
    else if type == 3
    then send_or_eio transmit
        (fit 16 (fit 16 (e.variable ++ print_int q.arg_number) ++ ascii "=" ++ print_int q.number))
        u
    else (enotsup, u)

-- mdrive_ee_poke
pub poke_encoder : Transmit → Entry → Query → Axis → ℕ × Axis
unfolding write_by_type
poke_encoder transmit e q u =
    let (status, u') = write_by_type transmit e q u in
    if eqb_ℤ u.encoder q.number
    then (0, u)
    else if status == 0
    then (
      0,
      record u' { loaded_encoder = false; loaded_profile = false; encoder = wrap32 q.number },
    )
    else (status, u')

-- mdrive_checksum_poke returns the truth value of mdrive_set_checksum as its status.
pub poke_checksum : Transmit → Query → Axis → ℕ × Axis
poke_checksum transmit q u =
    let (ok, d) = set_checksum transmit (pos_part q.number) false u.device in
    (of_bool ok, record u { device = d })
