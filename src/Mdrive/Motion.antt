-- ===== src/Mdrive/Motion.antt =====
-- drivers/mdrive/motion.c: the driver's entries for moves, stops and homing. The estimate of the end
-- of a move, which uses floating point, is left out: the callback that is scheduled for it is its id,
-- which mcCallbackAbs returns and which is an argument. `self` is not null.
pub mod Stopping
pub mod Packing
pub mod Slewing
mod Tests
use mcontrol.Base.{
  ℕ, zero, suc, ◌+◌, ◌*◌, ◌%◌, ◌^◌, Bool, true, false, not, ◌&&◌, Option, none, some, List, [], ◌∷◌,
  ◌++◌, map, ◌==◌, if◌then◌else◌, ascii, print_int, ℤ, pos, wrap32, eqb_ℤ, ◌-ℤ◌, eio, ebusy,
  enotsup,
}
use mcontrol.Motor.{Profile}
pub use mcontrol.Motor.{
  Instruction, StopType, mcstop, mchalt, mcestop, HomeType, homedef, homestop, homemid, homenear,
  homefar,
}
use mcontrol.Mdrive.Classify.{
  Device, ResponseClass, response_ok, response_retry, response_error, response_nack,
  response_bad_checksum, response_unknown, response_timeout, response_ioerror,
}
use mcontrol.Mdrive.Transaction.{is_ok}
use mcontrol.Mdrive.Subscribers.{signal_event}
use mcontrol.Mdrive.Dialogue.{Transmit, send_text, set_variable}
use mcontrol.Mdrive.Axis.{
  Axis, Movement, MoveType, no_move, absolute, relative, slew, jitter, microrevs_to_steps,
  steps_to_microrevs,
}
use mcontrol.Mdrive.Profile.{set_profile}

abbrev pub ev_motion : ℕ
ev_motion = 1

-- mdrive_drive_enable: `drive_enabled` stays as it was.
pub drive_enable : Transmit → Axis → ℕ × Axis
drive_enable transmit u =
    let (ok, d) = set_variable transmit (ascii "DE") (pos 1) u.device in
    if not (eqb_ℤ u.drive_enabled (pos 0))
    then (0, u)
    else (if ok then 0 else eio, record u { device = d })

-- mdrive_drive_disable
pub drive_disable : Transmit → Axis → ℕ × Axis
drive_disable transmit u =
    let (ok, d) = set_variable transmit (ascii "DE") (pos 0) u.device in
    if eqb_ℤ u.drive_enabled (pos 0)
    then (0, u)
    else (if ok then 0 else eio, record u { device = d })

-- mdrive_async_complete, which schedules a callback unless one is due.
pub async_complete : ℕ → Axis → ℕ × Axis
async_complete callback u =
    if u.completion then (ebusy, u) else (0, record u { cb_complete = callback; completion = true })

-- mdrive_async_complete_cancel
pub async_complete_cancel : Axis → Axis
async_complete_cancel u =
    let (called, handlers) = signal_event ev_motion u.event_handlers in
    if u.completion
    then record u {
      completion = false;
      cancelled = if u.cb_complete == 0 then u.cancelled else u.cancelled ++ u.cb_complete ∷ [];
      event_handlers = handlers;
      signalled = u.signalled ++ map (λ c. (ev_motion, c)) called;
    }
    else u

-- mdrive_send to the unit; and to all units, by a copy of the device with another address, of which
-- only what belongs to the port is kept.
pub send_unit : Transmit → List ℕ → Axis → ResponseClass × Axis
send_unit transmit command u =
    let (class, d) = send_text transmit command u.device in (class, record u { device = d })

abbrev pub after_global : Device → Device → Device
after_global d g = record d { txid = g.txid; queue = g.queue; arrivals = g.arrivals }

pub send_global : Transmit → List ℕ → Axis → ResponseClass × Axis
send_global transmit command u =
    let (class, g) = send_text transmit command (record u.device { address = b'*' }) in
    (class, record u { device = after_global u.device g })

-- The class of a response as the status that it is.
abbrev pub status_of : ResponseClass → ℕ
status_of response_ok = 0
status_of response_retry = 1
status_of response_error = 2
status_of response_nack = 3
status_of response_bad_checksum = 4
status_of response_unknown = 5
status_of response_timeout = 6
status_of response_ioerror = 7

abbrev pub resting : Movement
resting = record { pstart = pos 0; type = no_move; urevs = pos 0; moving = false }

-- The two commands of an emergency stop; behind them the switch falls through to its default.
pub stop_all : Transmit → Axis → ℕ × Axis
unfolding send_global
stop_all transmit u =
    let (halted, u') = send_global transmit (27 ∷ []) u in
    let (disabled, u'') = send_global transmit (ascii "DE=0") u' in
    if not (is_ok halted)
    then (eio, u')
    else if not (is_ok disabled)
    then (eio, u'')
    else (enotsup, u'')

pub stop_by : Transmit → StopType → Axis → ℕ × Axis
unfolding send_unit stop_all
stop_by transmit mcstop u =
    let (class, u') = send_unit transmit (ascii "SL 0") u in (status_of class, u')
stop_by transmit mchalt u =
    let (class, u') = send_unit transmit (27 ∷ []) u in (status_of class, u')
stop_by transmit mcestop u = stop_all transmit u

-- mdrive_stop
pub stop : Transmit → StopType → Axis → ℕ × Axis
unfolding async_complete_cancel stop_by
stop transmit type u =
    stop_by transmit type (async_complete_cancel (record u { movement = resting }))

-- mdrive_home
pub home : Transmit → HomeType → Axis → ℕ × Axis
unfolding send_unit
home transmit homedef u =
    let (class, u') = send_unit transmit (ascii "EX M1") u in (status_of class, u')
home transmit _ u = (enotsup, u)

-- The mode and the reset of the position in the packed word of mdrive_move_assisted.
abbrev pub assisted_mode : MoveType → Option (ℕ × ℕ)
assisted_mode absolute = some (1, 0)
assisted_mode relative = some (2, 0)
assisted_mode slew = some (3, 1)
assisted_mode _ = none

-- `R1.mode + (R1.profile << 3) + (R1.reset_pos << 6)`; the profile has 3 bits.
abbrev pub packed : ℕ → ℕ → ℕ → ℕ
packed mode profile reset = mode + (profile % 8) * 2 ^ 3 + reset * 2 ^ 6

-- Commands in their order, up to the first one that fails.
pub send_all : Transmit → List (List ℕ) → Axis → ℕ × Axis
unfolding send_unit
send_all transmit [] u = (0, u)
send_all transmit (c ∷ cs) u =
    let (class, u') = send_unit transmit c u in
    let rest = send_all transmit cs u' in if is_ok class then rest else (eio, u')

abbrev pub assisted_commands : ℕ × ℕ → ℕ → ℤ → List ℕ → List (List ℕ)
assisted_commands (mode, reset) profile steps label =
    (ascii "R1=" ++ print_int (pos (packed mode profile reset)))
    ∷ (ascii "R2=" ++ print_int steps)
    ∷ (ascii "EX " ++ label)
    ∷ []

-- mdrive_move_assisted: a move by the unit's microcode.
pub assisted_by : Transmit → Option (ℕ × ℕ) → Profile → ℤ → Axis → ℕ × Axis
unfolding send_all
assisted_by transmit none profile steps u = (enotsup, u)
assisted_by transmit (some mode) profile steps u =
    let number = if profile.hardware then profile.number else 0 in
    let u' : Axis = if profile.hardware then u else set_profile transmit profile u in
    send_all transmit (assisted_commands mode number steps u.label_move) u'

pub move_assisted : Transmit → Instruction → ℤ → Axis → ℕ × Axis
unfolding assisted_by
move_assisted transmit command steps u =
    assisted_by transmit (assisted_mode command.type) command.profile steps u

-- A move by a command of the unit.
pub move_plain : Transmit → Instruction → List ℕ → Axis → ℕ × Axis
unfolding send_all
move_plain transmit command buffer u =
    send_all transmit (buffer ∷ []) (set_profile transmit command.profile u)

-- What follows a move that the unit has taken.
pub moved : ℕ → MoveType → ℕ × Axis → ℕ × Axis
unfolding async_complete_cancel async_complete
moved callback slew (zero, u) = (0, async_complete_cancel u)
moved callback type (zero, u) = (0, (async_complete callback (async_complete_cancel u)).1)
moved callback type (suc status, u) = (suc status, u)

-- The drive is enabled, and the move begins.
pub begin : Transmit → ℕ → Instruction → List ℕ → ℤ → Movement → Axis → ℕ × Axis
unfolding drive_enable move_assisted move_plain moved
begin transmit callback command buffer steps info u =
    let (status, u') = drive_enable transmit u in
    let started : Axis = record u' { movement = info } in
    let taken =
      if u.feature_move
      then move_assisted transmit command steps started
      else move_plain transmit command buffer started in
    if status == 0 then moved callback command.type taken else (status, u')

abbrev pub is_slew : MoveType → Bool
is_slew slew = true
is_slew _ = false

-- The slew that is asked for is under way.
abbrev pub under_way : ℤ → Axis → Bool
under_way urevs u = u.movement.moving && (is_slew u.movement.type && eqb_ℤ u.movement.urevs urevs)

-- The switch of mdrive_move.
pub move_by : Transmit → ℕ → MoveType → Instruction → ℤ → ℤ → Axis → ℕ × Axis
unfolding begin
move_by transmit callback absolute command steps pstart u =
    let (urevs, u') = steps_to_microrevs transmit (wrap32 (steps -ℤ u.position)) u in
    begin transmit callback command (ascii "MA " ++ print_int steps) steps
      (record { pstart = pstart; type = absolute; urevs = urevs; moving = true }) u'
move_by transmit callback relative command steps pstart u =
    begin transmit callback command (ascii "MR " ++ print_int steps) steps
      (record { pstart = pstart; type = relative; urevs = wrap32 command.amount; moving = true }) u
move_by transmit callback slew command steps pstart u =
    let rest =
      begin transmit callback command (ascii "SL " ++ print_int steps) steps
        (record { pstart = pstart; type = slew; urevs = wrap32 command.amount; moving = true }) u in
    if under_way (wrap32 command.amount) u then (0, u) else rest
move_by transmit callback type command steps pstart u = (enotsup, u)

-- mdrive_move
pub move : Transmit → ℕ → Instruction → Axis → ℕ × Axis
unfolding move_by
move transmit callback command u =
    let (steps, u') = microrevs_to_steps transmit command.amount u in
    move_by transmit callback command.type command steps u'.position u'
