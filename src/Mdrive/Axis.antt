-- ===== src/Mdrive/Axis.antt =====
-- drivers/mdrive/mdrive.h and motion.c: a unit as the driver keeps it beyond its communication, and
-- the conversion of micro-revolutions to its steps. Products of the conversions are of 64 bits in the
-- code and have no bound here; the microstep setting of a unit is positive. Where a conversion cannot
-- load the setting, it returns -EIO as if that were the number.
pub mod Conversion
pub mod Untouched
use mcontrol.Base.{
  false, ℕ, Bool, true, List, [], ◌∷◌, ◌==◌, if◌then◌else◌, ascii, ℤ, pos, neg, wrap32, pos_part,
  eqb_ℤ, ◌*ℤ◌, ◌/ℤ◌, eio,
}
use mcontrol.Motor.{Profile, Measurement, blank_profile}
pub use mcontrol.Motor.{MoveType, no_move, absolute, relative, slew, jitter}
use mcontrol.Mdrive.Classify.{Device}
use mcontrol.Mdrive.Subscribers.{EventCallback}
use mcontrol.Mdrive.Dialogue.{Transmit, get_integers}

-- struct motion_details, less its times and what is filled in after a move.
pub record Movement : Type 0 where
  pub pstart : ℤ
  pub type : MoveType
  pub urevs : ℤ
  pub moving : Bool

-- The part of struct mdrive_device_list that motion.c and profile.c use. `completion` is the trip for
-- the end of a move, `cancelled` the callbacks that have been cancelled and `signalled` the calls of
-- subscribers, with their events, each the first one first.
pub record Axis : Type 0 where
  pub device : Device
  pub steps_per_rev : ℤ
  pub encoder : ℤ
  pub position : ℤ
  pub drive_enabled : ℤ
  pub profile : Profile
  pub movement : Movement
  pub cb_complete : ℕ
  pub completion : Bool
  pub event_handlers : List EventCallback
  pub cancelled : List ℕ
  pub signalled : List (ℕ × ℕ)
  pub loaded_profile : Bool
  pub loaded_encoder : Bool
  pub loaded_enabled : Bool
  pub feature_move : Bool
  pub label_move : List ℕ

-- The unit behind a transaction, with the device that it leaves: when it was found to have rebooted,
-- mdrive_config_after_reboot has forgotten what was loaded.
abbrev pub returned : Device → Axis → Axis
returned d u = if d.reboots == u.device.reboots then record u { device = d } else record u {
  device = d;
  loaded_profile = false;
  loaded_encoder = false;
  loaded_enabled = false;
}

-- The values of MS, EE and DE.
pub take_config : List ℤ → Axis → Axis
take_config (ms ∷ ee ∷ de ∷ rest) u = record u {
  steps_per_rev = wrap32 (ms *ℤ pos 200);
  encoder = ee;
  drive_enabled = de;
  loaded_encoder = true;
  loaded_enabled = true;
}
take_config values u = u

-- mdrive_lazyload_motion_config
unfoldable pub lazyload_motion_config : Transmit → Axis → ℕ × Axis
unfolding take_config
lazyload_motion_config transmit u =
    let (status, (values, d)) =
      get_integers transmit (ascii "MS") (ascii "EE" ∷ ascii "DE" ∷ []) u.device in
    if u.loaded_encoder
    then (0, u)
    else if status == 0
    then (0, take_config values (record u { device = d }))
    else (eio, record u { device = d })

-- The steps of a revolution.
abbrev pub resolution : Axis → ℕ
resolution u = if eqb_ℤ u.encoder (pos 0) then pos_part u.steps_per_rev else 2048

abbrev pub million : ℕ
million = 1000000

abbrev pub steps_of : ℕ → ℤ → ℤ
steps_of per_rev microrevs = wrap32 (microrevs *ℤ pos per_rev /ℤ million)

abbrev pub microrevs_of : ℕ → ℤ → ℤ
microrevs_of per_rev steps = steps *ℤ pos million /ℤ per_rev

-- mdrive_microrevs_to_steps
pub microrevs_to_steps : Transmit → ℤ → Axis → ℤ × Axis
unfolding lazyload_motion_config
microrevs_to_steps transmit microrevs u =
    let (status, u') = lazyload_motion_config transmit u in
    if status == 0 then (steps_of (resolution u') microrevs, u') else (neg eio, u')

-- mdrive_steps_to_microrevs
pub steps_to_microrevs : Transmit → ℤ → Axis → ℤ × Axis
unfolding lazyload_motion_config
steps_to_microrevs transmit steps u =
    let (status, u') = lazyload_motion_config transmit u in
    if status == 0 then (microrevs_of (resolution u') steps, u') else (neg eio, u')
