-- ===== src/Requests/Queries/Position.antt =====
-- lib/query.c over drivers/mdrive/query.c: what a client reads as the position of a unit.
use mcontrol.Base.{
  Option, ℕ, ◌≡◌, ap, ◌∙◌, true, some, ◌++◌, ascii, fit, print_int, ℤ, pos, eqb_ℤ, wrap32, ◌≢◌,
  false,
}
use mathlib.Core.Option
use mcontrol.Base.Text.RoundTrip.{IsInt}
use mcontrol.Motor.{Motor, Name, position, Query, find_motor_by_id}
use mcontrol.Mdrive.Classify.{Device, response_ok}
use mcontrol.Mdrive.Dialogue.{Transmit, asking}
use mcontrol.Mdrive.Axis.{Axis, resolution, microrevs_of}
use mcontrol.Mdrive.Variables.{Handler, read_variable}
use mcontrol.Mdrive.Variables.Reading.{read_variable-position}
use mcontrol.Requests.{Running, World, driver_of}
use mcontrol.Requests.Units.{Floats, micro_revs}
use mcontrol.Requests.Units.Laws.{microrevs_to_distance_lem}
use mcontrol.Requests.Queries.{QueryEntries, query_for, answered, in_units, heedless, query_integer}
use mcontrol.Requests.Queries.Failing.{with_state, ask_found}

-- mcQueryInteger for the position, through the driver for MDrive units: the unit prints its steps in
-- answer to "PR P", and the client gets them as micro-revolutions by the resolution of the unit, and
-- these divided by the scale of its connection and cut to an int; the status is 0, and nothing but the
-- unit's device changes. That holds for a driver that has loaded the settings of its unit, a unit that
-- is not found to have rebooted, steps that are an int, and a connection whose units and scale are
-- set, with units other than micro-revolutions.
pub query_integer-position :
    {F : Type 0} (fl : Floats F) (transmit : Transmit) (others : Name → Handler)
    (entries : ℕ → QueryEntries Axis) (id pid : ℕ) (w : World Axis) (m : Motor) (u : Running Axis)
    (s : ℤ) (d : Device)
    → find_motor_by_id id pid w.motor_list ≡ some m
    → driver_of m w ≡ some u
    → (entries u.id).read ≡ some (read_variable transmit others)
    → u.state.loaded_encoder ≡ true
    → IsInt s
    → d.reboots ≡ u.state.device.reboots
    → m.op_profile.units ≢ 0
    → m.op_profile.units ≢ micro_revs
    → eqb_ℤ m.op_profile.scale (pos 0) ≡ false
    → transmit asking (fit 16 (ascii "PR " ++ ascii "P")) u.state.device
      ≡ (response_ok, (print_int s, d))
    → query_integer entries id pid w fl position
      ≡ some (
        0,
        (
          some (
              wrap32 (
                fl.truncated (
                  fl.over
                    (fl.of_integer (microrevs_of (resolution u.state) s))
                    (fl.of_integer m.op_profile.scale)))),
          with_state w u (record u.state { device = d }),
        ),
      )
unfolding query_integer
query_integer-position fl transmit others entries id pid w m u s d found driven h loaded int same
      units unlike scale printed =
    ap (Option.map (heedless entries id pid w (in_units entries id pid w fl position))) (
      ask_found entries id pid w m u found driven (query_for position)
        (read_variable transmit others) h
      ∙ ap (λ (t : ℕ × (Query × Axis)). some (answered m t.0 t.1.0 (with_state w u t.1.1)))
          (read_variable-position transmit others (query_for position) u.state s d loaded int same
            printed))
    ∙ ap (λ (t : ℕ × Option ℤ). some (0, (t.1, with_state w u (record u.state { device = d }))))
        (microrevs_to_distance_lem fl m.op_profile (microrevs_of (resolution u.state) s) units
          unlike scale)
