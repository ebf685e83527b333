-- ===== src/Requests/Queries/Tests.antt =====
-- The handlers of lib/query.c at concrete inputs: the connection 3 of the process 10.
use mcontrol.Base.{
  ℕ, ◌≡◌, refl, true, none, some, [], ◌∷◌, arith, print_int, ℤ, pos, wrap32, enotsup,
}
use mcontrol.Motor.{Motor, Name, position, find_motor_by_id}
use mcontrol.Mdrive.Classify.{response_ok}
use mcontrol.Mdrive.Dialogue.{Transmit}
use mcontrol.Mdrive.Axis.{Axis, resolution, microrevs_of}
use mcontrol.Mdrive.Variables.{Handler, read_variable}
use mcontrol.Requests.{Running, World, driver_of, find_running}
use mcontrol.Requests.Tests.{whole, motor, found, driver, world, unit_b, axis}
use mcontrol.Requests.Queries.{QueryEntries, query_integer, poke_integer}
use mcontrol.Requests.Queries.Failing.{with_state, poke_integer-unitless}
use mcontrol.Requests.Queries.Position.{query_integer-position}

-- A driver that fails to read, and that keeps the last number written.
abbrev failing : ℕ → QueryEntries ℤ
failing id = record { read = some (λ q s. (5, (q, s))); write = some (λ q s. (0, q.number)) }

-- The motor without units.
abbrev unitless : Motor
unitless = record motor { op_profile = record { units = 0; scale = pos 0 } }

abbrev unitless_world : World ℤ
unitless_world = record (world []) { motor_list = unitless ∷ [] }

unitless_found : find_motor_by_id 3 10 unitless_world.motor_list ≡ some unitless
unfolding find_motor_by_id
unitless_found = refl

unitless_driven : driver_of unitless unitless_world ≡ some (driver [])
unfolding driver_of find_running
unitless_driven = refl

poke_integer-unitless_example :
    poke_integer failing 3 10 unitless_world whole position (pos 700)
    ≡ some (0, with_state unitless_world (driver []) (pos 0))
poke_integer-unitless_example =
    poke_integer-unitless failing 3 10 unitless_world unitless (driver []) unitless_found
      unitless_driven whole (pos 700) (λ q s. (0, q.number)) refl refl

-- A unit that always answers with 7.
abbrev says_seven : Transmit
says_seven options command d = (response_ok, (print_int (pos 7), d))

abbrev others : Name → Handler
others what q u = (enotsup, (q, u))

abbrev queries : ℕ → QueryEntries Axis
queries id = record { read = some (read_variable says_seven others); write = none }

abbrev unit : Running Axis
unit = record {
  id = 1;
  locks = [];
  entries = record { move = none; stop = none; home = none };
  state = record axis { loaded_encoder = true };
}

abbrev units_world : World Axis
units_world = record { motor_list = motor ∷ []; drivers = unit ∷ [] }

unit_driven : driver_of motor units_world ≡ some unit
unfolding driver_of find_running
unit_driven = refl

query_integer-position_example :
    query_integer queries 3 10 units_world whole position
    ≡ some (
      0,
      (
        some (
            wrap32 (
              whole.truncated (
                whole.over
                  (whole.of_integer (microrevs_of (resolution unit.state) (pos 7)))
                  (whole.of_integer motor.op_profile.scale)))),
        with_state units_world unit (record unit.state { device = unit_b }),
      ),
    )
query_integer-position_example =
    query_integer-position whole says_seven others queries 3 10 units_world motor unit (pos 7)
      unit_b found unit_driven refl refl (omega arith, omega arith) refl (omega arith) (omega arith)
      refl refl
