-- ===== src/Registry/Tests.antt =====
-- The theorems about driver classes and instances at concrete inputs.
use mcontrol.Base.{ℕ, ◌≡◌, refl, none, some, [], ◌∷◌, ◌==◌, if◌then◌else◌, get_or}
use mcontrol.Registry.{
  DriverClass, Instance, Registry, Str, returns, driver_connect, driver_lookup, parse_cxn,
  lookup_loop, fresh_driver, cache_invalidate,
}
use mcontrol.Registry.Lookup.{lookup_loop_lem, outcome}

-- A class "m" whose connections succeed exactly if their string begins with 1.
abbrev class : DriverClass
class = record { name = b'm' ∷ []; initialize = λ s. if get_or s 0 0 == 1 then (0, 9) else (5, 9) }

abbrev registry : Registry
registry = record { drivers = class ∷ []; motors = []; motor_uid = 1 }

abbrev cxn : ℕ → Str
cxn n = b'm' ∷ b':' ∷ b'/' ∷ b'/' ∷ n ∷ []

parsed : parse_cxn (cxn 1) ≡ some (b'm' ∷ [], 1 ∷ [])
unfolding parse_cxn
parsed = refl

no_scheme : parse_cxn (b'm' ∷ b':' ∷ b'/' ∷ 1 ∷ []) ≡ none
unfolding parse_cxn
no_scheme = refl

abbrev connected : Registry
connected = record registry {
  motors = record { driver = some (fresh_driver 1 class 9); cxn_string = cxn 1 } ∷ [];
  motor_uid = 2;
}

first_connect : driver_connect (cxn 1) registry ≡ returns 0 (some 0) connected
unfolding driver_connect
first_connect = refl

invalidated :
    cache_invalidate 1 connected.motors
    ≡ record { driver = some (fresh_driver 1 class 9); cxn_string = [] } ∷ []
unfolding cache_invalidate
invalidated = refl

lookup_loop_lem_example :
    lookup_loop 100 (class ∷ []) (b'x' ∷ []) ≡ outcome (driver_lookup (class ∷ []) (b'x' ∷ []))
lookup_loop_lem_example = lookup_loop_lem 99 (class ∷ []) (b'x' ∷ [])

-- The instance of `cxn 1`, disconnected.
abbrev idle : Instance
idle = record { driver = none; cxn_string = cxn 1 }

abbrev failed : Registry
failed = record registry {
  motors = record { driver = some (fresh_driver 2 class 9); cxn_string = cxn 1 } ∷ [];
  motor_uid = 3;
}
