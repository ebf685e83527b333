-- ===== src/Registry/Lookup.antt =====
-- The search for a driver class in lib/driver.c: how the loop of mcDriverLookup ends.
use mcontrol.Base.{ℕ, zero, suc, ◌≡◌, refl, Option, none, some, List, [], ◌∷◌, arith}
use mcontrol.Registry.{DriverClass, Str, lookup_loop, Found, found, missing, forever, driver_lookup}

-- The result of the loop, where it has one.
abbrev pub outcome : Found → Option (Option DriverClass)
outcome (found c) = some (some c)
outcome missing = some none
outcome forever = none

-- The loop of mcDriverLookup ends in its first round or never: it finds the first registered class
-- if the first characters agree, finds nothing if no class is registered, and else goes on for ever,
-- whatever else is registered.
pub lookup_loop_lem :
    (fuel : ℕ) (drivers : List DriverClass) (name : Str)
    → lookup_loop (suc fuel) drivers name ≡ outcome (driver_lookup drivers name)
unfolding lookup_loop driver_lookup
lookup_loop_lem fuel [] name = refl
lookup_loop_lem zero (c ∷ rest) name = ground arith
lookup_loop_lem (suc fuel) (c ∷ rest) name = ground (arith, lookup_loop_lem fuel (c ∷ rest) name)
