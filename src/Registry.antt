-- ===== src/Registry.antt =====
-- lib/driver.c: the registered driver classes and the driver instances, one for each connection
-- string. The linked lists are lists in their order; a pointer to an instance is its index, and the
-- pointer `motors`, which stays on the newest entry, is the end of the list. A driver class is what
-- its function table does: `initialize` gives the status and the driver's own data. The list of classes
-- is as mcDriverRegister leaves it after calls that it has accepted.
pub mod Lookup
pub mod Cache
mod Tests
use mcontrol.Base.{
  ℕ, zero, suc, ◌+◌, ◌-◌, ◌==◌, Bool, true, false, not, ◌&&◌, List, [], ◌∷◌, ◌++◌, Option, none,
  some, length, set, take, get_elem?, replicate, if◌then◌else◌, einval, enomem,
}
use mcontrol.Base.Slots.{take_while}
use mathlib.Core.Option

abbrev pub Str : Type 0
Str = List ℕ

abbrev pub str_eq : Str → Str → Bool
str_eq [] [] = true
str_eq (a ∷ s) (b ∷ t) = a == b && str_eq s t
str_eq _ _ = false

-- The part of struct motor_driver that this file uses.
pub record DriverClass : Type 0 where
  pub name : Str
  pub initialize : Str → ℕ × ℕ

-- struct motor_driver_data
pub record Driver : Type 0 where
  pub id : ℕ
  pub class : DriverClass
  pub locks : List ℕ
  pub internal : ℕ

-- struct driver_instance
pub record Instance : Type 0 where
  pub driver : Option Driver
  pub cxn_string : Str

pub record Registry : Type 0 where
  pub drivers : List DriverClass
  pub motors : List Instance
  pub motor_uid : ℕ

-- The characters of a name before the first `:`.
abbrev pub before_colon : Str → Str
before_colon = take_while λ c. not (c == b':')

abbrev pub after_colon : Str → Str
after_colon [] = []
after_colon (c ∷ s) = if c == b':' then c ∷ s else after_colon s

-- What follows `://`, if there is such a prefix and more behind it.
abbrev pub after_scheme : Str → Option Str
after_scheme (a ∷ b ∷ c ∷ d ∷ s) =
    if a == b':' && (b == b'/' && c == b'/') then some (d ∷ s) else none
after_scheme _ = none

-- The expression `^([^:]+)://(.+)$` of mcDriverConnect: the class name and the rest.
unfoldable pub parse_cxn : Str → Option (Str × Str)
parse_cxn s = elim (before_colon s) [
  | [] ↦ none
  | c ∷ name ↦ Option.map (λ rest. (c ∷ name, rest)) (after_scheme (after_colon s))
]

abbrev pub first_char : Str → ℕ
first_char [] = 0
first_char (c ∷ s) = c

-- The loop of mcDriverLookup, which compares one character (`sizeof *current->name`) and never
-- moves on: no result is a fuel that ran out.
unfoldable pub lookup_loop : ℕ → List DriverClass → Str → Option (Option DriverClass)
lookup_loop zero current name = none
lookup_loop (suc fuel) [] name = some none
lookup_loop (suc fuel) (c ∷ rest) name =
    let again = lookup_loop fuel (c ∷ rest) name in
    if first_char c.name == first_char name then some (some c) else again

-- What mcDriverLookup comes to.
pub data Found : Type 0 where
  found : DriverClass → Found
  missing : Found
  forever : Found

unfoldable pub driver_lookup : List DriverClass → Str → Found
driver_lookup [] name = missing
driver_lookup (c ∷ rest) name = if first_char c.name == first_char name then found c else forever

-- The search of mcDriverConnect for an instance by its connection string, from index `i` on.
unfoldable pub cached : Str → ℕ → List Instance → Option ℕ
cached cxn i [] = none
cached cxn i (m ∷ ms) = elim m.driver [
  | none ↦ cached cxn (suc i) ms
  | some d ↦ if str_eq m.cxn_string cxn then some i else cached cxn (suc i) ms
]

abbrev pub blank : Instance
blank = record { driver = none; cxn_string = [] }

abbrev pub fresh_driver : ℕ → DriverClass → ℕ → Driver
fresh_driver id c internal = record {
  id = id;
  class = c;
  locks = replicate 32 0;
  internal = internal;
}

-- The last entry of the list gets the new driver; one that is in use stays, with a new entry behind.
unfoldable pub put_last : Driver → List Instance → List Instance
put_last d [] = record blank { driver = some d } ∷ []
put_last d (m ∷ []) = elim m.driver [
  | none ↦ record m { driver = some d } ∷ []
  | some old ↦ m ∷ record blank { driver = some d } ∷ []
]
put_last d (m ∷ x ∷ ms) = m ∷ put_last d (x ∷ ms)

unfoldable pub name_last : Str → List Instance → List Instance
name_last s [] = []
name_last s (m ∷ []) = record m { cxn_string = s } ∷ []
name_last s (m ∷ x ∷ ms) = m ∷ name_last s (x ∷ ms)

-- What mcDriverConnect returns: its status, the instance that it set, and the lists. `hangs` is the
-- endless loop of mcDriverLookup.
pub data Connected : Type 0 where
  returns : ℕ → Option ℕ → Registry → Connected
  hangs : Connected

-- A new driver: its instance keeps the connection string only if `initialize` succeeds.
unfoldable pub connect_new : DriverClass → Str → Str → Registry → Connected
unfolding put_last name_last
connect_new c cxn rest r =
    let (status, internal) = c.initialize rest in
    let ms = put_last (fresh_driver r.motor_uid c internal) r.motors in
    let here = some (length ms - 1) in
    let r' = record r { motors = ms; motor_uid = r.motor_uid + 1 } in
    if status == 0
    then returns 0 here (record r' { motors = name_last (take 63 cxn) ms })
    else returns status here r'

-- mcDriverConnect
unfoldable pub driver_connect : Str → Registry → Connected
unfolding parse_cxn driver_lookup cached connect_new
driver_connect cxn r = elim (parse_cxn cxn) [
  | none ↦ returns einval none r
  | some (name, rest) ↦ elim (driver_lookup r.drivers (take 31 name)) [
    | missing ↦ returns enomem none r
    | forever ↦ hangs
    | found c ↦ elim (cached cxn 0 r.motors) [
      | some i ↦ returns 0 (some i) r
      | none ↦ connect_new c cxn rest r
    ]
  ]
]

abbrev pub instance_driver : List Instance → ℕ → Option Driver
instance_driver [] i = none
instance_driver (m ∷ ms) zero = m.driver
instance_driver (m ∷ ms) (suc i) = instance_driver ms i

-- mcDriverDisconnect: the driver is freed and the pointer of its instance cleared; the string stays.
unfoldable pub driver_disconnect : Option ℕ → Registry → Registry
driver_disconnect none r = r
driver_disconnect (some i) r = elim (get_elem? r.motors i) [
  | none ↦ r
  | some m ↦ record r { motors = set r.motors i (record m { driver = none }) }
]

-- mcDriverCacheInvalidate: the first instance of the driver loses its connection string.
unfoldable pub cache_invalidate : ℕ → List Instance → List Instance
cache_invalidate id [] = []
cache_invalidate id (m ∷ ms) = elim m.driver [
  | none ↦ m ∷ cache_invalidate id ms
  | some d ↦ if d.id == id then record m { cxn_string = [] } ∷ ms else m ∷ cache_invalidate id ms
]
