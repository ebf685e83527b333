-- ===== src/Motor.antt =====
-- lib/motor.c: the daemon's table of client connections, `motor_list`, with its high-water mark and
-- the count of the active ones. The table is the empty list until the first mcConnect allocates it.
-- Pointers to instances are indices into the registry, pointers to drivers their ids; the ids that
-- the library hands out are positive. Whether a client process still exists (`kill(pid, 0)`) is an
-- argument. `motor_conn_count` is an `int`, and stays far from its bounds.
pub mod Count
pub mod Connect
pub mod Find
pub mod Shared
mod Tests
use mcontrol.Base.{
  ℕ, ◌+◌, ◌-◌, ◌==◌, Bool, true, false, not, ◌&&◌, ◌||◌, List, [], ◌∷◌, Option, none, some,
  replicate, if◌then◌else◌, einval, er_too_many,
}
use mcontrol.Base.Int.{ℤ, pos, ◌+ℤ◌, ◌-ℤ◌, eqb_ℤ}
use mcontrol.Base.Slots.{fill}
use mcontrol.Registry.{
  Registry, Driver, Str, Connected, returns, hangs, driver_connect, driver_disconnect,
  instance_driver,
}
use mathlib.Core.Option

-- struct measurement
pub record Measurement : Type 0 where
  pub value : ℕ
  pub units : ℕ

-- struct motion_profile
pub record Profile : Type 0 where
  pub accel : Measurement
  pub decel : Measurement
  pub vmax : Measurement
  pub vstart : Measurement
  pub accuracy : Measurement
  pub current_run : ℕ
  pub current_hold : ℕ
  pub slip_max : Measurement
  pub hardware : Bool
  pub number : ℕ
  pub refresh : Bool
  pub loaded : Bool

-- enum move_type; a zero is none of them.
pub data MoveType : Type 0 where
  no_move absolute relative slew jitter : MoveType

-- struct motion_instruction, less the count of a jitter.
pub record Instruction : Type 0 where
  pub type : MoveType
  pub amount : ℤ
  pub profile : Profile

-- enum stop_type
pub data StopType : Type 0 where
  mcstop mchalt mcestop : StopType

-- enum home_type
pub data HomeType : Type 0 where
  homedef homestop homemid homenear homefar : HomeType

-- The names of motor_query_t that the driver for MDrive units knows.
pub data Name : Type 0 where
  position velocity accelerating moving stalled input output : Name
  accel decel vmax vinitial deadband run_current hold_current slip_max : Name
  encoder variable execute io_type io_parm1 io_parm2 : Name
  serial part firmware microcode baudrate checksum echo ug_mode : Name
  address name reset hard_reset : Name

-- struct motor_query: the number, or the text and its size, of its value, and its argument.
pub record Query : Type 0 where
  pub query : Name
  pub number : ℤ
  pub string : List ℕ
  pub size : ℕ
  pub arg_number : ℤ
  pub arg_string : List ℕ

-- The part of struct operating_profile that the library reads.
pub record OpProfile : Type 0 where
  pub units : ℕ
  pub scale : ℤ

-- struct backend_motor
pub record Motor : Type 0 where
  pub id : ℕ
  pub client_pid : ℕ
  pub active : Bool
  pub instance_at : Option ℕ
  pub driver : Option ℕ
  pub profile : Profile
  pub op_profile : OpProfile
  pub subscriptions : List ℕ

abbrev pub zero_measure : Measurement
zero_measure = record { value = 0; units = 0 }

-- The zero bytes of calloc and of the members that an initializer leaves out.
abbrev pub blank_profile : Profile
blank_profile = record {
  accel = zero_measure;
  decel = zero_measure;
  vmax = zero_measure;
  vstart = zero_measure;
  accuracy = zero_measure;
  current_run = 0;
  current_hold = 0;
  slip_max = zero_measure;
  hardware = false;
  number = 0;
  refresh = false;
  loaded = false;
}

-- `ev_last` entries, which the events index.
abbrev pub ev_first : ℕ
ev_first = 1

abbrev pub ev_last : ℕ
ev_last = 9

abbrev pub blank_motor : Motor
blank_motor = record {
  id = 0;
  client_pid = 0;
  active = false;
  instance_at = none;
  driver = none;
  profile = blank_profile;
  op_profile = record { units = 0; scale = pos 0 };
  subscriptions = replicate ev_last 0;
}

abbrev pub max_connections : ℕ
max_connections = 64

pub record Table : Type 0 where
  pub motor_list : List Motor
  pub conn_count : ℤ
  pub motor_uid : ℕ
  pub registry : Registry

-- The loop of mcGarbageCollect: the connections of clients that are gone become inactive. It ends at
-- an id of 0; none where there is no such slot and the loop leaves the table.
pub collect : (ℕ → Bool) → List Motor → ℤ → Option (List Motor × ℤ)
collect alive [] n = none
collect alive (m ∷ ms) n =
    let gone = m.active && not (alive m.client_pid) in
    let n' = if gone then n -ℤ pos 1 else n in
    let m' : Motor = if gone then record m { active = false } else m in
    let rest = collect alive ms n' in
    if m.id == 0 then some (m ∷ ms, n) else Option.map (λ t. (m' ∷ t.0, t.1)) rest

-- find_motor_by_id
unfoldable pub find_motor_by_id : ℕ → ℕ → List Motor → Option Motor
find_motor_by_id id pid [] = none
find_motor_by_id id pid (m ∷ ms) =
    if m.id == 0
    then none
    else if m.id == id && (pid == m.client_pid && m.active)
    then some m
    else find_motor_by_id id pid ms

-- A write through the pointer that find_motor_by_id returns.
pub update_motor : ℕ → ℕ → (Motor → Motor) → List Motor → List Motor
update_motor id pid f [] = []
update_motor id pid f (m ∷ ms) =
    if m.id == 0
    then m ∷ ms
    else if m.id == id && (pid == m.client_pid && m.active)
    then f m ∷ ms
    else m ∷ update_motor id pid f ms

-- What mcConnect does with a status of mcDriverConnect: the connection that its slot gets.
pub connected_motor : ℕ → ℕ → Bool → ℕ → Option ℕ → Registry → ℕ × Motor
connected_motor pid id recovery status at_instance r =
    let m : Motor = record blank_motor { id = id; client_pid = pid; instance_at = at_instance } in
    if not (status == 0) && not recovery then (status, m) else elim at_instance [
      | none ↦ (einval, m)
      | some i ↦ (
        0,
        record m { driver = Option.map (λ d. d.id) (instance_driver r.motors i); active = true },
      )
    ]

-- What a call of mcConnect comes to: its status and the new table; a scan that leaves the table; or
-- the endless loop of mcDriverLookup.
pub data Reply : Type 0 where
  reply : ℕ → Table → Reply
  overrun : Reply
  hung : Reply

pub allocate : List Motor → List Motor
allocate [] = replicate 65 blank_motor
allocate (m ∷ ms) = m ∷ ms

-- The first inactive slot of the table takes the new connection.
pub place : ℕ × Motor → Table → Registry → Reply
place (status, m) t r = elim (fill (λ x. not x.active) m t.motor_list) [
  | none ↦ overrun
  | some ms ↦ reply status (record {
    motor_list = ms;
    conn_count = if m.active then t.conn_count +ℤ pos 1 else t.conn_count;
    motor_uid = t.motor_uid + 1;
    registry = r;
  })
]

-- mcConnect behind the collection; the id of the new connection is `motor_uid`.
pub connect_found : ℕ → Str → Bool → Table → Reply
unfolding place
connect_found pid cxn recovery t =
    if eqb_ℤ t.conn_count (pos max_connections)
    then reply er_too_many t
    else elim (driver_connect cxn t.registry) [
      | hangs ↦ hung
      | returns status at_instance r ↦
          place (connected_motor pid t.motor_uid recovery status at_instance r) t r
    ]

-- mcConnect
pub connect : (ℕ → Bool) → ℕ → Str → Bool → Table → Reply
unfolding allocate connect_found
connect alive pid cxn recovery t = elim (collect alive (allocate t.motor_list) t.conn_count) [
  | none ↦ overrun
  | some (ms, n) ↦ connect_found pid cxn recovery (record t { motor_list = ms; conn_count = n })
]

-- mcDisconnect: the driver instance goes, whoever else uses it.
pub disconnect : ℕ → ℕ → Table → ℕ × Table
disconnect id pid t = elim (find_motor_by_id id pid t.motor_list) [
  | none ↦ (einval, t)
  | some m ↦ (
    0,
    record t {
      motor_list =
          update_motor id pid (λ x. record x { driver = none; active = false }) t.motor_list;
      conn_count = t.conn_count -ℤ pos 1;
      registry = driver_disconnect m.instance_at t.registry;
    },
  )
]

-- Whether a connection is active and its instance has the driver `d`.
abbrev pub uses_driver : ℕ → Registry → Motor → Bool
uses_driver d r m = elim m.instance_at [
  | none ↦ false
  | some i ↦ elim (instance_driver r.motors i) [ none ↦ false | some x ↦ x.id == d && m.active ]
]

abbrev pub has_instance : Motor → Bool
has_instance m = elim m.instance_at [ none ↦ false | some i ↦ true ]

-- mcMotorsForDriver with room for `room` connections: `list` is not advanced, so that every match
-- goes to its first entry. The count, and that entry if it was written.
pub motors_for_driver : ℕ → Registry → List Motor → ℕ → ℕ × Option Motor
motors_for_driver d r [] room = (0, none)
motors_for_driver d r (m ∷ ms) room =
    let hit = uses_driver d r m in
    let (count, entry) = motors_for_driver d r ms (if hit then room - 1 else room) in
    if m.id == 0 || not (has_instance m)
    then (0, none)
    else if not hit
    then (count, entry)
    else if room == 0
    then (0, none)
    else (count + 1, elim entry [ none ↦ some m | some x ↦ some x ])
