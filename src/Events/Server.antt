-- ===== src/Events/Server.antt =====
-- lib/events.c, the server's side: the counts of subscriptions in the connections of Motor, and the
-- signal of an event to the clients; and the calls of a client together with those that they make at
-- the server. Whether the class of a driver has an entry `notify`, and what mcEventSend answers, are
-- arguments. The model has no result where the code would read a connection that was not written, a
-- count behind its array, or a null pointer. A negative event is none, like 0.
pub mod Delivery
pub mod Agreement
mod Tests
use mcontrol.Base.{
  ℕ, zero, suc, ◌+◌, ◌-◌, ◌%◌, ◌^◌, Bool, not, ◌||◌, Option, none, some, List, [], ◌∷◌, map, ltb,
  ◌==◌, if◌then◌else◌, get_or, set, ℤ, pos, negsuc, eqb_ℤ, ◌-ℤ◌, einval, enotsup,
}
use mathlib.Core.Option
use mcontrol.Registry.{Registry}
use mcontrol.Motor.{
  Motor, Table, find_motor_by_id, update_motor, motors_for_driver, ev_first, ev_last,
}
use mcontrol.Events.{
  ClientCallback, Registrations, any_motor, find_registration, subscribe_with_data, mc_unsubscribe,
}
use mcontrol.Messages.{EventMessage}

-- The connection behind the `motor_t` of a client.
pub lookup_motor : ℤ → ℕ → List Motor → Option Motor
lookup_motor (pos id) pid ms = find_motor_by_id id pid ms
lookup_motor (negsuc n) pid ms = none

abbrev pub id_of : ℤ → ℕ
id_of (pos id) = id
id_of (negsuc n) = 0

-- An increment and a decrement of an unsigned short, in an array of `ev_last`.
abbrev pub increment : ℕ → ℕ
increment n = (n + 1) % 2 ^ 16

abbrev pub decrement : ℕ → ℕ
decrement n = (n + (2 ^ 16 - 1)) % 2 ^ 16

abbrev pub count_of : ℕ → Motor → ℕ
count_of event m = get_or m.subscriptions event 0

abbrev pub with_count : (ℕ → ℕ) → ℕ → Motor → Motor
with_count f event m = record m { subscriptions = set m.subscriptions event (f (count_of event m)) }

abbrev pub is_strange : ℕ → Bool
is_strange event = ltb ev_last event || ltb event ev_first

-- The status, the driver and event that `notify` was called for, and the connections.
abbrev pub Registered : Type 0
Registered = Option (ℕ × (Option (ℕ × ℕ) × List Motor))

-- mcEventRegister behind its checks.
pub registered : (ℕ → Bool) → ℤ → ℕ → ℕ → List Motor → Option ℕ → Registered
registered has_notify motor pid event ms none = none
registered has_notify motor pid event ms (some driver) =
    if not (has_notify driver)
    then some (enotsup, (none, ms))
    else if event == ev_last
    then none
    else some
        (0, (some (driver, event), update_motor (id_of motor) pid (with_count increment event) ms))

-- mcEventRegister
pub event_register : (ℕ → Bool) → ℤ → ℕ → ℕ → List Motor → Registered
unfolding registered lookup_motor
event_register has_notify motor pid event ms = elim (lookup_motor motor pid ms) [
  | none ↦ some (einval, (none, ms))
  | some m ↦
      if is_strange event
      then some (einval, (none, ms))
      else registered has_notify motor pid event ms m.driver
]

-- mcEventUnregister
pub event_unregister : ℤ → ℕ → ℕ → List Motor → Option (ℕ × List Motor)
unfolding lookup_motor
event_unregister motor pid event ms = elim (lookup_motor motor pid ms) [
  | none ↦ some (einval, ms)
  | some m ↦
      if is_strange event
      then some (einval, ms)
      else if event == ev_last
      then none
      else some (0, update_motor (id_of motor) pid (with_count decrement event) ms)
]

-- mcSubscribeWithData with the mcEventRegister that it ends with, which is called when there is an
-- id and the motor is not any motor: the status, the id, and both tables.
pub subscribe_at :
    (ℕ → Bool)
    → ℕ
    → ℤ
    → ℕ
    → Option ℕ
    → ℕ
    → Registrations
    → List Motor
    → Option (ℕ × (Option ℕ × (Registrations × List Motor)))
unfolding event_register
subscribe_at has_notify pid motor event callback user_data t ms =
    let call = event_register has_notify motor pid event ms in
    elim (subscribe_with_data (λ m e. 0) motor event callback user_data t) [
      | none ↦ none
      | some (status, (none, t')) ↦ some (status, (none, (t', ms)))
      | some (status, (some id, t')) ↦
          if eqb_ℤ motor any_motor
          then some (status, (some id, (t', ms)))
          else Option.map (λ r. (r.0, (some id, (t', r.1.1)))) call
    ]

-- mcUnsubscribe with the mcEventUnregister that it ends with, for the event of the registration that
-- it finds.
pub unsubscribe_at :
    ℕ → ℤ → ℕ → Registrations → List Motor → Option (ℕ × (Registrations × List Motor))
unfolding event_unregister
unsubscribe_at pid motor id t ms = elim (find_registration motor id t.events) [
  | none ↦ some (einval, (t, ms))
  | some e ↦
      let (status, t') = mc_unsubscribe motor id t in
      if eqb_ℤ motor any_motor
      then some (status, (t', ms))
      else Option.map (λ r. (status, (t', r.1))) (event_unregister motor pid e.event ms)
]

-- struct event_info of a driver: its data are bytes, if there are any.
pub record EventInfo : Type 0 where
  pub event : ℕ
  pub event_data : Option (List ℕ)

-- An event that goes to a process by mcEventSend, or to the callbacks of the own process.
pub data Signal : Type 0 where
  sent : ℕ → EventMessage → Signal
  dispatched : EventMessage → Signal

pub record Signalled : Type 0 where
  pub status : ℤ
  pub signals : List Signal
  pub table : Table

abbrev pub bytes_of : Option (List ℕ) → List ℕ
bytes_of none = []
bytes_of (some bytes) = bytes

-- The body of the loop of mcSignalEvent, for the copy `m` of a connection. mcInactivate takes one off
-- the count of connections, and makes only the copy inactive.
pub signal_motor : (ℕ → EventMessage → ℕ) → Bool → EventInfo → Motor → Table → Option Signalled
signal_motor send in_process info m t =
    let evt : EventMessage = record {
      motor = pos m.id;
      id = if in_process then pos 0 else pos 1;
      event = info.event;
      event_data = bytes_of info.event_data;
    } in
    let gone = not (send m.client_pid evt == 0) in
    if info.event == ev_last
    then none
    else if count_of info.event m == 0
    then some (record { status = pos 0; signals = []; table = t })
    else if in_process
    then Option.map (λ bytes. record { status = pos 0; signals = dispatched evt ∷ []; table = t })
        info.event_data
    else some (record {
      status = pos 0;
      signals = sent m.client_pid evt ∷ [];
      table = if gone then record t { conn_count = t.conn_count -ℤ pos 1 } else t;
    })

-- The loop of mcSignalEvent, for what mcMotorsForDriver has counted and written.
pub signal_motors :
    (ℕ → EventMessage → ℕ) → Bool → EventInfo → Table → ℕ × Option Motor → Option Signalled
unfolding signal_motor
signal_motors send in_process info t (zero, entry) =
    some (record { status = pos 0; signals = []; table = t })
signal_motors send in_process info t (suc zero, some m) = signal_motor send in_process info m t
signal_motors send in_process info t (suc zero, none) = none
signal_motors send in_process info t (suc (suc n), entry) = none

-- mcSignalEvent, for a signal with information. The array on its stack has room for 32 connections,
-- of which mcMotorsForDriver writes the first.
pub signal_event : (ℕ → EventMessage → ℕ) → Bool → ℕ → EventInfo → Table → Option Signalled
unfolding signal_motors
signal_event send in_process driver info t =
    if is_strange info.event
    then some (record { status = negsuc 0; signals = []; table = t })
    else signal_motors send in_process info t (motors_for_driver driver t.registry t.motor_list 32)
