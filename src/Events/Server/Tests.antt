-- ===== src/Events/Server/Tests.antt =====
-- The server's side of lib/events.c at concrete inputs: a table with one connection, and the client
-- of that connection with one registration.
use mcontrol.Base.{
  ℕ, zero, suc, ◌<◌, ◌≡◌, refl, sym, ◌∙◌, ◌≢◌, Bool, true, false, Option, none, some, List, [], ◌∷◌,
  arith, ◌==◌, of_bool, get_or, replicate, pos, ◌-ℤ◌,
}
use mcontrol.Base.Slots.{All}
use mcontrol.Registry.{Registry, DriverClass, fresh_driver}
use mcontrol.Motor.{Motor, Table, blank_motor, find_motor_by_id}
use mcontrol.Motor.Count.{IsTable}
use mcontrol.Events.{ClientCallback, Registrations, find_registration}
use mcontrol.Events.Balance.{IsBalanced}
use mcontrol.Messages.{Client, opened, dispatch_message, event_response}
use mcontrol.Messages.Receive.{told}
use mcontrol.Events.Server.{
  EventInfo, Signalled, sent, count_of, signal_event, subscribe_at, unsubscribe_at,
}
use mcontrol.Events.Server.Delivery.{message_for, signal_event-told, signal_event-gone}
use mcontrol.Events.Server.Agreement.{
  Agrees, registrations_for, subscribe_at-Agrees, unsubscribe_at-Agrees, unsubscribe_at-inactive,
}

abbrev class : DriverClass
class = record { name = b'm' ∷ []; initialize = λ s. (0, 9) }

abbrev registry : Registry
registry = record {
  drivers = class ∷ [];
  motors = record { driver = some (fresh_driver 1 class 9); cxn_string = b'm' ∷ [] } ∷ [];
  motor_uid = 2;
}

-- The connection 3 of the process 10, which counts one subscription to the event 2.
abbrev motor : Motor
motor = record blank_motor {
  id = 3;
  client_pid = 10;
  active = true;
  instance_at = some 0;
  driver = some 1;
  subscriptions = 0 ∷ 0 ∷ 1 ∷ replicate 6 0;
}

abbrev table : Table
table = record {
  motor_list = motor ∷ replicate 64 blank_motor;
  conn_count = pos 1;
  motor_uid = 4;
  registry = registry;
}

blanks-ids :
    (n : ℕ)
    → All (λ (m : Motor). (m.id < 4) × (m.active ≡ true → m.id ≢ 0)) (replicate n blank_motor)
blanks-ids zero = tt
blanks-ids (suc n) = ((omega arith, λ e. cc), blanks-ids n)

table-IsTable : IsTable table
table-IsTable = record {
  slots = refl;
  end_mark = refl;
  counted = refl;
  bounded = omega arith;
  uid_pos = omega arith;
  ids = ((omega arith, λ e. omega arith), blanks-ids 64);
}

abbrev position : EventInfo
position = record { event = 2; event_data = some (7 ∷ []) }

abbrev registration : ℕ → Bool → ClientCallback
registration id active = record {
  motor = pos 3;
  id = id;
  active = active;
  event = 2;
  callback = some 8;
  user_data = 5;
  wait = false;
  waiting = false;
}

abbrev unused : ClientCallback
unused = record (registration 0 false) { motor = pos 0; event = 0; callback = none; user_data = 0 }

abbrev one : Registrations
one = record { events = registration 1 true ∷ replicate 31 unused; count = pos 1; uid = 1 }

-- Another registration, which was given up.
abbrev two : Registrations
two = record {
  events = registration 1 true ∷ registration 2 false ∷ replicate 30 unused;
  count = pos 1;
  uid = 2;
}

abbrev client : Client
client = record {
  outbox = opened;
  message_id = 1;
  async_registered = true;
  events = one.events;
  calls = [];
}

signal_event-told_example :
    (signal_event (λ pid evt. 0) false 1 position table
      ≡ some (record {
        status = pos 0;
        signals = sent 10 (message_for position motor) ∷ [];
        table = table;
      }))
    × (dispatch_message (event_response (message_for position motor)) client
        ≡ told (pos 3) 2 client)
signal_event-told_example =
    signal_event-told (λ pid evt. 0) 1 position table motor refl (omega arith, omega arith)
      (omega arith) client refl (omega arith, omega arith)

signal_event-gone_example :
    (r : Signalled) × (signal_event (λ pid evt. 2) false 1 position table ≡ some r)
    × (r.table.motor_list ≡ table.motor_list)
    × (r.table.conn_count ≡ table.conn_count -ℤ pos 1)
    × ¬ IsTable r.table
signal_event-gone_example =
    signal_event-gone (λ pid evt. 2) 1 position table motor refl (omega arith, omega arith)
      (omega arith) (omega arith) table-IsTable

zeros : (n e : ℕ) → get_or {A = ℕ} (replicate n 0) e 0 ≡ 0
zeros zero e = refl
zeros (suc n) zero = refl
zeros (suc n) (suc e) = zeros n e

counts : (e : ℕ) → count_of e motor ≡ of_bool (2 == e)
counts zero = ground arith
counts (suc zero) = ground arith
counts (suc (suc zero)) = refl
counts (suc (suc (suc e))) = ground (arith, zeros 6 e)

agrees :
    (t : Registrations)
    → ((e : ℕ) → registrations_for (pos 3) e t.events ≡ of_bool (2 == e))
    → Agrees 3 10 t table.motor_list
unfolding find_motor_by_id
agrees t same = (motor, refl, refl, λ e h. counts e ∙ sym (same e))

one-Agrees : Agrees 3 10 one table.motor_list
one-Agrees = agrees one (λ e. ground arith)

two-Agrees : Agrees 3 10 two table.motor_list
two-Agrees = agrees two (λ e. ground arith)

one-IsBalanced : IsBalanced one
unfolding IsBalanced
one-IsBalanced = (refl, refl)

driven : (m : Motor) → find_motor_by_id 3 10 table.motor_list ≡ some m → m.driver ≡ some 1
unfolding find_motor_by_id
driven m h = ground arith

found :
    (t : Registrations)
    → t.events ≡ one.events
    → find_registration (pos 3) 1 t.events ≡ some (registration 1 true)
unfolding find_registration
found t h = rw h refl

found_old : find_registration (pos 3) 2 two.events ≡ some (registration 2 false)
unfolding find_registration
found_old = refl

subscribe_at-Agrees_example :
    (new : Option ℕ) × (t' : Registrations) × (ms' : List Motor) × (subscribe_at
        (λ d. true)
        10
        (pos 3)
        5
        none
        0
        one
        table.motor_list
      ≡ some (0, (new, (t', ms'))))
    × Agrees 3 10 t' ms'
subscribe_at-Agrees_example =
    subscribe_at-Agrees 3 10 one table.motor_list (λ d. true) 5 1 none 0 one-Agrees one-IsBalanced
      refl (omega arith, omega arith) driven refl

unsubscribe_at-Agrees_example :
    (t' : Registrations) × (ms' : List Motor) × (unsubscribe_at 10 (pos 3) 1 one table.motor_list
      ≡ some (0, (t', ms')))
    × Agrees 3 10 t' ms'
unsubscribe_at-Agrees_example =
    unsubscribe_at-Agrees 3 10 one table.motor_list 1 (registration 1 true) one-Agrees
      one-IsBalanced (found one refl) refl (omega arith, omega arith)

unsubscribe_at-inactive_example :
    (t' : Registrations) × (ms' : List Motor) × (m' : Motor) × (unsubscribe_at 10
        (pos 3)
        2
        two
        table.motor_list
      ≡ some (0, (t', ms')))
    × (registrations_for (pos 3) 2 t'.events ≡ 1)
    × (find_motor_by_id 3 10 ms' ≡ some m')
    × (count_of 2 m' ≡ 0)
unsubscribe_at-inactive_example =
    unsubscribe_at-inactive 3 10 two table.motor_list 2 (registration 2 false) two-Agrees found_old
      refl (omega arith, omega arith) refl
