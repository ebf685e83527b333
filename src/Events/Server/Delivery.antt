-- ===== src/Events/Server/Delivery.antt =====
-- lib/events.c: what mcSignalEvent does with a signal, up to the callbacks of the client.
use mcontrol.Base.{
  ℕ, suc, ◌≤◌, ◌<◌, ◌≡◌, refl, sym, ap, ◌∙◌, ◌≢◌, Bool, false, Option, none, some, List, [], ◌∷◌,
  arith, length, ℤ, pos, pos_part, neg_part, ◌-ℤ◌,
}
use mcontrol.Base.Int.{ -ℤ_parts}
use mcontrol.Motor.{Motor, Table, ev_last}
use mcontrol.Motor.Count.{IsTable}
use mcontrol.Motor.Shared.{users, last?, motors_for_driver_lem}
use mcontrol.Messages.{Client, EventMessage, dispatch_message, event_response}
use mcontrol.Base.Text.RoundTrip.{IsInt}
use mcontrol.Messages.Receive.{told, dispatch_message-event_response}
use mcontrol.Events.Server.{
  EventInfo, sent, Signalled, count_of, is_strange, bytes_of, signal_motor, signal_motors,
  signal_event,
}

-- The message for a connection.
abbrev pub message_for : EventInfo → Motor → EventMessage
message_for info m = record {
  motor = pos m.id;
  id = pos 1;
  event = info.event;
  event_data = bytes_of info.event_data;
}

-- An event that has a count in every connection.
abbrev pub HasCount : ℕ → Type 0
HasCount event = (1 ≤ event) × (event < ev_last)

less_by_one : (z : ℤ) → z -ℤ pos 1 ≢ z
less_by_one z q = absurd (omega (arith, ap pos_part q, ap neg_part q, -ℤ_parts z (pos 1)))

pub not_strange : (event : ℕ) → HasCount event → is_strange event ≡ false
not_strange event v = ground arith

-- A signal for two or more connections reads connections that mcMotorsForDriver has not written.
pub signal_event-shared :
    (send : ℕ → EventMessage → ℕ) (in_process : Bool) (driver : ℕ) (info : EventInfo) (t : Table)
    (m m' : Motor) (ms : List Motor)
    → users driver t.registry t.motor_list ≡ m ∷ m' ∷ ms
    → length ms ≤ 30
    → HasCount info.event
    → signal_event send in_process driver info t ≡ none
unfolding signal_event signal_motors
signal_event-shared send in_process driver info t m m' ms e n v = rw (not_strange info.event v) (
    ap (signal_motors send in_process info t) (
      motors_for_driver_lem driver t.registry t.motor_list 32 (rw e (omega arith))
      ∙ ap (λ us. (length us, last? us)) e)
    ∙ two (last? (m ∷ m' ∷ ms)))
  where
    two :
        (entry : Option Motor)
        → signal_motors send in_process info t (suc (suc (length ms)), entry) ≡ none
    two none = refl
    two (some x) = refl

module _ (send : ℕ → EventMessage → ℕ) (driver : ℕ) (info : EventInfo) (t : Table) (m : Motor)
    (alone : users driver t.registry t.motor_list ≡ m ∷ []) (valid : HasCount info.event)
    (subscribed : count_of info.event m ≢ 0) where
  signals_one : signal_event send false driver info t ≡ signal_motor send false info m t
  unfolding signal_event signal_motors
  signals_one = rw (not_strange info.event valid) (
      ap (signal_motors send false info t) (
        motors_for_driver_lem driver t.registry t.motor_list 32 (rw alone (omega arith))
        ∙ ap (λ us. (length us, last? us)) alone))

  -- An event of a driver that one connection uses, and has subscribed to, reaches the process of that
  -- connection as one message. The connections stay as they are when it is sent, and the client that
  -- takes it from its inbox calls the callbacks that are registered for its motor and the event.
  pub signal_event-told :
      (c : Client)
      → send m.client_pid (message_for info m) ≡ 0
      → IsInt (pos m.id)
      → (signal_event send false driver info t
          ≡ some (record {
            status = pos 0;
            signals = sent m.client_pid (message_for info m) ∷ [];
            table = t;
          }))
        × (dispatch_message (event_response (message_for info m)) c ≡ told (pos m.id) info.event c)
  unfolding signal_motor
  signal_event-told c ok i = (
    signals_one ∙ ground arith,
    dispatch_message-event_response (message_for info m) c i (omega arith),
  )

  -- When the message cannot be sent, because the client is gone, the count of connections goes down
  -- by one and every connection stays as it is: a well-formed table is not well formed any more.
  pub signal_event-gone :
      send m.client_pid (message_for info m) ≢ 0
      → IsTable t
      → (r : Signalled) × (signal_event send false driver info t ≡ some r)
        × (r.table.motor_list ≡ t.motor_list)
        × (r.table.conn_count ≡ t.conn_count -ℤ pos 1)
        × ¬ IsTable r.table
  unfolding signal_motor
  signal_event-gone lost v = (
    record {
      status = pos 0;
      signals = sent m.client_pid (message_for info m) ∷ [];
      table = record t { conn_count = t.conn_count -ℤ pos 1 };
    },
    signals_one ∙ ground arith,
    refl,
    refl,
    λ w. less_by_one t.conn_count (w.counted ∙ sym v.counted),
  )
