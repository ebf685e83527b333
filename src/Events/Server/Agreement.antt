-- ===== src/Events/Server/Agreement.antt =====
-- lib/events.c: the registrations of a client against the counts that the server keeps for its
-- connection.
use mcontrol.Base.{
  ℕ, ◌+◌, ◌<◌, ◌≡◌, refl, ◌∙◌, inl, inr, Bool, true, false, ◌&&◌, Option, some, List, [], ◌∷◌,
  arith, ◌==◌, if◌then◌else◌, of_bool, Bool-cases, Option-cases, length, length-set, get_or-set, ℤ,
  pos, eqb_ℤ, ◌+ℤ◌,
}
use mcontrol.Base.Slots.{fill, fill_total, count_if, count_if-le}
use mcontrol.Motor.{Motor, find_motor_by_id, update_motor, ev_last}
use mcontrol.Motor.Find.{find-update_self}
use mcontrol.Events.{
  ClientCallback, Registrations, free_entry, subscribe_with_data, find_registration, switch_off,
  mc_unsubscribe,
}
use mcontrol.Events.Balance.{IsBalanced, new_entry, not_full}
use mcontrol.Events.Server.{
  lookup_motor, count_of, with_count, increment, decrement, registered, event_register,
  event_unregister, subscribe_at, unsubscribe_at,
}
use mcontrol.Events.Server.Delivery.{HasCount, not_strange}

-- The active registrations of a client for an event of a motor.
abbrev pub is_for : ℤ → ℕ → ClientCallback → Bool
is_for motor event e = e.active && (eqb_ℤ e.motor motor && e.event == event)

abbrev pub registrations_for : ℤ → ℕ → List ClientCallback → ℕ
registrations_for motor event = count_if (is_for motor event)

-- The server finds the connection of the client, and has counted each active registration once.
abbrev pub Agrees : ℕ → ℕ → Registrations → List Motor → Type 0
Agrees id pid t ms =
    (m : Motor) × (find_motor_by_id id pid ms ≡ some m)
    × (length m.subscriptions ≡ ev_last)
    × ((event : ℕ) → HasCount event → count_of event m ≡ registrations_for (pos id) event t.events)

find-with_count :
    (f : ℕ → ℕ) (event id pid : ℕ) (ms : List Motor) (m : Motor)
    → find_motor_by_id id pid ms ≡ some m
    → find_motor_by_id id pid (update_motor id pid (with_count f event) ms)
      ≡ some (with_count f event m)
find-with_count f event id pid ms m h =
    find-update_self id pid (with_count f event) ms m (λ x. (refl, refl, refl)) h

count-with_count :
    (f : ℕ → ℕ) (event other : ℕ) (m : Motor)
    → length m.subscriptions ≡ ev_last
    → event < ev_last
    → count_of other (with_count f event m)
      ≡ (if event == other then f (count_of event m) else count_of other m)
count-with_count f event other m n h =
    get_or-set m.subscriptions event other (f (count_of event m)) 0 (omega (arith, n))

-- A filled table counts the new entry, where a free one is not counted.
count-fill_free :
    (p q : ClientCallback → Bool) (v : ClientCallback) (xs ys : List ClientCallback)
    → ((x : ClientCallback) → q x ≡ true → p x ≡ false)
    → fill q v xs ≡ some ys
    → count_if p ys ≡ of_bool (p v) + count_if p xs
count-fill_free p q v [] ys free h = cc
count-fill_free p q v (x ∷ xs) ys free h = elim (Bool-cases (q x)) [
  | inl e ↦ ground (arith, free x e)
  | inr e ↦ elim (Option-cases (fill q v xs)) [
    | inl n ↦ ground arith
    | inr (zs, n) ↦ ground (arith, count-fill_free p q v xs zs free n)
  ]
]

free-is_for :
    (motor : ℤ) (event : ℕ) (x : ClientCallback)
    → free_entry x ≡ true
    → is_for motor event x ≡ false
free-is_for motor event x h = ground arith

for-switch_off :
    (motor : ℤ) (event id : ℕ) (es : List ClientCallback) (e : ClientCallback)
    → find_registration motor id es ≡ some e
    → registrations_for motor event (switch_off motor id es) + of_bool (is_for motor event e)
      ≡ registrations_for motor event es
unfolding find_registration switch_off
for-switch_off motor event id [] e h = ground arith
for-switch_off motor event id (x ∷ es) e h = ground (arith, for-switch_off motor event id es e)

motor-found :
    (motor : ℤ) (id : ℕ) (es : List ClientCallback) (e : ClientCallback)
    → find_registration motor id es ≡ some e
    → eqb_ℤ e.motor motor ≡ true
unfolding find_registration
motor-found motor id [] e h = cc
motor-found motor id (x ∷ es) e h = ground (arith, motor-found motor id es e)

module _ (id pid : ℕ) (t : Registrations) (ms : List Motor) where
  -- The server's part of a subscription.
  register_lem :
      (has_notify : ℕ → Bool) (event driver : ℕ) (m : Motor)
      → HasCount event
      → find_motor_by_id id pid ms ≡ some m
      → m.driver ≡ some driver
      → has_notify driver ≡ true
      → event_register has_notify (pos id) pid event ms
        ≡ some (0, (some (driver, event), update_motor id pid (with_count increment event) ms))
  unfolding event_register registered lookup_motor
  register_lem has_notify event driver m v found has notify = ground (arith, not_strange event v)

  unregister_lem :
      (event : ℕ) (m : Motor)
      → HasCount event
      → find_motor_by_id id pid ms ≡ some m
      → event_unregister (pos id) pid event ms
        ≡ some (0, update_motor id pid (with_count decrement event) ms)
  unfolding event_unregister lookup_motor
  unregister_lem event m v found = ground (arith, not_strange event v)

  Agrees-update :
      (f : ℕ → ℕ) (event : ℕ) (t' : Registrations)
      → Agrees id pid t ms
      → HasCount event
      → ((other : ℕ)
          → HasCount other
          → registrations_for (pos id) other t'.events ≡ (
              if event == other
              then f (registrations_for (pos id) other t.events)
              else registrations_for (pos id) other t.events))
      → Agrees id pid t' (update_motor id pid (with_count f event) ms)
  Agrees-update f event t' (m, found, size, counted) v same = (
    with_count f event m,
    find-with_count f event id pid ms m found,
    length-set m.subscriptions event (f (count_of event m)) ∙ size,
    λ other w.
        count-with_count f event other m size v.1
        ∙ ground (arith, counted event v, counted other w, same other w),
  )

  subscribed :
      (event : ℕ) (callback : Option ℕ) (user_data : ℕ) (es : List ClientCallback)
      → eqb_ℤ t.count (pos 32) ≡ false
      → fill free_entry (new_entry (pos id) event callback user_data t) t.events ≡ some es
      → subscribe_with_data (λ m e. 0) (pos id) event callback user_data t
        ≡ some (
          0,
          (some (t.uid + 1), record { events = es; count = t.count +ℤ pos 1; uid = t.uid + 1 }),
        )
  unfolding subscribe_with_data
  subscribed event callback user_data es room filled = rw (room, filled) (ground arith)

  for-filled :
      (event other : ℕ) (callback : Option ℕ) (user_data : ℕ) (es : List ClientCallback)
      → IsBalanced t
      → fill free_entry (new_entry (pos id) event callback user_data t) t.events ≡ some es
      → registrations_for (pos id) other es ≡ (
          if event == other
          then increment (registrations_for (pos id) other t.events)
          else registrations_for (pos id) other t.events)
  unfolding IsBalanced
  for-filled event other callback user_data es b filled = ground (
    arith,
    count-fill_free (is_for (pos id) other) free_entry
        (new_entry (pos id) event callback user_data t) t.events es (free-is_for (pos id) other)
        filled,
    count_if-le (is_for (pos id) other) t.events,
    b.0,
  )

  -- A subscription that the server accepts: a client whose registrations agree with the counts of the
  -- server, and that has room for another, subscribes to an event of its motor, whose driver has an
  -- entry for notifications. Then the status is 0, and the registrations agree with the counts again.
  pub subscribe_at-Agrees :
      (has_notify : ℕ → Bool) (event driver : ℕ) (callback : Option ℕ) (user_data : ℕ)
      → Agrees id pid t ms
      → IsBalanced t
      → eqb_ℤ t.count (pos 32) ≡ false
      → HasCount event
      → ((m : Motor) → find_motor_by_id id pid ms ≡ some m → m.driver ≡ some driver)
      → has_notify driver ≡ true
      → (new : Option ℕ) × (t' : Registrations) × (ms' : List Motor) × (subscribe_at has_notify pid
            (pos id)
            event
            callback
            user_data
            t
            ms
          ≡ some (0, (new, (t', ms'))))
        × Agrees id pid t' ms'
  unfolding subscribe_at
  subscribe_at-Agrees has_notify event driver callback user_data (m, found, size, counted) b room v
        driven notify =
      let e = new_entry (pos id) event callback user_data t in
      let (es, filled) = fill_total free_entry e t.events (not_full t b room) in
      let t' : Registrations = record { events = es; count = t.count +ℤ pos 1; uid = t.uid + 1 } in
      (
        some (t.uid + 1),
        t',
        update_motor id pid (with_count increment event) ms,
        rw (subscribed event callback user_data es room filled, subscribe_at)
            (rw (register_lem has_notify event driver m v found (driven m found) notify)
              (ground arith)),
        Agrees-update increment event t' (m, found, size, counted) v
            (λ other w. for-filled event other callback user_data es b filled),
      )

  unsubscribed : ℕ → ClientCallback → Registrations × List Motor
  unsubscribed reg e =
      ((mc_unsubscribe (pos id) reg t).1, update_motor id pid (with_count decrement e.event) ms)

  unsubscribe_lem :
      (reg : ℕ) (e : ClientCallback) (m : Motor)
      → find_registration (pos id) reg t.events ≡ some e
      → find_motor_by_id id pid ms ≡ some m
      → HasCount e.event
      → unsubscribe_at pid (pos id) reg t ms ≡ some (0, unsubscribed reg e)
  unfolding unsubscribe_at unsubscribed mc_unsubscribe
  unsubscribe_lem reg e m h found v =
      rw (h, unsubscribe_at) (rw (unregister_lem e.event m v found) (ground (arith, h)))

  events-unsubscribe :
      (reg : ℕ) (e : ClientCallback)
      → find_registration (pos id) reg t.events ≡ some e
      → (mc_unsubscribe (pos id) reg t).1.events ≡ switch_off (pos id) reg t.events
  unfolding mc_unsubscribe
  events-unsubscribe reg e h = rw (h, mc_unsubscribe) refl

  for-unsubscribe :
      (reg other : ℕ) (e : ClientCallback)
      → find_registration (pos id) reg t.events ≡ some e
      → registrations_for (pos id) other (mc_unsubscribe (pos id) reg t).1.events
          + of_bool (is_for (pos id) other e)
        ≡ registrations_for (pos id) other t.events
  for-unsubscribe reg other e h =
      rw (events-unsubscribe reg e h) (for-switch_off (pos id) other reg t.events e h)

  -- To give up a registration that is active keeps the agreement of the registrations with the counts
  -- of the server, and the status is 0.
  pub unsubscribe_at-Agrees :
      (reg : ℕ) (e : ClientCallback)
      → Agrees id pid t ms
      → IsBalanced t
      → find_registration (pos id) reg t.events ≡ some e
      → e.active ≡ true
      → HasCount e.event
      → (t' : Registrations) × (ms' : List Motor) × (unsubscribe_at pid (pos id) reg t ms
          ≡ some (0, (t', ms')))
        × Agrees id pid t' ms'
  unfolding unsubscribed IsBalanced
  unsubscribe_at-Agrees reg e (m, found, size, counted) b h active v = (
    (unsubscribed reg e).0,
    (unsubscribed reg e).1,
    unsubscribe_lem reg e m h found v,
    Agrees-update decrement e.event (unsubscribed reg e).0 (m, found, size, counted) v
        (λ other w. ground (
          arith,
          for-unsubscribe reg other e h,
          motor-found (pos id) reg t.events e h,
          count_if-le (is_for (pos id) other) t.events,
          b.0,
        )),
  )

  -- To give up a registration that is inactive already takes one off the server's count for its event
  -- nevertheless: a registration that is still active for that event, if it is the only one, is not
  -- told of the event any more, since the count is 0.
  pub unsubscribe_at-inactive :
      (reg : ℕ) (e : ClientCallback)
      → Agrees id pid t ms
      → find_registration (pos id) reg t.events ≡ some e
      → e.active ≡ false
      → HasCount e.event
      → registrations_for (pos id) e.event t.events ≡ 1
      → (t' : Registrations) × (ms' : List Motor) × (m' : Motor) × (unsubscribe_at pid
            (pos id)
            reg
            t
            ms
          ≡ some (0, (t', ms')))
        × (registrations_for (pos id) e.event t'.events ≡ 1)
        × (find_motor_by_id id pid ms' ≡ some m')
        × (count_of e.event m' ≡ 0)
  unfolding unsubscribed
  unsubscribe_at-inactive reg e (m, found, size, counted) h inactive v single = (
    (unsubscribed reg e).0,
    (unsubscribed reg e).1,
    with_count decrement e.event m,
    unsubscribe_lem reg e m h found v,
    ground (arith, for-unsubscribe reg e.event e h),
    find-with_count decrement e.event id pid ms m found,
    ground (arith, count-with_count decrement e.event e.event m size v.1, counted e.event v),
  )
