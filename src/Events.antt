-- ===== src/Events.antt =====
-- lib/events.c, the client's side: the table of 32 registrations of a process and the delivery of
-- an event to them. The end mark behind the table is the end of the list; a motor is 0 in an entry
-- that was never used. Callbacks and their data are handles. The registration at the server goes
-- through a generated stub, whose result is an argument.
pub mod Balance
pub mod Server
mod Tests
use mcontrol.Base.{
  ℕ, ◌+◌, Bool, true, false, not, ◌&&◌, ◌||◌, Option, none, some, List, [], ◌∷◌, map, ◌==◌,
  if◌then◌else◌, count, einval, er_too_many,
}
use mcontrol.Base.Int.{ℤ, pos, negsuc, eqb_ℤ, ◌+ℤ◌, ◌-ℤ◌}
use mcontrol.Base.Slots.{fill}
use mathlib.Core.Option

-- struct client_callback
pub record ClientCallback : Type 0 where
  pub motor : ℤ
  pub id : ℕ
  pub active : Bool
  pub event : ℕ
  pub callback : Option ℕ
  pub user_data : ℕ
  pub wait : Bool
  pub waiting : Bool

-- events, client_callback_count and registration_uid
pub record Registrations : Type 0 where
  pub events : List ClientCallback
  pub count : ℤ
  pub uid : ℕ

abbrev pub any_motor : ℤ
any_motor = negsuc 0

abbrev pub free_entry : ClientCallback → Bool
free_entry e = not e.active

-- mcSubscribeWithData, where the place for the id is given: the status, the id if there is one, and
-- the table; no result where the end mark would be overwritten.
pub subscribe_with_data :
    (ℤ → ℕ → ℕ) → ℤ → ℕ → Option ℕ → ℕ → Registrations → Option (ℕ × (Option ℕ × Registrations))
subscribe_with_data register motor event callback user_data t =
    let id = t.uid + 1 in
    let e : ClientCallback = record {
      motor = motor;
      id = id;
      active = true;
      event = event;
      callback = callback;
      user_data = user_data;
      wait = false;
      waiting = false;
    } in
    let status = if eqb_ℤ motor any_motor then 0 else register motor event in
    if eqb_ℤ t.count (pos 32)
    then some (er_too_many, (none, t))
    else Option.map
        (λ es. (status, (some id, record { events = es; count = t.count +ℤ pos 1; uid = id })))
        (fill free_entry e t.events)

abbrev pub is_registration : ℤ → ℕ → ClientCallback → Bool
is_registration motor id e = eqb_ℤ e.motor motor && e.id == id

-- The search of mcUnsubscribe.
pub find_registration : ℤ → ℕ → List ClientCallback → Option ClientCallback
find_registration motor id [] = none
find_registration motor id (e ∷ es) =
    let rest = find_registration motor id es in
    if eqb_ℤ e.motor (pos 0) then none else if is_registration motor id e then some e else rest

-- Its write, to the entry that the search finds.
pub switch_off : ℤ → ℕ → List ClientCallback → List ClientCallback
switch_off motor id [] = []
switch_off motor id (e ∷ es) =
    let rest = switch_off motor id es in
    if is_registration motor id e then record e { active = false } ∷ es else e ∷ rest

-- mcUnsubscribe, less the call of the server's mcEventUnregister.
pub mc_unsubscribe : ℤ → ℕ → Registrations → ℕ × Registrations
unfolding find_registration switch_off
mc_unsubscribe motor id t = elim (find_registration motor id t.events) [
  | none ↦ (einval, t)
  | some e ↦ (0, record t { events = switch_off motor id t.events; count = t.count -ℤ pos 1 })
]

-- What a registration is told of.
abbrev pub is_told : ℤ → ℕ → ClientCallback → Bool
is_told motor event e =
    (eqb_ℤ motor any_motor || eqb_ℤ motor e.motor) && (event == e.event && e.active)

-- mcDispatchSignaledEvent: the callbacks called with their data, and the table.
unfoldable pub dispatch_signaled_event :
    ℤ → ℕ → List ClientCallback → List (ℕ × ℕ) × List ClientCallback
dispatch_signaled_event motor event [] = ([], [])
dispatch_signaled_event motor event (e ∷ es) =
    let rest = dispatch_signaled_event motor event es in
    let calls : List (ℕ × ℕ) = elim e.callback [
      | none ↦ rest.0
      | some callback ↦ (callback, e.user_data) ∷ rest.0
    ] in
    let e' : ClientCallback = if e.wait then record e { waiting = false } else e in
    if eqb_ℤ e.motor (pos 0)
    then ([], e ∷ es)
    else if is_told motor event e
    then (calls, e' ∷ rest.1)
    else (rest.0, e ∷ rest.1)
