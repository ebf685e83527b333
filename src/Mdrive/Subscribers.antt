-- ===== src/Mdrive/Subscribers.antt =====
-- drivers/mdrive/events.c: the table of 48 subscriptions of a device, and the signal of an event to
-- them. A callback function is a handle; a signal gives the callbacks that it calls, in their order.
pub mod OneShot
mod Tests
use mcontrol.Base.{
  ℕ, zero, suc, Bool, true, false, not, ◌&&◌, Option, none, some, List, [], ◌∷◌, ltb, ◌==◌,
  if◌then◌else◌, length, einval, er_too_many,
}
use mcontrol.Base.Slots.{fill}

-- struct event_callback
pub record EventCallback : Type 0 where
  pub active : Bool
  pub paused : Bool
  pub event : ℕ
  pub condition : ℕ
  pub callback : ℕ

abbrev pub max_subscriptions : ℕ
max_subscriptions = 48

abbrev is_free : EventCallback → Bool
is_free e = not e.active

or_too_many : Option (List EventCallback) → List EventCallback → ℕ × List EventCallback
or_too_many none table = (er_too_many, table)
or_too_many (some table') table = (0, table')

-- mdrive_notify: a device and a callback that are null are `none`.
pub notify : Option (List EventCallback) → ℕ → ℕ → Option ℕ → ℕ × Option (List EventCallback)
unfolding or_too_many
notify none code condition callback = (einval, none)
notify (some table) code condition none = (einval, some table)
notify (some table) code condition (some callback) =
    let event : EventCallback = record {
      active = true;
      paused = false;
      event = code;
      condition = condition;
      callback = callback;
    } in
    let t = or_too_many (fill is_free event table) table in (t.0, some t.1)

-- The number of slots from the first one with a callback to the end: what is left of the count i.
from_callback : ℕ → List EventCallback → ℕ
from_callback callback [] = 0
from_callback callback (e ∷ es) =
    let rest = from_callback callback es in if e.callback == callback then length (e ∷ es) else rest

-- `event_handlers[i].active = false`
abbrev pub deactivate : ℕ → List EventCallback → List EventCallback
deactivate i [] = []
deactivate zero (e ∷ es) = record e { active = false } ∷ es
deactivate (suc i) (e ∷ es) = e ∷ deactivate i es

-- mdrive_unsubscribe: no result where the write would leave the table.
pub unsubscribe : List EventCallback → ℕ → Option (ℕ × List EventCallback)
unfolding from_callback
unsubscribe table callback =
    let i = from_callback callback table in
    if i == 0
    then some (einval, table)
    else if ltb i (length table)
    then some (0, deactivate i table)
    else none

-- The subscriptions that a signal calls.
abbrev pub is_called : ℕ → EventCallback → Bool
is_called code e = e.active && (not e.paused && e.event == code)

-- The loop of mdrive_signal_event: the callbacks called, and the table.
signal_loop : ℕ → List EventCallback → List ℕ × List EventCallback
signal_loop code [] = ([], [])
signal_loop code (e ∷ es) =
    let t = signal_loop code es in
    if is_called code e
    then (e.callback ∷ t.0, record e { active = false } ∷ t.1)
    else (t.0, e ∷ t.1)

-- mdrive_signal_event, less the case of MDRIVE_RESET, which is a code of mdrive_read_variable and
-- none of an event.
pub signal_event : ℕ → List EventCallback → List ℕ × List EventCallback
unfolding signal_loop
signal_event code table = signal_loop code table

-- event_xrefs and its search: 0 is no event.
abbrev pub find_event : ℕ → List (ℕ × ℕ) → ℕ
find_event error [] = 0
find_event error ((code, event) ∷ xrefs) =
    let rest = find_event error xrefs in if code == error then event else rest

pub event_of_error : ℕ → ℕ
event_of_error error =
    find_event error ((86, 1) ∷ (92, 1) ∷ (71, 5) ∷ (75, 5) ∷ (72, 5) ∷ (200, 6) ∷ [])
