-- ===== src/Mdrive/Subscribers/Tests.antt =====
-- The subscriptions of drivers/mdrive/events.c, in a table of three.
use mcontrol.Base.{◌+◌, ◌≡◌, refl, true, false, none, some, [], ◌∷◌, ltb, if◌then◌else◌}
use mcontrol.Mdrive.Subscribers.{
  EventCallback, deactivate, notify, or_too_many, signal_event, unsubscribe,
}
use mcontrol.Mdrive.Subscribers.OneShot.{signal_event_once, unsubscribe_lem}

abbrev waiting : EventCallback
waiting = record { active = true; paused = false; event = 1; condition = 0; callback = 70 }

abbrev unused : EventCallback
unused = record { active = false; paused = false; event = 0; condition = 0; callback = 0 }

notify_full : notify (some (waiting ∷ [])) 1 0 (some 71) ≡ (1005, some (waiting ∷ []))
unfolding notify or_too_many
notify_full = refl

called_once_only : (signal_event 1 (signal_event 1 (waiting ∷ unused ∷ [])).1).0 ≡ []
called_once_only = signal_event_once 1 (waiting ∷ unused ∷ [])

unsubscribe_lem_example :
    unsubscribe (unused ∷ waiting ∷ unused ∷ []) 70
    ≡ (if ltb 2 (1 + 2) then some (0, deactivate 2 (unused ∷ waiting ∷ unused ∷ [])) else none)
unsubscribe_lem_example = unsubscribe_lem 70 (unused ∷ []) (unused ∷ []) waiting refl refl
