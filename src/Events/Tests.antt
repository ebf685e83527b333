-- ===== src/Events/Tests.antt =====
-- The registrations of lib/events.c: a new table, and one with a registration.
use mcontrol.Base.{◌≡◌, refl, true, false, none, some, [], ◌∷◌, replicate}
use mcontrol.Base.Int.{pos}
use mcontrol.Events.{ClientCallback, Registrations, find_registration, dispatch_signaled_event}
use mcontrol.Events.Balance.{IsBalanced}

abbrev unused : ClientCallback
unused = record {
  motor = pos 0;
  id = 0;
  active = false;
  event = 0;
  callback = none;
  user_data = 0;
  wait = false;
  waiting = false;
}

abbrev watching : ClientCallback
watching = record {
  motor = pos 3;
  id = 1;
  active = true;
  event = 2;
  callback = some 8;
  user_data = 5;
  wait = false;
  waiting = false;
}

abbrev fresh : Registrations
fresh = record { events = replicate 32 unused; count = pos 0; uid = 0 }

abbrev one : Registrations
one = record { events = watching ∷ replicate 31 unused; count = pos 1; uid = 1 }

told : (dispatch_signaled_event (pos 3) 2 one.events).0 ≡ (8, 5) ∷ []
unfolding dispatch_signaled_event
told = refl

fresh-IsBalanced : IsBalanced fresh
unfolding IsBalanced
fresh-IsBalanced = (refl, refl)

one-IsBalanced : IsBalanced one
unfolding IsBalanced
one-IsBalanced = (refl, refl)

found_one : find_registration (pos 3) 1 one.events ≡ some watching
unfolding find_registration
found_one = refl
