-- ===== src/Mdrive/Subscribers/OneShot.antt =====
-- drivers/mdrive/events.c: a subscription is served once.
use mcontrol.Base.{
  ℕ, suc, ◌+◌, ◌≡◌, refl, ap, ◌∙◌, inl, inr, Bool, true, false, not, ◌&&◌, Option, none, some, List,
  [], ◌∷◌, ◌++◌, map, arith, ltb, ◌==◌, if◌then◌else◌, Bool-cases, length, length-append, einval,
}
use mcontrol.Mdrive.Subscribers.{
  EventCallback, from_callback, deactivate, unsubscribe, is_called, signal_loop, signal_event,
}

-- The callbacks of the subscriptions that satisfy a test, in their order.
abbrev pub callbacks_of : (EventCallback → Bool) → List EventCallback → List ℕ
callbacks_of p [] = []
callbacks_of p (e ∷ es) = if p e then e.callback ∷ callbacks_of p es else callbacks_of p es

-- A subscription after a signal.
abbrev pub after_signal : ℕ → EventCallback → EventCallback
after_signal code e = if is_called code e then record e { active = false } else e

-- A signal calls the active subscriptions of its event that are not paused, each once and in the
-- order of the table; it makes these inactive and leaves all others as they are.
pub signal_event_lem :
    (code : ℕ) (table : List EventCallback)
    → ((signal_event code table).0 ≡ callbacks_of (is_called code) table)
      × ((signal_event code table).1 ≡ map (after_signal code) table)
unfolding signal_event signal_loop
signal_event_lem code [] = (refl, refl)
signal_event_lem code (e ∷ es) =
    let h = signal_event_lem code es in
    elim (Bool-cases (is_called code e)) [
      | inl c ↦ rw c (ap (◌∷◌ e.callback) h.0, ap (◌∷◌ (record e { active = false })) h.1)
      | inr c ↦ rw c (h.0, ap (◌∷◌ e) h.1)
    ]

called_once :
    (code : ℕ) (table : List EventCallback)
    → callbacks_of (is_called code) (map (after_signal code) table) ≡ []
called_once code [] = refl
called_once code (e ∷ es) = elim (Bool-cases (is_called code e)) [
  | inl c ↦ rw c (called_once code es)
  | inr c ↦ rw c (rw c (called_once code es))
]

-- A second signal of the same event calls nothing.
pub signal_event_once :
    (code : ℕ) (table : List EventCallback) → (signal_event code (signal_event code table).1).0 ≡ []
signal_event_once code table =
    (signal_event_lem code (signal_event code table).1).0
    ∙ ap (callbacks_of (is_called code)) (signal_event_lem code table).1
    ∙ called_once code table

abbrev pub lacks : ℕ → List EventCallback → Bool
lacks callback [] = true
lacks callback (e ∷ es) = not (e.callback == callback) && lacks callback es

from_callback-append :
    (callback : ℕ) (before after : List EventCallback) (e : EventCallback)
    → lacks callback before ≡ true
    → e.callback ≡ callback
    → from_callback callback (before ++ e ∷ after) ≡ suc (length after)
unfolding from_callback
from_callback-append callback [] after e h c = ground (arith, c)
from_callback-append callback (b ∷ before) after e h c =
    let different : (b.callback == callback) ≡ false = ground (arith, h) in
    rw different (from_callback-append callback before after e (ground (arith, h)) c)

-- To unsubscribe looks a callback up from the start of the table, but makes the slot inactive whose
-- number is the count of slots from there to the end; for a callback in the first slot that number
-- is behind the end of the table.
pub unsubscribe_lem :
    (callback : ℕ) (before after : List EventCallback) (e : EventCallback)
    → lacks callback before ≡ true
    → e.callback ≡ callback
    → unsubscribe (before ++ e ∷ after) callback ≡ (
        if ltb (suc (length after)) (length before + suc (length after))
        then some (0, deactivate (suc (length after)) (before ++ e ∷ after))
        else none)
unfolding unsubscribe
unsubscribe_lem callback before after e h c =
    let table = before ++ e ∷ after in
    ap
      (λ i.
        if i == 0
        then some (einval, table)
        else if ltb i (length table)
        then some (0, deactivate i table)
        else none)
      (from_callback-append callback before after e h c)
    ∙ rw (positive (length after)) (ap (limited table) (length-append before (e ∷ after)))
  where
    positive : (n : ℕ) → (suc n == 0) ≡ false
    positive n = ground arith

    limited : List EventCallback → ℕ → Option (ℕ × List EventCallback)
    limited table n =
        if ltb (suc (length after)) n then some (0, deactivate (suc (length after)) table) else none
