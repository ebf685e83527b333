-- ===== src/Callback/Tests.antt =====
-- The theorems about the timer list at concrete inputs.
use mcontrol.Base.{◌++◌, ℕ, ◌≡◌, refl, true, none, some, arith, List, [], ◌∷◌, einval}
use mcontrol.Base.Int.{pos, ◌+ℤ◌, neg}
use mcontrol.Clock.{Timespec, ts_add}
use mcontrol.Callback.{
  Callback, Timers, insert_callback, callback_abs, callback_rel, timed_out, thread_round,
  head_to_call, after_call,
}
use mcontrol.Base.Slots.{All}
use mcontrol.Callback.Order.{IsSorted, DueBy, DueAfter, insert_position}
use mcontrol.Callback.Timer.{called_twice}

abbrev at : ℕ → Timespec
at n = record { sec = pos n; nsec = pos 0 }

abbrev entry : ℕ → ℕ → Callback
entry id n = record { abstime = at n; callback = 1; arg = 0; id = id }

abbrev two : List Callback
two = entry 1 5 ∷ entry 2 9 ∷ []

two-IsSorted : IsSorted two
two-IsSorted = ((refl, tt), (tt, tt))

abbrev timers : Timers
timers = record { callbacks = two; callback_uid = 2; thread_running = true }

-- A callback that is due with another goes behind it.
insert_tie : insert_callback (entry 3 5) two ≡ entry 1 5 ∷ entry 3 5 ∷ entry 2 9 ∷ []
unfolding insert_callback
insert_tie = refl

rejects : (callback_abs (some (at 5)) none 0 timers).0 ≡ neg einval
unfolding callback_abs
rejects = refl

relative : (callback_rel (at 3) (at 4) (some 1) 0 timers).0 ≡ pos 3
unfolding callback_rel callback_abs ts_add ◌+ℤ◌
relative = refl

called_twice_example :
    let meanwhile = insert_callback (entry 2 5) (entry 1 9 ∷ []) in
    let left = after_call 1 meanwhile in
    (thread_round timed_out (at 9) (entry 1 9 ∷ []) ≡ (some 1, entry 1 9 ∷ []))
    × (head_to_call meanwhile ≡ some (entry 2 5))
    × (left ≡ entry 2 5 ∷ [])
    × (thread_round timed_out (at 9) left ≡ (some 2, left))
    × (head_to_call left ≡ some (entry 2 5))
    × (after_call 2 left ≡ [])
called_twice_example =
    called_twice (at 9) (at 9) (entry 1 9) (entry 2 5) [] refl refl refl (omega arith)

insert_position_example :
    (before after : List Callback) × (two ≡ before ++ after)
    × (insert_callback (entry 3 7) two ≡ before ++ entry 3 7 ∷ after)
    × All (DueBy (entry 3 7)) before
    × All (DueAfter (entry 3 7)) after
insert_position_example = insert_position (entry 3 7) two two-IsSorted
