-- ===== src/Callback.antt =====
-- lib/callback.c: the timer list. The doubly linked list that `callbacks` heads is a list, in its
-- order from the head; a callback function and its argument are handles. What runs with the mutex
-- held is one step. mcCallbackAbs has three, `request`, `enter_callback` and `start_thread`, of which only
-- the second holds it; a round of the timer thread has three, `thread_round`, `head_to_call`, which
-- reads the head after the unlock, and `after_call`. The condition variable only wakes the thread.
pub mod Order
pub mod Timer
mod Tests
use mcontrol.Base.{
  ℕ, ◌+◌, ◌==◌, Bool, true, ◌||◌, List, [], ◌∷◌, Option, none, some, einval, if◌then◌else◌,
}
use mcontrol.Base.Int.{ℤ, pos, neg, ltb_ℤ}
use mcontrol.Clock.{Timespec, nano, ts_add, later}

-- struct callback_list
pub record Callback : Type 0 where
  pub abstime : Timespec
  pub callback : ℕ
  pub arg : ℕ
  pub id : ℕ

-- The static variables of the file.
pub record Timers : Type 0 where
  pub callbacks : List Callback
  pub callback_uid : ℕ
  pub thread_running : Bool

-- The new callback goes before the first one that is due after it.
pub insert_callback : Callback → List Callback → List Callback
insert_callback info [] = info ∷ []
insert_callback info (current ∷ rest) =
    if later current.abstime info.abstime
    then info ∷ current ∷ rest
    else current ∷ insert_callback info rest

abbrev pub invalid_time : Timespec → Bool
invalid_time w = ltb_ℤ w.nsec (pos 0) || (ltb_ℤ nano w.nsec || ltb_ℤ w.sec (pos 0))

-- mcCallbackAbs before the lock: the checks, where a null pointer is `none`, and the new callback.
pub request : Option Timespec → Option ℕ → ℕ → Timers → Option Callback × Timers
request none f arg s = (none, s)
request (some w) none arg s = (none, s)
request (some w) (some f) arg s =
    let id = s.callback_uid + 1 in
    if invalid_time w then (none, s) else (
      some (record { abstime = w; callback = f; arg = arg; id = id }),
      record s { callback_uid = id },
    )

-- mcCallbackAbs with the lock held.
pub enter_callback : Callback → Timers → Timers
enter_callback info s = record s { callbacks = insert_callback info s.callbacks }

-- mcCallbackAbs behind the lock: a timer thread is started if there is none.
pub start_thread : Timers → Timers
start_thread s = record s { thread_running = true }

entered : Option Callback × Timers → ℤ × Timers
unfolding enter_callback start_thread
entered (none, s) = (neg einval, s)
entered (some info, s) = (pos info.id, start_thread (enter_callback info s))

-- mcCallbackAbs when no other thread runs between its three steps.
pub callback_abs : Option Timespec → Option ℕ → ℕ → Timers → ℤ × Timers
unfolding request entered
callback_abs w f arg s = entered (request w f arg s)

-- mcCallback: the time is relative to the clock's `now`.
pub callback_rel : Timespec → Timespec → Option ℕ → ℕ → Timers → ℤ × Timers
callback_rel now w f arg s = callback_abs (some (ts_add now w)) f arg s

-- mcCallbackDequeue on the list: the result is 0, or EINVAL where no callback has the id.
pub dequeue : ℕ → List Callback → ℕ × List Callback
dequeue id [] = (einval, [])
dequeue id (current ∷ rest) =
    let (status, rest') = dequeue id rest in
    if current.id == id then (0, rest) else (status, current ∷ rest')

-- mcCallbackCancel
pub callback_cancel : ℕ → Timers → ℕ × Timers
callback_cancel id s =
    let (status, rest) = dequeue id s.callbacks in (status, record s { callbacks = rest })

-- What pthread_cond_timedwait returns to the timer thread.
pub data Woken : Type 0 where
  signalled timed_out bad_time : Woken

-- _mcCallbackListPop
pub list_pop : List Callback → List Callback
list_pop [] = []
list_pop (c ∷ rest) = rest

-- The end of a round of _mcCallbackThread: the clock is checked again for the head, whose id is kept.
pub due : Timespec → List Callback → Option ℕ
due now [] = none
due now (head ∷ rest) = if later head.abstime now then none else some head.id

-- One round of _mcCallbackThread up to the unlock: the id of the head, if it is due.
pub thread_round : Woken → Timespec → List Callback → Option ℕ × List Callback
unfolding due list_pop
thread_round w now [] = (none, [])
thread_round signalled now (c ∷ rest) = (none, c ∷ rest)
thread_round timed_out now (c ∷ rest) = (due now (c ∷ rest), c ∷ rest)
thread_round bad_time now (c ∷ rest) = (due now (list_pop (c ∷ rest)), list_pop (c ∷ rest))

-- The callback that is called behind the unlock: the head of the list as it is then; none where
-- the code follows a null pointer.
pub head_to_call : List Callback → Option Callback
head_to_call [] = none
head_to_call (c ∷ rest) = some c

-- The end of the round: the callback of the id that was kept is taken off the list.
pub after_call : ℕ → List Callback → List Callback
unfolding dequeue
after_call id cs = (dequeue id cs).1
