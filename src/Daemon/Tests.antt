-- ===== src/Daemon/Tests.antt =====
-- The theorems about workers at concrete inputs.
use mcontrol.Base.{ℕ, ◌+◌, ◌*◌, ◌≡◌, refl, true, false, none, some, [], ◌∷◌, ◌++◌, length}
use mcontrol.Daemon.{
  Worker, Request, worker_enqueue, worker_add, schedule_least_busy, least_busy_from,
}
use mcontrol.Daemon.Queue.{System, Reach, here, next, put, waiting, idle, above, served_in_order}
use mcontrol.Daemon.Progress.{turns, turns_drain}

abbrev worker : ℕ → Worker
worker n = record { queue = []; queue_length = n; running = true }

abbrev off : Worker
off = record { queue = []; queue_length = 0; running = false }

shortest_queue : schedule_least_busy (worker 3 ∷ off ∷ worker 2 ∷ worker 2 ∷ []) ≡ some 2
unfolding schedule_least_busy least_busy_from
shortest_queue = refl

no_worker : schedule_least_busy (off ∷ off ∷ []) ≡ none
unfolding schedule_least_busy least_busy_from
no_worker = refl

first_free : worker_add (worker 3 ∷ off ∷ []) ≡ (0, worker 3 ∷ worker 0 ∷ [])
unfolding worker_add
first_free = refl

abbrev request : Request
request = record { type = 105; body = 1 }

abbrev given : System
given = record (idle 100) {
  worker = record { queue = request ∷ []; queue_length = 1; running = true };
  testing = true;
  given = request ∷ [];
}

given_reached : Reach (idle 100) given
unfolding worker_enqueue
given_reached = next {t = idle 100} {u = given} here (put request refl)

served_in_order_example :
    (given.given ≡ given.done ++ given.worker.queue)
    × (given.worker.queue_length ≡ length given.worker.queue)
    × (given.dispatched ≡ above given.type_first given.done)
served_in_order_example = served_in_order 100 given_reached

abbrev asleep : System
asleep = record (idle 100) { phase = waiting }

turns_drain_example : (turns (0 + (2 * length given.worker.queue + 2)) given).done ≡ given.given
turns_drain_example = turns_drain 100 0 given_reached
