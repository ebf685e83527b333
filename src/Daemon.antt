-- ===== src/Daemon.antt =====
-- daemon/scheduler.c and daemon/worker.c: the worker threads, their queues, and the choice of a
-- worker for a request. A request is its type with a handle for the rest of the message.
pub mod Choice
pub mod Queue
pub mod Progress
mod Tests
use mcontrol.Base.{
  ℕ, suc, ◌+◌, ◌-◌, ◌==◌, Bool, true, not, ◌&&◌, List, [], ◌∷◌, ◌++◌, Option, none, some, ltb,
  if◌then◌else◌, einval, e2big,
}
use mathlib.Core.Option

pub record Request : Type 0 where
  pub type : ℕ
  pub body : ℕ

-- struct worker: `running` is `thread_id != 0`.
pub record Worker : Type 0 where
  pub queue : List Request
  pub queue_length : ℕ
  pub running : Bool

-- WorkerEnqueue: the new queue, and whether the worker's condition is signalled.
pub worker_enqueue : Worker → Request → Worker × Bool
worker_enqueue w m =
    let n = w.queue_length + 1 in (record w { queue = w.queue ++ m ∷ []; queue_length = n }, n == 1)

-- WorkerDequeue
pub worker_dequeue : Worker → ℕ × Worker
worker_dequeue w = elim w.queue [
  | [] ↦ (einval, w)
  | m ∷ rest ↦ (0, record w { queue = rest; queue_length = w.queue_length - 1 })
]

-- What DaemonWorkerThread dispatches: a request whose type is above TYPE__FIRST.
pub dispatch_request : ℕ → List Request → Request → List Request
dispatch_request type_first dispatched m =
    if ltb type_first m.type then dispatched ++ m ∷ [] else dispatched

-- The loop of ScheduleLeastBusy from slot `i` on: the slot of the worker that gets the request.
-- `none` is the uninitialized pointer `least_busy`, where no worker was found.
pub least_busy_from : ℕ → ℕ → Option ℕ → List Worker → Option ℕ
least_busy_from i shortest least [] = least
least_busy_from i shortest least (w ∷ ws) =
    let better = w.running && ltb w.queue_length shortest in
    let rest =
      least_busy_from (suc i) (if better then w.queue_length else shortest)
        (if better then some i else least) ws in
    if w.running && w.queue_length == 0 then some i else rest

-- ScheduleLeastBusy
pub schedule_least_busy : List Worker → Option ℕ
schedule_least_busy ws = least_busy_from 0 10000 none ws

-- DaemonWorkerAdd: the first slot with no thread gets a fresh worker, if its thread can be created.
pub worker_add : List Worker → ℕ × List Worker
worker_add [] = (e2big, [])
worker_add (w ∷ ws) =
    let (status, ws') = worker_add ws in
    if not w.running
    then (0, record { queue = []; queue_length = 0; running = true } ∷ ws)
    else (status, w ∷ ws')
