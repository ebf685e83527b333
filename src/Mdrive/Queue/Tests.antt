-- ===== src/Mdrive/Queue/Tests.antt =====
-- The queue of drivers/mdrive/queue.c, new.
use mcontrol.Base.{◌≡◌, refl, some, arith}
use mcontrol.Mdrive.Queue.{response_queue_init, queue_push, queue_pop, queue_flush}
use mcontrol.Mdrive.Queue.Stack.{
  stack, IsQueue, top, below_top, stack-queue_push, stack-queue_pop, queue_flush_lem,
}

init-IsQueue : IsQueue response_queue_init
unfolding IsQueue
init-IsQueue = (refl, omega arith)

stack-queue_pop_example :
    IsQueue (queue_pop (queue_push response_queue_init 7)).1
    × ((queue_pop (queue_push response_queue_init 7)).0
        ≡ top (stack (queue_push response_queue_init 7)))
    × (stack (queue_pop (queue_push response_queue_init 7)).1
        ≡ below_top (stack (queue_push response_queue_init 7)))
stack-queue_pop_example =
    stack-queue_pop (queue_push response_queue_init 7)
      (stack-queue_push response_queue_init 7 init-IsQueue).0

flushed : queue_flush (record response_queue_init { length = 3 }) ≡ some response_queue_init
flushed = queue_flush_lem (record response_queue_init { length = 3 })
