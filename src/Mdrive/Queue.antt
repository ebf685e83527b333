-- ===== src/Mdrive/Queue.antt =====
-- drivers/mdrive/queue.c: the responses of a port that wait for the transaction, an array of
-- pointers that is used as a stack. A response is a handle.
pub mod Stack
mod Tests
use mcontrol.Base.{
  ℕ, zero, suc, ◌+◌, ◌-◌, Option, none, some, List, ltb, leb, ◌==◌, if◌then◌else◌, length, get_or,
  set, replicate,
}

-- struct queue
pub record Queue : Type 0 where
  pub size : ℕ
  pub length : ℕ
  pub head : List ℕ

-- mdrive_response_queue_init
abbrev pub response_queue_init : Queue
response_queue_init = record { size = 16; length = 0; head = replicate 16 0 }

-- queue_push: a response for which there is no room is dropped.
pub queue_push : Queue → ℕ → Queue
queue_push q response =
    if leb q.size q.length
    then q
    else record q { head = set q.head q.length response; length = q.length + 1 }

-- queue_peek
pub queue_peek : Queue → Option ℕ
queue_peek q = if ltb q.length 1 then none else some (get_or q.head (q.length - 1) 0)

-- queue_pop
pub queue_pop : Queue → Option ℕ × Queue
queue_pop q =
    if ltb q.length 1
    then (none, q)
    else (some (get_or q.head (q.length - 1) 0), record q { length = q.length - 1 })

-- The loop of queue_flush; no fuel, no result.
flush_loop : ℕ → Queue → Option Queue
unfolding queue_pop
flush_loop zero q = none
flush_loop (suc n) q =
    let rest = flush_loop n (queue_pop q).1 in if q.length == 0 then some q else rest

-- queue_flush
pub queue_flush : Queue → Option Queue
unfolding flush_loop
queue_flush q = flush_loop (q.length + 1) q
