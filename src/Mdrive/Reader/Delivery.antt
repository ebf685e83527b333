-- ===== src/Mdrive/Reader/Delivery.antt =====
-- drivers/mdrive/serial.c: what mdrive_async_read hands on to the transactions.
use mcontrol.Base.{
  ℕ, zero, suc, ◌+◌, ◌≤◌, ◌≡◌, refl, sym, subst, Bool, false, List, arith, ltb, leb, ◌==◌, if_cases,
  length, set,
}
use mcontrol.Mdrive.Response.{Response, blank}
use mcontrol.Mdrive.Reader.Progress.{IsReady, Keeps, read_round-Keeps}
use mcontrol.Mdrive.Reader.{
  bytes, Thread, Outcome, goes, overruns, stuck, buffer_size, is_complete, dispose, take_response,
  take_apart, advanced, and_then, process_loop, scratch, loaded, push_response, read_round,
}

-- The bookkeeping of a round: either the pointers are where the bytes have put them, and nothing is
-- queued; or they are back at the start, and one response is.
pub data Books (now load : ℕ) (queue : List Response) : Outcome → Type 0 where
  unqueued : (t : Thread) → t.load ≡ load → t.queue ≡ queue → Books now load queue (goes t)
  queued :
      (t : Thread) (r : Response)
      → t.load ≡ 0
      → t.process ≡ 0
      → t.response ≡ blank
      → t.queue ≡ push_response (record r { txid = now }) queue
      → Books now load queue (goes t)
  over : Books now load queue overruns

-- The same, before it is known that there is fuel.
data Loose (now load : ℕ) (queue : List Response) : Outcome → Type 0 where
  tight : {o : Outcome} → Books now load queue o → Loose now load queue o
  none_left : Loose now load queue stuck

dispose-Books :
    (now : ℕ) (r : Response) (t : Thread) → Books now t.load t.queue (goes (dispose now r t))
unfolding dispose
dispose-Books now r t =
    if_cases (λ u. Books now t.load t.queue (goes u)) r.event _ _ (λ e. unqueued _ refl refl)
      λ e.
        if_cases (λ u. Books now t.load t.queue (goes u)) (t.process == t.load) _ _
          (λ l. queued _ r refl refl refl refl) (λ l. unqueued _ refl refl)

take-Books : (now : ℕ) (t : Thread) → Books now t.load t.queue (take_response now t)
unfolding take_response
take-Books now t =
    if_cases (Books now t.load t.queue) (is_complete t.response) _ _
      (λ e.
        if_cases (Books now t.load t.queue) (leb 64 t.response.length) _ _ (λ l. over)
          (λ l.
            dispose-Books now
              (record t.response { buffer = set t.response.buffer t.response.length 0 }) t))
      (λ e. unqueued t refl refl)

pub loop_stops : (n now : ℕ) (t : Thread) → t.load ≤ t.process → process_loop n now t ≡ goes t
unfolding process_loop
loop_stops zero now t h = ground arith
loop_stops (suc n) now t h = ground arith

loop-Loose : (n now : ℕ) (t : Thread) → Loose now t.load t.queue (process_loop n now t)
unfolding process_loop take_apart and_then
loop-Loose zero now t =
    if_cases (Loose now t.load t.queue) (ltb t.process t.load) _ _ (λ e. none_left)
      (λ e. tight (unqueued t refl refl))
loop-Loose (suc n) now t =
    if_cases (Loose now t.load t.queue) (ltb t.process t.load) _ _
      (λ e. continue (take-Books now (advanced t)) (loop-Loose n now))
      (λ e. tight (unqueued t refl refl))
  where
    continue :
        {o : Outcome}
        → Books now t.load t.queue o
        → ((u : Thread) → Loose now u.load u.queue (process_loop n now u))
        → Loose now t.load t.queue (and_then o (process_loop n now))
    continue (unqueued u l q) f =
        subst (λ z. Loose now z t.queue (process_loop n now u)) l
          (subst (λ z. Loose now u.load z (process_loop n now u)) q (f u))
    continue (queued u r l p b q) f =
        subst (Loose now t.load t.queue) (sym (loop_stops n now u (omega arith)))
          (tight (queued u r l p b q))
    continue over f = tight over

round-Loose :
    (seen now : ℕ) (cs : List ℕ) (t : Thread)
    → Loose now (t.load + length cs) t.queue (read_round seen now (bytes cs) t)
unfolding read_round scratch
round-Loose seen now cs t =
    if_cases (Loose now (t.load + length cs) t.queue)
      (ltb (loaded cs (scratch seen t)).load buffer_size) _ _
      (λ e. loop-Loose _ now (loaded cs (scratch seen t))) (λ e. tight over)

with_fuel :
    {reason : Type 0} {calm : Bool} {now load : ℕ} {queue : List Response} {o : Outcome}
    → Keeps calm reason o
    → Loose now load queue o
    → Books now load queue o
with_fuel k (tight b) = b
with_fuel k none_left = elim k [ ]

-- A round that reads some bytes queues one response at most, however many are in them: where it
-- queues one, all that has been read is done with and the pointers are back at the start; else, be it
-- that events were signalled or responses freed, the bytes stay in the buffer and take up its room.
pub read_round-Books :
    {calm : Bool} (seen now : ℕ) (cs : List ℕ) (t : Thread)
    → IsReady calm t
    → Books now (t.load + length cs) t.queue (read_round seen now (bytes cs) t)
read_round-Books seen now cs t i =
    with_fuel
      (read_round-Keeps false seen now cs t
        (record { is_open = i.is_open; bounded = i.bounded; room = i.room; quiet = λ c. cc })
        (λ c. cc))
      (round-Loose seen now cs t)
