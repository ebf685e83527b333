-- ===== src/Mdrive/Reader.antt =====
-- drivers/mdrive/serial.c: mdrive_async_read, the thread that reads what the units of a port send,
-- takes it apart with mdrive_process_response, and queues the responses for the transactions. What
-- read() returns is an argument, and so is the transaction id of the port, which other threads
-- change; it is read once before the bytes are looked at and once when a response is queued. The
-- response queue of 16 is a stack, its top first, as in Mdrive/Transaction.
pub mod Progress
pub mod Delivery
pub mod Answer
mod Tests
use mcontrol.Base.{
  ℕ, zero, suc, ◌+◌, ◌-◌, Bool, not, ◌&&◌, ◌||◌, List, [], ◌∷◌, ◌++◌, ltb, leb, ◌==◌, if◌then◌else◌,
  length, set,
}
use mcontrol.Mdrive.Response.{Response, Memory, blank, process_response}

-- What read() gives: some bytes, or -1 with an error number.
pub data Read : Type 0 where
  bytes : List ℕ → Read
  failed : ℕ → Read

-- The variables of mdrive_async_read, the offsets of its pointers into `buffer`, with the queue of
-- the port and the events signalled, the first of them first.
pub record Thread : Type 0 where
  pub buffer : Memory
  pub load : ℕ
  pub process : ℕ
  pub txid : ℕ
  pub response : Response
  pub queue : List Response
  pub signalled : List (ℕ × ℕ)

pub data Outcome : Type 0 where
  goes : Thread → Outcome
  -- `break` out of the loop.
  ended : Outcome
  -- A write behind the 512 bytes of the thread, or the 64 of a response.
  overruns : Outcome
  -- The model's own: no fuel.
  stuck : Outcome

abbrev pub buffer_size : ℕ
buffer_size = 512

abbrev pub store : ℕ → List ℕ → Memory → Memory
store start [] mem = mem
store start (c ∷ cs) mem = store (start + 1) cs (λ a. if a == start then c else mem a)

-- queue_push
abbrev pub push_response : Response → List Response → List Response
push_response r queue = if leb 16 (length queue) then queue else r ∷ queue

-- The response is done with: acknowledged with nothing yet, or processed.
abbrev pub is_complete : Response → Bool
is_complete r = r.length == 0 && (r.ack || r.nack) || r.processed

-- What happens to a complete response: its event is signalled, or it is queued if it ends what has
-- been read, and freed if it does not.
pub dispose : ℕ → Response → Thread → Thread
dispose now r t =
    if r.event
    then record t { signalled = t.signalled ++ (r.address, r.code) ∷ []; response = blank }
    else if t.process == t.load
    then record t {
      load = 0;
      process = 0;
      queue = push_response (record r { txid = now }) t.queue;
      response = blank;
    }
    else record t { response = blank }

-- The part of the inner loop behind mdrive_process_response.
pub take_response : ℕ → Thread → Outcome
unfolding dispose
take_response now t =
    let r = t.response in
    if is_complete r
    then if leb 64 r.length
      then overruns
      else goes (dispose now (record r { buffer = set r.buffer r.length 0 }) t)
    else goes t

-- A round of the inner loop.
abbrev pub advanced : Thread → Thread
advanced t =
    let (n, r) = process_response t.buffer t.process t.response (t.load - t.process) in
    record t { process = t.process + n; response = r }

pub take_apart : ℕ → Thread → Outcome
unfolding take_response
take_apart now t = take_response now (advanced t)

pub and_then : Outcome → (Thread → Outcome) → Outcome
and_then (goes t) f = f t
and_then ended f = ended
and_then overruns f = overruns
and_then stuck f = stuck

-- `while (process < load)`
pub process_loop : ℕ → ℕ → Thread → Outcome
unfolding take_apart and_then
process_loop zero now t = if ltb t.process t.load then stuck else goes t
process_loop (suc n) now t =
    let rest = and_then (take_apart now t) (process_loop n now) in
    if ltb t.process t.load then rest else goes t

-- What has been received of a response is dropped when a new transaction has begun.
pub scratch : ℕ → Thread → Thread
scratch seen t =
    let stale = not (t.txid == 0) && not (t.txid == seen) in
    record t { response = if stale then blank else t.response; txid = seen }

-- The bytes and the zero behind them.
abbrev pub loaded : List ℕ → Thread → Thread
loaded cs t =
    let end = t.load + length cs in
    record t { buffer = store t.load (cs ++ 0 ∷ []) t.buffer; load = end }

-- A round of mdrive_async_read: `seen` and `now` are the transaction id of the port after the read
-- and when a response is queued. read() is given room for `512 - load` bytes.
pub read_round : ℕ → ℕ → Read → Thread → Outcome
unfolding scratch process_loop
read_round seen now (failed errno) t = if errno == 9 then ended else goes (scratch seen t)
read_round seen now (bytes cs) t =
    let t' = loaded cs (scratch seen t) in
    if ltb t'.load buffer_size then process_loop (t'.load - t'.process) now t' else overruns
