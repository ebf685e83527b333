-- ===== src/Mdrive/Reader/Answer.antt =====
-- drivers/mdrive/serial.c: mdrive_async_read hands the answer of a unit on to the transaction.
use mcontrol.Base.{
  ℕ, zero, suc, ◌+◌, ◌-◌, ◌≤◌, ◌<◌, ◌≡◌, refl, sym, ap, ◌∙◌, subst, true, false, not, ◌&&◌, List,
  [], ◌∷◌, ◌++◌, arith, ltb, leb, ◌==◌, if◌then◌else◌, if_cases, length, set, take, length-append,
}
use mathlib.Core.List.{append_assoc}
use mcontrol.Mdrive.Checksum.{calc_checksum}
use mcontrol.Mdrive.Response.{Response, Memory, blank, process_response}
use mcontrol.Mdrive.Response.Plain.{Reads, AllPlain}
use mcontrol.Mdrive.Response.Frame.{HasFrame, IsNext, IsRead, process_response-HasFrame}
use mcontrol.Mdrive.Reader.Delivery.{loop_stops}
use mcontrol.Mdrive.Reader.{
  bytes, Thread, Outcome, goes, buffer_size, is_complete, dispose, take_response, take_apart,
  advanced, and_then, process_loop, scratch, loaded, store, push_response, read_round,
}

store_before : (xs : List ℕ) (start a : ℕ) (mem : Memory) → a < start → store start xs mem a ≡ mem a
store_before [] start a mem h = refl
store_before (x ∷ xs) start a mem h =
    store_before xs (start + 1) a (λ n. if n == start then x else mem n) (omega arith)
    ∙ ground arith

-- What has been stored is read again.
store-Reads : (xs : List ℕ) (start : ℕ) (mem : Memory) → Reads (store start xs mem) start xs
store-Reads [] start mem = tt
store-Reads (x ∷ xs) start mem = (
  store_before xs (start + 1) start (λ n. if n == start then x else mem n) (omega arith)
      ∙ ground arith,
  subst (λ a. Reads (store (start + 1) xs (λ n. if n == start then x else mem n)) a xs)
      (omega arith) (store-Reads xs (start + 1) (λ n. if n == start then x else mem n)),
)

Reads-append :
    (mem : Memory) (xs ys : List ℕ) (start : ℕ)
    → Reads mem start (xs ++ ys)
    → Reads mem start xs × Reads mem (start + length xs) ys
Reads-append mem [] ys start h = (tt, subst (λ a. Reads mem a ys) (omega arith) h)
Reads-append mem (x ∷ xs) ys start h =
    let (a, b) = Reads-append mem xs ys (suc start) h.1 in
    ((h.0, a), subst (λ a. Reads mem a ys) (omega arith) b)

-- A transmission of a unit in checksum mode.
abbrev pub transmission : List ℕ → List ℕ
transmission cs = 0x06 ∷ cs ++ calc_checksum cs ∷ 13 ∷ 10 ∷ []

transmission-HasFrame :
    (cs : List ℕ) (start : ℕ) (mem : Memory)
    → AllPlain cs
    → HasFrame (store start (transmission cs ++ 0 ∷ []) mem) start cs
transmission-HasFrame cs start mem p =
    let m = store start (transmission cs ++ 0 ∷ []) mem in
    let all = store-Reads (transmission cs ++ 0 ∷ []) start mem in
    let (text, rest) = Reads-append m cs (calc_checksum cs ∷ 13 ∷ 10 ∷ 0 ∷ []) (suc start) (
      subst (Reads m (suc start)) (append_assoc cs (calc_checksum cs ∷ 13 ∷ 10 ∷ []) (0 ∷ []))
        all.1) in
    record {
      ack = all.0;
      characters = subst (λ a. Reads m a cs) (omega arith) text;
      plain = p;
      checksum = ap m (omega arith) ∙ rest.0;
      carriage_return = ap m (omega arith) ∙ rest.1.0;
      line_feed = ap m (omega arith) ∙ rest.1.1.0;
      next =
          subst IsNext (sym (ap m (omega arith) ∙ rest.1.1.1.0))
            (record { not_prompt = omega arith; not_query = omega arith; not_ack = omega arith });
    }

take-set : (xs : List ℕ) (n x : ℕ) → take n (set xs n x) ≡ take n xs
take-set [] zero x = refl
take-set [] (suc n) x = refl
take-set (y ∷ xs) zero x = refl
take-set (y ∷ xs) (suc n) x = ap (λ l. y ∷ l) (take-set xs n x)

-- What a transaction finds on top of its queue.
pub record IsAnswer (cs : List ℕ) (txid : ℕ) (r : Response) : Type 0 where
  pub of_transaction : r.txid ≡ txid
  pub characters : take (length cs) r.buffer ≡ cs
  pub length_lem : r.length ≡ length cs
  pub ack : r.ack ≡ true
  pub nack : r.nack ≡ false
  pub error : r.error ≡ false
  pub event : r.event ≡ false
  pub checksum_good : r.checksum_good ≡ true

-- The outcome hands the answer to queue_push, with the pointers at the start and a new response.
data Delivers (cs : List ℕ) (now : ℕ) (queue : List Response) : Outcome → Type 0 where
  delivers :
      (t : Thread) (r : Response)
      → IsAnswer cs now r
      → t.load ≡ 0
      → t.process ≡ 0
      → t.response ≡ blank
      → t.queue ≡ push_response r queue
      → Delivers cs now queue (goes t)

-- The answer is on top of the queue.
pub data Queues (cs : List ℕ) (now : ℕ) (queue : List Response) : Outcome → Type 0 where
  queued :
      (t : Thread) (r : Response)
      → IsAnswer cs now r
      → t.load ≡ 0
      → t.process ≡ 0
      → t.response ≡ blank
      → t.queue ≡ r ∷ queue
      → Queues cs now queue (goes t)

Delivers-Queues :
    (cs : List ℕ) (now : ℕ) (queue : List Response) {o : Outcome}
    → length queue < 16
    → Delivers cs now queue o
    → Queues cs now queue o
Delivers-Queues cs now queue h (delivers t r a x y z q) = queued t r a x y z (q ∙ (ground arith))

closed : Response → Response
closed r = record r { buffer = set r.buffer r.length 0 }

closed-IsAnswer :
    (cs : List ℕ) (now n : ℕ) (r : Response)
    → IsRead cs (n, r)
    → IsAnswer cs now (record (closed r) { txid = now })
unfolding closed
closed-IsAnswer cs now n r i = record {
  of_transaction = refl;
  characters =
      ap (λ k. take (length cs) (set r.buffer k 0)) i.length_lem
      ∙ take-set r.buffer (length cs) 0
      ∙ i.characters;
  length_lem = i.length_lem;
  ack = i.ack;
  nack = i.nack;
  error = i.error;
  event = i.event;
  checksum_good = i.checksum_good;
}

dispose-Delivers :
    (cs : List ℕ) (now n : ℕ) (r : Response) (t : Thread)
    → IsRead cs (n, r)
    → t.process ≡ t.load
    → Delivers cs now t.queue (goes (dispose now (closed r) t))
unfolding dispose closed
dispose-Delivers cs now n r t i e =
    if_cases (λ u. Delivers cs now t.queue (goes u)) r.event _ _
      (λ v. absurd (ground (arith, i.event)))
      λ v.
        if_cases (λ u. Delivers cs now t.queue (goes u)) (t.process == t.load) _ _
          (λ q. delivers _ _ (closed-IsAnswer cs now n r i) refl refl refl refl)
          (λ q. absurd (ground arith))

take-Delivers :
    (cs : List ℕ) (now n : ℕ) (t : Thread)
    → IsRead cs (n, t.response)
    → length cs ≤ 62
    → t.process ≡ t.load
    → Delivers cs now t.queue (take_response now t)
unfolding take_response closed
take-Delivers cs now n t i l e =
    if_cases (Delivers cs now t.queue) (is_complete t.response) _ _
      (λ c.
        if_cases (Delivers cs now t.queue) (leb 64 t.response.length) _ _
          (λ b. absurd (ground (arith, i.length_lem)))
          (λ b. dispose-Delivers cs now n t.response t i e))
      (λ c. absurd (ground (arith, i.processed)))

apart-Delivers :
    (cs : List ℕ) (now : ℕ) (t : Thread)
    → HasFrame t.buffer t.process cs
    → 1 ≤ length cs
    → length cs ≤ 62
    → t.response ≡ blank
    → t.load - t.process ≡ length cs + 4
    → t.process ≤ t.load
    → Delivers cs now t.queue (take_apart now t)
unfolding take_apart
apart-Delivers cs now t f l u b e h =
    let p = process_response-HasFrame t.buffer t.process cs f l u in
    let q : IsRead cs (process_response t.buffer t.process t.response (t.load - t.process)) =
      rw (b, e) p in
    take-Delivers cs now (process_response t.buffer t.process t.response (t.load - t.process)).0
      (advanced t) q u (omega (arith, q.consumed))

loop-Delivers :
    (cs : List ℕ) (now n : ℕ) (t : Thread)
    → HasFrame t.buffer t.process cs
    → 1 ≤ length cs
    → length cs ≤ 62
    → t.response ≡ blank
    → t.load - t.process ≡ length cs + 4
    → t.process ≤ t.load
    → Delivers cs now t.queue (process_loop (suc n) now t)
unfolding process_loop and_then
loop-Delivers cs now n t f l u b e h =
    if_cases (Delivers cs now t.queue) (ltb t.process t.load) _ _
      (λ p. continue (apart-Delivers cs now t f l u b e h)) (λ p. absurd (ground arith))
  where
    continue :
        {o : Outcome}
        → Delivers cs now t.queue o
        → Delivers cs now t.queue (and_then o (process_loop n now))
    continue (delivers v r a x y z q) =
        subst (Delivers cs now t.queue) (sym (loop_stops n now v (omega arith)))
          (delivers v r a x y z q)

length-transmission : (cs : List ℕ) → length (transmission cs) ≡ length cs + 4
length-transmission cs = omega (arith, length-append cs (calc_checksum cs ∷ 13 ∷ 10 ∷ []))

scratch-blank : (seen : ℕ) (t : Thread) → t.response ≡ blank → (scratch seen t).response ≡ blank
unfolding scratch
scratch-blank seen t b =
    if_cases (λ r. r ≡ blank) (not (t.txid == 0) && not (t.txid == seen)) _ _ (λ e. refl) (λ e. b)

round-Delivers :
    (seen now : ℕ) (cs : List ℕ) (t : Thread)
    → AllPlain cs
    → 1 ≤ length cs
    → length cs ≤ 62
    → t.response ≡ blank
    → t.process ≡ t.load
    → t.load + length cs + 4 < buffer_size
    → Delivers cs now t.queue (read_round seen now (bytes (transmission cs)) t)
unfolding read_round scratch
round-Delivers seen now cs t p l u b e h =
    let s : Thread = scratch seen t in
    let v : Thread = loaded (transmission cs) s in
    if_cases (Delivers cs now t.queue) (ltb v.load buffer_size) _ _
      (λ q.
        subst (λ n. Delivers cs now t.queue (process_loop n now v)) {x = suc (length cs + 3)}
          {y = v.load - v.process} (omega (arith, length-transmission cs))
          (loop-Delivers cs now (length cs + 3) v
            (subst (λ a. HasFrame v.buffer a cs) (sym e)
              (transmission-HasFrame cs t.load t.buffer p))
            l u (scratch-blank seen t b) (omega (arith, length-transmission cs)) (omega arith)))
      (λ q. absurd (ground (arith, length-transmission cs)))

-- The answer of a unit in checksum mode, an ACK, 1 to 62 plain characters, their checksum, CR and LF,
-- that comes in one read while the thread has nothing unprocessed, is queued whole: the response on
-- top of the queue has the id of the transaction, exactly the characters, the acknowledgement and a
-- good checksum. The bytes and the zero behind them have to fit in the buffer of 512, and the queue has
-- to have room: fewer than 16 responses.
pub read_round-transmission :
    (seen now : ℕ) (cs : List ℕ) (t : Thread)
    → AllPlain cs
    → 1 ≤ length cs
    → length cs ≤ 62
    → t.response ≡ blank
    → t.process ≡ t.load
    → t.load + length cs + 4 < buffer_size
    → length t.queue < 16
    → Queues cs now t.queue (read_round seen now (bytes (transmission cs)) t)
read_round-transmission seen now cs t p l u b e h room =
    Delivers-Queues cs now t.queue room (round-Delivers seen now cs t p l u b e h)
