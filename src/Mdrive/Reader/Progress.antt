-- ===== src/Mdrive/Reader/Progress.antt =====
-- drivers/mdrive/serial.c: a round of mdrive_async_read ends, and leaves the thread as it has to be.
use mcontrol.Base.{
  ℕ, zero, suc, ◌+◌, ◌-◌, ◌≤◌, ◌<◌, ◌≡◌, refl, ap, ◌≢◌, ◌⊎◌, inl, inr, Bool, true, false, not, ◌&&◌,
  List, [], ◌∷◌, ◌++◌, arith, ltb, leb, ◌==◌, if◌then◌else◌, Bool-cases, if_cases, length, set,
}
use mcontrol.Mdrive.Response.{Response, Memory, blank}
use mcontrol.Mdrive.Response.Advance.{IsCalm, process_pos, process-HasNoEvent}
use mcontrol.Mdrive.Response.Bounds.{IsBounded, process-IsBounded}
use mcontrol.Mdrive.Reader.{
  bytes, Thread, Outcome, goes, ended, overruns, buffer_size, is_complete, dispose, take_response,
  take_apart, advanced, and_then, process_loop, scratch, loaded, store, read_round,
}

-- Between the rounds the response is open, and there is room for what is read and the zero. On a
-- calm line no event is about.
pub record IsReady (calm : Bool) (t : Thread) : Type 0 where
  pub is_open : t.response.processed ≡ false
  pub bounded : t.response.length ≤ 62
  pub room : t.load < buffer_size
  pub quiet : calm ≡ true → (t.response.event ≡ false) × IsCalm t.buffer

-- What may become of a thread that is ready: it goes on and is ready, it ends, or it writes behind
-- a buffer for one of the given reasons.
pub data Keeps (calm : Bool) (reason : Type 0) : Outcome → Type 0 where
  keeps : (t : Thread) → IsReady calm t → Keeps calm reason (goes t)
  ends : Keeps calm reason ended
  leaves : reason → Keeps calm reason overruns

blank-IsReady :
    {calm : Bool} (t : Thread)
    → t.response ≡ blank
    → t.load < buffer_size
    → (calm ≡ true → IsCalm t.buffer)
    → IsReady calm t
blank-IsReady t e h q = record {
  is_open = ap (λ r. r.processed) e;
  bounded = omega (arith, ap (λ r. r.length) e);
  room = h;
  quiet = λ c. (ap (λ r. r.event) e, q c);
}

dispose-IsReady :
    {calm : Bool} (now : ℕ) (r : Response) (t : Thread)
    → t.load < buffer_size
    → (calm ≡ true → IsCalm t.buffer)
    → IsReady calm (dispose now r t)
unfolding dispose
dispose-IsReady {calm} now r t h q =
    if_cases (IsReady calm) r.event _ _ (λ e. blank-IsReady _ refl h q)
      λ e.
        if_cases (IsReady calm) (t.process == t.load) _ _
          (λ l. blank-IsReady _ refl (omega arith) q) (λ l. blank-IsReady _ refl h q)

dispose-measure :
    (now : ℕ) (r : Response) (t : Thread)
    → (dispose now r t).load - (dispose now r t).process ≤ t.load - t.process
unfolding dispose
dispose-measure now r t = ground arith

open_of_incomplete :
    (r : Response) → is_complete r ≡ false → IsBounded r → (r.processed ≡ false) × (r.length ≤ 62)
open_of_incomplete r e (inl b) = (ground arith, b)
open_of_incomplete r e (inr b) = absurd (ground arith)

-- A response that is too long for its buffer is the event that lost a character.
event_of_overrun :
    (calm : Bool) (r : Response)
    → IsBounded r
    → leb 64 r.length ≡ true
    → (calm ≡ true → r.event ≡ false)
    → calm ≡ false
event_of_overrun calm r b l q = elim (Bool-cases calm) [
  | inl e ↦ absurd (no_event (q e) b)
  | inr e ↦ e
]
  where
    no_event : r.event ≡ false → IsBounded r → ⊥
    no_event e (inl k) = ground arith
    no_event e (inr (p, inl k)) = ground arith
    no_event e (inr (p, inr (k, v))) = ground arith

data Result (calm : Bool) (n : ℕ) : Outcome → Type 0 where
  result : (t : Thread) → IsReady calm t → t.load - t.process ≤ n → Result calm n (goes t)
  overrun : calm ≡ false → Result calm n overruns

take-Result :
    (calm : Bool) (now : ℕ) (t : Thread)
    → t.load < buffer_size
    → IsBounded t.response
    → (calm ≡ true → (t.response.event ≡ false) × IsCalm t.buffer)
    → Result calm (t.load - t.process) (take_response now t)
unfolding take_response
take-Result calm now t h b q =
    if_cases (Result calm (t.load - t.process)) (is_complete t.response) _ _
      (λ e.
        if_cases (Result calm (t.load - t.process)) (leb 64 t.response.length) _ _
          (λ l. overrun (event_of_overrun calm t.response b l (λ c. (q c).0)))
          λ l.
            let r : Response = record t.response {
              buffer = set t.response.buffer t.response.length 0;
            } in
            result (dispose now r t) (dispose-IsReady now r t h (λ c. (q c).1))
              (dispose-measure now r t))
      λ e.
        let o = open_of_incomplete t.response e b in
        result t (record { is_open = o.0; bounded = o.1; room = h; quiet = q }) (omega arith)

apart-Result :
    (calm : Bool) (n now : ℕ) (t : Thread)
    → IsReady calm t
    → t.process < t.load
    → t.load - t.process ≤ suc n
    → Result calm n (take_apart now t)
unfolding take_apart
apart-Result calm n now t i l h =
    weaken
      (take-Result calm now (advanced t) i.room
        (process-IsBounded t.buffer t.process (t.load - t.process) t.response (inl i.bounded))
        λ c. (
          process-HasNoEvent t.buffer t.process (t.load - t.process) t.response (i.quiet c).1
              (i.quiet c).0,
          (i.quiet c).1,
        ))
      (omega (
        arith,
        process_pos t.buffer t.process t.response (t.load - t.process) i.is_open (omega arith),
      ))
  where
    weaken : {m k : ℕ} {o : Outcome} → Result calm m o → m ≤ k → Result calm k o
    weaken (result u s d) q = result u s (omega arith)
    weaken (overrun c) q = overrun c

loop-Keeps :
    {reason : Type 0} (calm : Bool) (n now : ℕ) (t : Thread)
    → (calm ≡ false → reason)
    → IsReady calm t
    → t.load - t.process ≤ n
    → Keeps calm reason (process_loop n now t)
unfolding process_loop and_then
loop-Keeps {reason} calm zero now t why i h =
    if_cases (Keeps calm reason) (ltb t.process t.load) _ _ (λ e. absurd (ground arith))
      (λ e. keeps t i)
loop-Keeps {reason} calm (suc n) now t why i h =
    if_cases (Keeps calm reason) (ltb t.process t.load) _ _
      (λ e.
        continue (apart-Result calm n now t i (ground arith) h) (λ u. loop-Keeps calm n now u why))
      (λ e. keeps t i)
  where
    continue :
        {o : Outcome}
        → Result calm n o
        → ((u : Thread)
            → IsReady calm u
            → u.load - u.process ≤ n
            → Keeps calm reason (process_loop n now u))
        → Keeps calm reason (and_then o (process_loop n now))
    continue (result u s d) f = f u s d
    continue (overrun c) f = leaves (why c)

scratch-IsReady :
    {calm : Bool} (seen : ℕ) (t : Thread) → IsReady calm t → IsReady calm (scratch seen t)
unfolding scratch
scratch-IsReady seen t i = elim (Bool-cases (not (t.txid == 0) && not (t.txid == seen))) [
  | inl e ↦ rw e (blank-IsReady _ refl i.room (λ c. (i.quiet c).1))
  | inr e ↦
      rw e (record { is_open = i.is_open; bounded = i.bounded; room = i.room; quiet = i.quiet })
]

-- No byte of a list is the sign of an event.
abbrev pub AllCalm : List ℕ → Type 0
AllCalm [] = Unit
AllCalm (c ∷ cs) = (c ≢ b'!') × AllCalm cs

store-IsCalm :
    (cs : List ℕ) (start : ℕ) (mem : Memory)
    → AllCalm cs
    → IsCalm mem
    → IsCalm (store start (cs ++ 0 ∷ []) mem)
store-IsCalm [] start mem a q =
    λ n. if_cases (λ c. c ≢ b'!') (n == start) _ _ (λ e x. ground arith) (λ e. q n)
store-IsCalm (c ∷ cs) start mem a q =
    store-IsCalm cs (start + 1) (λ n. if n == start then c else mem n) a.1
      λ n. if_cases (λ x. x ≢ b'!') (n == start) _ _ (λ e. a.0) (λ e. q n)

-- A round of the reader thread ends, whatever is left from the rounds before: its inner loop goes
-- once at most for each byte not yet processed. Behind it the response is open, with at most 62
-- characters, and there is room in the buffer, unless the thread has ended or has written behind a
-- buffer; that it does when the bytes of a read fill the buffer of 512, or on a line with events.
-- On a calm line no byte is the '!' of an event, and it stays calm.
pub read_round-Keeps :
    (calm : Bool) (seen now : ℕ) (cs : List ℕ) (t : Thread)
    → IsReady calm t
    → (calm ≡ true → AllCalm cs)
    → Keeps calm
        ((buffer_size ≤ t.load + length cs) ⊎ (calm ≡ false))
        (read_round seen now (bytes cs) t)
unfolding read_round scratch
read_round-Keeps calm seen now cs t i a =
    let u = loaded cs (scratch seen t) in
    if_cases (Keeps calm ((buffer_size ≤ t.load + length cs) ⊎ (calm ≡ false)))
      (ltb u.load buffer_size) _ _
      (λ e. loop-Keeps calm (u.load - u.process) now u inr (ready e) (omega arith))
      (λ e. leaves (inl (full e)))
  where
    s : IsReady calm (scratch seen t)
    s = scratch-IsReady seen t i

    full :
        ltb (loaded cs (scratch seen t)).load buffer_size ≡ false → buffer_size ≤ t.load + length cs
    full e = ground (arith, e)

    ready :
        ltb (loaded cs (scratch seen t)).load buffer_size ≡ true
        → IsReady calm (loaded cs (scratch seen t))
    ready e = record {
      is_open = s.is_open;
      bounded = s.bounded;
      room = ground (arith, e);
      quiet = λ c. (
        (s.quiet c).0,
        store-IsCalm cs (scratch seen t).load (scratch seen t).buffer (a c) (s.quiet c).1,
      );
    }
