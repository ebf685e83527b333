-- ===== src/Mdrive/Response/Advance.antt =====
-- mdrive_process_response of drivers/mdrive/serial.c gets on: it consumes what it is given.
use mcontrol.Base.{ℕ, zero, suc, ◌+◌, ◌≤◌, ◌≡◌, ◌≢◌, false, arith, ltb, if_cases}
use mcontrol.Mdrive.Response.Bounds.{step_cases}
use mcontrol.Mdrive.Response.{
  good, store_char, normal_char, default_char, after_ack, Response, Memory, process_response, step,
  loop, finish_response, end_of_line,
}

step_ge : (mem : Memory) (base i : ℕ) (r : Response) → i ≤ (step mem base i r).0
unfolding step end_of_line
step_ge mem base i r = ground arith

loop_ge : (mem : Memory) (base n i : ℕ) (r : Response) → i ≤ (loop mem base n i r).0
unfolding loop
loop_ge mem base zero i r = omega arith
loop_ge mem base (suc n) i r =
    if_cases {A = ℕ × Response} (λ t. i ≤ t.0) r.processed _ _ (λ e. omega arith)
      λ e. omega (
        arith,
        step_ge mem base i r,
        loop_ge mem base n ((step mem base i r).0 + 1) (step mem base i r).1,
      )

loop_pos :
    (mem : Memory) (base n : ℕ) (r : Response)
    → r.processed ≡ false
    → 1 ≤ n
    → 1 ≤ (loop mem base n 0 r).0
unfolding loop
loop_pos mem base zero r e h = absurd (omega arith)
loop_pos mem base (suc n) r e h =
    if_cases {A = ℕ × Response} (λ t. 1 ≤ t.0) r.processed _ _ (λ p. absurd (ground arith))
      λ p.
        let s = step mem base 0 r in
        omega (arith, step_ge mem base 0 r, loop_ge mem base n (s.0 + 1) s.1)

-- A response that is not complete takes in a byte at least.
pub process_pos :
    (mem : Memory) (base : ℕ) (r : Response) (n : ℕ)
    → r.processed ≡ false
    → 1 ≤ n
    → 1 ≤ (process_response mem base r n).0
unfolding process_response finish_response
process_pos mem base r n e h =
    if_cases {A = ℕ × Response} (λ t. 1 ≤ t.0) (ltb n 1) _ _ (λ p. absurd (ground arith))
      λ p. loop_pos mem base n r e h

-- No byte is the sign of an event.
abbrev pub IsCalm : Memory → Type 0
IsCalm mem = (a : ℕ) → mem a ≢ b'!'

abbrev HasNoEvent : Response → Type 0
HasNoEvent r = r.event ≡ false

store-HasNoEvent : (c : ℕ) (r : Response) → HasNoEvent r → HasNoEvent (store_char c r)
unfolding store_char
store-HasNoEvent c r h = h

normal-HasNoEvent : (c : ℕ) (r : Response) → HasNoEvent r → HasNoEvent (normal_char c r)
unfolding normal_char
normal-HasNoEvent c r h =
    ground (arith, store-HasNoEvent c r h, store-HasNoEvent c (record r { in_error = false }) h)

default-HasNoEvent :
    (mem : Memory) (base i : ℕ) (r : Response)
    → HasNoEvent r
    → HasNoEvent (default_char mem base i r)
unfolding default_char
default-HasNoEvent mem base i r h =
    if_cases HasNoEvent (good mem base i r) _ _ (λ e. h)
      (λ e. normal-HasNoEvent (mem (base + i)) r h)

line-HasNoEvent :
    (mem : Memory) (base i : ℕ) (r : Response)
    → HasNoEvent r
    → HasNoEvent (end_of_line mem base i r).1
unfolding end_of_line
line-HasNoEvent mem base i r h = ground arith

ack-HasNoEvent : (prev : ℕ) (r : Response) → HasNoEvent r → HasNoEvent (after_ack prev r)
unfolding after_ack
ack-HasNoEvent prev r h = ground arith

step-HasNoEvent :
    (mem : Memory) (base i : ℕ) (r : Response)
    → IsCalm mem
    → HasNoEvent r
    → HasNoEvent (step mem base i r).1
step-HasNoEvent mem base i r q h =
    step_cases HasNoEvent mem base i r (line-HasNoEvent mem base i r h)
      (normal-HasNoEvent (mem (base + i)) r h) (λ n. h) h (λ p. ack-HasNoEvent p _ h)
      (λ p. ack-HasNoEvent p _ h) h (λ c. absurd (q (base + i) c)) h
      (default-HasNoEvent mem base i r h)

loop-HasNoEvent :
    (mem : Memory) (base n i : ℕ) (r : Response)
    → IsCalm mem
    → HasNoEvent r
    → HasNoEvent (loop mem base n i r).1
unfolding loop
loop-HasNoEvent mem base zero i r q h = h
loop-HasNoEvent mem base (suc n) i r q h =
    if_cases {A = ℕ × Response} (λ t. HasNoEvent t.1) r.processed _ _ (λ e. h)
      λ e.
        loop-HasNoEvent mem base n ((step mem base i r).0 + 1) (step mem base i r).1 q
          (step-HasNoEvent mem base i r q h)

-- Only the sign of an event makes one.
pub process-HasNoEvent :
    (mem : Memory) (base n : ℕ) (r : Response)
    → IsCalm mem
    → r.event ≡ false
    → (process_response mem base r n).1.event ≡ false
unfolding process_response finish_response
process-HasNoEvent mem base n r q h =
    if_cases {A = ℕ × Response} (λ t. t.1.event ≡ false) (ltb n 1) _ _ (λ e. h)
      (λ e. loop-HasNoEvent mem base n 0 r q h)
