-- ===== src/Mdrive/Response/Bounds.antt =====
-- mdrive_process_response of drivers/mdrive/serial.c stays inside the response's buffer of 64 bytes,
-- but for one kind of event.
use mcontrol.Base.{
  ℕ, zero, suc, ◌+◌, ◌-◌, ◌%◌, ◌≤◌, ◌≡◌, ◌≢◌, ◌⊎◌, inl, inr, Bool, true, false, not, ◌&&◌, ◌||◌,
  arith, ltb, ◌==◌, Bool-cases, if_cases, length,
}
use mcontrol.Mdrive.Response.{
  Response, Memory, store_char, normal_char, default_char, end_of_line, after_ack, step, loop,
  finish_response, process_response, drop_char, good,
}

-- At most 63 characters, fewer while the response is open; or the underflow of an event.
abbrev pub IsBounded : Response → Type 0
IsBounded r =
    (r.length ≤ 62)
    ⊎ ((r.processed ≡ true) × ((r.length ≡ 63) ⊎ ((r.length ≡ 127) × (r.event ≡ true))))

store-IsBounded : (c : ℕ) (r : Response) → r.length ≤ 62 → IsBounded (store_char c r)
unfolding store_char
store-IsBounded c r h = ground arith

normal-IsBounded : (c : ℕ) (r : Response) → r.length ≤ 62 → IsBounded (normal_char c r)
unfolding normal_char
normal-IsBounded c r h =
    ground (arith, store-IsBounded c r h, store-IsBounded c (record r { in_error = false }) h)

default-IsBounded :
    (mem : Memory) (base i : ℕ) (r : Response)
    → r.length ≤ 62
    → IsBounded (default_char mem base i r)
unfolding default_char
default-IsBounded mem base i r h = elim (Bool-cases (good mem base i r)) [
  | inl e ↦ rw e (inl h)
  | inr e ↦ rw e (normal-IsBounded (mem (base + i)) r h)
]

line-IsBounded :
    (mem : Memory) (base i : ℕ) (r : Response)
    → r.length ≤ 62
    → IsBounded (end_of_line mem base i r).1
unfolding end_of_line
line-IsBounded mem base i r h = ground arith

ack-IsBounded : (prev : ℕ) (r : Response) → r.length ≤ 62 → IsBounded (after_ack prev r)
unfolding after_ack
ack-IsBounded prev r h = ground arith

nonzero : (b : Bool) (n : ℕ) → (b && not (n == 0)) ≡ true → n ≢ 0
nonzero b n e = ground arith

-- A property of every branch of a round is one of the round.
pub step_cases {ℓ} :
    (P : Response → Type ℓ) (mem : Memory) (base i : ℕ) (r : Response)
    → P (end_of_line mem base i r).1
    → P (normal_char (mem (base + i)) r)
    → (r.length ≢ 0 → P (record (drop_char r) { prompt = true }))
    → P r
    → ((prev : ℕ)
        → P (after_ack prev (record r { ack = true; ack_location = (i + r.received) % 256 })))
    → ((prev : ℕ) → P (after_ack prev (record r { nack = true })))
    → P (record r { in_error = true; error = true })
    → (mem (base + i) ≡ b'!' → P (record r { event = true }))
    → P (record r { address = mem (base + i + 1) })
    → P (default_char mem base i r)
    → P (step mem base i r).1
unfolding step
step_cases P mem base i r line normal cr same ack nack query bang quote other =
    elim (Bool-cases (mem (base + i) == 10)) [
      | inl e ↦ rw e (elim (Bool-cases (mem (base + i - 1) == 13)) [
        | inl e ↦ rw e (line)
        | inr e ↦ rw e (normal)
      ])
      | inr e ↦ rw e (elim (Bool-cases (mem (base + i) == 13)) [
        | inl e ↦ rw e (elim (Bool-cases (mem (base + i - 1) == b'>' && not (r.length == 0))) [
          | inl e ↦ rw e (cr (nonzero (mem (base + i - 1) == b'>') r.length e))
          | inr e ↦ rw e (same)
        ])
        | inr e ↦ rw e (elim (Bool-cases (mem (base + i) == 0x06)) [
          | inl e ↦ rw e (ack (mem (base + i - 1)))
          | inr e ↦ rw e (elim (Bool-cases (mem (base + i) == 0x15)) [
            | inl e ↦ rw e (nack (mem (base + i - 1)))
            | inr e ↦ rw e (elim (Bool-cases (mem (base + i) == b'?')) [
              | inl e ↦ rw e (query)
              | inr e ↦ rw e (elim (Bool-cases (mem (base + i) == b'>' && r.length == 0)) [
                | inl e ↦ rw e (same)
                | inr e ↦ rw e (elim (Bool-cases (mem (base + i) == b'!' && r.length == 0)) [
                  | inl e ↦ rw e (bang (ground (arith, e)))
                  | inr e ↦
                      rw e (elim (Bool-cases (mem (base + i) == b'>' || mem (base + i) == b'!')) [
                        | inl e ↦ rw e (normal)
                        | inr e ↦
                            rw e
                              (elim (Bool-cases (
                                mem (base + i) == b'"'
                                && (r.event && (r.address == 0 && r.length == 0)))) [
                                  | inl e ↦ rw e (quote)
                                  | inr e ↦ rw e (other)
                                ])
                      ])
                ])
              ])
            ])
          ])
        ])
      ])
    ]

step-IsBounded :
    (mem : Memory) (base i : ℕ) (r : Response) → r.length ≤ 62 → IsBounded (step mem base i r).1
step-IsBounded mem base i r h =
    step_cases IsBounded mem base i r (line-IsBounded mem base i r h)
      (normal-IsBounded (mem (base + i)) r h) (λ n. inl (omega arith)) (inl h)
      (λ p. ack-IsBounded p _ h) (λ p. ack-IsBounded p _ h) (inl h) (λ c. inl h) (inl h)
      (default-IsBounded mem base i r h)

loop-IsBounded :
    (mem : Memory) (base n i : ℕ) (r : Response) → IsBounded r → IsBounded (loop mem base n i r).1
unfolding loop
loop-IsBounded mem base zero i r h = h
loop-IsBounded mem base (suc n) i r h =
    if_cases {A = ℕ × Response} (λ t. IsBounded t.1) r.processed _ _ (λ e. h)
      λ e.
        loop-IsBounded mem base n ((step mem base i r).0 + 1) (step mem base i r).1
          (step-IsBounded mem base i r (is_open h e))
  where
    is_open : IsBounded r → r.processed ≡ false → r.length ≤ 62
    is_open (inl k) e = k
    is_open (inr k) e = absurd (ground arith)

-- Whatever bytes arrive, in however many pieces, the reader keeps at most 63 characters, so that
-- every write and the closing zero fall inside the buffer of 64; the one exception is an event whose
-- last character is taken off an empty buffer, which leaves the length at 127.
pub process-IsBounded :
    (mem : Memory) (base length : ℕ) (r : Response)
    → IsBounded r
    → IsBounded (process_response mem base r length).1
unfolding process_response finish_response
process-IsBounded mem base length r h = elim (Bool-cases (ltb length 1)) [
  | inl e ↦ rw e h
  | inr e ↦ rw e (finish (loop mem base length 0 r) (loop-IsBounded mem base length 0 r h))
]
  where
    finish : (t : ℕ × Response) → IsBounded t.1 → IsBounded (finish_response t).1
    finish t (inl k) = inl k
    finish t (inr k) = inr (ground arith, k.1)
