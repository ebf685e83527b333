-- ===== src/Mdrive/Response/Frame.antt =====
-- mdrive_process_response of drivers/mdrive/serial.c reads the answer of a unit in checksum mode: an
-- ACK, the characters of the answer, their checksum, a carriage return and a line feed.
use Prim.Native.Nat.{bit_and}
use mcontrol.Base.{
  ℕ, suc, ◌+◌, ◌-◌, ◌%◌, ◌≤◌, ◌≡◌, refl, sym, ap, ap₂, ◌∙◌, subst, ◌≢◌, true, false, not, ◌&&◌,
  List, arith, ltb, ◌==◌, if◌then◌else◌, ltb→lt, if_cases, length, take,
}
use mcontrol.Mdrive.Checksum.{calc_checksum, check_checksum}
use mcontrol.Mdrive.Checksum.Laws.{calc_checksum_range, check-calc, and_128}
use mcontrol.Mdrive.Response.{
  Response, Memory, blank, slice, normal_char, default_char, end_of_line, after_ack, step, loop,
  finish_response, process_response, good, checksum_start,
}
use mcontrol.Mdrive.Response.Plain.{
  Reads, AllPlain, stored, SameFlags, loop-suc, loop-plain, slice-Reads, stored-SameFlags,
  length-stored, take-stored,
}

acknowledged : Response
acknowledged = record blank { ack = true; ack_location = 0 }

step-ack : (mem : Memory) (base : ℕ) → mem base ≡ 0x06 → step mem base 0 blank ≡ (0, acknowledged)
unfolding step after_ack acknowledged
step-ack mem base h = let z : base + 0 ≡ base = omega arith in rw z (rw h refl)

step_high :
    (mem : Memory) (base i : ℕ) (r : Response)
    → 128 ≤ mem (base + i)
    → step mem base i r ≡ (i, default_char mem base i r)
unfolding step
step_high mem base i r h = ground arith

step-good :
    (mem : Memory) (base i : ℕ) (r : Response)
    → 128 ≤ mem (base + i)
    → good mem base i r ≡ true
    → step mem base i r ≡ (i, record r { checksum_good = true })
unfolding default_char
step-good mem base i r h g =
    step_high mem base i r h
    ∙ ap (λ b. (i, if b then record r { checksum_good = true } else normal_char (mem (base + i)) r))
        g

step-return :
    (mem : Memory) (base i : ℕ) (r : Response)
    → mem (base + i) ≡ 13
    → mem (base + i - 1) ≢ b'>'
    → step mem base i r ≡ (i, r)
unfolding step
step-return mem base i r h p = ground arith

-- What may follow a transmission, and not count as a part of it.
pub record IsNext (c : ℕ) : Type 0 where
  pub not_prompt : c ≢ b'>'
  pub not_query : c ≢ b'?'
  pub not_ack : c ≢ 0x06

step-newline :
    (mem : Memory) (base i : ℕ) (r : Response)
    → mem (base + i) ≡ 10
    → mem (base + i - 1) ≡ 13
    → IsNext (mem (base + i + 1))
    → step mem base i r ≡ (i, record r { processed = true; crlf = true })
unfolding step end_of_line
step-newline mem base i r h p n = ground (arith, n.not_prompt, n.not_query, n.not_ack)

good-frame :
    (mem : Memory) (base i : ℕ) (cs : List ℕ) (r : Response)
    → SameFlags acknowledged r
    → 1 ≤ length cs
    → i ≡ 1 + length cs
    → Reads mem (base + 1) cs
    → mem (base + i) ≡ calc_checksum cs
    → good mem base i r ≡ true
unfolding acknowledged
good-frame mem base i cs r f l e rd h =
    let start : checksum_start base r ≡ base + 1 =
      ground (arith, f.ack_location, f.ack, f.received) in
    let covered : slice mem (checksum_start base r) (base + i - checksum_start base r) ≡ cs =
      ap₂ (slice mem) start (omega (arith, start, e)) ∙ slice-Reads mem (base + 1) cs rd in
    let high : bit_and (calc_checksum cs) 128 ≡ 128 =
      ground (
        arith,
        and_128 (calc_checksum cs) (calc_checksum_range cs).1,
        (calc_checksum_range cs).0,
      ) in
    ap₂ (λ x y. bit_and x 128 == 128 && (not r.checksum_good && check_checksum y x)) h covered
    ∙ rw high (rw f.checksum_good (check-calc cs l))

-- The loop reads the end of the transmission: the checksum, the carriage return, the line feed.
loop-frame_end :
    (mem : Memory) (base i : ℕ) (cs : List ℕ) (r : Response)
    → SameFlags acknowledged r
    → 1 ≤ length cs
    → i ≡ 1 + length cs
    → Reads mem (base + 1) cs
    → mem (base + i) ≡ calc_checksum cs
    → mem (base + (i + 1)) ≡ 13
    → mem (base + (i + 2)) ≡ 10
    → IsNext (mem (base + (i + 3)))
    → loop mem base 3 i r
      ≡ (i + 3, record r { checksum_good = true; processed = true; crlf = true })
unfolding loop acknowledged
loop-frame_end mem base i cs r f l e rd h1 h2 h3 n =
    let range = calc_checksum_range cs in
    let r' : Response = record r { checksum_good = true } in
    let r'' : Response = record r' { processed = true; crlf = true } in
    let back : mem (base + (i + 1) - 1) ≡ calc_checksum cs = ap mem (omega arith) ∙ h1 in
    let back' : mem (base + (i + 1 + 1) - 1) ≡ 13 = ap mem (omega arith) ∙ h2 in
    let at : mem (base + (i + 1 + 1)) ≡ 10 = ap mem (omega arith) ∙ h3 in
    let next : IsNext (mem (base + (i + 1 + 1) + 1)) =
      subst (λ a. IsNext (mem a)) (omega arith) n in
    loop-suc mem base 2 i r r' i f.processed
      (step-good mem base i r (omega (arith, h1, range.0)) (good-frame mem base i cs r f l e rd h1))
    ∙ loop-suc mem base 1 (i + 1) r' r' (i + 1) f.processed
        (step-return mem base (i + 1) r' h2 (λ q. absurd (omega (arith, back, q, range.0))))
    ∙ loop-suc mem base 0 (i + 1 + 1) r' r'' (i + 1 + 1) f.processed
        (step-newline mem base (i + 1 + 1) r' at back' next)
    ∙ ap (λ k. (k, r'')) (omega arith)

-- The transmission of a unit in checksum mode.
pub record HasFrame (mem : Memory) (base : ℕ) (cs : List ℕ) : Type 0 where
  pub ack : mem base ≡ 0x06
  pub characters : Reads mem (base + 1) cs
  pub plain : AllPlain cs
  pub checksum : mem (base + (1 + length cs)) ≡ calc_checksum cs
  pub carriage_return : mem (base + (2 + length cs)) ≡ 13
  pub line_feed : mem (base + (3 + length cs)) ≡ 10
  pub next : IsNext (mem (base + (4 + length cs)))

read_frame : List ℕ → Response
unfolding acknowledged
read_frame cs =
    let n = length cs in
    record (stored cs acknowledged) {
      checksum_good = true;
      processed = true;
      crlf = true;
      received = (n + 4) % 128;
    }

taken_in : List ℕ → Response
unfolding acknowledged
taken_in cs = record (stored cs acknowledged) {
  checksum_good = true;
  processed = true;
  crlf = true;
}

loop-HasFrame :
    (mem : Memory) (base : ℕ) (cs : List ℕ)
    → HasFrame mem base cs
    → 1 ≤ length cs
    → length cs ≤ 62
    → loop mem base (length cs + 4) 0 blank ≡ (length cs + 4, taken_in cs)
unfolding acknowledged taken_in
loop-HasFrame mem base cs h l u =
    let n = length cs in
    let cr : mem (base + (1 + n + 1)) ≡ 13 = ap mem (omega arith) ∙ h.carriage_return in
    let lf : mem (base + (1 + n + 2)) ≡ 10 = ap mem (omega arith) ∙ h.line_feed in
    let next : IsNext (mem (base + (1 + n + 3))) =
      subst (λ a. IsNext (mem a)) (omega arith) h.next in
    ap (λ k. loop mem base k 0 blank) {x = n + 4} {y = suc (n + 3)} (omega arith)
    ∙ loop-suc mem base (n + 3) 0 blank acknowledged 0 refl (step-ack mem base h.ack)
    ∙ loop-plain mem base 3 1 cs acknowledged h.characters h.plain refl refl (omega arith)
    ∙ loop-frame_end mem base (1 + n) cs (stored cs acknowledged) (stored-SameFlags cs acknowledged)
        l refl h.characters h.checksum cr lf next
    ∙ ap (λ k. (k, taken_in cs)) {x = 1 + n + 3} {y = n + 4} (omega arith)

finish-taken_in :
    (cs : List ℕ) → finish_response (length cs + 4, taken_in cs) ≡ (length cs + 4, read_frame cs)
unfolding finish_response taken_in read_frame acknowledged
finish-taken_in cs =
    let f = stored-SameFlags cs acknowledged in
    ap (λ k. (length cs + 4, record (taken_in cs) { received = (k + (length cs + 4)) % 128 }))
      f.received
    ∙ ap (λ k. (length cs + 4, record (taken_in cs) { received = k % 128 }))
        {x = 0 + (length cs + 4)} {y = length cs + 4} (omega arith)

process-HasFrame :
    (mem : Memory) (base : ℕ) (cs : List ℕ)
    → HasFrame mem base cs
    → 1 ≤ length cs
    → length cs ≤ 62
    → process_response mem base blank (length cs + 4) ≡ (length cs + 4, read_frame cs)
unfolding process_response
process-HasFrame mem base cs h l u =
    if_cases (λ p. p ≡ (length cs + 4, read_frame cs)) (ltb (length cs + 4) 1) (0, blank)
      (finish_response (loop mem base (length cs + 4) 0 blank))
      (λ e. absurd (omega (arith, ltb→lt _ _ e)))
      (λ e. ap finish_response (loop-HasFrame mem base cs h l u) ∙ finish-taken_in cs)

-- What is made of a transmission: its characters are in the buffer, and the flags say so.
pub record IsRead (cs : List ℕ) (result : ℕ × Response) : Type 0 where
  pub consumed : result.0 ≡ length cs + 4
  pub characters : take (length cs) result.1.buffer ≡ cs
  pub length_lem : result.1.length ≡ length cs
  pub ack : result.1.ack ≡ true
  pub nack : result.1.nack ≡ false
  pub error : result.1.error ≡ false
  pub event : result.1.event ≡ false
  pub checksum_good : result.1.checksum_good ≡ true
  pub processed : result.1.processed ≡ true
  pub crlf : result.1.crlf ≡ true
  pub received : result.1.received ≡ length cs + 4

read_frame-IsRead : (cs : List ℕ) → length cs ≤ 62 → IsRead cs (length cs + 4, read_frame cs)
unfolding read_frame acknowledged
read_frame-IsRead cs u =
    let f = stored-SameFlags cs acknowledged in
    record {
      consumed = refl;
      characters =
          ap (λ k. take k (stored cs acknowledged).buffer) {x = length cs} {y = 0 + length cs}
            (omega arith)
          ∙ take-stored cs acknowledged (omega arith);
      length_lem = omega (arith, length-stored cs acknowledged);
      ack = f.ack;
      nack = f.nack;
      error = f.error;
      event = f.event;
      checksum_good = refl;
      processed = refl;
      crlf = refl;
      received = omega arith;
    }

-- A transmission in checksum mode is an ACK, 1 to 62 plain characters, their checksum, CR and LF,
-- with no prompt, '?' or ACK behind it. The reader consumes all of it, the buffer holds exactly the
-- characters, and the response is acknowledged, its checksum good, processed and without error.
pub process_response-HasFrame :
    (mem : Memory) (base : ℕ) (cs : List ℕ)
    → HasFrame mem base cs
    → 1 ≤ length cs
    → length cs ≤ 62
    → IsRead cs (process_response mem base blank (length cs + 4))
process_response-HasFrame mem base cs h l u =
    subst (IsRead cs) (sym (process-HasFrame mem base cs h l u)) (read_frame-IsRead cs u)
