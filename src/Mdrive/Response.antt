-- ===== src/Mdrive/Response.antt =====
-- drivers/mdrive/serial.c: mdrive_process_response, the reader of what a unit sends. Memory is a
-- function from addresses to bytes, since the reader looks at the bytes before and behind the one at
-- hand. The bit fields keep their widths: `length` and `received` 7 bits, `code` 8; `ack_location`
-- is an uint8_t. The write pointer `target` is `buffer + length` at all times.
pub mod Bounds
pub mod Plain
pub mod Frame
pub mod Advance
mod Tests
use Prim.Native.Nat.{bit_and}
use mcontrol.Base.{
  ℕ, zero, suc, ◌+◌, ◌-◌, ◌*◌, ◌%◌, ◌==◌, Bool, true, false, not, ◌&&◌, ◌||◌, List, [], ◌∷◌, leb,
  ltb, get_or, set, replicate, if◌then◌else◌,
}
use mcontrol.Mdrive.Checksum.{check_checksum}

-- struct mdrive_response
pub record Response : Type 0 where
  pub buffer : List ℕ
  pub txid : ℕ
  pub address : ℕ
  pub ack_location : ℕ
  pub received : ℕ
  pub length : ℕ
  pub code : ℕ
  pub ack : Bool
  pub nack : Bool
  pub checksum_good : Bool
  pub event : Bool
  pub error : Bool
  pub processed : Bool
  pub echo : Bool
  pub prompt : Bool
  pub crlf : Bool
  pub in_error : Bool

-- The zero bytes of calloc.
abbrev pub blank : Response
blank = record {
  buffer = replicate 64 0;
  txid = 0;
  address = 0;
  ack_location = 0;
  received = 0;
  length = 0;
  code = 0;
  ack = false;
  nack = false;
  checksum_good = false;
  event = false;
  error = false;
  processed = false;
  echo = false;
  prompt = false;
  crlf = false;
  in_error = false;
}

abbrev pub Memory : Type 0
Memory = ℕ → ℕ

abbrev pub slice : Memory → ℕ → ℕ → List ℕ
slice mem start zero = []
slice mem start (suc n) = mem start ∷ slice mem (suc start) n

-- `target--; length--`
abbrev pub drop_char : Response → Response
drop_char r = record r { length = (r.length + 127) % 128 }

-- `*target++ = c; length++`, and the test for overflow.
store_char : ℕ → Response → Response
store_char c r =
    let n = (r.length + 1) % 128 in
    record r { buffer = set r.buffer r.length c; length = n; processed = r.processed || n == 63 }

-- From the label `normal_char` on.
pub normal_char : ℕ → Response → Response
unfolding store_char
normal_char c r =
    if r.in_error
    then if leb b'0' c && leb c b'9'
      then record r { code = (r.code * 10 + (c - b'0')) % 256 }
      else store_char c (record r { in_error = false })
    else store_char c r

-- Where the characters that the checksum covers begin.
abbrev pub checksum_start : ℕ → Response → ℕ
checksum_start base r =
    if not (r.ack_location == 0)
    then base + r.ack_location - r.received
    else base + (if r.ack || r.nack then 1 else 0) - r.received

-- The test of the case `default` for a checksum character.
abbrev pub good : Memory → ℕ → ℕ → Response → Bool
good mem base i r =
    let c = mem (base + i) in
    let start = checksum_start base r in
    bit_and c 128 == 128
    && (not r.checksum_good && check_checksum (slice mem start (base + i - start)) c)

-- The case `default`: a checksum character, or a normal one.
pub default_char : Memory → ℕ → ℕ → Response → Response
unfolding normal_char
default_char mem base i r =
    if good mem base i r then record r { checksum_good = true } else normal_char (mem (base + i)) r

-- The case '\n' behind a '\r': the end of the transmission, with the prompt that may follow.
pub end_of_line : Memory → ℕ → ℕ → Response → ℕ × Response
end_of_line mem base i r =
    let n = mem (base + i + 1) in
    let r' : Response = record r { processed = true; crlf = true } in
    if n == b'>'
    then (i + 1, record r' { prompt = true })
    else if n == b'?'
    then (i + 1, record r' { error = true })
    else if n == 0x06
    then (i + 1, r')
    else (i, r')

-- What the cases ACK and NACK have in common.
pub after_ack : ℕ → Response → Response
after_ack prev r =
    if r.event
    then if r.checksum_good
      then drop_char (record r { processed = true })
      else record r { processed = true }
    else if not (r.length == 0) && (prev == 10 || prev == 0x13)
    then record r { length = 0; echo = true }
    else r

-- One round of the loop: the offset of the last byte read, and the response.
pub step : Memory → ℕ → ℕ → Response → ℕ × Response
unfolding normal_char default_char end_of_line after_ack
step mem base i r =
    let c = mem (base + i) in
    let prev = mem (base + i - 1) in
    if c == 10
    then if prev == 13 then end_of_line mem base i r else (i, normal_char c r)
    else if c == 13
    then if prev == b'>' && not (r.length == 0)
      then (i, record (drop_char r) { prompt = true })
      else (i, r)
    else if c == 0x06
    then (i, after_ack prev (record r { ack = true; ack_location = (i + r.received) % 256 }))
    else if c == 0x15
    then (i, after_ack prev (record r { nack = true }))
    else if c == b'?'
    then (i, record r { in_error = true; error = true })
    else if c == b'>' && r.length == 0
    then (i, r)
    else if c == b'!' && r.length == 0
    then (i, record r { event = true })
    else if c == b'>' || c == b'!'
    then (i, normal_char c r)
    else if c == b'"' && (r.event && (r.address == 0 && r.length == 0))
    then (i + 2, record r { address = mem (base + i + 1) })
    else (i, default_char mem base i r)

-- The loop, which `length` bounds: the number of bytes read, and the response.
pub loop : Memory → ℕ → ℕ → ℕ → Response → ℕ × Response
unfolding step
loop mem base zero i r = (i, r)
loop mem base (suc n) i r =
    let (j, r') = step mem base i r in
    let rest = loop mem base n (j + 1) r' in if r.processed then (i, r) else rest

-- A single '$' is the sign of a reboot in upgrade mode.
pub finish_response : ℕ × Response → ℕ × Response
finish_response (i, r) =
    let reboot = r.length == 1 && get_or r.buffer 0 0 == b'$' in
    (i, record r { processed = r.processed || reboot; received = (r.received + i) % 128 })

-- mdrive_process_response
unfoldable pub process_response : Memory → ℕ → Response → ℕ → ℕ × Response
unfolding loop finish_response
process_response mem base r length =
    if ltb length 1 then (0, r) else finish_response (loop mem base length 0 r)
