-- ===== src/Mdrive/Classify.antt =====
-- drivers/mdrive/serial.c: mdrive_classify_response, which decides what a response means, and
-- mdrive_combine_response. The functions that it calls to talk to the unit once more
-- (mdrive_config_after_reboot, mdrive_get_error, mdrive_clear_error, mdrive_signal_error_event)
-- nest mdrive_communicate; they stand in the record `Nested`, each an operation on the device.
pub mod Laws
mod Tests
use mcontrol.Base.{
  ℕ, ◌+◌, ◌%◌, Bool, true, false, not, ◌&&◌, ◌||◌, Option, none, some, List, [], ◌∷◌, ltb, ◌==◌,
  if◌then◌else◌, length, set,
}
use mcontrol.Mdrive.Response.{Response}

-- enum mdrive_response_class
pub data ResponseClass : Type 0 where
  response_ok : ResponseClass
  response_retry : ResponseClass
  response_error : ResponseClass
  response_nack : ResponseClass
  response_bad_checksum : ResponseClass
  response_unknown : ResponseClass
  response_timeout : ResponseClass
  response_ioerror : ResponseClass

-- What a wait for the unit brings: a response from the reader thread, or the end of the time.
pub data Arrival : Type 0 where
  arrives : Response → Arrival
  times_out : Arrival

-- What the transactions read and write of struct mdrive_device_list, its port and its statistics.
pub record Device : Type 0 where
  pub checksum : ℕ
  pub echo : ℕ
  pub address : ℕ
  pub party_mode : Bool
  pub ignore_errors : Bool
  pub txnest : ℕ
  pub txid : ℕ
  pub queue : List Response
  -- What the waits to come bring; when it is used up, they time out.
  pub arrivals : List Arrival
  pub tx : ℕ
  pub txbytes : ℕ
  pub rx : ℕ
  pub rxbytes : ℕ
  pub acks : ℕ
  pub nacks : ℕ
  pub timeouts : ℕ
  pub resends : ℕ
  pub overflows : ℕ
  pub bad_checksums : ℕ
  pub reboots : ℕ

pub record Nested : Type 0 where
  pub after_reboot : Device → Device
  -- The result as the 32 bits of the int.
  pub get_error : Device → ℕ × Device
  pub clear_error : Device → Device
  pub signal_error : ℕ → Device → Device

abbrev pub ck_off : ℕ
ck_off = 0

abbrev pub ck_on : ℕ
ck_on = 1

abbrev pub eoverrun : ℕ
eoverrun = 63

abbrev pub ewhat : ℕ
ewhat = 24

abbrev pub estall : ℕ
estall = 86

abbrev pub same : Bool → Bool → Bool
same true b = b
same false b = not b

-- The part for checksum mode: the class, if it is settled there.
checksum_part : Nested → Device → Response → Option ResponseClass × (Device × Response)
checksum_part ops d r =
    if d.checksum == ck_off
    then (none, (d, r))
    else if same (ltb 0 r.length) r.checksum_good
    then if r.ack
      then (some response_ok, (d, r))
      else if r.nack
      then (none, (d, record r { error = true }))
      else (none, (d, r))
    else if r.nack
    then (some response_nack, (d, r))
    else if not r.nack && not r.ack
    then if d.txnest == 1 then (none, (ops.after_reboot d, r)) else (none, (d, r))
    else if not r.checksum_good
    then (some response_bad_checksum, (d, r))
    else (none, (d, r))

with_code : Response → ℕ × Device → Device × Response
with_code r (code, d) = (d, record r { code = code % 256 })

-- The error code of a response that tells of an error: asked for, or cleared on the unit.
fetch_code : Nested → Device → Response → Device × Response
unfolding with_code
fetch_code ops d r =
    if r.code == 0
    then if d.txnest == 1 && not d.ignore_errors then with_code r (ops.get_error d) else (d, r)
    else (ops.clear_error d, r)

-- A response with an error code: the event is signalled.
signal_code : Nested → Device → Response → ResponseClass × (Device × Response)
signal_code ops d r =
    let d' = ops.signal_error r.code d in
    if r.code == eoverrun || r.code == ewhat
    then (response_retry, (d', r))
    else if r.code == estall
    then (response_ok, (d', r))
    else (response_error, (d', r))

after_code : Nested → Device × Response → ResponseClass × (Device × Response)
unfolding signal_code
after_code ops (d, r) =
    if not (r.code == 0)
    then signal_code ops d r
    else if r.nack
    then (response_nack, (d, r))
    else (response_unknown, (d, r))

-- The part outside checksum mode.
prompt_part : Nested → Device → Response → ResponseClass × (Device × Response)
unfolding fetch_code after_code
prompt_part ops d r =
    if r.error
    then after_code ops (fetch_code ops d r)
    else if r.prompt || r.crlf
    then (response_ok, (d, r))
    else if r.nack && (r.length == 0 && d.checksum == ck_off)
    then (response_unknown, (record d { checksum = ck_on }, r))
    else (response_unknown, (d, r))

settle : Nested → Option ResponseClass × (Device × Response) → ResponseClass × (Device × Response)
unfolding prompt_part
settle ops (some class, rest) = (class, rest)
settle ops (none, (d, r)) = prompt_part ops d r

-- mdrive_classify_response
pub classify_response : Nested → Device → Response → ResponseClass × (Device × Response)
unfolding checksum_part settle
classify_response ops d r = settle ops (checksum_part ops d r)

-- `snprintf(a + n, sizeof a - n, "%s", b)`: the characters of a string up to its zero, cut so that
-- a zero fits behind them.
unfoldable pub text : List ℕ → List ℕ
text [] = []
text (c ∷ cs) = let rest = text cs in if c == 0 then [] else c ∷ rest

unfoldable pub put : List ℕ → ℕ → List ℕ → List ℕ
put buffer n [] = set buffer n 0
put buffer n (c ∷ cs) =
    if ltb (n + 1) (length buffer) then put (set buffer n c) (n + 1) cs else set buffer n 0

-- What mdrive_combine_response makes of two responses of one transaction.
unfoldable pub combined : Response → Response → Response
unfolding text put
combined a b = record a {
  ack = a.ack || b.ack;
  nack = a.nack || b.nack;
  prompt = a.prompt || b.prompt;
  crlf = a.crlf || b.crlf;
  error = a.error || b.error;
  code = if b.code == 0 then a.code else b.code;
  checksum_good = a.checksum_good || b.checksum_good;
  received = (a.received + b.received) % 128;
  buffer = put a.buffer a.length (text b.buffer);
  length = (a.length + length (text b.buffer)) % 128;
}

-- mdrive_combine_response: the second response is added to the first.
pub combine_response : Response → Response → Option Response
unfolding combined
combine_response a b = if a.txid == b.txid then some (combined a b) else none
