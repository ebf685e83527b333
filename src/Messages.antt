-- ===== src/Messages.antt =====
-- lib/message.c: requests, responses and events as messages, and the client's side of their queues.
-- The queues are the operating system's: what mq_open, mq_send and mq_notify answer is the record Os,
-- and what the inbox hands over is a list of arrivals. A descriptor is whether it was never asked
-- for, is open, or is the -1 of a failed mq_open. `int`s are laid_out with the lowest byte first, and
-- the data of an event stands at its offset of 16. A wait has no result where nothing arrives.
pub mod Receive
pub mod Wait
mod Tests
use mcontrol.Base.{
  ℕ, ◌+◌, ◌-◌, ◌*◌, ◌/◌, ◌%◌, ◌^◌, Bool, true, false, not, ◌&&◌, ◌||◌, Option, none, some, List, [],
  ◌∷◌, ◌++◌, map, ltb, ◌==◌, if◌then◌else◌, length, get_or, replicate, ℤ, pos, negsuc, neg, wrap32,
  ltb_ℤ, emsgsize,
}
use mcontrol.Clock.{Timespec, ts_add}
use mcontrol.Events.{ClientCallback, dispatch_signaled_event}
use mathlib.Core.Option

-- struct request_message, less the flag `waiting`, which nothing sets.
pub record RequestMessage : Type 0 where
  pub pid : ℤ
  pub id : ℤ
  pub motor_id : ℤ
  pub type : ℤ
  pub size : ℤ
  pub payload_size : ℤ
  pub payload : List ℕ

-- struct response_message
pub record ResponseMessage : Type 0 where
  pub id : ℤ
  pub status : ℤ
  pub size : ℤ
  pub payload_size : ℤ
  pub payload : List ℕ

-- struct event_message, with the bytes of its data.
pub record EventMessage : Type 0 where
  pub motor : ℤ
  pub id : ℤ
  pub event : ℕ
  pub event_data : List ℕ

-- A number that is laid_out in an int16_t.
abbrev pub short : ℕ → ℤ
short n = let m = n % 2 ^ 16 in if ltb m (2 ^ 15) then pos m else negsuc (2 ^ 16 - m - 1)

-- An array of a payload with the bytes at its front; the initializer has put zeros behind them.
abbrev pub laid_out : ℕ → List ℕ → List ℕ
laid_out room bytes = bytes ++ replicate (room - length bytes) 0

abbrev pub request_room : ℕ
request_room = 1024

abbrev pub response_room : ℕ
response_room = 1036

-- construct_request_raw, with the process and the number of the message.
pub construct_request_raw : ℤ → ℕ → ℤ → List ℕ → ℕ × RequestMessage
construct_request_raw pid id type payload =
    let n = length payload in
    let m : RequestMessage = record {
      pid = pid;
      id = wrap32 (pos id);
      motor_id = pos 0;
      type = type;
      size = short (24 + n);
      payload_size = short n;
      payload = replicate request_room 0;
    } in
    if ltb request_room n
    then (emsgsize, m)
    else (0, record m { payload = laid_out request_room payload })

-- construct_request
pub construct_request : ℤ → ℕ → ℤ → ℤ → List ℕ → ℕ × RequestMessage
unfolding construct_request_raw
construct_request pid id motor type payload =
    let (status, m) = construct_request_raw pid id type payload in
    if status == 0 then (status, record m { motor_id = motor }) else (status, m)

-- construct_response
pub construct_response : RequestMessage → List ℕ → ℕ × ResponseMessage
construct_response request payload =
    let n = length payload in
    let m : ResponseMessage = record {
      id = request.id;
      status = pos 0;
      size = short (12 + n);
      payload_size = short n;
      payload = replicate response_room 0;
    } in
    if ltb response_room n
    then (emsgsize, m)
    else (0, record m { payload = laid_out response_room payload })

-- The four bytes of an `int`, and the numbers that four bytes are.
abbrev pub unsigned32 : ℤ → ℕ
unsigned32 (pos n) = n % 2 ^ 32
unsigned32 (negsuc n) = 2 ^ 32 - 1 - n % 2 ^ 32

abbrev pub word_bytes : ℕ → List ℕ → List ℕ
word_bytes n rest = n % 256 ∷ n / 256 % 256 ∷ n / 65536 % 256 ∷ n / 16777216 % 256 ∷ rest

abbrev pub word_at : ℕ → List ℕ → ℕ
word_at i bytes =
    get_or bytes i 0
    + 256 * get_or bytes (i + 1) 0
    + 65536 * get_or bytes (i + 2) 0
    + 16777216 * get_or bytes (i + 3) 0

-- The copy of a struct event_message into a payload.
pub event_bytes : EventMessage → List ℕ
event_bytes evt =
    word_bytes (unsigned32 evt.motor)
      (word_bytes (unsigned32 evt.id) (word_bytes evt.event (0 ∷ 0 ∷ 0 ∷ 0 ∷ evt.event_data)))

-- What mcEventSend hands to mq_send; the size counts the header of a request.
pub event_response : EventMessage → ResponseMessage
unfolding event_bytes
event_response evt =
    let n = length (event_bytes evt) in
    record {
      id = negsuc 0;
      status = pos 0;
      size = short (24 + n);
      payload_size = short n;
      payload = laid_out response_room (event_bytes evt);
    }

pub data Descriptor : Type 0 where
  unopened opened bad : Descriptor

-- The state of a client: _outbox, message_id, _async_registered, its registrations, and the calls of
-- callbacks that it has made.
pub record Client : Type 0 where
  pub outbox : Descriptor
  pub message_id : ℕ
  pub async_registered : Bool
  pub events : List ClientCallback
  pub calls : List (ℕ × ℕ)

-- What the operating system answers; a number is an errno, or 0 for success.
pub record Os : Type 0 where
  pub getpid : ℤ
  pub clock : Timespec
  pub opening : ℕ
  pub sending : Option Timespec → ℕ → RequestMessage → ℕ
  pub cancels : Bool
  pub registers : Bool

-- mcDispatchSignaledEventMessage, for the message of an inbox.
pub dispatch_message : ResponseMessage → Client → Client
dispatch_message m c =
    let motor = wrap32 (pos (word_at 0 m.payload)) in
    let (calls, events) = dispatch_signaled_event motor (word_at 8 m.payload) c.events in
    record c { events = events; calls = c.calls ++ calls }

-- mcAsyncReceiveCancel
pub async_receive_cancel : Os → Client → Bool × Client
async_receive_cancel os c =
    if c.async_registered && os.cancels
    then (true, record c { async_registered = false })
    else (false, c)

-- mcAsyncReceive
pub async_receive : Os → Client → Client
async_receive os c = record c { async_registered = c.async_registered || os.registers }

-- A time of less than 100 seconds counts from now.
pub deadline : Timespec → Timespec → Timespec
deadline now timeout = if ltb_ℤ timeout.sec (pos 100) then ts_add now timeout else timeout

abbrev pub ebadf : ℕ
ebadf = 9

abbrev pub priority_cmd : ℕ
priority_cmd = 0

abbrev pub priority_event : ℕ
priority_event = 1

-- The opening of the outbox, in a client that has none.
pub open_outbox : Os → Client → Client
open_outbox os c = elim c.outbox [
  | unopened ↦ record c { outbox = if os.opening == 0 then opened else bad }
  | _ ↦ c
]

-- mq_send or mq_timedsend: with a time limit the priority is that of a command.
pub queue_request : Os → Descriptor → ℕ → Option Timespec → RequestMessage → ℕ
unfolding deadline
queue_request os opened priority none m = os.sending none priority m
queue_request os opened priority (some timeout) m =
    os.sending (some (deadline os.clock timeout)) priority_cmd m
queue_request os unopened priority timeout m = ebadf
queue_request os bad priority timeout m = ebadf

abbrev is_unopened : Descriptor → Bool
is_unopened unopened = true
is_unopened _ = false

-- mcMessageSend: the number of the message, or a negative error.
pub message_send : Os → ℤ → ℤ → List ℕ → ℕ → Option Timespec → Client → ℤ × Client
unfolding open_outbox construct_request queue_request
message_send os motor type payload priority timeout c =
    let c' = open_outbox os c in
    let (status, m) = construct_request os.getpid c'.message_id motor type payload in
    let sent = queue_request os c'.outbox priority timeout m in
    if is_unopened c.outbox && not (os.opening == 0)
    then (neg os.opening, c')
    else (if sent == 0 then m.id else neg sent, record c' { message_id = c'.message_id + 1 })

-- What a receive from the inbox comes to: an error, or a message with its priority and its length.
pub data Arrival : Type 0 where
  failed : ℕ → Arrival
  arrived : ℕ → ℕ → ResponseMessage → Arrival

-- What mcResponseReceive2 returns, the message that it leaves if it does not fail, the client, and
-- what is still to arrive.
pub record Receipt : Type 0 where
  pub status : ℤ
  pub response : Option ResponseMessage
  pub client : Client
  pub inbox : List Arrival

-- The loop of mcResponseReceive2.
pub receive_loop : Bool → List Arrival → Client → Option Receipt
unfolding dispatch_message
receive_loop message [] c = none
receive_loop message (failed errno ∷ later) c =
    some (record { status = neg errno; response = none; client = c; inbox = later })
receive_loop message (arrived priority size m ∷ later) c =
    let c' = dispatch_message m c in
    let again = receive_loop message later c' in
    if not (priority == priority_event)
    then some (record { status = pos size; response = some m; client = c; inbox = later })
    else if message
    then again
    else some (record { status = pos size; response = some m; client = c'; inbox = later })

-- The registration is made again, but not where the loop returns an error.
abbrev pub redo_async : Os → Bool → Receipt → Receipt
redo_async os redo r = elim r.response [
  | none ↦ r
  | some m ↦ if redo then record r { client = async_receive os r.client } else r
]

-- mcResponseReceive2, and mcResponseReceive where `message` is true.
pub response_receive2 : Os → Bool → List Arrival → Client → Option Receipt
unfolding async_receive_cancel async_receive receive_loop
response_receive2 os message inbox c =
    let (redo, c') = async_receive_cancel os c in
    Option.map (redo_async os redo) (receive_loop message inbox c')

-- mcMessageSendWait
pub message_send_wait :
    Os → ℤ → ℤ → List ℕ → ℕ → Option Timespec → List Arrival → Client → Option Receipt
unfolding async_receive_cancel async_receive message_send response_receive2
message_send_wait os motor type payload priority timeout inbox c =
    let (redo, c1) = async_receive_cancel os c in
    let until = Option.map (ts_add os.clock) timeout in
    let (id, c2) = message_send os motor type payload priority until c1 in
    if ltb_ℤ id (pos 0)
    then some (record { status = id; response = none; client = c2; inbox = inbox })
    else Option.map (λ r. if redo then record r { client = async_receive os r.client } else r)
        (response_receive2 os true inbox c2)
