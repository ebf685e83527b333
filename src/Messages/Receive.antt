-- ===== src/Messages/Receive.antt =====
-- lib/message.c: what a client takes from its inbox, events and messages.
use mcontrol.Base.{
  ℕ, ◌^◌, ◌<◌, ◌≡◌, refl, ap, ap₂, ◌∙◌, inl, inr, true, false, ◌&&◌, none, some, List, [], ◌∷◌,
  ◌++◌, arith, ◌==◌, if◌then◌else◌, Bool-cases, ℤ, pos, negsuc, neg, wrap32,
}
use mcontrol.Events.{dispatch_signaled_event}
use mcontrol.Base.Text.RoundTrip.{IsInt}
use mcontrol.Messages.{
  ResponseMessage, EventMessage, Client, Os, Arrival, failed, arrived, priority_event, word_at,
  word_bytes, unsigned32, event_bytes, event_response, dispatch_message, async_receive_cancel,
  async_receive, receive_loop, redo_async, response_receive2,
}
use mathlib.Core.Option

-- Events that arrive, with their lengths, before other arrivals.
abbrev pub events_then : List (ℕ × ResponseMessage) → List Arrival → List Arrival
events_then [] later = later
events_then ((size, m) ∷ es) later = arrived priority_event size m ∷ events_then es later

-- A client that dispatches events in order.
abbrev pub dispatch_all : List (ℕ × ResponseMessage) → Client → Client
dispatch_all [] c = c
dispatch_all ((size, m) ∷ es) c = dispatch_all es (dispatch_message m c)

pub loop-events :
    (es : List (ℕ × ResponseMessage)) (priority size : ℕ) (m : ResponseMessage)
    (later : List Arrival) (c : Client)
    → (priority == priority_event) ≡ false
    → receive_loop true (events_then es (arrived priority size m ∷ later)) c
      ≡ some (record {
        status = pos size;
        response = some m;
        client = dispatch_all es c;
        inbox = later;
      })
unfolding receive_loop
loop-events [] priority size m later c h = rw h refl
loop-events ((n, e) ∷ es) priority size m later c h =
    loop-events es priority size m later (dispatch_message e c) h

pub loop-events_failed :
    (es : List (ℕ × ResponseMessage)) (errno : ℕ) (later : List Arrival) (c : Client)
    → receive_loop true (events_then es (failed errno ∷ later)) c
      ≡ some (record {
        status = neg errno;
        response = none;
        client = dispatch_all es c;
        inbox = later;
      })
unfolding receive_loop
loop-events_failed [] errno later c = refl
loop-events_failed ((n, e) ∷ es) errno later c =
    loop-events_failed es errno later (dispatch_message e c)

-- Dispatching does not touch the registration for asynchronous messages.
pub async-dispatch_all :
    (es : List (ℕ × ResponseMessage)) (c : Client)
    → (dispatch_all es c).async_registered ≡ c.async_registered
unfolding dispatch_message
async-dispatch_all [] c = refl
async-dispatch_all ((n, e) ∷ es) c = async-dispatch_all es (dispatch_message e c)

-- A client without the registration that mcAsyncReceiveCancel takes away.
abbrev pub quiet : Client → Client
quiet c = record c { async_registered = false }

-- A receive that fails, after any events, returns the error and leaves a client that had registered
-- for asynchronous messages unregistered, if the operating system lets it cancel. The events before
-- the failure are dispatched, and what arrives later stays in the inbox.
pub receive-failed :
    (os : Os) (es : List (ℕ × ResponseMessage)) (errno : ℕ) (later : List Arrival) (c : Client)
    → os.cancels ≡ true
    → c.async_registered ≡ true
    → response_receive2 os true (events_then es (failed errno ∷ later)) c
        ≡ some (record {
          status = neg errno;
          response = none;
          client = dispatch_all es (quiet c);
          inbox = later;
        })
      × ((dispatch_all es (quiet c)).async_registered ≡ false)
unfolding response_receive2 async_receive_cancel
receive-failed os es errno later c h k = (
  rw (k, h) (ap (Option.map (redo_async os true)) (loop-events_failed es errno later (quiet c))),
  async-dispatch_all es (quiet c),
)

-- The client behind a receive that got a message.
abbrev pub received : Os → List (ℕ × ResponseMessage) → Client → Client
received os es c =
    if c.async_registered && os.cancels
    then async_receive os (dispatch_all es (quiet c))
    else dispatch_all es c

pub receive-message :
    (os : Os) (es : List (ℕ × ResponseMessage)) (priority size : ℕ) (m : ResponseMessage)
    (later : List Arrival) (c : Client)
    → (priority == priority_event) ≡ false
    → response_receive2 os true (events_then es (arrived priority size m ∷ later)) c
      ≡ some (record {
        status = pos size;
        response = some m;
        client = received os es c;
        inbox = later;
      })
unfolding response_receive2 async_receive_cancel
receive-message os es priority size m later c h =
    elim (Bool-cases (c.async_registered && os.cancels)) [
      | inl e ↦
          rw e (
            ap (Option.map (redo_async os true)) (loop-events es priority size m later (quiet c) h))
      | inr e ↦
          rw e (ap (Option.map (redo_async os false)) (loop-events es priority size m later c h))
    ]

word-bytes : (n : ℕ) (rest : List ℕ) → n < 2 ^ 32 → word_at 0 (word_bytes n rest) ≡ n
word-bytes n rest h = omega arith

int-word : (z : ℤ) → IsInt z → wrap32 (pos (unsigned32 z)) ≡ z
int-word (pos n) h = ground arith
int-word (negsuc n) h = ground arith

unsigned32-lt : (z : ℤ) → unsigned32 z < 2 ^ 32
unsigned32-lt (pos n) = omega arith
unsigned32-lt (negsuc n) = omega arith

-- A client that has dispatched an event.
abbrev pub told : ℤ → ℕ → Client → Client
told motor event c =
    let (calls, events) = dispatch_signaled_event motor event c.events in
    record c { events = events; calls = c.calls ++ calls }

-- An event that mcEventSend puts into a message is the event that the client dispatches: the
-- callbacks called are those for its motor and its event, for every motor that is an int and every
-- event that is an unsigned int.
pub dispatch_message-event_response :
    (evt : EventMessage) (c : Client)
    → IsInt evt.motor
    → evt.event < 2 ^ 32
    → dispatch_message (event_response evt) c ≡ told evt.motor evt.event c
unfolding dispatch_message event_response event_bytes
dispatch_message-event_response evt c h k =
    ap₂ (λ motor event. told motor event c)
      (ap (λ n. wrap32 (pos n)) (word-bytes (unsigned32 evt.motor) [] (unsigned32-lt evt.motor))
        ∙ int-word evt.motor h)
      (word-bytes evt.event [] k)
