-- ===== src/Messages/Tests.antt =====
-- Messages of lib/message.c at concrete inputs: a client with one registration, an event for it, and
-- the response to a request of which it has given up.
use mcontrol.Base.{ℕ, ◌≡◌, refl, true, false, none, some, List, [], ◌∷◌, arith, pos, neg, ltb_ℤ}
use mcontrol.Events.{ClientCallback, dispatch_signaled_event}
use mcontrol.Messages.{
  ResponseMessage, EventMessage, Client, Os, Descriptor, opened, failed, arrived, Receipt,
  construct_request, event_response, dispatch_message, async_receive_cancel, message_send,
  response_receive2, message_send_wait,
}
use mcontrol.Messages.Receive.{
  events_then, dispatch_all, quiet, told, receive-failed, dispatch_message-event_response,
}
use mcontrol.Messages.Wait.{asked, message_send_wait-first}

abbrev watching : ClientCallback
watching = record {
  motor = pos 3;
  id = 1;
  active = true;
  event = 2;
  callback = some 8;
  user_data = 5;
  wait = false;
  waiting = false;
}

abbrev client : Descriptor → Client
client outbox = record {
  outbox = outbox;
  message_id = 9;
  async_registered = true;
  events = watching ∷ [];
  calls = [];
}

abbrev os : ℕ → Os
os opening = record {
  getpid = pos 40;
  clock = record { sec = pos 1000; nsec = pos 0 };
  opening = opening;
  sending = λ until priority m. 0;
  cancels = true;
  registers = true;
}

abbrev position : EventMessage
position = record { motor = pos 3; id = pos 1; event = 2; event_data = 7 ∷ [] }

abbrev stale : ResponseMessage
stale = record {
  id = pos 8;
  status = pos 0;
  size = pos 16;
  payload_size = pos 4;
  payload = 1 ∷ 0 ∷ 0 ∷ 0 ∷ [];
}

built : (construct_request (pos 40) 9 (pos 3) (pos 1) (5 ∷ [])).1.size ≡ pos 25
unfolding construct_request
built = refl

dispatched : (dispatch_message (event_response position) (client opened)).calls ≡ (8, 5) ∷ []
unfolding dispatch_message event_response dispatch_signaled_event
dispatched = refl

dispatch_message-event_response_example :
    dispatch_message (event_response position) (client opened) ≡ told (pos 3) 2 (client opened)
dispatch_message-event_response_example =
    dispatch_message-event_response position (client opened) (omega arith, omega arith)
      (omega arith)

abbrev events : List (ℕ × ResponseMessage)
events = (41, event_response position) ∷ []

receive-failed_example :
    response_receive2 (os 0) true (events_then events (failed 110 ∷ [])) (client opened)
      ≡ some (record {
        status = neg 110;
        response = none;
        client = dispatch_all events (quiet (client opened));
        inbox = [];
      })
    × ((dispatch_all events (quiet (client opened))).async_registered ≡ false)
receive-failed_example = receive-failed (os 0) events 110 [] (client opened) refl refl

sends : ltb_ℤ (asked (os 0) (pos 3) (pos 1) [] 0 none (client opened)).0 (pos 0) ≡ false
unfolding message_send async_receive_cancel
sends = refl

message_send_wait-first_example :
    (r : Receipt) × (message_send_wait
        (os 0)
        (pos 3)
        (pos 1)
        []
        0
        none
        (events_then events (arrived 0 16 stale ∷ []))
        (client opened)
      ≡ some r)
    × (r.status ≡ pos 16)
    × (r.response ≡ some stale)
    × (r.inbox ≡ [])
    × (r.client.async_registered ≡ true)
    × (r.client.calls
        ≡ (dispatch_all events (asked (os 0) (pos 3) (pos 1) [] 0 none (client opened)).1).calls)
message_send_wait-first_example =
    message_send_wait-first (os 0) (pos 3) (pos 1) [] 0 none events 16 stale [] (client opened) refl
      refl sends
