-- ===== src/Messages/Wait.antt =====
-- lib/message.c: mcMessageSend and mcMessageSendWait.
use mcontrol.Base.{
  ℕ, ◌≡◌, refl, ap, ◌∙◌, ◌≢◌, Bool, true, false, Option, some, List, ◌∷◌, arith, if◌then◌else◌, ℤ,
  pos, neg, ltb_ℤ,
}
use mcontrol.Clock.{Timespec, ts_add}
use mcontrol.Messages.{
  ResponseMessage, Client, Os, unopened, Arrival, arrived, Receipt, ebadf, open_outbox,
  queue_request, async_receive_cancel, async_receive, message_send, response_receive2,
  message_send_wait,
}
use mcontrol.Messages.Receive.{
  events_then, dispatch_all, received, receive-message, async-dispatch_all,
}
use mathlib.Core.Option

-- A client whose first mq_open of the daemon's queue fails never sends again: every later send is
-- EBADF, whatever the operating system answers by then.
pub message_send-unopened :
    (os os' : Os) (motor motor' type type' : ℤ) (payload payload' : List ℕ) (priority priority' : ℕ)
    (timeout timeout' : Option Timespec) (c : Client)
    → c.outbox ≡ unopened
    → os.opening ≢ 0
    → ((message_send os motor type payload priority timeout c).0 ≡ neg os.opening)
      × ((message_send os' motor' type' payload' priority' timeout'
            (message_send os motor type payload priority timeout c).1).0
          ≡ neg ebadf)
unfolding message_send open_outbox queue_request
message_send-unopened os os' motor motor' type type' payload payload' priority priority' timeout
      timeout' c h k =
    (ground arith, ground arith)

module _ (os : Os) (motor type : ℤ) (payload : List ℕ) (priority : ℕ)
    (timeout : Option Timespec) where
  -- What mcMessageSendWait sends, and the client behind it.
  abbrev pub asked : Client → ℤ × Client
  asked c =
      message_send os motor type payload priority (Option.map (ts_add os.clock) timeout)
        (async_receive_cancel os c).1

  async-message_send :
      (until : Option Timespec) (c : Client)
      → (message_send os motor type payload priority until c).1.async_registered
        ≡ c.async_registered
  unfolding message_send open_outbox
  async-message_send until c = ground arith

  async-cancel :
      (c : Client) → os.cancels ≡ true → (async_receive_cancel os c).1.async_registered ≡ false
  unfolding async_receive_cancel
  async-cancel c h = ground arith

  redo-cancel :
      (c : Client) → os.cancels ≡ true → (async_receive_cancel os c).0 ≡ c.async_registered
  unfolding async_receive_cancel
  redo-cancel c h = ground arith

  async-asked : (c : Client) → os.cancels ≡ true → (asked c).1.async_registered ≡ false
  async-asked c h =
      async-message_send (Option.map (ts_add os.clock) timeout) (async_receive_cancel os c).1
      ∙ async-cancel c h

  received-quiet :
      (es : List (ℕ × ResponseMessage)) (c : Client)
      → c.async_registered ≡ false
      → received os es c ≡ dispatch_all es c
  received-quiet es c h = rw h refl

  abbrev restored : Bool → Client → Client
  restored redo c = if redo then async_receive os c else c

  restored_async :
      (redo : Bool) (c : Client)
      → os.registers ≡ true
      → c.async_registered ≡ false
      → (restored redo c).async_registered ≡ redo
  unfolding async_receive
  restored_async redo c h k = ground arith

  restored_calls : (redo : Bool) (c : Client) → (restored redo c).calls ≡ c.calls
  unfolding async_receive
  restored_calls redo c = ground arith

  receipt_restored :
      (redo : Bool) (r : Receipt)
      → (if redo then record r { client = async_receive os r.client } else r)
        ≡ record r { client = restored redo r.client }
  receipt_restored true r = refl
  receipt_restored false r = refl

  -- mcMessageSendWait gives the first message in the inbox that is no event, whatever request it
  -- answers, when its own request is sent: the late response to an earlier request that timed out
  -- is taken for the answer. The events before it are dispatched in order, what arrives later stays
  -- in the inbox, and a client that had registered for asynchronous messages, and only such a
  -- client, is registered again, where the operating system lets it cancel and register.
  pub message_send_wait-first :
      (es : List (ℕ × ResponseMessage)) (size : ℕ) (m : ResponseMessage) (later : List Arrival)
      (c : Client)
      → os.cancels ≡ true
      → os.registers ≡ true
      → ltb_ℤ (asked c).0 (pos 0) ≡ false
      → (r : Receipt) × (message_send_wait os motor type payload priority timeout
            (events_then es (arrived 0 size m ∷ later))
            c
          ≡ some r)
        × (r.status ≡ pos size)
        × (r.response ≡ some m)
        × (r.inbox ≡ later)
        × (r.client.async_registered ≡ c.async_registered)
        × (r.client.calls ≡ (dispatch_all es (asked c).1).calls)
  unfolding message_send_wait
  message_send_wait-first es size m later c h k sent =
      let redo = (async_receive_cancel os c).0 in
      let inbox = events_then es (arrived 0 size m ∷ later) in
      let c' = dispatch_all es (asked c).1 in
      let quiet_now = async-asked c h in
      let got : response_receive2 os true inbox (asked c).1
          ≡ some (record { status = pos size; response = some m; client = c'; inbox = later }) =
        receive-message os es 0 size m later (asked c).1 refl
        ∙ ap
            (λ x. some (record { status = pos size; response = some m; client = x; inbox = later }))
            (received-quiet es (asked c).1 quiet_now) in
      (
        record { status = pos size; response = some m; client = restored redo c'; inbox = later },
        rw sent (
              ap
                (Option.map
                  (λ r. if redo then record r { client = async_receive os r.client } else r))
                got)
            ∙ ap some (
                receipt_restored redo
                  (record { status = pos size; response = some m; client = c'; inbox = later })),
        refl,
        refl,
        refl,
        restored_async redo c' k (async-dispatch_all es (asked c).1 ∙ quiet_now) ∙ redo-cancel c h,
        restored_calls redo c',
      )
