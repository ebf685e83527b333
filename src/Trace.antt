-- ===== src/Trace.antt =====
-- lib/trace.c: the table of trace subscribers, the mask of those that want a message, and the
-- delivery to them. The table is its 64 entries; the sentinel behind them is the end of the list. A
-- callback function is a handle. The mutex makes a trace one step.
pub mod Channels
pub mod Exact
pub mod Dump
mod Tests
use mcontrol.Base.{
  ℕ, ◌+◌, ◌-◌, ◌*◌, ◌/◌, ◌%◌, ◌^◌, Bool, true, false, not, ◌&&◌, Option, none, some, List, [], ◌∷◌,
  ◌++◌, map, ◌==◌, if◌then◌else◌, of_bool, count, einval,
}
use mathlib.Core.Option
use mcontrol.Base.Int.{ℤ, pos, eqb_ℤ, ltb_ℤ, ◌+ℤ◌, ◌-ℤ◌}
use mcontrol.Base.Slots.{fill}

-- struct trace_subscriber
pub record Subscriber : Type 0 where
  pub id : ℕ
  pub active : Bool
  pub callback : Option ℕ
  pub level : ℤ
  pub channels : ℕ
  pub pid : ℕ

-- subscribers, subscriber_count and subscriber_serial
pub record Subscribers : Type 0 where
  pub table : List Subscriber
  pub count : ℤ
  pub serial : ℕ

-- `channels & 1ULL << (channel - 1)`: the shift is by the low six bits of its count.
abbrev pub has_channel : ℕ → ℕ → Bool
has_channel channels channel = channels / 2 ^ ((channel + 63) % 64) % 2 == 1

abbrev pub wants : ℤ → ℕ → Subscriber → Bool
wants level channel s = s.active && (not (ltb_ℤ s.level level) && has_channel s.channels channel)

-- The walk of mcTraceSubscribersLookup to the high-water mark: the mask moves down by one bit for
-- each entry, and its top bit is set (it is clear by then) for one that wants the message.
lookup_loop : ℤ → ℕ → List Subscriber → ℕ → ℕ → ℕ × ℕ
lookup_loop level channel [] mask count = (mask, count)
lookup_loop level channel (s ∷ ss) mask count =
    let rest =
      lookup_loop level channel ss
        (mask / 2 + of_bool (wants level channel s) * 9223372036854775808) (count + 1) in
    if s.id == 0 then (mask, count) else rest

-- mcTraceSubscribersLookup
pub subscribers_lookup : ℤ → ℕ → Subscribers → ℕ
unfolding lookup_loop
subscribers_lookup level channel t =
    if eqb_ℤ t.count (pos 0)
    then 0
    else let (mask, count) = lookup_loop level channel t.table 0 0 in mask / 2 ^ (64 - count)

-- What a subscriber is handed: a call of its callback, or a message to its process.
pub data Delivery : Type 0 where
  called : ℕ → Delivery
  sent : ℕ → Delivery

abbrev pub deliver : Subscriber → List Delivery
deliver s = elim s.callback [
  | some callback ↦ called callback ∷ []
  | none ↦ if s.pid == 0 then [] else sent s.pid ∷ []
]

abbrev pub is_remote : Subscriber → Bool
is_remote s = elim s.callback [ some callback ↦ false | none ↦ not (s.pid == 0) ]

-- A subscriber whose process is gone is made inactive.
abbrev pub after_delivery : (ℕ → Bool) → Subscriber → Subscriber
after_delivery gone s = if is_remote s && gone s.pid then record s { active = false } else s

-- mcTraceWrite: what is delivered, and the table.
pub write : (ℕ → Bool) → ℕ → List Subscriber → List Delivery × List Subscriber
write gone mask [] = ([], [])
write gone mask (s ∷ ss) =
    let rest = write gone (mask / 2) ss in
    if mask == 0
    then ([], s ∷ ss)
    else if mask % 2 == 1
    then (deliver s ++ rest.0, after_delivery gone s ∷ rest.1)
    else (rest.0, s ∷ rest.1)

-- mcTrace
pub trace : (ℕ → Bool) → ℤ → ℕ → Subscribers → List Delivery × Subscribers
unfolding subscribers_lookup write
trace gone level channel t =
    let mask = subscribers_lookup level channel t in
    if mask == 0
    then ([], t)
    else let (deliveries, table) = write gone mask t.table in
      (deliveries, record t { table = table })

-- mcTraceSubscribe, with the result for too many as `none` of the inner option; no result where the
-- scan would leave the table.
pub subscribe : ℤ → ℕ → Option ℕ → Subscribers → Option (Option ℕ × Subscribers)
subscribe level channels callback t =
    let id = t.serial + 1 in
    let s : Subscriber = record {
      id = id;
      active = true;
      callback = callback;
      level = level;
      channels = channels;
      pid = 0;
    } in
    if eqb_ℤ t.count (pos 64) then some (none, t) else elim (fill (λ e. not e.active) s t.table) [
      | none ↦ none
      | some table ↦ some (some id, record { table = table; count = t.count +ℤ pos 1; serial = id })
    ]

-- The search of mcTraceUnsubscribe, and its write: no table where the id is not found.
unsubscribe_loop : ℕ → List Subscriber → Option (List Subscriber)
unsubscribe_loop id [] = none
unsubscribe_loop id (s ∷ ss) =
    let rest = unsubscribe_loop id ss in
    if s.id == 0
    then none
    else if s.id == id
    then some (record s { active = false } ∷ ss)
    else Option.map (◌∷◌ s) rest

-- mcTraceUnsubscribe
pub trace_unsubscribe : ℕ → Subscribers → ℕ × Subscribers
unfolding unsubscribe_loop
trace_unsubscribe id t = elim (unsubscribe_loop id t.table) [
  | none ↦ (einval, t)
  | some table ↦ (0, record t { table = table; count = t.count -ℤ pos 1 })
]
