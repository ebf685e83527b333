-- ===== src/Trace/Channels.antt =====
-- lib/trace.c: the channels of traces, by number and by name, and the requests of remote clients to
-- subscribe. The table is its 65 entries, the sentinel included, or empty before the first
-- mcTraceChannelInit; the model has no result where the code leaves the table, or shifts an int by
-- more than its bits. Names are texts of bytes.
pub mod Names
pub mod Remote
mod Tests
use mcontrol.Base.{
  ℕ, zero, suc, ◌+◌, ◌-◌, ◌*◌, ◌%◌, ◌^◌, Bool, true, false, not, ◌&&◌, ◌||◌, Option, none, some,
  List, [], ◌∷◌, map, ltb, ◌==◌, if◌then◌else◌, replicate, count, fit, ℤ, pos, negsuc, neg, eqb_ℤ,
  ltb_ℤ, ◌-ℤ◌, enoent, er_too_many,
}
use mathlib.Core.Option
use Prim.Native.Nat.{bit_and, bit_or}
use mcontrol.Base.Slots.{fill}
use mcontrol.Registry.{str_eq}
use mcontrol.Trace.{Subscriber, Subscribers, subscribe, trace_unsubscribe}

-- struct trace_channel
pub record Channel : Type 0 where
  pub id : ℕ
  pub active : Bool
  pub name : List ℕ
  pub hash : ℕ

-- trace_channels, trace_channel_count and trace_channel_serial
pub record Channels : Type 0 where
  pub table : List Channel
  pub count : ℕ
  pub serial : ℕ

abbrev pub unused_channel : Channel
unused_channel = record { id = 0; active = false; name = []; hash = 0 }

-- A char, which is signed, as it is added to an unsigned long.
abbrev pub sign_extended : ℕ → ℕ
sign_extended c = if ltb c 128 then c else 2 ^ 64 - 256 + c

-- The loop of hashstring.
pub hash_from : ℕ → List ℕ → ℕ
hash_from hash [] = hash
hash_from hash (c ∷ cs) = hash_from ((hash * 33 + sign_extended c) % 2 ^ 64) cs

-- hashstring
pub hashstring : List ℕ → ℕ
unfolding hash_from
hashstring key = hash_from 5381 key

abbrev pub allocated : List Channel → List Channel
allocated [] = replicate 65 unused_channel
allocated (c ∷ cs) = c ∷ cs

-- mcTraceChannelInit; nothing ever raises the count.
pub channel_init : List ℕ → Channels → Option (ℤ × Channels)
unfolding hashstring
channel_init name t =
    let id = t.serial + 1 in
    let c : Channel = record {
      id = id;
      active = true;
      name = fit 32 name;
      hash = hashstring (fit 32 name);
    } in
    if t.count == 64
    then some (neg er_too_many, t)
    else Option.map (λ cs. (pos id, record t { table = cs; serial = id }))
        (fill (λ x. not x.active) c (allocated t.table))

-- The loop of mcTraceChannelLookup.
pub lookup_from : ℕ → List ℕ → List Channel → Option ℤ
lookup_from hash name [] = none
lookup_from hash name (c ∷ cs) =
    let rest = lookup_from hash name cs in
    if c.id == 0
    then some (neg enoent)
    else if c.active && (c.hash == hash && str_eq c.name name)
    then some (pos c.id)
    else rest

-- mcTraceChannelLookup
pub channel_lookup : List ℕ → Channels → Option ℤ
unfolding lookup_from hashstring
channel_lookup name t = lookup_from (hashstring name) name t.table

-- The loop of mcTraceChannelGetName: no name at the end of the table's used part.
pub name_from : ℕ → List Channel → Option (Option (List ℕ))
name_from id [] = none
name_from id (c ∷ cs) =
    let rest = name_from id cs in
    if c.id == 0 then some none else if c.id == id then some (some c.name) else rest

abbrev pub drop : ℕ → List Channel → List Channel
drop zero cs = cs
drop (suc n) [] = []
drop (suc n) (c ∷ cs) = drop n cs

abbrev pub is_allocated : List Channel → Bool
is_allocated [] = false
is_allocated (c ∷ cs) = true

-- mcTraceChannelGetName: the walk starts at the entry with the index `id`.
pub channel_get_name : ℕ → Channels → Option (Option (List ℕ))
unfolding name_from
channel_get_name id t =
    if not (is_allocated t.table) || ltb t.serial id
    then some none
    else name_from id (drop id t.table)

-- The write to the subscriber with an id, or to the first entry that was never used.
pub update_subscriber : ℕ → (Subscriber → Subscriber) → List Subscriber → List Subscriber
update_subscriber id f [] = []
update_subscriber id f (s ∷ ss) =
    let rest = update_subscriber id f ss in if s.id == 0 || s.id == id then f s ∷ ss else s ∷ rest

-- mcTraceSubscribeRemote, for the process `pid`: the mask of the request is not kept.
pub subscribe_remote : ℕ → ℤ → ℕ → Subscribers → Option (ℤ × Subscribers)
unfolding update_subscriber
subscribe_remote pid level mask t = elim (subscribe level mask none t) [
  | none ↦ none
  | some (none, t') ↦ some (neg er_too_many, t')
  | some (some id, t') ↦ some (
    pos id,
    record t' { table = update_subscriber id (λ s. record s { pid = pid; channels = 0 }) t'.table },
  )
]

-- mcTraceUnsubscribeRemote
pub unsubscribe_remote : ℕ → Subscribers → ℕ × Subscribers
unsubscribe_remote id t = trace_unsubscribe id t

-- `1 << (channel - 1)`, an int: the top bit is its sign, which the conversion to 64 bits spreads.
pub channel_bit : ℤ → Option ℕ
channel_bit (negsuc n) = none
channel_bit (pos zero) = none
channel_bit (pos (suc n)) =
    if ltb n 31 then some (2 ^ n) else if n == 31 then some (2 ^ 64 - 2 ^ 31) else none

-- `channels |= bit` and `channels &= ~bit`, for a bit or for the spread sign.
abbrev pub with_bit : ℕ → ℕ → ℕ
with_bit bit n = bit_or n bit

abbrev pub without_bit : ℕ → ℕ → ℕ
without_bit bit n = bit_and n (2 ^ 64 - 1 - bit)

-- A change of the channels of a subscriber, for the result of mcTraceChannelLookup.
pub change_channels : (ℕ → ℕ → ℕ) → ℕ → Subscribers → Option ℤ → Option (ℤ × Subscribers)
unfolding update_subscriber channel_bit
change_channels change id t none = none
change_channels change id t (some channel) =
    let write = λ (bit : ℕ). record t {
      table = update_subscriber id (λ s. record s { channels = change bit s.channels }) t.table;
    } in
    if eqb_ℤ channel (neg enoent)
    then some (neg enoent, t)
    else Option.map (λ bit. (pos 0, write bit)) (channel_bit channel)

-- mcTraceSubscribeAdd
pub subscribe_add : ℕ → List ℕ → Channels → Subscribers → Option (ℤ × Subscribers)
unfolding change_channels channel_lookup
subscribe_add id name cs t = change_channels with_bit id t (channel_lookup name cs)

-- mcTraceSubscribeRemove
pub subscribe_remove : ℕ → List ℕ → Channels → Subscribers → Option (ℤ × Subscribers)
unfolding change_channels channel_lookup
subscribe_remove id name cs t = change_channels without_bit id t (channel_lookup name cs)

-- mcTraceChannelLookupRemote: the status, and the id.
pub channel_lookup_remote : List ℕ → Channels → Option (ℤ × ℤ)
unfolding channel_lookup
channel_lookup_remote name cs =
    Option.map (λ id. (if ltb_ℤ (pos 0) id then pos 0 else pos 0 -ℤ id, id))
      (channel_lookup name cs)
