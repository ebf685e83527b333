-- ===== src/Trace/Channels/Remote.antt =====
-- lib/trace.c: what mcTraceSubscribeRemote leaves in the table of subscribers.
use mcontrol.Base.{
  eqb_ℤ, ◌+ℤ◌, ℕ, ◌+◌, ◌≤◌, ◌≡◌, refl, ◌≢◌, inl, inr, Bool, true, false, not, none, some, List, [],
  ◌∷◌, arith, Bool-cases, Option-cases, ℤ, pos,
}
use mathlib.Core.Option
use mcontrol.Base.Slots.{All, fill}
use mcontrol.Trace.{Subscriber, Subscribers, subscribe}
use mcontrol.Trace.Channels.{update_subscriber, subscribe_remote}

-- Ids up to the last that was given out, and not 0 in an active entry.
abbrev pub Known : ℕ → Subscriber → Type 0
Known serial s = (s.id ≤ serial) × (s.active ≡ true → s.id ≢ 0)

abbrev pub free : Subscriber → Bool
free s = not s.active

update-fill :
    (serial : ℕ) (f : Subscriber → Subscriber) (v : Subscriber) (xs : List Subscriber)
    → All (Known serial) xs
    → v.id ≡ serial + 1
    → Option.map (update_subscriber (serial + 1) f) (fill free v xs) ≡ fill free (f v) xs
unfolding update_subscriber
update-fill serial f v [] a h = refl
update-fill serial f v (x ∷ xs) a h = elim (Bool-cases x.active) [
  | inl e ↦ elim (Option-cases (fill free v xs)) [
    | inl n ↦ ground (arith, update-fill serial f v xs a.1 h)
    | inr (ys, n) ↦ ground (arith, update-fill serial f v xs a.1 h, a.0.1 e)
  ]
  | inr e ↦ ground arith
]

-- The subscriber of a remote client.
abbrev pub remote : ℕ → ℕ → ℤ → Subscriber
remote pid id level = record {
  id = id;
  active = true;
  callback = none;
  level = level;
  channels = 0;
  pid = pid;
}

-- A remote subscription in a table with room takes the first inactive entry, with the process and the
-- level of the request; whatever channels the request has, the entry has none, so that no message
-- reaches it before mcTraceSubscribeAdd.
pub subscribe_remote_lem :
    (pid : ℕ) (level : ℤ) (mask : ℕ) (t : Subscribers) (ys : List Subscriber)
    → All (Known t.serial) t.table
    → eqb_ℤ t.count (pos 64) ≡ false
    → fill free (remote pid (t.serial + 1) level) t.table ≡ some ys
    → subscribe_remote pid level mask t
      ≡ some (
        pos (t.serial + 1),
        record { table = ys; count = t.count +ℤ pos 1; serial = t.serial + 1 },
      )
unfolding subscribe_remote subscribe
subscribe_remote_lem pid level mask t ys a room h =
    let v : Subscriber = record (remote 0 (t.serial + 1) level) { channels = mask } in
    let q = update-fill t.serial (λ s. record s { pid = pid; channels = 0 }) v t.table a refl in
    elim (Option-cases (fill free v t.table)) [
      | inl n ↦ ground (arith, q)
      | inr (zs, n) ↦ ground (arith, q)
    ]
