-- ===== src/Callback/Timer.antt =====
-- The timer thread of lib/callback.c: what a round calls, with and without a request in between.
use mcontrol.Base.{ℕ, ◌≡◌, ◌≢◌, inl, inr, true, false, some, List, [], ◌∷◌, arith, Bool-cases}
use mcontrol.Base.Slots.{All}
use mcontrol.Clock.{Timespec, later}
use mcontrol.Callback.{
  Callback, insert_callback, Woken, signalled, timed_out, bad_time, thread_round, head_to_call,
  after_call,
}
use mcontrol.Callback.Order.{NotBefore, IsSorted}

-- Where a round goes on to a call, the head of the list that it leaves has the id that it keeps, is
-- due, and is due no later than anything else on the list, whatever woke the thread.
pub round_earliest :
    (w : Woken) (now : Timespec) (cs : List Callback) {id : ℕ} {rest : List Callback}
    → IsSorted cs
    → thread_round w now cs ≡ (some id, rest)
    → (c : Callback) × (tl : List Callback) × (rest ≡ c ∷ tl)
      × (c.id ≡ id)
      × (later c.abstime now ≡ false)
      × All (NotBefore c) tl
unfolding thread_round
round_earliest w now [] s e = cc
round_earliest signalled now (d ∷ cs) s e = cc
round_earliest timed_out now (d ∷ cs) s e = elim (Bool-cases (later d.abstime now)) [
  | inl h ↦ ground arith
  | inr h ↦ (d, cs, ground arith, ground arith, h, s.0)
]
round_earliest bad_time now (d ∷ []) s e = cc
round_earliest bad_time now (d ∷ x ∷ cs) s e = elim (Bool-cases (later x.abstime now)) [
  | inl h ↦ ground arith
  | inr h ↦ (x, cs, ground arith, ground arith, h, s.1.0)
]

-- A callback that enters the list between the unlock of the timer thread and its call, and is due
-- before the head, is called twice, and the head is not called: the round keeps the id of the head,
-- calls the new one, and takes the head off the list; the new one stays first, and when it is due,
-- the next round that times out calls it again. That holds for callbacks with different ids.
pub called_twice :
    (now now' : Timespec) (c e : Callback) (tl : List Callback)
    → later c.abstime now ≡ false
    → later c.abstime e.abstime ≡ true
    → later e.abstime now' ≡ false
    → c.id ≢ e.id
    → let meanwhile = insert_callback e (c ∷ tl) in
      let left = after_call c.id meanwhile in
      (thread_round timed_out now (c ∷ tl) ≡ (some c.id, c ∷ tl))
      × (head_to_call meanwhile ≡ some e)
      × (left ≡ e ∷ tl)
      × (thread_round timed_out now' left ≡ (some e.id, left))
      × (head_to_call left ≡ some e)
      × (after_call e.id left ≡ tl)
unfolding thread_round head_to_call after_call insert_callback
called_twice now now' c e tl h k l n =
    (ground arith, ground arith, ground arith, ground arith, ground arith, ground arith)
