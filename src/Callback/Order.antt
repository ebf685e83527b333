-- ===== src/Callback/Order.antt =====
-- The timer list of lib/callback.c: it stays sorted by due time, and callbacks that are due at one
-- time keep the order in which they were asked for.
use mcontrol.Base.{
  ℕ, ◌≡◌, refl, ap, inl, inr, true, false, Option, none, some, List, [], ◌∷◌, ◌++◌, arith,
  Bool-cases,
}
use mcontrol.Base.Slots.{All}
use mcontrol.Clock.{Timespec, later}
use mcontrol.Clock.Laws.{later_trans, later_asym}
use mcontrol.Callback.{
  Callback, Timers, insert_callback, invalid_time, request, callback_abs, dequeue, callback_cancel,
}

-- No callback of the list is due before `c`.
abbrev pub NotBefore : Callback → Callback → Type 0
NotBefore c d = later c.abstime d.abstime ≡ false

abbrev pub IsSorted : List Callback → Type 0
IsSorted [] = Unit {0}
IsSorted (c ∷ cs) = All (NotBefore c) cs × IsSorted cs

pub All-insert :
    (P : Callback → Type 0) (e : Callback) (cs : List Callback)
    → P e
    → All P cs
    → All P (insert_callback e cs)
unfolding insert_callback
All-insert P e [] p h = (p, tt)
All-insert P e (c ∷ cs) p h = ground (arith, All-insert P e cs p h.1)

All-NotBefore_trans :
    (e c : Callback) (cs : List Callback)
    → NotBefore e c
    → All (NotBefore c) cs
    → All (NotBefore e) cs
All-NotBefore_trans e c [] h k = tt
All-NotBefore_trans e c (d ∷ cs) h k =
    (later_trans d.abstime c.abstime e.abstime k.0 h, All-NotBefore_trans e c cs h k.1)

pub insert-IsSorted :
    (e : Callback) (cs : List Callback) → IsSorted cs → IsSorted (insert_callback e cs)
unfolding insert_callback
insert-IsSorted e [] s = (tt, tt)
insert-IsSorted e (c ∷ cs) s = elim (Bool-cases (later c.abstime e.abstime)) [
  | inl h ↦
      rw h (let q = later_asym c.abstime e.abstime h in ((q, All-NotBefore_trans e c cs q s.0), s))
  | inr h ↦ rw h (All-insert _ e cs h s.0, insert-IsSorted e cs s.1)
]

-- The callbacks that a list holds before and after the place where a new one is due.
abbrev pub DueBy : Callback → Callback → Type 0
DueBy e c = later c.abstime e.abstime ≡ false

abbrev pub DueAfter : Callback → Callback → Type 0
DueAfter e c = later c.abstime e.abstime ≡ true

All-DueAfter :
    (e c : Callback) (cs : List Callback)
    → DueAfter e c
    → All (NotBefore c) cs
    → All (DueAfter e) cs
All-DueAfter e c [] h k = tt
All-DueAfter e c (d ∷ cs) h k = (ground arith, All-DueAfter e c cs h k.1)

-- mcCallbackAbs puts a callback into a sorted list behind every one that is due no later and ahead
-- of every one that is due later, and moves nothing else.
pub insert_position :
    (e : Callback) (cs : List Callback)
    → IsSorted cs
    → (before after : List Callback) × (cs ≡ before ++ after)
      × (insert_callback e cs ≡ before ++ e ∷ after)
      × All (DueBy e) before
      × All (DueAfter e) after
unfolding insert_callback
insert_position e [] s = ([], [], refl, refl, tt, tt)
insert_position e (c ∷ cs) s = elim (Bool-cases (later c.abstime e.abstime)) [
  | inl h ↦ ([], c ∷ cs, refl, rw h, tt, (h, All-DueAfter e c cs h s.0))
  | inr h ↦
      let r = insert_position e cs s.1 in
      (c ∷ r.0, r.1, ap (◌∷◌ c) r.2, rw h (ap (◌∷◌ c) r.3), (h, r.4), r.5)
]

pub All-dequeue :
    (P : Callback → Type 0) (id : ℕ) (cs : List Callback) → All P cs → All P (dequeue id cs).1
unfolding dequeue
All-dequeue P id [] h = tt
All-dequeue P id (c ∷ cs) h = ground (arith, All-dequeue P id cs h.1)

pub dequeue-IsSorted : (id : ℕ) (cs : List Callback) → IsSorted cs → IsSorted (dequeue id cs).1
unfolding dequeue
dequeue-IsSorted id [] s = tt
dequeue-IsSorted id (c ∷ cs) s =
    ground (arith, dequeue-IsSorted id cs s.1, All-dequeue (NotBefore c) id cs s.0)

-- A request that mcCallbackAbs refuses changes nothing, and one that it takes keeps the list
-- sorted; cancelling keeps it sorted too.
pub callback-IsSorted :
    (w : Option Timespec) (f : Option ℕ) (arg id : ℕ) (s : Timers)
    → IsSorted s.callbacks
    → IsSorted (callback_abs w f arg s).1.callbacks × IsSorted (callback_cancel id s).1.callbacks
unfolding callback_cancel callback_abs request
callback-IsSorted w f arg id s v = (added w f, dequeue-IsSorted id s.callbacks v)
  where
    added : (w : Option Timespec) (f : Option ℕ) → IsSorted (callback_abs w f arg s).1.callbacks
    added none f = v
    added (some w) none = v
    added (some w) (some f) = elim (Bool-cases (invalid_time w)) [
      | inl e ↦ rw e v
      | inr e ↦ rw e (insert-IsSorted _ s.callbacks v)
    ]
