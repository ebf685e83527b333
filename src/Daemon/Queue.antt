-- ===== src/Daemon/Queue.antt =====
-- One worker of daemon/worker.c and the thread that gives it work, as a step relation. The queue is
-- changed under its lock; the lock is open while a request is dispatched, and between the end of
-- WorkerEnqueue's change and its test of the length, after which it may signal.
use mcontrol.Base.{
  ℕ, ◌+◌, ◌≡◌, refl, sym, ap, ◌∙◌, ◌≢◌, ◌⊎◌, inl, inr, Bool, true, false, ◌||◌, List, [], ◌∷◌, ◌++◌,
  arith, ltb, ◌==◌, if◌then◌else◌, length, length-append,
}
use mathlib.Core.List.{append_assoc}
use mcontrol.Daemon.{Worker, Request, worker_enqueue, worker_dequeue, dispatch_request}

pub data Phase : Type 0 where
  -- About to look at the queue, dispatching its head, or waiting for the signal.
  looking working waiting : Phase

pub record System : Type 0 where
  pub worker : Worker
  pub phase : Phase
  -- WorkerEnqueue has changed the queue and has not tested the length yet.
  pub testing : Bool
  -- The condition has been signalled for a waiting worker that has not woken up yet.
  pub signalled : Bool
  pub type_first : ℕ
  pub dispatched : List Request
  pub done : List Request
  pub given : List Request

pub data Step (s : System) : System → Type 0 where
  put :
      (m : Request)
      → s.testing ≡ false
      → Step s (record s {
        worker = (worker_enqueue s.worker m).0;
        testing = true;
        given = s.given ++ m ∷ [];
      })
  -- The test `queue_length == 1` on the length as it is by then.
  test :
      s.testing ≡ true
      → Step s (record s { testing = false; signalled = s.signalled || s.worker.queue_length == 1 })
  start :
      (m : Request) (rest : List Request)
      → s.phase ≡ looking
      → s.worker.queue ≡ m ∷ rest
      → Step s (record s { phase = working })
  finish :
      (m : Request) (rest : List Request)
      → s.phase ≡ working
      → s.worker.queue ≡ m ∷ rest
      → Step s (record s {
        worker = (worker_dequeue s.worker).1;
        phase = looking;
        dispatched = dispatch_request s.type_first s.dispatched m;
        done = s.done ++ m ∷ [];
      })
  sleep :
      s.phase ≡ looking
      → s.worker.queue ≡ []
      → Step s (record s { phase = waiting; signalled = false })
  -- pthread_cond_wait returns, also with no signal.
  wake : s.phase ≡ waiting → Step s (record s { phase = looking; signalled = false })

pub data Reach (s : System) : System → Type 0 where
  here : Reach s s
  next : {t u : System} → Reach s t → Step t u → Reach s u

-- The requests of a list that have a type above TYPE__FIRST.
abbrev pub above : ℕ → List Request → List Request
above n [] = []
above n (m ∷ ms) = if ltb n m.type then m ∷ above n ms else above n ms

above-snoc :
    (n : ℕ) (ms : List Request) (m : Request)
    → above n (ms ++ m ∷ []) ≡ dispatch_request n (above n ms) m
unfolding dispatch_request
above-snoc n [] m = ground arith
above-snoc n (x ∷ ms) m = ground (arith, above-snoc n ms m)

pub record IsSound (s : System) : Type 0 where
  pub counted : s.worker.queue_length ≡ length s.worker.queue
  pub in_order : s.given ≡ s.done ++ s.worker.queue
  pub served : s.dispatched ≡ above s.type_first s.done
  pub busy : s.phase ≡ working → s.worker.queue ≢ []
  -- A waiting worker with work has been signalled, or will be.
  pub noticed :
      s.phase ≡ waiting
      → s.worker.queue ≢ []
      → (s.signalled ≡ true) ⊎ ((s.testing ≡ true) × (s.worker.queue_length ≡ 1))

snoc-ne-nil : (m : Request) (xs : List Request) → xs ++ m ∷ [] ≢ []
snoc-ne-nil m [] e = cc
snoc-ne-nil m (x ∷ xs) e = cc

put-IsSound :
    (s : System) (m : Request)
    → s.testing ≡ false
    → IsSound s
    → IsSound (record s {
      worker = (worker_enqueue s.worker m).0;
      testing = true;
      given = s.given ++ m ∷ [];
    })
unfolding worker_enqueue
put-IsSound s m t v = record {
  counted = omega (arith, v.counted, length-append s.worker.queue (m ∷ []));
  in_order = ap (λ l. l ++ m ∷ []) v.in_order ∙ append_assoc s.done s.worker.queue (m ∷ []);
  served = v.served;
  busy = λ p. snoc-ne-nil m s.worker.queue;
  noticed = λ p n. by_queue s.worker.queue refl p;
}
  where
    by_queue :
        (q : List Request)
        → s.worker.queue ≡ q
        → s.phase ≡ waiting
        → (s.signalled ≡ true) ⊎ ((true ≡ true) × (s.worker.queue_length + 1 ≡ 1))
    by_queue [] e p = inr (refl, omega (arith, v.counted, ap (length {A = Request}) e))
    by_queue (x ∷ q) e p = elim (v.noticed p (λ n. cc)) [ inl g ↦ inl g | inr (g, h) ↦ cc ]

finish-IsSound :
    (s : System) (m : Request) (rest : List Request)
    → s.phase ≡ working
    → s.worker.queue ≡ m ∷ rest
    → IsSound s
    → IsSound (record s {
      worker = (worker_dequeue s.worker).1;
      phase = looking;
      dispatched = dispatch_request s.type_first s.dispatched m;
      done = s.done ++ m ∷ [];
    })
unfolding worker_dequeue
finish-IsSound s m rest p e v =
    rw (e, worker_dequeue)
      (record {
        counted = omega (arith, v.counted, ap (length {A = Request}) e);
        in_order = v.in_order ∙ rw e (sym (append_assoc s.done (m ∷ []) rest));
        served =
            ap (λ l. dispatch_request s.type_first l m) v.served
            ∙ sym (above-snoc s.type_first s.done m);
        busy = λ q. cc;
        noticed = λ q. cc;
      })

pub Step-IsSound : {s t : System} → Step s t → IsSound s → IsSound t
Step-IsSound {s} (put m t) v = put-IsSound s m t v
Step-IsSound {s} (test t) v = record {
  counted = v.counted;
  in_order = v.in_order;
  served = v.served;
  busy = v.busy;
  noticed =
      λ p n. elim (v.noticed p n) [ inl g ↦ inl (ground arith) | inr (g, h) ↦ inl (ground arith) ];
}
Step-IsSound {s} (start m rest p e) v = record {
  counted = v.counted;
  in_order = v.in_order;
  served = v.served;
  busy = λ q n. cc;
  noticed = λ q. cc;
}
Step-IsSound {s} (finish m rest p e) v = finish-IsSound s m rest p e v
Step-IsSound {s} (sleep p e) v = record {
  counted = v.counted;
  in_order = v.in_order;
  served = v.served;
  busy = λ q. cc;
  noticed = λ q n. absurd (n e);
}
Step-IsSound {s} (wake p) v = record {
  counted = v.counted;
  in_order = v.in_order;
  served = v.served;
  busy = λ q. cc;
  noticed = λ q. cc;
}

pub Reach-IsSound : {s t : System} → IsSound s → Reach s t → IsSound t
Reach-IsSound v here = v
Reach-IsSound v (next r st) = Step-IsSound st (Reach-IsSound v r)

abbrev pub idle : ℕ → System
idle n = record {
  worker = record { queue = []; queue_length = 0; running = true };
  phase = looking;
  testing = false;
  signalled = false;
  type_first = n;
  dispatched = [];
  done = [];
  given = [];
}

pub idle-IsSound : (n : ℕ) → IsSound (idle n)
idle-IsSound n = record {
  counted = refl;
  in_order = refl;
  served = refl;
  busy = λ p. cc;
  noticed = λ p n. absurd (n refl);
}

-- A worker serves the requests that it is given in their order, each once: those done and those in
-- its queue are at all times those given, and those done with a type above TYPE__FIRST have been
-- dispatched.
pub served_in_order :
    (n : ℕ) {s : System}
    → Reach (idle n) s
    → (s.given ≡ s.done ++ s.worker.queue)
      × (s.worker.queue_length ≡ length s.worker.queue)
      × (s.dispatched ≡ above s.type_first s.done)
served_in_order n r = let v = Reach-IsSound (idle-IsSound n) r in (v.in_order, v.counted, v.served)

-- No wakeup is lost, with one thread that enqueues: a worker that waits with no signal on its way,
-- while no test for one is due, has an empty queue.
pub no_lost_wakeup :
    (n : ℕ) {s : System}
    → Reach (idle n) s
    → s.phase ≡ waiting
    → s.signalled ≡ false
    → s.testing ≡ false
    → s.worker.queue ≡ []
no_lost_wakeup n {s} r p g t = by_queue s.worker.queue refl
  where
    by_queue : (q : List Request) → s.worker.queue ≡ q → s.worker.queue ≡ []
    by_queue [] e = e
    by_queue (m ∷ q) e = elim ((Reach-IsSound (idle-IsSound n) r).noticed p (λ z. cc)) [
      | inl h ↦ cc
      | inr (h, l) ↦ cc
    ]
