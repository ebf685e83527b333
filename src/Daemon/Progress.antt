-- ===== src/Daemon/Progress.antt =====
-- daemon/worker.c: what a worker comes to when it is left to run. The condition is only woken from by
-- a signal here, which is less than the step relation allows.
use mcontrol.Base.{
  ℕ, zero, suc, ◌+◌, ◌-◌, ◌*◌, ◌≤◌, ◌<◌, ◌≡◌, refl, sym, ap, ◌∙◌, inl, inr, Bool, true, false, ◌||◌,
  List, [], ◌∷◌, ◌++◌, arith, ◌==◌, length,
}
use mcontrol.Daemon.{Request, worker_dequeue, dispatch_request}
use mcontrol.Daemon.Queue.{
  System, Phase, looking, working, waiting, Step, test, start, finish, wake, IsSound, Step-IsSound,
  Reach, idle, idle-IsSound, Reach-IsSound,
}

-- The worker looks at its queue.
pub look : List Request → System → System
look [] s = record s { phase = waiting; signalled = false }
look (m ∷ rest) s = record s { phase = working }

pub serve : List Request → System → System
serve [] s = s
serve (m ∷ rest) s = record s {
  worker = (worker_dequeue s.worker).1;
  phase = looking;
  dispatched = dispatch_request s.type_first s.dispatched m;
  done = s.done ++ m ∷ [];
}

-- A waiting worker: a due test for the signal is made first, and a signal wakes the worker.
pub wait_turn : Bool → Bool → System → System
wait_turn true g s = record s {
  testing = false;
  signalled = s.signalled || s.worker.queue_length == 1;
}
wait_turn false true s = record s { phase = looking; signalled = false }
wait_turn false false s = s

pub turn_in : Phase → System → System
turn_in looking s = look s.worker.queue s
turn_in working s = serve s.worker.queue s
turn_in waiting s = wait_turn s.testing s.signalled s

-- The next thing that happens when no request is put.
pub turn : System → System
turn s = turn_in s.phase s

pub turns : ℕ → System → System
turns zero s = s
turns (suc n) s = turns n (turn s)

rank_in : Phase → Bool → ℕ → ℕ
rank_in looking t n = 2 * n
rank_in working t n = 2 * n - 1
rank_in waiting true n = 2 * n + 2
rank_in waiting false n = 2 * n + 1

rank : System → ℕ
rank s = rank_in s.phase s.testing (length s.worker.queue)

record Advances (s t : System) : Type 0 where
  step : Step s t
  given : t.given ≡ s.given
  ranks : rank t < rank s

record IsPlaced (s : System) (p : Phase) (t g : Bool) (q : List Request) : Type 0 where
  phase : s.phase ≡ p
  testing : s.testing ≡ t
  signalled : s.signalled ≡ g
  queue : s.worker.queue ≡ q

looking-Advances :
    (s : System) (t g : Bool) (m : Request) (rest : List Request)
    → IsPlaced s looking t g (m ∷ rest)
    → Advances s (turn s)
unfolding turn turn_in look rank rank_in
looking-Advances s t g m rest h =
    rw (h.phase, turn_in, h.queue, look)
      (record { step = start m rest refl refl; given = refl; ranks = omega arith })

working-Advances :
    (s : System) (t g : Bool) (m : Request) (rest : List Request)
    → IsPlaced s working t g (m ∷ rest)
    → Advances s (turn s)
unfolding turn turn_in serve rank rank_in worker_dequeue
working-Advances s t g m rest h =
    rw (h.phase, turn_in, h.queue, serve)
      (record { step = finish m rest refl refl; given = refl; ranks = omega arith })

tested-Advances :
    (s : System) (g : Bool) (m : Request) (rest : List Request)
    → IsPlaced s waiting true g (m ∷ rest)
    → Advances s (turn s)
unfolding turn turn_in wait_turn rank rank_in
tested-Advances s g m rest h =
    rw (h.phase, turn_in, h.testing, wait_turn)
      (record { step = test refl; given = refl; ranks = omega arith })

signalled-Advances :
    (s : System) (m : Request) (rest : List Request)
    → IsPlaced s waiting false true (m ∷ rest)
    → Advances s (turn s)
unfolding turn turn_in wait_turn rank rank_in
signalled-Advances s m rest h =
    rw (h.phase, turn_in, h.testing, h.signalled, wait_turn)
      (record { step = wake refl; given = refl; ranks = omega arith })

turn-Advances :
    (s : System) (m : Request) (rest : List Request)
    → IsSound s
    → s.worker.queue ≡ m ∷ rest
    → Advances s (turn s)
turn-Advances s m rest v e = by_place s.phase s.testing s.signalled refl refl refl
  where
    placed :
        (p : Phase) (t g : Bool)
        → s.phase ≡ p
        → s.testing ≡ t
        → s.signalled ≡ g
        → IsPlaced s p t g (m ∷ rest)
    placed p t g a b c = record { phase = a; testing = b; signalled = c; queue = e }

    by_place :
        (p : Phase) (t g : Bool)
        → s.phase ≡ p
        → s.testing ≡ t
        → s.signalled ≡ g
        → Advances s (turn s)
    by_place looking t g a b c = looking-Advances s t g m rest (placed looking t g a b c)
    by_place working t g a b c = working-Advances s t g m rest (placed working t g a b c)
    by_place waiting true g a b c = tested-Advances s g m rest (placed waiting true g a b c)
    by_place waiting false true a b c =
        signalled-Advances s m rest (placed waiting false true a b c)
    by_place waiting false false a b c = elim (v.noticed a (λ n. cc)) [
      | inl h ↦ cc
      | inr (h, l) ↦ cc
    ]

-- A worker with nothing to do stays so.
turn_empty :
    (s : System) → s.worker.queue ≡ [] → ((turn s).worker.queue ≡ []) × ((turn s).done ≡ s.done)
unfolding turn turn_in look serve wait_turn
turn_empty s e = by_place s.phase s.testing s.signalled refl refl refl
  where
    by_place :
        (p : Phase) (t g : Bool)
        → s.phase ≡ p
        → s.testing ≡ t
        → s.signalled ≡ g
        → ((turn s).worker.queue ≡ []) × ((turn s).done ≡ s.done)
    by_place looking t g a b c = rw (a, turn_in, e, look) (refl, refl)
    by_place working t g a b c = rw (a, turn_in, e, serve) (refl, refl)
    by_place waiting true g a b c = rw (a, turn_in, b, wait_turn) (e, refl)
    by_place waiting false true a b c = rw (a, turn_in, b, c, wait_turn) (e, refl)
    by_place waiting false false a b c = rw (a, turn_in, b, c, wait_turn) (e, refl)

turns_empty : (n : ℕ) (s : System) → s.worker.queue ≡ [] → (turns n s).done ≡ s.done
unfolding turns
turns_empty zero s e = refl
turns_empty (suc n) s e = let (q, d) = turn_empty s e in turns_empty n (turn s) q ∙ d

nil_append_right : (xs : List Request) → xs ++ [] ≡ xs
nil_append_right [] = refl
nil_append_right (x ∷ xs) = ap (λ l. x ∷ l) (nil_append_right xs)

turns_drain_from :
    (n : ℕ) (s : System) (q : List Request)
    → s.worker.queue ≡ q
    → IsSound s
    → rank s ≤ n
    → (turns n s).done ≡ s.given
unfolding turns
turns_drain_from n s [] e v h =
    turns_empty n s e
    ∙ sym (nil_append_right s.done)
    ∙ ap (λ l. s.done ++ l) (sym e)
    ∙ sym v.in_order
turns_drain_from zero s (m ∷ rest) e v h =
    absurd (omega (arith, (turn-Advances s m rest v e).ranks))
turns_drain_from (suc n) s (m ∷ rest) e v h =
    let a = turn-Advances s m rest v e in
    turns_drain_from n (turn s) (turn s).worker.queue refl (Step-IsSound a.step v)
      (omega (arith, a.ranks))
    ∙ a.given

rank_bound : (s : System) → rank s ≤ 2 * length s.worker.queue + 2
unfolding rank rank_in
rank_bound s = by_place s.phase s.testing
  where
    by_place :
        (p : Phase) (t : Bool) → rank_in p t (length s.worker.queue) ≤ 2 * length s.worker.queue + 2
    by_place looking t = omega arith
    by_place working t = omega arith
    by_place waiting true = omega arith
    by_place waiting false = omega arith

-- A worker serves all that it is given, wherever its thread is: let nothing more be put, and each
-- turn make the next step of the worker, or the test for a signal where one is due and the worker
-- waits. A waiting worker is only woken by a signal. After two turns for each queued request and two
-- more, and however long it goes on, the requests done are those given.
pub turns_drain :
    (type_first k : ℕ) {s : System}
    → Reach (idle type_first) s
    → (turns (k + (2 * length s.worker.queue + 2)) s).done ≡ s.given
turns_drain type_first k {s} r =
    turns_drain_from (k + (2 * length s.worker.queue + 2)) s s.worker.queue refl
      (Reach-IsSound (idle-IsSound type_first) r) (omega (arith, rank_bound s))
