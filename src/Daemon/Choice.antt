-- ===== src/Daemon/Choice.antt =====
-- ScheduleLeastBusy of daemon/scheduler.c picks a worker with the shortest queue.
use mcontrol.Base.{
  ℕ, suc, ◌+◌, ◌≤◌, ◌<◌, ◌≡◌, refl, ap, ◌∙◌, subst, ◌⊎◌, inl, inr, true, ◌&&◌, Option, none, some,
  List, [], ◌∷◌, arith, ltb, ◌==◌, Bool-cases, get_elem?,
}
use mcontrol.Base.Slots.{All}
use mcontrol.Daemon.{Worker, least_busy_from, schedule_least_busy}

-- No running worker of a list has fewer than `n` requests.
abbrev pub Lower : ℕ → List Worker → Type 0
Lower n = All (λ v. v.running ≡ true → n ≤ v.queue_length)

-- Slot `k` holds a running worker with fewer than `limit` requests, and no running worker has fewer.
pub record IsLeast (ws : List Worker) (limit k : ℕ) (w : Worker) : Type 0 where
  pub stands : get_elem? ws k ≡ some w
  pub runs : w.running ≡ true
  pub short : w.queue_length < limit
  pub least : Lower w.queue_length ws

-- What the loop may still answer, if `shortest` is the least length so far.
abbrev Answer : ℕ → ℕ → Option ℕ → List Worker → Option ℕ → Type 0
Answer i shortest least ws o =
    ((o ≡ least) × Lower shortest ws)
    ⊎ ((k : ℕ) × (w : Worker) × (o ≡ some (i + k)) × IsLeast ws shortest k w)

Lower-zero : (ws : List Worker) → Lower 0 ws
Lower-zero [] = tt
Lower-zero (w ∷ ws) = (λ r. omega arith, Lower-zero ws)

-- The tail of the list has answered for a limit of at most `shortest`.
answer-cons :
    (i shortest limit k : ℕ) (w v : Worker) (ws : List Worker) {o : Option ℕ}
    → limit ≤ shortest
    → (w.running ≡ true → limit ≤ w.queue_length)
    → o ≡ some (suc i + k)
    → IsLeast ws limit k v
    → (k : ℕ) × (x : Worker) × (o ≡ some (i + k)) × IsLeast (w ∷ ws) shortest k x
answer-cons i shortest limit k w v ws h low e a = (
  suc k,
  v,
  e ∙ ap some (omega arith),
  record {
    stands = a.stands;
    runs = a.runs;
    short = omega (arith, a.short);
    least = (λ r. omega (arith, low r, a.short), a.least);
  },
)

least_busy_from-Answer :
    (i shortest : ℕ) (least : Option ℕ) (ws : List Worker)
    → 0 < shortest
    → Answer i shortest least ws (least_busy_from i shortest least ws)
unfolding least_busy_from
least_busy_from-Answer i shortest least [] p = inl (refl, tt)
least_busy_from-Answer i shortest least (w ∷ ws) p =
    elim (Bool-cases (w.running && w.queue_length == 0)) [
      | inl z ↦ rw z (
          inr (
            0,
            w,
            ap some (omega arith),
            record {
              stands = refl;
              runs = ground arith;
              short = ground arith;
              least = (
                λ r. omega arith,
                subst (λ n. Lower n ws) {x = 0} (ground arith) (Lower-zero ws),
              );
            },
          ))
      | inr z ↦ elim (Bool-cases (w.running && ltb w.queue_length shortest)) [
        | inl b ↦
            rw (z, b)
              (elim (least_busy_from-Answer (suc i) w.queue_length (some i) ws (ground arith)) [
                | inl (e, l) ↦ inr (
                  0,
                  w,
                  e ∙ ap some (omega arith),
                  record {
                    stands = refl;
                    runs = ground arith;
                    short = ground arith;
                    least = (λ r. omega arith, l);
                  },
                )
                | inr (k, v, e, a) ↦ inr (
                    answer-cons i shortest w.queue_length k w v ws (ground arith) (λ r. omega arith)
                      e a)
              ])
        | inr b ↦
            rw (z, b)
              (elim (least_busy_from-Answer (suc i) shortest least ws p) [
                | inl (e, l) ↦ inl (e, (λ r. ground arith, l))
                | inr (k, v, e, a) ↦
                    inr (
                      answer-cons i shortest shortest k w v ws (omega arith) (λ r. ground arith) e
                        a)
              ])
      ]
    ]

-- ScheduleLeastBusy gives the request to a running worker whose queue is shorter than 10000 and no
-- longer than that of any running worker; it is left with its uninitialized pointer only if no
-- running worker has a queue shorter than 10000.
pub schedule_least_busy_lem :
    (ws : List Worker)
    → ((schedule_least_busy ws ≡ none) × Lower 10000 ws)
      ⊎ ((k : ℕ) × (w : Worker) × (schedule_least_busy ws ≡ some k) × IsLeast ws 10000 k w)
unfolding schedule_least_busy
schedule_least_busy_lem ws = elim (least_busy_from-Answer 0 10000 none ws (omega arith)) [
  | inl a ↦ inl a
  | inr (k, w, e, a) ↦ inr (k, w, e ∙ ap some (omega arith), a)
]
