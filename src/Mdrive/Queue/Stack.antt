-- ===== src/Mdrive/Queue/Stack.antt =====
-- drivers/mdrive/queue.c implements a stack of at most 16 responses.
use mcontrol.Base.{
  ℕ, zero, suc, ◌+◌, ◌-◌, ◌≤◌, ◌<◌, ◌≡◌, refl, sym, ap, ap₂, ◌∙◌, inl, inr, true, false, Option,
  none, some, List, [], ◌∷◌, arith, ltb, leb, ◌==◌, if◌then◌else◌, Bool-cases, length, get_or, set,
  length-set, get_or-set,
}
use mcontrol.Mdrive.Queue.{Queue, queue_push, queue_pop, flush_loop, queue_flush}

-- The first places of an array, the last of them first.
abbrev below : List ℕ → ℕ → List ℕ
below head zero = []
below head (suc n) = get_or head n 0 ∷ below head n

-- What a queue stands for.
abbrev pub stack : Queue → List ℕ
stack q = below q.head q.length

unfoldable pub IsQueue : Queue → Type 0
IsQueue q = (length q.head ≡ q.size) × (q.length ≤ q.size)

abbrev pub top : List ℕ → Option ℕ
top [] = none
top (x ∷ xs) = some x

abbrev pub below_top : List ℕ → List ℕ
below_top [] = []
below_top (x ∷ xs) = xs

below-set :
    (head : List ℕ) (n i x : ℕ) → i < length head → n ≤ i → below (set head i x) n ≡ below head n
below-set head zero i x b h = refl
below-set head (suc n) i x b h =
    ap₂ ◌∷◌ (ground (arith, get_or-set head i n x 0 b)) (below-set head n i x b (omega arith))

stack_push :
    (q : Queue) (response : ℕ)
    → IsQueue q
    → q.length < q.size
    → below (set q.head q.length response) (q.length + 1) ≡ response ∷ stack q
unfolding IsQueue
stack_push q response i l =
    ap (below (set q.head q.length response)) {x = q.length + 1} {y = suc q.length} (omega arith)
    ∙ ap₂ ◌∷◌
        (ground (arith, get_or-set q.head q.length q.length response 0 (omega (arith, i.0, l))))
        (below-set q.head q.length q.length response (omega (arith, i.0, l)) (omega arith))

-- A push puts the response on top of the stack, or drops it when 16 are there.
pub stack-queue_push :
    (q : Queue) (response : ℕ)
    → IsQueue q
    → IsQueue (queue_push q response)
      × (stack (queue_push q response)
          ≡ (if leb q.size q.length then stack q else response ∷ stack q))
unfolding queue_push IsQueue
stack-queue_push q response i = elim (Bool-cases (leb q.size q.length)) [
  | inl e ↦ rw e (i, refl)
  | inr e ↦ rw e (
    (length-set q.head q.length response ∙ i.0, ground (arith, e)),
    stack_push q response i (ground (arith, e)),
  )
]

stack_pos :
    (q : Queue)
    → ltb q.length 1 ≡ false
    → stack q ≡ get_or q.head (q.length - 1) 0 ∷ below q.head (q.length - 1)
stack_pos q e = ap (below q.head) {x = q.length} {y = suc (q.length - 1)} (ground arith)

stack_zero : (q : Queue) → ltb q.length 1 ≡ true → stack q ≡ []
stack_zero q e = ap (below q.head) {x = q.length} {y = 0} (ground arith)

-- A pop gives the top of the stack and takes it off, or gives nothing when the stack is empty.
pub stack-queue_pop :
    (q : Queue)
    → IsQueue q
    → IsQueue (queue_pop q).1
      × ((queue_pop q).0 ≡ top (stack q))
      × (stack (queue_pop q).1 ≡ below_top (stack q))
unfolding queue_pop IsQueue
stack-queue_pop q i = elim (Bool-cases (ltb q.length 1)) [
  | inl e ↦
      rw e (i, sym (ap top (stack_zero q e)), stack_zero q e ∙ sym (ap below_top (stack_zero q e)))
  | inr e ↦
      rw e (
        (i.0, omega (arith, i.1)),
        sym (ap top (stack_pos q e)),
        sym (ap below_top (stack_pos q e)),
      )
]

pop_pos :
    (q : Queue) → ltb q.length 1 ≡ false → (queue_pop q).1 ≡ record q { length = q.length - 1 }
unfolding queue_pop
pop_pos q e = rw e refl

flush_loop_lem :
    (n : ℕ) (q : Queue) → q.length < n → flush_loop n q ≡ some (record q { length = 0 })
unfolding flush_loop queue_pop
flush_loop_lem zero q h = absurd (omega arith)
flush_loop_lem (suc n) q h = elim (Bool-cases (q.length == 0)) [
  | inl e ↦
      rw e (ap (λ k. some (record q { length = k })) {x = q.length} {y = 0} (ground (arith, e)))
  | inr e ↦ rw e (
      ap (flush_loop n) (pop_pos q (ground (arith, e)))
      ∙ flush_loop_lem n (record q { length = q.length - 1 }) (ground (arith, e, h)))
]

-- A flush ends, and leaves the stack empty.
pub queue_flush_lem : (q : Queue) → queue_flush q ≡ some (record q { length = 0 })
unfolding queue_flush
queue_flush_lem q = flush_loop_lem (q.length + 1) q (omega arith)
