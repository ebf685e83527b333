-- ===== src/Trace/Exact.antt =====
-- lib/trace.c: the mask of mcTraceSubscribersLookup and the loop of mcTraceWrite together reach
-- exactly the subscribers that want a message.
use native.Mathlib.Nat.{
  mul-div_cancel, mul-add, add-mul, mul_assoc, mul_comm, one-le-pow, two-pow-succ,
}
use mcontrol.Base.{
  ℕ, zero, suc, ◌+◌, ◌-◌, ◌*◌, ◌/◌, ◌%◌, ◌^◌, ◌≤◌, ◌≡◌, refl, sym, ap, ap₂, ◌∙◌, inl, inr, Bool,
  true, false, List, [], ◌∷◌, ◌++◌, arith, ◌==◌, if◌then◌else◌, of_bool, Bool-cases, if_cases,
  length,
}
use mcontrol.Base.Int.{ℤ, pos, eqb_ℤ}
use mcontrol.Trace.{
  Subscriber, Subscribers, wants, lookup_loop, subscribers_lookup, Delivery, deliver,
  after_delivery, write, trace,
}

-- The mask that is meant: bit i for the entry i.
abbrev bits : ℤ → ℕ → List Subscriber → ℕ
bits level channel [] = 0
bits level channel (s ∷ ss) =
    let rest = bits level channel ss in
    if s.id == 0 then 0 else of_bool (wants level channel s) + 2 * rest

-- The entries up to the high-water mark.
abbrev used : List Subscriber → ℕ
used [] = 0
used (s ∷ ss) = let rest = used ss in if s.id == 0 then 0 else suc rest

used_le : (ss : List Subscriber) → used ss ≤ length ss
used_le [] = omega arith
used_le (s ∷ ss) = ground (arith, used_le ss)

-- The bits that are above the ones found so far.
abbrev above : ℤ → ℕ → List Subscriber → ℕ → ℕ → ℕ
above level channel [] m w = m
above level channel (s ∷ ss) m w =
    let rest = above level channel ss (m + of_bool (wants level channel s) * w) (w + w) in
    if s.id == 0 then m else rest

shift :
    (m w p q b : ℕ)
    → p ≡ q + q
    → w * p ≡ 18446744073709551616
    → m * p / 2 + b * 9223372036854775808 ≡ (m + b * w) * q
shift m w p q b e h =
    let half : w * q ≡ 9223372036854775808 =
      omega (arith, sym (ap (λ x. w * x) e) ∙ h, mul-add w q q) in
    omega (
      arith,
      ap (λ x. m * x) e,
      mul-add m q q,
      add-mul m (b * w) q,
      mul_assoc b w q,
      ap (λ x. b * x) half,
    )

twice : (w k : ℕ) → w * 2 ^ suc k ≡ 18446744073709551616 → (w + w) * 2 ^ k ≡ 18446744073709551616
twice w k h =
    omega
      (arith, h, ap (λ x. w * x) (two-pow-succ k), mul-add w (2 ^ k) (2 ^ k), add-mul w w (2 ^ k))

stay : (m k n : ℕ) → ◌≡◌ {A = ℕ × ℕ} (m * 2 ^ k, n) (m * 2 ^ (k - 0), n + 0)
stay m k n =
    ap (λ x. (m * 2 ^ x, n)) {x = k} {y = k - 0} (omega arith)
    ∙ ap (λ y. (m * 2 ^ (k - 0), y)) {x = n} {y = n + 0} (omega arith)

later_count :
    (a k n u : ℕ)
    → ◌≡◌ {A = ℕ × ℕ} (a * 2 ^ (k - u), n + 1 + u) (a * 2 ^ (suc k - suc u), n + suc u)
later_count a k n u =
    ap (λ x. (a * 2 ^ x, n + 1 + u)) {x = k - u} {y = suc k - suc u} (omega arith)
    ∙ ap (λ y. (a * 2 ^ (suc k - suc u), y)) {x = n + 1 + u} {y = n + suc u} (omega arith)

lookup_loop_lem :
    (level : ℤ) (channel : ℕ) (ss : List Subscriber) (k n m w : ℕ)
    → used ss ≤ k
    → w * 2 ^ k ≡ 18446744073709551616
    → lookup_loop level channel ss (m * 2 ^ k) n
      ≡ (above level channel ss m w * 2 ^ (k - used ss), n + used ss)
unfolding lookup_loop
lookup_loop_lem level channel [] k n m w u h = stay m k n
lookup_loop_lem level channel (s ∷ ss) zero n m w u h = elim (Bool-cases (s.id == 0)) [
  | inl e ↦ rw e (stay m zero n)
  | inr e ↦ let u' : suc (used ss) ≤ zero = rw e at u in absurd (omega (arith, u'))
]
lookup_loop_lem level channel (s ∷ ss) (suc k) n m w u h = elim (Bool-cases (s.id == 0)) [
  | inl e ↦ rw e (stay m (suc k) n)
  | inr e ↦
      let u' : suc (used ss) ≤ suc k = rw e at u in
      let b = of_bool (wants level channel s) in
      rw e (
        ap (λ x. lookup_loop level channel ss x (n + 1))
          (shift m w (2 ^ suc k) (2 ^ k) b (two-pow-succ k) h)
        ∙ lookup_loop_lem level channel ss k (n + 1) (m + b * w) (w + w) (omega (arith, u'))
            (twice w k h)
        ∙ later_count (above level channel ss (m + b * w) (w + w)) k n (used ss))
]

above-bits :
    (level : ℤ) (channel : ℕ) (ss : List Subscriber) (m w : ℕ)
    → above level channel ss m w ≡ m + w * bits level channel ss
above-bits level channel [] m w = omega arith
above-bits level channel (s ∷ ss) m w = elim (Bool-cases (s.id == 0)) [
  | inl e ↦ rw e (omega arith)
  | inr e ↦
      let b = of_bool (wants level channel s) in
      let rest = bits level channel ss in
      rw e (
        omega (
          arith,
          above-bits level channel ss (m + b * w) (w + w),
          add-mul w w rest,
          mul-add w b (2 * rest),
          mul_comm b w,
          two_times w rest,
        ))
]
  where
    two_times : (w x : ℕ) → w * (2 * x) ≡ w * x + w * x
    two_times w x = ap (λ y. w * y) {x = 2 * x} {y = x + x} (omega arith) ∙ mul-add w x x

-- The mask has exactly the bits that are meant.
subscribers_lookup_lem :
    (level : ℤ) (channel : ℕ) (t : Subscribers)
    → length t.table ≤ 64
    → eqb_ℤ t.count (pos 0) ≡ false
    → subscribers_lookup level channel t ≡ bits level channel t.table
unfolding subscribers_lookup
subscribers_lookup_lem level channel t l c =
    let u = used_le t.table in
    let m = above level channel t.table 0 1 in
    let n = used t.table in
    let r = lookup_loop_lem level channel t.table 64 0 0 1 (omega (arith, u, l)) refl in
    let some_in : eqb_ℤ t.count (pos 0) ≡ false = c in
    rw some_in (
      ap (λ p. p.0 / 2 ^ (64 - p.1)) r
      ∙ ap (λ x. m * 2 ^ (64 - n) / 2 ^ (64 - x)) {x = 0 + n} {y = n} (omega arith)
      ∙ mul-div_cancel m (one-le-pow (64 - n) 2 (omega arith))
      ∙ above-bits level channel t.table 0 1
      ∙ omega arith)

-- The subscribers that want a message.
abbrev pub reached : ℤ → ℕ → List Subscriber → List Delivery
reached level channel [] = []
reached level channel (s ∷ ss) =
    let rest = reached level channel ss in
    if s.id == 0 then [] else if wants level channel s then deliver s ++ rest else rest

abbrev pub all_after : (ℕ → Bool) → ℤ → ℕ → List Subscriber → List Subscriber
all_after gone level channel [] = []
all_after gone level channel (s ∷ ss) =
    let rest = all_after gone level channel ss in
    if s.id == 0
    then s ∷ ss
    else (if wants level channel s then after_delivery gone s else s) ∷ rest

write_nothing : (gone : ℕ → Bool) (ss : List Subscriber) → write gone 0 ss ≡ ([], ss)
unfolding write
write_nothing gone [] = refl
write_nothing gone (s ∷ ss) = refl

abbrev reach_one :
    (ℕ → Bool)
    → Subscriber
    → Bool
    → List Delivery × List Subscriber
    → List Delivery × List Subscriber
reach_one gone s b t = if b then (deliver s ++ t.0, after_delivery gone s ∷ t.1) else (t.0, s ∷ t.1)

write-cons :
    (gone : ℕ → Bool) (mask : ℕ) (s : Subscriber) (ss : List Subscriber)
    → write gone mask (s ∷ ss) ≡ reach_one gone s (mask % 2 == 1) (write gone (mask / 2) ss)
unfolding write
write-cons gone zero s ss = sym (ap (reach_one gone s false) (write_nothing gone ss))
write-cons gone (suc k) s ss =
    if_cases {A = List Delivery × List Subscriber}
      (λ t. t ≡ reach_one gone s (suc k % 2 == 1) (write gone (suc k / 2) ss)) (suc k == 0) _ _
      (λ e. absurd (ground (arith, e))) (λ e. refl)

write-bits :
    (gone : ℕ → Bool) (level : ℤ) (channel : ℕ) (ss : List Subscriber)
    → write gone (bits level channel ss) ss
      ≡ (reached level channel ss, all_after gone level channel ss)
write-bits gone level channel [] = write_nothing gone []
write-bits gone level channel (s ∷ ss) = elim (Bool-cases (s.id == 0)) [
  | inl e ↦ rw e (write_nothing gone (s ∷ ss))
  | inr e ↦ rw e (
      write-cons gone (of_bool (wants level channel s) + 2 * bits level channel ss) s ss
      ∙ ap₂ (reach_one gone s) (low_bit (wants level channel s) (bits level channel ss)) (
          ap (λ m. write gone m ss) (high_bits (wants level channel s) (bits level channel ss))
          ∙ write-bits gone level channel ss)
      ∙ joined (wants level channel s) (reached level channel ss) (all_after gone level channel ss))
]
  where
    low_bit : (b : Bool) (r : ℕ) → ((of_bool b + 2 * r) % 2 == 1) ≡ b
    low_bit true r = ground arith
    low_bit false r = ground arith

    high_bits : (b : Bool) (r : ℕ) → (of_bool b + 2 * r) / 2 ≡ r
    high_bits true r = omega arith
    high_bits false r = omega arith

    joined :
        (b : Bool) (ds : List Delivery) (ts : List Subscriber)
        → reach_one gone s b (ds, ts)
          ≡ ((if b then deliver s ++ ds else ds), (if b then after_delivery gone s else s) ∷ ts)
    joined true ds ts = refl
    joined false ds ts = refl

-- A trace is delivered once to each active subscriber below the high-water mark whose level and
-- channels ask for it, in the order of the table, and to nobody else; of the table only those are
-- changed that were sent a message to a process that is gone. That holds while the count of
-- subscribers is not 0, in a table of at most 64 slots.
pub trace_lem :
    (gone : ℕ → Bool) (level : ℤ) (channel : ℕ) (t : Subscribers)
    → length t.table ≤ 64
    → eqb_ℤ t.count (pos 0) ≡ false
    → trace gone level channel t
      ≡ (reached level channel t.table, record t { table = all_after gone level channel t.table })
unfolding trace
trace_lem gone level channel t l c =
    ap (λ m. if m == 0 then ([], t) else written (write gone m t.table))
      (subscribers_lookup_lem level channel t l c)
    ∙ either (bits level channel t.table)
    ∙ ap written (write-bits gone level channel t.table)
  where
    written : List Delivery × List Subscriber → List Delivery × Subscribers
    written r = (r.0, record t { table = r.1 })

    either :
        (m : ℕ)
        → (if m == 0 then ([], t) else written (write gone m t.table))
          ≡ written (write gone m t.table)
    either m =
        if_cases {A = List Delivery × Subscribers} (λ r. r ≡ written (write gone m t.table))
          (m == 0) _ _
          (λ e. sym (
            ap (λ k. written (write gone k t.table)) {x = m} {y = 0} (ground (arith, e))
            ∙ ap written (write_nothing gone t.table)))
          (λ e. refl)
