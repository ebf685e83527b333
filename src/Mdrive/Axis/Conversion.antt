-- ===== src/Mdrive/Axis/Conversion.antt =====
-- drivers/mdrive/motion.c: how exact the conversions are.
use mcontrol.Base.{
  ℕ, zero, suc, ◌+◌, ◌*◌, ◌/◌, ◌^◌, ◌≤◌, ◌<◌, ◌≡◌, refl, sym, ap, ◌∙◌, subst, true, arith, ◌==◌,
  if◌then◌else◌, if_cases, ℤ, pos, negsuc, neg, wrap32, pos_part, neg_part, ◌*ℤ◌, ◌/ℤ◌, eio,
}
use native.Mathlib.Nat.{div-mul-le_self, lt-div-mul-add}
use mcontrol.Base.Int.Signs.{minus, times_pos, times_minus, over_minus}
use mcontrol.Base.Text.RoundTrip.{IsInt, wrap32_int}
use mcontrol.Mdrive.Dialogue.{Transmit}
use mcontrol.Mdrive.Axis.{
  Axis, lazyload_motion_config, resolution, million, steps_of, microrevs_of, microrevs_to_steps,
  steps_to_microrevs,
}

-- At most one step is lost, towards zero.
abbrev Loses : ℕ → ℕ → Type 0
Loses n m = (m ≤ n) × (n ≤ m + 1)

there_and_back : (n k : ℕ) → 0 < k → k ≤ million → Loses n (n * million / k * k / million)
there_and_back n k p l = omega (
  arith,
  div-mul-le_self (n * million) k,
  lt-div-mul-add {a = n * million} {b = k} p,
  div-mul-le_self (n * million / k * k) million,
  lt-div-mul-add {a = n * million / k * k} {b = million} (omega arith),
)

back_pos :
    (n k : ℕ) → (microrevs_of k (pos n) *ℤ pos k) /ℤ million ≡ pos (n * million / k * k / million)
unfolding ◌/ℤ◌
back_pos n k =
    ap (λ z. (z /ℤ k *ℤ pos k) /ℤ million) (times_pos n million)
    ∙ ap (λ z. z /ℤ million) (times_pos (n * million / k) k)

back_minus :
    (n k : ℕ)
    → (microrevs_of k (minus n) *ℤ pos k) /ℤ million ≡ minus (n * million / k * k / million)
back_minus n k =
    ap (λ z. (z /ℤ k *ℤ pos k) /ℤ million) (times_minus n million)
    ∙ ap (λ z. (z *ℤ pos k) /ℤ million) (over_minus (n * million) k)
    ∙ ap (λ z. z /ℤ million) (times_minus (n * million / k) k)
    ∙ over_minus (n * million / k * k) million

-- The parts of a number, of which one is zero, each lose a step at most.
abbrev pub LosesStep : ℤ → ℤ → Type 0
LosesStep z z' = Loses (pos_part z) (pos_part z') × Loses (neg_part z) (neg_part z')

minus-IsInt : (r : ℕ) → r ≤ 2 ^ 31 → IsInt (minus r)
minus-IsInt zero h = (omega arith, omega arith)
minus-IsInt (suc r) h = (omega arith, h)

minus-LosesStep : (n r : ℕ) → Loses n r → LosesStep (minus n) (minus r)
minus-LosesStep zero zero l = ((omega arith, omega arith), (omega arith, omega arith))
minus-LosesStep zero (suc r) l = ((omega arith, omega arith), l)
minus-LosesStep (suc n) zero l = ((omega arith, omega arith), l)
minus-LosesStep (suc n) (suc r) l = ((omega arith, omega arith), l)

steps-microrevs :
    (s : ℤ) (k : ℕ) → IsInt s → 0 < k → k ≤ million → LosesStep s (steps_of k (microrevs_of k s))
steps-microrevs (pos n) k h p l =
    let b = there_and_back n k p l in
    let r = n * million / k * k / million in
    let e = ap wrap32 (back_pos n k) ∙ wrap32_int (pos r) (omega (arith, h.0, b.0), omega arith) in
    subst (LosesStep (pos n)) (sym e) (b, (omega arith, omega arith))
steps-microrevs (negsuc n) k h p l =
    let b = there_and_back (suc n) k p l in
    let r = suc n * million / k * k / million in
    let e =
      ap wrap32 (back_minus (suc n) k)
      ∙ wrap32_int (minus r) (minus-IsInt r (omega (arith, h.1, b.0))) in
    subst (LosesStep (negsuc n)) (sym e) (minus-LosesStep (suc n) r b)

pub lazyload_loaded :
    (transmit : Transmit) (u : Axis)
    → u.loaded_encoder ≡ true
    → lazyload_motion_config transmit u ≡ (0, u)
unfolding lazyload_motion_config
lazyload_loaded transmit u e =
    if_cases {A = ℕ × Axis} (λ t. t ≡ (0, u)) u.loaded_encoder _ _ (λ p. refl)
      (λ p. absurd (ground arith))

pub to_steps_loaded :
    (transmit : Transmit) (m : ℤ) (u : Axis)
    → u.loaded_encoder ≡ true
    → microrevs_to_steps transmit m u ≡ (steps_of (resolution u) m, u)
unfolding microrevs_to_steps
to_steps_loaded transmit m u e =
    ap (λ t. if t.0 == 0 then (steps_of (resolution t.1) m, t.1) else (neg eio, t.1))
      (lazyload_loaded transmit u e)

pub to_microrevs_loaded :
    (transmit : Transmit) (s : ℤ) (u : Axis)
    → u.loaded_encoder ≡ true
    → steps_to_microrevs transmit s u ≡ (microrevs_of (resolution u) s, u)
unfolding steps_to_microrevs
to_microrevs_loaded transmit s u e =
    ap (λ t. if t.0 == 0 then (microrevs_of (resolution t.1) s, t.1) else (neg eio, t.1))
      (lazyload_loaded transmit u e)

-- Steps that are converted to micro-revolutions and back lose one step at most, towards zero, and the
-- axis stays as it is, when its settings are loaded and it has at most a million steps to the
-- revolution.
pub microrevs_to_steps-steps_to_microrevs :
    (transmit : Transmit) (s : ℤ) (u : Axis)
    → u.loaded_encoder ≡ true
    → IsInt s
    → 0 < resolution u
    → resolution u ≤ million
    → let there = steps_to_microrevs transmit s u in
      let back = microrevs_to_steps transmit there.0 there.1 in LosesStep s back.0 × (back.1 ≡ u)
microrevs_to_steps-steps_to_microrevs transmit s u e i p l =
    let k = resolution u in
    let both =
      ap (λ t. microrevs_to_steps transmit t.0 t.1) (to_microrevs_loaded transmit s u e)
      ∙ to_steps_loaded transmit (microrevs_of k s) u e in
    subst (λ (t : ℤ × Axis). LosesStep s t.0 × (t.1 ≡ u)) (sym both)
      (steps-microrevs s k i p l, refl)
