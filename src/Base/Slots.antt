-- ===== src/Base/Slots.antt =====
-- Fixed tables of slots, as the library scans them: the first free slot, the first slot that
-- matches, the slots below the high-water mark.
use mcontrol.Base.Tests.{if◌then◌else◌, of_bool, Bool-cases, Option-cases}
use mcontrol.Base.Lists.{length}
use Prim.Native.Nat.{ℕ, suc, ◌+◌, ◌≤◌, ◌<◌}
use mathlib.Core.Path.{◌≡◌, subst}
use mathlib.Core.Logic.{inl, inr}
use mathlib.Core.List.{List, [], ◌∷◌}
use mathlib.Core.Option
use mathlib.Core.Option.{Option, none, some}
use mathlib.Core.Bool.{Bool, false, not}
use native.Mathlib.Omega.{arith}

module _ {ℓ} {A : Type ℓ} where
  -- `while (!free(s)) s++; *s = v`: no result if the scan leaves the table.
  abbrev pub fill : (A → Bool) → A → List A → Option (List A)
  fill p v [] = none
  fill p v (x ∷ xs) = if p x then some (v ∷ xs) else Option.map (◌∷◌ x) (fill p v xs)

  -- The first slot that satisfies a test.
  abbrev pub find : (A → Bool) → List A → Option A
  find p [] = none
  find p (x ∷ xs) = if p x then some x else find p xs

  -- An update of the first slot that satisfies a test.
  abbrev pub modify : (A → Bool) → (A → A) → List A → List A
  modify p f [] = []
  modify p f (x ∷ xs) = if p x then f x ∷ xs else x ∷ modify p f xs

  -- The slots before the first that fails a test: `while (s->id) s++`.
  abbrev pub take_while : (A → Bool) → List A → List A
  take_while p [] = []
  take_while p (x ∷ xs) = if p x then x ∷ take_while p xs else []

  abbrev pub count_if : (A → Bool) → List A → ℕ
  count_if p [] = 0
  count_if p (x ∷ xs) = of_bool (p x) + count_if p xs

  abbrev pub All {κ} : (A → Type κ) → List A → Type κ
  All P [] = Unit
  All P (x ∷ xs) = P x × All P xs

  pub count_if-le : (p : A → Bool) (xs : List A) → count_if p xs ≤ length xs
  count_if-le p [] = omega arith
  count_if-le p (x ∷ xs) = ground (arith, count_if-le p xs)

  fill-skip :
      (p : A → Bool) (v x : A) (xs ys : List A)
      → p x ≡ false
      → fill p v xs ≡ some ys
      → fill p v (x ∷ xs) ≡ some (x ∷ ys)
  fill-skip p v x xs ys e q = rw (e, q)

  -- A table with fewer occupied slots than its length has a free one.
  pub fill_total :
      (p : A → Bool) (v : A) (xs : List A)
      → count_if (λ x. not (p x)) xs < length xs
      → (ys : List A) × (fill p v xs ≡ some ys)
  fill_total p v [] h = absurd (omega arith)
  fill_total p v (x ∷ xs) h = elim (Bool-cases (p x)) [
    | inl e ↦ (v ∷ xs, rw e)
    | inr e ↦
        let h' : 1 + count_if (λ x. not (p x)) xs < suc (length xs) = rw e at h in
        let r = fill_total p v xs (omega arith) in (x ∷ r.0, fill-skip p v x xs r.0 e r.1)
  ]

  -- What a filled table holds: one more occupied slot, if the new value counts.
  pub count_if-fill :
      (p : A → Bool) (v : A) (xs ys : List A)
      → fill (λ x. not (p x)) v xs ≡ some ys
      → count_if p ys ≡ of_bool (p v) + count_if p xs
  count_if-fill p v [] ys h = cc
  count_if-fill p v (x ∷ xs) ys h = elim (Bool-cases (p x)) [
    | inl e ↦ elim (Option-cases (fill (λ x. not (p x)) v xs)) [
      | inl q ↦ ground arith
      | inr (zs, q) ↦ ground (arith, count_if-fill p v xs zs q)
    ]
    | inr e ↦ ground arith
  ]

  pub length-fill :
      (p : A → Bool) (v : A) (xs ys : List A) → fill p v xs ≡ some ys → length ys ≡ length xs
  length-fill p v [] ys h = cc
  length-fill p v (x ∷ xs) ys h = elim (Option-cases (fill p v xs)) [
    | inl q ↦ ground arith
    | inr (zs, q) ↦ ground (arith, length-fill p v xs zs q)
  ]

  pub All-map {κ κ'} :
      (P : A → Type κ) (Q : A → Type κ') (f : (x : A) → P x → Q x) (xs : List A)
      → All P xs
      → All Q xs
  All-map P Q f [] h = tt
  All-map P Q f (x ∷ xs) h = (f x h.0, All-map P Q f xs h.1)

  pub All-fill {κ} :
      (P : A → Type κ) (p : A → Bool) (v : A) (xs ys : List A)
      → P v
      → All P xs
      → fill p v xs ≡ some ys
      → All P ys
  All-fill P p v [] ys h a e = cc
  All-fill P p v (x ∷ xs) ys h a e = elim (Bool-cases (p x)) [
    | inl q ↦ subst (All P) {x = v ∷ xs} (ground arith) (h, a.1)
    | inr q ↦ elim (Option-cases (fill p v xs)) [
      | inl n ↦ ground arith
      | inr (zs, n) ↦ subst (All P) {x = x ∷ zs} (ground arith) (a.0, All-fill P p v xs zs h a.1 n)
    ]
  ]
