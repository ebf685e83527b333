-- ===== src/Base/Text/RoundTrip.antt =====
-- What printf prints of an integer, strtol reads again.
use Prim.Native.Nat.{ℕ, zero, suc, ◌+◌, ◌*◌, ◌/◌, ◌%◌, ◌^◌, ◌≤◌, ◌<◌}
use mathlib.Core.Path.{◌≡◌, refl, ap, ◌∙◌}
use mathlib.Core.Bool.{true, false}
use mathlib.Core.List.{List, [], ◌∷◌, ◌++◌, append_assoc}
use native.Mathlib.Omega.{arith}
use native.Mathlib.Nat.{pow-suc}
use mcontrol.Base.Tests.{ltb, ◌==◌, if_cases}
use mcontrol.Base.Int.{ℤ, wrap32, pos, negsuc, pos_part, neg_part}
use mcontrol.Base.Text.{
  decimal_loop, decimal, print_int, digits, is_digit, is_space, skip_spaces, positive, negative,
  first_is_digit, after_sign, signed, strtol, Number,
}

-- A text that no further digit begins.
abbrev pub Ends : List ℕ → Type 0
Ends ys = first_is_digit ys ≡ false

digits_one :
    (value c : ℕ) (ys : List ℕ) → c < 10 → digits value ((48 + c) ∷ ys) ≡ digits (value * 10 + c) ys
unfolding digits
digits_one value c ys h =
    if_cases (λ t. t ≡ digits (value * 10 + c) ys) (is_digit (48 + c)) _ _
      (λ e. ap (λ k. digits k ys) (omega arith)) (λ e. absurd (ground arith))

digits-decimal :
    (fuel n : ℕ) (ys : List ℕ) → n < 10 ^ fuel → digits 0 (decimal_loop fuel n ++ ys) ≡ digits n ys
unfolding decimal_loop
digits-decimal zero n ys h = ap (λ k. digits k ys) (omega arith)
digits-decimal (suc fuel) n ys h =
    if_cases (λ l. digits 0 (l ++ ys) ≡ digits n ys) (ltb n 10) ((48 + n) ∷ [])
      (decimal_loop fuel (n / 10) ++ (48 + n % 10) ∷ [])
      (λ e.
        digits_one 0 n ys (ground arith)
        ∙ ap (λ k. digits k ys) {x = 0 * 10 + n} {y = n} (omega arith))
      λ e.
        ap (digits 0) (append_assoc (decimal_loop fuel (n / 10)) ((48 + n % 10) ∷ []) ys)
        ∙ digits-decimal fuel (n / 10) ((48 + n % 10) ∷ ys) (omega (arith, pow-suc 10 fuel))
        ∙ digits_one (n / 10) (n % 10) ys (omega arith)
        ∙ ap (λ k. digits k ys) {x = n / 10 * 10 + n % 10} {y = n} (omega arith)

digits_end : (n : ℕ) (ys : List ℕ) → Ends ys → digits n ys ≡ (n, ys)
unfolding digits
digits_end n [] h = refl
digits_end n (y ∷ ys) h = rw h refl

first-decimal : (fuel n : ℕ) (ys : List ℕ) → first_is_digit (decimal_loop (suc fuel) n ++ ys) ≡ true
unfolding decimal_loop
first-decimal zero n ys =
    if_cases (λ l. first_is_digit (l ++ ys) ≡ true) (ltb n 10) ((48 + n) ∷ [])
      ([] ++ (48 + n % 10) ∷ []) (λ e. ground arith) (λ e. ground arith)
first-decimal (suc fuel) n ys =
    if_cases (λ l. first_is_digit (l ++ ys) ≡ true) (ltb n 10) ((48 + n) ∷ [])
      (decimal_loop (suc fuel) (n / 10) ++ (48 + n % 10) ∷ []) (λ e. ground arith)
      λ e.
        ap first_is_digit (append_assoc (decimal_loop (suc fuel) (n / 10)) ((48 + n % 10) ∷ []) ys)
        ∙ first-decimal fuel (n / 10) ((48 + n % 10) ∷ ys)

-- A digit is neither a blank nor a sign.
signed_digit :
    (start s : List ℕ)
    → first_is_digit s ≡ true
    → signed start (skip_spaces s) ≡ after_sign false start s
unfolding signed skip_spaces after_sign
signed_digit start [] h = refl
signed_digit start (c ∷ cs) h =
    if_cases (λ l. signed start l ≡ after_sign false start (c ∷ cs)) (is_space c) _ _
      (λ e. absurd (ground arith))
      λ e.
        if_cases (λ t. t ≡ after_sign false start (c ∷ cs)) (c == 45) _ _
          (λ m. absurd (ground arith))
          λ m.
            if_cases (λ t. t ≡ after_sign false start (c ∷ cs)) (c == 43) _ _
              (λ m. absurd (ground arith)) (λ m. refl)

-- The numbers that an int can have.
abbrev pub IsInt : ℤ → Type 0
IsInt z = (pos_part z < 2 ^ 31) × (neg_part z ≤ 2 ^ 31)

abbrev number : ℤ → List ℕ → Number
number z ys = record { value = z; rest = ys; errno = 0 }

signed_pos :
    (start : List ℕ) (n : ℕ) (ys : List ℕ)
    → n < 2 ^ 31
    → Ends ys
    → signed start (skip_spaces (decimal n ++ ys)) ≡ number (pos n) ys
unfolding after_sign positive decimal
signed_pos start n ys h e =
    signed_digit start (decimal_loop 20 n ++ ys) (first-decimal 19 n ys)
    ∙ rw (first-decimal 19 n ys, digits-decimal 20 n ys (omega arith), digits_end n ys e)
        (ground arith)

signed_neg :
    (start : List ℕ) (n : ℕ) (ys : List ℕ)
    → suc n ≤ 2 ^ 31
    → Ends ys
    → signed start (skip_spaces (45 ∷ decimal (suc n) ++ ys)) ≡ number (negsuc n) ys
unfolding skip_spaces signed after_sign negative decimal
signed_neg start n ys h e =
    rw
      (
        first-decimal 19 (suc n) ys,
        digits-decimal 20 (suc n) ys (omega arith),
        digits_end (suc n) ys e,
      )
      (ground arith)

signed-print_int :
    (start : List ℕ) (z : ℤ) (ys : List ℕ)
    → IsInt z
    → Ends ys
    → signed start (skip_spaces (print_int z ++ ys)) ≡ number z ys
unfolding print_int
signed-print_int start (pos n) ys h e = signed_pos start n ys h.0 e
signed-print_int start (negsuc n) ys h e = signed_neg start n ys h.1 e

-- strtol reads an int that "%d" has printed, up to the next character that is no digit, without an
-- error.
pub strtol-print_int :
    (z : ℤ) (ys : List ℕ)
    → IsInt z
    → Ends ys
    → strtol (print_int z ++ ys) ≡ record { value = z; rest = ys; errno = 0 }
unfolding strtol
strtol-print_int z ys h e = signed-print_int (print_int z ++ ys) z ys h e

-- So it does behind a blank.
pub strtol_blank :
    (z : ℤ) (ys : List ℕ)
    → IsInt z
    → Ends ys
    → strtol (32 ∷ print_int z ++ ys) ≡ record { value = z; rest = ys; errno = 0 }
unfolding strtol skip_spaces
strtol_blank z ys h e = signed-print_int (32 ∷ print_int z ++ ys) z ys h e

pub wrap32_int : (z : ℤ) → IsInt z → wrap32 z ≡ z
wrap32_int (pos n) h = ground arith
wrap32_int (negsuc n) h = ground arith
