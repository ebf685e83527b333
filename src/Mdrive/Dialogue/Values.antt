-- ===== src/Mdrive/Dialogue/Values.antt =====
-- drivers/mdrive/serial.c: the numbers that the driver reads are those that the unit has printed.
use mcontrol.Base.{
  ℕ, ◌≡◌, refl, ap, ap₂, subst, some, List, [], ◌∷◌, ◌++◌, arith, length, ascii, fit, print_int, ℤ,
}
use mcontrol.Base.Text.RoundTrip.{IsInt, Ends, strtol-print_int, strtol_blank, wrap32_int}
use mcontrol.Mdrive.Classify.{response_ok, Device}
use mcontrol.Mdrive.Dialogue.{
  Transmit, asking, integer_of, get_integer, ask_for, numbers, get_integers,
}

append_nothing : (xs : List ℕ) → xs ++ [] ≡ xs
append_nothing [] = refl
append_nothing (x ∷ xs) = ap (λ l. x ∷ l) (append_nothing xs)

integer_of-print_int : (z : ℤ) → IsInt z → integer_of (print_int z) ≡ (0, z)
unfolding integer_of
integer_of-print_int z h =
    let e = strtol-print_int z [] h refl in
    subst (λ s. integer_of s ≡ (0, z)) (append_nothing (print_int z))
      (rw (e) (ap (λ v. (0, v)) (wrap32_int z h)))

-- The answer to "PR " and a variable is the int that the unit prints: that is the value, with the
-- status 0. Any other character behind the digits makes the status EIO.
pub get_integer-print_int :
    (transmit : Transmit) (variable : List ℕ) (z : ℤ) (d d' : Device)
    → IsInt z
    → transmit asking (fit 16 (ascii "PR " ++ variable)) d ≡ (response_ok, (print_int z, d'))
    → get_integer transmit variable d ≡ (0, (some z, d'))
unfolding get_integer
get_integer-print_int transmit variable z d d' h e =
    rw (e) (ap (λ t. (t.0, (some t.1, d'))) (integer_of-print_int z h))

-- Values as the unit prints them for mdrive_get_integers, a blank before each but the first.
abbrev pub blanked : List ℤ → List ℕ
blanked [] = []
blanked (z ∷ zs) = 32 ∷ print_int z ++ blanked zs

abbrev pub AllInt : List ℤ → Type 0
AllInt [] = Unit {0}
AllInt (z ∷ zs) = IsInt z × AllInt zs

blanked-Ends : (zs : List ℤ) → Ends (blanked zs)
blanked-Ends [] = refl
blanked-Ends (z ∷ zs) = refl

numbers-blanked :
    (vs : List (List ℕ)) (zs : List ℤ)
    → length vs ≡ length zs
    → AllInt zs
    → numbers vs (blanked zs) ≡ zs
unfolding numbers
numbers-blanked [] [] l h = refl
numbers-blanked [] (z ∷ zs) l h = absurd (omega arith)
numbers-blanked (v ∷ vs) [] l h = absurd (omega arith)
numbers-blanked (v ∷ vs) (z ∷ zs) l h =
    rw (strtol_blank z (blanked zs) h.0 (blanked-Ends zs))
      (ap₂ ◌∷◌ (wrap32_int z h.0) (numbers-blanked vs zs (omega arith) h.1))

numbers-first :
    (v : List ℕ) (vs : List (List ℕ)) (z : ℤ) (zs : List ℤ)
    → length vs ≡ length zs
    → AllInt (z ∷ zs)
    → numbers (v ∷ vs) (print_int z ++ blanked zs) ≡ z ∷ zs
unfolding numbers
numbers-first v vs z zs l h =
    rw (strtol-print_int z (blanked zs) h.0 (blanked-Ends zs))
      (ap₂ ◌∷◌ (wrap32_int z h.0) (numbers-blanked vs zs l h.1))

-- The driver reads several variables as the unit prints them: when the answer to the one command for
-- all of them is an int for each, with a blank between them, the values are those ints, in order.
pub get_integers-blanked :
    (transmit : Transmit) (v : List ℕ) (vs : List (List ℕ)) (z : ℤ) (zs : List ℤ) (d d' : Device)
    → length vs ≡ length zs
    → AllInt (z ∷ zs)
    → transmit asking (ask_for v vs) d ≡ (response_ok, (print_int z ++ blanked zs, d'))
    → get_integers transmit v vs d ≡ (0, (z ∷ zs, d'))
unfolding get_integers
get_integers-blanked transmit v vs z zs d d' l h e =
    rw (e) (ap (λ n. (0, (n, d'))) (numbers-first v vs z zs l h))
