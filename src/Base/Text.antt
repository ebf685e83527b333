-- ===== src/Base/Text.antt =====
-- Text of C: lists of bytes with no zero, the decimal numbers of printf, and strtol of base 10.
pub mod RoundTrip
use Prim.Native.Nat.{ℕ, zero, suc, ◌+◌, ◌-◌, ◌*◌, ◌/◌, ◌%◌, ◌^◌}
use mathlib.Core.Bool.{Bool, true, false, ◌&&◌, ◌||◌}
use mathlib.Core.List.{List, [], ◌∷◌, ◌++◌}
use Prim.Native.Char.{code}
use Prim.Native.String.{String}
use mcontrol.Base.Lists.{take}
use mcontrol.Base.Tests.{ltb, leb, ◌==◌, if◌then◌else◌}
use mcontrol.Base.Int.{ℤ, pos, negsuc, sub_ℕ}

-- The bytes of a literal in ASCII.
abbrev pub ascii : String → List ℕ
ascii String.[] = []
ascii (String.◌∷◌ c s) = code c ∷ ascii s

-- What snprintf leaves in a buffer of a size.
abbrev pub fit : ℕ → List ℕ → List ℕ
fit size s = take (size - 1) s

-- The digits of a number, at most as many as there is fuel.
unfoldable pub decimal_loop : ℕ → ℕ → List ℕ
decimal_loop zero n = []
decimal_loop (suc fuel) n =
    let front = decimal_loop fuel (n / 10) in
    if ltb n 10 then (48 + n) ∷ [] else front ++ (48 + n % 10) ∷ []

-- The 20 digits that an integer of 64 bits can have.
unfoldable pub decimal : ℕ → List ℕ
unfolding decimal_loop
decimal n = decimal_loop 20 n

-- "%d"
unfoldable pub print_int : ℤ → List ℕ
unfolding decimal
print_int (pos n) = decimal n
print_int (negsuc n) = 45 ∷ decimal (suc n)

abbrev pub is_digit : ℕ → Bool
is_digit c = leb 48 c && leb c 57

-- The value of the digits at the front, and what is behind them.
pub digits : ℕ → List ℕ → ℕ × List ℕ
digits value [] = (value, [])
digits value (c ∷ cs) =
    let rest = digits (value * 10 + (c - 48)) cs in if is_digit c then rest else (value, c ∷ cs)

abbrev pub is_space : ℕ → Bool
is_space c = c == 32 || leb 9 c && leb c 13

unfoldable pub skip_spaces : List ℕ → List ℕ
skip_spaces [] = []
skip_spaces (c ∷ cs) = let rest = skip_spaces cs in if is_space c then rest else c ∷ cs

-- The number at the front of a text and what is behind it. Numbers of more than 64 bits are cut off
-- with the error ERANGE; where there is no number, the text is as it was and the value is 0.
pub record Number : Type 0 where
  pub value : ℤ
  pub rest : List ℕ
  pub errno : ℕ

abbrev pub erange : ℕ
erange = 34

pub positive : ℕ × List ℕ → Number
positive (n, rest) =
    if ltb n (2 ^ 63)
    then record { value = pos n; rest = rest; errno = 0 }
    else record { value = pos (2 ^ 63 - 1); rest = rest; errno = erange }

pub negative : ℕ × List ℕ → Number
negative (n, rest) =
    if leb n (2 ^ 63)
    then record { value = sub_ℕ 0 n; rest = rest; errno = 0 }
    else record { value = sub_ℕ 0 (2 ^ 63); rest = rest; errno = erange }

abbrev first_is_digit : List ℕ → Bool
first_is_digit [] = false
first_is_digit (c ∷ cs) = is_digit c

pub after_sign : Bool → List ℕ → List ℕ → Number
unfolding positive negative digits
after_sign minus start s =
    if first_is_digit s
    then (if minus then negative (digits 0 s) else positive (digits 0 s))
    else record { value = pos 0; rest = start; errno = 0 }

pub signed : List ℕ → List ℕ → Number
unfolding after_sign
signed start [] = record { value = pos 0; rest = start; errno = 0 }
signed start (c ∷ cs) =
    if c == 45
    then after_sign true start cs
    else if c == 43
    then after_sign false start cs
    else after_sign false start (c ∷ cs)

-- strtol(s, &rest, 10)
unfoldable pub strtol : List ℕ → Number
unfolding signed skip_spaces
strtol s = signed s (skip_spaces s)
