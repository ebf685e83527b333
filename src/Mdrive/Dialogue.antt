-- ===== src/Mdrive/Dialogue.antt =====
-- drivers/mdrive/serial.c and config.c: the functions that ask a unit for a variable or set one.
-- mdrive_communicate is an argument of type Transmit: it gives the class of the response, the
-- characters of the result that it copies to the caller, and the device. Dialogue/Line fills it with
-- the transactions of Mdrive/Transaction. The buffers of the commands are long enough for all that
-- the driver asks, but for the 16 bytes of mdrive_set_variable_string.
pub mod Values
pub mod Line
mod Tests
use mcontrol.Base.{
  ℕ, Bool, true, false, Option, none, some, List, [], ◌∷◌, ◌++◌, ◌==◌, if◌then◌else◌, length,
  get_or, ascii, fit, print_int, strtol, ℤ, pos, neg, wrap32, eio,
}
use mcontrol.Mdrive.Classify.{ResponseClass, response_ok, Device}
use mcontrol.Mdrive.Transaction.{SendOpts, is_ok}

abbrev pub Transmit : Type 0
Transmit = SendOpts → List ℕ → Device → ResponseClass × (List ℕ × Device)

abbrev pub asking : SendOpts
asking = record { expect_data = true; expect_err = false; raw = false; tries = 0 }

abbrev pub telling : SendOpts
telling = record { expect_data = false; expect_err = false; raw = false; tries = 0 }

abbrev pub asking_error : SendOpts
asking_error = record { expect_data = true; expect_err = true; raw = false; tries = 0 }

-- mdrive_send
unfoldable pub send_text : Transmit → List ℕ → Device → ResponseClass × Device
send_text transmit command d = let (class, (result, d')) = transmit telling command d in (class, d')

-- mdrive_get_string: the number of characters of the result, or a negative error; and what is in
-- the caller's buffer, where it is written.
unfoldable pub get_string : Transmit → List ℕ → ℕ → Device → ℤ × (Option (List ℕ) × Device)
get_string transmit variable size d =
    let (class, (result, d')) = transmit asking (fit 48 (ascii "PR " ++ variable)) d in
    if is_ok class
    then (pos (length result), (some (fit size result), d'))
    else (neg eio, (none, d'))

-- What mdrive_get_integer makes of a result: its status and the value.
unfoldable pub integer_of : List ℕ → ℕ × ℤ
integer_of result =
    let n = strtol result in (if get_or n.rest 0 0 == 0 then n.errno else eio, wrap32 n.value)

-- mdrive_get_integer: no value where `*value` is not written.
unfoldable pub get_integer : Transmit → List ℕ → Device → ℕ × (Option ℤ × Device)
unfolding integer_of
get_integer transmit variable d =
    let (class, (result, d')) = transmit asking (fit 16 (ascii "PR " ++ variable)) d in
    if is_ok class
    then ((integer_of result).0, (some (integer_of result).1, d'))
    else (eio, (none, d'))

abbrev pub joined : List (List ℕ) → List ℕ
joined [] = []
joined (v ∷ vs) = ascii ",\" \"," ++ v ++ joined vs

-- The command that asks for several variables, with a blank printed between their values.
abbrev pub ask_for : List ℕ → List (List ℕ) → List ℕ
ask_for v vs = ascii "PR " ++ v ++ joined vs

-- The numbers of a ascii, one for each variable; strtol leaves errno alone here.
pub numbers : List (List ℕ) → List ℕ → List ℤ
numbers [] s = []
numbers (v ∷ vs) s = let n = strtol s in wrap32 n.value ∷ numbers vs n.rest

-- mdrive_get_integers, for at least one variable.
unfoldable pub get_integers : Transmit → List ℕ → List (List ℕ) → Device → ℕ × (List ℤ × Device)
unfolding numbers
get_integers transmit v vs d =
    let (class, (result, d')) = transmit asking (ask_for v vs) d in
    if is_ok class then (0, (numbers (v ∷ vs) result, d')) else (eio, ([], d'))

-- mdrive_get_error: errno is never EINVAL behind a strtol of base 10.
pub get_error : Transmit → Device → ℤ × Device
get_error transmit d =
    let (class, (result, d')) = transmit asking_error (ascii "PR ER") d in
    (wrap32 (strtol result).value, d')

-- mdrive_clear_error
pub clear_error : Transmit → Device → Device
clear_error transmit d = (send_text transmit (ascii "ER") d).1

-- mdrive_set_variable_string
unfoldable pub set_variable_string : Transmit → List ℕ → List ℕ → Device → Bool × Device
set_variable_string transmit variable value d =
    let (class, d') = send_text transmit (fit 16 (variable ++ ascii "=" ++ value)) d in
    (is_ok class, d')

-- mdrive_set_variable
unfoldable pub set_variable : Transmit → List ℕ → ℤ → Device → Bool × Device
set_variable transmit variable value d =
    set_variable_string transmit variable (fit 13 (print_int value)) d
