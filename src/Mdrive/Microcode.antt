-- ===== src/Mdrive/Microcode.antt =====
-- drivers/mdrive/microcode.c: mdrive_microcode_load, which sends the lines of a file to a unit. The
-- file is its bytes, none of them 0, or the errno of fopen; a byte 255 is the end of the file, since
-- the code keeps it in a char. mdrive_communicate with its result is an argument: the class, the
-- error code of the unit, and the new state of the unit, of any type; so are the functions of
-- config.c. The model has no result where a line has more characters
-- than the buffer of 64 holds.
pub mod Comments
pub mod Inspection
pub mod Loading
pub mod Files
mod Tests
use mcontrol.Base.{
  ℕ, zero, suc, ◌⊎◌, inl, inr, Bool, true, false, not, ◌&&◌, ◌||◌, Option, none, some, List, [],
  ◌∷◌, map, ltb, ◌==◌, if◌then◌else◌, length, ascii, strtol, pos, wrap32, ltb_ℤ, eio,
}
use mathlib.Core.Option
use mcontrol.Base.Text.{skip_spaces, is_space}
use mcontrol.Registry.{str_eq}
use mcontrol.Mdrive.Classify.{ResponseClass}
use mcontrol.Mdrive.Transaction.{is_ok}
use mcontrol.Mdrive.Config.{ConfigFlags, nothing}

abbrev pub add_to_first : ℕ → List (List ℕ) → List (List ℕ)
add_to_first c [] = (c ∷ []) ∷ []
add_to_first c (l ∷ ls) = (c ∷ l) ∷ ls

-- The characters of each line of a file, without its comment; the last line ends with the file.
pub lines : Bool → List ℕ → List (List ℕ)
lines skipchar [] = [] ∷ []
lines skipchar (c ∷ cs) =
    let next = lines false cs in
    let skip = skipchar || c == 39 in
    let same = lines skip cs in
    if c == 10 || c == 13
    then [] ∷ next
    else if c == 255
    then [] ∷ []
    else if skip
    then same
    else add_to_first c same

abbrev pub is_blank : List ℕ → Bool
is_blank [] = true
is_blank (c ∷ cs) = false

-- Trailing whitespace.
pub trim_end : List ℕ → List ℕ
trim_end [] = []
trim_end (c ∷ cs) = let rest = trim_end cs in if is_blank rest && is_space c then [] else c ∷ rest

-- Whitespace at both ends.
pub trim : List ℕ → List ℕ
unfolding trim_end skip_spaces
trim text = trim_end (skip_spaces text)

-- `strncmp(prefix, text, n) == 0`
abbrev pub starts_with : List ℕ → List ℕ → Bool
starts_with [] text = true
starts_with (c ∷ cs) [] = false
starts_with (c ∷ cs) (d ∷ ds) = c == d && starts_with cs ds

abbrev pub contains : ℕ → List ℕ → Bool
contains c [] = false
contains c (d ∷ ds) = c == d || contains c ds

abbrev pub behind : ℕ → List ℕ → List ℕ
behind zero text = text
behind (suc n) [] = []
behind (suc n) (c ∷ cs) = behind n cs

abbrev pub mdrive_eclobber : ℕ
mdrive_eclobber = 28

-- What a line comes to: the upload goes on, or is given up with a status.
pub data Sent (D : Type 0) : Type 0 where
  accepted : D → Sent D
  failed : ℕ → D → Sent D

abbrev pub Sender : Type 0 → Type 0
Sender D = List ℕ → D → ResponseClass × (ℕ × D)

-- A line with a name that the unit has already: the value of a variable is sent instead.
pub clobbered : {D : Type 0} → Sender D → List ℕ → D → Sent D
clobbered send line d =
    let (class, (code, d')) = send (behind 3 line) d in
    if not (starts_with (ascii "VA ") line)
    then failed mdrive_eclobber d
    else if not (contains b'=' line)
    then accepted d
    else if is_ok class
    then accepted d'
    else failed eio d'

-- The tries for a line.
pub try_line : {D : Type 0} → Sender D → ℕ → List ℕ → D → Sent D
unfolding clobbered
try_line send zero line d = accepted d
try_line send (suc tries) line d =
    let (class, (code, d')) = send line d in
    let again = try_line send tries line d' in
    if is_ok class
    then accepted d'
    else if code == mdrive_eclobber
    then clobbered send line d'
    else if tries == 0
    then failed (if code == 0 then eio else code) d'
    else again

-- What the upload keeps: the flags of settings that the microcode has set, whether the unit is in
-- program mode, and the unit.
pub record Upload (D : Type 0) : Type 0 where
  pub preserve : ConfigFlags
  pub programming : Bool
  pub device : D

-- `PG` with an address enters program mode, without one it leaves it.
abbrev pub enters : List ℕ → Bool
enters line = let n = strtol (behind 2 line) in n.errno == 0 && ltb_ℤ (pos 0) (wrap32 n.value)

-- The state behind a line that was accepted.
pub after_line : {D : Type 0} → List ℕ → Upload D → D → Upload D
after_line {D} line s d =
    let s' : Upload D = record s { device = d } in
    if starts_with (ascii "EM") line
    then record s' { preserve = record s.preserve { echo = true } }
    else if starts_with (ascii "CK") line
    then record s' { preserve = record s.preserve { checksum = true } }
    else if starts_with (ascii "PG") line
    then record s' { programming = enters line }
    else s'

-- How the loop ends: at the end of the file, or with a status.
pub data Ended (D : Type 0) : Type 0 where
  finished : Upload D → Ended D
  bailed : ℕ → Upload D → Ended D

abbrev pub is_skipped : List ℕ → Bool
is_skipped line = is_blank line || str_eq line (ascii "S")

-- The loop of mdrive_microcode_load over the lines of the file.
pub upload : {D : Type 0} → Sender D → List (List ℕ) → Upload D → Option (Ended D)
unfolding trim try_line after_line
upload {D} send [] s = some (finished s)
upload {D} send (text ∷ texts) s =
    let line = trim text in
    let skipped = upload send texts s in
    let sent : Option (Ended D) = elim (try_line send 2 line s.device) [
      | accepted d ↦ upload send texts (after_line line s d)
      | failed status d ↦ some (bailed status (record s { device = d }))
    ] in
    if ltb 63 (length text) then none else if is_skipped line then skipped else sent

-- The functions of config.c, and mdrive_send.
pub record Settings (D : Type 0) : Type 0 where
  pub rollback : D → Bool × D
  pub commit : ConfigFlags → D → Bool × D
  pub send_text : List ℕ → D → ResponseClass × D

abbrev pub er_bad_file : ℕ
er_bad_file = 1008

abbrev pub open_error : ℕ → ℕ
open_error errno =
    if errno == 2 || (errno == 20 || (errno == 21 || errno == 36)) then er_bad_file else errno

-- The label safe_bail: program mode is left.
pub bail : {D : Type 0} → Settings D → ℕ → Upload D → ℕ × D
bail settings status s =
    (status, if s.programming then (settings.send_text (ascii "PG") s.device).1 else s.device)

-- What follows the loop.
pub ended : {D : Type 0} → Settings D → Ended D → ℕ × D
unfolding bail
ended {D} settings (bailed status s) = bail settings status s
ended {D} settings (finished s) =
    let (class, left) = settings.send_text (ascii "PG") s.device in
    let s' : Upload D =
      if s.programming then record s { programming = not (is_ok class); device = left } else s in
    let (saved, d) = settings.commit s'.preserve s'.device in
    if saved then (0, d) else bail settings eio (record s' { device = d })

-- mdrive_microcode_load
pub microcode_load : {D : Type 0} → Settings D → Sender D → ℕ ⊎ List ℕ → D → Option (ℕ × D)
unfolding lines upload ended
microcode_load {D} settings send (inl errno) d = some (open_error errno, d)
microcode_load {D} settings send (inr file) d =
    let (rolled, d1) = settings.rollback d in
    let (class, (code, d2)) = send (ascii "CP") d1 in
    let start : Upload D = record { preserve = nothing; programming = false; device = d2 } in
    let loaded = Option.map (ended settings) (upload send (lines false file) start) in
    if not rolled then some (eio, d1) else if not (is_ok class) then some (eio, d2) else loaded
