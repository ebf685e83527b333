-- ===== src/Mdrive/Config.antt =====
-- drivers/mdrive/config.c: the communication settings of a unit, as the driver knows them and as it
-- changes them. The transactions are an argument of type Transmit; times of waiting are left out.
pub mod Modes
mod Tests
use mcontrol.Base.{
  ℕ, Bool, true, false, not, ◌&&◌, Option, none, some, List, [], ◌∷◌, ◌==◌, if◌then◌else◌, ascii, ℤ,
  pos, neg, pos_part, eio,
}
use mcontrol.Mdrive.Classify.{Device}
use mcontrol.Mdrive.Transaction.{em_on, em_quiet, is_ok}
use mcontrol.Mdrive.Dialogue.{Transmit, send_text, set_variable, set_variable_string, get_integer}

abbrev pub ck_off : ℕ
ck_off = 0

abbrev pub ck_on : ℕ
ck_on = 1

abbrev pub em_prompt : ℕ
em_prompt = 1

-- An int that becomes the `short` of a mode; modes are small and not negative.
abbrev pub mode_of : Option ℤ → ℕ
mode_of none = 0
mode_of (some z) = pos_part z

-- mdrive_set_checksum
pub set_checksum : Transmit → ℕ → Bool → Device → Bool × Device
set_checksum transmit mode force d =
    if not force && d.checksum == mode
    then (true, d)
    else (let d' : Device = if mode == ck_off then d else record d { checksum = mode } in
        let (ok, after) = set_variable transmit (ascii "CK") (pos mode) d' in
        if ok
        then (true, record after { checksum = mode })
        else (false, record after { checksum = d.checksum }))

-- mdrive_set_echo
pub set_echo : Transmit → ℕ → Bool → Device → Bool × Device
set_echo transmit mode force d =
    if not force && d.echo == mode
    then (true, d)
    else (let (ok, after) =
          set_variable transmit (ascii "EM") (pos mode) (record d { echo = mode }) in
        if ok then (true, after) else (false, record after { echo = d.echo }))

abbrev pub found_checksum : ℤ → Device → Device
found_checksum value d = record d { checksum = pos_part value }

abbrev pub found_echo : ℤ → Device → Device
found_echo value d = record d { echo = pos_part value }

-- The loop of mdrive_config_inspect_checksum: each mode is tried until the unit can be read.
pub try_checksum : Transmit → List ℕ → Device → ℕ × Device
try_checksum transmit [] d = (eio, d)
try_checksum transmit (mode ∷ modes) d =
    let (status, (value, d')) = get_integer transmit (ascii "CK") (record d { checksum = mode }) in
    let rest = try_checksum transmit modes d' in
    if status == 0 then (0, record d' { checksum = mode_of value }) else rest

pub inspect_checksum : Transmit → Device → ℕ × Device
unfolding try_checksum
inspect_checksum transmit d =
    let (status, d') = try_checksum transmit (ck_off ∷ ck_on ∷ []) d in
    (status, if status == 0 then d' else record d' { checksum = d.checksum })

pub try_echo : Transmit → List ℕ → Device → ℕ × Device
try_echo transmit [] d = (eio, d)
try_echo transmit (mode ∷ modes) d =
    let (status, (value, d')) = get_integer transmit (ascii "EM") (record d { echo = mode }) in
    let rest = try_echo transmit modes d' in
    if status == 0 then (0, record d' { echo = mode_of value }) else rest

-- mdrive_config_inspect_echo
pub inspect_echo : Transmit → Device → ℕ × Device
unfolding try_echo
inspect_echo transmit d =
    let (status, d') = try_echo transmit (em_on ∷ em_prompt ∷ em_quiet ∷ []) d in
    (status, if status == 0 then d' else record d' { echo = d.echo })

-- The modes in which the driver works best.
pub best_modes : Transmit → Device → Device
unfolding set_echo set_checksum
best_modes transmit d =
    (set_checksum transmit ck_on false (set_echo transmit em_prompt false d).1).1

-- What follows the echo mode, and what follows the checksum mode.
pub with_echo : Transmit → Bool → ℕ × Device → ℕ × Device
unfolding best_modes
with_echo transmit set (em, d) =
    if em == 0 then (0, if set then best_modes transmit d else d) else (eio, d)

pub with_checksum : Transmit → Bool → ℕ × Device → ℕ × Device
unfolding inspect_echo with_echo
with_checksum transmit set (ck, d) =
    if ck == 0 then with_echo transmit set (inspect_echo transmit d) else (eio, d)

pub inspect_modes : Transmit → Bool → Device → ℕ × Device
unfolding inspect_checksum with_checksum
inspect_modes transmit set d = with_checksum transmit set (inspect_checksum transmit d)

-- mdrive_config_inspect
pub inspect : Transmit → Bool → Device → ℕ × Device
unfolding inspect_modes
inspect transmit set d =
    if d.address == b'*' then (0, d) else inspect_modes transmit set (record d { echo = em_on })

-- A command, and the inspection behind it.
pub then_inspect : Transmit → List ℕ → Device → Bool × Device
unfolding inspect
then_inspect transmit command d =
    let (class, d') = send_text transmit command d in
    let (status, after) = inspect transmit true d' in
    if is_ok class then (status == 0, after) else (false, d')

-- mdrive_config_rollback
pub rollback : Transmit → Device → Bool × Device
unfolding then_inspect
rollback transmit d = then_inspect transmit (ascii "IP") d

-- struct mdrive_config_flags: which modes to preserve.
pub record ConfigFlags : Type 0 where
  pub checksum : Bool
  pub echo : Bool

abbrev pub nothing : ConfigFlags
nothing = record { checksum = false; echo = false }

-- mdrive_config_commit; a null pointer preserves nothing.
pub commit : Transmit → ConfigFlags → Device → Bool × Device
unfolding then_inspect set_checksum set_echo
commit transmit preserve d =
    let d' = if preserve.checksum then d else (set_checksum transmit ck_off false d).1 in
    let d'' = if preserve.echo then d' else (set_echo transmit em_on false d').1 in
    then_inspect transmit (ascii "S") d''

-- The party mode of mdrive_config_set_address.
pub join_party : Transmit → Device → Bool × Device
join_party transmit d =
    let (class, d') = send_text transmit (ascii "PY=1\n") d in
    if d.party_mode
    then (true, d)
    else if is_ok class
    then (true, record d' { party_mode = true })
    else (false, d')

-- mdrive_config_set_address: whether the driver's cache is invalidated, and the device.
pub set_address : Transmit → ℕ → Device → ℤ × (Bool × Device)
unfolding rollback commit join_party
set_address transmit address d =
    let rolled = (rollback transmit d).1 in
    let (ok, d') = set_variable_string transmit (ascii "DN") (34 ∷ address ∷ 34 ∷ []) rolled in
    let (joined, party) = join_party transmit (record d' { address = address }) in
    let (saved, after) = commit transmit nothing party in
    if not ok
    then (neg eio, (false, d'))
    else if not joined
    then (neg eio, (false, party))
    else if not saved
    then (neg eio, (false, after))
    else (pos 0, (true, after))
