-- ===== src/Mdrive/Ports.antt =====
-- drivers/mdrive/serial.c: mdrive_connect and mdrive_disconnect, which share the open ports among
-- the devices. The list that `all_port_infos` heads is a list; a port is known by the handle that it
-- got when it was allocated, a name by a number. Opening a port is the operating system's: the
-- result of mdrive_initialize_port is an argument.
pub mod Sharing
mod Tests
use mcontrol.Base.{ℕ, ◌+◌, ◌-◌, Bool, Option, none, some, List, [], ◌∷◌, ◌++◌, ◌==◌, if◌then◌else◌}
use mcontrol.Base.Int.{ℤ, pos, ltb_ℤ}
use mcontrol.Base.Slots.{find, modify}

-- What is used of struct mdrive_comm_device_list.
pub record Port : Type 0 where
  pub handle : ℕ
  pub name : ℕ
  pub fd : ℤ
  pub active_axes : ℕ

-- The list of ports, and the next handle that an allocation gives.
pub record Ports : Type 0 where
  pub all_port_infos : List Port
  pub fresh : ℕ

abbrev pub is_named : ℕ → Port → Bool
is_named name p = p.name == name

abbrev pub is_port : ℕ → Port → Bool
is_port handle p = p.handle == handle

abbrev pub one_more : Port → Port
one_more p = record p { active_axes = p.active_axes + 1 }

abbrev pub one_less : Port → Port
one_less p = record p { active_axes = p.active_axes - 1 }

open_port : ℤ → ℕ → Ports → ℤ × (Option ℕ × Ports)
open_port fd name s =
    let port : Port = record { handle = s.fresh; name = name; fd = fd; active_axes = 1 } in
    let s' : Ports = record {
      all_port_infos = s.all_port_infos ++ port ∷ [];
      fresh = s.fresh + 1;
    } in
    if ltb_ℤ fd (pos 0) then (fd, (none, s')) else (pos 0, (some s.fresh, s'))

link_or_open : ℤ → ℕ → Ports → Option Port → ℤ × (Option ℕ × Ports)
unfolding open_port
link_or_open fd name s none = open_port fd name s
link_or_open fd name s (some port) = (
  pos 0,
  (
    some port.handle,
    record s { all_port_infos = modify (is_named name) one_more s.all_port_infos },
  ),
)

-- mdrive_connect: the result, the port that the device is linked to, and the ports.
pub connect_port : ℤ → ℕ → Ports → ℤ × (Option ℕ × Ports)
unfolding link_or_open
connect_port fd name s = link_or_open fd name s (find (is_named name) s.all_port_infos)

-- The port is taken out of the list.
abbrev pub unlink : ℕ → List Port → List Port
unlink handle [] = []
unlink handle (p ∷ ps) = if is_port handle p then ps else p ∷ unlink handle ps

leave_port : ℕ → Ports → Option Port → Ports
leave_port handle s none = s
leave_port handle s (some port) =
    if port.active_axes - 1 == 0
    then record s { all_port_infos = unlink handle s.all_port_infos }
    else record s { all_port_infos = modify (is_port handle) one_less s.all_port_infos }

-- mdrive_disconnect, for the port that the device is linked to.
pub disconnect_port : Option ℕ → Ports → Ports
unfolding leave_port
disconnect_port none s = s
disconnect_port (some handle) s = leave_port handle s (find (is_port handle) s.all_port_infos)
