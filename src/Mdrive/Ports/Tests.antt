-- ===== src/Mdrive/Ports/Tests.antt =====
-- The ports of drivers/mdrive/serial.c, from none.
use mcontrol.Base.{◌≡◌, refl, none, some, [], ◌∷◌}
use mcontrol.Base.Int.{pos, negsuc}
use mcontrol.Mdrive.Ports.{Ports, connect_port}
use mcontrol.Mdrive.Ports.Sharing.{reconnect, HasPort, connect-connect_failed}

abbrev no_ports : Ports
no_ports = record { all_port_infos = []; fresh = 0 }

connect-connect_failed_example :
    let first = connect_port (negsuc 0) 7 no_ports in
    let s' = reconnect (pos 3 ∷ []) 7 first.1.1 in
    let last = connect_port (pos 4) 7 s' in
    (first.0 ≡ negsuc 0)
    × (first.1.0 ≡ none)
    × HasPort 7 0 (negsuc 0) 1 first.1.1
    × (last.0 ≡ pos 0)
    × (last.1.0 ≡ some 0)
    × HasPort 7 0 (negsuc 0) 3 last.1.1
connect-connect_failed_example =
    connect-connect_failed (negsuc 0) (pos 4) (pos 3 ∷ []) 7 no_ports refl refl
