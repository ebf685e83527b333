-- ===== src/Motor/Tests.antt =====
-- The theorems about the connection table at concrete inputs.
use mcontrol.Base.{ℕ, zero, suc, ◌≡◌, refl, ◌⊎◌, true, false, none, some, [], ◌∷◌, arith, replicate}
use mcontrol.Base.Int.{pos}
use mcontrol.Base.Slots.{All}
use mcontrol.Registry.{Registry, DriverClass, instance_driver, fresh_driver}
use mcontrol.Motor.{
  Motor, Table, reply, hung, blank_motor, allocate, connect, disconnect, find_motor_by_id,
}
use mcontrol.Motor.Count.{IsTable, Known}
use mcontrol.Motor.Connect.{allocated, connect-IsTable}
use mcontrol.Motor.Shared.{disconnect_shared}

abbrev class : DriverClass
class = record { name = b'm' ∷ []; initialize = λ s. (0, 9) }

abbrev registry : Registry
registry = record {
  drivers = class ∷ [];
  motors = record { driver = some (fresh_driver 1 class 9); cxn_string = b'm' ∷ [] } ∷ [];
  motor_uid = 2;
}

abbrev start : Table
start = record { motor_list = []; conn_count = pos 0; motor_uid = 1; registry = registry }

blanks-Known : (n : ℕ) → All (Known 1) (replicate n blank_motor)
blanks-Known zero = tt
blanks-Known (suc n) = ((omega arith, λ e. cc), blanks-Known n)

start-IsTable : IsTable (allocated start)
unfolding allocate
start-IsTable = record {
  slots = refl;
  end_mark = refl;
  counted = refl;
  bounded = omega arith;
  uid_pos = omega arith;
  ids = blanks-Known 65;
}

connect-IsTable_example :
    (connect (λ p. true) 7 (b'm' ∷ []) false start ≡ hung)
    ⊎ ((status : ℕ) × (t' : Table) × (connect (λ p. true) 7 (b'm' ∷ []) false start
          ≡ reply status t')
        × IsTable t')
connect-IsTable_example = connect-IsTable (λ p. true) 7 (b'm' ∷ []) false start start-IsTable

-- Two clients of the first instance.
abbrev client : ℕ → ℕ → Motor
client id pid = record blank_motor {
  id = id;
  client_pid = pid;
  active = true;
  instance_at = some 0;
  driver = some 1;
}

abbrev both : Table
both = record start {
  motor_list = client 1 7 ∷ client 2 8 ∷ blank_motor ∷ [];
  conn_count = pos 2;
  motor_uid = 3;
}

disconnect_shared_example :
    (find_motor_by_id 2 8 (disconnect 1 7 both).1.motor_list ≡ some (client 2 8))
    × (instance_driver (disconnect 1 7 both).1.registry.motors 0 ≡ none)
unfolding find_motor_by_id
disconnect_shared_example =
    disconnect_shared 1 7 2 8 0 (client 1 7) (client 2 8) both refl refl (omega arith) refl refl
