-- ===== src/Mdrive/Motion/Packing.antt =====
-- drivers/mdrive/motion.c: the packed word that mdrive_move_assisted sends.
use mcontrol.Base.{ℕ, ◌/◌, ◌%◌, ◌<◌, ◌≡◌, ap, Option, none, some, arith}
use mcontrol.Mdrive.Axis.{MoveType, no_move, absolute, relative, slew, jitter}
use mcontrol.Mdrive.Motion.{assisted_mode, packed}

abbrev first : Option (ℕ × ℕ) → ℕ
first none = 0
first (some p) = p.0

unpacked :
    (mode profile reset : ℕ)
    → mode < 8
    → (packed mode profile reset % 8 ≡ mode)
      × (packed mode profile reset / 8 % 8 ≡ profile % 8)
      × (packed mode profile reset / 64 ≡ reset)
unpacked mode profile reset h = (omega arith, omega arith, omega arith)

-- The microcode can take the word R1 apart: its lower three bits are the mode, the next three the
-- number of the profile, and the rest tells whether to reset the position.
pub packed_lem :
    (type : MoveType) (mode profile reset : ℕ)
    → assisted_mode type ≡ some (mode, reset)
    → (packed mode profile reset % 8 ≡ mode)
      × (packed mode profile reset / 8 % 8 ≡ profile % 8)
      × (packed mode profile reset / 64 ≡ reset)
packed_lem absolute mode profile reset h = unpacked mode profile reset (omega (arith, ap first h))
packed_lem relative mode profile reset h = unpacked mode profile reset (omega (arith, ap first h))
packed_lem slew mode profile reset h = unpacked mode profile reset (omega (arith, ap first h))
packed_lem jitter mode profile reset h = cc
packed_lem no_move mode profile reset h = cc
