-- ===== src/Mdrive/Motion/Stopping.antt =====
-- drivers/mdrive/motion.c: what mdrive_stop leaves and returns.
use mcontrol.Base.{
  ℕ, ◌≡◌, refl, ◌≢◌, false, not, ◌&&◌, ◌==◌, if◌then◌else◌, List, [], ◌∷◌, ◌++◌, arith, if_cases,
}
use mcontrol.Mdrive.Dialogue.{Transmit}
use mcontrol.Mdrive.Axis.{Axis}
use mcontrol.Mdrive.Motion.{
  StopType, mcstop, mchalt, mcestop, resting, async_complete_cancel, send_unit, send_global,
  stop_all, stop_by, stop,
}

-- The callbacks that are cancelled, when the one for the end of a move is among them if it is due.
abbrev pub with_completion : Axis → List ℕ
with_completion u =
    if u.completion && not (u.cb_complete == 0)
    then u.cancelled ++ u.cb_complete ∷ []
    else u.cancelled

-- The unit is taken to rest, and the callback for the end of a move that was due for `u` is cancelled,
-- and no other.
abbrev pub IsAtRest : Axis → Axis → Type 0
IsAtRest u v = (v.movement ≡ resting) × (v.completion ≡ false) × (v.cancelled ≡ with_completion u)

cancel-IsAtRest : (u : Axis) → IsAtRest u (async_complete_cancel (record u { movement = resting }))
unfolding async_complete_cancel
cancel-IsAtRest u =
    if_cases {A = Axis} (IsAtRest u) u.completion _ _ (λ e. (refl, refl, ground arith))
      (λ e. (refl, e, ground arith))

stop_all-IsAtRest :
    (transmit : Transmit) (u v : Axis) → IsAtRest u v → IsAtRest u (stop_all transmit v).1
unfolding stop_all send_global
stop_all-IsAtRest transmit u v h = ground (arith, h)

stop_by-IsAtRest :
    (transmit : Transmit) (type : StopType) (u v : Axis)
    → IsAtRest u v
    → IsAtRest u (stop_by transmit type v).1
unfolding stop_by send_unit
stop_by-IsAtRest transmit mcstop u v h = h
stop_by-IsAtRest transmit mchalt u v h = h
stop_by-IsAtRest transmit mcestop u v h = stop_all-IsAtRest transmit u v h

stop_all_fails : (transmit : Transmit) (u : Axis) → (stop_all transmit u).0 ≢ 0
unfolding stop_all
stop_all_fails transmit u = ground arith

-- Whatever the unit answers, mdrive_stop leaves it taken to rest. The callback for the end of a move
-- is cancelled if it is due, and no other is; none is due any more.
pub stop-IsAtRest :
    (transmit : Transmit) (type : StopType) (u : Axis) → IsAtRest u (stop transmit type u).1
unfolding stop
stop-IsAtRest transmit type u =
    stop_by-IsAtRest transmit type u (async_complete_cancel (record u { movement = resting }))
      (cancel-IsAtRest u)

-- An emergency stop never returns 0, also when the units have obeyed both of its commands.
pub stop-mcestop : (transmit : Transmit) (u : Axis) → (stop transmit mcestop u).0 ≢ 0
unfolding stop stop_by
stop-mcestop transmit u =
    stop_all_fails transmit (async_complete_cancel (record u { movement = resting }))
