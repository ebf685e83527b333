-- ===== src/Motor/Shared.antt =====
-- Connections that share a driver instance in lib/motor.c: what mcDisconnect by one client does to
-- the others, and what mcMotorsForDriver hands to mcSignalEvent.
use mcontrol.Base.{
  ℕ, zero, suc, ◌-◌, ◌≤◌, ◌≡◌, refl, ◌∙◌, ◌≢◌, inl, inr, false, not, ◌||◌, Option, none, some, List,
  [], ◌∷◌, arith, ◌==◌, if◌then◌else◌, Bool-cases, Option-cases, length, get_elem?, set,
}
use mcontrol.Registry.{Registry, Instance, driver_disconnect, instance_driver}
use mcontrol.Motor.{
  Motor, Table, find_motor_by_id, disconnect, motors_for_driver, uses_driver, has_instance,
}
use mcontrol.Motor.Find.{find-update_ne}

instance_driver-set :
    (ms : List Instance) (i : ℕ) (m : Instance)
    → get_elem? ms i ≡ some m
    → instance_driver (set ms i (record m { driver = none })) i ≡ none
instance_driver-set [] i m e = cc
instance_driver-set (x ∷ ms) zero m e = refl
instance_driver-set (x ∷ ms) (suc i) m e = instance_driver-set ms i m e

instance_driver-none :
    (ms : List Instance) (i : ℕ) → get_elem? ms i ≡ none → instance_driver ms i ≡ none
instance_driver-none [] i e = refl
instance_driver-none (x ∷ ms) zero e = cc
instance_driver-none (x ∷ ms) (suc i) e = instance_driver-none ms i e

driver-disconnect :
    (i : ℕ) (r : Registry) → instance_driver (driver_disconnect (some i) r).motors i ≡ none
unfolding driver_disconnect
driver-disconnect i r = elim (Option-cases (get_elem? r.motors i)) [
  | inl e ↦ rw (e, driver_disconnect) (instance_driver-none r.motors i e)
  | inr (m, e) ↦ rw (e, driver_disconnect) (instance_driver-set r.motors i m e)
]

-- A defect: mcDisconnect by one client takes the driver away from every other client of the same
-- instance, whose connections stay active and are still found.
pub disconnect_shared :
    (id pid id' pid' i : ℕ) (m m' : Motor) (t : Table)
    → find_motor_by_id id pid t.motor_list ≡ some m
    → find_motor_by_id id' pid' t.motor_list ≡ some m'
    → id' ≢ id
    → m.instance_at ≡ some i
    → m'.instance_at ≡ some i
    → let t' = (disconnect id pid t).1 in
      (find_motor_by_id id' pid' t'.motor_list ≡ some m')
      × (instance_driver t'.registry.motors i ≡ none)
unfolding disconnect
disconnect_shared id pid id' pid' i m m' t e e' n h h' =
    rw (e, disconnect)
      (
        find-update_ne id pid id' pid' (λ x. record x { driver = none; active = false })
              t.motor_list n (λ x. refl)
            ∙ e',
        rw h (driver-disconnect i t.registry),
      )

-- The connections below the high-water mark that use a driver, in the order of their slots.
abbrev pub users : ℕ → Registry → List Motor → List Motor
users d r [] = []
users d r (m ∷ ms) =
    if m.id == 0 || not (has_instance m)
    then []
    else if uses_driver d r m
    then m ∷ users d r ms
    else users d r ms

abbrev pub last? : List Motor → Option Motor
last? [] = none
last? (m ∷ ms) = elim (last? ms) [ none ↦ some m | some x ↦ some x ]

last?-cons :
    (m : Motor) (ms : List Motor)
    → last? (m ∷ ms) ≡ elim (last? ms) [ none ↦ some m | some x ↦ some x ]
last?-cons m ms = refl

-- mcMotorsForDriver counts every connection that uses the driver, if there is room for all of them,
-- but hands over only the last one.
pub motors_for_driver_lem :
    (d : ℕ) (r : Registry) (ms : List Motor) (room : ℕ)
    → length (users d r ms) ≤ room
    → motors_for_driver d r ms room ≡ (length (users d r ms), last? (users d r ms))
unfolding motors_for_driver
motors_for_driver_lem d r [] room h = refl
motors_for_driver_lem d r (m ∷ ms) room h = elim (Bool-cases (m.id == 0 || not (has_instance m))) [
  | inl e ↦ rw e
  | inr e ↦ elim (Bool-cases (uses_driver d r m)) [
    | inl u ↦
        let h' : suc (length (users d r ms)) ≤ room = rw (e, u) at h in
        rw (e, u, motors_for_driver_lem d r ms (room - 1) (omega arith))
          (ground (arith, last?-cons m (users d r ms)))
    | inr u ↦
        let h' : length (users d r ms) ≤ room = rw (e, u) at h in
        rw (e, u, motors_for_driver_lem d r ms room h')
  ]
]
