-- ===== src/Requests/Safety.antt =====
-- lib/motion.c: when a request moves a motor.
use mcontrol.Base.{
  ℕ, ◌≡◌, refl, sym, ap, ◌∙◌, subst, ◌≢◌, true, false, not, Option, none, some, List, [], ◌∷◌,
  arith, ◌==◌, if◌then◌else◌, if_cases, ℤ,
}
use mathlib.Core.Option
use mcontrol.Motor.{
  Motor, Instruction, MoveType, absolute, relative, slew, mcestop, find_motor_by_id,
}
use mcontrol.Locks.{driver_is_locked}
use mcontrol.Mdrive.Dialogue.{Transmit}
use mcontrol.Mdrive.Axis.{Axis}
use mcontrol.Mdrive.Motion
use mcontrol.Mdrive.Motion.Stopping.{stop-mcestop}
use mcontrol.Requests.{
  Entries, Running, World, Reply, stop_by, find_running, update_running, driver_of, with_driver,
  with_motor, handle, enter, revs, checked_move, move_absolute, move_absolute_units, move_relative,
  move_relative_units, slew_at, slew_at_units, estop,
}
use mcontrol.Requests.Units.{Floats}

-- The requests that move a motor, with their distances or rates and units.
pub data MoveRequest : Type 0 where
  absolutely relatively slewing : ℤ → MoveRequest
  absolutely_in relatively_in slewing_in : ℤ → ℕ → MoveRequest

pub asked : {S : Type 0} {F : Type 0} → Floats F → ℕ → ℕ → World S → MoveRequest → Reply S
asked fl id pid w (absolutely z) = move_absolute fl id pid w z
asked fl id pid w (relatively z) = move_relative fl id pid w z
asked fl id pid w (slewing z) = slew_at fl id pid w z
asked fl id pid w (absolutely_in z n) = move_absolute_units fl id pid w z n
asked fl id pid w (relatively_in z n) = move_relative_units fl id pid w z n
asked fl id pid w (slewing_in z n) = slew_at_units fl id pid w z n

abbrev pub type_of : MoveRequest → MoveType
type_of (absolutely z) = absolute
type_of (relatively z) = relative
type_of (slewing z) = slew
type_of (absolutely_in z n) = absolute
type_of (relatively_in z n) = relative
type_of (slewing_in z n) = slew

abbrev pub distance_of : MoveRequest → ℤ × ℕ
distance_of (absolutely z) = (z, 0)
distance_of (relatively z) = (z, 0)
distance_of (slewing z) = (z, 0)
distance_of (absolutely_in z n) = (z, n)
distance_of (relatively_in z n) = (z, n)
distance_of (slewing_in z n) = (z, n)

module _ {S : Type 0} {F : Type 0} (fl : Floats F) (id pid : ℕ) (w : World S) where
  asked_checked :
      (q : MoveRequest)
      → asked fl id pid w q
        ≡ handle id pid w (checked_move fl (type_of q) (distance_of q).0 (distance_of q).1)
  unfolding asked move_absolute move_absolute_units move_relative move_relative_units slew_at
      slew_at_units
  asked_checked (absolutely z) = refl
  asked_checked (relatively z) = refl
  asked_checked (slewing z) = refl
  asked_checked (absolutely_in z n) = refl
  asked_checked (relatively_in z n) = refl
  asked_checked (slewing_in z n) = refl

module _ {S : Type 0} (id pid : ℕ) (w : World S) where
  handle_found :
      (f : Motor → Running S → ℕ × Running S) (m : Motor) (d : Running S)
      → find_motor_by_id id pid w.motor_list ≡ some m
      → driver_of m w ≡ some d
      → handle id pid w f
        ≡ some ((f m d).0, record w { drivers = update_running d.id (f m d).1 w.drivers })
  unfolding handle with_motor with_driver
  handle_found f m d e g = ap (with_motor w f) e ∙ ap (with_driver w f m) g

abbrev pub or_this : {S : Type 0} → Running S → Option (Running S) → Running S
or_this x none = x
or_this x (some y) = y

pub found_id :
    {S : Type 0} (id : ℕ) (d : Running S) (ds : List (Running S))
    → find_running id ds ≡ some d
    → (d.id == id) ≡ true
unfolding find_running
found_id id d [] h = cc
found_id {S} id d (x ∷ ds) h =
    if_cases {A = Option (Running S)} (λ o. o ≡ some d → (d.id == id) ≡ true) (x.id == id) (some x)
      (find_running id ds)
      (λ e q. subst (λ (y : Running S). (y.id == id) ≡ true) (ap (or_this x) q) e)
      (λ e q. found_id id d ds q) h

-- To write back what has been found changes nothing.
found_again :
    {S : Type 0} (id : ℕ) (d : Running S) (ds : List (Running S))
    → find_running id ds ≡ some d
    → update_running d.id d ds ≡ ds
unfolding find_running update_running
found_again id d [] h = refl
found_again {S} id d (x ∷ ds) h =
    if_cases {A = Option (Running S)}
      (λ o. o ≡ some d → (if x.id == d.id then d ∷ ds else x ∷ update_running d.id d ds) ≡ x ∷ ds)
      (x.id == id) (some x) (find_running id ds)
      (λ e q.
        subst
          (λ (y : Running S).
            (if x.id == y.id then y ∷ ds else x ∷ update_running y.id y ds) ≡ x ∷ ds)
          (ap (or_this x) q)
          (if_cases {A = List (Running S)} (λ l. l ≡ x ∷ ds) (x.id == x.id) _ _ (λ z. refl)
            (λ z. absurd (ground arith))))
      (λ e q.
        let f = found_id id d ds q in
        if_cases {A = List (Running S)} (λ l. l ≡ x ∷ ds) (x.id == d.id) _ _
          (λ z. absurd (ground arith)) (λ z. ap (λ l. x ∷ l) (found_again id d ds q)))
      h

-- The driver of a connection is written back as it is.
same_drivers :
    {S : Type 0} (m : Motor) (d : Running S) (w : World S)
    → driver_of m w ≡ some d
    → update_running d.id d w.drivers ≡ w.drivers
unfolding driver_of
same_drivers {S} m d w h = by_driver m.driver h
  where
    by_driver :
        (o : Option ℕ)
        → (elim o [ none ↦ none | some id ↦ find_running id w.drivers ]) ≡ some d
        → update_running d.id d w.drivers ≡ w.drivers
    by_driver none q = cc
    by_driver (some id) q = found_again id d w.drivers q

locked_checked :
    {S : Type 0} {F : Type 0} (fl : Floats F) (type : MoveType) (amount : ℤ) (units : ℕ) (m : Motor)
    (d : Running S)
    → driver_is_locked d.locks ≡ true
    → (((checked_move fl type amount units m d).0 ≢ 0)
        × ((checked_move fl type amount units m d).1 ≡ d))
unfolding checked_move
locked_checked {S} fl type amount units m d l =
    if_cases {A = ℕ × Running S} (λ t. (t.0 ≢ 0) × (t.1 ≡ d))
      (not ((revs fl m amount units).0 == 0)) _ _ (λ e. ((λ z. ground (arith, z)), refl))
      (λ e.
        if_cases {A = ℕ × Running S} (λ t. (t.0 ≢ 0) × (t.1 ≡ d)) (driver_is_locked d.locks) _ _
          (λ k. ((λ z. omega (arith, z)), refl)) (λ k. absurd (ground (arith, l))))

-- No request moves a motor whose driver is locked: each of the six returns an error to the client
-- and leaves the driver, and all else, as it was.
pub asked-locked :
    {S : Type 0} {F : Type 0} (fl : Floats F) (id pid : ℕ) (w : World S) (q : MoveRequest)
    (m : Motor) (d : Running S)
    → find_motor_by_id id pid w.motor_list ≡ some m
    → driver_of m w ≡ some d
    → driver_is_locked d.locks ≡ true
    → (status : ℕ) × (status ≢ 0) × (asked fl id pid w q ≡ some (status, w))
asked-locked {S} fl id pid w q m d e g l =
    let f = checked_move fl (type_of q) (distance_of q).0 (distance_of q).1 in
    let (n, k) = locked_checked fl (type_of q) (distance_of q).0 (distance_of q).1 m d l in
    (
      (f m d).0,
      n,
      asked_checked fl id pid w q
          ∙ handle_found id pid w f m d e g
          ∙ ap (λ x. some ((f m d).0, record w { drivers = update_running d.id x w.drivers })) k
          ∙ ap (λ l. some ((f m d).0, record w { drivers = l })) (same_drivers m d w g),
    )

-- What the driver is asked for.
abbrev pub command_of : Motor → MoveRequest → ℤ → Instruction
command_of m q urevs = record { type = type_of q; amount = urevs; profile = m.profile }

-- A request to move a motor whose distance can be converted, and whose driver is not locked and has
-- the entry, comes down to one call of that entry, with the converted distance and the profile of the
-- connection: the client gets its status, and only the state of that driver changes.
pub asked-passed_on :
    {S : Type 0} {F : Type 0} (fl : Floats F) (id pid : ℕ) (w : World S) (q : MoveRequest)
    (m : Motor) (d : Running S) (urevs : ℤ) (move : Instruction → S → ℕ × S)
    → find_motor_by_id id pid w.motor_list ≡ some m
    → driver_of m w ≡ some d
    → driver_is_locked d.locks ≡ false
    → revs fl m (distance_of q).0 (distance_of q).1 ≡ (0, some urevs)
    → d.entries.move ≡ some move
    → let r = move (command_of m q urevs) d.state in
      asked fl id pid w q
      ≡ some (r.0, record w { drivers = update_running d.id (record d { state = r.1 }) w.drivers })
unfolding checked_move enter
asked-passed_on fl id pid w q m d urevs move e g l c h =
    asked_checked fl id pid w q
    ∙ handle_found id pid w (checked_move fl (type_of q) (distance_of q).0 (distance_of q).1) m d e
        g
    ∙ rw (c, l, h) refl

-- The driver for MDrive units as the handlers see it; the callbacks that its moves schedule have the
-- given id.
abbrev pub mdrive_entries : Transmit → ℕ → Entries Axis
mdrive_entries transmit callback = record {
  move = some (Motion.move transmit callback);
  stop = some (Motion.stop transmit);
  home = some (λ type direction. Motion.home transmit type);
}

-- mcEStop through the driver for MDrive units never succeeds: the status for the client is not 0,
-- also when the units have obeyed.
pub estop-mdrive :
    (transmit : Transmit) (callback id pid : ℕ) (w : World Axis) (m : Motor) (d : Running Axis)
    → find_motor_by_id id pid w.motor_list ≡ some m
    → driver_of m w ≡ some d
    → d.entries ≡ mdrive_entries transmit callback
    → (status : ℕ) × (w' : World Axis) × (status ≢ 0) × (estop id pid w ≡ some (status, w'))
unfolding estop stop_by enter
estop-mdrive transmit callback id pid w m d e g h =
    let f : Motor → Running Axis → ℕ × Running Axis =
      λ m d. enter (Option.map (λ stop. stop mcestop) d.entries.stop) d in
    let stops : (f m d).0 ≡ (Motion.stop transmit mcestop d.state).0 =
      ap (λ (x : Entries Axis). (enter (Option.map (λ stop. stop mcestop) x.stop) d).0) h in
    (
      (f m d).0,
      record w { drivers = update_running d.id (f m d).1 w.drivers },
      (λ z. stop-mcestop transmit d.state (sym stops ∙ z)),
      handle_found id pid w f m d e g,
    )
