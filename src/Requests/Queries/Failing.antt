-- ===== src/Requests/Queries/Failing.antt =====
-- lib/query.c: what becomes of a driver that fails, and of a conversion that fails.
use mcontrol.Base.{ℕ, ◌≡◌, refl, ap, ◌∙◌, ◌≢◌, false, Option, none, some, arith, ◌==◌, ℤ, pos}
use mcontrol.Motor.{Motor, Name, position, Query, find_motor_by_id}
use mcontrol.Requests.{Running, World, driver_of, update_running}
use mcontrol.Requests.Units.{Floats}
use mcontrol.Requests.Units.Laws.{distance_to_microrevs-unitless}
use mcontrol.Requests.Queries.{
  or_nothing, QueryEntries, query_for, answered, read_driver, read_by, write_by, ask, tell,
  is_distance, query_integer, query_float, poke_integer,
}

-- The world with a new state of one driver.
abbrev pub with_state : {S : Type 0} → World S → Running S → S → World S
with_state w d s = record w { drivers = update_running d.id (record d { state = s }) w.drivers }

module _ {S : Type 0} (entries : ℕ → QueryEntries S) (id pid : ℕ) (w : World S) (m : Motor)
    (d : Running S) (found : find_motor_by_id id pid w.motor_list ≡ some m)
    (driven : driver_of m w ≡ some d) where
  pub ask_found :
      (q : Query) (read : Query → S → ℕ × (Query × S))
      → (entries d.id).read ≡ some read
      → ask entries id pid w q
        ≡ (let r = read q d.state in some (answered m r.0 r.1.0 (with_state w d r.1.1)))
  unfolding ask read_by read_driver
  ask_found q read h = rw (found, ask) (rw driven (ap some (rw (h, read_by) refl)))

  pub tell_found :
      (q : Motor → Query) (write : Query → S → ℕ × S)
      → (entries d.id).write ≡ some write
      → tell entries id pid w q ≡ (let r = write (q m) d.state in some (r.0, with_state w d r.1))
  unfolding tell write_by
  tell_found q write h = rw (found, tell) (rw driven (ap some (rw (h, write_by) refl)))

  -- A read of the driver that fails is a success of mcQueryInteger: the status is 0, and the value is
  -- what the driver left, which is 0 where it left the query alone. mcQueryFloat returns the status of
  -- the driver, and no value.
  pub query_integer-failed :
      {F : Type 0} (fl : Floats F) (what : Name) (read : Query → S → ℕ × (Query × S)) (status : ℕ)
      (s : S)
      → (entries d.id).read ≡ some read
      → read (query_for what) d.state ≡ (status, (query_for what, s))
      → status ≢ 0
      → is_distance what ≡ false
      → (query_integer entries id pid w fl what ≡ some (0, (some (pos 0), with_state w d s)))
        × (query_float entries id pid w fl what ≡ some (status, (none, with_state w d s)))
  unfolding query_integer query_float
  query_integer-failed {F} fl what read status s h r bad plain =
      let nonzero : (status == 0) ≡ false = ground arith in
      let asked : ask entries id pid w (query_for what)
          ≡ some (answered m status (query_for what) (with_state w d s)) =
        ask_found (query_for what) read h
        ∙ ap (λ (t : ℕ × (Query × S)). some (answered m t.0 t.1.0 (with_state w d t.1.1))) r in
      (rw (asked, plain) refl, rw (asked, nonzero) refl)

  -- A position that a client sets before it has set units for its motor is set to 0, whatever it is:
  -- the status of the conversion is not looked at, and the driver is given the number 0.
  pub poke_integer-unitless :
      {F : Type 0} (fl : Floats F) (value : ℤ) (write : Query → S → ℕ × S)
      → (entries d.id).write ≡ some write
      → m.op_profile.units ≡ 0
      → poke_integer entries id pid w fl position value
        ≡ (let r = write (query_for position) d.state in some (r.0, with_state w d r.1))
  unfolding poke_integer
  poke_integer-unitless fl value write h u =
      tell_found _ write h
      ∙ ap
          (λ (t : ℕ × Option ℤ).
            let r = write (record (query_for position) { number = or_nothing t }) d.state in
            some (r.0, with_state w d r.1))
          (distance_to_microrevs-unitless fl m.op_profile value u)
