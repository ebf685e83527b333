-- ===== src/Requests/Queries.antt =====
-- lib/query.c: the handlers that read and write a variable of a motor. The entries `read` and `write`
-- of a driver's class are an argument; `none` is a null pointer. A handler gives the status and what
-- it writes to the value in the message of the client, which it may leave as it was. In the union of
-- a query's value the number and the text are apart. The model has no result where the pointer to the
-- driver is null or gone.
pub mod Position
pub mod Failing
mod Tests
use mcontrol.Base.{
  ℕ, ◌%◌, ◌^◌, Bool, true, false, Option, none, some, List, [], map, ◌==◌, if◌then◌else◌, length,
  fit, ℤ, pos, wrap32, einval, enotsup,
}
use mathlib.Core.Option
use mcontrol.Motor.{Motor, Name, position, velocity, Query, find_motor_by_id}
use mcontrol.Requests.{Running, World, driver_of, update_running}
use mcontrol.Requests.Units.{
  Floats, distance_to_microrevs, distance_units_to_microrevs, microrevs_to_distance,
  microrevs_to_distance_units, microrevs_to_distance_f, microrevs_to_distance_units_f,
}

pub record QueryEntries (S : Type 0) : Type 0 where
  pub read : Option (Query → S → ℕ × (Query × S))
  pub write : Option (Query → S → ℕ × S)

-- The `{ .query = query }` of the handlers.
abbrev pub query_for : Name → Query
query_for what = record {
  query = what;
  number = pos 0;
  string = [];
  size = 0;
  arg_number = pos 0;
  arg_string = [];
}

-- What the beginning of a handler comes to: a status at once, or the call of the driver.
pub data Asked (S : Type 0) : Type 0 where
  refused : ℕ → Asked S
  answered : Motor → ℕ → Query → World S → Asked S

module _ {S : Type 0} (w : World S) where
  pub read_driver : (Query → S → ℕ × (Query × S)) → Motor → Query → Running S → Asked S
  unfolding update_running
  read_driver read m q d =
      let (status, (q', s)) = read q d.state in
      answered m status q'
        (record w { drivers = update_running d.id (record d { state = s }) w.drivers })

  pub read_by : QueryEntries S → Motor → Query → Running S → Asked S
  unfolding read_driver
  read_by entries m q d = elim entries.read [
    | none ↦ refused enotsup
    | some read ↦ read_driver read m q d
  ]

  pub write_by : QueryEntries S → Query → Running S → ℕ × World S
  unfolding update_running
  write_by entries q d = elim entries.write [
    | none ↦ (enotsup, w)
    | some write ↦
        let (status, s) = write q d.state in
        (status, record w { drivers = update_running d.id (record d { state = s }) w.drivers })
  ]

abbrev pub is_distance : Name → Bool
is_distance position = true
is_distance velocity = true
is_distance _ = false

abbrev pub or_nothing : ℕ × Option ℤ → ℤ
or_nothing (status, none) = pos 0
or_nothing (status, some urevs) = urevs

abbrev pub is_place : Name → Bool
is_place position = true
is_place _ = false

module _ {S : Type 0} (entries : ℕ → QueryEntries S) (id pid : ℕ) (w : World S) where
  -- What the handlers that read have in common.
  pub ask : Query → Option (Asked S)
  unfolding read_by driver_of
  ask q = elim (find_motor_by_id id pid w.motor_list) [
    | none ↦ some (refused einval)
    | some m ↦ Option.map (λ d. read_by w (entries d.id) m q d) (driver_of m w)
  ]

  -- What the handlers that write have in common.
  pub tell : (Motor → Query) → Option (ℕ × World S)
  unfolding write_by driver_of
  tell q = elim (find_motor_by_id id pid w.motor_list) [
    | none ↦ some (einval, w)
    | some m ↦ Option.map (λ d. write_by w (entries d.id) (q m) d) (driver_of m w)
  ]

  -- A handler that does not look at the status of the driver.
  abbrev heedless : {V : Type 0} → (Motor → Query → Option V) → Asked S → ℕ × (Option V × World S)
  heedless f (refused status) = (status, (none, w))
  heedless f (answered m status q w') = (0, (f m q, w'))

  -- A handler that returns the status of a driver that fails.
  abbrev heeding : {V : Type 0} → (Motor → Query → Option V) → Asked S → ℕ × (Option V × World S)
  heeding f (refused status) = (status, (none, w))
  heeding f (answered m status q w') =
      if status == 0 then (0, (f m q, w')) else (status, (none, w'))

  abbrev pub plain : Motor → Query → Option ℤ
  plain m q = some (wrap32 q.number)

  -- mcQueryIntegerWithStringItem
  pub query_integer_with_string_item : Name → List ℕ → Option (ℕ × (Option ℤ × World S))
  unfolding ask
  query_integer_with_string_item what item =
      Option.map (heeding plain) (ask (record (query_for what) { arg_string = fit 32 item }))

  -- mcQueryIntegerWithIntegerItem
  pub query_integer_with_integer_item : Name → ℤ → Option (ℕ × (Option ℤ × World S))
  unfolding ask
  query_integer_with_integer_item what item =
      Option.map (heeding plain) (ask (record (query_for what) { arg_number = item }))

  -- mcQueryString: the text and its size are written if the driver gives a size, also if it fails.
  pub query_string : Name → Option (ℕ × (Option (List ℕ) × World S))
  unfolding ask
  query_string what =
      Option.map
        (λ a. elim a [
          | refused status ↦ (status, (none, w))
          | answered m status q w' ↦
              (status, (if q.size == 0 then none else some (fit 256 q.string), w'))
        ])
        (ask (query_for what))

  -- mcPokeString
  pub poke_string : Name → List ℕ → Option (ℕ × World S)
  unfolding tell
  poke_string what value =
      tell (λ m. record (query_for what) { string = fit 32 value; size = length value % 2 ^ 16 })

  -- mcPokeIntegerWithStringItem
  pub poke_integer_with_string_item : Name → ℤ → List ℕ → Option (ℕ × World S)
  unfolding tell
  poke_integer_with_string_item what value item =
      tell (λ m. record (query_for what) { number = value; arg_string = fit 32 item })

  -- mcPokeIntegerWithIntegerItem
  pub poke_integer_with_integer_item : Name → ℤ → ℤ → Option (ℕ × World S)
  unfolding tell
  poke_integer_with_integer_item what value item =
      tell (λ m. record (query_for what) { number = value; arg_number = item })

  -- mcPokeStringWithStringItem
  pub poke_string_with_string_item : Name → List ℕ → List ℕ → Option (ℕ × World S)
  unfolding tell
  poke_string_with_string_item what value item = tell (λ m. record (query_for what) {
    string = fit 32 value;
    size = length value % 2 ^ 16;
    arg_string = fit 32 item;
  })

  module _ {F : Type 0} (fl : Floats F) where
    -- Distances are converted from micro-revolutions; the status of the conversion is not looked at.
    abbrev pub in_units : Name → Motor → Query → Option ℤ
    in_units what m q =
        if is_distance what
        then (microrevs_to_distance fl m.op_profile q.number).1
        else some (wrap32 q.number)

    abbrev pub in_these_units : ℕ → Name → Motor → Query → Option ℤ
    in_these_units units what m q =
        if is_distance what
        then (microrevs_to_distance_units fl m.op_profile q.number units).1
        else some (wrap32 q.number)

    abbrev pub in_units_f : Name → Motor → Query → Option F
    in_units_f what m q =
        if is_distance what
        then (microrevs_to_distance_f fl m.op_profile q.number).1
        else some (fl.of_integer q.number)

    -- mcQueryInteger
    pub query_integer : Name → Option (ℕ × (Option ℤ × World S))
    unfolding ask
    query_integer what = Option.map (heedless (in_units what)) (ask (query_for what))

    -- mcQueryIntegerUnits
    pub query_integer_units : Name → ℕ → Option (ℕ × (Option ℤ × World S))
    unfolding ask
    query_integer_units what units =
        Option.map (heedless (in_these_units units what)) (ask (query_for what))

    -- mcQueryFloat
    pub query_float : Name → Option (ℕ × (Option F × World S))
    unfolding ask
    query_float what = Option.map (heeding (in_units_f what)) (ask (query_for what))

    abbrev pub in_these_units_f : ℕ → Name → Motor → Query → Option F
    in_these_units_f units what m q =
        if is_distance what
        then (microrevs_to_distance_units_f fl m.op_profile q.number units).1
        else some (fl.of_integer q.number)

    -- mcQueryFloatUnits
    pub query_float_units : Name → ℕ → Option (ℕ × (Option F × World S))
    unfolding ask
    query_float_units what units =
        Option.map (heeding (in_these_units_f units what)) (ask (query_for what))

    -- mcPokeInteger: a position is converted to micro-revolutions; the status of the conversion is not
    -- looked at, and what it does not write is 0.
    pub poke_integer : Name → ℤ → Option (ℕ × World S)
    unfolding tell
    poke_integer what value = tell (λ m. record (query_for what) {
      number =
          if is_place what then or_nothing (distance_to_microrevs fl m.op_profile value) else value;
    })

    -- mcPokeIntegerUnits
    pub poke_integer_units : Name → ℤ → ℕ → Option (ℕ × World S)
    unfolding tell
    poke_integer_units what value units = tell (λ m. record (query_for what) {
      number =
          if is_place what
          then or_nothing (distance_units_to_microrevs fl m.op_profile value units)
          else value;
    })
