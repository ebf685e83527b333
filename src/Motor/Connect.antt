-- ===== src/Motor/Connect.antt =====
-- mcConnect and mcDisconnect of lib/motor.c keep the connection table well formed.
use mcontrol.Base.{
  ℕ, suc, ◌<◌, ◌≡◌, refl, sym, subst, ◌∙◌, ◌⊎◌, inl, inr, Bool, true, false, Option, none, some,
  List, [], ◌∷◌, arith, Bool-cases, Option-cases, length, er_too_many,
}
use mcontrol.Base.Int.{pos, eqb_ℤ, pos_pred}
use mcontrol.Base.Slots.{All}
use mcontrol.Registry.{Registry, Str, Connected, returns, hangs, driver_connect}
use mcontrol.Motor.{
  Motor, Table, reply, hung, find_motor_by_id, update_motor, connected_motor, allocate, place,
  connect_found, connect, Reply, disconnect,
}
use mcontrol.Motor.Count.{active_count, last_id, IsTable, Known, collect-IsTable, place-IsTable}

-- The table as the next mcConnect finds it, allocated if it was not.
abbrev pub allocated : Table → Table
allocated t = record t { motor_list = allocate t.motor_list }

id-connected_motor :
    (pid id : ℕ) (recovery : Bool) (status : ℕ) (i : Option ℕ) (r : Registry)
    → (connected_motor pid id recovery status i r).1.id ≡ id
unfolding connected_motor
id-connected_motor pid id recovery status none r = ground arith
id-connected_motor pid id recovery status (some i) r = ground arith

module _ (pid : ℕ) (cxn : Str) (recovery : Bool) (t : Table) where
  found-eq-full :
      eqb_ℤ t.conn_count (pos 64) ≡ true → connect_found pid cxn recovery t ≡ reply er_too_many t
  unfolding connect_found
  found-eq-full e = rw (e, connect_found) refl

  found-eq-place :
      {status : ℕ} {i : Option ℕ} {r : Registry}
      → eqb_ℤ t.conn_count (pos 64) ≡ false
      → driver_connect cxn t.registry ≡ returns status i r
      → connect_found pid cxn recovery t
        ≡ place (connected_motor pid t.motor_uid recovery status i r) t r
  unfolding connect_found
  found-eq-place e d = rw (e, d, connect_found) refl

  found_hangs :
      eqb_ℤ t.conn_count (pos 64) ≡ false
      → driver_connect cxn t.registry ≡ hangs
      → connect_found pid cxn recovery t ≡ hung
  unfolding connect_found
  found_hangs e d = rw (e, d, connect_found) refl

-- A call that never ends, or one that returns with a well-formed table.
abbrev pub KeepsTable : Reply → Type 0
KeepsTable o = (o ≡ hung) ⊎ ((status : ℕ) × (t' : Table) × (o ≡ reply status t') × IsTable t')

not_full :
    (t : Table) → IsTable t → eqb_ℤ t.conn_count (pos 64) ≡ false → active_count t.motor_list < 64
not_full t v e =
    let q : eqb_ℤ (pos (active_count t.motor_list)) (pos 64) ≡ false = rw v.counted at e in
    ground (arith, v.bounded)

found-KeepsTable :
    (pid : ℕ) (cxn : Str) (recovery : Bool) (t : Table)
    → IsTable t
    → KeepsTable (connect_found pid cxn recovery t)
found-KeepsTable pid cxn recovery t w = elim (Bool-cases (eqb_ℤ t.conn_count (pos 64))) [
  | inl e ↦ inr (er_too_many, t, found-eq-full pid cxn recovery t e, w)
  | inr e ↦ by_driver e (driver_connect cxn t.registry) refl
]
  where
    by_driver :
        eqb_ℤ t.conn_count (pos 64) ≡ false
        → (c : Connected) → driver_connect cxn t.registry ≡ c
        → KeepsTable (connect_found pid cxn recovery t)
    by_driver e hangs d = inl (found_hangs pid cxn recovery t e d)
    by_driver e (returns status i r) d =
        let m = connected_motor pid t.motor_uid recovery status i r in
        let p =
          place-IsTable m.0 m.1 t r w (not_full t w e)
            (id-connected_motor pid t.motor_uid recovery status i r) in
        inr (m.0, p.0, found-eq-place pid cxn recovery t e d ∙ p.1, p.2)

-- From a well-formed table, mcConnect never scans past the end of the table, neither to collect the
-- connections of clients that are gone nor for a free slot: either the search for the driver class
-- never ends, or the call returns, with the table well formed again.
pub connect-IsTable :
    (alive : ℕ → Bool) (pid : ℕ) (cxn : Str) (recovery : Bool) (t : Table)
    → IsTable (allocated t)
    → (connect alive pid cxn recovery t ≡ hung)
      ⊎ ((status : ℕ) × (t' : Table) × (connect alive pid cxn recovery t ≡ reply status t')
          × IsTable t')
unfolding connect
connect-IsTable alive pid cxn recovery t v =
    let c = collect-IsTable alive (allocated t) v in
    let t' : Table = record t { motor_list = c.0; conn_count = c.1 } in
    let e : connect alive pid cxn recovery t ≡ connect_found pid cxn recovery t' =
      rw (c.2, connect) refl in
    subst KeepsTable (sym e) (found-KeepsTable pid cxn recovery t' c.3)

-- Disconnecting.
update-Known :
    (uid id pid : ℕ) (ms : List Motor)
    → All (Known uid) ms
    → All (Known uid) (update_motor id pid (λ x. record x { driver = none; active = false }) ms)
unfolding update_motor
update-Known uid id pid [] h = tt
update-Known uid id pid (m ∷ ms) h = ground (arith, update-Known uid id pid ms h.1)

length-update :
    (id pid : ℕ) (f : Motor → Motor) (ms : List Motor)
    → length (update_motor id pid f ms) ≡ length ms
unfolding update_motor
length-update id pid f [] = refl
length-update id pid f (m ∷ ms) = ground (arith, length-update id pid f ms)

last_id-update :
    (id pid d : ℕ) (ms : List Motor)
    → last_id d (update_motor id pid (λ x. record x { driver = none; active = false }) ms)
      ≡ last_id d ms
unfolding update_motor
last_id-update id pid d [] = refl
last_id-update id pid d (m ∷ ms) = ground (arith, last_id-update id pid m.id ms)

count-update :
    (id pid : ℕ) (ms : List Motor) (m : Motor)
    → find_motor_by_id id pid ms ≡ some m
    → suc (active_count (update_motor id pid (λ x. record x { driver = none; active = false }) ms))
      ≡ active_count ms
unfolding update_motor find_motor_by_id
count-update id pid [] m e = cc
count-update id pid (x ∷ ms) m e = ground (arith, count-update id pid ms m)

-- mcDisconnect keeps the table well formed, whether or not it finds the connection.
pub disconnect-IsTable : (id pid : ℕ) (t : Table) → IsTable t → IsTable (disconnect id pid t).1
unfolding disconnect
disconnect-IsTable id pid t v = elim (Option-cases (find_motor_by_id id pid t.motor_list)) [
  | inl e ↦ rw (e, disconnect) v
  | inr (m, e) ↦
      rw (e, disconnect)
        (record {
          slots = length-update id pid _ t.motor_list ∙ v.slots;
          counted = ground (
            arith,
            v.counted,
            count-update id pid t.motor_list m e,
            pos_pred (
                active_count (
                  update_motor id pid (λ x. record x { driver = none; active = false })
                    t.motor_list)),
          );
          bounded = omega (arith, v.bounded, count-update id pid t.motor_list m e);
          end_mark = last_id-update id pid 1 t.motor_list ∙ v.end_mark;
          uid_pos = v.uid_pos;
          ids = update-Known t.motor_uid id pid t.motor_list v.ids;
        })
]
