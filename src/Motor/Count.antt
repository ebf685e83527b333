-- ===== src/Motor/Count.antt =====
-- The count of active connections of lib/motor.c, and the room in its table.
use mcontrol.Base.{
  ℕ, zero, suc, ◌+◌, ◌≤◌, ◌<◌, ◌≡◌, refl, ap, ◌∙◌, ◌≢◌, Bool, true, not, some, List, [], ◌∷◌, arith,
  ◌==◌, false, ◌&&◌, inl, inr, Bool-cases, Option-cases, subst, if◌then◌else◌, length, replicate,
}
use mcontrol.Base.Int.{ℤ, pos, ◌+ℤ◌, ◌-ℤ◌, pos_part, neg_part, pos_suc, -ℤ_parts, eq_of_parts}
use mcontrol.Base.Slots.{
  All, fill, count_if, fill_total, count_if-fill, length-fill, All-fill, All-map,
}
use mcontrol.Registry.{Registry}
use mcontrol.Motor.{Motor, Table, reply, blank_motor, collect, place}

abbrev pub active_count : List Motor → ℕ
active_count = count_if λ m. m.active

-- The id of the last slot, or `d` where there is none.
abbrev pub last_id : ℕ → List Motor → ℕ
last_id d [] = d
last_id d (m ∷ ms) = last_id m.id ms

-- The table once it is allocated: 65 slots, the last one with the id 0, the count that of the active
-- ones and at most 64, and ids only below the next one, not zero in an active slot.
pub record IsTable (t : Table) : Type 0 where
  pub slots : length t.motor_list ≡ 65
  pub end_mark : last_id 1 t.motor_list ≡ 0
  pub counted : t.conn_count ≡ pos (active_count t.motor_list)
  pub bounded : active_count t.motor_list ≤ 64
  pub uid_pos : t.motor_uid ≢ 0
  pub ids : All (λ m. (m.id < t.motor_uid) × (m.active ≡ true → m.id ≢ 0)) t.motor_list

abbrev pub Known : ℕ → Motor → Type 0
Known uid m = (m.id < uid) × (m.active ≡ true → m.id ≢ 0)

-- What the collection does to a table with an end mark: the connections are as many, in the same
-- slots, and each one that is collected is one less in the count.
record Collected (d : ℕ) (ms : List Motor) (n : ℤ) (ms' : List Motor) (n' : ℤ) : Type 0 where
  same_length : length ms' ≡ length ms
  same_end : last_id d ms' ≡ last_id d ms
  counted : pos_part n' + neg_part n + active_count ms ≡ neg_part n' + pos_part n + active_count ms'
  fewer : active_count ms' ≤ active_count ms
  keeps : (uid : ℕ) → All (Known uid) ms → All (Known uid) ms'

abbrev collected_one : (ℕ → Bool) → Motor → Motor
collected_one alive m =
    if m.active && not (alive m.client_pid) then record m { active = false } else m

abbrev one_fewer : (ℕ → Bool) → Motor → ℤ → ℤ
one_fewer alive m n = if m.active && not (alive m.client_pid) then n -ℤ pos 1 else n

collect_step :
    (alive : ℕ → Bool) (m : Motor) (ms : List Motor) (n : ℤ) {ms' : List Motor} {n' : ℤ}
    → (m.id == 0) ≡ false
    → collect alive ms (one_fewer alive m n) ≡ some (ms', n')
    → collect alive (m ∷ ms) n ≡ some (collected_one alive m ∷ ms', n')
unfolding collect
collect_step alive m ms n e q = rw (e, q) refl

Collected-step :
    (alive : ℕ → Bool) (d : ℕ) (m : Motor) (ms : List Motor) (n : ℤ) (ms' : List Motor) (n' : ℤ)
    → Collected m.id ms (one_fewer alive m n) ms' n'
    → Collected d (m ∷ ms) n (collected_one alive m ∷ ms') n'
Collected-step alive d m ms n ms' n' r = record {
  same_length = omega (arith, r.same_length);
  same_end = ground (arith, r.same_end);
  counted = ground (arith, r.counted, -ℤ_parts n (pos 1));
  fewer = ground (arith, r.fewer);
  keeps = λ uid h. (ground (arith, h.0), r.keeps uid h.1);
}

collect_stops :
    (alive : ℕ → Bool) (m : Motor) (ms : List Motor) (n : ℤ)
    → (m.id == 0) ≡ true
    → collect alive (m ∷ ms) n ≡ some (m ∷ ms, n)
unfolding collect
collect_stops alive m ms n q = rw q refl

collect_total :
    (alive : ℕ → Bool) (d : ℕ) (ms : List Motor) (n : ℤ)
    → d ≢ 0
    → last_id d ms ≡ 0
    → (ms' : List Motor) × (n' : ℤ) × (collect alive ms n ≡ some (ms', n'))
      × Collected d ms n ms' n'
collect_total alive d [] n h e = absurd (h e)
collect_total alive d (m ∷ ms) n h e = elim (Bool-cases (m.id == 0)) [
  | inl q ↦ (
    m ∷ ms,
    n,
    collect_stops alive m ms n q,
    record {
      same_length = refl;
      same_end = refl;
      counted = omega arith;
      fewer = omega arith;
      keeps = λ uid k. k;
    },
  )
  | inr q ↦
      let r = collect_total alive m.id ms (one_fewer alive m n) (ground (arith, q)) e in
      (
        collected_one alive m ∷ r.0,
        r.1,
        collect_step alive m ms n q r.2,
        Collected-step alive d m ms n r.0 r.1 r.3,
      )
]

-- The collection of a well-formed table ends inside it, and leaves it well formed.
pub collect-IsTable :
    (alive : ℕ → Bool) (t : Table)
    → IsTable t
    → (ms : List Motor) × (n : ℤ) × (collect alive t.motor_list t.conn_count ≡ some (ms, n))
      × IsTable (record t { motor_list = ms; conn_count = n })
collect-IsTable alive t v =
    let r = collect_total alive 1 t.motor_list t.conn_count (omega arith) v.end_mark in
    let c = r.3 in
    (
      r.0,
      r.1,
      r.2,
      record {
        slots = c.same_length ∙ v.slots;
        end_mark = c.same_end ∙ v.end_mark;
        counted =
            eq_of_parts _ _
              (omega (arith, c.counted, ap pos_part v.counted, ap neg_part v.counted));
        bounded = omega (arith, v.bounded, c.fewer);
        uid_pos = v.uid_pos;
        ids = c.keeps t.motor_uid v.ids;
      },
    )

Known-mono : (uid : ℕ) (ms : List Motor) → All (Known uid) ms → All (Known (uid + 1)) ms
Known-mono uid ms = All-map (Known uid) (Known (uid + 1)) (λ m h. (omega arith, h.1)) ms

blank-Known : (uid n : ℕ) → uid ≢ 0 → All (Known uid) (replicate n blank_motor)
blank-Known uid zero h = tt
blank-Known uid (suc n) h = ((omega arith, λ e. cc), blank-Known uid n h)

last_id-other : (a b : ℕ) (ms : List Motor) → 0 < length ms → last_id a ms ≡ last_id b ms
last_id-other a b [] h = absurd (omega (arith, h))
last_id-other a b (m ∷ ms) h = refl

-- A table with two inactive slots keeps its last one when a slot is filled.
last_id-fill :
    (d : ℕ) (v : Motor) (ms ys : List Motor)
    → fill (λ x. not x.active) v ms ≡ some ys
    → active_count ms + 1 < length ms
    → last_id d ys ≡ last_id d ms
last_id-fill d v [] ys e h = cc
last_id-fill d v (m ∷ ms) ys e h = elim (Bool-cases m.active) [
  | inl q ↦ elim (Option-cases (fill (λ x. not x.active) v ms)) [
    | inl f ↦ ground arith
    | inr (zs, f) ↦
        let rest = last_id-fill m.id v ms zs f (ground (arith, q)) in
        subst (λ l. last_id d l ≡ last_id m.id ms) {x = m ∷ zs} {y = ys} (ground arith) rest
  ]
  | inr q ↦
      subst (λ l. last_id d l ≡ last_id m.id ms) {x = v ∷ ms} {y = ys} (ground arith)
        (last_id-other v.id m.id ms (ground arith))
]

-- Placing a connection, which has the next id.
pub place-IsTable :
    (status : ℕ) (m : Motor) (t : Table) (r : Registry)
    → IsTable t
    → active_count t.motor_list < 64
    → m.id ≡ t.motor_uid
    → (t' : Table) × (place (status, m) t r ≡ reply status t')
      × IsTable t'
      × (fill (λ x. not x.active) m t.motor_list ≡ some t'.motor_list)
unfolding place
place-IsTable status m t r v room i =
    let f =
      fill_total (λ x. not x.active) m t.motor_list
        (omega (arith, v.slots, occupied t.motor_list)) in
    (
      record {
        motor_list = f.0;
        conn_count = if m.active then t.conn_count +ℤ pos 1 else t.conn_count;
        motor_uid = t.motor_uid + 1;
        registry = r;
      },
      rw (f.1, place),
      record {
        slots = length-fill _ m t.motor_list f.0 f.1 ∙ v.slots;
        end_mark = last_id-fill 1 m t.motor_list f.0 f.1 (omega (arith, v.slots)) ∙ v.end_mark;
        counted = ground (
          arith,
          v.counted,
          count_if-fill (λ x. x.active) m t.motor_list f.0 f.1,
          pos_suc (active_count t.motor_list),
        );
        bounded = ground (arith, v.bounded, count_if-fill (λ x. x.active) m t.motor_list f.0 f.1);
        uid_pos = omega arith;
        ids =
            All-fill (Known (t.motor_uid + 1)) _ m t.motor_list f.0
              (omega arith, λ e. ground (arith, v.uid_pos))
              (Known-mono t.motor_uid t.motor_list v.ids) f.1;
      },
      f.1,
    )
  where
    occupied : (ms : List Motor) → count_if (λ x. not (not x.active)) ms ≡ active_count ms
    occupied [] = refl
    occupied (x ∷ ms) = ground (arith, occupied ms)
