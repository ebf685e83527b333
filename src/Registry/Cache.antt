-- ===== src/Registry/Cache.antt =====
-- One driver instance for each connection string: the cache of mcDriverConnect of lib/driver.c.
use mcontrol.Base.{
  ℕ, zero, suc, ◌+◌, ◌-◌, ◌≤◌, ◌≡◌, refl, sym, ap, ◌∙◌, subst, ◌≢◌, inl, inr, true, Option, none,
  some, List, [], ◌∷◌, ◌++◌, arith, Option-cases, length, take,
}
use mcontrol.Registry.{
  DriverClass, Driver, Instance, Registry, Str, str_eq, cached, blank, fresh_driver, put_last,
  name_last, Connected, returns, connect_new, driver_connect, driver_lookup, Found, found, missing,
  forever, parse_cxn,
}

str_eq_refl : (s : Str) → str_eq s s ≡ true
str_eq_refl [] = refl
str_eq_refl (a ∷ s) = ground (arith, str_eq_refl s)

take_short {ℓ} : {A : Type ℓ} (n : ℕ) (s : List A) → length s ≤ n → take n s ≡ s
take_short zero [] h = refl
take_short zero (a ∷ s) h = elim h [ ]
take_short (suc n) [] h = refl
take_short (suc n) (a ∷ s) h = ap (◌∷◌ a) (take_short n s (omega arith))

put_last_nonempty :
    (d : Driver) (ms : List Instance)
    → (y : Instance) × (ys : List Instance) × (put_last d ms ≡ y ∷ ys)
unfolding put_last
put_last_nonempty d [] = (record blank { driver = some d }, [], refl)
put_last_nonempty d (m ∷ []) = elim (Option-cases m.driver) [
  | inl e ↦ (record m { driver = some d }, [], ground arith)
  | inr (old, e) ↦ (m, record blank { driver = some d } ∷ [], ground arith)
]
put_last_nonempty d (m ∷ x ∷ ms) = (m, put_last d (x ∷ ms), refl)

name_last-cons :
    (s : Str) (m : Instance) (ys : List Instance) (d : Driver)
    → name_last s (m ∷ put_last d ys) ≡ m ∷ name_last s (put_last d ys)
unfolding name_last
name_last-cons s m ys d = let r = put_last_nonempty d ys in rw (r.2)

-- The newest instance is the first that matches its string.
cached_newest :
    (cxn : Str) (d : Driver) (i : ℕ) (ms : List Instance)
    → cached cxn i ms ≡ none
    → cached cxn i (name_last cxn (put_last d ms)) ≡ some (i + length (put_last d ms) - 1)
unfolding cached name_last put_last
cached_newest cxn d i [] h = ground (arith, str_eq_refl cxn)
cached_newest cxn d i (m ∷ []) h = elim (Option-cases m.driver) [
  | inl e ↦ ground (arith, str_eq_refl cxn)
  | inr (old, e) ↦ ground (arith, str_eq_refl cxn)
]
cached_newest cxn d i (m ∷ x ∷ ms) h =
    rw (name_last-cons cxn m (x ∷ ms) d)
      (ground (arith, cached_newest cxn d (suc i) (x ∷ ms), put_last_nonempty d (x ∷ ms)))

-- The two ways in which mcDriverConnect succeeds: from the cache, or with a new instance.
connect_hit :
    (cxn name rest : Str) (c : DriverClass) (i : ℕ) (r : Registry)
    → parse_cxn cxn ≡ some (name, rest)
    → driver_lookup r.drivers (take 31 name) ≡ found c
    → cached cxn 0 r.motors ≡ some i
    → driver_connect cxn r ≡ returns 0 (some i) r
unfolding driver_connect
connect_hit cxn name rest c i r p f k = rw (p, f, k, driver_connect)

connect_miss :
    (cxn name rest : Str) (c : DriverClass) (r : Registry)
    → parse_cxn cxn ≡ some (name, rest)
    → driver_lookup r.drivers (take 31 name) ≡ found c
    → cached cxn 0 r.motors ≡ none
    → driver_connect cxn r ≡ connect_new c cxn rest r
unfolding driver_connect
connect_miss cxn name rest c r p f k = rw (p, f, k, driver_connect)

record Success (cxn : Str) (r : Registry) (out : Connected) : Type 0 where
  name : Str
  rest : Str
  class : DriverClass
  parsed : parse_cxn cxn ≡ some (name, rest)
  known : driver_lookup r.drivers (take 31 name) ≡ found class

success :
    (cxn : Str) (r r' : Registry) (i : ℕ)
    → driver_connect cxn r ≡ returns 0 (some i) r'
    → Success cxn r (driver_connect cxn r)
unfolding driver_connect
success cxn r r' i e = by_parse (parse_cxn cxn) refl
  where
    by_found :
        (name rest : Str) (f : Found)
        → parse_cxn cxn ≡ some (name, rest)
        → driver_lookup r.drivers (take 31 name) ≡ f
        → Success cxn r (driver_connect cxn r)
    by_found name rest (found c) p q = record {
      name = name;
      rest = rest;
      class = c;
      parsed = p;
      known = q;
    }
    by_found name rest missing p q = cc (rw (p, q, driver_connect) at e)
    by_found name rest forever p q = cc (rw (p, q, driver_connect) at e)

    by_parse : (o : Option (Str × Str)) → parse_cxn cxn ≡ o → Success cxn r (driver_connect cxn r)
    by_parse none p = cc (rw (p, driver_connect) at e)
    by_parse (some (name, rest)) p = by_found name rest _ p refl

-- What a successful new connection leaves.
new_success :
    (c : DriverClass) (cxn rest : Str) (r r' : Registry) (i : ℕ)
    → cached cxn 0 r.motors ≡ none
    → length cxn ≤ 63
    → connect_new c cxn rest r ≡ returns 0 (some i) r'
    → (r'.drivers ≡ r.drivers) × (cached cxn 0 r'.motors ≡ some i)
unfolding connect_new
new_success c cxn rest r r' i k h e = ground (
  arith,
  cached_newest cxn (fresh_driver r.motor_uid c (c.initialize rest).1) 0 r.motors k,
  take_short 63 cxn h,
)

-- Connecting again by a string of at most 63 characters returns the instance that the first call
-- returned, with status 0: it makes no other and initializes nothing.
pub reconnect_same :
    (cxn : Str) (r r' : Registry) (i : ℕ)
    → length cxn ≤ 63
    → driver_connect cxn r ≡ returns 0 (some i) r'
    → driver_connect cxn r' ≡ returns 0 (some i) r'
reconnect_same cxn r r' i h e =
    let s = success cxn r r' i e in
    elim (Option-cases (cached cxn 0 r.motors)) [
      | inl k ↦
          let n =
            new_success s.class cxn s.rest r r' i k h
              (sym (connect_miss cxn s.name s.rest s.class r s.parsed s.known k) ∙ e) in
          connect_hit cxn s.name s.rest s.class i r' s.parsed
            (subst (λ ds. driver_lookup ds (take 31 s.name) ≡ found s.class) (sym n.0) s.known) n.1
      | inr (j, k) ↦
          let q = sym (connect_hit cxn s.name s.rest s.class j r s.parsed s.known k) ∙ e in same q
    ]
  where
    same :
        {j : ℕ}
        → returns 0 (some j) r ≡ returns 0 (some i) r'
        → driver_connect cxn r' ≡ returns 0 (some i) r'
    same {j} q = subst (λ x. driver_connect cxn x ≡ returns 0 (some i) r') (cc) e

cached_stale :
    (old : Str) (d : Driver) (i : ℕ) (ms : List Instance) (m : Instance)
    → m.driver ≡ none
    → m.cxn_string ≡ old
    → cached old i ms ≡ none
    → cached old i (put_last d (ms ++ m ∷ [])) ≡ some (i + length ms)
unfolding cached put_last
cached_stale old d i [] m n s h = ground (arith, str_eq_refl old)
cached_stale old d i (x ∷ []) m n s h = ground (arith, str_eq_refl old)
cached_stale old d i (x ∷ y ∷ ms) m n s h =
    ground (arith, cached_stale old d (suc i) (y ∷ ms) m n s)

-- A defect: where the newest instance was disconnected, a connection by any other string whose
-- initialization fails leaves its driver under the old string, so that a later search for the old
-- string finds the driver that failed.
pub stale_string :
    (c : DriverClass) (cxn old rest : Str) (r r' : Registry) (ms : List Instance) (m : Instance)
    (status : ℕ) (at_last : Option ℕ)
    → r.motors ≡ ms ++ m ∷ []
    → m.driver ≡ none
    → m.cxn_string ≡ old
    → cached old 0 ms ≡ none
    → status ≢ 0
    → connect_new c cxn rest r ≡ returns status at_last r'
    → cached old 0 r'.motors ≡ some (length ms)
unfolding connect_new
stale_string c cxn old rest r r' ms m status at_last l n s h z e =
    ground (arith, cached_stale old (fresh_driver r.motor_uid c (c.initialize rest).1) 0 ms m n s h)
