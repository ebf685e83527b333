-- ===== src/Mdrive/Ports/Sharing.antt =====
-- The count of devices on a port, in drivers/mdrive/serial.c.
use mcontrol.Base.{
  ℕ, ◌+◌, ◌-◌, ◌≡◌, subst, length, refl, ap, ◌∙◌, inl, inr, Bool, true, false, ◌&&◌, none, some,
  List, [], ◌∷◌, ◌++◌, arith, ltb, ◌==◌, if◌then◌else◌, Bool-cases,
}
use mcontrol.Base.Int.{ℤ, pos, ltb_ℤ}
use mcontrol.Base.Slots.{find, modify}
use mcontrol.Mdrive.Ports.{
  Port, Ports, is_named, is_port, one_more, open_port, link_or_open, leave_port, connect_port,
  unlink, disconnect_port,
}

-- No port has a handle that is yet to be given.
abbrev pub below_fresh : ℕ → List Port → Bool
below_fresh n [] = true
below_fresh n (p ∷ ps) = ltb p.handle n && below_fresh n ps

unlink-append :
    (n : ℕ) (ps : List Port) (p : Port)
    → below_fresh n ps ≡ true
    → p.handle ≡ n
    → (find (is_port n) (ps ++ p ∷ []) ≡ some p) × (unlink n (ps ++ p ∷ []) ≡ ps)
unlink-append n [] p h e = (ground (arith, e), ground (arith, e))
unlink-append n (q ∷ ps) p h e =
    let other : is_port n q ≡ false = ground (arith, h) in
    let rest = unlink-append n ps p (ground (arith, h)) e in rw other (rest.0, ap (◌∷◌ q) rest.1)

abbrev new_port : ℤ → ℕ → Ports → Port
new_port fd name s = record { handle = s.fresh; name = name; fd = fd; active_axes = 1 }

abbrev with_port : Port → Ports → Ports
with_port p s = record { all_port_infos = s.all_port_infos ++ p ∷ []; fresh = s.fresh + 1 }

connect_new :
    (fd : ℤ) (name : ℕ) (s : Ports)
    → find (is_named name) s.all_port_infos ≡ none
    → connect_port fd name s ≡ (
        if ltb_ℤ fd (pos 0)
        then (fd, (none, with_port (new_port fd name s) s))
        else (pos 0, (some s.fresh, with_port (new_port fd name s) s)))
unfolding connect_port link_or_open open_port
connect_new fd name s f = ap (link_or_open fd name s) f

disconnect_last :
    (s : Ports) (p : Port)
    → p.handle ≡ s.fresh
    → p.active_axes ≡ 1
    → below_fresh s.fresh s.all_port_infos ≡ true
    → (disconnect_port (some s.fresh) (with_port p s)).all_port_infos ≡ s.all_port_infos
unfolding disconnect_port leave_port
disconnect_last s p e a b =
    let t = unlink-append s.fresh s.all_port_infos p b e in
    let last : (p.active_axes - 1 == 0) ≡ true = ground (arith, a) in
    ap (λ o. (leave_port s.fresh (with_port p s) o).all_port_infos) t.0 ∙ rw last t.1

-- A device that opens a port and is disconnected again leaves the list of ports as it was.
pub disconnect-connect_new :
    (fd : ℤ) (name : ℕ) (s : Ports)
    → find (is_named name) s.all_port_infos ≡ none
    → ltb_ℤ fd (pos 0) ≡ false
    → below_fresh s.fresh s.all_port_infos ≡ true
    → (disconnect_port (connect_port fd name s).1.0 (connect_port fd name s).1.1).all_port_infos
      ≡ s.all_port_infos
disconnect-connect_new fd name s f o b =
    let opened : connect_port fd name s
        ≡ (pos 0, (some s.fresh, with_port (new_port fd name s) s)) =
      connect_new fd name s f ∙ rw o refl in
    ap (λ t. (disconnect_port t.1.0 t.1.1).all_port_infos) opened
    ∙ disconnect_last s (new_port fd name s) refl refl b

find-append :
    (name : ℕ) (ps : List Port) (p : Port)
    → find (is_named name) ps ≡ none
    → p.name ≡ name
    → find (is_named name) (ps ++ p ∷ []) ≡ some p
find-append name [] p h e = ground (arith, e)
find-append name (q ∷ ps) p h e = elim (Bool-cases (is_named name q)) [
  | inl c ↦ ground (arith, h, c)
  | inr c ↦
      let rest : find (is_named name) ps ≡ none = ground (arith, h, c) in
      rw c (find-append name ps p rest e)
]

find-modify :
    (name : ℕ) (ps : List Port) (p : Port)
    → find (is_named name) ps ≡ some p
    → find (is_named name) (modify (is_named name) one_more ps) ≡ some (one_more p)
find-modify name [] p h = cc
find-modify name (q ∷ ps) p h = elim (Bool-cases (is_named name q)) [
  | inl c ↦ ground (arith, h, c)
  | inr c ↦ let rest = find-modify name ps p (ground (arith, h, c)) in ground (arith, c, rest)
]

-- Successive connections to one name; the integers are what opening it gives.
abbrev pub reconnect : List ℤ → ℕ → Ports → Ports
reconnect [] name s = s
reconnect (fd ∷ fds) name s = reconnect fds name (connect_port fd name s).1.1

-- The port that the list has for a name: its handle, its file descriptor and its count of devices.
abbrev pub HasPort : ℕ → ℕ → ℤ → ℕ → Ports → Type 0
HasPort name handle fd axes s =
    find (is_named name) s.all_port_infos
    ≡ some (record { handle = handle; name = name; fd = fd; active_axes = axes })

connect_known :
    (fd : ℤ) (name handle axes : ℕ) (fd' : ℤ) (s : Ports)
    → HasPort name handle fd axes s
    → ((connect_port fd' name s).0 ≡ pos 0)
      × ((connect_port fd' name s).1.0 ≡ some handle)
      × HasPort name handle fd (axes + 1) (connect_port fd' name s).1.1
unfolding connect_port link_or_open
connect_known fd name handle axes fd' s h =
    let port : Port = record { handle = handle; name = name; fd = fd; active_axes = axes } in
    let e : connect_port fd' name s ≡ link_or_open fd' name s (some port) =
      ap (link_or_open fd' name s) h in
    (
      ap (λ t. t.0) e,
      ap (λ t. t.1.0) e,
      ap (λ t. find (is_named name) t.1.1.all_port_infos) e
          ∙ find-modify name s.all_port_infos port h,
    )

reconnect-HasPort :
    (fd : ℤ) (name handle axes : ℕ) (fds : List ℤ) (s : Ports)
    → HasPort name handle fd axes s
    → HasPort name handle fd (axes + length fds) (reconnect fds name s)
reconnect-HasPort fd name handle axes [] s h =
    subst (λ n. HasPort name handle fd n s) {x = axes} (omega arith) h
reconnect-HasPort fd name handle axes (fd' ∷ fds) s h =
    subst (λ n. HasPort name handle fd n (reconnect fds name (connect_port fd' name s).1.1))
      {x = axes + 1 + length fds} (omega arith)
      (reconnect-HasPort fd name handle (axes + 1) fds (connect_port fd' name s).1.1
        (connect_known fd name handle axes fd' s h).2)

-- A port that could not be opened stays in the list, with its failed file descriptor: the first
-- connection fails with the error, links the device to nothing and still counts it. Every later
-- connection to the same name succeeds at once, whatever opening it would give, with that port, which
-- is not open, and is counted on top of the failed one.
pub connect-connect_failed :
    (fd fd' : ℤ) (fds : List ℤ) (name : ℕ) (s : Ports)
    → find (is_named name) s.all_port_infos ≡ none
    → ltb_ℤ fd (pos 0) ≡ true
    → let first = connect_port fd name s in
      let s' = reconnect fds name first.1.1 in
      let last = connect_port fd' name s' in
      (first.0 ≡ fd)
      × (first.1.0 ≡ none)
      × HasPort name s.fresh fd 1 first.1.1
      × (last.0 ≡ pos 0)
      × (last.1.0 ≡ some s.fresh)
      × HasPort name s.fresh fd (2 + length fds) last.1.1
connect-connect_failed fd fd' fds name s f o =
    let s1 = with_port (new_port fd name s) s in
    let failed : connect_port fd name s ≡ (fd, (none, s1)) = connect_new fd name s f ∙ rw o refl in
    let found : HasPort name s.fresh fd 1 (connect_port fd name s).1.1 =
      ap (λ t. find (is_named name) t.1.1.all_port_infos) failed
      ∙ find-append name s.all_port_infos (new_port fd name s) f refl in
    let later = reconnect-HasPort fd name s.fresh 1 fds (connect_port fd name s).1.1 found in
    let last =
      connect_known fd name s.fresh (1 + length fds) fd'
        (reconnect fds name (connect_port fd name s).1.1) later in
    (
      ap (λ t. t.0) failed,
      ap (λ t. t.1.0) failed,
      found,
      last.0,
      last.1,
      subst
          (λ n.
            HasPort name s.fresh fd n
              (connect_port fd' name (reconnect fds name (connect_port fd name s).1.1)).1.1)
          {x = 1 + length fds + 1} (omega arith) last.2,
    )
