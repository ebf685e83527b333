-- ===== src/Mdrive/Variables/Reading.antt =====
-- drivers/mdrive/query.c: what reading a variable comes to.
use mcontrol.Base.{
  arith, ℕ, ◌≡◌, refl, ap, ◌∙◌, true, false, Option, some, List, ◌++◌, ◌==◌, if◌then◌else◌, ascii,
  fit, print_int, ℤ, eio, einval,
}
use mcontrol.Base.Text.RoundTrip.{IsInt}
use mcontrol.Mdrive.Classify.{Device, response_ok}
use mcontrol.Mdrive.Transaction.{is_ok}
use mcontrol.Mdrive.Dialogue.{Transmit, asking, get_integer, get_string}
use mcontrol.Mdrive.Dialogue.Values.{get_integer-print_int}
use mcontrol.Mdrive.Axis.{Axis, returned, resolution, microrevs_of}
use mcontrol.Mdrive.Axis.Conversion.{to_microrevs_loaded}
use mcontrol.Mdrive.Variables.{
  Name, position, deadband, microcode, Query, Handler, query_xref, profile_value, peeked,
  peek_profile, read_integer, integer_result, read_string, read_by_peek, read_entry, read_variable,
  or_zero,
}

integer_read :
    (transmit : Transmit) (v : List ℕ) (q : Query) (u : Axis) (s : ℤ) (d : Device)
    → get_integer transmit v u.device ≡ (0, (some s, d))
    → read_integer transmit v q u ≡ (0, (record q { number = s }, returned d u))
unfolding read_integer
integer_read transmit v q u s d h =
    ap
      (λ (t : ℕ × (Option ℤ × Device)).
        if t.0 == 0
        then (0, (record q { number = or_zero t.1.0 }, returned t.1.1 u))
        else (eio, (q, returned t.1.1 u)))
      h

same_unit :
    (u : Axis) (d : Device) → d.reboots ≡ u.device.reboots → returned d u ≡ record u { device = d }
same_unit u d h = ground arith

-- Reading the position of a unit whose settings are loaded, and which has not rebooted meanwhile, gives
-- the steps that the unit prints, in micro-revolutions, and changes nothing but what the transaction
-- does.
pub read_variable-position :
    (transmit : Transmit) (others : Name → Handler) (q : Query) (u : Axis) (s : ℤ) (d : Device)
    → u.loaded_encoder ≡ true
    → IsInt s
    → d.reboots ≡ u.device.reboots
    → transmit asking (fit 16 (ascii "PR " ++ ascii "P")) u.device ≡ (response_ok, (print_int s, d))
    → read_variable transmit others (record q { query = position }) u ≡ (
      0,
      (
        record q { query = position; number = microrevs_of (resolution u) s },
        record u { device = d },
      ),
    )
unfolding read_variable read_entry query_xref integer_result
read_variable-position transmit others q u s d l i same h =
    let read =
      integer_read transmit (ascii "P") (record q { query = position }) u s d
        (get_integer-print_int transmit (ascii "P") s u.device d i h)
      ∙ ap (λ v. (0, (record q { query = position; number = s }, v))) (same_unit u d same) in
    ap (integer_result transmit) read
    ∙ ap (λ (t : ℤ × Axis). (0, (record q { query = position; number = t.0 }, t.1)))
        (to_microrevs_loaded transmit s (record u { device = d }) l)

-- A text that cannot be read is a success for the client: when the transaction fails, the status of
-- reading the label at AA is 0, with a size of 65531 for the text that was in the query before.
pub read_variable-unread :
    (transmit : Transmit) (others : Name → Handler) (q : Query) (u : Axis)
    → is_ok (transmit asking (fit 48 (ascii "PR " ++ ascii "AA")) u.device).0 ≡ false
    → let r = read_variable transmit others (record q { query = microcode }) u in
      ((r.0 ≡ 0) × (r.1.0 ≡ record q { query = microcode; size = 65531 }))
unfolding read_variable read_entry query_xref read_string get_string
read_variable-unread transmit others q u h = rw (h) (refl, refl)

-- The dead band stands in the table, and no client can read it: the status is EINVAL.
pub read_variable-deadband :
    (transmit : Transmit) (others : Name → Handler) (q : Query) (u : Axis)
    → (read_variable transmit others (record q { query = deadband }) u).0 ≡ einval
unfolding read_variable read_entry query_xref read_by_peek peek_profile profile_value peeked
read_variable-deadband transmit others q u = refl
