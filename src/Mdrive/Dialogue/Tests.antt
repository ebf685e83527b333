-- ===== src/Mdrive/Dialogue/Tests.antt =====
-- The dialogue with a unit at concrete inputs: the result "7" of a query.
use mcontrol.Base.{
  ℕ, ◌≡◌, refl, true, false, some, List, [], ◌∷◌, ◌++◌, arith, ltb, length, replicate, ascii,
  print_int, strtol, pos, negsuc,
}
use mcontrol.Base.Text.{decimal, decimal_loop}
use mcontrol.Base.Text.RoundTrip.{strtol-print_int}
use mcontrol.Mdrive.Checksum.{calc_checksum}
use mcontrol.Mdrive.Response.{Response, blank}
use mcontrol.Mdrive.Classify.{Device, Nested, response_ok, combined, put, text, same}
use mcontrol.Mdrive.Classify.Laws.{classify_response-ack}
use mcontrol.Mdrive.Transaction.{frame_command, count_signs}
use mcontrol.Mdrive.Transaction.Answer.{ends_with}
use mcontrol.Mdrive.Transaction.Laws.{sent_once}
use mcontrol.Mdrive.Transaction.Stale.{expects}
use mcontrol.Mdrive.Dialogue.{Transmit, asking, ask_for, get_integer, get_integers}
use mcontrol.Mdrive.Dialogue.Values.{blanked, get_integers-blanked}
use mcontrol.Mdrive.Dialogue.Line.{c_text, copied, line, get_integer-answered_late}

abbrev ops : Nested
ops = record {
  after_reboot = λ d. d;
  get_error = λ d. (0, d);
  clear_error = λ d. d;
  signal_error = λ code d. d;
}

-- A unit in checksum mode that does not echo.
abbrev unit_b : Device
unit_b = record {
  checksum = 1;
  echo = 1;
  address = b'b';
  party_mode = true;
  ignore_errors = false;
  txnest = 0;
  txid = 5;
  queue = [];
  arrivals = [];
  tx = 0;
  txbytes = 0;
  rx = 0;
  rxbytes = 0;
  acks = 0;
  nacks = 0;
  timeouts = 0;
  resends = 0;
  overflows = 0;
  bad_checksums = 0;
  reboots = 0;
}

abbrev body : List ℕ
body = b'b' ∷ ascii "PR P"

abbrev sent : List ℕ
sent = body ++ calc_checksum body ∷ 10 ∷ []

abbrev ack : Response
ack = record blank { ack = true; txid = 6 }

abbrev payload : Response
payload = record blank {
  buffer = b'7' ∷ replicate 63 0;
  length = 1;
  checksum_good = true;
  crlf = true;
  txid = 6;
}

abbrev whole : Response
whole = combined ack payload

whole_length : whole.length ≡ 1
unfolding combined put text
whole_length = refl

whole_good : whole.checksum_good ≡ true
unfolding combined
whole_good = refl

whole_ack : whole.ack ≡ true
unfolding combined
whole_ack = refl

whole_clean : same (ltb 0 whole.length) whole.checksum_good ≡ true
whole_clean = rw whole_length (rw whole_good refl)

whole_text : c_text whole.buffer ≡ print_int (pos 7)
unfolding combined put text print_int decimal decimal_loop
whole_text = refl

abbrev asked_unit : Device
asked_unit = expects [] (sent_once (length sent) (record unit_b { txnest = 1 }))

framed : frame_command (expects (ack ∷ payload ∷ []) unit_b) asking (ascii "PR P") ≡ some sent
unfolding frame_command
framed = refl

get_integer-answered_late_example :
    get_integer (line ops (λ n. true)) (ascii "P") (expects (ack ∷ payload ∷ []) unit_b)
    ≡ (0, (some (pos 7), (copied unit_b (ends_with whole (count_signs whole asked_unit))).1.1))
get_integer-answered_late_example =
    get_integer-answered_late ops (λ n. true) (ascii "P") sent ack payload [] unit_b whole
      (count_signs whole asked_unit) (pos 7) framed refl (omega arith)
      (record { own = refl; empty = refl; sign = refl; no_code = refl }) refl
      (λ e. absurd (omega (arith, e, whole_length)))
      (classify_response-ack ops (count_signs whole asked_unit) whole (omega arith) whole_clean
        whole_ack)
      whole_text (omega arith, omega arith)

-- A response with the id 0.
abbrev late : Response
late = record blank { crlf = true }

late_framed : frame_command (expects (late ∷ late ∷ []) unit_b) asking (ascii "PR P") ≡ some sent
unfolding frame_command
late_framed = refl

-- A line on which any query is answered by "5 -3".
abbrev answers : Transmit
answers options command d = (response_ok, (print_int (pos 5) ++ blanked (negsuc 2 ∷ []), d))

get_integers-blanked_example :
    get_integers answers (ascii "P") (ascii "V" ∷ []) unit_b ≡ (0, (pos 5 ∷ negsuc 2 ∷ [], unit_b))
get_integers-blanked_example =
    get_integers-blanked answers (ascii "P") (ascii "V" ∷ []) (pos 5) (negsuc 2 ∷ []) unit_b unit_b
      refl ((omega arith, omega arith), ((omega arith, omega arith), tt)) refl

-- The longest command of the driver fits in the buffer of mdrive_get_integers.
longest :
    length (
      ask_for (ascii "A") (
        ascii "D"
        ∷ ascii "VM"
        ∷ ascii "VI"
        ∷ ascii "SF"
        ∷ ascii "RC"
        ∷ ascii "HC"
        ∷ ascii "DB"
        ∷ ascii "P"
        ∷ []))
    ≡ 58
longest = refl

read_back :
    strtol (print_int (negsuc 41) ++ ascii " mm")
    ≡ record { value = negsuc 41; rest = ascii " mm"; errno = 0 }
read_back = strtol-print_int (negsuc 41) (ascii " mm") (omega arith, omega arith) refl
