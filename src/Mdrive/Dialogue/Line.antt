-- ===== src/Mdrive/Dialogue/Line.antt =====
-- drivers/mdrive/serial.c: the dialogue over the transactions of mdrive_communicate.
use mcontrol.Base.{
  ℕ, ◌+◌, ◌≡◌, refl, ap, ◌∙◌, ◌≢◌, Bool, true, none, some, List, [], ◌∷◌, ◌++◌, ◌==◌, if◌then◌else◌,
  length, ascii, fit, print_int, strtol, ℤ, pos,
}
use mcontrol.Base.Text.RoundTrip.{IsInt}
use mcontrol.Mdrive.Response.{Response}
use mcontrol.Mdrive.Classify.{
  ResponseClass, response_ok, response_ioerror, Device, Nested, classify_response, combined,
}
use mcontrol.Mdrive.Transaction.{
  SendOpts, Outcome, frame_command, transact, communicate, count_signs,
}
use mcontrol.Mdrive.Transaction.Laws.{sent_once, number_of_tries, communicate-framed}
use mcontrol.Mdrive.Transaction.Stale.{expects, AllStale, transact-stale}
use mcontrol.Mdrive.Transaction.Answer.{ends_with, IsEarly, transact-answered_late}
use mcontrol.Mdrive.Dialogue.{Transmit, asking, integer_of, get_integer}
use mcontrol.Mdrive.Dialogue.Values.{get_integer-print_int}

-- The characters of a buffer before its first zero.
abbrev pub c_text : List ℕ → List ℕ
c_text [] = []
c_text (c ∷ cs) = if c == 0 then [] else c ∷ c_text cs

-- What mdrive_communicate copies to `options->result`, which is zero where there is no response. A
-- command that the buffer cannot hold, where the transaction has no outcome, is none of the driver's.
abbrev pub copied : Device → Outcome → ResponseClass × (List ℕ × Device)
copied d none = (response_ioerror, ([], d))
copied d (some (class, (none, d'))) = (class, ([], d'))
copied d (some (class, (some r, d'))) = (class, (c_text r.buffer, d'))

pub line : Nested → (ℕ → Bool) → Transmit
line ops written options command d = copied d (communicate ops written options command d)

line-framed :
    (ops : Nested) (written : ℕ → Bool) (options : SendOpts) (command sent : List ℕ) (d : Device)
    → frame_command d options command ≡ some sent
    → line ops written options command d ≡ copied d (transact ops written options sent d)
unfolding line
line-framed ops written options command sent d e =
    ap (copied d) (communicate-framed ops written options command sent d e)

abbrev pub ask : List ℕ → List ℕ
ask variable = fit 16 (ascii "PR " ++ variable)

-- mdrive_get_integer over a transaction whose unit acknowledges first and sends the characters
-- later: when both responses carry the transaction's id, their combination is classified as OK, and
-- the characters are those of an int, then the result is that int.
pub get_integer-answered_late :
    (ops : Nested) (written : ℕ → Bool) (variable sent : List ℕ) (a b : Response)
    (rs : List Response) (d : Device) (r' : Response) (d' : Device) (z : ℤ)
    → frame_command (expects (a ∷ b ∷ rs) d) asking (ask variable) ≡ some sent
    → written (d.txid + 1) ≡ true
    → d.echo ≢ 0
    → IsEarly (d.txid + 1) a
    → b.txid ≡ d.txid + 1
    → (combined a b).length ≢ 0
    → classify_response ops
        (count_signs
          (combined a b)
          (expects rs (sent_once (length sent) (record d { txnest = d.txnest + 1 }))))
        (combined a b)
      ≡ (response_ok, (d', r'))
    → c_text r'.buffer ≡ print_int z
    → IsInt z
    → get_integer (line ops written) variable (expects (a ∷ b ∷ rs) d)
      ≡ (0, (some z, (copied d (ends_with r' d')).1.1))
get_integer-answered_late ops written variable sent a b rs d r' d' z f w e early t l h c i =
    get_integer-print_int (line ops written) variable z (expects (a ∷ b ∷ rs) d)
      (copied d (ends_with r' d')).1.1 i
      (line-framed ops written asking (ask variable) sent (expects (a ∷ b ∷ rs) d) f
        ∙ ap (copied (expects (a ∷ b ∷ rs) d))
            (transact-answered_late ops written asking sent a b rs d r' d' w refl e early t l h)
        ∙ ap (λ s. (response_ok, (s, (copied d (ends_with r' d')).1.1))) c)

-- A query of which every try gets only a response of another transaction yields the value 0 with the
-- status 0, though the unit has not answered.
pub get_integer-stale :
    (ops : Nested) (written : ℕ → Bool) (variable sent : List ℕ) (rs : List Response) (d : Device)
    → frame_command (expects rs d) asking (ask variable) ≡ some sent
    → ((n : ℕ) → written n ≡ true)
    → length rs ≡ number_of_tries asking
    → AllStale d.txid rs
    → let r = get_integer (line ops written) variable (expects rs d) in
      ((r.0 ≡ 0) × (r.1.0 ≡ some (pos 0)))
unfolding get_integer integer_of strtol
get_integer-stale ops written variable sent rs d f w l h =
    let t =
      line-framed ops written asking (ask variable) sent (expects rs d) f
      ∙ ap (copied (expects rs d)) (transact-stale ops written asking sent rs d w l h) in
    rw (t) (refl, refl)
