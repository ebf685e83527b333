-- ===== src/Mdrive/Microcode/Files.antt =====
-- drivers/mdrive/microcode.c: what an upload sends of a file, told by the lines that the file is
-- written with.
use mcontrol.Base.{
  ℕ, ◌≤◌, ◌≡◌, refl, ap, subst, ◌∙◌, ◌≢◌, inr, Bool, true, false, not, some, List, [], ◌∷◌, ◌++◌,
  arith, ltb, length, ascii,
}
use mathlib.Core.Option
use mcontrol.Base.Text.{is_space, skip_spaces}
use mcontrol.Mdrive.Transaction.{is_ok}
use mcontrol.Registry.{str_eq}
use mcontrol.Mdrive.Microcode.{
  lines, trim, trim_end, is_skipped, Sender, Upload, after_line, finished, upload, Settings, ended,
  microcode_load,
}
use mcontrol.Mdrive.Microcode.Loading.{sent_all, try_accepted, left, cleared}

-- A character that neither ends a line nor begins a comment, and is not the end of the file.
abbrev pub IsPlain : ℕ → Type 0
IsPlain c = (c ≢ 10) × (c ≢ 13) × (c ≢ 255) × (c ≢ 39)

abbrev pub AllPlain : List ℕ → Type 0
AllPlain [] = Unit {0}
AllPlain (c ∷ cs) = IsPlain c × AllPlain cs

-- Whitespace within a line.
abbrev pub AllSpace : List ℕ → Type 0
AllSpace [] = Unit {0}
AllSpace (c ∷ cs) = IsPlain c × (is_space c ≡ true) × AllSpace cs

abbrev pub begins_bare : List ℕ → Bool
begins_bare [] = false
begins_bare (c ∷ cs) = not (is_space c)

abbrev pub ends_bare : List ℕ → Bool
ends_bare [] = false
ends_bare (c ∷ []) = not (is_space c)
ends_bare (c ∷ d ∷ cs) = ends_bare (d ∷ cs)

-- A line of a file: whitespace, a lone S between whitespace, or a command between whitespace.
pub data Written : Type 0 where
  blank : List ℕ → Written
  lone_s : List ℕ → List ℕ → Written
  command : List ℕ → List ℕ → List ℕ → Written

abbrev pub text_of : Written → List ℕ
text_of (blank spaces) = spaces
text_of (lone_s before after) = before ++ (83 ∷ after)
text_of (command before line after) = before ++ (line ++ after)

abbrev pub IsWritten : Written → Type 0
IsWritten (blank spaces) = AllSpace spaces
IsWritten (lone_s before after) = AllSpace before × AllSpace after
IsWritten (command before line after) =
    AllSpace before
    × AllSpace after
    × AllPlain line
    × (begins_bare line ≡ true)
    × (ends_bare line ≡ true)
    × (str_eq line (83 ∷ []) ≡ false)

abbrev pub AreWritten : List Written → Type 0
AreWritten [] = Unit {0}
AreWritten (e ∷ es) = IsWritten e × (length (text_of e) ≤ 63) × AreWritten es

-- The file, each line with its line feed.
abbrev pub file_of : List Written → List ℕ
file_of [] = []
file_of (e ∷ es) = text_of e ++ (10 ∷ file_of es)

abbrev pub commands_of : List Written → List (List ℕ)
commands_of [] = []
commands_of (blank spaces ∷ es) = commands_of es
commands_of (lone_s before after ∷ es) = commands_of es
commands_of (command before line after ∷ es) = line ∷ commands_of es

space-plain : (cs : List ℕ) → AllSpace cs → AllPlain cs
space-plain [] h = tt
space-plain (c ∷ cs) h = (h.0, space-plain cs h.2)

plain-append : (a b : List ℕ) → AllPlain a → AllPlain b → AllPlain (a ++ b)
plain-append [] b h k = k
plain-append (c ∷ cs) b h k = (h.0, plain-append cs b h.1 k)

text-plain : (e : Written) → IsWritten e → AllPlain (text_of e)
text-plain (blank spaces) h = space-plain spaces h
text-plain (lone_s before after) h =
    plain-append before (83 ∷ after) (space-plain before h.0)
      ((omega arith, omega arith, omega arith, omega arith), space-plain after h.1)
text-plain (command before line after) h =
    plain-append before (line ++ after) (space-plain before h.0)
      (plain-append line after h.2 (space-plain after h.1))

lines-plain :
    (text rest : List ℕ)
    → AllPlain text
    → lines false (text ++ (10 ∷ rest)) ≡ text ∷ lines false rest
unfolding lines
lines-plain [] rest h = refl
lines-plain (c ∷ cs) rest h = ground (arith, lines-plain cs rest h.1)

skip_spaces-append : (a b : List ℕ) → AllSpace a → skip_spaces (a ++ b) ≡ skip_spaces b
unfolding skip_spaces
skip_spaces-append [] b h = refl
skip_spaces-append (c ∷ cs) b h = ground (arith, skip_spaces-append cs b h.2)

skip_spaces-bare :
    (b : List ℕ) (rest : List ℕ) → begins_bare b ≡ true → skip_spaces (b ++ rest) ≡ b ++ rest
unfolding skip_spaces
skip_spaces-bare [] rest h = cc
skip_spaces-bare (c ∷ cs) rest h = ground arith

trim_end-spaces : (b : List ℕ) → AllSpace b → trim_end b ≡ []
unfolding trim_end
trim_end-spaces [] h = refl
trim_end-spaces (c ∷ cs) h = ground (arith, trim_end-spaces cs h.2)

trim_end-append :
    (line after : List ℕ) → ends_bare line ≡ true → AllSpace after → trim_end (line ++ after) ≡ line
unfolding trim_end
trim_end-append [] after e h = cc
trim_end-append (c ∷ []) after e h = ground (arith, trim_end-spaces after h)
trim_end-append (c ∷ d ∷ cs) after e h = rw (trim_end-append (d ∷ cs) after e h) refl

trim-command :
    (before line after : List ℕ)
    → AllSpace before
    → AllSpace after
    → begins_bare line ≡ true
    → ends_bare line ≡ true
    → trim (before ++ (line ++ after)) ≡ line
unfolding trim
trim-command before line after h k b e =
    ap trim_end (skip_spaces-append before (line ++ after) h ∙ skip_spaces-bare line after b)
    ∙ trim_end-append line after e k

skip_spaces-spaces : (a : List ℕ) → AllSpace a → skip_spaces a ≡ []
unfolding skip_spaces
skip_spaces-spaces [] h = refl
skip_spaces-spaces (c ∷ cs) h = ground (arith, skip_spaces-spaces cs h.2)

trim-spaces : (a : List ℕ) → AllSpace a → trim a ≡ []
unfolding trim trim_end
trim-spaces a h = ap trim_end (skip_spaces-spaces a h)

not_skipped :
    (line : List ℕ)
    → begins_bare line ≡ true
    → str_eq line (83 ∷ []) ≡ false
    → is_skipped line ≡ false
not_skipped [] b n = cc
not_skipped (c ∷ cs) b n = ground (arith, n)

module _ {D : Type 0} (send : Sender D) where
  -- The unit takes each of the lines that are sent, as the one before it has left it.
  abbrev pub Takes : List (List ℕ) → Upload D → Type 0
  Takes [] s = Unit {0}
  Takes (line ∷ rest) s =
      (is_ok (send line s.device).0 ≡ true)
      × Takes rest (after_line line s (send line s.device).1.1)

  upload-skipped :
      (text : List ℕ) (texts : List (List ℕ)) (s : Upload D)
      → length text ≤ 63
      → is_skipped (trim text) ≡ true
      → upload send (text ∷ texts) s ≡ upload send texts s
  unfolding upload
  upload-skipped text texts s f e =
      let fits : ltb 63 (length text) ≡ false = ground (arith, f) in rw (fits, e) refl

  upload-trimmed :
      (text : List ℕ) (texts : List (List ℕ)) (s : Upload D)
      → length text ≤ 63
      → is_skipped (trim text) ≡ false
      → is_ok (send (trim text) s.device).0 ≡ true
      → upload send (text ∷ texts) s
        ≡ upload send texts (after_line (trim text) s (send (trim text) s.device).1.1)
  unfolding upload
  upload-trimmed text texts s f e ok =
      let fits : ltb 63 (length text) ≡ false = ground (arith, f) in
      rw (fits, e) (rw (try_accepted send (trim text) s.device ok) refl)

  upload-sent :
      (text line : List ℕ) (texts : List (List ℕ)) (s : Upload D)
      → length text ≤ 63
      → trim text ≡ line
      → is_skipped line ≡ false
      → is_ok (send line s.device).0 ≡ true
      → upload send (text ∷ texts) s
        ≡ upload send texts (after_line line s (send line s.device).1.1)
  upload-sent text line texts s f t =
      subst
        (λ l.
          is_skipped l ≡ false
          → is_ok (send l s.device).0 ≡ true
          → upload send (text ∷ texts) s ≡ upload send texts (after_line l s (send l s.device).1.1))
        t (upload-trimmed text texts s f)

  upload_nothing : (s : Upload D) → upload send (lines false []) s ≡ some (finished s)
  unfolding upload lines trim skip_spaces trim_end
  upload_nothing s = refl

  upload-file_of :
      (es : List Written) (s : Upload D)
      → AreWritten es
      → Takes (commands_of es) s
      → upload send (lines false (file_of es)) s
        ≡ some (finished (sent_all send (commands_of es) s))
  upload-file_of [] s w t = upload_nothing s
  upload-file_of (e ∷ es) s w t =
      ap (λ ls. upload send ls s) (lines-plain (text_of e) (file_of es) (text-plain e w.0))
      ∙ by_line e w.0 w.1 t (λ r k. upload-file_of es r w.2 k)
    where
      by_line :
          (e : Written)
          → IsWritten e
          → length (text_of e) ≤ 63
          → Takes (commands_of (e ∷ es)) s
          → ((r : Upload D)
              → Takes (commands_of es) r
              → upload send (lines false (file_of es)) r
                ≡ some (finished (sent_all send (commands_of es) r)))
          → upload send (text_of e ∷ lines false (file_of es)) s
            ≡ some (finished (sent_all send (commands_of (e ∷ es)) s))
      by_line (blank spaces) h f t rest =
          upload-skipped spaces (lines false (file_of es)) s f
            (ap is_skipped (trim-spaces spaces h))
          ∙ rest s t
      by_line (lone_s before after) h f t rest =
          upload-skipped (before ++ (83 ∷ after)) (lines false (file_of es)) s f
            (ap is_skipped (trim-command before (83 ∷ []) after h.0 h.1 refl refl))
          ∙ rest s t
      by_line (command before line after) h f t rest =
          upload-sent (before ++ (line ++ after)) line (lines false (file_of es)) s f
            (trim-command before line after h.0 h.1 h.3 h.4) (not_skipped line h.3 h.5) t.0
          ∙ rest (after_line line s (send line s.device).1.1) t.1

module _ {D : Type 0} (settings : Settings D) (send : Sender D) where
  pub microcode_load-file_of :
      (es : List Written) (d : D)
      → AreWritten es
      → (settings.rollback d).0 ≡ true
      → is_ok (send (ascii "CP") (settings.rollback d).1).0 ≡ true
      → Takes send (commands_of es) (cleared settings send d)
      → let s = left settings (sent_all send (commands_of es) (cleared settings send d)) in
        (settings.commit s.preserve s.device).0 ≡ true
        → microcode_load settings send (inr (file_of es)) d
          ≡ some (0, (settings.commit s.preserve s.device).1)
  unfolding microcode_load ended
  microcode_load-file_of es d w rolled clears takes saves =
      rw (rolled, clears)
        (ap (Option.map (ended settings)) (upload-file_of send es (cleared settings send d) w takes)
          ∙ ap some (rw (saves) refl))
