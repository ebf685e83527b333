-- ===== src/Mdrive/Microcode/Loading.antt =====
-- drivers/mdrive/microcode.c: what the success of an upload means.
use mcontrol.Base.{
  ℕ, zero, suc, ◌≡◌, refl, ◌≢◌, inr, Bool, true, false, not, Option, none, some, List, [], ◌∷◌,
  arith, ltb, ◌==◌, if◌then◌else◌, if_cases, length, ascii, eio,
}
use mathlib.Core.Option
use mcontrol.Mdrive.Transaction.{is_ok}
use mcontrol.Mdrive.Config.{nothing}
use mcontrol.Mdrive.Microcode.{
  lines, trim, starts_with, contains, behind, mdrive_eclobber, is_skipped, Sender, Sent, accepted,
  failed, clobbered, try_line, Upload, after_line, Ended, finished, bailed, upload, Settings, bail,
  ended, microcode_load,
}

module _ {D : Type 0} (send : Sender D) where
  -- Each of the lines sent once, in order.
  abbrev pub sent_all : List (List ℕ) → Upload D → Upload D
  sent_all [] s = s
  sent_all (line ∷ rest) s = sent_all rest (after_line line s (send line s.device).1.1)

  pub try_accepted :
      (line : List ℕ) (d : D)
      → is_ok (send line d).0 ≡ true
      → try_line send 2 line d ≡ accepted (send line d).1.1
  unfolding try_line
  try_accepted line d h = rw h refl

  -- A status that gives up an upload is an error.
  abbrev Fails : Sent D → Type 0
  Fails (accepted d) = Unit {0}
  Fails (failed status d) = status ≢ 0

  clobbered-Fails : (line : List ℕ) (d : D) → Fails (clobbered send line d)
  unfolding clobbered
  clobbered-Fails line d =
      if_cases Fails (not (starts_with (ascii "VA ") line)) _ _ (λ e. omega arith)
        (λ e.
          if_cases Fails (not (contains b'=' line)) _ _ (λ e. tt)
            (λ e.
              if_cases Fails (is_ok (send (behind 3 line) d).0) _ _ (λ e. tt) (λ e. omega arith)))

  try-Fails : (tries : ℕ) (line : List ℕ) (d : D) → Fails (try_line send tries line d)
  unfolding try_line
  try-Fails zero line d = tt
  try-Fails (suc tries) line d =
      let (class, (code, d')) = send line d in
      if_cases Fails (is_ok class) _ _ (λ e. tt)
        (λ e.
          if_cases Fails (code == mdrive_eclobber) _ _ (λ e. clobbered-Fails line d')
            (λ e.
              if_cases Fails (tries == 0) _ _
                (λ e.
                  if_cases (λ status. status ≢ 0) (code == 0) _ _ (λ e. omega arith)
                    (λ e. ground arith))
                (λ e. try-Fails tries line d')))

  -- What an upload can end with.
  abbrev EndsWell : Option (Ended D) → Type 0
  EndsWell none = Unit {0}
  EndsWell (some (finished s)) = Unit {0}
  EndsWell (some (bailed status s)) = status ≢ 0

  upload-EndsWell : (texts : List (List ℕ)) (s : Upload D) → EndsWell (upload send texts s)
  unfolding upload
  upload-EndsWell [] s = tt
  upload-EndsWell (text ∷ texts) s =
      if_cases EndsWell (ltb 63 (length text)) _ _ (λ e. tt)
        (λ e.
          if_cases EndsWell (is_skipped (trim text)) _ _ (λ e. upload-EndsWell texts s)
            (λ e.
              by_sent (λ d. upload-EndsWell texts (after_line (trim text) s d))
                (try_line send 2 (trim text) s.device) (try-Fails 2 (trim text) s.device)))
    where
      by_sent :
          ((d : D) → EndsWell (upload send texts (after_line (trim text) s d)))
          → (r : Sent D) → Fails r
          → EndsWell (elim r as (λ x. Option (Ended D)) [
            | accepted d ↦ upload send texts (after_line (trim text) s d)
            | failed status d ↦ some (bailed status (record s { device = d }))
          ])
      by_sent rest (accepted d) f = rest d
      by_sent rest (failed status d) f = f

no_error :
    {D : Type 0} (status : ℕ) (x d' : D)
    → status ≢ 0
    → ◌≢◌ {A = Option (ℕ × D)} (some (status, x)) (some (0, d'))
no_error status x d' n q = n (ground arith)

module _ {D : Type 0} (settings : Settings D) where
  -- The unit behind the PG that leaves program mode, where it was in it.
  abbrev pub left : Upload D → Upload D
  left s =
      if s.programming
      then record s {
        programming = not (is_ok (settings.send_text (ascii "PG") s.device).0);
        device = (settings.send_text (ascii "PG") s.device).1;
      }
      else s

  saved :
      (c : Bool × D) (s : Upload D) (d' : D)
      → ◌≡◌ {A = Option (ℕ × D)}
          (some (if c.0 then (0, c.1) else bail settings eio (record s { device = c.1 })))
          (some (0, d'))
      → c ≡ (true, d')
  unfolding bail
  saved (true, x) s d' h = ground arith
  saved (false, x) s d' h = absurd (no_error eio _ d' (omega arith) h)

module _ {D : Type 0} (settings : Settings D) (send : Sender D) where
  -- The unit behind the clearing of its microcode.
  abbrev pub cleared : D → Upload D
  cleared d = record {
    preserve = nothing;
    programming = false;
    device = (send (ascii "CP") (settings.rollback d).1).1.1;
  }

  finished_ended :
      (o : Option (Ended D)) (d' : D)
      → EndsWell send o
      → Option.map (ended settings) o ≡ some (0, d')
      → (s : Upload D) × (o ≡ some (finished s))
        × (settings.commit (left settings s).preserve (left settings s).device ≡ (true, d'))
  unfolding ended bail
  finished_ended none d' w h = cc
  finished_ended (some (bailed status s)) d' w h = absurd (w (ground arith))
  finished_ended (some (finished s)) d' w h = (
    s,
    refl,
    saved settings (settings.commit (left settings s).preserve (left settings s).device)
        (left settings s) d' h,
  )

  -- When mdrive_microcode_load returns 0 for a file, the upload has come to the end of the file without
  -- giving up at a line, and the settings were saved behind it.
  pub microcode_load-succeeded :
      (file : List ℕ) (d d' : D)
      → microcode_load settings send (inr file) d ≡ some (0, d')
      → (s : Upload D) × (upload send (lines false file) (cleared d) ≡ some (finished s))
        × (settings.commit (left settings s).preserve (left settings s).device ≡ (true, d'))
  unfolding microcode_load
  microcode_load-succeeded file d d' h =
      let loaded = upload send (lines false file) (cleared d) in
      let Goal : Type 0 =
        (s : Upload D) × (upload send (lines false file) (cleared d) ≡ some (finished s))
        × (settings.commit (left settings s).preserve (left settings s).device ≡ (true, d')) in
      if_cases {A = Option (ℕ × D)} (λ o. o ≡ some (0, d') → Goal) (not (settings.rollback d).0) _ _
        (λ e q. absurd (no_error eio _ d' (omega arith) q))
        (λ e.
          if_cases {A = Option (ℕ × D)} (λ o. o ≡ some (0, d') → Goal)
            (not (is_ok (send (ascii "CP") (settings.rollback d).1).0)) _ _
            (λ e q. absurd (no_error eio _ d' (omega arith) q))
            (λ e q.
              finished_ended loaded d' (upload-EndsWell send (lines false file) (cleared d)) q))
        h
