-- ===== src/Mdrive/Microcode/Tests.antt =====
-- The upload of microcode to a unit that takes every line and keeps the lines, the last one first;
-- and the functions of config.c in the place of its settings.
use mcontrol.Base.{
  ℕ, ◌+◌, ◌≡◌, refl, inr, true, false, none, some, print_int, strtol, List, [], ◌∷◌, ◌++◌, arith,
  ascii,
}
use mcontrol.Mdrive.Classify.{response_ok, Device}
use mcontrol.Mdrive.Dialogue.{Transmit, send_text}
use mcontrol.Mdrive.Config
use mcontrol.Mdrive.Config.{ConfigFlags}
use mcontrol.Mdrive.Microcode.{lines, Sender, Upload, finished, upload, Settings, microcode_load}
use mcontrol.Mdrive.Microcode.Comments.{microcode_load-comment}
use mcontrol.Mdrive.Microcode.Inspection.{
  Features, Asker, take_answer, microcode_inspect, labelled, microcode_inspect-printed,
}
use mcontrol.Mdrive.Microcode.Loading.{sent_all, cleared, left, microcode_load-succeeded}
use mcontrol.Mdrive.Microcode.Files.{
  Written, blank, lone_s, command, commands_of, file_of, microcode_load-file_of,
}

abbrev config_settings : Transmit → Settings Device
config_settings transmit = record {
  rollback = Config.rollback transmit;
  commit = Config.commit transmit;
  send_text = send_text transmit;
}

abbrev keeps : Sender (List (List ℕ))
keeps line d = (response_ok, (0, line ∷ d))

abbrev settings : Settings (List (List ℕ))
settings = record {
  rollback = λ d. (true, d);
  commit = λ flags d. (true, ascii "S" ∷ d);
  send_text = λ line d. (response_ok, line ∷ d);
}

abbrev file : List ℕ
file = ascii "VA X=1 " ++ 39 ∷ ascii "count" ++ 10 ∷ (ascii " S " ++ 10 ∷ ascii "PG 1")

microcode_load-comment_example :
    microcode_load settings keeps (inr file) []
    ≡ microcode_load settings keeps
        (inr (ascii "VA X=1 " ++ 10 ∷ (ascii " S " ++ 10 ∷ ascii "PG 1")))
        []
microcode_load-comment_example =
    microcode_load-comment settings keeps (ascii "VA X=1 ") (ascii "count")
      (ascii " S " ++ 10 ∷ ascii "PG 1") [] (omega arith)

abbrev written : List Written
written =
    command [] (ascii "VA X=1") (32 ∷ [])
    ∷ lone_s (32 ∷ []) (32 ∷ [])
    ∷ blank (9 ∷ [])
    ∷ command [] (ascii "PG 1") []
    ∷ []

abbrev sent : Upload (List (List ℕ))
sent = left settings (sent_all keeps (commands_of written) (cleared settings keeps []))

microcode_load-file_of_example :
    microcode_load settings keeps (inr (file_of written)) []
    ≡ some (0, (settings.commit sent.preserve sent.device).1)
microcode_load-file_of_example =
    microcode_load-file_of settings keeps written [] (ground arith) refl refl (refl, (refl, tt))
      refl

microcode_load-succeeded_example :
    (s : Upload (List (List ℕ))) × (upload keeps
        (lines false (file_of written))
        (cleared settings keeps [])
      ≡ some (finished s))
    × (settings.commit (left settings s).preserve (left settings s).device
        ≡ (true, (settings.commit sent.preserve sent.device).1))
microcode_load-succeeded_example =
    microcode_load-succeeded settings keeps (file_of written) []
      (settings.commit sent.preserve sent.device).1 microcode_load-file_of_example

abbrev unlabelled : Features
unlabelled = record {
  version = 0;
  following_error = false;
  move = false;
  label_move = [];
  label_following_error = [];
}

abbrev answers : Asker ℕ
answers text d = (response_ok, (0, (ascii "258 MV -", d + 1)))

microcode_inspect-printed_example :
    microcode_inspect answers 97 4 unlabelled
    ≡ (some (0, labelled 258 (ascii "MV") (ascii "-") unlabelled), 5)
unfolding print_int
microcode_inspect-printed_example =
    microcode_inspect-printed answers 97 0 258 (ascii "MV") (ascii "-") 4 5 unlabelled (omega arith)
      refl (omega arith) (omega arith) (omega arith) (omega arith) (omega arith)

-- An answer of a version alone: the code goes on behind its end.
version_alone : take_answer (ascii "1") unlabelled ≡ none
unfolding take_answer strtol
version_alone = refl
