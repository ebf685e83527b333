-- ===== src/Mdrive/Reader/Tests.antt =====
-- The theorems about the reader thread at concrete inputs.
use mcontrol.Base.{ℕ, ◌+◌, ◌≤◌, ◌≡◌, refl, ◌⊎◌, true, false, List, [], ◌∷◌, arith, length}
use mcontrol.Mdrive.Response.{blank}
use mcontrol.Mdrive.Response.Plain.{AllPlain}
use mcontrol.Mdrive.Reader.{Thread, buffer_size, bytes, read_round}
use mcontrol.Mdrive.Reader.Progress.{IsReady, Keeps, AllCalm, read_round-Keeps}
use mcontrol.Mdrive.Reader.Answer.{Queues, transmission, read_round-transmission}

abbrev idle : Thread
idle = record {
  buffer = λ a. 0;
  load = 0;
  process = 0;
  txid = 0;
  response = blank;
  queue = [];
  signalled = [];
}

abbrev twelve : List ℕ
twelve = b'1' ∷ b'2' ∷ []

twelve-AllPlain : AllPlain twelve
twelve-AllPlain = (
  record {
    above = omega arith;
    below = omega arith;
    not_query = omega arith;
    not_prompt = omega arith;
    not_bang = omega arith;
    not_quote = omega arith;
  },
  (
    record {
      above = omega arith;
      below = omega arith;
      not_query = omega arith;
      not_prompt = omega arith;
      not_bang = omega arith;
      not_quote = omega arith;
    },
    tt,
  ),
)

idle-IsReady : IsReady true idle
idle-IsReady = record {
  is_open = refl;
  bounded = omega arith;
  room = omega arith;
  quiet = λ c. (refl, λ a. omega arith);
}

twelve-AllCalm : AllCalm twelve
twelve-AllCalm = (omega arith, (omega arith, tt))

read_round-Keeps_example :
    Keeps true
      ((buffer_size ≤ idle.load + length twelve) ⊎ (true ≡ false))
      (read_round 1 1 (bytes twelve) idle)
read_round-Keeps_example = read_round-Keeps true 1 1 twelve idle idle-IsReady (λ c. twelve-AllCalm)

read_round-transmission_example :
    Queues twelve 1 idle.queue (read_round 1 1 (bytes (transmission twelve)) idle)
read_round-transmission_example =
    read_round-transmission 1 1 twelve idle twelve-AllPlain (omega arith) (omega arith) refl refl
      (omega arith) (omega arith)
