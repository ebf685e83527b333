-- ===== src/Mdrive/Response/Tests.antt =====
-- The reader of drivers/mdrive/serial.c on the answer "12" of a unit in checksum mode.
use mcontrol.Base.{ℕ, refl, inl, List, [], ◌∷◌, get_or, arith}
use mcontrol.Mdrive.Checksum.{calc_checksum, sum_bytes}
use mcontrol.Mdrive.Response.{Memory, blank, process_response}
use mcontrol.Mdrive.Response.Bounds.{IsBounded, process-IsBounded}
use mcontrol.Mdrive.Response.Frame.{HasFrame, IsRead, process_response-HasFrame}

abbrev line : Memory
line a = get_or (6 ∷ b'1' ∷ b'2' ∷ 157 ∷ 13 ∷ 10 ∷ []) a 0

abbrev answer : List ℕ
answer = b'1' ∷ b'2' ∷ []

line-HasFrame : HasFrame line 0 answer
unfolding calc_checksum sum_bytes
line-HasFrame = record {
  ack = refl;
  characters = (refl, (refl, tt));
  plain = (
    record {
      above = omega arith;
      below = omega arith;
      not_query = omega arith;
      not_prompt = omega arith;
      not_bang = omega arith;
      not_quote = omega arith;
    },
    (
      record {
        above = omega arith;
        below = omega arith;
        not_query = omega arith;
        not_prompt = omega arith;
        not_bang = omega arith;
        not_quote = omega arith;
      },
      tt,
    ),
  );
  checksum = refl;
  carriage_return = refl;
  line_feed = refl;
  next = record { not_prompt = omega arith; not_query = omega arith; not_ack = omega arith };
}

process_response-HasFrame_example : IsRead answer (process_response line 0 blank 6)
process_response-HasFrame_example =
    process_response-HasFrame line 0 answer line-HasFrame (omega arith) (omega arith)

process-IsBounded_example : IsBounded (process_response line 0 blank 6).1
process-IsBounded_example = process-IsBounded line 0 6 blank (inl (omega arith))
