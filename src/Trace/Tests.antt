-- ===== src/Trace/Tests.antt =====
-- The tracing of lib/trace.c with two subscribers.
use mcontrol.Base.{◌+◌, ◌≤◌, ◌≡◌, refl, ◌↔◌, true, none, some, [], ◌∷◌, arith, length, ascii, pos}
use mcontrol.Base.Int.{◌-ℤ◌, pos}
use mcontrol.Trace.Dump.{dump, dump_loop, dump_fits}
use mcontrol.Trace.{Subscriber, Subscribers, trace, trace_unsubscribe, unsubscribe_loop}
use mcontrol.Trace.Exact.{reached, all_after, trace_lem}

abbrev local : Subscriber
local = record { id = 1; active = true; callback = some 9; level = pos 20; channels = 3; pid = 0 }

abbrev remote : Subscriber
remote = record { id = 2; active = true; callback = none; level = pos 50; channels = 2; pid = 77 }

abbrev pair : Subscribers
pair = record { table = local ∷ remote ∷ []; count = pos 2; serial = 2 }

trace_lem_example : trace (λ pid. true) (pos 10) 2 pair ≡ (
  reached (pos 10) 2 pair.table,
  record pair { table = all_after (λ pid. true) (pos 10) 2 pair.table },
)
trace_lem_example = trace_lem (λ pid. true) (pos 10) 2 pair (omega arith) refl

-- Removing a subscriber twice counts it twice.
removed_twice : (trace_unsubscribe 1 (trace_unsubscribe 1 pair).1).1.count ≡ pos 0
unfolding trace_unsubscribe unsubscribe_loop ◌-ℤ◌
removed_twice = refl

dumped :
    dump (ascii "aMR 1") ≡ ascii "61 4d 52 20 31                                   aMR 1           "
unfolding dump_loop
dumped = refl

dump_fits_example :
    (length (dump (ascii "aMR 1")) + 1 ≡ 66) × (length (dump (ascii "aMR 1")) + 1 ≤ 512 ↔ 5 ≤ 112)
dump_fits_example = dump_fits (ascii "aMR 1") (omega arith)
