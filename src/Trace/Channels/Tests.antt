-- ===== src/Trace/Channels/Tests.antt =====
-- The channels of lib/trace.c at concrete inputs, and a remote subscription in a table of two.
use mcontrol.Base.{◌≡◌, refl, false, none, some, [], ◌∷◌, arith, ascii, pos}
use mcontrol.Trace.{Subscriber, Subscribers}
use mcontrol.Trace.Channels.{Channels, hashstring, channel_lookup, channel_get_name, channel_bit}
use mcontrol.Trace.Channels.Names.{no_channels, init_all, init_all-lookup, init_all-get_name}
use mcontrol.Trace.Channels.Remote.{remote}

hash_of_a : hashstring (ascii "a") ≡ 177670
unfolding hashstring
hash_of_a = refl

-- The 32nd channel sets the bits of all channels from 32 on.
bit_32 : channel_bit (pos 32) ≡ some 18446744071562067968
unfolding channel_bit
bit_32 = refl

init_all-lookup_example :
    (t : Channels) × (init_all (ascii "lib" ∷ ascii "mdrive" ∷ []) no_channels ≡ some t)
    × (channel_lookup (ascii "mdrive") t ≡ some (pos 2))
init_all-lookup_example =
    init_all-lookup (ascii "mdrive") (ascii "lib") (ascii "mdrive" ∷ []) (omega arith)

init_all-get_name_example :
    (t : Channels) × (init_all (ascii "lib" ∷ ascii "mdrive" ∷ []) no_channels ≡ some t)
    × (channel_get_name 1 t ≡ some none)
init_all-get_name_example = init_all-get_name 1 (ascii "lib") (ascii "mdrive" ∷ []) (omega arith)

abbrev empty_entry : Subscriber
empty_entry = record {
  id = 0;
  active = false;
  callback = none;
  level = pos 0;
  channels = 0;
  pid = 0;
}

abbrev subscribers : Subscribers
subscribers = record { table = remote 7 1 (pos 5) ∷ empty_entry ∷ []; count = pos 1; serial = 1 }
