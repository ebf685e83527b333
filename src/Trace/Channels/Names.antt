-- ===== src/Trace/Channels/Names.antt =====
-- lib/trace.c: the table of channels after any calls of mcTraceChannelInit, and the two searches.
use mcontrol.Base.{
  ℕ, zero, suc, ◌+◌, ◌-◌, ◌≤◌, ◌<◌, ◌≡◌, refl, sym, ap, ap₂, ◌∙◌, inl, inr, true, not, Option, none,
  some, List, [], ◌∷◌, ◌++◌, arith, ltb, if◌then◌else◌, Bool-cases, length, replicate,
  length-append, fit, ℤ, pos, neg, enoent,
}
use mathlib.Core.Option
use mathlib.Core.List.{append-nil, append_assoc}
use mcontrol.Base.Slots.{fill}
use mcontrol.Registry.{str_eq}
use mcontrol.Trace.Channels.{
  Channel, Channels, unused_channel, hashstring, channel_init, lookup_from, channel_lookup,
  name_from, drop, channel_get_name,
}

-- The channels of some names, in their order, with the numbers from `k` on.
abbrev pub entry : ℕ → List ℕ → Channel
entry k name = record { id = k; active = true; name = fit 32 name; hash = hashstring (fit 32 name) }

abbrev pub entries : ℕ → List (List ℕ) → List Channel
entries k [] = []
entries k (name ∷ names) = entry k name ∷ entries (suc k) names

-- The table that holds the channels of some names, of which there is one at least.
abbrev pub channels_of : List (List ℕ) → Channels
channels_of names = record {
  table = entries 1 names ++ replicate (65 - length names) unused_channel;
  count = 0;
  serial = length names;
}

abbrev pub no_channels : Channels
no_channels = record { table = []; count = 0; serial = 0 }

-- Calls of mcTraceChannelInit, one for each name.
abbrev pub init_all : List (List ℕ) → Channels → Option Channels
init_all [] t = some t
init_all (name ∷ names) t = elim (channel_init name t) [
  | none ↦ none
  | some (id, t') ↦ init_all names t'
]

fill_entries :
    (k n : ℕ) (names : List (List ℕ)) (c : Channel)
    → fill (λ x. not x.active) c (entries k names ++ replicate (suc n) unused_channel)
      ≡ some (entries k names ++ c ∷ replicate n unused_channel)
fill_entries k n [] c = refl
fill_entries k n (name ∷ names) c = ground (arith, fill_entries (suc k) n names c)

entries_snoc :
    (k n : ℕ) (names : List (List ℕ)) (name : List ℕ)
    → entries k names ++ entry (k + length names) name ∷ replicate n unused_channel
      ≡ entries k (names ++ name ∷ []) ++ replicate n unused_channel
entries_snoc k n [] name = ap (λ j. entry j name ∷ replicate n unused_channel) (omega arith)
entries_snoc k n (x ∷ names) name = ap (◌∷◌ (entry k x)) (
    ap (λ j. entries (suc k) names ++ entry j name ∷ replicate n unused_channel) (omega arith)
    ∙ entries_snoc (suc k) n names name)

-- The position of the first name that is stored as a text, from `k` on.
abbrev pub position : ℕ → List ℕ → List (List ℕ) → ℤ
position k name [] = neg enoent
position k name (x ∷ names) =
    let rest = position (suc k) name names in if str_eq (fit 32 x) name then pos k else rest

str_eq-eq : (s t : List ℕ) → str_eq s t ≡ true → s ≡ t
str_eq-eq [] [] h = refl
str_eq-eq [] (y ∷ t) h = cc
str_eq-eq (x ∷ s) [] h = cc
str_eq-eq (x ∷ s) (y ∷ t) h = ground (arith, str_eq-eq s t)

lookup_entries :
    (k n : ℕ) (name : List ℕ) (names : List (List ℕ))
    → 1 ≤ k
    → lookup_from (hashstring name) name (entries k names ++ replicate (suc n) unused_channel)
      ≡ some (position k name names)
unfolding lookup_from
lookup_entries k n name [] h = refl
lookup_entries k n name (x ∷ names) h = elim (Bool-cases (str_eq (fit 32 x) name)) [
  | inl e ↦
      ground
        (arith, ap hashstring (str_eq-eq (fit 32 x) name e), lookup_entries (suc k) n name names)
  | inr e ↦ ground (arith, lookup_entries (suc k) n name names)
]

abbrev rest_of : List (List ℕ) → ℕ → List Channel
rest_of names n = entries 1 names ++ replicate n unused_channel

room : (n : ℕ) → n ≤ 64 → 65 - n ≡ suc (64 - n)
room n h = omega arith

channel_lookup_lem :
    (name : List ℕ) (names : List (List ℕ))
    → length names ≤ 64
    → channel_lookup name (channels_of names) ≡ some (position 1 name names)
unfolding channel_lookup
channel_lookup_lem name names h =
    ap (λ n. lookup_from (hashstring name) name (rest_of names n)) (room (length names) h)
    ∙ lookup_entries 1 (64 - length names) name names (omega arith)

name_after :
    (id k n : ℕ) (names : List (List ℕ))
    → id < k
    → name_from id (entries k names ++ replicate (suc n) unused_channel) ≡ some none
unfolding name_from
name_after id k n [] h = refl
name_after id k n (x ∷ names) h = ground (arith, name_after id (suc k) n names)

name_drop :
    (id j k n : ℕ) (names : List (List ℕ))
    → j ≤ length names
    → id < k + j
    → name_from id (drop j (entries k names ++ replicate (suc n) unused_channel)) ≡ some none
name_drop id zero k n names h l = name_after id k n names (omega arith)
name_drop id (suc j) k n [] h l = absurd (omega arith)
name_drop id (suc j) k n (x ∷ names) h l =
    name_drop id j (suc k) n names (omega arith) (omega arith)

channel_get_name_lem :
    (id : ℕ) (names : List (List ℕ))
    → length names ≤ 64
    → channel_get_name id (channels_of names) ≡ some none
unfolding channel_get_name
channel_get_name_lem id names h = elim (Bool-cases (ltb (length names) id)) [
  | inl e ↦ ground arith
  | inr e ↦
      let found : name_from id (drop id (rest_of names (65 - length names))) ≡ some none =
        ap (λ n. name_from id (drop id (rest_of names n))) (room (length names) h)
        ∙ name_drop id id 1 (64 - length names) names (ground arith) (omega arith) in
      ground arith
]

init_next :
    (name x : List ℕ) (names : List (List ℕ))
    → length (x ∷ names) ≤ 64
    → channel_init name (channels_of (x ∷ names))
      ≡ some (pos (length (x ∷ names) + 1), channels_of ((x ∷ names) ++ name ∷ []))
unfolding channel_init
init_next name x names h =
    let n = length (x ∷ names) in
    let c = entry (n + 1) name in
    let same : entry (1 + n) name ≡ c = ap (λ k. entry k name) (omega arith) in
    let after = length-append (x ∷ names) (name ∷ []) in
    let filled : fill (λ y. not y.active) c (rest_of (x ∷ names) (65 - n))
        ≡ some (rest_of ((x ∷ names) ++ name ∷ []) (64 - n)) =
      ap (λ k. fill (λ y. not y.active) c (rest_of (x ∷ names) k)) (room n h)
      ∙ fill_entries 1 (64 - n) (x ∷ names) c
      ∙ ap some (
          ap (λ y. entries 1 (x ∷ names) ++ y ∷ replicate (64 - n) unused_channel) (sym same)
          ∙ entries_snoc 1 (64 - n) (x ∷ names) name) in
    ap
      (Option.map (λ cs.
        let t : Channels = record { table = cs; count = 0; serial = n + 1 } in
        let id : ℤ = pos (n + 1) in (id, t)))
      filled
    ∙ ap some (
        ap₂
          (λ k l.
            let t : Channels = record {
              table = rest_of ((x ∷ names) ++ name ∷ []) k;
              count = 0;
              serial = l;
            } in
            let id : ℤ = pos (n + 1) in (id, t))
          (omega (arith, after)) (sym after))

init_more :
    (x : List ℕ) (names more : List (List ℕ))
    → length (x ∷ names) + length more ≤ 64
    → init_all more (channels_of (x ∷ names)) ≡ some (channels_of ((x ∷ names) ++ more))
init_more x names [] h = ap (λ ns. some (channels_of (x ∷ ns))) (sym (append-nil names))
init_more x names (name ∷ more) h =
    rw (init_next name x names (omega arith), init_all)
      (init_more x (names ++ name ∷ []) more (omega (arith, length-append names (name ∷ []), h))
        ∙ ap (λ ns. some (channels_of (x ∷ ns))) (append_assoc names (name ∷ []) more))

-- Calls of mcTraceChannelInit, 1 to 64, fill the table with their channels in order.
pub init_all_lem :
    (x : List ℕ) (names : List (List ℕ))
    → length (x ∷ names) ≤ 64
    → init_all (x ∷ names) no_channels ≡ some (channels_of (x ∷ names))
unfolding channel_init
init_all_lem x names h = init_more x [] names (omega arith)

-- After 1 to 64 calls of mcTraceChannelInit the lookup of a name finds the number of the first channel
-- whose name, cut off at 31 bytes, is this one, or no entry: the hashes that it compares change
-- nothing.
pub init_all-lookup :
    (name x : List ℕ) (names : List (List ℕ))
    → length (x ∷ names) ≤ 64
    → (t : Channels) × (init_all (x ∷ names) no_channels ≡ some t)
      × (channel_lookup name t ≡ some (position 1 name (x ∷ names)))
init_all-lookup name x names h =
    (channels_of (x ∷ names), init_all_lem x names h, channel_lookup_lem name (x ∷ names) h)

-- After 1 to 64 calls of mcTraceChannelInit, mcTraceChannelGetName finds no name, whatever number it
-- is asked for, also that of a channel: it starts to look one entry behind the channel.
pub init_all-get_name :
    (id : ℕ) (x : List ℕ) (names : List (List ℕ))
    → length (x ∷ names) ≤ 64
    → (t : Channels) × (init_all (x ∷ names) no_channels ≡ some t)
      × (channel_get_name id t ≡ some none)
init_all-get_name id x names h =
    (channels_of (x ∷ names), init_all_lem x names h, channel_get_name_lem id (x ∷ names) h)
