-- ===== src/Trace/Dump.antt =====
-- lib/trace.c: mcTraceBuffer, which delivers bytes as lines of 16: their hexadecimal numbers, then
-- the printable characters. The text is what the code writes, also where that is more than its
-- buffer of 512 holds: the size that it hands to snprintf grows with what is written.
use mcontrol.Base.{
  ℕ, ◌+◌, ◌-◌, ◌*◌, ◌/◌, ◌%◌, ◌≤◌, ◌<◌, ◌≡◌, refl, ◌↔◌, ◌⊎◌, inl, inr, Bool, true, false, not, ◌&&◌,
  ◌||◌, List, [], ◌∷◌, ◌++◌, arith, ltb, leb, ◌==◌, if◌then◌else◌, of_bool, leb→le, Bool-cases,
  length, replicate, length-append, length-replicate, ℤ,
}
use mcontrol.Trace.{Subscribers, Delivery, subscribers_lookup, write}

abbrev pub hex_digit : ℕ → ℕ
hex_digit n = if ltb n 10 then 48 + n else 87 + n

-- "%02x "
abbrev pub hex_byte : ℕ → List ℕ
hex_byte b = hex_digit (b / 16) ∷ hex_digit (b % 16) ∷ 32 ∷ []

-- A char is signed: from 128 on it is below 0.
abbrev pub ascii_of : ℕ → ℕ
ascii_of b = if ltb 31 b && ltb b 128 then b else 46

-- "%-48s" and "%-16s"
abbrev pub padded : ℕ → List ℕ → List ℕ
padded width s = s ++ replicate (width - length s) 32

-- A line, with a newline before it if it is not the first.
abbrev pub flushed : List ℕ → List ℕ → List ℕ → List ℕ
flushed [] raw chars = padded 48 raw ++ 32 ∷ padded 16 chars
flushed (c ∷ out) raw chars = (c ∷ out) ++ 10 ∷ (padded 48 raw ++ 32 ∷ padded 16 chars)

abbrev pub is_empty : List ℕ → Bool
is_empty [] = true
is_empty (b ∷ bs) = false

-- The loop of mcTraceBuffer, with what stands in `raw`, `ascii` and `buf`.
unfoldable pub dump_loop : List ℕ → List ℕ → List ℕ → List ℕ → List ℕ
dump_loop [] raw chars out = out
dump_loop (b ∷ bs) raw chars out =
    let raw' = raw ++ hex_byte b in
    let chars' = chars ++ ascii_of b ∷ [] in
    let next = dump_loop bs [] [] (flushed out raw' chars') in
    let more = dump_loop bs raw' chars' out in
    if is_empty bs || leb 16 (length chars') then next else more

abbrev pub dump : List ℕ → List ℕ
dump bytes = dump_loop bytes [] [] []

-- mcTraceBuffer: what is delivered, the text, and the table.
pub trace_buffer :
    (ℕ → Bool) → ℤ → ℕ → List ℕ → Subscribers → List Delivery × (List ℕ × Subscribers)
trace_buffer gone level channel bytes t =
    let mask = subscribers_lookup level channel t in
    let (deliveries, table) = write gone mask t.table in
    if is_empty bytes || mask == 0
    then ([], ([], t))
    else (deliveries, (dump bytes, record t { table = table }))

length-padded : (width : ℕ) (s : List ℕ) → length s ≤ width → length (padded width s) ≡ width
length-padded width s h = omega (
  arith,
  length-append s (replicate (width - length s) 32),
  length-replicate {A = ℕ} (width - length s) 32,
)

abbrev new_line : List ℕ → ℕ
new_line out = of_bool (not (is_empty out))

new_line-le : (out : List ℕ) → new_line out ≤ 1
new_line-le [] = omega arith
new_line-le (c ∷ out) = omega arith

length-line :
    (raw chars : List ℕ)
    → length raw ≤ 48
    → length chars ≤ 16
    → length (padded 48 raw ++ 32 ∷ padded 16 chars) ≡ 65
length-line raw chars h k = omega (
  arith,
  length-append (padded 48 raw) (32 ∷ padded 16 chars),
  length-padded 48 raw h,
  length-padded 16 chars k,
)

length-flushed :
    (out raw chars : List ℕ)
    → length raw ≤ 48
    → length chars ≤ 16
    → length (flushed out raw chars) ≡ length out + new_line out + 65
length-flushed [] raw chars h k = length-line raw chars h k
length-flushed (c ∷ out) raw chars h k = omega (
  arith,
  length-append (c ∷ out) (10 ∷ (padded 48 raw ++ 32 ∷ padded 16 chars)),
  length-line raw chars h k,
)

flushed-ne :
    (out raw chars : List ℕ)
    → length raw ≤ 48
    → length chars ≤ 16
    → new_line (flushed out raw chars) ≡ 1
flushed-ne out raw chars h k =
    nonempty (flushed out raw chars) (omega (arith, length-flushed out raw chars h k))
  where
    nonempty : (s : List ℕ) → 1 ≤ length s → new_line s ≡ 1
    nonempty [] q = absurd (omega arith)
    nonempty (x ∷ s) q = refl

is_full : List ℕ → List ℕ → ℕ → Bool
is_full bs chars b = is_empty bs || leb 16 (length (chars ++ ascii_of b ∷ []))

module _ (b : ℕ) (bs raw chars out : List ℕ) where
  dump_next :
      is_full bs chars b ≡ true
      → dump_loop (b ∷ bs) raw chars out
        ≡ dump_loop bs [] [] (flushed out (raw ++ hex_byte b) (chars ++ ascii_of b ∷ []))
  unfolding dump_loop is_full
  dump_next h = rw h refl

  dump_more :
      is_full bs chars b ≡ false
      → dump_loop (b ∷ bs) raw chars out
        ≡ dump_loop bs (raw ++ hex_byte b) (chars ++ ascii_of b ∷ []) out
  unfolding dump_loop is_full
  dump_more h = rw h refl

  length_next : length (chars ++ ascii_of b ∷ []) ≡ length chars + 1
  length_next = length-append chars (ascii_of b ∷ [])

  raw_next :
      length raw ≡ 3 * length chars
      → length (raw ++ hex_byte b) ≡ 3 * length (chars ++ ascii_of b ∷ [])
  raw_next h = omega (arith, length-append raw (hex_byte b), length_next)

  when_full : is_full bs chars b ≡ true → length chars < 16 → (length bs ≡ 0) ⊎ (length chars ≡ 15)
  unfolding is_full
  when_full h k = full bs h
    where
      full :
          (cs : List ℕ)
          → (is_empty cs || leb 16 (length (chars ++ ascii_of b ∷ []))) ≡ true
          → (length cs ≡ 0) ⊎ (length chars ≡ 15)
      full [] q = inl refl
      full (c ∷ cs) q =
          inr (omega (arith, leb→le 16 (length (chars ++ ascii_of b ∷ [])) q, length_next))

  when_more : is_full bs chars b ≡ false → (1 ≤ length bs) × (length chars < 15)
  unfolding is_full
  when_more h = more bs h
    where
      more :
          (cs : List ℕ)
          → (is_empty cs || leb 16 (length (chars ++ ascii_of b ∷ []))) ≡ false
          → (1 ≤ length cs) × (length chars < 15)
      more [] q = cc
      more (c ∷ cs) q = (omega arith, ground (arith, length_next))

-- What the loop adds: 66 for each line, but for the newline that the first one lacks.
length-dump_loop :
    (bs raw chars out : List ℕ)
    → length raw ≡ 3 * length chars
    → length chars < 16
    → length chars ≤ 16 * length bs
    → 1 ≤ length bs + new_line out
    → length (dump_loop bs raw chars out) + 1
      ≡ length out + new_line out + 66 * ((length chars + length bs + 15) / 16)
length-dump_loop [] raw chars out h k n l = unfold dump_loop in omega (arith, new_line-le out)
length-dump_loop (b ∷ bs) raw chars out h k n l =
    let raw' = raw ++ hex_byte b in
    let chars' = chars ++ ascii_of b ∷ [] in
    let out' = flushed out raw' chars' in
    let size = length_next b bs raw chars out in
    let hex = raw_next b bs raw chars out h in
    elim (Bool-cases (is_full bs chars b)) [
      | inl e ↦
          let line = flushed-ne out raw' chars' (omega arith) (omega arith) in
          let rest =
            length-dump_loop bs [] [] out' refl (omega arith) (omega arith) (omega arith) in
          let added = length-flushed out raw' chars' (omega arith) (omega arith) in
          rw (dump_next b bs raw chars out e)
            (elim (when_full b bs raw chars out e k) [ inl z ↦ omega arith | inr z ↦ omega arith ])
      | inr e ↦
          let w = when_more b bs raw chars out e in
          let rest =
            length-dump_loop bs raw' chars' out hex (omega arith) (omega arith) (omega arith) in
          rw (dump_more b bs raw chars out e) (omega arith)
    ]

-- The text of a trace of n bytes, n not 0, has 66 characters for each 16 bytes or part of them, less
-- one. With the zero behind it, it fits the buffer of 512 exactly if there are at most 112 bytes;
-- for more, mcTraceBuffer writes behind its buffer.
pub dump_fits :
    (bytes : List ℕ)
    → 1 ≤ length bytes
    → (length (dump bytes) + 1 ≡ 66 * ((length bytes + 15) / 16))
      × (length (dump bytes) + 1 ≤ 512 ↔ length bytes ≤ 112)
dump_fits bytes h =
    let size = length-dump_loop bytes [] [] [] refl (omega arith) (omega arith) (omega arith) in
    (omega arith, (λ k. omega arith, λ k. omega arith))
