-- ===== src/Mdrive/Response/Plain.antt =====
-- The plain characters that mdrive_process_response of drivers/mdrive/serial.c stores.
use Prim.Native.Nat.{bit_and}
use mcontrol.Base.{
  ℕ, zero, suc, ◌+◌, ◌≤◌, ◌<◌, ◌≡◌, refl, sym, ap, ap₂, ◌∙◌, subst, ◌≢◌, Bool, false, ◌&&◌, List,
  [], ◌∷◌, ◌++◌, arith, ◌==◌, length, set, take, length-set,
}
use mcontrol.Mdrive.Checksum.Laws.{and_128}
use mcontrol.Mdrive.Response.{
  Response, Memory, slice, store_char, normal_char, default_char, step, loop,
}

-- The bytes of memory from an address on.
abbrev pub Reads : Memory → ℕ → List ℕ → Type 0
Reads mem a [] = Unit {0}
Reads mem a (b ∷ bs) = (mem a ≡ b) × Reads mem (suc a) bs

-- A character that the reader only stores: printable, and none of the four signs.
pub record IsPlain (c : ℕ) : Type 0 where
  pub above : 32 ≤ c
  pub below : c < 127
  pub not_query : c ≢ b'?'
  pub not_prompt : c ≢ b'>'
  pub not_bang : c ≢ b'!'
  pub not_quote : c ≢ b'"'

abbrev pub AllPlain : List ℕ → Type 0
AllPlain [] = Unit {0}
AllPlain (c ∷ cs) = IsPlain c × AllPlain cs

-- The response that has taken in more characters.
abbrev pub stored : List ℕ → Response → Response
stored [] r = r
stored (c ∷ cs) r = stored cs (record r { buffer = set r.buffer r.length c; length = r.length + 1 })

normal_char_lem :
    (c : ℕ) (r : Response)
    → r.processed ≡ false
    → r.in_error ≡ false
    → r.length < 62
    → normal_char c r ≡ record r { buffer = set r.buffer r.length c; length = r.length + 1 }
unfolding normal_char store_char
normal_char_lem c r q e l = ground arith

default_char_lem :
    (mem : Memory) (base i : ℕ) (r : Response)
    → mem (base + i) < 128
    → default_char mem base i r ≡ normal_char (mem (base + i)) r
unfolding default_char
default_char_lem mem base i r h = rw (not_good (mem (base + i)) _ h)
  where
    not_good : (c : ℕ) (b : Bool) → c < 128 → ((bit_and c 128 == 128) && b) ≡ false
    not_good c b h = ground (arith, and_128 c (omega arith))

step_default :
    (mem : Memory) (base i : ℕ) (r : Response)
    → IsPlain (mem (base + i))
    → step mem base i r ≡ (i, default_char mem base i r)
unfolding step
step_default mem base i r p = ground arith

step-plain :
    (mem : Memory) (base i c : ℕ) (r : Response)
    → mem (base + i) ≡ c
    → IsPlain c
    → r.processed ≡ false
    → r.in_error ≡ false
    → r.length < 62
    → step mem base i r ≡ (i, record r { buffer = set r.buffer r.length c; length = r.length + 1 })
step-plain mem base i c r m p q e l =
    step_default mem base i r (subst IsPlain (sym m) p)
    ∙ ap (λ x. (i, x))
        (default_char_lem mem base i r (omega (arith, m, p.below))
          ∙ ap (λ k. normal_char k r) m
          ∙ normal_char_lem c r q e l)

pub loop-suc :
    (mem : Memory) (base n i : ℕ) (r r' : Response) (j : ℕ)
    → r.processed ≡ false
    → step mem base i r ≡ (j, r')
    → loop mem base (suc n) i r ≡ loop mem base n (j + 1) r'
unfolding loop
loop-suc mem base n i r r' j p e = ground arith

-- A run of plain characters is stored.
pub loop-plain :
    (mem : Memory) (base m i : ℕ) (cs : List ℕ) (r : Response)
    → Reads mem (base + i) cs
    → AllPlain cs
    → r.processed ≡ false
    → r.in_error ≡ false
    → r.length + length cs ≤ 62
    → loop mem base (length cs + m) i r ≡ loop mem base m (i + length cs) (stored cs r)
loop-plain mem base m i [] r rd pl q e l =
    ap₂ (λ a b. loop mem base a b r) (omega arith) (omega arith)
loop-plain mem base m i (c ∷ cs) r rd pl q e l =
    let r' : Response = record r { buffer = set r.buffer r.length c; length = r.length + 1 } in
    ap (λ k. loop mem base k i r) (omega arith)
    ∙ loop-suc mem base (length cs + m) i r r' i q
        (step-plain mem base i c r rd.0 pl.0 q e (omega arith))
    ∙ loop-plain mem base m (i + 1) cs r' (subst (λ a. Reads mem a cs) (omega arith) rd.1) pl.1 q e
        (omega arith)
    ∙ ap (λ k. loop mem base m k (stored cs r')) (omega arith)

pub slice-Reads :
    (mem : Memory) (a : ℕ) (cs : List ℕ) → Reads mem a cs → slice mem a (length cs) ≡ cs
slice-Reads mem a [] h = refl
slice-Reads mem a (c ∷ cs) h = ap₂ ◌∷◌ h.0 (slice-Reads mem (suc a) cs h.1)

-- The fields of a response that characters do not change.
pub record SameFlags (r s : Response) : Type 0 where
  pub ack : s.ack ≡ r.ack
  pub nack : s.nack ≡ r.nack
  pub ack_location : s.ack_location ≡ r.ack_location
  pub received : s.received ≡ r.received
  pub checksum_good : s.checksum_good ≡ r.checksum_good
  pub processed : s.processed ≡ r.processed
  pub in_error : s.in_error ≡ r.in_error
  pub event : s.event ≡ r.event
  pub error : s.error ≡ r.error

pub stored-SameFlags : (cs : List ℕ) (r : Response) → SameFlags r (stored cs r)
stored-SameFlags [] r = record {
  ack = refl;
  nack = refl;
  ack_location = refl;
  received = refl;
  checksum_good = refl;
  processed = refl;
  in_error = refl;
  event = refl;
  error = refl;
}
stored-SameFlags (c ∷ cs) r =
    let h =
      stored-SameFlags cs (record r { buffer = set r.buffer r.length c; length = r.length + 1 }) in
    record {
      ack = h.ack;
      nack = h.nack;
      ack_location = h.ack_location;
      received = h.received;
      checksum_good = h.checksum_good;
      processed = h.processed;
      in_error = h.in_error;
      event = h.event;
      error = h.error;
    }

pub length-stored : (cs : List ℕ) (r : Response) → (stored cs r).length ≡ r.length + length cs
length-stored [] r = omega arith
length-stored (c ∷ cs) r =
    omega (
      arith,
      length-stored cs (record r { buffer = set r.buffer r.length c; length = r.length + 1 }),
    )

take-set : (n c : ℕ) (xs : List ℕ) → n < length xs → take (suc n) (set xs n c) ≡ take n xs ++ c ∷ []
take-set n c [] h = absurd (omega arith)
take-set zero c (x ∷ xs) h = refl
take-set (suc n) c (x ∷ xs) h = ap (◌∷◌ x) (take-set n c xs (omega arith))

append_one : (xs : List ℕ) (c : ℕ) (zs : List ℕ) → (xs ++ c ∷ []) ++ zs ≡ xs ++ c ∷ zs
append_one [] c zs = refl
append_one (x ∷ xs) c zs = ap (◌∷◌ x) (append_one xs c zs)

pub take-stored :
    (cs : List ℕ) (r : Response)
    → r.length + length cs ≤ length r.buffer
    → take (r.length + length cs) (stored cs r).buffer ≡ take r.length r.buffer ++ cs
take-stored [] r h =
    ap (λ n. take n r.buffer) (omega arith) ∙ sym (append_nil (take r.length r.buffer))
  where
    append_nil : (xs : List ℕ) → xs ++ [] ≡ xs
    append_nil [] = refl
    append_nil (x ∷ xs) = ap (◌∷◌ x) (append_nil xs)
take-stored (c ∷ cs) r h =
    let r' : Response = record r { buffer = set r.buffer r.length c; length = r.length + 1 } in
    ap (λ n. take n (stored cs r').buffer) (omega arith)
    ∙ take-stored cs r' (omega (arith, length-set r.buffer r.length c))
    ∙ ap (λ n. take n (set r.buffer r.length c) ++ cs) {x = r.length + 1} {y = suc r.length}
        (omega arith)
    ∙ ap (λ l. l ++ cs) (take-set r.length c r.buffer (omega arith))
    ∙ append_one (take r.length r.buffer) c cs
