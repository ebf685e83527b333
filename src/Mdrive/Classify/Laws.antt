-- ===== src/Mdrive/Classify/Laws.antt =====
-- What mdrive_classify_response of drivers/mdrive/serial.c accepts, and what it never does.
use mcontrol.Base.{
  ℕ, ◌+◌, ◌≤◌, ◌≡◌, refl, sym, ◌∙◌, subst, ◌≢◌, ◌⊎◌, inl, inr, true, false, not, ◌&&◌, ◌||◌, Option,
  none, some, List, [], ◌∷◌, arith, ltb, ◌==◌, if◌then◌else◌, Bool-cases, if_cases, length, set,
  length-set,
}
use mcontrol.Mdrive.Response.{Response}
use mcontrol.Mdrive.Classify.{
  combined, combine_response, ResponseClass, response_ok, response_nack, response_bad_checksum,
  Device, Nested, checksum_part, fetch_code, with_code, signal_code, after_code, prompt_part,
  settle, classify_response, same, put,
}

-- In checksum mode an answer with characters whose checksum is not good is never taken for OK when
-- the unit acknowledged or refused the command: it is classified as refused or as a bad checksum, and neither
-- the device nor the response changes.
pub classify_response-corrupt :
    (ops : Nested) (d : Device) (r : Response)
    → d.checksum ≢ 0
    → 1 ≤ r.length
    → r.checksum_good ≡ false
    → r.ack || r.nack ≡ true
    → classify_response ops d r
      ≡ ((if r.nack then response_nack else response_bad_checksum), (d, r))
unfolding classify_response settle checksum_part
classify_response-corrupt ops d r c l g a = ground arith

-- A clean acknowledgement in checksum mode: the checksum is good, or there is nothing to check.
pub IsCleanAck : Device → Response → Type 0
IsCleanAck d r = (d.checksum ≢ 0) × (same (ltb 0 r.length) r.checksum_good ≡ true) × (r.ack ≡ true)

-- A stall, which the unit has told of by its code.
pub IsStall : Response → Type 0
IsStall r = (r.error ≡ true) × (r.code ≡ 86)

-- A prompt or a line end without an error; in checksum mode only if the unit did not refuse.
pub IsPrompt : Device → Response → Type 0
IsPrompt d r =
    (r.error ≡ false) × (r.prompt || r.crlf ≡ true) × ((d.checksum ≡ 0) ⊎ (r.nack ≡ false))

signal_code-ok :
    (ops : Nested) (d : Device) (r : Response) → (signal_code ops d r).0 ≡ response_ok → r.code ≡ 86
unfolding signal_code
signal_code-ok ops d r h = ground arith

after_code-ok :
    (ops : Nested) (t : Device × Response)
    → (after_code ops t).0 ≡ response_ok
    → ((after_code ops t).1.1.code ≡ 86) × ((after_code ops t).1.1.error ≡ t.1.error)
unfolding after_code signal_code
after_code-ok ops (d, r) h = (ground arith, ground arith)

fetch_code-error :
    (ops : Nested) (d : Device) (r : Response) → (fetch_code ops d r).1.error ≡ r.error
unfolding fetch_code with_code
fetch_code-error ops d r = ground arith

prompt_part_error :
    (ops : Nested) (d : Device) (r : Response)
    → r.error ≡ true
    → prompt_part ops d r ≡ after_code ops (fetch_code ops d r)
unfolding prompt_part
prompt_part_error ops d r e = rw e refl

prompt_part_clean :
    (ops : Nested) (d : Device) (r : Response)
    → r.error ≡ false
    → (prompt_part ops d r).0 ≡ response_ok
    → r.prompt || r.crlf ≡ true
unfolding prompt_part
prompt_part_clean ops d r e h = ground arith

prompt_part-ok :
    (ops : Nested) (d : Device) (r : Response)
    → (prompt_part ops d r).0 ≡ response_ok
    → IsStall (prompt_part ops d r).1.1 ⊎ ((r.error ≡ false) × (r.prompt || r.crlf ≡ true))
unfolding IsStall
prompt_part-ok ops d r h = elim (Bool-cases r.error) [
  | inl e ↦
      let same_part = prompt_part_error ops d r e in
      let t = after_code-ok ops (fetch_code ops d r) (subst (λ p. p.0 ≡ response_ok) same_part h) in
      inl (subst (λ p. IsStall p.1.1) (sym same_part) (t.1 ∙ fetch_code-error ops d r ∙ e, t.0))
  | inr e ↦ inr (e, prompt_part_clean ops d r e h)
]

-- The outcomes of the part for checksum mode.
checksum_cases {κ} :
    (P : Option ResponseClass × (Device × Response) → Type κ) (ops : Nested) (d : Device)
    (r : Response)
    → (d.checksum ≡ 0 → P (none, (d, r)))
    → (IsCleanAck d r → P (some response_ok, (d, r)))
    → P (none, (d, record r { error = true }))
    → (r.nack ≡ false → P (none, (d, r)))
    → P (some response_nack, (d, r))
    → (r.nack ≡ false → P (none, (ops.after_reboot d, r)))
    → P (some response_bad_checksum, (d, r))
    → P (checksum_part ops d r)
unfolding checksum_part IsCleanAck
checksum_cases P ops d r off ack error through nack reboot bad =
    if_cases P (d.checksum == 0) _ _ (λ e. off (ground arith))
      λ c.
        if_cases P (same (ltb 0 r.length) r.checksum_good) _ _
          (λ s.
            if_cases P r.ack _ _ (λ a. ack ((λ z. absurd (ground arith)), s, a))
              λ a. if_cases P r.nack _ _ (λ n. error) (λ n. through n))
          λ s.
            if_cases P r.nack _ _ (λ n. nack)
              λ n.
                if_cases P (not r.nack && not r.ack) _ _
                  (λ q. if_cases P (d.txnest == 1) _ _ (λ t. reboot n) (λ t. through n))
                  λ q. if_cases P (not r.checksum_good) _ _ (λ g. bad) (λ g. through n)

-- Whenever a response is taken for OK there is a reason: an ACK in checksum mode, with a good checksum
-- exactly where there are characters; a stall that the unit told of; or a prompt or line end without
-- an error, outside checksum mode or without a NACK.
pub classify_response-ok :
    (ops : Nested) (d : Device) (r : Response)
    → (classify_response ops d r).0 ≡ response_ok
    → IsCleanAck d r ⊎ (IsStall (classify_response ops d r).1.1 ⊎ IsPrompt d r)
unfolding classify_response settle IsPrompt
classify_response-ok ops d r =
    checksum_cases
      (λ t.
        (settle ops t).0 ≡ response_ok
        → IsCleanAck d r ⊎ (IsStall (settle ops t).1.1 ⊎ IsPrompt d r))
      ops d r (λ e h. inr (prompted (inl e) (prompt_part-ok ops d r h))) (λ a h. inl a)
      (λ h. inr (refused (prompt_part-ok ops d (record r { error = true }) h)))
      (λ n h. inr (prompted (inr n) (prompt_part-ok ops d r h))) (λ h. absurd (ground arith))
      (λ n h. inr (prompted (inr n) (prompt_part-ok ops (ops.after_reboot d) r h)))
      λ h. absurd (ground arith)
  where
    prompted :
        {A : Type 0}
        → ((d.checksum ≡ 0) ⊎ (r.nack ≡ false))
        → A ⊎ ((r.error ≡ false) × (r.prompt || r.crlf ≡ true))
        → A ⊎ IsPrompt d r
    prompted c (inl a) = inl a
    prompted c (inr (e, p)) = inr (e, p, c)

    refused : {A : Type 0} → A ⊎ ((true ≡ false) × (r.prompt || r.crlf ≡ true)) → A ⊎ IsPrompt d r
    refused (inl a) = inl a
    refused (inr (e, p)) = absurd (ground arith)

pub length-put : (cs : List ℕ) (n : ℕ) (buffer : List ℕ) → length (put buffer n cs) ≡ length buffer
unfolding put
length-put [] n buffer = length-set buffer n 0
length-put (c ∷ cs) n buffer =
    if_cases {A = List ℕ} (λ b. length b ≡ length buffer) (ltb (n + 1) (length buffer)) _ _
      (λ e. length-put cs (n + 1) (set buffer n c) ∙ length-set buffer n c)
      (λ e. length-set buffer n 0)

pub txid-combined : (a b : Response) → (combined a b).txid ≡ a.txid
unfolding combined
txid-combined a b = refl

pub combine_same : (a b : Response) → a.txid ≡ b.txid → combine_response a b ≡ some (combined a b)
unfolding combine_response
combine_same a b t = let own : (a.txid == b.txid) ≡ true = ground (arith, t) in rw own refl

pub classify_response-ack :
    (ops : Nested) (d : Device) (r : Response)
    → d.checksum ≢ 0
    → same (ltb 0 r.length) r.checksum_good ≡ true
    → r.ack ≡ true
    → classify_response ops d r ≡ (response_ok, (d, r))
unfolding classify_response settle checksum_part
classify_response-ack ops d r c g a = ground arith
