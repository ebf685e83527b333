-- ===== src/Mdrive/Microcode/Inspection.antt =====
-- drivers/mdrive/microcode.c: mdrive_microcode_inspect, which asks a unit for the version and the
-- labels of its microcode. The answer of the unit is the text in the response buffer, as an argument
-- with the class and the error code; the device that mdrive_communicate takes and returns is of any
-- type. The model has no result where the code goes on behind the end of the answer.
use mcontrol.Base.{
  ℕ, ◌-◌, ◌%◌, ◌^◌, ◌≤◌, ◌<◌, ◌≡◌, refl, ap, ◌∙◌, subst, ◌≢◌, Bool, true, not, ◌||◌, Option, none,
  some, List, [], ◌∷◌, ◌++◌, arith, ◌==◌, if◌then◌else◌, length, get_or, ascii, fit, print_int,
  strtol, ℤ, pos, negsuc, wrap32, eqb_ℤ, ltb_ℤ, eio, enotsup,
}
use mathlib.Core.List.{append-nil}
use mcontrol.Base.Text.{Number}
use mcontrol.Base.Text.RoundTrip.{strtol-print_int, wrap32_int}
use mcontrol.Mdrive.Classify.{ResponseClass, response_ok}
use mcontrol.Mdrive.Transaction.{is_ok}

-- `microcode` of struct mdrive_device_list, less the labels that nothing sets.
pub record Features : Type 0 where
  pub version : ℕ
  pub following_error : Bool
  pub move : Bool
  pub label_move : List ℕ
  pub label_following_error : List ℕ

abbrev pub skip_blanks : List ℕ → List ℕ
skip_blanks [] = []
skip_blanks (c ∷ cs) = if c == 32 then skip_blanks cs else c ∷ cs

-- The characters up to the next blank, and those behind it.
abbrev pub word : List ℕ → List ℕ × List ℕ
word [] = ([], [])
word (c ∷ cs) = let (front, rest) = word cs in if c == 32 then ([], cs) else (c ∷ front, rest)

abbrev pub first_word : List ℕ → Option (List ℕ) × List ℕ
first_word [] = (none, [])
first_word (c ∷ cs) = let (front, rest) = word (c ∷ cs) in (some front, rest)

-- `strtok_r(s, " ", &head)`: the token, if there is one, and the new head.
pub strtok : List ℕ → Option (List ℕ) × List ℕ
strtok s = first_word (skip_blanks s)

-- `*label != '-'`
abbrev pub is_supported : List ℕ → Bool
is_supported label = not (get_or label 0 0 == b'-')

pub take_move : Option (List ℕ) → Features → Features
take_move none m = m
take_move (some next) m = record m {
  label_move = fit 3 next;
  move = m.move || is_supported (fit 3 next);
}

pub take_following_error : Option (List ℕ) → Features → Features
take_following_error none m = m
take_following_error (some next) m = record m {
  label_following_error = fit 3 next;
  following_error = m.following_error || is_supported (fit 3 next);
}

-- The labels, behind the blank that follows the version.
pub take_labels : ℤ → List ℕ → Features → Features
unfolding strtok take_move take_following_error
take_labels version text m =
    let (next, head) = strtok text in
    let (next', head') = strtok head in
    if ltb_ℤ (pos 0) version then take_following_error next' (take_move next m) else m

-- An unsigned short.
abbrev pub wrap16 : ℤ → ℕ
wrap16 (pos n) = n % 2 ^ 16
wrap16 (negsuc n) = 2 ^ 16 - 1 - n % 2 ^ 16

pub behind_version : ℤ → List ℕ → Features → Option (ℕ × Features)
unfolding take_labels
behind_version version [] m = none
behind_version version (c ∷ head) m =
    some (0, take_labels version head (record m { version = wrap16 version }))

pub take_number : Number → Features → Option (ℕ × Features)
unfolding behind_version
take_number n m =
    let version = wrap32 n.value in
    if eqb_ℤ version (negsuc 0) then some (eio, m) else behind_version version n.rest m

-- The answer to EX CF.
unfoldable pub take_answer : List ℕ → Features → Option (ℕ × Features)
unfolding take_number
take_answer buffer m = take_number (strtol buffer) m

abbrev pub mdrive_enolabel : ℕ
mdrive_enolabel = 30

-- What mdrive_communicate with data and errors gives: the class, the error code, the text, the device.
abbrev pub Asker : Type 0 → Type 0
Asker D = List ℕ → D → ResponseClass × (ℕ × (List ℕ × D))

-- mdrive_microcode_inspect, for a device of an address.
pub microcode_inspect : {D : Type 0} → Asker D → ℕ → D → Features → Option (ℕ × Features) × D
unfolding take_answer
microcode_inspect ask address d m =
    let (class, (code, (buffer, d'))) = ask (ascii "EX CF") d in
    if address == b'*'
    then (some (0, m), d)
    else if not (is_ok class)
    then (some (eio, m), d')
    else if code == mdrive_enolabel
    then (some (enotsup, m), d')
    else (take_answer buffer m, d')

-- A text without blanks.
abbrev pub HasNoBlank : List ℕ → Type 0
HasNoBlank [] = Unit {0}
HasNoBlank (c ∷ cs) = (c ≢ 32) × HasNoBlank cs

word-blank : (front rest : List ℕ) → HasNoBlank front → word (front ++ 32 ∷ rest) ≡ (front, rest)
word-blank [] rest h = refl
word-blank (c ∷ cs) rest h = rw (word-blank cs rest h.1) (ground arith)

word_last : (front : List ℕ) → HasNoBlank front → word front ≡ (front, [])
word_last [] h = refl
word_last (c ∷ cs) h = rw (word_last cs h.1) (ground arith)

strtok_lem :
    (text front rest : List ℕ)
    → HasNoBlank front
    → 0 < length front
    → word (front ++ text) ≡ (front, rest)
    → strtok (front ++ text) ≡ (some front, rest)
unfolding strtok
strtok_lem text [] rest h e w = absurd (ground arith)
strtok_lem text (c ∷ cs) rest h e w =
    ap first_word (skipped text c cs h.0) ∙ ap (λ t. (some t.0, t.1)) w
  where
    skipped :
        (text : List ℕ) (c : ℕ) (cs : List ℕ)
        → c ≢ 32
        → skip_blanks (c ∷ (cs ++ text)) ≡ c ∷ (cs ++ text)
    skipped text c cs n = ground arith

strtok_last :
    (front : List ℕ) → HasNoBlank front → 0 < length front → strtok front ≡ (some front, [])
strtok_last front h e =
    subst (λ t. strtok t ≡ (some front, [])) (append-nil front)
      (strtok_lem [] front [] h e (ap word (append-nil front) ∙ word_last front h))

take_labels-printed :
    (version : ℤ) (move error : List ℕ) (m : Features)
    → ltb_ℤ (pos 0) version ≡ true
    → HasNoBlank move
    → 0 < length move
    → HasNoBlank error
    → 0 < length error
    → take_labels version (move ++ 32 ∷ error) m
      ≡ take_following_error (some error) (take_move (some move) m)
unfolding take_labels
take_labels-printed version move error m v h e h' e' =
    rw
      (v, strtok_lem (32 ∷ error) move error h e (word-blank move error h), strtok_last error h' e')
      refl

-- A label of the unit: one or two characters, and no blank.
abbrev pub IsLabel : List ℕ → Type 0
IsLabel label = HasNoBlank label × (0 < length label) × (length label ≤ 2)

fit-IsLabel : (label : List ℕ) → IsLabel label → fit 3 label ≡ label
fit-IsLabel [] h = refl
fit-IsLabel (c ∷ []) h = refl
fit-IsLabel (c ∷ c' ∷ []) h = refl
fit-IsLabel (c ∷ c' ∷ c'' ∷ cs) h = absurd (ground arith)

-- What the unit prints for EX CF.
abbrev pub printed : ℕ → List ℕ → List ℕ → List ℕ
printed version move error = print_int (pos version) ++ (32 ∷ (move ++ (32 ∷ error)))

-- What is kept of it.
abbrev pub labelled : ℕ → List ℕ → List ℕ → Features → Features
labelled number first second m = record {
  version = number % 2 ^ 16;
  following_error = m.following_error || is_supported second;
  move = m.move || is_supported first;
  label_move = first;
  label_following_error = second;
}

take_number-printed :
    (version : ℕ) (move error : List ℕ) (m : Features)
    → 0 < version
    → version < 2 ^ 31
    → IsLabel move
    → IsLabel error
    → take_number (record { value = pos version; rest = 32 ∷ (move ++ 32 ∷ error); errno = 0 }) m
      ≡ some (0, labelled version move error m)
unfolding take_number behind_version take_following_error take_move
take_number-printed version move error m least most h h' =
    rw
      (
        wrap32_int (pos version) (most, omega arith),
        take_labels-printed (pos version) move error (record m { version = version % 2 ^ 16 })
            (ground arith) h.0 h.1 h'.0 h'.1,
        fit-IsLabel move h,
        fit-IsLabel error h',
      )
      (ground arith)

take_answer-printed :
    (version : ℕ) (move error : List ℕ) (m : Features)
    → 0 < version
    → version < 2 ^ 31
    → IsLabel move
    → IsLabel error
    → take_answer (printed version move error) m ≡ some (0, labelled version move error m)
unfolding take_answer
take_answer-printed version move error m least most h h' =
    ap (λ n. take_number n m)
      (strtol-print_int (pos version) (32 ∷ (move ++ (32 ∷ error))) (most, omega arith) refl)
    ∙ take_number-printed version move error m least most h h'

-- A unit prints the version of its microcode and the labels for moves and for the following error,
-- and mdrive_microcode_inspect keeps them: it returns 0, the version is an unsigned short, and a
-- feature is there if it was before or its label does not begin with a dash. That holds for a
-- unit that answers without an error, a version above 0 that is an int, and labels of one or two
-- characters.
pub microcode_inspect-printed :
    {D : Type 0} (ask : Asker D) (address code version : ℕ) (move error : List ℕ) (d d' : D)
    (m : Features)
    → address ≢ b'*'
    → ask (ascii "EX CF") d ≡ (response_ok, (code, (printed version move error, d')))
    → code ≢ mdrive_enolabel
    → 0 < version
    → version < 2 ^ 31
    → IsLabel move
    → IsLabel error
    → microcode_inspect ask address d m ≡ (some (0, labelled version move error m), d')
unfolding microcode_inspect
microcode_inspect-printed ask address code version move error d d' m other answer known least most h
      h' =
    rw (answer, take_answer-printed version move error m least most h h') (ground arith)
