-- ===== src/Mdrive/Microcode/Comments.antt =====
-- drivers/mdrive/microcode.c: which lines of a file are sent.
use mcontrol.Base.{
  ℕ, ◌≡◌, refl, ap₂, ◌≢◌, inr, Bool, true, false, ◌||◌, List, [], ◌∷◌, ◌++◌, arith, ◌==◌,
  if◌then◌else◌,
}
use mcontrol.Mdrive.Microcode.{lines, add_to_first, Sender, Settings, microcode_load}

-- A text with no end of a line and no byte that ends the file.
abbrev pub IsComment : List ℕ → Type 0
IsComment [] = Unit {0}
IsComment (c ∷ cs) = (c ≢ 10) × (c ≢ 13) × (c ≢ 255) × IsComment cs

lines_skipped :
    (comment rest : List ℕ)
    → IsComment comment
    → lines true (comment ++ 10 ∷ rest) ≡ [] ∷ lines false rest
unfolding lines
lines_skipped [] rest h = refl
lines_skipped (c ∷ cs) rest h = ground (arith, lines_skipped cs rest h.3)

lines-comment :
    (skipchar : Bool) (text comment rest : List ℕ)
    → IsComment comment
    → lines skipchar (text ++ 39 ∷ comment ++ 10 ∷ rest) ≡ lines skipchar (text ++ 10 ∷ rest)
unfolding lines
lines-comment true [] comment rest h = lines_skipped comment rest h
lines-comment false [] comment rest h = lines_skipped comment rest h
lines-comment skipchar (c ∷ cs) comment rest h =
    let skip = skipchar || c == 39 in
    ap₂
      (λ (next same : List (List ℕ)).
        if c == 10 || c == 13
        then [] ∷ next
        else if c == 255
        then [] ∷ []
        else if skip
        then same
        else add_to_first c same)
      (lines-comment false cs comment rest h) (lines-comment skip cs comment rest h)

-- Comments of a microcode file are not sent: behind any text, an apostrophe and what follows it in
-- its line can be left out of the file, and mdrive_microcode_load comes to the same, whatever the unit
-- answers.
pub microcode_load-comment :
    {D : Type 0} (settings : Settings D) (send : Sender D) (text comment rest : List ℕ) (d : D)
    → IsComment comment
    → microcode_load settings send (inr (text ++ 39 ∷ comment ++ 10 ∷ rest)) d
      ≡ microcode_load settings send (inr (text ++ 10 ∷ rest)) d
unfolding microcode_load
microcode_load-comment settings send text comment rest d h =
    rw (lines-comment false text comment rest h) refl
