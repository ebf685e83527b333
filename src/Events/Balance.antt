-- ===== src/Events/Balance.antt =====
-- lib/events.c: the count of registrations and the table.
use mcontrol.Base.{
  ℕ, suc, ◌+◌, ◌<◌, ◌≡◌, refl, sym, ap, ap₂, ◌∙◌, subst, ◌≢◌, inl, inr, Bool, true, false, not,
  Option, none, some, List, [], ◌∷◌, arith, if◌then◌else◌, of_bool, Bool-cases, length, er_too_many,
}
use mcontrol.Base.Int.{ℤ, pos, eqb_ℤ, ◌+ℤ◌, ◌-ℤ◌, pos_suc, pos_pred, pos_part, neg_part, -ℤ_parts}
use mcontrol.Base.Slots.{fill, count_if, fill_total, count_if-fill, length-fill, count_if-le}
use mcontrol.Events.{
  ClientCallback, Registrations, any_motor, free_entry, subscribe_with_data, find_registration,
  switch_off, mc_unsubscribe,
}

abbrev pub is_active : ClientCallback → Bool
is_active e = e.active

-- The count is that of the active entries.
unfoldable pub IsBalanced : Registrations → Type 0
IsBalanced t = (length t.events ≡ 32) × (t.count ≡ pos (count_if is_active t.events))

length-switch_off :
    (motor : ℤ) (id : ℕ) (es : List ClientCallback) → length (switch_off motor id es) ≡ length es
unfolding switch_off
length-switch_off motor id [] = refl
length-switch_off motor id (e ∷ es) = ground (arith, length-switch_off motor id es)

count-switch_off :
    (motor : ℤ) (id : ℕ) (es : List ClientCallback) (e : ClientCallback)
    → find_registration motor id es ≡ some e
    → count_if is_active (switch_off motor id es) + of_bool e.active ≡ count_if is_active es
unfolding switch_off find_registration
count-switch_off motor id [] e h = ground arith
count-switch_off motor id (x ∷ es) e h = ground (arith, count-switch_off motor id es e)

unsubscribe_found :
    (motor : ℤ) (id : ℕ) (t : Registrations) (e : ClientCallback)
    → find_registration motor id t.events ≡ some e
    → mc_unsubscribe motor id t
      ≡ (0, record t { events = switch_off motor id t.events; count = t.count -ℤ pos 1 })
unfolding mc_unsubscribe
unsubscribe_found motor id t e h = rw (h, mc_unsubscribe)

pred_differs : (n : ℕ) → pos n -ℤ pos 1 ≢ pos n
pred_differs n q = absurd (omega (arith, ap pos_part q, ap neg_part q, -ℤ_parts (pos n) (pos 1)))

-- To unsubscribe a registration that is there takes one off the count, and makes one entry inactive
-- only if it still was active: a balanced table stays balanced exactly if the registration was active.
pub mc_unsubscribe-IsBalanced :
    (motor : ℤ) (id : ℕ) (t : Registrations) (e : ClientCallback)
    → IsBalanced t
    → find_registration motor id t.events ≡ some e
    → (e.active ≡ true → IsBalanced (mc_unsubscribe motor id t).1)
      × (e.active ≡ false → ¬ IsBalanced (mc_unsubscribe motor id t).1)
unfolding IsBalanced
mc_unsubscribe-IsBalanced motor id t e b h =
    let es = switch_off motor id t.events in
    let c = count-switch_off motor id t.events e h in
    let same_length = length-switch_off motor id t.events ∙ b.0 in
    let result = unsubscribe_found motor id t e h in
    (
      (λ a.
          subst (λ r. IsBalanced r.1) (sym result)
            (
              same_length,
              ap (λ n. n -ℤ pos 1)
                    (b.1 ∙ ap pos {y = suc (count_if is_active es)} (ground (arith, a, c)))
                  ∙ pos_pred (count_if is_active es),
            )),
      λ a w.
          let w' = subst (λ r. IsBalanced r.1) result w in
          pred_differs (count_if is_active t.events)
            (ap (λ n. n -ℤ pos 1) (sym b.1) ∙ w'.1 ∙ ap pos (ground (arith, a, c))),
    )

count_twice :
    (es : List ClientCallback) → count_if (λ x. not (free_entry x)) es ≡ count_if is_active es
count_twice [] = refl
count_twice (e ∷ es) = ap₂ (λ b n. of_bool b + n) (twice_not e.active) (count_twice es)
  where
    twice_not : (b : Bool) → not (not b) ≡ b
    twice_not true = refl
    twice_not false = refl

pub not_full :
    (t : Registrations)
    → IsBalanced t
    → eqb_ℤ t.count (pos 32) ≡ false
    → count_if (λ x. not (free_entry x)) t.events < length t.events
unfolding IsBalanced
not_full t b e =
    let q : eqb_ℤ (pos (count_if is_active t.events)) (pos 32) ≡ false = rw b.1 at e in
    ground (arith, q, count_twice t.events, count_if-le is_active t.events, b.0)

abbrev pub new_entry : ℤ → ℕ → Option ℕ → ℕ → Registrations → ClientCallback
new_entry motor event callback user_data t = record {
  motor = motor;
  id = t.uid + 1;
  active = true;
  event = event;
  callback = callback;
  user_data = user_data;
  wait = false;
  waiting = false;
}

filled-IsBalanced :
    (t : Registrations) (v : ClientCallback) (es : List ClientCallback) (uid : ℕ)
    → IsBalanced t
    → v.active ≡ true
    → fill free_entry v t.events ≡ some es
    → IsBalanced (record { events = es; count = t.count +ℤ pos 1; uid = uid })
unfolding IsBalanced
filled-IsBalanced t v es uid b a f = (
  length-fill free_entry v t.events es f ∙ b.0,
  ap (λ n. n +ℤ pos 1) b.1
      ∙ pos_suc (count_if is_active t.events)
      ∙ ap pos (ground (arith, a, count_if-fill is_active v t.events es f)),
)

-- To subscribe in a balanced table never touches the end mark, and leaves the table balanced,
-- whatever the server answers.
pub subscribe-IsBalanced :
    (register : ℤ → ℕ → ℕ) (motor : ℤ) (event : ℕ) (callback : Option ℕ) (user_data : ℕ)
    (t : Registrations)
    → IsBalanced t
    → (r : ℕ × (Option ℕ × Registrations)) × (subscribe_with_data register motor event callback
          user_data t
        ≡ some r)
      × IsBalanced r.1.1
unfolding subscribe_with_data
subscribe-IsBalanced register motor event callback user_data t b =
    let v = new_entry motor event callback user_data t in
    elim (Bool-cases (eqb_ℤ t.count (pos 32))) [
      | inl e ↦ ((er_too_many, (none, t)), rw e refl, b)
      | inr e ↦
          let f = fill_total free_entry v t.events (not_full t b e) in
          let status = if eqb_ℤ motor any_motor then 0 else register motor event in
          (
            (
              status,
              (
                some (t.uid + 1),
                record { events = f.0; count = t.count +ℤ pos 1; uid = t.uid + 1 },
              ),
            ),
            rw (e, f.1) refl,
            filled-IsBalanced t v f.0 (t.uid + 1) b refl f.1,
          )
    ]
