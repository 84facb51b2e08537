-- ===== src/Queue/Scheduler/Distance.antt =====
-- internal/httpapi/queue.go: how far the cursor is from the next slot of a priority.
use llama_wrangler.Common.{
  ℕ, zero, suc, ◌+◌, ◌-◌, ◌%◌, ◌≤◌, ◌<◌, ◌≡◌, refl, sym, ap, ◌∙◌, Bool, true, false, List, arith,
  if◌then◌else◌, length, get_or,
}
use native.Mathlib.Decide.{dec_le}
use native.Mathlib.Nat.{mod-add-mod, mod-eq_of_lt, add-mod_right, add-zero}
use llama_wrangler.Queue.Priority.{Priority, high, normal, low, same_priority}
use llama_wrangler.Queue.Scheduler.Cycle.{HasSlot}

pub same_priority-eq : (p q : Priority) → same_priority p q ≡ true → p ≡ q
same_priority-eq high high e = refl
same_priority-eq normal normal e = refl
same_priority-eq low low e = refl
same_priority-eq high normal e = cc
same_priority-eq high low e = cc
same_priority-eq normal high e = cc
same_priority-eq normal low e = cc
same_priority-eq low high e = cc
same_priority-eq low normal e = cc

pub same_priority_refl : (p : Priority) → same_priority p p ≡ true
same_priority_refl high = refl
same_priority_refl normal = refl
same_priority_refl low = refl

-- The slot under the cursor.
abbrev pub slot_at : List Priority → ℕ → Priority
slot_at schedule cursor = get_or schedule (cursor % length schedule) normal

-- Slots from the cursor to the next one of `p`, among the next `tries`.
unfoldable pub distance : ℕ → Priority → List Priority → ℕ → ℕ
distance zero p schedule cursor = 0
distance (suc tries) p schedule cursor =
    if same_priority (slot_at schedule cursor) p
    then 0
    else suc (distance tries p schedule ((cursor + 1) % length schedule))

unfoldable pub found : ℕ → Priority → List Priority → ℕ → Bool
found zero p schedule cursor = false
found (suc tries) p schedule cursor =
    if same_priority (slot_at schedule cursor) p
    then true
    else found tries p schedule ((cursor + 1) % length schedule)

pub distance-lt :
    (n : ℕ) (p : Priority) (schedule : List Priority) (c : ℕ)
    → found n p schedule c ≡ true
    → distance n p schedule c < n
unfolding distance found
distance-lt zero p schedule c e = cc
distance-lt (suc n) p schedule c e =
    ground (arith, distance-lt n p schedule ((c + 1) % length schedule))

-- More tries than enough make no difference.
pub distance_more :
    (n m : ℕ) (p : Priority) (schedule : List Priority) (c : ℕ)
    → found n p schedule c ≡ true
    → n ≤ m
    → distance m p schedule c ≡ distance n p schedule c
unfolding distance found
distance_more zero m p schedule c e h = cc
distance_more (suc n) zero p schedule c e h = elim h [ ]
distance_more (suc n) (suc m) p schedule c e h =
    ground (arith, distance_more n m p schedule ((c + 1) % length schedule))

turn_on : (c k len : ℕ) → ((c + 1) % len + k) % len ≡ (c + suc k) % len
turn_on c k len =
    let e : c + 1 + k ≡ c + suc k = omega arith in mod-add-mod (c + 1) len k ∙ ap (λ n. n % len) e

found-of_slot :
    (n k : ℕ) (p : Priority) (schedule : List Priority) (c : ℕ)
    → k < n
    → get_or schedule ((c + k) % length schedule) normal ≡ p
    → found n p schedule c ≡ true
unfolding found
found-of_slot zero k p schedule c h e = elim h [ ]
found-of_slot (suc n) zero p schedule c h e =
    let here : slot_at schedule c ≡ p =
      ap (λ i. get_or schedule (i % length schedule) normal) (sym (add-zero c)) ∙ e in
    rw (here, same_priority_refl p)
found-of_slot (suc n) (suc k) p schedule c h e =
    let next : get_or schedule (((c + 1) % length schedule + k) % length schedule) normal ≡ p =
      ap (λ i. get_or schedule i normal) (turn_on c k (length schedule)) ∙ e in
    ground (arith, found-of_slot n k p schedule ((c + 1) % length schedule) (omega arith) next)

direct : (c j len : ℕ) → c ≤ j → j < len → (c + (j - c)) % len ≡ j
direct c j len le lt = let e : c + (j - c) ≡ j = omega arith in rw e (mod-eq_of_lt lt)

round_about : (c j len : ℕ) → c < len → j < len → (c + (j + len - c)) % len ≡ j
round_about c j len h lt =
    let e : c + (j + len - c) ≡ j + len = omega arith in
    rw e (add-mod_right j len ∙ mod-eq_of_lt lt)

-- From anywhere in the schedule one turn meets every priority that has a slot.
pub found_in_turn :
    (p : Priority) (schedule : List Priority) (c : ℕ)
    → c < length schedule
    → HasSlot p schedule
    → found (length schedule) p schedule c ≡ true
found_in_turn p schedule c h (j, lt, e) = elim (dec_le c j) [
  | yes le ↦
      found-of_slot (length schedule) (j - c) p schedule c (omega arith)
        (ap (λ i. get_or schedule i normal) (direct c j (length schedule) le lt) ∙ e)
  | no gt ↦
      found-of_slot (length schedule) (j + length schedule - c) p schedule c (omega arith)
        (ap (λ i. get_or schedule i normal) (round_about c j (length schedule) h lt) ∙ e)
]
