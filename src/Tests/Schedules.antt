-- ===== src/Tests/Schedules.antt =====
-- Two schedulers: one that starts every handler in the order of the items, and one that starts the
-- first, after which the operation is cancelled.
use card_client.Prelude.{suc, ◌≤◌, List, [], ◌∷◌, Bool, true, false, length, ◌≡◌, refl, arith, ap}
use card_client.Facade.Schedule.{Turn, handles, cancels, handled, cancelled_by, Scheduler}

abbrev all_turns : {A : Type 0} → Bool → List A → List (Turn A)
all_turns true xs = []
all_turns false [] = []
all_turns false (x ∷ xs) = handles x ∷ all_turns false xs

all_turns-each : {A : Type 0} (xs : List A) → length (handled (all_turns false xs)) ≡ length xs
all_turns-each [] = refl
all_turns-each (x ∷ xs) = ap suc (all_turns-each xs)

pub all_turns-at_most :
    {A : Type 0} (c : Bool) (xs : List A) → length (handled (all_turns c xs)) ≤ length xs
all_turns-at_most true xs = omega arith
all_turns-at_most false xs = omega (arith, all_turns-each xs)

pub all_turns-live :
    {A : Type 0} (c : Bool) (xs : List A)
    → cancelled_by (all_turns c xs) c ≡ false
    → length (handled (all_turns c xs)) ≡ length xs
all_turns-live true xs h = cc
all_turns-live false xs h = all_turns-each xs

abbrev pub in_turn : {A : Type 0} → Scheduler A
in_turn = record { exec = all_turns; at_most = all_turns-at_most; each = all_turns-live }

abbrev first_turn : {A : Type 0} → Bool → List A → List (Turn A)
first_turn true xs = []
first_turn false [] = []
first_turn false (x ∷ xs) = handles x ∷ cancels ∷ []

pub first_turn-at_most :
    {A : Type 0} (c : Bool) (xs : List A) → length (handled (first_turn c xs)) ≤ length xs
first_turn-at_most true xs = omega arith
first_turn-at_most false [] = omega arith
first_turn-at_most false (x ∷ xs) = omega arith

pub first_turn-live :
    {A : Type 0} (c : Bool) (xs : List A)
    → cancelled_by (first_turn c xs) c ≡ false
    → length (handled (first_turn c xs)) ≡ length xs
first_turn-live true xs h = cc
first_turn-live false [] h = refl
first_turn-live false (x ∷ xs) h = cc

abbrev pub cancelled_early : {A : Type 0} → Scheduler A
cancelled_early = record { exec = first_turn; at_most = first_turn-at_most; each = first_turn-live }
