-- ===== src/Facade/Schedule.antt =====
-- The workers' use of `scheduler.Exec`, which is the toolkit's: it starts a handler for each item
-- until the context it was given is cancelled. A list of turns is the order in which the handlers
-- run, and in which other goroutines cancel the operation between them.
use card_client.Prelude.{
  ℕ, ◌≤◌, List, [], ◌∷◌, Bool, true, false, Option, none, some, length, ◌≡◌, arith, Bool-cases, inl,
  inr, sym, ◌∙◌,
}
use card_client.Operation.Types.{OperationEntry}
use card_client.Operation.Ordered.{OrderedMap}
use card_client.Operation.Registry.{Registry, cancel}
use card_client.Operation.Lifecycle.{get-set}

pub data Turn (A : Type 0) : Type 0 where
  handles : A → Turn A
  cancels : Turn A

abbrev pub handled : {A : Type 0} → List (Turn A) → List A
handled [] = []
handled (handles x ∷ ts) = x ∷ handled ts
handled (cancels ∷ ts) = handled ts

-- Whether the context is cancelled in the end, if it is `c` at first.
abbrev pub cancelled_by : {A : Type 0} → List (Turn A) → Bool → Bool
cancelled_by [] c = c
cancelled_by (handles x ∷ ts) c = cancelled_by ts c
cancelled_by (cancels ∷ ts) c = cancelled_by ts true

-- The turns of a run, given whether the context is cancelled when it starts: there are no more
-- handlers than items, and one for each item if the context is never cancelled.
pub record Scheduler (A : Type 0) : Type 0 where
  pub exec : Bool → List A → List (Turn A)
  pub at_most : (c : Bool) (xs : List A) → length (handled (exec c xs)) ≤ length xs
  pub each :
      (c : Bool) (xs : List A)
      → cancelled_by (exec c xs) c ≡ false
      → length (handled (exec c xs)) ≡ length xs

-- How far an operation with a context that was cancelled, or was not, has come.
abbrev pub Covers : Bool → ℕ → ℕ → Type 0
Covers true n total = n ≤ total
Covers false n total = n ≡ total

pub exec-Covers :
    {A : Type 0} (sched : Scheduler A) (c : Bool) (xs : List A)
    → Covers (cancelled_by (sched.exec c xs) c) (length (handled (sched.exec c xs))) (length xs)
exec-Covers sched c xs = elim (Bool-cases (cancelled_by (sched.exec c xs) c)) [
  | inl stopped ↦ rw stopped (sched.at_most c xs)
  | inr live ↦ rw live (sched.each c xs live)
]

pub covered :
    {n m total total' : ℕ} (c : Bool)
    → n ≡ m
    → total ≡ total'
    → Covers c m total'
    → Covers c n total
covered true e e' h = omega arith
covered false e e' h = e ∙ h ∙ sym e'

module _ (om : OrderedMap OperationEntry) where
  -- The entry's context, which the handle shares.
  abbrev pub cancelled_in : Option OperationEntry → Bool
  cancelled_in none = false
  cancelled_in (some e) = e.is_cancelled

  abbrev pub is_cancelled : Registry om → ℕ → Bool
  is_cancelled r op = cancelled_in (om.get r.operations op)

  pub get-cancel :
      (r : Registry om) (op : ℕ) (e : OperationEntry)
      → om.get r.operations op ≡ some e
      → om.get (cancel om r op).1.operations op ≡ some (record e { is_cancelled = true })
  unfolding cancel
  get-cancel r op e found =
      rw (found, cancel) (get-set om r.operations op (record e { is_cancelled = true }))
