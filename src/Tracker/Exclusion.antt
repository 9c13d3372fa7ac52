-- ===== src/Tracker/Exclusion.antt =====
-- tracker/mutracker: what its callers rely on, in every reachable state.
use card_client.Prelude.{
  ℕ, [], ◌∷◌, Bool, true, false, Option, none, some, ◌≡◌, ◌↔◌, refl, arith, Bool-cases,
  Option-cases, inl, inr, contains, subst,
}
use card_client.Prelude.Assoc.{lookup, Unique, insert-Unique}
use card_client.Tracker.Locks.{
  Tracker, waiting, holding, released, new, look, create, acquire, mark, release, unlock, Step,
  looks, creates, acquires, marks, releases, unlocks, Reach, start, next, is_item_locked,
  locked_items, collect,
}
use card_client.Tracker.Invariant.{owns, Map, Heap, Local, Inv}
use card_client.Tracker.Turns.{Reach-Inv}

-- In every reachable state a record's mutex has at most one owner: two goroutines that both stand
-- between `Lock` and `Unlock` for one record are the same.
pub mutual_exclusion :
    {s : Tracker} (t u rid : ℕ)
    → Reach s
    → owns (s.pc t) ≡ some rid
    → owns (s.pc u) ≡ some rid
    → t ≡ u
mutual_exclusion t u rid r = (Reach-Inv r).exclusive t u rid

-- In every reachable state two goroutines that wait for one record wait for the same mutex, also
-- where both found none and went on to create it.
pub one_mutex :
    {s : Tracker} (t u rid p q : ℕ)
    → Reach s
    → s.pc t ≡ waiting rid p
    → s.pc u ≡ waiting rid q
    → p ≡ q
one_mutex {s} t u rid p q r e e' =
    let a = subst (Local s.trackers s.heap) e ((Reach-Inv r).threads t) in
    let b = subst (Local s.trackers s.heap) e' ((Reach-Inv r).threads u) in ground (arith, a, b)

-- In every reachable state `Unlock` is called on a mutex that is held (it would panic on another),
-- and only after its flag went down.
pub unlock_held :
    {s : Tracker} (t rid p : ℕ)
    → Reach s
    → s.pc t ≡ released rid p
    → ((s.heap p).held ≡ true) × ((s.heap p).locked ≡ false)
unlock_held {s} t rid p r e =
    let l = subst (Local s.trackers s.heap) e ((Reach-Inv r).threads t) in (l.1, l.2)

locked_holder :
    {s : Tracker} (rid : ℕ) → Inv s → is_item_locked s rid ≡ true → (t : ℕ) × (s.pc t ≡ holding rid)
unfolding is_item_locked
locked_holder {s} rid v h = elim (Option-cases (lookup rid s.trackers)) [
  | inl e ↦ absurd (ground arith)
  | inr (p, e) ↦ v.flagged rid p e (ground arith)
]

holder_locked :
    {s : Tracker} (rid t : ℕ) → Inv s → s.pc t ≡ holding rid → is_item_locked s rid ≡ true
unfolding is_item_locked
holder_locked {s} rid t v e =
    let (p, at, held, up) = subst (Local s.trackers s.heap) e (v.threads t) in
    rw (at, is_item_locked) up

-- In every reachable state `IsItemLocked` says true exactly where some goroutine is past
-- `LockItem` for the record and has not begun to unlock it.
pub is_item_locked_iff :
    {s : Tracker} (rid : ℕ)
    → Reach s
    → (is_item_locked s rid ≡ true) ↔ ((t : ℕ) × (s.pc t ≡ holding rid))
is_item_locked_iff rid r =
    (locked_holder rid (Reach-Inv r), λ w. holder_locked rid w.0 (Reach-Inv r) w.1)

Step-Unique : {s s' : Tracker} → Step s s' → Unique s.trackers → Unique s'.trackers
unfolding look create acquire mark release unlock
Step-Unique (looks t rid e) u = u
Step-Unique {s} (creates t rid e) u = elim (Option-cases (lookup rid s.trackers)) [
  | inl e' ↦ rw (e', create) (insert-Unique rid s.fresh s.trackers u)
  | inr (p, e') ↦ rw (e', create) u
]
Step-Unique (acquires t rid p e f) u = u
Step-Unique (marks t rid p e) u = u
Step-Unique {s} (releases t rid e) u = elim (Option-cases (lookup rid s.trackers)) [
  | inl e' ↦ rw (e', release) u
  | inr (p, e') ↦ elim (Bool-cases (s.heap p).locked) [
    | inl f ↦ rw (e', release, f) u
    | inr f ↦ rw (e', release, f) u
  ]
]
Step-Unique (unlocks t rid p e) u = u

Reach-Unique : {s : Tracker} → Reach s → Unique s.trackers
unfolding new
Reach-Unique start = tt
Reach-Unique (next r st) = Step-Unique st (Reach-Unique r)

up_at : Heap → Option ℕ → Bool
up_at h none = false
up_at h (some p) = (h p).locked

contains-collect :
    (h : Heap) (m : Map) (rid : ℕ) → Unique m → contains rid (collect h m) ≡ up_at h (lookup rid m)
unfolding lookup up_at
contains-collect h [] rid u = refl
contains-collect h ((k, p) ∷ m) rid u = ground (arith, contains-collect h m rid u.1)

-- In every reachable state `LockedItems` lists exactly the records of which `IsItemLocked` says
-- true.
pub locked_items_lem :
    {s : Tracker} (rid : ℕ) → Reach s → contains rid (locked_items s) ≡ is_item_locked s rid
unfolding locked_items is_item_locked up_at
locked_items_lem {s} rid r = elim (Option-cases (lookup rid s.trackers)) [
  | inl e ↦ ground (arith, contains-collect s.heap s.trackers rid (Reach-Unique r))
  | inr (p, e) ↦ ground (arith, contains-collect s.heap s.trackers rid (Reach-Unique r))
]
