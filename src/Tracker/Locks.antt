-- ===== src/Tracker/Locks.antt =====
-- tracker/mutracker/mutracker.go and muresource.go, as goroutines that take turns. A turn is one
-- section under the tracker's own mutex, or one operation on a record's mutex or flag; `UnlockItem`
-- takes two turns, which allows more interleavings than its read lock does. A `*resourceMu` is an
-- address in `heap`, and a goroutine keeps the one that it has read.
use card_client.Prelude.{
  ℕ, suc, List, [], ◌∷◌, Bool, true, false, Option, none, some, if◌then◌else◌, ◌==◌, ◌≡◌,
}
use card_client.Prelude.Assoc.{lookup, insert}

-- sync.Mutex and the atomic flag beside it.
pub record ResourceMu : Type 0 where
  pub held : Bool
  pub locked : Bool

-- Where a goroutine stands: outside the tracker; past a lookup that found no mutex; before `Lock`;
-- between `Lock` and the store of the flag; past `LockItem`; between the swap of the flag and
-- `Unlock`.
pub data Pc : Type 0 where
  idle : Pc
  missing : ℕ → Pc
  waiting : ℕ → ℕ → Pc
  acquired : ℕ → ℕ → Pc
  holding : ℕ → Pc
  released : ℕ → ℕ → Pc

pub record Tracker : Type 0 where
  pub trackers : List (ℕ × ℕ)
  pub heap : ℕ → ResourceMu
  pub fresh : ℕ
  pub pc : ℕ → Pc

abbrev pub update : {A : Type 0} → (ℕ → A) → ℕ → A → ℕ → A
update f k v j = if k == j then v else f j

abbrev pub new_resource_mu : ResourceMu
new_resource_mu = record { held = false; locked = false }

unfoldable pub new : Tracker
new = record { trackers = []; heap = λ p. new_resource_mu; fresh = 0; pc = λ t. idle }

-- `LockItem`, the lookup under the read lock.
abbrev pub found : ℕ → Option ℕ → Pc
found rid none = missing rid
found rid (some p) = waiting rid p

unfoldable pub look : Tracker → ℕ → ℕ → Tracker
look s t rid = record s { pc = update s.pc t (found rid (lookup rid s.trackers)) }

-- `LockItem`, the section under the write lock: it looks again, and adds a mutex if there is none.
unfoldable pub create : Tracker → ℕ → ℕ → Tracker
create s t rid = elim (lookup rid s.trackers) [
  | some p ↦ record s { pc = update s.pc t (waiting rid p) }
  | none ↦ record {
    trackers = insert rid s.fresh s.trackers;
    heap = update s.heap s.fresh new_resource_mu;
    fresh = suc s.fresh;
    pc = update s.pc t (waiting rid s.fresh);
  }
]

-- `t.Lock()`, which waits until the mutex is free.
unfoldable pub acquire : Tracker → ℕ → ℕ → ℕ → Tracker
acquire s t rid p = record s {
  heap = update s.heap p (record (s.heap p) { held = true });
  pc = update s.pc t (acquired rid p);
}

-- `atomic.StoreUint32(&t.locked, 1)`
unfoldable pub mark : Tracker → ℕ → ℕ → ℕ → Tracker
mark s t rid p = record s {
  heap = update s.heap p (record (s.heap p) { locked = true });
  pc = update s.pc t (holding rid);
}

-- `UnlockItem` up to the swap: without a mutex, or with the flag at 0, it is over.
unfoldable pub release : Tracker → ℕ → ℕ → Tracker
release s t rid = elim (lookup rid s.trackers) [
  | none ↦ record s { pc = update s.pc t idle }
  | some p ↦
      if (s.heap p).locked
      then record s {
        heap = update s.heap p (record (s.heap p) { locked = false });
        pc = update s.pc t (released rid p);
      }
      else record s { pc = update s.pc t idle }
]

-- `t.Unlock()`
unfoldable pub unlock : Tracker → ℕ → ℕ → Tracker
unlock s t p = record s {
  heap = update s.heap p (record (s.heap p) { held = false });
  pc = update s.pc t idle;
}

-- A turn of goroutine `t`. A goroutine unlocks what it holds, as the program's callers do, which
-- defer `UnlockItem` behind `LockItem`.
pub data Step (s : Tracker) : Tracker → Type 0 where
  looks : (t rid : ℕ) → s.pc t ≡ idle → Step s (look s t rid)
  creates : (t rid : ℕ) → s.pc t ≡ missing rid → Step s (create s t rid)
  acquires :
      (t rid p : ℕ) → s.pc t ≡ waiting rid p → (s.heap p).held ≡ false → Step s (acquire s t rid p)
  marks : (t rid p : ℕ) → s.pc t ≡ acquired rid p → Step s (mark s t rid p)
  releases : (t rid : ℕ) → s.pc t ≡ holding rid → Step s (release s t rid)
  unlocks : (t rid p : ℕ) → s.pc t ≡ released rid p → Step s (unlock s t p)

pub data Reach : Tracker → Type 0 where
  start : Reach new
  next : {s s' : Tracker} → Reach s → Step s s' → Reach s'

unfoldable pub is_item_locked : Tracker → ℕ → Bool
is_item_locked s rid = elim (lookup rid s.trackers) [ none ↦ false | some p ↦ (s.heap p).locked ]

abbrev pub collect : (ℕ → ResourceMu) → List (ℕ × ℕ) → List ℕ
collect heap [] = []
collect heap ((rid, p) ∷ m) = if (heap p).locked then rid ∷ collect heap m else collect heap m

unfoldable pub locked_items : Tracker → List ℕ
locked_items s = collect s.heap s.trackers
