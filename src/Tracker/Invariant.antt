-- ===== src/Tracker/Invariant.antt =====
-- tracker/mutracker: what every turn keeps.
use card_client.Prelude.{
  ℕ, ◌<◌, List, true, false, Option, none, some, ◌==◌, ◌≡◌, ◌≢◌, arith, Bool-cases, inl, inr, ap,
}
use card_client.Prelude.Assoc.{lookup}
use card_client.Tracker.Locks.{
  Tracker, ResourceMu, Pc, idle, missing, waiting, acquired, holding, released, update, new,
}

-- The record whose mutex a goroutine has.
abbrev pub owns : Pc → Option ℕ
owns idle = none
owns (missing rid) = none
owns (waiting rid p) = none
owns (acquired rid p) = some rid
owns (holding rid) = some rid
owns (released rid p) = some rid

abbrev pub Map : Type 0
Map = List (ℕ × ℕ)

abbrev pub Heap : Type 0
Heap = ℕ → ResourceMu

-- What a goroutine may rely on.
abbrev pub Local : Map → Heap → Pc → Type 0
Local m h idle = Unit {0}
Local m h (missing rid) = Unit {0}
Local m h (waiting rid p) = lookup rid m ≡ some p
Local m h (acquired rid p) = (lookup rid m ≡ some p) × ((h p).held ≡ true) × ((h p).locked ≡ false)
Local m h (holding rid) =
    (p : ℕ) × (lookup rid m ≡ some p) × ((h p).held ≡ true) × ((h p).locked ≡ true)
Local m h (released rid p) = (lookup rid m ≡ some p) × ((h p).held ≡ true) × ((h p).locked ≡ false)

-- No two records share a mutex.
abbrev pub Distinct : Map → Type 0
Distinct m = (rid rid' p : ℕ) → lookup rid m ≡ some p → lookup rid' m ≡ some p → rid ≡ rid'

abbrev pub Flagged : Map → Heap → (ℕ → Pc) → Type 0
Flagged m h pc =
    (rid p : ℕ) → lookup rid m ≡ some p → (h p).locked ≡ true → (t : ℕ) × (pc t ≡ holding rid)

pub record Inv (s : Tracker) : Type 0 where
  pub allocated : (rid p : ℕ) → lookup rid s.trackers ≡ some p → p < s.fresh
  pub distinct : Distinct s.trackers
  pub threads : (t : ℕ) → Local s.trackers s.heap (s.pc t)
  pub exclusive : (t u rid : ℕ) → owns (s.pc t) ≡ some rid → owns (s.pc u) ≡ some rid → t ≡ u
  pub flagged : Flagged s.trackers s.heap s.pc

pub new-Inv : Inv new
unfolding new lookup
new-Inv = record {
  allocated = λ rid p e. cc;
  distinct = λ rid rid' p e e'. cc;
  threads = λ t. tt;
  exclusive = λ t u rid e e'. cc;
  flagged = λ rid p e f. cc;
}

-- The mutex of another record is another address.
elsewhere :
    (m : Map) (rid r p q : ℕ)
    → Distinct m
    → lookup r m ≡ some p
    → lookup rid m ≡ some q
    → rid ≢ r
    → (p == q) ≡ false
elsewhere m rid r p q d e e' ne = elim (Bool-cases (p == q)) [
  | inl same ↦ absurd (ne (d rid r p (ground arith) e))
  | inr differs ↦ differs
]

-- A write to one record's mutex leaves alone whoever does not own that record.
module _ (m : Map) (h : Heap) (r p : ℕ) (mu : ResourceMu) (d : Distinct m)
    (e : lookup r m ≡ some p) where
  pub Local-other : (c : Pc) → owns c ≢ some r → Local m h c → Local m (update h p mu) c
  Local-other idle ne l = tt
  Local-other (missing rid) ne l = tt
  Local-other (waiting rid q) ne l = l
  Local-other (acquired rid q) ne l = rw (elsewhere m rid r p q d e l.0 (λ x. ne (ap some x))) l
  Local-other (holding rid) ne l =
      let q = l.0 in
      (
        q,
        l.1,
        rw (elsewhere m rid r p q d e l.1 (λ x. ne (ap some x))) l.2,
        rw (elsewhere m rid r p q d e l.1 (λ x. ne (ap some x))) l.3,
      )
  Local-other (released rid q) ne l = rw (elsewhere m rid r p q d e l.0 (λ x. ne (ap some x))) l

-- A turn of goroutine `t` that adds no mutex.
module _ (s : Tracker) (v : Inv s) (t : ℕ) (h' : Heap) (pc' : Pc) where
  abbrev pub turn : Tracker
  turn = record s { heap = h'; pc = update s.pc t pc' }

  pub turn-Inv :
      Local s.trackers h' pc'
      → ((u : ℕ) → t ≢ u → Local s.trackers h' (s.pc u))
      → ((u rid : ℕ) → t ≢ u → owns pc' ≡ some rid → owns (s.pc u) ≢ some rid)
      → Flagged s.trackers h' (update s.pc t pc')
      → Inv turn
  turn-Inv here others alone flag = record {
    allocated = v.allocated;
    distinct = v.distinct;
    threads = λ u. elim (Bool-cases (t == u)) [
      | inl same ↦ rw same here
      | inr differs ↦ rw differs (others u (ground arith))
    ];
    exclusive = λ u w rid e e'. elim (Bool-cases (t == u)) [
      | inl same ↦ elim (Bool-cases (t == w)) [
        | inl same' ↦ ground arith
        | inr differs' ↦ absurd (alone w rid (ground arith) (rw same at e) (rw differs' at e'))
      ]
      | inr differs ↦ elim (Bool-cases (t == w)) [
        | inl same' ↦ absurd (alone u rid (ground arith) (rw same' at e') (rw differs at e))
        | inr differs' ↦ v.exclusive u w rid (rw differs at e) (rw differs' at e')
      ]
    ];
    flagged = flag;
  }
