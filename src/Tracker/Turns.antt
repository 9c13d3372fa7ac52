-- ===== src/Tracker/Turns.antt =====
-- tracker/mutracker: each turn keeps the invariant.
use card_client.Prelude.{
  ℕ, suc, true, false, Option, none, some, ◌==◌, ◌≡◌, ◌≢◌, refl, arith, Bool-cases, Option-cases,
  inl, inr, ==_iff, subst, sym, ap, ◌∙◌,
}
use card_client.Prelude.Assoc.{lookup, insert, lookup-insert}
use card_client.Tracker.Locks.{
  Tracker, Pc, idle, missing, waiting, acquired, holding, released, update, look, create, acquire,
  mark, release, unlock, Step, looks, creates, acquires, marks, releases, unlocks, Reach, start,
  next, found, new_resource_mu,
}
use card_client.Tracker.Invariant.{
  owns, Map, Heap, Local, Flagged, Inv, new-Inv, Local-other, turn-Inv,
}

-- The owner's mutex is held.
owned-held :
    (m : Map) (h : Heap) (c : Pc) (rid p : ℕ)
    → Local m h c
    → owns c ≡ some rid
    → lookup rid m ≡ some p
    → (h p).held ≡ true
owned-held m h idle rid p l o e = cc
owned-held m h (missing r) rid p l o e = cc
owned-held m h (waiting r q) rid p l o e = cc
owned-held m h (acquired r q) rid p l o e = ground arith
owned-held m h (holding r) rid p l o e = ground arith
owned-held m h (released r q) rid p l o e = ground arith

module _ (s : Tracker) (v : Inv s) (t : ℕ) where
  -- A flag that was up is still somebody's, unless `t` held it.
  flag_kept :
      (pc' : Pc) (rid p : ℕ)
      → s.pc t ≢ holding rid
      → lookup rid s.trackers ≡ some p
      → (s.heap p).locked ≡ true
      → (u : ℕ) × (update s.pc t pc' u ≡ holding rid)
  flag_kept pc' rid p ne e f =
      let (u, h) = v.flagged rid p e f in
      (
        u,
        elim (Bool-cases (t == u)) [
          | inl same ↦ absurd (ne (ap s.pc ((==_iff t u).0 same) ∙ h))
          | inr differs ↦ rw differs h
        ],
      )

  -- A turn that touches neither map nor heap.
  moved-Inv :
      (pc' : Pc)
      → Local s.trackers s.heap pc'
      → owns pc' ≡ none
      → ((rid : ℕ) → s.pc t ≢ holding rid)
      → Inv (record s { pc = update s.pc t pc' })
  moved-Inv pc' here free ne =
      turn-Inv s v t s.heap pc' here (λ u _. v.threads u) (λ u rid _ o. cc)
        (λ rid p e f. flag_kept pc' rid p (ne rid) e f)

  found-Local :
      (rid : ℕ) (o : Option ℕ) → lookup rid s.trackers ≡ o → Local s.trackers s.heap (found rid o)
  found-Local rid none e = tt
  found-Local rid (some p) e = e

  owns-found : (rid : ℕ) (o : Option ℕ) → owns (found rid o) ≡ none
  owns-found rid none = refl
  owns-found rid (some p) = refl

  look-Inv : (rid : ℕ) → s.pc t ≡ idle → Inv (look s t rid)
  unfolding look
  look-Inv rid at =
      moved-Inv (found rid (lookup rid s.trackers)) (found-Local rid _ refl) (owns-found rid _)
        (λ r e. cc)

  waiting_other :
      (u rid p : ℕ)
      → lookup rid s.trackers ≡ some p
      → (s.heap p).held ≡ false
      → owns (s.pc u) ≢ some rid
  waiting_other u rid p e free o =
      let held = owned-held s.trackers s.heap (s.pc u) rid p (v.threads u) o e in cc

  at-Local : (c : Pc) → s.pc t ≡ c → Local s.trackers s.heap c
  at-Local c e = subst (Local s.trackers s.heap) e (v.threads t)

  -- Nobody else owns what `t` owns.
  owner_other : (u rid : ℕ) → t ≢ u → owns (s.pc t) ≡ some rid → owns (s.pc u) ≢ some rid
  owner_other u rid ne o o' = ne (v.exclusive t u rid o o')

  module _ (rid p : ℕ) where
    acquire-Inv : s.pc t ≡ waiting rid p → (s.heap p).held ≡ false → Inv (acquire s t rid p)
    unfolding acquire
    acquire-Inv place free =
        turn-Inv s v t _ (acquired rid p) (e, ground arith, ground (arith, down))
          (λ u _.
            Local-other s.trackers s.heap rid p _ v.distinct e (s.pc u)
              (waiting_other u rid p e free) (v.threads u))
          (λ u r _ o o'. waiting_other u rid p e free (o' ∙ sym o))
          (λ r q e' f. flag_kept (acquired rid p) r q (λ x. cc) e' (ground arith))
      where
        e : lookup rid s.trackers ≡ some p
        e = at-Local (waiting rid p) place

        down : (s.heap p).locked ≡ false
        down = elim (Bool-cases (s.heap p).locked) [
          | inl up ↦
              let (u, h) = v.flagged rid p e up in absurd (waiting_other u rid p e free (ap owns h))
          | inr low ↦ low
        ]

    mark-Inv : s.pc t ≡ acquired rid p → Inv (mark s t rid p)
    unfolding mark
    mark-Inv place =
        turn-Inv s v t _ (holding rid) (p, e, ground (arith, l.1), ground arith)
          (λ u ne.
            Local-other s.trackers s.heap rid p _ v.distinct e (s.pc u)
              (owner_other u rid ne (ap owns place)) (v.threads u))
          (λ u r ne o. owner_other u r ne (ap owns place ∙ o)) flag
      where
        l : Local s.trackers s.heap (acquired rid p)
        l = at-Local (acquired rid p) place

        e : lookup rid s.trackers ≡ some p
        e = l.0

        flag :
            Flagged s.trackers
              (update s.heap p (record (s.heap p) { locked = true }))
              (update s.pc t (holding rid))
        flag r q e' f = elim (Bool-cases (p == q)) [
          | inl same ↦ (t, ground (arith, v.distinct rid r p e))
          | inr differs ↦ flag_kept (holding rid) r q (λ x. cc) e' (rw differs at f)
        ]

    swap-Inv :
        s.pc t ≡ holding rid
        → lookup rid s.trackers ≡ some p
        → Inv (record s {
          heap = update s.heap p (record (s.heap p) { locked = false });
          pc = update s.pc t (released rid p);
        })
    swap-Inv place e =
        turn-Inv s v t _ (released rid p) (e, ground (arith, held), ground arith)
          (λ u ne.
            Local-other s.trackers s.heap rid p _ v.distinct e (s.pc u)
              (owner_other u rid ne (ap owns place)) (v.threads u))
          (λ u r ne o. owner_other u r ne (ap owns place ∙ o)) flag
      where
        held : (s.heap p).held ≡ true
        held = owned-held s.trackers s.heap (s.pc t) rid p (v.threads t) (ap owns place) e

        flag :
            Flagged s.trackers
              (update s.heap p (record (s.heap p) { locked = false }))
              (update s.pc t (released rid p))
        flag r q e' f = elim (Bool-cases (p == q)) [
          | inl same ↦ absurd (ground arith)
          | inr differs ↦ flag_kept (released rid p) r q (λ x. ground arith) e' (rw differs at f)
        ]

    unlock-Inv : s.pc t ≡ released rid p → Inv (unlock s t p)
    unfolding unlock
    unlock-Inv place =
        turn-Inv s v t _ idle tt
          (λ u ne.
            Local-other s.trackers s.heap rid p _ v.distinct l.0 (s.pc u)
              (owner_other u rid ne (ap owns place)) (v.threads u))
          (λ u r ne o. cc) (λ r q e' f. flag_kept idle r q (λ x. cc) e' (ground arith))
      where
        l : Local s.trackers s.heap (released rid p)
        l = at-Local (released rid p) place

  release-Inv : (rid : ℕ) → s.pc t ≡ holding rid → Inv (release s t rid)
  unfolding release
  release-Inv rid place =
      let (p, e, held, up) = at-Local (holding rid) place in
      rw (e, up, release) (swap-Inv rid p place e)

  module _ (rid : ℕ) (e : lookup rid s.trackers ≡ none) where
    Local-created :
        (c : Pc)
        → Local s.trackers s.heap c
        → Local (insert rid s.fresh s.trackers) (update s.heap s.fresh new_resource_mu) c
    Local-created idle l = tt
    Local-created (missing r) l = tt
    Local-created (waiting r q) l = ground (arith, lookup-insert rid r s.fresh s.trackers)
    Local-created (acquired r q) l = (
      ground (arith, lookup-insert rid r s.fresh s.trackers),
      ground (arith, v.allocated r q),
      ground (arith, v.allocated r q),
    )
    Local-created (holding r) l = (
      l.0,
      ground (arith, lookup-insert rid r s.fresh s.trackers),
      ground (arith, v.allocated r l.0),
      ground (arith, v.allocated r l.0),
    )
    Local-created (released r q) l = (
      ground (arith, lookup-insert rid r s.fresh s.trackers),
      ground (arith, v.allocated r q),
      ground (arith, v.allocated r q),
    )

    created-Inv :
        ((r : ℕ) → s.pc t ≢ holding r)
        → Inv (record {
          trackers = insert rid s.fresh s.trackers;
          heap = update s.heap s.fresh new_resource_mu;
          fresh = suc s.fresh;
          pc = update s.pc t (waiting rid s.fresh);
        })
    created-Inv ne = record {
      allocated = λ r q e'. ground (arith, lookup-insert rid r s.fresh s.trackers, v.allocated r q);
      distinct = λ r r' q e1 e2. ground (
        arith,
        lookup-insert rid r s.fresh s.trackers,
        lookup-insert rid r' s.fresh s.trackers,
        v.allocated r q,
        v.allocated r' q,
        v.distinct r r' q,
      );
      threads = λ u. elim (Bool-cases (t == u)) [
        | inl same ↦ rw same (ground (arith, lookup-insert rid rid s.fresh s.trackers))
        | inr differs ↦ rw differs (Local-created (s.pc u) (v.threads u))
      ];
      exclusive = λ u w r o o'. elim (Bool-cases (t == u)) [
        | inl same ↦ let bad : none ≡ some r = rw same at o in cc
        | inr differs ↦ elim (Bool-cases (t == w)) [
          | inl same' ↦ let bad : none ≡ some r = rw same' at o' in cc
          | inr differs' ↦ v.exclusive u w r (rw differs at o) (rw differs' at o')
        ]
      ];
      flagged = λ r q e' f. elim (Bool-cases (rid == r)) [
        | inl same ↦ absurd (ground (arith, lookup-insert rid r s.fresh s.trackers))
        | inr differs ↦
            let old : lookup r s.trackers ≡ some q =
              ground (arith, lookup-insert rid r s.fresh s.trackers) in
            flag_kept (waiting rid s.fresh) r q (ne r) old (ground (arith, v.allocated r q))
      ];
    }

  create-Inv : (rid : ℕ) → s.pc t ≡ missing rid → Inv (create s t rid)
  unfolding create
  create-Inv rid place = elim (Option-cases (lookup rid s.trackers)) [
    | inl e ↦ rw (e, create) (created-Inv rid e (λ r x. cc))
    | inr (p, e) ↦ rw (e, create) (moved-Inv (waiting rid p) e refl (λ r x. cc))
  ]

-- Every turn keeps the invariant.
Step-Inv : {s s' : Tracker} → Step s s' → Inv s → Inv s'
Step-Inv {s} (looks t rid at) v = look-Inv s v t rid at
Step-Inv {s} (creates t rid at) v = create-Inv s v t rid at
Step-Inv {s} (acquires t rid p at free) v = acquire-Inv s v t rid p at free
Step-Inv {s} (marks t rid p at) v = mark-Inv s v t rid p at
Step-Inv {s} (releases t rid at) v = release-Inv s v t rid at
Step-Inv {s} (unlocks t rid p at) v = unlock-Inv s v t rid p at

pub Reach-Inv : {s : Tracker} → Reach s → Inv s
Reach-Inv start = new-Inv
Reach-Inv (next r st) = Step-Inv st (Reach-Inv r)
