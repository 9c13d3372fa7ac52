-- ===== src/Pblob/Puts.antt =====
-- store/blob/pblob/store.go: `Put` on a database, as the change of its slots.
use card_client.Prelude.{
  ℕ, suc, ◌+◌, ◌-◌, ◌^◌, ◌<◌, [], ◌∷◌, Bool, true, false, not, none, some, ltb, ◌==◌, keep_if, map,
  All, ◌≡◌, refl, All-get_elem?, arith, ap, sym, subst, ◌∙◌, Bool-cases, Option-cases, inl, inr,
  length, get_elem?, some-injective,
}
use card_client.Prelude.Int.{ℤ, pos}
use card_client.Prelude.Outcome.{Result, ok, err}
use card_client.Blob.Codec.{Codec, Bytes, Encodes}
use card_client.Pblob.Bytes.{lex}
use card_client.Pblob.Key.{type_key, png_key}
use card_client.Pblob.Order.{FitsVersion}
use card_client.Pblob.Db.{Pebble, put_sorted, remove_range, within, not_below}
use card_client.Pblob.Store.{
  Store, PebbleDb, PblobError, panicked, with_tx, versions, key_exists, delete_versions,
  delete_old_versions, internal_put,
}
use card_client.Pblob.Slots.{
  Slot, Slots, png, thumb, lt_slot, in_card, in_versions, card_versions, is_stored, pruned,
  room_for, stored, without_versions,
}
use card_client.Pblob.Reading.{
  slot_key, FitsSlot, FitsAll, entry, put_sorted-entries, keep-entries, within_card,
  within_versions, not_below-slot, starts_at-slot, FitsAll-keep, FitsAll-put, versions_in-card,
}

module _ (pb : Pebble) (faults : ℕ → Bool) (sound : (n : ℕ) → faults n ≡ false) (st : Store)
    (here : st.cancelled ≡ false) where
  -- The database holds these slots, and their keys fit.
  abbrev pub Holds : pb.Db → Slots → Type 0
  Holds d m = (pb.entries d ≡ map entry m) × FitsAll m

  pub versions-slots :
      (rid : ℕ) (m : Slots) (d : PebbleDb pb faults)
      → rid < 2 ^ 64
      → Holds d.db m
      → versions pb faults st rid d ≡ (ok (card_versions rid m), record d { calls = suc d.calls })
  unfolding versions
  versions-slots rid m d hr (same, fits) =
      let kept =
        keep-entries (within lex (type_key rid 0) (type_key rid (0 + 1))) (λ e. in_card rid e.0) m
          (λ s b fs. within_card rid s b hr fs) fits in
      let read = versions_in-card rid m fits in simp (sound d.calls, here, same, kept, read) refl

  key_exists-slots :
      (s : Slot) (m : Slots) (d : PebbleDb pb faults)
      → FitsSlot s
      → Holds d.db m
      → key_exists pb faults (slot_key s) d ≡ (ok (is_stored s m), record d { calls = suc d.calls })
  unfolding key_exists
  key_exists-slots s m d fs (same, fits) =
      let kept =
        keep-entries (not_below lex (slot_key s)) (not_below lt_slot s) m
          (λ t b ft. not_below-slot s t b fs ft) fits in
      let first =
        starts_at-slot s (keep_if (not_below lt_slot s) m) fs
          (FitsAll-keep (not_below lt_slot s) m fits) in
      simp (sound d.calls, same, kept, first) refl

  -- The operation succeeds, and the database holds these slots afterwards.
  abbrev pub Runs : Result PblobError (Unit {0}) × PebbleDb pb faults → Slots → Type 0
  Runs r m = (d : PebbleDb pb faults) × (r ≡ (ok tt, d)) × Holds d.db m

  delete_versions-slots :
      (rid : ℕ) (lo hi : ℤ) (m : Slots) (d : PebbleDb pb faults)
      → st.is_transaction ≡ true
      → FitsSlot (png rid lo)
      → FitsSlot (png rid hi)
      → Holds d.db m
      → Runs (delete_versions pb faults st rid lo hi d) (without_versions rid lo hi m)
  unfolding delete_versions with_tx remove_range
  delete_versions-slots rid lo hi m d inside fl fh (same, fits) =
      let kept =
        keep-entries (λ e. not (within lex (png_key rid lo) (png_key rid hi) e))
          (λ e. not (in_versions rid lo hi e.0)) m
          (λ s b fs. ap not (within_versions rid lo hi s b fl fh fs)) fits in
      (
        record { db = pb.delete_range (png_key rid lo) (png_key rid hi) d.db; calls = suc d.calls },
        simp (inside, sound d.calls) refl,
        (
          pb.entries-delete_range (png_key rid lo) (png_key rid hi) d.db
              ∙ ap (remove_range lex (png_key rid lo) (png_key rid hi)) same
              ∙ kept,
          FitsAll-keep (λ e. not (in_versions rid lo hi e.0)) m fits,
        ),
      )

  card_versions-Fits : (rid : ℕ) (m : Slots) → FitsAll m → All FitsVersion (card_versions rid m)
  card_versions-Fits rid [] fits = tt
  card_versions-Fits rid ((png r v, b) ∷ m) fits = elim (Bool-cases (r == rid)) [
    | inl same ↦ rw same (fits.0.2, card_versions-Fits rid m fits.1)
    | inr differs ↦ rw differs (card_versions-Fits rid m fits.1)
  ]
  card_versions-Fits rid ((thumb r, b) ∷ m) fits = card_versions-Fits rid m fits.1

  unsure : {m : Slots} → none ≡ some m → ⊥
  unsure e = cc

  -- Inside a transaction.
  delete_old_versions-slots :
      (rid : ℕ) (m m' : Slots) (d : PebbleDb pb faults)
      → st.is_transaction ≡ true
      → rid < 2 ^ 64
      → Holds d.db m
      → pruned st.max_versions rid m ≡ some m'
      → Runs (delete_old_versions pb faults st rid d) m'
  unfolding delete_old_versions with_tx
  delete_old_versions-slots rid m m' d inside hr holds done =
      let vs = card_versions rid m in
      let i = length vs - st.max_versions + 1 in
      let read = versions-slots rid m d hr holds in
      elim (Bool-cases (ltb (length vs) st.max_versions)) [
        | inl few ↦ (
          record d { calls = suc d.calls },
          simp (inside, read, few) refl,
          subst (λ x. Holds d.db x) (some-injective (simp few at done)) holds,
        )
        | inr many ↦ elim (Option-cases (get_elem? vs i)) [
          | inl e ↦ absurd (unsure (simp (many, e) at done))
          | inr (hi, e) ↦
              let fh = All-get_elem? FitsVersion vs i hi (card_versions-Fits rid m holds.1) e in
              let (d', h, after) =
                delete_versions-slots rid (pos 0) hi m (record d { calls = suc d.calls }) inside
                  (hr, omega arith, omega arith) (hr, omega arith, fh) holds in
              (
                d',
                simp (inside, read, many, e) h,
                subst (λ x. Holds d'.db x) (some-injective (simp (many, e) at done)) after,
              )
        ]
      ]

  -- Pruning panics after the versions have been listed.
  delete_old_versions-panics :
      (rid : ℕ) (m : Slots) (d : PebbleDb pb faults)
      → st.is_transaction ≡ true
      → rid < 2 ^ 64
      → Holds d.db m
      → pruned st.max_versions rid m ≡ none
      → delete_old_versions pb faults st rid d ≡ (err panicked, record d { calls = suc d.calls })
  unfolding delete_old_versions with_tx
  delete_old_versions-panics rid m d inside hr holds failed =
      let vs = card_versions rid m in
      let i = length vs - st.max_versions + 1 in
      let read = versions-slots rid m d hr holds in
      elim (Bool-cases (ltb (length vs) st.max_versions)) [
        | inl few ↦ absurd (unsure (sym (simp few at failed)))
        | inr many ↦ elim (Option-cases (get_elem? vs i)) [
          | inl e ↦ simp (inside, read, many, e) refl
          | inr (hi, e) ↦ absurd (unsure (sym (simp (many, e) at failed)))
        ]
      ]

  set-slots :
      (s : Slot) (b : Bytes) (m : Slots) (d : pb.Db)
      → FitsSlot s
      → Holds d m
      → Holds (pb.set (slot_key s) b d) (put_sorted lt_slot s b m)
  set-slots s b m d fs (same, fits) = (
    pb.entries-set (slot_key s) b d
        ∙ ap (put_sorted lex (slot_key s) b) same
        ∙ put_sorted-entries s b m fs fits,
    FitsAll-put s b m fs fits,
  )

  module _ (c : Codec) (rid : ℕ) (v : ℤ) (card : c.Card) {small large : Bytes}
      (e : Encodes c card st.thumbnail_size small large) (fs : FitsSlot (png rid v)) where
    -- The two writes.
    written : PebbleDb pb faults → PebbleDb pb faults
    written d = record {
      db = pb.set (png_key rid v) large (pb.set (type_key rid 0x7f) small d.db);
      calls = suc (suc d.calls);
    }

    write-slots :
        (m : Slots) (d : PebbleDb pb faults)
        → Holds d.db m
        → Holds (written d).db (stored rid v small large m)
    unfolding written
    write-slots m d holds =
        let ft : FitsSlot (thumb rid) = (fs.0, omega arith, tt) in
        set-slots (png rid v) large (put_sorted lt_slot (thumb rid) small m)
          (pb.set (type_key rid 0x7f) small d.db) fs (set-slots (thumb rid) small m d.db ft holds)

    pub internal_put-slots :
        (m m' : Slots) (d : PebbleDb pb faults)
        → st.is_transaction ≡ true
        → Holds d.db m
        → room_for st.max_versions rid v m ≡ some m'
        → Runs (internal_put pb faults c st rid v card d) (stored rid v small large m')
    unfolding internal_put written
    internal_put-slots m m' d inside holds room =
        let found = key_exists-slots (png rid v) m d fs holds in
        let now = record d { calls = suc d.calls } in
        elim (Bool-cases (is_stored (png rid v) m)) [
          | inl old ↦ (
            written now,
            simp
                (
                  e.parsed,
                  found,
                  old,
                  e.drawn,
                  e.packed,
                  sound (suc d.calls),
                  e.written,
                  sound (suc (suc d.calls)),
                )
                refl,
            write-slots m' now
                (subst (λ x. Holds d.db x) (some-injective (simp old at room)) holds),
          )
          | inr new ↦
              let (d', h, after) =
                delete_old_versions-slots rid m m' now inside fs.0 holds (simp new at room) in
              (
                written d',
                simp
                    (
                      e.parsed,
                      found,
                      new,
                      h,
                      e.drawn,
                      e.packed,
                      sound d'.calls,
                      e.written,
                      sound (suc d'.calls),
                    )
                    refl,
                write-slots m' d' after,
              )
        ]

    pub internal_put-panics :
        (m : Slots) (d : PebbleDb pb faults)
        → st.is_transaction ≡ true
        → Holds d.db m
        → room_for st.max_versions rid v m ≡ none
        → internal_put pb faults c st rid v card d
          ≡ (err panicked, record d { calls = suc (suc d.calls) })
    unfolding internal_put
    internal_put-panics m d inside holds room =
        let found = key_exists-slots (png rid v) m d fs holds in
        let now = record d { calls = suc d.calls } in
        elim (Bool-cases (is_stored (png rid v) m)) [
          | inl old ↦ absurd (unsure (sym (simp old at room)))
          | inr new ↦
              let h = delete_old_versions-panics rid m now inside fs.0 holds (simp new at room) in
              simp (e.parsed, found, new, h) refl
        ]
