-- ===== src/Pblob/Refines.antt =====
-- store/blob/pblob/store.go: the operations outside a transaction, as changes of the slots.
use card_client.Prelude.{
  ℕ, suc, ◌-◌, ◌^◌, ◌<◌, ◌≤◌, Bool, false, not, Option, none, some, keep_if, length, ◌≡◌, refl,
  arith, ap, ◌∙◌, subst, Option-cases, inl, inr, All,
}
use card_client.Prelude.Int.{ℤ}
use card_client.Prelude.Outcome.{Result, err}
use card_client.Blob.Codec.{Codec, Bytes, Encodes}
use card_client.Blob.Tables.{insert_asc}
use card_client.Blob.Versions.{newest, length-newest-le}
use card_client.Pblob.Bytes.{lex}
use card_client.Pblob.Key.{type_key}
use card_client.Pblob.Db.{Pebble, within, remove_range, put_sorted, Ascending}
use card_client.Pblob.Store.{
  Store, PebbleDb, PblobError, panicked, with_tx, get_tx_store, put, delete,
}
use card_client.Pblob.Slots.{
  Slots, png, thumb, lt_slot, of_card, card_versions, is_stored, room_for, stored,
}
use card_client.Pblob.Reading.{FitsSlot, keep-entries, within-of_card, FitsAll-keep}
use card_client.Pblob.Puts.{Holds, Runs, internal_put-slots, internal_put-panics}
use card_client.Pblob.Sorted.{put-Ascending}
use card_client.Pblob.Room.{
  NotNegative, pruned-newest, pruned_one, length-insert_asc, card_versions-put_png,
  card_versions-put_thumb, is_stored-put_thumb,
}

module _ (pb : Pebble) (faults : ℕ → Bool) (sound : (n : ℕ) → faults n ≡ false) (st : Store)
    (here : st.cancelled ≡ false) where
  -- What a `Put` comes to, by the room that the pruning makes.
  abbrev pub PutOutcome :
      ℕ
      → ℤ
      → Bytes
      → Bytes
      → PebbleDb pb faults
      → Option Slots
      → Result PblobError (Unit {0}) × PebbleDb pb faults
      → Type 0
  PutOutcome rid v small large d none r = (n : ℕ) × (r ≡ (err panicked, record d { calls = n }))
  PutOutcome rid v small large d (some m) r =
      Runs pb faults sound st here r (stored rid v small large m)

  module _ (c : Codec) (rid : ℕ) (v : ℤ) (card : c.Card) {small large : Bytes}
      (e : Encodes c card st.thumbnail_size small large) (fs : FitsSlot (png rid v)) where
    -- A `Put` outside a transaction and with a context that is not cancelled, on a database that
    -- refuses no call and holds the keys of some slots, of a card that encodes, under an RID that is
    -- a uint64 and a version that is an int64, does to the database of bytes what the slots say:
    -- where there is room or pruning makes room, it succeeds, the thumbnail and the version are
    -- stored in what pruning left; where pruning reads past the versions, it panics and the database
    -- stays as it was.
    pub put_refines :
        (m : Slots) (d : PebbleDb pb faults)
        → st.is_transaction ≡ false
        → Holds pb faults sound st here d.db m
        → PutOutcome rid v small large d
            (room_for st.max_versions rid v m)
            (put pb faults c st rid v card d)
    unfolding put with_tx get_tx_store
    put_refines m d top holds =
        let tx = get_tx_store st in
        let room = room_for st.max_versions rid v m in
        elim (Option-cases room) [
          | inl none_left ↦
              let h =
                internal_put-panics pb faults sound tx here c rid v card e fs m d refl holds
                  none_left in
              rw none_left (suc (suc d.calls), simp (top, h) refl)
          | inr (m', made) ↦
              let (d', h, after) =
                internal_put-slots pb faults sound tx here c rid v card e fs m m' d refl holds
                  made in
              rw made
                (record d' { calls = suc d'.calls }, simp (top, h, sound d'.calls) refl, after)
        ]

    -- A `Put` outside a transaction and with a context that is not cancelled, on a database that
    -- refuses no call and holds the keys of some slots, of a card that encodes, under an RID that is
    -- a uint64 and a version that is an int64, into a store with room for two versions or more,
    -- where the slots stand in order, none of the card's versions is before the epoch and the new
    -- one is not stored, succeeds: the card's versions are then the newest `max_versions - 1` old
    -- ones and the new one, in order, at most `max_versions` of them, and the slots stand in order
    -- again.
    pub put_keeps_newest :
        (m : Slots) (d : PebbleDb pb faults)
        → st.is_transaction ≡ false
        → Holds pb faults sound st here d.db m
        → Ascending lt_slot m
        → 2 ≤ st.max_versions
        → All NotNegative (card_versions rid m)
        → is_stored (png rid v) m ≡ false
        → (m' : Slots) × Runs pb faults sound st here (put pb faults c st rid v card d) m'
          × (card_versions rid m'
              ≡ insert_asc v (newest (st.max_versions - 1) (card_versions rid m)))
          × (length (card_versions rid m') ≤ st.max_versions)
          × Ascending lt_slot m'
    put_keeps_newest m d top holds a two nonneg new =
        let (m', p) = pruned-newest st.max_versions rid v m two a nonneg new in
        let made : room_for st.max_versions rid v m ≡ some m' = simp new p.is_done in
        let run : PutOutcome rid v small large d (some m') (put pb faults c st rid v card d) =
          subst (λ room. PutOutcome rid v small large d room (put pb faults c st rid v card d)) made
            (put_refines m d top holds) in
        let with_thumb = put_sorted lt_slot (thumb rid) small m' in
        let sorted = put-Ascending (thumb rid) small m' p.is_sorted in
        let versions =
          card_versions-put_png rid v large with_thumb sorted
            (is_stored-put_thumb rid rid v small m' ∙ p.is_new)
          ∙ ap (insert_asc v) (card_versions-put_thumb rid rid small m' ∙ p.rest) in
        (
          stored rid v small large m',
          run,
          versions,
          rw (versions, length-insert_asc v (newest (st.max_versions - 1) (card_versions rid m)))
              (omega (arith, length-newest-le (st.max_versions - 1) (card_versions rid m))),
          put-Ascending (png rid v) large with_thumb sorted,
        )

    -- A `Put` outside a transaction and with a context that is not cancelled, on a database that
    -- refuses no call and holds the keys of some slots, of a card that encodes, under an RID that is
    -- a uint64 and a version that is an int64, into a store with room for one version, where the
    -- card has versions and this one is not among them, panics and leaves the database as it was.
    pub put_panics :
        (m : Slots) (d : PebbleDb pb faults)
        → st.is_transaction ≡ false
        → Holds pb faults sound st here d.db m
        → st.max_versions ≡ 1
        → 0 < length (card_versions rid m)
        → is_stored (png rid v) m ≡ false
        → (n : ℕ) × (put pb faults c st rid v card d ≡ (err panicked, record d { calls = n }))
    put_panics m d top holds one some_old new =
        let no_room : room_for st.max_versions rid v m ≡ none =
          simp (new, one) (pruned_one rid m some_old) in
        subst (λ room. PutOutcome rid v small large d room (put pb faults c st rid v card d))
          no_room (put_refines m d top holds)

  -- A `Delete`, in a transaction or not, on a database that refuses no call, removes the slots of
  -- the card, all its versions and its thumbnail, and nothing else.
  pub delete_refines :
      (rid : ℕ) (m : Slots) (d : PebbleDb pb faults)
      → rid < 2 ^ 64
      → Holds pb faults sound st here d.db m
      → Runs pb faults sound st here
          (delete pb faults rid d)
          (keep_if (λ e. not (of_card rid e.0)) m)
  unfolding delete remove_range
  delete_refines rid m d hr (same, fits) =
      let lo = type_key rid 0 in
      let hi = type_key rid 255 in
      let kept =
        keep-entries (λ e. not (within lex lo hi e)) (λ e. not (of_card rid e.0)) m
          (λ s b fs. ap not (within-of_card rid s b hr fs)) fits in
      (
        record { db = pb.delete_range lo hi d.db; calls = suc d.calls },
        simp (sound d.calls) refl,
        (
          pb.entries-delete_range lo hi d.db ∙ ap (remove_range lex lo hi) same ∙ kept,
          FitsAll-keep (λ e. not (of_card rid e.0)) m fits,
        ),
      )
