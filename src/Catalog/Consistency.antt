-- ===== src/Catalog/Consistency.antt =====
-- store/catalog/catalog.go: what the two stores hold after a call that fails.
use card_client.Prelude.{
  ℕ, Option, none, some, ◌≡◌, ◌≢◌, refl, arith, ap, sym, ◌∙◌, Option-cases, inl, inr,
}
use card_client.Prelude.Int.{ℤ}
use card_client.Prelude.Outcome.{Result, ok, err, ◌>>=◌, ◌>>◌, continue, pure}
use card_client.Resource.Types.{Record, Toolkit, tag_names}
use card_client.Catalog.Metadata.{Metadata}
use card_client.Catalog.Stores.{Cards, RecordStore, BlobStore}
use card_client.Catalog.Cards.{
  Catalog, Action, record_tx, end_records, save_card, save_body, on_records, on_blobs,
}

module _ {Rest Error : Type 0} (k : Toolkit Rest) (cards : Cards Rest)
    (rs : RecordStore cards.Card Error) (bs : BlobStore cards.Card Error) where
  abbrev State : Type 0
  State = Catalog k cards rs bs

  abbrev Act : Type 0 → Type 0
  Act A = Action k cards rs bs A

  end_records_err :
      {A : Type 0} (before : rs.State) (r : Result Error A × State) {e : Error} {s' : State}
      → end_records k cards rs bs before r ≡ (err e, s')
      → s'.records ≡ before
  end_records_err before (err e, s) h = ap (λ x. x.1.records) (sym h)
  end_records_err before (ok a, s) h = elim (Option-cases (rs.refuses_commit s.records)) [
    | inl e ↦ ground arith
    | inr (x, e) ↦ ground arith
  ]

  end_records-refused :
      {A : Type 0} (before : rs.State) (a : A) (s : State) {e : Error}
      → rs.refuses_commit s.records ≡ some e
      → end_records k cards rs bs before (ok a, s) ≡ (err e, record s { records = before })
  end_records-refused before a s h = rw (h, end_records) refl

  record_tx-begun :
      {A : Type 0} (m : Act A) (s : State)
      → rs.refuses_begin s.records ≡ none
      → record_tx k cards rs bs m s ≡ end_records k cards rs bs s.records (m s)
  unfolding record_tx
  record_tx-begun m s e = rw (e, record_tx) refl

  record_tx-refused :
      {A : Type 0} (m : Act A) (s : State) (e : Error)
      → rs.refuses_begin s.records ≡ some e
      → record_tx k cards rs bs m s ≡ (err e, s)
  unfolding record_tx
  record_tx-refused m s e h = rw (h, record_tx) refl

  -- Whatever a body does under the record store's transaction, if the call ends in an error the
  -- records are as they were before it.
  pub record_tx_rollback :
      {A : Type 0} (m : Act A) (s s' : State) (e : Error)
      → record_tx k cards rs bs m s ≡ (err e, s')
      → s'.records ≡ s.records
  record_tx_rollback m s s' e h = elim (Option-cases (rs.refuses_begin s.records)) [
    | inl begun ↦ end_records_err s.records (m s) (sym (record_tx-begun m s begun) ∙ h)
    | inr (x, refused) ↦ ap (λ r. r.1.records) (sym (sym (record_tx-refused m s x refused) ∙ h))
  ]

  put_err :
      (rid : ℕ) (v : ℤ) (c : cards.Card) (s : State) (n : ℕ)
      (r : Result Error (Unit {0}) × bs.State) {s' : State} {e : Error}
      → bs.put rid v c s.blobs ≡ r
      → continue r.0 (λ _. pure n) (record s { blobs = r.1 }) ≡ (err e, s')
      → s'.blobs ≡ s.blobs
  put_err rid v c s n (err x, b) same h =
      ap (λ t. t.1.blobs) (sym h) ∙ bs.put_atomic rid v c s.blobs b x same
  put_err rid v c s n (ok x, b) same h = absurd (ground arith)

  save_body_blobs :
      (metadata : Metadata) (card : cards.Card) (time : ℤ) (index : Option ℤ) (s s' : State)
      (e : Error)
      → save_body k cards rs bs metadata card time index s ≡ (err e, s')
      → s'.blobs ≡ s.blobs
  save_body_blobs metadata card time index s s' e h =
      saved (rs.save_record metadata card time index s.records) h
    where
      found :
          (n : ℕ) (t : rs.State) (r : Result Error Record × rs.State)
          → continue r.0
              (λ rec.
                on_blobs k cards rs bs (
                  bs.put rec.id rec.info.update_time
                    (cards.set_tags card (tag_names rec.info.tags)))
                >> pure n)
              (record { records = r.1; blobs = s.blobs })
            ≡ (err e, s')
          → s'.blobs ≡ s.blobs
      found n t (err x, u) h = ap (λ z. z.1.blobs) (sym h)
      found n t (ok rec, u) h =
          put_err rec.id rec.info.update_time (cards.set_tags card (tag_names rec.info.tags))
            (record { records = u; blobs = s.blobs }) n _ refl h

      saved :
          (r : Result Error ℕ × rs.State)
          → continue r.0
              (λ n. do
                rec ← on_records k cards rs bs (rs.find_record n)
                on_blobs k cards rs bs (
                    bs.put rec.id rec.info.update_time
                      (cards.set_tags card (tag_names rec.info.tags)))
                pure n)
              (record { records = r.1; blobs = s.blobs })
            ≡ (err e, s')
          → s'.blobs ≡ s.blobs
      saved (err x, t) h = ap (λ z. z.1.blobs) (sym h)
      saved (ok n, t) h = found n t (rs.find_record n t) h

  -- On a record store that never refuses a commit, and a blob store whose `Put` changes nothing when
  -- it fails, a `SaveCard` that fails leaves the records and the blobs as they were.
  pub save_card_atomic :
      (metadata : Metadata) (card : cards.Card) (time : ℤ) (index : Option ℤ) (s s' : State)
      (e : Error)
      → ((t : rs.State) → rs.refuses_commit t ≡ none)
      → save_card k cards rs bs metadata card time index s ≡ (err e, s')
      → (s'.records ≡ s.records) × (s'.blobs ≡ s.blobs)
  unfolding save_card
  save_card_atomic metadata card time index s s' e commits h = (
    record_tx_rollback (save_body k cards rs bs metadata card time index) s s' e h,
    elim (Option-cases (rs.refuses_begin s.records)) [
      | inl begun ↦
          ended (save_body k cards rs bs metadata card time index s) refl
            (sym (record_tx-begun (save_body k cards rs bs metadata card time index) s begun) ∙ h)
      | inr (x, refused) ↦
          ap (λ r. r.1.blobs)
            (sym (
              sym (record_tx-refused (save_body k cards rs bs metadata card time index) s x refused)
              ∙ h))
    ],
  )
    where
      ended :
          (r : Result Error ℕ × State)
          → save_body k cards rs bs metadata card time index s ≡ r
          → end_records k cards rs bs s.records r ≡ (err e, s')
          → s'.blobs ≡ s.blobs
      ended (err x, t) same h =
          ap (λ z. z.1.blobs) (sym h) ∙ save_body_blobs metadata card time index s t x same
      ended (ok n, t) same h = absurd (ground (arith, commits t.records))

  -- Where the transaction begins, the body of `SaveCard` succeeds and changes the blobs, and the
  -- commit of the records is then refused, `SaveCard` fails, and leaves the records as they were
  -- and the blobs changed.
  pub save_card_split :
      (metadata : Metadata) (card : cards.Card) (time : ℤ) (index : Option ℤ) (s t : State)
      (rid : ℕ) (e : Error)
      → rs.refuses_begin s.records ≡ none
      → save_body k cards rs bs metadata card time index s ≡ (ok rid, t)
      → rs.refuses_commit t.records ≡ some e
      → t.blobs ≢ s.blobs
      → (s' : State) × (save_card k cards rs bs metadata card time index s ≡ (err e, s'))
        × (s'.records ≡ s.records)
        × (s'.blobs ≢ s.blobs)
  unfolding save_card
  save_card_split metadata card time index s t rid e begun done refused changed = (
    record t { records = s.records },
    record_tx-begun (save_body k cards rs bs metadata card time index) s begun
        ∙ ap (end_records k cards rs bs s.records) done
        ∙ end_records-refused s.records rid t refused,
    refl,
    changed,
  )
