-- ===== src/Records/Kept.antt =====
-- store/record/erecord: storing a record and changing its columns keep what the schema promises.
use card_client.Prelude.{
  ℕ, suc, ◌≤◌, List, [], ◌∷◌, ◌++◌, Bool, true, false, not, ◌||◌, none, some, ◌==◌, All, ◌≡◌, refl,
  arith, Bool-cases, Option-cases, inl, inr, subst,
}
use card_client.Prelude.Outcome.{ok, err}
use card_client.Records.Tables.{
  constraint_failed, not_found, RecordRow, Tables, find_row, find_url, is_taken, replace_row,
  upsert_record, has_creator, update_one,
}
use card_client.Records.Rules.{Inv, Owned, All-replace, All-append, replace-Apart, append-Apart}
use card_client.Records.Found.{find_row-id, All-find_row, All-find_url, found-free}

fresh_id :
    (n : ℕ) (rs : List RecordRow) → All (λ r. r.id ≤ n) rs → All (λ r. (r.id == suc n) ≡ false) rs
fresh_id n [] a = tt
fresh_id n (r ∷ rs) a = (ground (arith, a.0), fresh_id n rs a.1)

later_id : (n : ℕ) (rs : List RecordRow) → All (λ r. r.id ≤ n) rs → All (λ r. r.id ≤ suc n) rs
later_id n [] a = tt
later_id n (r ∷ rs) a = (omega (arith, a.0), later_id n rs a.1)

-- Both tests of an upsert.
passes : (a b : Bool) → (a || not b) ≡ false → (a ≡ false) × (b ≡ true)
passes a b e = (ground arith, ground arith)

module _ (merge : RecordRow → RecordRow → RecordRow) (new : RecordRow) (t : Tables) where
  -- What an upsert comes to.
  pub refused_upsert :
      find_url new.fields.normalized_url t.records ≡ none
      → (is_taken (suc t.sequence) new.fields t.records
          || not (has_creator new.fields.creator_id t.creators))
        ≡ true
      → upsert_record merge new t ≡ (err constraint_failed, t)
  unfolding upsert_record
  refused_upsert e refused = rw (e, upsert_record, refused) refl

  pub inserted :
      find_url new.fields.normalized_url t.records ≡ none
      → (is_taken (suc t.sequence) new.fields t.records
          || not (has_creator new.fields.creator_id t.creators))
        ≡ false
      → upsert_record merge new t ≡ (
        ok (suc t.sequence),
        record t {
          records = t.records ++ (record new { id = suc t.sequence } ∷ []);
          sequence = suc t.sequence;
        },
      )
  unfolding upsert_record
  inserted e free = rw (e, upsert_record, free) refl

  module _ (old : RecordRow) (e : find_url new.fields.normalized_url t.records ≡ some old) where
    pub refused_merge :
        (is_taken old.id (merge old new).fields t.records
            || not (has_creator (merge old new).fields.creator_id t.creators))
          ≡ true
        → upsert_record merge new t ≡ (err constraint_failed, t)
    unfolding upsert_record
    refused_merge refused = rw (e, upsert_record, refused) refl

    pub merged :
        (is_taken old.id (merge old new).fields t.records
            || not (has_creator (merge old new).fields.creator_id t.creators))
          ≡ false
        → upsert_record merge new t ≡ (
          ok old.id,
          record t { records = replace_row (record (merge old new) { id = old.id }) t.records },
        )
    unfolding upsert_record
    merged free = rw (e, upsert_record, free) refl

  insert-Inv :
      Inv t
      → find_url new.fields.normalized_url t.records ≡ none
      → Inv (upsert_record merge new t).1
  insert-Inv inv e =
      let rid = suc t.sequence in
      let taken = is_taken rid new.fields t.records in
      let owner = has_creator new.fields.creator_id t.creators in
      elim (Bool-cases (taken || not owner)) [
        | inl refused ↦ rw (refused_upsert e refused) inv
        | inr free ↦
            let (apart, owned) = passes taken owner free in
            rw (inserted e free) (record {
              apart =
                  append-Apart (record new { id = rid }) t.records inv.apart
                    (fresh_id t.sequence t.records inv.below) apart;
              below =
                  All-append (λ r. r.id ≤ rid) t.records (record new { id = rid })
                    (later_id t.sequence t.records inv.below) (omega arith);
              owned =
                  All-append (Owned t.creators) t.records (record new { id = rid }) inv.owned owned;
            })
      ]

  merge-Inv :
      Inv t
      → (old : RecordRow) → find_url new.fields.normalized_url t.records ≡ some old
      → Inv (upsert_record merge new t).1
  merge-Inv inv old e =
      let row : RecordRow = record (merge old new) { id = old.id } in
      let taken = is_taken old.id (merge old new).fields t.records in
      let owner = has_creator (merge old new).fields.creator_id t.creators in
      elim (Bool-cases (taken || not owner)) [
        | inl refused ↦ rw (refused_merge old e refused) inv
        | inr free ↦
            let (apart, owned) = passes taken owner free in
            rw (merged old e free) (record {
              apart = replace-Apart row t.records inv.apart apart;
              below =
                  All-replace (λ r. r.id ≤ t.sequence) row t.records
                    (All-find_url (λ r. r.id ≤ t.sequence) new.fields.normalized_url t.records old
                      inv.below e)
                    inv.below;
              owned = All-replace (Owned t.creators) row t.records owned inv.owned;
            })
      ]

  pub upsert_record-Inv : Inv t → Inv (upsert_record merge new t).1
  upsert_record-Inv inv = elim (Option-cases (find_url new.fields.normalized_url t.records)) [
    | inl e ↦ insert-Inv inv e
    | inr (old, e) ↦ merge-Inv inv old e
  ]

pub update_one-absent :
    (rid : ℕ) (change : RecordRow → RecordRow) (t : Tables)
    → find_row rid t.records ≡ none
    → update_one rid change t ≡ (err not_found, t)
unfolding update_one
update_one-absent rid change t e = rw (e, update_one) refl

pub update_one-found :
    (rid : ℕ) (change : RecordRow → RecordRow) (t : Tables) (r : RecordRow)
    → find_row rid t.records ≡ some r
    → update_one rid change t
      ≡ (ok tt, record t { records = replace_row (record (change r) { id = rid }) t.records })
unfolding update_one
update_one-found rid change t r e = rw (e, update_one) refl

-- An update of columns that no rule is about.
pub update_one-Inv :
    (rid : ℕ) (change : RecordRow → RecordRow) (t : Tables)
    → ((r : RecordRow) → (change r).fields ≡ r.fields)
    → Inv t
    → Inv (update_one rid change t).1
update_one-Inv rid change t keeps inv = elim (Option-cases (find_row rid t.records)) [
  | inl e ↦ rw (update_one-absent rid change t e) inv
  | inr (r, e) ↦
      let new : RecordRow = record (change r) { id = rid } in
      let same : r.id ≡ rid = ground (arith, find_row-id rid t.records r e) in
      rw (update_one-found rid change t r e) (record {
        apart =
            replace-Apart new t.records inv.apart
              (rw (keeps r) (found-free rid t.records r inv.apart e));
        below =
            All-replace (λ q. q.id ≤ t.sequence) new t.records
              (subst (λ i. i ≤ t.sequence) same
                (All-find_row (λ q. q.id ≤ t.sequence) rid t.records r inv.below e))
              inv.below;
        owned =
            All-replace (Owned t.creators) new t.records
              (rw (keeps r) (All-find_row (Owned t.creators) rid t.records r inv.owned e))
              inv.owned;
      })
]
