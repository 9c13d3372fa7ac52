-- ===== src/Records/Columns.antt =====
-- store/record/erecord: the statements on creators, favourites and tags, and the deletes, keep what
-- the schema promises.
use card_client.Prelude.{
  ℕ, ◌≤◌, String, List, [], ◌∷◌, ◌++◌, Bool, true, false, not, none, some, ◌==◌, str_eq, eq_iff,
  keep_if, map, contains, All, ◌≡◌, refl, arith, Bool-cases, Option-cases, inl, inr, sym, subst,
}
use card_client.Prelude.Outcome.{ok, err}
use card_client.Resource.Types.{Creator}
use card_client.Records.Tables.{
  RecordRow, Tables, upsert_creator_row, find_row, has_creator, has_records, set_favorites,
  delete_records, delete_creators, set_tags, not_found, constraint_failed, all_tags_exist,
  distinct_ids,
}
use card_client.Records.Rules.{Inv, Apart, IsApart, Owned}
use card_client.Records.Found.{All-keep, keep-Apart}

has_creator-upsert :
    (cid : String) (c : Creator) (cs : List Creator)
    → has_creator cid cs ≡ true
    → has_creator cid (upsert_creator_row c cs) ≡ true
unfolding upsert_creator_row
has_creator-upsert cid c [] h = absurd (ground arith)
has_creator-upsert cid c (d ∷ ds) h = elim (Bool-cases (str_eq d.cid c.cid)) [
  | inl same ↦ rw same (ground (arith, eq_iff d.cid c.cid, h))
  | inr differs ↦ elim (Bool-cases (str_eq d.cid cid)) [
    | inl found ↦ rw (differs, found) refl
    | inr other ↦ rw (differs, other) (has_creator-upsert cid c ds (rw other at h))
  ]
]

All-Owned :
    (cs cs' : List Creator) (rs : List RecordRow)
    → ((cid : String) → has_creator cid cs ≡ true → has_creator cid cs' ≡ true)
    → All (Owned cs) rs
    → All (Owned cs') rs
All-Owned cs cs' [] more a = tt
All-Owned cs cs' (r ∷ rs) more a = (more r.fields.creator_id a.0, All-Owned cs cs' rs more a.1)

pub creators-Inv :
    (c : Creator) (t : Tables)
    → Inv t
    → Inv (record t { creators = upsert_creator_row c t.creators })
creators-Inv c t inv = record {
  apart = inv.apart;
  below = inv.below;
  owned =
      All-Owned t.creators (upsert_creator_row c t.creators) t.records
        (λ cid. has_creator-upsert cid c t.creators) inv.owned;
}

-- A creator with records stays.
has_creator-keep :
    (cid : String) (rs : List RecordRow) (cs : List Creator)
    → has_records cid rs ≡ true
    → has_creator cid cs ≡ true
    → has_creator cid (keep_if (λ c. has_records c.cid rs) cs) ≡ true
has_creator-keep cid rs [] used h = h
has_creator-keep cid rs (c ∷ cs) used h = elim (Bool-cases (str_eq c.cid cid)) [
  | inl found ↦
      let kept : has_records c.cid rs ≡ true =
        subst (λ x. has_records x rs ≡ true) (sym ((eq_iff c.cid cid).0 found)) used in
      rw kept (rw found refl)
  | inr other ↦
      let rest = has_creator-keep cid rs cs used (rw other at h) in
      elim (Bool-cases (has_records c.cid rs)) [
        | inl kept ↦ rw kept (rw other rest)
        | inr gone ↦ rw gone rest
      ]
]

has_records-cons :
    (cid : String) (r : RecordRow) (rs : List RecordRow)
    → has_records cid rs ≡ true
    → has_records cid (r ∷ rs) ≡ true
has_records-cons cid r rs h = ground arith

owners-used :
    (all rs : List RecordRow) (cs : List Creator)
    → ((cid : String) → has_records cid rs ≡ true → has_records cid all ≡ true)
    → All (Owned cs) rs
    → All (Owned (keep_if (λ c. has_records c.cid all) cs)) rs
owners-used all [] cs more a = tt
owners-used all (r ∷ rs) cs more a =
    let own : has_records r.fields.creator_id (r ∷ rs) ≡ true =
      ground (arith, eq_iff r.fields.creator_id r.fields.creator_id) in
    (
      has_creator-keep r.fields.creator_id all cs (more r.fields.creator_id own) a.0,
      owners-used all rs cs (λ cid h. more cid (has_records-cons cid r rs h)) a.1,
    )

pub cleanup-Inv : (t : Tables) → Inv t → Inv (delete_creators t).1
unfolding delete_creators
cleanup-Inv t inv = record {
  apart = inv.apart;
  below = inv.below;
  owned = owners-used t.records t.records t.creators (λ cid h. h) inv.owned;
}

pub delete-Inv : (rids : List ℕ) (t : Tables) → Inv t → Inv (delete_records rids t).1
unfolding delete_records
delete-Inv rids t inv = record {
  apart = keep-Apart (λ r. not (contains r.id rids)) t.records inv.apart;
  below = All-keep (λ r. r.id ≤ t.sequence) (λ r. not (contains r.id rids)) t.records inv.below;
  owned = All-keep (Owned t.creators) (λ r. not (contains r.id rids)) t.records inv.owned;
}

-- Setting favourites changes no ID and none of the card's fields.
All-favorites {κ} :
    (P : RecordRow → Type κ) (b : Bool) (rids : List ℕ) (rs : List RecordRow)
    → ((r : RecordRow) → P r → P (record r { favorite = b }))
    → All P rs
    → All P (set_favorites b rids rs)
unfolding set_favorites
All-favorites P b rids [] keeps a = tt
All-favorites P b rids (r ∷ rs) keeps a = elim (Bool-cases (contains r.id rids)) [
  | inl e ↦ rw e (keeps r a.0, All-favorites P b rids rs keeps a.1)
  | inr e ↦ rw e (a.0, All-favorites P b rids rs keeps a.1)
]

favorites-Apart :
    (b : Bool) (rids : List ℕ) (rs : List RecordRow) → Apart rs → Apart (set_favorites b rids rs)
unfolding set_favorites
favorites-Apart b rids [] a = tt
favorites-Apart b rids (r ∷ rs) a =
    let others = All-favorites (IsApart r) b rids rs (λ s h. h) a.0 in
    elim (Bool-cases (contains r.id rids)) [
      | inl e ↦ rw e (others, favorites-Apart b rids rs a.1)
      | inr e ↦ rw e (others, favorites-Apart b rids rs a.1)
    ]

pub favorites-Inv :
    (b : Bool) (rids : List ℕ) (t : Tables)
    → Inv t
    → Inv (record t { records = set_favorites b rids t.records })
favorites-Inv b rids t inv = record {
  apart = favorites-Apart b rids t.records inv.apart;
  below = All-favorites (λ r. r.id ≤ t.sequence) b rids t.records (λ r h. h) inv.below;
  owned = All-favorites (Owned t.creators) b rids t.records (λ r h. h) inv.owned;
}

set_tags-absent :
    (rid : ℕ) (tids : List String) (t : Tables)
    → find_row rid t.records ≡ none
    → set_tags rid tids t ≡ (err not_found, t)
unfolding set_tags
set_tags-absent rid tids t e = rw (e, set_tags) refl

set_tags-refused :
    (rid : ℕ) (tids : List String) (t : Tables) (r : RecordRow)
    → find_row rid t.records ≡ some r
    → all_tags_exist tids t.tags ≡ false
    → set_tags rid tids t ≡ (err constraint_failed, t)
unfolding set_tags
set_tags-refused rid tids t r e missing = rw (e, set_tags, missing) refl

pub set_tags-done :
    (rid : ℕ) (tids : List String) (t : Tables) (r : RecordRow)
    → find_row rid t.records ≡ some r
    → all_tags_exist tids t.tags ≡ true
    → set_tags rid tids t ≡ (
      ok tt,
      record t {
        record_tags =
            keep_if (λ e. not (e.0 == rid)) t.record_tags
            ++ map (λ s. (rid, s)) (distinct_ids tids);
      },
    )
unfolding set_tags
set_tags-done rid tids t r e there = rw (e, set_tags, there) refl

pub set_tags-Inv : (rid : ℕ) (tids : List String) (t : Tables) → Inv t → Inv (set_tags rid tids t).1
set_tags-Inv rid tids t inv = elim (Option-cases (find_row rid t.records)) [
  | inl e ↦ rw (set_tags-absent rid tids t e) inv
  | inr (r, e) ↦ elim (Bool-cases (all_tags_exist tids t.tags)) [
    | inl there ↦
        rw (set_tags-done rid tids t r e there)
          (record { apart = inv.apart; below = inv.below; owned = inv.owned })
    | inr missing ↦ rw (set_tags-refused rid tids t r e missing) inv
  ]
]
