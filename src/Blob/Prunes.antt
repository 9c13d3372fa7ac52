-- ===== src/Blob/Prunes.antt =====
-- store/blob/sqlblob/store.go: what `deleteOldVersions` leaves of a card's versions.
use card_client.Prelude.{
  ℕ, suc, ◌-◌, ◌<◌, ◌≤◌, List, [], ◌∷◌, true, false, none, some, if◌then◌else◌, ◌==◌, ◌≡◌, refl,
  arith, keep_if, length, get_elem?, get_elem?-IsSome, All, All-get_elem?, ap, ◌∙◌, Bool-cases,
  Option-cases, inl, inr, ==_refl, leb,
}
use card_client.Prelude.Int.{ℤ, ltb_ℤ}
use card_client.Prelude.Assoc.{insert}
use card_client.Blob.Codec.{Bytes}
use card_client.Blob.Tables.{CardRow, insert_asc, versions_of, select_png, delete_below, upsert_row}
use card_client.Blob.Sql.{Store, Db}
use card_client.Blob.Versions.{
  other_than, IsAscending, newest, versions_of-delete_below, versions_of-delete_row,
  versions_of-delete_below_ne, versions_of-delete_row_ne, select-delete_below, keep-IsAscending,
  insert-IsAscending, All-other_than, keep-eq-drop,
}

-- The cards that `deleteOldVersions` leaves.
abbrev pub pruned : ℕ → ℕ → List CardRow → List CardRow
pruned max rid cs =
    let vs = versions_of rid cs in
    if leb (length vs) max
    then cs
    else elim (get_elem? vs (length vs - max)) [ none ↦ cs | some hi ↦ delete_below rid hi cs ]

pub versions_of-pruned :
    (max rid : ℕ) (cs : List CardRow)
    → 0 < max
    → IsAscending (versions_of rid cs)
    → versions_of rid (pruned max rid cs) ≡ newest max (versions_of rid cs)
versions_of-pruned max rid cs pos a =
    let vs = versions_of rid cs in
    elim (Bool-cases (leb (length vs) max)) [
      | inl few ↦ let none_over : length vs - max ≡ 0 = ground arith in rw (few, none_over) refl
      | inr many ↦
          let (hi, e) = get_elem?-IsSome vs (length vs - max) (ground arith) in
          simp (many, e)
            (versions_of-delete_below rid hi cs ∙ keep-eq-drop vs (length vs - max) hi a e)
    ]

pub versions_of-pruned_ne :
    (max rid r : ℕ) (cs : List CardRow)
    → (rid == r) ≡ false
    → versions_of r (pruned max rid cs) ≡ versions_of r cs
versions_of-pruned_ne max rid r cs ne =
    let vs = versions_of rid cs in
    elim (Bool-cases (leb (length vs) max)) [
      | inl few ↦ simp few refl
      | inr many ↦ elim (Option-cases (get_elem? vs (length vs - max))) [
        | inl e ↦ simp (many, e) refl
        | inr (hi, e) ↦ simp (many, e) (versions_of-delete_below_ne rid r hi cs ne)
      ]
    ]

module _ (rid : ℕ) (v : ℤ) (png : Bytes) (cs : List CardRow) where
  pub versions_of-upsert :
      versions_of rid (upsert_row rid v png cs)
      ≡ insert_asc v (keep_if (other_than v) (versions_of rid cs))
  unfolding versions_of upsert_row
  versions_of-upsert = rw (==_refl rid) (ap (insert_asc v) (versions_of-delete_row rid v cs))

  pub versions_of-upsert_ne :
      (r : ℕ) → (rid == r) ≡ false → versions_of r (upsert_row rid v png cs) ≡ versions_of r cs
  unfolding versions_of upsert_row
  versions_of-upsert_ne r ne = rw ne (versions_of-delete_row_ne rid r v cs ne)

  pub upsert-IsAscending :
      IsAscending (versions_of rid cs) → IsAscending (versions_of rid (upsert_row rid v png cs))
  upsert-IsAscending a = rw versions_of-upsert (
      insert-IsAscending v (keep_if (other_than v) (versions_of rid cs))
        (keep-IsAscending (other_than v) (versions_of rid cs) a)
        (All-other_than v (versions_of rid cs)))

keep_differing :
    (v : ℤ) (xs : List ℤ) → All (λ x. ltb_ℤ v x ≡ true) xs → keep_if (other_than v) xs ≡ xs
keep_differing v [] a = refl
keep_differing v (x ∷ xs) a =
    let apart : other_than v x ≡ true = ground (arith, a.0) in
    rw apart (ap (◌∷◌ x) (keep_differing v xs a.1))

insert_below : (v : ℤ) (xs : List ℤ) → All (λ x. ltb_ℤ v x ≡ true) xs → insert_asc v xs ≡ v ∷ xs
unfolding insert_asc
insert_below v [] a = refl
insert_below v (x ∷ xs) a = ground (arith, a.0)

-- The database after a `Put`.
abbrev pub after_put : Store → ℕ → ℤ → Bytes → Bytes → Db → ℕ → Db
after_put st rid v png thumb db n = record {
  tables = record {
    cards = pruned st.max_versions rid (upsert_row rid v png db.tables.cards);
    thumbnails = insert rid thumb db.tables.thumbnails;
  };
  statements = n;
}

select-pruned_below :
    (max rid : ℕ) (v : ℤ) (cs : List CardRow) (hi : ℤ)
    → leb (length (versions_of rid cs)) max ≡ false
    → get_elem? (versions_of rid cs) (length (versions_of rid cs) - max) ≡ some hi
    → ltb_ℤ v hi ≡ true
    → select_png rid v (pruned max rid cs) ≡ none
select-pruned_below max rid v cs hi many e low =
    simp (many, e) (select-delete_below rid v hi cs ∙ simp low refl)

stale_position :
    (max i : ℕ) (vs : List ℤ) (v : ℤ) (old : List ℤ) (hi : ℤ)
    → vs ≡ v ∷ old
    → suc (length old) - max ≡ suc i
    → get_elem? old i ≡ some hi
    → get_elem? vs (length vs - max) ≡ some hi
stale_position max i vs v old hi e place at = rw e (rw place at)

pub select-stale :
    (max rid : ℕ) (v : ℤ) (png : Bytes) (cs : List CardRow)
    → 0 < max
    → All (λ x. ltb_ℤ v x ≡ true) (versions_of rid cs)
    → max ≤ length (versions_of rid cs)
    → select_png rid v (pruned max rid (upsert_row rid v png cs)) ≡ none
select-stale max rid v png cs pos above full =
    let old = versions_of rid cs in
    let rows = upsert_row rid v png cs in
    let vs : versions_of rid (upsert_row rid v png cs) ≡ v ∷ old =
      versions_of-upsert rid v png cs
      ∙ ap (insert_asc v) (keep_differing v old above)
      ∙ insert_below v old above in
    let many : leb (suc (length old)) max ≡ false = ground arith in
    let place : suc (length old) - max ≡ suc (length old - max) = omega arith in
    let (hi, e) = get_elem?-IsSome old (length old - max) (omega arith) in
    let low : ltb_ℤ v hi ≡ true =
      All-get_elem? (λ x. ltb_ℤ v x ≡ true) old (length old - max) hi above e in
    let over : leb (length (versions_of rid rows)) max ≡ false = rw vs many in
    let at : get_elem? (versions_of rid rows) (length (versions_of rid rows) - max) ≡ some hi =
      stale_position max (length old - max) (versions_of rid rows) v old hi vs place e in
    select-pruned_below max rid v rows hi over at low
