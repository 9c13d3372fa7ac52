-- ===== src/Records/Found.antt =====
-- store/record/erecord: rows that are found and rows that are kept.
use card_client.Prelude.{
  ℕ, String, List, [], ◌∷◌, Bool, true, false, some, ◌==◌, str_eq, keep_if, All, ◌≡◌, refl, arith,
  Bool-cases, inl, inr, subst, some-injective,
}
use card_client.Records.Tables.{RecordRow, find_row, find_url, is_taken}
use card_client.Records.Rules.{Apart, IsApart, collides_sym}

pub All-keep {κ} :
    (P : RecordRow → Type κ) (p : RecordRow → Bool) (rs : List RecordRow)
    → All P rs
    → All P (keep_if p rs)
All-keep P p [] a = tt
All-keep P p (r ∷ rs) a = elim (Bool-cases (p r)) [
  | inl e ↦ rw e (a.0, All-keep P p rs a.1)
  | inr e ↦ rw e (All-keep P p rs a.1)
]

pub keep-Apart : (p : RecordRow → Bool) (rs : List RecordRow) → Apart rs → Apart (keep_if p rs)
keep-Apart p [] a = tt
keep-Apart p (r ∷ rs) a = elim (Bool-cases (p r)) [
  | inl e ↦ rw e (All-keep (IsApart r) p rs a.0, keep-Apart p rs a.1)
  | inr e ↦ rw e (keep-Apart p rs a.1)
]

-- A row that is found is the one of its ID.
pub find_row-id :
    (rid : ℕ) (rs : List RecordRow) (r : RecordRow)
    → find_row rid rs ≡ some r
    → (r.id == rid) ≡ true
unfolding find_row
find_row-id rid [] r e = absurd (ground arith)
find_row-id rid (q ∷ rs) r e = elim (Bool-cases (q.id == rid)) [
  | inl same ↦ subst (λ x. (x.id == rid) ≡ true) (some-injective (rw same at e)) same
  | inr differs ↦ find_row-id rid rs r (rw differs at e)
]

pub All-find_row {κ} :
    (P : RecordRow → Type κ) (rid : ℕ) (rs : List RecordRow) (r : RecordRow)
    → All P rs
    → find_row rid rs ≡ some r
    → P r
unfolding find_row
All-find_row P rid [] r a e = absurd (ground arith)
All-find_row P rid (q ∷ rs) r a e = elim (Bool-cases (q.id == rid)) [
  | inl same ↦ subst P (some-injective (rw same at e)) a.0
  | inr differs ↦ All-find_row P rid rs r a.1 (rw differs at e)
]

pub All-find_url {κ} :
    (P : RecordRow → Type κ) (url : String) (rs : List RecordRow) (r : RecordRow)
    → All P rs
    → find_url url rs ≡ some r
    → P r
unfolding find_url
All-find_url P url [] r a e = absurd (ground arith)
All-find_url P url (q ∷ rs) r a e = elim (Bool-cases (str_eq q.fields.normalized_url url)) [
  | inl same ↦ subst P (some-injective (rw same at e)) a.0
  | inr differs ↦ All-find_url P url rs r a.1 (rw differs at e)
]

-- Another row does not take what a row has.
apart-free :
    (q : RecordRow) (rs : List RecordRow) → All (IsApart q) rs → is_taken q.id q.fields rs ≡ false
unfolding is_taken
apart-free q [] a = refl
apart-free q (r ∷ rs) a = elim (Bool-cases (r.id == q.id)) [
  | inl same ↦ rw same (apart-free q rs a.1)
  | inr differs ↦ rw (differs, collides_sym r.fields q.fields, a.0.1) (apart-free q rs a.1)
]

pub found-free :
    (rid : ℕ) (rs : List RecordRow) (r : RecordRow)
    → Apart rs
    → find_row rid rs ≡ some r
    → is_taken rid r.fields rs ≡ false
unfolding find_row is_taken
found-free rid [] r a e = refl
found-free rid (q ∷ rs) r a e = elim (Bool-cases (q.id == rid)) [
  | inl same ↦
      let here : q ≡ r = some-injective (rw same at e) in
      let rids : q.id ≡ rid = ground (arith, same) in
      rw same (
        subst (λ x. is_taken rid x.fields rs ≡ false) here
          (subst (λ i. is_taken i q.fields rs ≡ false) rids (apart-free q rs a.0)))
  | inr differs ↦
      let later = rw differs at e in
      let miss = All-find_row (IsApart q) rid rs r a.0 later in
      rw (differs, miss.1) (found-free rid rs r a.1 later)
]
