-- ===== src/Records/Rules.antt =====
-- store/record/erecord: what the schema promises of the tables, and each statement keeping it.
use card_client.Prelude.{
  ℕ, ◌≤◌, String, List, [], ◌∷◌, ◌++◌, true, false, ◌==◌, str_eq, eq_iff, All, ◌≡◌, refl, arith,
  Bool-cases, inl, inr, ◌∙◌, ap,
}
use card_client.Resource.Types.{Creator}
use card_client.Records.Tables.{
  CardFields, RecordRow, Tables, collides, is_taken, replace_row, has_creator,
}

-- Two rows differ in their IDs and in what each unique index is over.
abbrev pub IsApart : RecordRow → RecordRow → Type 0
IsApart r s = ((r.id == s.id) ≡ false) × (collides r.fields s.fields ≡ false)

abbrev pub Apart : List RecordRow → Type 0
Apart [] = Unit {0}
Apart (r ∷ rs) = All (IsApart r) rs × Apart rs

abbrev pub Owned : List Creator → RecordRow → Type 0
Owned cs r = has_creator r.fields.creator_id cs ≡ true

-- The unique indexes, SQLite's sequence and the foreign key of a record's creator.
pub record Inv (t : Tables) : Type 0 where
  pub apart : Apart t.records
  pub below : All (λ r. r.id ≤ t.sequence) t.records
  pub owned : All (Owned t.creators) t.records

str_eq_sym : (a b : String) → str_eq a b ≡ str_eq b a
str_eq_sym a b = ground (arith, eq_iff a b, eq_iff b a)

pub collides_sym : (f g : CardFields) → collides f g ≡ collides g f
collides_sym f g =
    rw
      (
        str_eq_sym f.source g.source,
        str_eq_sym f.character_id g.character_id,
        str_eq_sym f.platform_id g.platform_id,
        str_eq_sym f.normalized_url g.normalized_url,
      )
      refl

-- No row of the others collides with what is not taken.
pub not_taken_cons :
    (rid : ℕ) (f : CardFields) (r : RecordRow) (rs : List RecordRow)
    → is_taken rid f (r ∷ rs) ≡ false
    → (r.id == rid) ≡ false
    → (collides r.fields f ≡ false) × (is_taken rid f rs ≡ false)
unfolding is_taken
not_taken_cons rid f r rs free differs = elim (Bool-cases (collides r.fields f)) [
  | inl hit ↦ absurd (impossible (simp (differs, hit) at free))
  | inr miss ↦ (miss, simp (differs, miss) at free)
]
  where
    impossible : true ≡ false → ⊥
    impossible e = cc

not_taken_tail :
    (rid : ℕ) (f : CardFields) (r : RecordRow) (rs : List RecordRow)
    → is_taken rid f (r ∷ rs) ≡ false
    → is_taken rid f rs ≡ false
unfolding is_taken
not_taken_tail rid f r rs free = elim (Bool-cases (r.id == rid)) [
  | inl same ↦ simp same at free
  | inr differs ↦ (not_taken_cons rid f r rs free differs).1
]

absent-replace :
    (new : RecordRow) (rs : List RecordRow)
    → All (λ s. (s.id == new.id) ≡ false) rs
    → replace_row new rs ≡ rs
unfolding replace_row
absent-replace new [] a = refl
absent-replace new (r ∷ rs) a = rw a.0 (ap (◌∷◌ r) (absent-replace new rs a.1))

pub All-replace {κ} :
    (P : RecordRow → Type κ) (new : RecordRow) (rs : List RecordRow)
    → P new
    → All P rs
    → All P (replace_row new rs)
unfolding replace_row
All-replace P new [] p a = tt
All-replace P new (r ∷ rs) p a = elim (Bool-cases (r.id == new.id)) [
  | inl same ↦ rw same (p, All-replace P new rs p a.1)
  | inr differs ↦ rw differs (a.0, All-replace P new rs p a.1)
]

-- Rows that differ in their IDs, of which a row is not taken.
IsApart-new :
    (new : RecordRow) (rs : List RecordRow)
    → All (λ s. (s.id == new.id) ≡ false) rs
    → is_taken new.id new.fields rs ≡ false
    → All (IsApart new) rs
IsApart-new new [] a free = tt
IsApart-new new (r ∷ rs) a free =
    let (miss, rest) = not_taken_cons new.id new.fields r rs free a.0 in
    ((ground (arith, a.0), collides_sym new.fields r.fields ∙ miss), IsApart-new new rs a.1 rest)

ids_of_apart :
    (r new : RecordRow) (rs : List RecordRow)
    → (r.id == new.id) ≡ true
    → All (IsApart r) rs
    → All (λ s. (s.id == new.id) ≡ false) rs
ids_of_apart r new [] same a = tt
ids_of_apart r new (s ∷ rs) same a = (ground (arith, a.0.0), ids_of_apart r new rs same a.1)

pub replace-Apart :
    (new : RecordRow) (rs : List RecordRow)
    → Apart rs
    → is_taken new.id new.fields rs ≡ false
    → Apart (replace_row new rs)
unfolding replace_row
replace-Apart new [] a free = tt
replace-Apart new (r ∷ rs) a free =
    let rest = not_taken_tail new.id new.fields r rs free in
    elim (Bool-cases (r.id == new.id)) [
      | inl same ↦
          let others = ids_of_apart r new rs same a.0 in
          rw (same, absent-replace new rs others) (IsApart-new new rs others rest, a.1)
      | inr differs ↦ rw differs (
        All-replace (IsApart r) new rs
            (differs, (not_taken_cons new.id new.fields r rs free differs).0) a.0,
        replace-Apart new rs a.1 rest,
      )
    ]

pub All-append {κ} :
    (P : RecordRow → Type κ) (rs : List RecordRow) (new : RecordRow)
    → All P rs
    → P new
    → All P (rs ++ (new ∷ []))
All-append P [] new a p = (p, tt)
All-append P (r ∷ rs) new a p = (a.0, All-append P rs new a.1 p)

pub append-Apart :
    (new : RecordRow) (rs : List RecordRow)
    → Apart rs
    → All (λ s. (s.id == new.id) ≡ false) rs
    → is_taken new.id new.fields rs ≡ false
    → Apart (rs ++ (new ∷ []))
append-Apart new [] a others free = (tt, tt)
append-Apart new (r ∷ rs) a others free =
    let (miss, rest) = not_taken_cons new.id new.fields r rs free others.0 in
    (All-append (IsApart r) rs new a.0 (others.0, miss), append-Apart new rs a.1 others.1 rest)
