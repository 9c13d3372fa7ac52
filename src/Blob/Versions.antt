-- ===== src/Blob/Versions.antt =====
-- store/blob/sqlblob/store.go: the versions of a card, before and after a statement.
use card_client.Prelude.{
  ℕ, zero, suc, ◌-◌, ◌≤◌, List, [], ◌∷◌, Bool, true, false, not, none, some, if◌then◌else◌, ◌==◌,
  ◌≡◌, refl, arith, keep_if, length, drop, get_elem?, All, All-get_elem?, ap, subst, sym, ◌∙◌,
  Bool-cases, inl, inr, length-drop,
}
use card_client.Prelude.Int.{ℤ, ltb_ℤ, eqb_ℤ}
use card_client.Blob.Tables.{
  CardRow, insert_asc, versions_of, select_png, delete_row, delete_below, delete_card,
}

abbrev pub at_least : ℤ → ℤ → Bool
at_least hi v = not (ltb_ℤ v hi)

abbrev pub other_than : ℤ → ℤ → Bool
other_than v x = not (eqb_ℤ x v)

-- Strictly ascending.
abbrev pub IsAscending : List ℤ → Type 0
IsAscending [] = Unit {0}
IsAscending (x ∷ xs) = All (λ y. ltb_ℤ x y ≡ true) xs × IsAscending xs

-- The last `n` of an ascending list.
abbrev pub newest : ℕ → List ℤ → List ℤ
newest n xs = drop (length xs - n) xs

-- Ascending, with repetitions.
abbrev IsSorted : List ℤ → Type 0
IsSorted [] = Unit {0}
IsSorted (x ∷ xs) = All (λ y. ltb_ℤ y x ≡ false) xs × IsSorted xs

pub All-keep {κ} : (P : ℤ → Type κ) (p : ℤ → Bool) (xs : List ℤ) → All P xs → All P (keep_if p xs)
All-keep P p [] a = tt
All-keep P p (x ∷ xs) a = elim (Bool-cases (p x)) [
  | inl e ↦ rw e (a.0, All-keep P p xs a.1)
  | inr e ↦ rw e (All-keep P p xs a.1)
]

pub All-insert_asc {κ} :
    (P : ℤ → Type κ) (v : ℤ) (xs : List ℤ) → P v → All P xs → All P (insert_asc v xs)
unfolding insert_asc
All-insert_asc P v [] p a = (p, tt)
All-insert_asc P v (x ∷ xs) p a = elim (Bool-cases (ltb_ℤ x v)) [
  | inl e ↦ rw e (a.0, All-insert_asc P v xs p a.1)
  | inr e ↦ rw e (p, a)
]

not_below : (x y z : ℤ) → ltb_ℤ x y ≡ false → ltb_ℤ z x ≡ false → ltb_ℤ z y ≡ false
not_below x y z h k = ground arith

not_below_of_lt : (x y : ℤ) → ltb_ℤ x y ≡ true → ltb_ℤ y x ≡ false
not_below_of_lt x y h = ground arith

All-not_below :
    (v x : ℤ) (xs : List ℤ)
    → ltb_ℤ x v ≡ false
    → All (λ y. ltb_ℤ y x ≡ false) xs
    → All (λ y. ltb_ℤ y v ≡ false) xs
All-not_below v x [] h a = tt
All-not_below v x (y ∷ xs) h a = (not_below x v y h a.0, All-not_below v x xs h a.1)

insert-IsSorted : (v : ℤ) (xs : List ℤ) → IsSorted xs → IsSorted (insert_asc v xs)
unfolding insert_asc
insert-IsSorted v [] s = (tt, tt)
insert-IsSorted v (x ∷ xs) s = elim (Bool-cases (ltb_ℤ x v)) [
  | inl e ↦ rw e (
    All-insert_asc (λ y. ltb_ℤ y x ≡ false) v xs (not_below_of_lt x v e) s.0,
    insert-IsSorted v xs s.1,
  )
  | inr e ↦ rw e ((e, All-not_below v x xs e s.0), s)
]

versions_of-IsSorted : (rid : ℕ) (cs : List CardRow) → IsSorted (versions_of rid cs)
unfolding versions_of
versions_of-IsSorted rid [] = tt
versions_of-IsSorted rid (c ∷ cs) = elim (Bool-cases (c.rid == rid)) [
  | inl e ↦ rw e (insert-IsSorted c.version (versions_of rid cs) (versions_of-IsSorted rid cs))
  | inr e ↦ rw e (versions_of-IsSorted rid cs)
]

insert_front : (v : ℤ) (xs : List ℤ) → All (λ y. ltb_ℤ y v ≡ false) xs → insert_asc v xs ≡ v ∷ xs
unfolding insert_asc
insert_front v [] a = refl
insert_front v (x ∷ xs) a = rw a.0

keep-insert :
    (p : ℤ → Bool) (v : ℤ) (xs : List ℤ)
    → IsSorted xs
    → keep_if p (insert_asc v xs) ≡ (if p v then insert_asc v (keep_if p xs) else keep_if p xs)
unfolding insert_asc
keep-insert p v [] s = ground arith
keep-insert p v (x ∷ xs) s = elim (Bool-cases (ltb_ℤ x v)) [
  | inl e ↦ elim (Bool-cases (p x)) [
    | inl kept ↦ elim (Bool-cases (p v)) [
      | inl new ↦
          let ih = rw new at (keep-insert p v xs s.1) in rw (e, kept, new) (rw e (ap (◌∷◌ x) ih))
      | inr old ↦ let ih = rw old at (keep-insert p v xs s.1) in rw (e, kept, old) (ap (◌∷◌ x) ih)
    ]
    | inr gone ↦ rw (e, gone) (keep-insert p v xs s.1)
  ]
  | inr e ↦ elim (Bool-cases (p v)) [
    | inl new ↦
        rw (e, new)
          (sym (
            insert_front v (keep_if p (x ∷ xs))
              (All-keep (λ y. ltb_ℤ y v ≡ false) p (x ∷ xs) (e, All-not_below v x xs e s.0))))
    | inr old ↦ rw (e, old)
  ]
]

-- Rows of one card that are kept by a test of their version.
versions_of-keep :
    (rid : ℕ) (p : ℤ → Bool) (q : CardRow → Bool) (cs : List CardRow)
    → ((c : CardRow) → (c.rid == rid) ≡ true → q c ≡ p c.version)
    → versions_of rid (keep_if q cs) ≡ keep_if p (versions_of rid cs)
unfolding versions_of
versions_of-keep rid p q [] h = refl
versions_of-keep rid p q (c ∷ cs) h = elim (Bool-cases (c.rid == rid)) [
  | inl same ↦ elim (Bool-cases (p c.version)) [
    | inl kept ↦
        let test : q c ≡ true = h c same ∙ kept in
        let k =
          rw kept at (keep-insert p c.version (versions_of rid cs) (versions_of-IsSorted rid cs)) in
        simp (test, same) (ap (insert_asc c.version) (versions_of-keep rid p q cs h) ∙ sym k)
    | inr gone ↦
        let test : q c ≡ false = h c same ∙ gone in
        let k =
          rw gone at (keep-insert p c.version (versions_of rid cs) (versions_of-IsSorted rid cs)) in
        simp (test, same) (versions_of-keep rid p q cs h ∙ sym k)
  ]
  | inr other ↦ elim (Bool-cases (q c)) [
    | inl kept ↦ simp (kept, other) (versions_of-keep rid p q cs h)
    | inr gone ↦ simp (gone, other) (versions_of-keep rid p q cs h)
  ]
]

pub versions_of-delete_below :
    (rid : ℕ) (hi : ℤ) (cs : List CardRow)
    → versions_of rid (delete_below rid hi cs) ≡ keep_if (at_least hi) (versions_of rid cs)
unfolding delete_below
versions_of-delete_below rid hi cs = versions_of-keep rid (at_least hi) _ cs (λ c e. simp e refl)

pub versions_of-delete_row :
    (rid : ℕ) (v : ℤ) (cs : List CardRow)
    → versions_of rid (delete_row rid v cs) ≡ keep_if (other_than v) (versions_of rid cs)
unfolding delete_row
versions_of-delete_row rid v cs = versions_of-keep rid (other_than v) _ cs (λ c e. simp e refl)

-- Another card's versions stay.
pub versions_of-delete_below_ne :
    (rid r : ℕ) (hi : ℤ) (cs : List CardRow)
    → (rid == r) ≡ false
    → versions_of r (delete_below rid hi cs) ≡ versions_of r cs
unfolding versions_of delete_below
versions_of-delete_below_ne rid r hi [] ne = refl
versions_of-delete_below_ne rid r hi (c ∷ cs) ne =
    ground (arith, versions_of-delete_below_ne rid r hi cs ne)

pub versions_of-delete_row_ne :
    (rid r : ℕ) (v : ℤ) (cs : List CardRow)
    → (rid == r) ≡ false
    → versions_of r (delete_row rid v cs) ≡ versions_of r cs
unfolding versions_of delete_row
versions_of-delete_row_ne rid r v [] ne = refl
versions_of-delete_row_ne rid r v (c ∷ cs) ne =
    ground (arith, versions_of-delete_row_ne rid r v cs ne)

pub versions_of-delete_card :
    (rid : ℕ) (cs : List CardRow) → versions_of rid (delete_card rid cs) ≡ []
unfolding versions_of delete_card
versions_of-delete_card rid [] = refl
versions_of-delete_card rid (c ∷ cs) = ground (arith, versions_of-delete_card rid cs)

pub versions_of-delete_card_ne :
    (rid r : ℕ) (cs : List CardRow)
    → (rid == r) ≡ false
    → versions_of r (delete_card rid cs) ≡ versions_of r cs
unfolding versions_of delete_card
versions_of-delete_card_ne rid r [] ne = refl
versions_of-delete_card_ne rid r (c ∷ cs) ne =
    ground (arith, versions_of-delete_card_ne rid r cs ne)

pub select-delete_below :
    (rid : ℕ) (v hi : ℤ) (cs : List CardRow)
    → select_png rid v (delete_below rid hi cs) ≡ (if ltb_ℤ v hi then none else select_png rid v cs)
unfolding select_png delete_below
select-delete_below rid v hi [] = ground arith
select-delete_below rid v hi (c ∷ cs) = ground (arith, select-delete_below rid v hi cs)

-- Facts about one ascending list.
pub keep-IsAscending : (p : ℤ → Bool) (xs : List ℤ) → IsAscending xs → IsAscending (keep_if p xs)
keep-IsAscending p [] a = tt
keep-IsAscending p (x ∷ xs) a = elim (Bool-cases (p x)) [
  | inl e ↦ rw e (All-keep (λ y. ltb_ℤ x y ≡ true) p xs a.0, keep-IsAscending p xs a.1)
  | inr e ↦ rw e (keep-IsAscending p xs a.1)
]

-- Of what comes after a larger number, all is larger.
All-above :
    (v x : ℤ) (xs : List ℤ)
    → ltb_ℤ v x ≡ true
    → All (λ y. ltb_ℤ x y ≡ true) xs
    → All (λ y. ltb_ℤ v y ≡ true) xs
All-above v x [] h a = tt
All-above v x (y ∷ xs) h a = (ground arith, All-above v x xs h a.1)

pub insert-IsAscending :
    (v : ℤ) (xs : List ℤ)
    → IsAscending xs
    → All (λ x. eqb_ℤ x v ≡ false) xs
    → IsAscending (insert_asc v xs)
unfolding insert_asc
insert-IsAscending v [] a d = (tt, tt)
insert-IsAscending v (x ∷ xs) a d = elim (Bool-cases (ltb_ℤ x v)) [
  | inl e ↦
      rw e (All-insert_asc (λ y. ltb_ℤ x y ≡ true) v xs e a.0, insert-IsAscending v xs a.1 d.1)
  | inr e ↦
      let above : ltb_ℤ v x ≡ true = ground (arith, d.0) in
      rw e ((above, All-above v x xs above a.0), a)
]

pub All-other_than :
    (v : ℤ) (xs : List ℤ) → All (λ x. eqb_ℤ x v ≡ false) (keep_if (other_than v) xs)
All-other_than v [] = tt
All-other_than v (x ∷ xs) = ground (arith, All-other_than v xs)

keep-All : (hi : ℤ) (xs : List ℤ) → All (λ y. ltb_ℤ hi y ≡ true) xs → keep_if (at_least hi) xs ≡ xs
keep-All hi [] a = refl
keep-All hi (x ∷ xs) a =
    let here : at_least hi x ≡ true = ground (arith, a.0) in
    rw here (ap (◌∷◌ x) (keep-All hi xs a.1))

-- Dropping what is below the entry at a position drops the entries before it.
pub keep-eq-drop :
    (xs : List ℤ) (i : ℕ) (hi : ℤ)
    → IsAscending xs
    → get_elem? xs i ≡ some hi
    → keep_if (at_least hi) xs ≡ drop i xs
keep-eq-drop [] i hi a e = absurd (ground arith)
keep-eq-drop (x ∷ xs) zero hi a e =
    let same : x ≡ hi = ground arith in
    let here : at_least hi x ≡ true = ground arith in
    rw here (ap (◌∷◌ x) (keep-All hi xs (subst (λ h. All (λ y. ltb_ℤ h y ≡ true) xs) same a.0)))
keep-eq-drop (x ∷ xs) (suc i) hi a e =
    let below : ltb_ℤ x hi ≡ true = All-get_elem? (λ y. ltb_ℤ x y ≡ true) xs i hi a.0 e in
    let here : at_least hi x ≡ false = ground arith in rw here (keep-eq-drop xs i hi a.1 e)

pub length-newest-le : (n : ℕ) (xs : List ℤ) → length (newest n xs) ≤ n
length-newest-le n xs = omega (arith, length-drop (length xs - n) xs)
