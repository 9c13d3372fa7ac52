-- ===== src/Pblob/Room.antt =====
-- store/blob/pblob: the versions of a card that a `Put` leaves.
use card_client.Prelude.{
  ℕ, none, get_elem?, suc, ◌<◌, ◌+◌, ◌-◌, ◌≤◌, List, [], ◌∷◌, true, false, not, some, ltb, ◌==◌,
  keep_if, ◌≡◌, refl, arith, ap, ◌∙◌, sym, Bool-cases, inl, inr, length, ==_refl, All,
  get_elem?-IsSome,
}
use card_client.Prelude.Int.{ℤ, pos, ltb_ℤ, leb_ℤ}
use card_client.Blob.Codec.{Bytes}
use card_client.Blob.Tables.{insert_asc}
use card_client.Blob.Versions.{newest, at_least, keep-eq-drop}
use card_client.Pblob.Db.{put_sorted, Ascending}
use card_client.Pblob.Slots.{
  Slot, Slots, png, thumb, lt_slot, in_versions, card_versions, is_stored, without_versions, pruned,
}
use card_client.Pblob.Sorted.{
  After-trans, After-versions, card_versions-IsAscending, keep-Ascending, is_stored-keep,
}

insert_first : (v : ℤ) (xs : List ℤ) → All (λ x. ltb_ℤ v x ≡ true) xs → insert_asc v xs ≡ v ∷ xs
unfolding insert_asc
insert_first v [] a = refl
insert_first v (x ∷ xs) a = let here : ltb_ℤ x v ≡ false = ground (arith, a.0) in rw here refl

pub card_versions-put_thumb :
    (rid r : ℕ) (b : Bytes) (m : Slots)
    → card_versions rid (put_sorted lt_slot (thumb r) b m) ≡ card_versions rid m
unfolding put_sorted
card_versions-put_thumb rid r b [] = refl
card_versions-put_thumb rid r b ((png q w, c) ∷ m) =
    ground (arith, card_versions-put_thumb rid r b m)
card_versions-put_thumb rid r b ((thumb q, c) ∷ m) =
    ground (arith, card_versions-put_thumb rid r b m)

pub is_stored-put_thumb :
    (rid r : ℕ) (v : ℤ) (b : Bytes) (m : Slots)
    → is_stored (png rid v) (put_sorted lt_slot (thumb r) b m) ≡ is_stored (png rid v) m
unfolding put_sorted
is_stored-put_thumb rid r v b [] = ground arith
is_stored-put_thumb rid r v b ((png q w, c) ∷ m) = ground (arith, is_stored-put_thumb rid r v b m)
is_stored-put_thumb rid r v b ((thumb q, c) ∷ m) = ground (arith, is_stored-put_thumb rid r v b m)

-- A new version takes its place among the card's.
pub card_versions-put_png :
    (rid : ℕ) (v : ℤ) (b : Bytes) (m : Slots)
    → Ascending lt_slot m
    → is_stored (png rid v) m ≡ false
    → card_versions rid (put_sorted lt_slot (png rid v) b m) ≡ insert_asc v (card_versions rid m)
unfolding put_sorted insert_asc
card_versions-put_png rid v b [] a new = ground arith
card_versions-put_png rid v b ((t, c) ∷ m) a new =
    let s = png rid v in
    elim (Bool-cases (lt_slot s t)) [
      | inl below ↦
          rw (below, ==_refl rid)
            (sym (
              insert_first v (card_versions rid ((t, c) ∷ m))
                (After-versions rid v ((t, c) ∷ m) (below, After-trans s t m below a.0))))
      | inr not_less ↦ elim (Bool-cases (lt_slot t s)) [
        | inl above ↦
            let ih = card_versions-put_png rid v b m a.1 (simp above at new) in
            rw (not_less, above) (passed t above ih)
        | inr same ↦ absurd (kept_false (simp (same, not_less) at new))
      ]
    ]
  where
    kept_false : true ≡ false → ⊥
    kept_false e = cc

    passed :
        (t : Slot)
        → lt_slot t (png rid v) ≡ true
        → card_versions rid (put_sorted lt_slot (png rid v) b m)
          ≡ insert_asc v (card_versions rid m)
        → card_versions rid ((t, c) ∷ put_sorted lt_slot (png rid v) b m)
          ≡ insert_asc v (card_versions rid ((t, c) ∷ m))
    passed (thumb q) above ih = ih
    passed (png q w) above ih = elim (Bool-cases (q == rid)) [
      | inl same ↦ let less : ltb_ℤ w v ≡ true = ground arith in rw (same, less) (ap (◌∷◌ w) ih)
      | inr differs ↦ rw differs ih
    ]

-- A version on or after the epoch.
abbrev pub NotNegative : ℤ → Type 0
NotNegative v = leb_ℤ (pos 0) v ≡ true

card_versions-without :
    (rid : ℕ) (hi : ℤ) (m : Slots)
    → All NotNegative (card_versions rid m)
    → card_versions rid (without_versions rid (pos 0) hi m)
      ≡ keep_if (at_least hi) (card_versions rid m)
card_versions-without rid hi [] a = refl
card_versions-without rid hi ((thumb r, b) ∷ m) a = card_versions-without rid hi m a
card_versions-without rid hi ((png r v, b) ∷ m) a = elim (Bool-cases (r == rid)) [
  | inl same ↦
      let here : All NotNegative (v ∷ card_versions rid m) = simp same at a in
      let ih = card_versions-without rid hi m here.1 in
      elim (Bool-cases (ltb_ℤ v hi)) [
        | inl old ↦ rw (same, here.0, old) ih
        | inr kept ↦ rw (same, here.0, kept) (rw same (ap (◌∷◌ v) ih))
      ]
  | inr differs ↦ rw differs (rw differs (card_versions-without rid hi m (simp differs at a)))
]

pub record NewestKept (max rid : ℕ) (v : ℤ) (m m' : Slots) : Type 0 where
  pub is_done : pruned max rid m ≡ some m'
  pub rest : card_versions rid m' ≡ newest (max - 1) (card_versions rid m)
  pub is_sorted : Ascending lt_slot m'
  pub is_new : is_stored (png rid v) m' ≡ false

-- With room for two versions or more, pruning does not panic.
pub pruned-newest :
    (max rid : ℕ) (v : ℤ) (m : Slots)
    → 2 ≤ max
    → Ascending lt_slot m
    → All NotNegative (card_versions rid m)
    → is_stored (png rid v) m ≡ false
    → (m' : Slots) × NewestKept max rid v m m'
pruned-newest max rid v m two a nonneg new =
    let vs = card_versions rid m in
    let i = length vs - max + 1 in
    elim (Bool-cases (ltb (length vs) max)) [
      | inl few ↦
          let zero_over : length vs - (max - 1) ≡ 0 = ground arith in
          (
            m,
            record {
              is_done = simp few refl;
              rest = rw zero_over refl;
              is_sorted = a;
              is_new = new;
            },
          )
      | inr many ↦
          let (hi, e) = get_elem?-IsSome vs i (ground arith) in
          let count : length vs - (max - 1) ≡ i = ground arith in
          (
            without_versions rid (pos 0) hi m,
            record {
              is_done = simp (many, e) refl;
              rest =
                  card_versions-without rid hi m nonneg
                  ∙ keep-eq-drop vs i hi (card_versions-IsAscending rid m a) e
                  ∙ rw count refl;
              is_sorted = keep-Ascending (λ s. not (in_versions rid (pos 0) hi s.0)) m a;
              is_new =
                  is_stored-keep (png rid v) (λ s. not (in_versions rid (pos 0) hi s.0)) m a new;
            },
          )
    ]

-- With room for one version, pruning panics as soon as the card has one.
pub pruned_one : (rid : ℕ) (m : Slots) → 0 < length (card_versions rid m) → pruned 1 rid m ≡ none
pruned_one rid m some_old =
    let vs = card_versions rid m in
    let many : ltb (length vs) 1 ≡ false = ground arith in
    let past : length vs - 1 + 1 ≡ length vs = ground arith in rw (many, past, past_end vs) refl
  where
    past_end : (vs : List ℤ) → get_elem? vs (length vs) ≡ none
    past_end [] = refl
    past_end (x ∷ vs) = past_end vs

pub length-insert_asc : (v : ℤ) (xs : List ℤ) → length (insert_asc v xs) ≡ suc (length xs)
unfolding insert_asc
length-insert_asc v [] = refl
length-insert_asc v (x ∷ xs) = ground (arith, length-insert_asc v xs)
