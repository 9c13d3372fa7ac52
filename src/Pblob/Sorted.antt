-- ===== src/Pblob/Sorted.antt =====
-- store/blob/pblob: the slots stay sorted, and so do the versions of a card.
use card_client.Prelude.{
  ℕ, [], ◌∷◌, Bool, true, false, ◌==◌, keep_if, ◌≡◌, refl, arith, subst, Bool-cases, inl, inr, All,
}
use card_client.Prelude.Int.{ℤ, ltb_ℤ}
use card_client.Blob.Codec.{Bytes}
use card_client.Blob.Versions.{IsAscending}
use card_client.Pblob.Db.{put_sorted, Ascending}
use card_client.Pblob.Slots.{Slot, Slots, png, thumb, lt_slot, card_versions, is_stored}

-- What comes after a slot.
abbrev pub After : Slot → Slots → Type 0
After s = All λ e. lt_slot s e.0 ≡ true

pub lt_slot_trans : (s t u : Slot) → lt_slot s t ≡ true → lt_slot t u ≡ true → lt_slot s u ≡ true
lt_slot_trans (png r v) (png q w) (png p x) h k = ground arith
lt_slot_trans (png r v) (png q w) (thumb p) h k = ground arith
lt_slot_trans (png r v) (thumb q) (png p x) h k = ground arith
lt_slot_trans (png r v) (thumb q) (thumb p) h k = ground arith
lt_slot_trans (thumb r) (png q w) (png p x) h k = ground arith
lt_slot_trans (thumb r) (png q w) (thumb p) h k = ground arith
lt_slot_trans (thumb r) (thumb q) (png p x) h k = ground arith
lt_slot_trans (thumb r) (thumb q) (thumb p) h k = ground arith

pub same_slot : (s t : Slot) → lt_slot s t ≡ false → lt_slot t s ≡ false → s ≡ t
same_slot (png r v) (png q w) h k = ground arith
same_slot (png r v) (thumb q) h k = ground arith
same_slot (thumb r) (png q w) h k = ground arith
same_slot (thumb r) (thumb q) h k = ground arith

pub After-trans : (s t : Slot) (m : Slots) → lt_slot s t ≡ true → After t m → After s m
After-trans s t [] h a = tt
After-trans s t ((u, b) ∷ m) h a = (lt_slot_trans s t u h a.0, After-trans s t m h a.1)

pub After-put :
    (s t : Slot) (b : Bytes) (m : Slots)
    → lt_slot s t ≡ true
    → After s m
    → After s (put_sorted lt_slot t b m)
unfolding put_sorted
After-put s t b [] h a = (h, tt)
After-put s t b ((u, c) ∷ m) h a =
    let rest = After-put s t b m h a.1 in
    elim (Bool-cases (lt_slot t u)) [
      | inl below ↦ rw below (h, a)
      | inr not_less ↦ elim (Bool-cases (lt_slot u t)) [
        | inl above ↦ rw (not_less, above) (a.0, rest)
        | inr same ↦ rw (not_less, same) (h, a.1)
      ]
    ]

pub put-Ascending :
    (s : Slot) (b : Bytes) (m : Slots)
    → Ascending lt_slot m
    → Ascending lt_slot (put_sorted lt_slot s b m)
unfolding put_sorted
put-Ascending s b [] a = (tt, tt)
put-Ascending s b ((t, c) ∷ m) a = elim (Bool-cases (lt_slot s t)) [
  | inl below ↦ rw below ((below, After-trans s t m below a.0), a)
  | inr not_less ↦ elim (Bool-cases (lt_slot t s)) [
    | inl above ↦ rw (not_less, above) (After-put t s b m above a.0, put-Ascending s b m a.1)
    | inr same ↦ rw (not_less, same) (rw (same_slot s t not_less same) a.0, a.1)
  ]
]

pub After-keep :
    (q : Slot × Bytes → Bool) (s : Slot) (m : Slots) → After s m → After s (keep_if q m)
After-keep q s [] a = tt
After-keep q s (e ∷ m) a = elim (Bool-cases (q e)) [
  | inl kept ↦ rw kept (a.0, After-keep q s m a.1)
  | inr dropped ↦ rw dropped (After-keep q s m a.1)
]

pub keep-Ascending :
    (q : Slot × Bytes → Bool) (m : Slots) → Ascending lt_slot m → Ascending lt_slot (keep_if q m)
keep-Ascending q [] a = tt
keep-Ascending q ((s, b) ∷ m) a = elim (Bool-cases (q (s, b))) [
  | inl kept ↦ rw kept (After-keep q s m a.0, keep-Ascending q m a.1)
  | inr dropped ↦ rw dropped (keep-Ascending q m a.1)
]

pub After-versions :
    (rid : ℕ) (v : ℤ) (m : Slots)
    → After (png rid v) m
    → All (λ x. ltb_ℤ v x ≡ true) (card_versions rid m)
After-versions rid v [] a = tt
After-versions rid v ((png r x, b) ∷ m) a = elim (Bool-cases (r == rid)) [
  | inl same ↦ rw same (ground (arith, a.0), After-versions rid v m a.1)
  | inr differs ↦ rw differs (After-versions rid v m a.1)
]
After-versions rid v ((thumb r, b) ∷ m) a = After-versions rid v m a.1

pub card_versions-IsAscending :
    (rid : ℕ) (m : Slots) → Ascending lt_slot m → IsAscending (card_versions rid m)
card_versions-IsAscending rid [] a = tt
card_versions-IsAscending rid ((png r v, b) ∷ m) a = elim (Bool-cases (r == rid)) [
  | inl same ↦ rw same (
    After-versions rid v m (subst (λ q. After (png q v) m) (ground (arith, same)) a.0),
    card_versions-IsAscending rid m a.1,
  )
  | inr differs ↦ rw differs (card_versions-IsAscending rid m a.1)
]
card_versions-IsAscending rid ((thumb r, b) ∷ m) a = card_versions-IsAscending rid m a.1

pub lt_slot_asym : (s t : Slot) → lt_slot s t ≡ true → lt_slot t s ≡ false
lt_slot_asym (png r v) (png q w) h = ground arith
lt_slot_asym (png r v) (thumb q) h = ground arith
lt_slot_asym (thumb r) (png q w) h = ground arith
lt_slot_asym (thumb r) (thumb q) h = ground arith

pub After-is_stored : (s : Slot) (m : Slots) → After s m → is_stored s m ≡ false
After-is_stored s [] a = refl
After-is_stored s ((t, b) ∷ m) a = rw (lt_slot_asym s t a.0) (rw (lt_slot_asym s t a.0, a.0) refl)

pub is_stored-keep :
    (s : Slot) (q : Slot × Bytes → Bool) (m : Slots)
    → Ascending lt_slot m
    → is_stored s m ≡ false
    → is_stored s (keep_if q m) ≡ false
is_stored-keep s q [] a new = refl
is_stored-keep s q ((t, b) ∷ m) a new = elim (Bool-cases (lt_slot t s)) [
  | inl below ↦
      let ih = is_stored-keep s q m a.1 (simp below at new) in
      elim (Bool-cases (q (t, b))) [
        | inl kept ↦ rw kept (rw below ih)
        | inr dropped ↦ rw dropped ih
      ]
  | inr not_less ↦ elim (Bool-cases (lt_slot s t)) [
    | inl above ↦
        After-is_stored s (keep_if q ((t, b) ∷ m))
          (After-keep q s ((t, b) ∷ m) (above, After-trans s t m above a.0))
    | inr same ↦ absurd (impossible (simp (not_less, same) at new))
  ]
]
  where
    impossible : true ≡ false → ⊥
    impossible e = cc
