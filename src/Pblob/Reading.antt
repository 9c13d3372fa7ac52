-- ===== src/Pblob/Reading.antt =====
-- store/blob/pblob: each operation on a database of bytes is one on its slots.
use card_client.Prelude.{
  ℕ, ◌+◌, ◌^◌, ◌<◌, List, [], ◌∷◌, Bool, not, ◌&&◌, none, some, ◌==◌, keep_if, map, All, ◌≡◌, refl,
  arith, ap, Bool-cases, inl, inr,
}
use card_client.Prelude.Int.{ℤ}
use card_client.Blob.Codec.{Bytes}
use card_client.Pblob.Bytes.{lex}
use card_client.Pblob.Key.{key_of, get_version, type_key, png_key}
use card_client.Pblob.Order.{Item, Fits, encode, lt_item, encode-order, get-encode}
use card_client.Pblob.Db.{put_sorted, within, not_below, starts_at}
use card_client.Pblob.Store.{versions_in}
use card_client.Pblob.Slots.{
  Slot, Slots, png, thumb, slot_item, lt_slot, in_card, in_versions, of_card, card_versions,
}

abbrev pub slot_key : Slot → Bytes
slot_key s = encode (slot_item s)

abbrev pub FitsSlot : Slot → Type 0
FitsSlot s = Fits (slot_item s)

abbrev pub entry : Slot × Bytes → Bytes × Bytes
entry (s, b) = (slot_key s, b)

abbrev pub FitsAll : Slots → Type 0
FitsAll = All λ e. FitsSlot e.0

pub put_sorted-entries :
    (s : Slot) (b : Bytes) (m : Slots)
    → FitsSlot s
    → FitsAll m
    → put_sorted lex (slot_key s) b (map entry m) ≡ map entry (put_sorted lt_slot s b m)
unfolding put_sorted
put_sorted-entries s b [] fs fm = refl
put_sorted-entries s b ((t, c) ∷ m) fs fm =
    let one = encode-order (slot_item s) (slot_item t) fs fm.0 in
    let two = encode-order (slot_item t) (slot_item s) fm.0 fs in
    let rest = put_sorted-entries s b m fs fm.1 in
    elim (Bool-cases (lt_slot s t)) [
      | inl below ↦ rw (one, two, below) refl
      | inr not_less ↦ elim (Bool-cases (lt_slot t s)) [
        | inl above ↦ rw (one, two, not_less, above) (ap (λ r. entry (t, c) ∷ r) rest)
        | inr same ↦ rw (one, two, not_less, same) refl
      ]
    ]

pub keep-entries :
    (p : Bytes × Bytes → Bool) (q : Slot × Bytes → Bool) (m : Slots)
    → ((s : Slot) (b : Bytes) → FitsSlot s → p (entry (s, b)) ≡ q (s, b))
    → FitsAll m
    → keep_if p (map entry m) ≡ map entry (keep_if q m)
keep-entries p q [] agree fm = refl
keep-entries p q ((s, b) ∷ m) agree fm =
    let rest = keep-entries p q m agree fm.1 in
    elim (Bool-cases (q (s, b))) [
      | inl kept ↦ rw (agree s b fm.0, kept) (ap (λ r. entry (s, b) ∷ r) rest)
      | inr dropped ↦ rw (agree s b fm.0, dropped) rest
    ]

-- A bound without a version, of type 0, 1 or 255.
abbrev bound : ℕ → ℕ → Item
bound rid t = record { rid = rid; kind = t; version = none }

pub within_card :
    (rid : ℕ) (s : Slot) (b : Bytes)
    → rid < 2 ^ 64
    → FitsSlot s
    → within lex (type_key rid 0) (type_key rid (0 + 1)) (entry (s, b)) ≡ in_card rid s
within_card rid s b hr fs =
    rw
      (
        encode-order (slot_item s) (bound rid 0) fs (hr, omega arith, tt),
        encode-order (slot_item s) (bound rid 1) fs (hr, omega arith, tt),
      )
      (inside s)
  where
    inside :
        (s : Slot)
        → (not (lt_item (slot_item s) (bound rid 0)) && lt_item (slot_item s) (bound rid 1))
          ≡ in_card rid s
    inside (png r v) = ground arith
    inside (thumb r) = ground arith

pub within-of_card :
    (rid : ℕ) (s : Slot) (b : Bytes)
    → rid < 2 ^ 64
    → FitsSlot s
    → within lex (type_key rid 0) (type_key rid 255) (entry (s, b)) ≡ of_card rid s
within-of_card rid s b hr fs =
    rw
      (
        encode-order (slot_item s) (bound rid 0) fs (hr, omega arith, tt),
        encode-order (slot_item s) (bound rid 255) fs (hr, omega arith, tt),
      )
      (inside s)
  where
    inside :
        (s : Slot)
        → (not (lt_item (slot_item s) (bound rid 0)) && lt_item (slot_item s) (bound rid 255))
          ≡ of_card rid s
    inside (png r v) = ground arith
    inside (thumb r) = ground arith

pub within_versions :
    (rid : ℕ) (lo hi : ℤ) (s : Slot) (b : Bytes)
    → FitsSlot (png rid lo)
    → FitsSlot (png rid hi)
    → FitsSlot s
    → within lex (png_key rid lo) (png_key rid hi) (entry (s, b)) ≡ in_versions rid lo hi s
within_versions rid lo hi s b fl fh fs =
    rw
      (
        encode-order (slot_item s) (slot_item (png rid lo)) fs fl,
        encode-order (slot_item s) (slot_item (png rid hi)) fs fh,
      )
      (inside s)
  where
    inside :
        (s : Slot)
        → (not (lt_slot s (png rid lo)) && lt_slot s (png rid hi)) ≡ in_versions rid lo hi s
    inside (png r v) = ground arith
    inside (thumb r) = ground arith

pub not_below-slot :
    (s t : Slot) (b : Bytes)
    → FitsSlot s
    → FitsSlot t
    → not_below lex (slot_key s) (entry (t, b)) ≡ not_below lt_slot s (t, b)
not_below-slot s t b fs ft = rw (encode-order (slot_item t) (slot_item s) ft fs) refl

pub starts_at-slot :
    (s : Slot) (m : Slots)
    → FitsSlot s
    → FitsAll m
    → starts_at lex (slot_key s) (map entry m) ≡ starts_at lt_slot s m
starts_at-slot s [] fs fm = refl
starts_at-slot s ((t, b) ∷ m) fs fm =
    rw
      (
        encode-order (slot_item t) (slot_item s) fm.0 fs,
        encode-order (slot_item s) (slot_item t) fs fm.0,
      )
      refl

pub FitsAll-keep : (q : Slot × Bytes → Bool) (m : Slots) → FitsAll m → FitsAll (keep_if q m)
FitsAll-keep q [] fm = tt
FitsAll-keep q (e ∷ m) fm = elim (Bool-cases (q e)) [
  | inl kept ↦ rw kept (fm.0, FitsAll-keep q m fm.1)
  | inr dropped ↦ rw dropped (FitsAll-keep q m fm.1)
]

pub FitsAll-put :
    (s : Slot) (b : Bytes) (m : Slots) → FitsSlot s → FitsAll m → FitsAll (put_sorted lt_slot s b m)
unfolding put_sorted
FitsAll-put s b [] fs fm = (fs, tt)
FitsAll-put s b ((t, c) ∷ m) fs fm =
    let rest = FitsAll-put s b m fs fm.1 in
    elim (Bool-cases (lt_slot s t)) [
      | inl below ↦ rw below (fs, fm)
      | inr not_less ↦ elim (Bool-cases (lt_slot t s)) [
        | inl above ↦ rw (not_less, above) (fm.0, rest)
        | inr same ↦ rw (not_less, same) (fs, fm.1)
      ]
    ]

versions_in_cons :
    (k b : Bytes) (es : List (Bytes × Bytes)) (v : ℤ) (vs : List ℤ)
    → get_version (key_of k) ≡ some v
    → versions_in es ≡ some vs
    → versions_in ((k, b) ∷ es) ≡ some (v ∷ vs)
unfolding versions_in
versions_in_cons k b es v vs h rest = rw (h, versions_in, rest) refl

pub versions_in-card :
    (rid : ℕ) (m : Slots)
    → FitsAll m
    → versions_in (map entry (keep_if (λ e. in_card rid e.0) m)) ≡ some (card_versions rid m)
unfolding versions_in
versions_in-card rid [] fm = refl
versions_in-card rid ((png r v, b) ∷ m) fm = elim (Bool-cases (r == rid)) [
  | inl same ↦ rw same (
      versions_in_cons (png_key r v) b (map entry (keep_if (λ e. in_card rid e.0) m)) v
        (card_versions rid m) (get-encode r 0 v fm.0.0 fm.0.2).2 (versions_in-card rid m fm.1))
  | inr differs ↦ rw differs (versions_in-card rid m fm.1)
]
versions_in-card rid ((thumb r, b) ∷ m) fm = versions_in-card rid m fm.1
