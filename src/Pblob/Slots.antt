-- ===== src/Pblob/Slots.antt =====
-- store/blob/pblob: the database with its keys read: for each RID the PNGs by version, and the
-- thumbnail. What `Put` does, on that level.
use card_client.Prelude.{
  ℕ, ◌+◌, ◌-◌, List, [], ◌∷◌, Bool, false, not, ◌&&◌, Option, none, some, if◌then◌else◌, ltb, ◌==◌,
  keep_if, length, get_elem?,
}
use card_client.Prelude.Int.{ℤ, pos, ltb_ℤ, leb_ℤ}
use card_client.Blob.Codec.{Bytes}
use card_client.Pblob.Order.{Item, lt_item}
use card_client.Pblob.Db.{put_sorted, starts_at, not_below}

pub data Slot : Type 0 where
  png : ℕ → ℤ → Slot
  thumb : ℕ → Slot

abbrev pub slot_item : Slot → Item
slot_item (png rid v) = record { rid = rid; kind = 0x00; version = some v }
slot_item (thumb rid) = record { rid = rid; kind = 0x7f; version = none }

abbrev pub lt_slot : Slot → Slot → Bool
lt_slot a b = lt_item (slot_item a) (slot_item b)

abbrev pub Slots : Type 0
Slots = List (Slot × Bytes)

-- A card's PNGs, or those of them from a version on and below another.
abbrev pub in_card : ℕ → Slot → Bool
in_card rid (png r v) = r == rid
in_card rid (thumb r) = false

abbrev pub in_versions : ℕ → ℤ → ℤ → Slot → Bool
in_versions rid lo hi (png r v) = (r == rid) && (leb_ℤ lo v && ltb_ℤ v hi)
in_versions rid lo hi (thumb r) = false

-- Anything of a card.
abbrev pub of_card : ℕ → Slot → Bool
of_card rid (png r v) = r == rid
of_card rid (thumb r) = r == rid

abbrev pub card_versions : ℕ → Slots → List ℤ
card_versions rid [] = []
card_versions rid ((png r v, b) ∷ m) =
    let rest = card_versions rid m in if r == rid then v ∷ rest else rest
card_versions rid ((thumb r, b) ∷ m) = card_versions rid m

abbrev pub is_stored : Slot → Slots → Bool
is_stored s m = starts_at lt_slot s (keep_if (not_below lt_slot s) m)

abbrev pub without_versions : ℕ → ℤ → ℤ → Slots → Slots
without_versions rid lo hi = keep_if λ e. not (in_versions rid lo hi e.0)

-- `none` is the panic.
abbrev pub pruned : ℕ → ℕ → Slots → Option Slots
pruned max rid m =
    let vs = card_versions rid m in
    if ltb (length vs) max then some m else elim (get_elem? vs (length vs - max + 1)) [
      | none ↦ none
      | some hi ↦ some (without_versions rid (pos 0) hi m)
    ]

abbrev pub room_for : ℕ → ℕ → ℤ → Slots → Option Slots
room_for max rid v m = if is_stored (png rid v) m then some m else pruned max rid m

abbrev pub stored : ℕ → ℤ → Bytes → Bytes → Slots → Slots
stored rid v small large m =
    put_sorted lt_slot (png rid v) large (put_sorted lt_slot (thumb rid) small m)
