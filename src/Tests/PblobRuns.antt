-- ===== src/Tests/PblobRuns.antt =====
-- A store of Pebble with room for two versions of each card.
use card_client.Prelude.{ℕ, ◌≤◌, [], ◌∷◌, false, some, ◌≡◌, refl, arith, length, map}
use card_client.Prelude.Int.{pos, negsuc}
use card_client.Prelude.Outcome.{err}
use card_client.Blob.Tables.{insert_asc}
use card_client.Blob.Versions.{newest}
use card_client.Pblob.Bytes.{lex}
use card_client.Pblob.Order.{encode, lt_item, encode-order}
use card_client.Pblob.Db.{sorted_pebble, Ascending}
use card_client.Pblob.Store.{Store, PebbleDb, panicked, put, open_store}
use card_client.Pblob.Slots.{Slots, png, thumb, lt_slot, card_versions, room_for}
use card_client.Pblob.Reading.{entry}
use card_client.Pblob.Puts.{Holds, Runs}
use card_client.Pblob.Refines.{PutOutcome, put_refines, put_keeps_newest, put_panics}
use card_client.Tests.BlobRuns.{codec, sound_db, sound_db-is, encodes}

abbrev store : Store
store = record { max_versions = 2; thumbnail_size = 256; is_transaction = false; cancelled = false }

abbrev small_store : Store
small_store = record store { max_versions = 1 }

-- Two versions of one card and its thumbnail, and one version of another.
abbrev slots : Slots
slots =
    (png 7 (pos 10), 1 ∷ [])
    ∷ (png 7 (pos 20), 2 ∷ [])
    ∷ (thumb 7, 3 ∷ [])
    ∷ (png 8 (pos 30), 4 ∷ [])
    ∷ []

abbrev full : PebbleDb sorted_pebble sound_db
full = record { db = map entry slots; calls = 0 }

full-Holds : Holds sorted_pebble sound_db sound_db-is store refl full.db slots
full-Holds = (
  refl,
  (
    (omega arith, omega arith, omega arith),
    (
      (omega arith, omega arith, omega arith),
      ((omega arith, omega arith, tt), ((omega arith, omega arith, omega arith), tt)),
    ),
  ),
)

slots-Ascending : Ascending lt_slot slots
slots-Ascending = ((refl, (refl, (refl, tt))), ((refl, (refl, tt)), ((refl, tt), (tt, tt))))

-- An option that is missing takes its default.
open_store_default :
    open_store (record { max_versions = 0; thumbnail_size = 64 })
    ≡ record { max_versions = 5; thumbnail_size = 64; is_transaction = false; cancelled = false }
unfolding open_store
open_store_default = refl

encode-order_example :
    lex
      (encode (record { rid = 7; kind = 0; version = some (negsuc 4) }))
      (encode (record { rid = 7; kind = 0; version = some (pos 3) }))
    ≡ lt_item
        (record { rid = 7; kind = 0; version = some (negsuc 4) })
        (record { rid = 7; kind = 0; version = some (pos 3) })
encode-order_example =
    encode-order (record { rid = 7; kind = 0; version = some (negsuc 4) })
      (record { rid = 7; kind = 0; version = some (pos 3) }) (omega arith, omega arith, omega arith)
      (omega arith, omega arith, omega arith)

put_refines_example :
    PutOutcome sorted_pebble sound_db sound_db-is store refl 7
      (pos 15)
      (5 ∷ [])
      (5 ∷ [])
      full
      (room_for 2 7 (pos 15) slots)
      (put sorted_pebble sound_db codec store 7 (pos 15) 5 full)
put_refines_example =
    put_refines sorted_pebble sound_db sound_db-is store refl codec 7 (pos 15) 5 encodes
      (omega arith, omega arith, omega arith) slots full refl full-Holds

put_keeps_newest_example :
    (m' : Slots) × Runs sorted_pebble sound_db sound_db-is store refl
      (put sorted_pebble sound_db codec store 7 (pos 15) 5 full)
      m'
    × (card_versions 7 m' ≡ insert_asc (pos 15) (newest 1 (card_versions 7 slots)))
    × (length (card_versions 7 m') ≤ 2)
    × Ascending lt_slot m'
put_keeps_newest_example =
    put_keeps_newest sorted_pebble sound_db sound_db-is store refl codec 7 (pos 15) 5 encodes
      (omega arith, omega arith, omega arith) slots full refl full-Holds slots-Ascending
      (omega arith) (refl, (refl, tt)) refl

put_panics_example :
    (n : ℕ) × (put sorted_pebble sound_db codec small_store 7 (pos 15) 5 full
      ≡ (err panicked, record full { calls = n }))
put_panics_example =
    put_panics sorted_pebble sound_db sound_db-is small_store refl codec 7 (pos 15) 5 encodes
      (omega arith, omega arith, omega arith) slots full refl full-Holds refl (omega arith) refl
