-- ===== src/Tests/BlobRuns.antt =====
-- A store with room for two versions of each card.
use card_client.Prelude.{ℕ, ◌≤◌, [], ◌∷◌, Bool, false, some, ◌≡◌, refl, arith, length, keep_if}
use card_client.Prelude.Int.{pos}
use card_client.Prelude.Assoc.{lookup}
use card_client.Prelude.Outcome.{Result, ok, err}
use card_client.Blob.Codec.{Encodes, Codec, BlobError, encode_failed}
use card_client.Blob.Tables.{CardRow, versions_of, insert_asc}
use card_client.Blob.Sql.{Store, Db, put, with_tx, get_raw_card_bytes, version_exists}
use card_client.Blob.Versions.{other_than, newest, IsAscending}
use card_client.Blob.Atomic.{with_tx_atomic}
use card_client.Blob.Puts.{put_versions, put_then_get, put_stale}

-- A card is a number, and its PNG that number.
abbrev pub codec : Codec
codec = record {
  Card = ℕ;
  RawJson = ℕ;
  RawCard = ℕ;
  CardSheet = ℕ;
  Image = ℕ;
  to_raw_json = λ c. ok c;
  thumbnail = λ j size. ok j;
  to_webp = λ i. ok (i ∷ []);
  to_bytes = λ j. ok (j ∷ []);
  from_bytes = λ b. ok (length b);
  decode = λ r. ok r;
  sheet = λ c. c;
  sheet_json = λ r. ok (r ∷ []);
  decode_image = λ b. ok (length b);
}

abbrev pub sound_db : ℕ → Bool
sound_db n = false

pub sound_db-is : (n : ℕ) → sound_db n ≡ false
sound_db-is n = refl

abbrev store : Store
store = record { max_versions = 2; thumbnail_size = 256; is_transaction = false }

abbrev row : ℕ → ℕ → CardRow
row rid v = record { rid = rid; version = pos v; png = v ∷ [] }

abbrev full : Db
full = record {
  tables = record { cards = row 7 20 ∷ row 7 10 ∷ row 8 30 ∷ []; thumbnails = (8, 3 ∷ []) ∷ [] };
  statements = 0;
}

pub encodes : Encodes codec 5 256 (5 ∷ []) (5 ∷ [])
encodes = record {
  raw_json = 5;
  image = 5;
  parsed = refl;
  drawn = refl;
  packed = refl;
  written = refl;
}

full-IsAscending : IsAscending (versions_of 7 full.tables.cards)
unfolding versions_of insert_asc
full-IsAscending = ((refl, tt), (tt, tt))

put_versions_example :
    (db' : Db) × (put sound_db codec store 7 (pos 15) 5 full ≡ (ok tt, db'))
    × (versions_of 7 db'.tables.cards
        ≡ newest 2
            (insert_asc (pos 15) (keep_if (other_than (pos 15)) (versions_of 7 full.tables.cards))))
    × (length (versions_of 7 db'.tables.cards) ≤ 2)
    × (lookup 7 db'.tables.thumbnails ≡ some (5 ∷ []))
put_versions_example =
    put_versions sound_db sound_db-is codec store 7 (pos 15) 5 full refl (omega arith)
      full-IsAscending encodes

put_then_get_example :
    (db' db'' : Db) × (put sound_db codec store 7 (pos 25) 5 full ≡ (ok tt, db'))
    × (get_raw_card_bytes sound_db 7 (pos 25) db' ≡ (ok (5 ∷ []), db''))
unfolding versions_of insert_asc
put_then_get_example =
    put_then_get sound_db sound_db-is codec store 7 (pos 25) 5 full refl encodes (refl, (refl, tt))

put_stale_example :
    (db' db'' : Db) × (put sound_db codec store 7 (pos 5) 5 full ≡ (ok tt, db'))
    × (version_exists sound_db 7 (pos 5) db' ≡ (ok false, db''))
unfolding versions_of insert_asc
put_stale_example =
    put_stale sound_db sound_db-is codec store 7 (pos 5) 5 full refl (omega arith) encodes
      (refl, (refl, tt)) (omega arith)

-- A body that empties the tables and then fails.
abbrev empties : Store → Db → Result BlobError (Unit {0}) × Db
empties st db =
    (err encode_failed, record { tables = record { cards = []; thumbnails = [] }; statements = 9 })

with_tx_atomic_example : (with_tx sound_db store empties full).1.tables ≡ full.tables
unfolding with_tx
with_tx_atomic_example = with_tx_atomic sound_db store empties full refl refl
