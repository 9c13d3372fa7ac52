-- ===== src/Blob/Tables.antt =====
-- store/blob/sqlblob/store.go: the two tables, and its SQL statements as functions of them.
use card_client.Prelude.{
  ℕ, List, [], ◌∷◌, Bool, not, ◌&&◌, Option, none, some, if◌then◌else◌, ◌==◌, ltb, keep_if,
}
use card_client.Prelude.Int.{ℤ, ltb_ℤ, leb_ℤ, eqb_ℤ}
use card_client.Blob.Codec.{Bytes}

pub record CardRow : Type 0 where
  pub rid : ℕ
  pub version : ℤ
  pub png : Bytes

-- CREATE TABLE cards (... PRIMARY KEY (rid, version)); thumbnails (rid PRIMARY KEY, ...)
pub record Tables : Type 0 where
  pub cards : List CardRow
  pub thumbnails : List (ℕ × Bytes)

-- WHERE rid = ? AND version = ?
abbrev pub is_row : ℕ → ℤ → CardRow → Bool
is_row rid v c = (c.rid == rid) && eqb_ℤ c.version v

-- ORDER BY version ASC, one row at a time.
unfoldable pub insert_asc : ℤ → List ℤ → List ℤ
insert_asc v [] = v ∷ []
insert_asc v (x ∷ xs) = if ltb_ℤ x v then x ∷ insert_asc v xs else v ∷ x ∷ xs

-- SELECT version FROM cards WHERE rid = ? ORDER BY version ASC
unfoldable pub versions_of : ℕ → List CardRow → List ℤ
versions_of rid [] = []
versions_of rid (c ∷ cs) =
    if c.rid == rid then insert_asc c.version (versions_of rid cs) else versions_of rid cs

-- SELECT DISTINCT rid FROM cards ORDER BY rid
unfoldable pub insert_rid : ℕ → List ℕ → List ℕ
insert_rid r [] = r ∷ []
insert_rid r (x ∷ xs) =
    if ltb r x then r ∷ x ∷ xs else if r == x then x ∷ xs else x ∷ insert_rid r xs

unfoldable pub distinct_rids : List CardRow → List ℕ
distinct_rids [] = []
distinct_rids (c ∷ cs) = insert_rid c.rid (distinct_rids cs)

-- SELECT png FROM cards WHERE rid = ? AND version = ?
unfoldable pub select_png : ℕ → ℤ → List CardRow → Option Bytes
select_png rid v [] = none
select_png rid v (c ∷ cs) = if is_row rid v c then some c.png else select_png rid v cs

-- DELETE FROM cards WHERE rid = ? AND version = ?
unfoldable pub delete_row : ℕ → ℤ → List CardRow → List CardRow
delete_row rid v = keep_if λ c. not (is_row rid v c)

-- INSERT OR REPLACE INTO cards (rid, version, png) VALUES (?, ?, ?)
unfoldable pub upsert_row : ℕ → ℤ → Bytes → List CardRow → List CardRow
unfolding delete_row
upsert_row rid v png cs = record { rid = rid; version = v; png = png } ∷ delete_row rid v cs

-- DELETE FROM cards WHERE rid = ? AND version >= ? AND version < ?
unfoldable pub delete_range : ℕ → ℤ → ℤ → List CardRow → List CardRow
delete_range rid lo hi =
    keep_if λ c. not ((c.rid == rid) && (leb_ℤ lo c.version && ltb_ℤ c.version hi))

-- DELETE FROM cards WHERE rid = ? AND version < ?
unfoldable pub delete_below : ℕ → ℤ → List CardRow → List CardRow
delete_below rid hi = keep_if λ c. not ((c.rid == rid) && ltb_ℤ c.version hi)

-- DELETE FROM cards WHERE rid = ?
unfoldable pub delete_card : ℕ → List CardRow → List CardRow
delete_card rid = keep_if λ c. not (c.rid == rid)
