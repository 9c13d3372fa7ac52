-- ===== src/Blob/Sql.antt =====
-- store/blob/sqlblob/store.go: the methods. `faults` says which statements the database refuses,
-- counted from the opening of the store; a cancelled context is such a refusal. Each method runs as
-- one step, as its lock has it.
use card_client.Prelude.{
  ℕ, suc, ◌-◌, List, [], Bool, true, false, Option, none, some, if◌then◌else◌, leb, length,
  get_elem?,
}
use card_client.Prelude.Int.{ℤ}
use card_client.Prelude.Assoc.{lookup, insert, erase}
use card_client.Prelude.Outcome.{Result, ok, err, Exec, pure, fail, ◌>>=◌, ◌>>◌}
use card_client.Blob.Codec.{Codec, Bytes, BlobError, sql_failed, no_rows}
use card_client.Blob.Tables.{
  Tables, versions_of, distinct_rids, select_png, delete_row, upsert_row, delete_range,
  delete_below, delete_card,
}

pub record Options : Type 0 where
  pub max_versions : ℕ
  pub thumbnail_size : ℕ

pub record Store : Type 0 where
  pub max_versions : ℕ
  pub thumbnail_size : ℕ
  pub is_transaction : Bool

-- `New`: an option that is not positive takes its default.
unfoldable pub open_store : Options → Store
open_store o = record {
  max_versions = if leb o.max_versions 0 then 5 else o.max_versions;
  thumbnail_size = if leb o.thumbnail_size 0 then 256 else o.thumbnail_size;
  is_transaction = false;
}

unfoldable pub get_tx_store : Store → Store
get_tx_store st = record st { is_transaction = true }

pub record Db : Type 0 where
  pub tables : Tables
  pub statements : ℕ

abbrev pub Action : Type 0 → Type 0
Action A = Exec Db BlobError A

module _ (faults : ℕ → Bool) where
  -- One statement, which the database runs or refuses.
  abbrev pub statement : {A : Type 0} → (Tables → A × Tables) → Action A
  statement f db =
      if faults db.statements
      then (err sql_failed, record db { statements = suc db.statements })
      else (let (a, t) = f db.tables in
          (ok a, record { tables = t; statements = suc db.statements }))

  abbrev pub query : {A : Type 0} → (Tables → A) → Action A
  query f = statement λ t. (f t, t)

  abbrev pub execute : (Tables → Tables) → Action (Unit {0})
  execute f = statement λ t. (tt, f t)

  -- A row that is missing is `sql.ErrNoRows`.
  abbrev pub one_row : {A : Type 0} → Option A → Action A
  one_row none = fail no_rows
  one_row (some a) = pure a

  -- The end of `WithTx`: a commit that is refused, like an error before it, rolls back.
  abbrev pub finish : {A : Type 0} → Tables → Result BlobError A × Db → Result BlobError A × Db
  finish before (err e, db) = (err e, record db { tables = before })
  finish before (ok a, db) =
      if faults db.statements
      then (err sql_failed, record { tables = before; statements = suc db.statements })
      else (ok a, record db { statements = suc db.statements })

  unfoldable pub with_tx : {A : Type 0} → Store → (Store → Action A) → Action A
  unfolding get_tx_store
  with_tx st fn db =
      if st.is_transaction
      then fn st db
      else if faults db.statements
      then (err sql_failed, record db { statements = suc db.statements })
      else finish db.tables (fn (get_tx_store st) (record db { statements = suc db.statements }))

  -- On the store itself, under its read lock.
  unfoldable pub with_read_tx : {A : Type 0} → Store → (Store → Action A) → Action A
  with_read_tx st fn = fn st

  unfoldable pub with_write_tx : {A : Type 0} → Store → (Store → Action A) → Action A
  unfolding get_tx_store
  with_write_tx st fn db =
      if st.is_transaction
      then fn st db
      else if faults db.statements
      then (err sql_failed, record db { statements = suc db.statements })
      else finish db.tables (fn (get_tx_store st) (record db { statements = suc db.statements }))

  unfoldable pub rids : Action (List ℕ)
  rids = query λ t. distinct_rids t.cards

  unfoldable pub get_raw_card_bytes : ℕ → ℤ → Action Bytes
  get_raw_card_bytes rid v = do row ← query (λ t. select_png rid v t.cards); one_row row

  unfoldable pub thumbnail_bytes : ℕ → Action Bytes
  thumbnail_bytes rid = do row ← query (λ t. lookup rid t.thumbnails); one_row row

  -- `Versions` drops the error, and the list with it.
  abbrev pub or_nil : {A : Type 0} → Result BlobError (List A) → List A
  or_nil (ok l) = l
  or_nil (err e) = []

  unfoldable pub versions : ℕ → Action (List ℤ)
  versions rid db = let (r, db') = query (λ t. versions_of rid t.cards) db in (ok (or_nil r), db')

  abbrev pub is_there : Option Bytes → Bool
  is_there none = false
  is_there (some b) = true

  unfoldable pub version_exists : ℕ → ℤ → Action Bool
  version_exists rid v = query λ t. is_there (select_png rid v t.cards)

  -- `deleteOldVersions`: the versions below the last `max_versions` go.
  abbrev pub prune : Store → ℕ → List ℤ → Action (Unit {0})
  prune st rid vs =
      if leb (length vs) st.max_versions
      then pure tt
      else elim (get_elem? vs (length vs - st.max_versions)) [
        | none ↦ pure tt
        | some up_to ↦ execute λ t. record t { cards = delete_below rid up_to t.cards }
      ]

  unfoldable pub delete_old_versions : Store → ℕ → Action (Unit {0})
  unfolding versions
  delete_old_versions st rid = do vs ← versions rid; prune st rid vs

  unfoldable pub delete_version : Store → ℕ → ℤ → Action (Unit {0})
  delete_version st rid v =
      with_tx st λ _. execute λ t. record t { cards = delete_row rid v t.cards }

  unfoldable pub delete_versions : Store → ℕ → ℤ → ℤ → Action (Unit {0})
  delete_versions st rid lo hi =
      with_tx st λ _. execute λ t. record t { cards = delete_range rid lo hi t.cards }

  unfoldable pub delete : Store → ℕ → Action (Unit {0})
  delete st rid = with_tx st λ _. do
    execute (λ t. record t { cards = delete_card rid t.cards })
    execute (λ t. record t { thumbnails = erase rid t.thumbnails })

  module _ (c : Codec) where
    abbrev pub lift : {A : Type 0} → Result BlobError A → Action A
    lift r db = (r, db)

    unfoldable pub internal_put : Store → ℕ → ℤ → c.Card → Action (Unit {0})
    unfolding delete_old_versions
    internal_put st rid v card = do
      raw_json ← lift (c.to_raw_json card)
      image ← lift (c.thumbnail raw_json st.thumbnail_size)
      thumb ← lift (c.to_webp image)
      execute (λ t. record t { thumbnails = insert rid thumb t.thumbnails })
      png ← lift (c.to_bytes raw_json)
      execute (λ t. record t { cards = upsert_row rid v png t.cards })
      delete_old_versions st rid

    unfoldable pub put : Store → ℕ → ℤ → c.Card → Action (Unit {0})
    unfolding with_tx internal_put
    put st rid v card = with_tx st λ tx. internal_put tx rid v card

    unfoldable pub get_raw_card : ℕ → ℤ → Action c.RawCard
    get_raw_card rid v = do b ← get_raw_card_bytes rid v; lift (c.from_bytes b)

    unfoldable pub get_character_card : ℕ → ℤ → Action c.Card
    get_character_card rid v = do raw ← get_raw_card rid v; lift (c.decode raw)

    unfoldable pub get_sheet : ℕ → ℤ → Action c.CardSheet
    get_sheet rid v = do raw ← get_raw_card rid v; card ← lift (c.decode raw); pure (c.sheet card)

    unfoldable pub get_sheet_bytes : ℕ → ℤ → Action Bytes
    get_sheet_bytes rid v = do raw ← get_raw_card rid v; lift (c.sheet_json raw)

    unfoldable pub get_thumbnail : ℕ → Action c.Image
    get_thumbnail rid = do b ← thumbnail_bytes rid; lift (c.decode_image b)
