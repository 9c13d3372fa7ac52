-- ===== src/Pblob/Store.antt =====
-- store/blob/pblob/store.go: the methods. `faults` says which calls of Pebble fail, counted from the
-- opening of the store. A panic is an error of its own: it unwinds like one, past the commit.
use card_client.Prelude.{
  ℕ, suc, ◌+◌, ◌-◌, List, [], ◌∷◌, Bool, true, false, Option, none, some, if◌then◌else◌, leb, ltb,
  length, get_elem?, ◌==◌, keep_if,
}
use card_client.Prelude.Int.{ℤ, pos}
use card_client.Prelude.Outcome.{Result, ok, err, Exec, pure, fail, ◌>>=◌, ◌>>◌}
use card_client.Blob.Codec.{Codec, Bytes, BlobError}
use card_client.Pblob.Bytes.{lex}
use card_client.Pblob.Key.{
  key_of, get_rid, get_version, png_type, thumbnail_type, min_type, max_type, type_key, png_key,
}
use card_client.Pblob.Db.{Pebble, within, not_below, starts_at}

pub data PblobError : Type 0 where
  codec_failed : BlobError → PblobError
  db_failed not_found panicked : PblobError

pub record Options : Type 0 where
  pub max_versions : ℕ
  pub thumbnail_size : ℕ

-- `cancelled` says that the context is.
pub record Store : Type 0 where
  pub max_versions : ℕ
  pub thumbnail_size : ℕ
  pub is_transaction : Bool
  pub cancelled : Bool

-- `New`: an option that is not positive takes its default.
unfoldable pub open_store : Options → Store
open_store o = record {
  max_versions = if leb o.max_versions 0 then 5 else o.max_versions;
  thumbnail_size = if leb o.thumbnail_size 0 then 256 else o.thumbnail_size;
  is_transaction = false;
  cancelled = false;
}

unfoldable pub get_tx_store : Store → Store
get_tx_store st = record st { is_transaction = true }

-- The loop of `RIDs`, from the RID that was found last.
unfoldable pub more_rids : ℕ → List (Bytes × Bytes) → Option (List ℕ)
more_rids rid [] = some []
more_rids rid ((k, b) ∷ es) = elim (get_rid (key_of k)) [
  | none ↦ none
  | some current ↦
      if rid == current
      then more_rids rid es
      else elim (more_rids current es) [ none ↦ none | some rs ↦ some (current ∷ rs) ]
]

unfoldable pub rids_of : List (Bytes × Bytes) → Option (List ℕ)
unfolding more_rids
rids_of [] = some []
rids_of ((k, b) ∷ es) = elim (get_rid (key_of k)) [
  | none ↦ none
  | some rid ↦ elim (more_rids rid ((k, b) ∷ es)) [ none ↦ none | some rs ↦ some (rid ∷ rs) ]
]

unfoldable pub versions_in : List (Bytes × Bytes) → Option (List ℤ)
versions_in [] = some []
versions_in ((k, b) ∷ es) = elim (get_version (key_of k)) [
  | none ↦ none
  | some v ↦ elim (versions_in es) [ none ↦ none | some vs ↦ some (v ∷ vs) ]
]

module _ (pb : Pebble) (faults : ℕ → Bool) where
  pub record PebbleDb : Type 0 where
    pub db : pb.Db
    pub calls : ℕ

  abbrev pub Action : Type 0 → Type 0
  Action A = Exec PebbleDb PblobError A

  -- One call, which Pebble runs or refuses.
  abbrev pub call : {A : Type 0} → (pb.Db → A × pb.Db) → Action A
  call f d =
      if faults d.calls
      then (err db_failed, record d { calls = suc d.calls })
      else (let (a, db) = f d.db in (ok a, record { db = db; calls = suc d.calls }))

  abbrev pub iterate : (Bytes × Bytes → Bool) → Action (List (Bytes × Bytes))
  iterate inside = call λ d. (keep_if inside (pb.entries d), d)

  abbrev pub change : (pb.Db → pb.Db) → Action (Unit {0})
  change f = call λ d. (tt, f d)

  abbrev pub or_else : {A : Type 0} → PblobError → Option A → Action A
  or_else e none = fail e
  or_else e (some a) = pure a

  -- The end of a batch: an error drops it, and so does a commit that fails.
  abbrev pub end_batch :
      {A : Type 0} → pb.Db → Result PblobError A × PebbleDb → Result PblobError A × PebbleDb
  end_batch before (err e, d) = (err e, record d { db = before })
  end_batch before (ok a, d) =
      if faults d.calls
      then (err db_failed, record { db = before; calls = suc d.calls })
      else (ok a, record d { calls = suc d.calls })

  unfoldable pub with_tx : {A : Type 0} → Store → (Store → Action A) → Action A
  unfolding get_tx_store
  with_tx st fn d = if st.is_transaction then fn st d else end_batch d.db (fn (get_tx_store st) d)

  -- What a transaction's store reads and writes through: its `txDB`.
  pub record TxDb : Type 1 where
    pub read : {A : Type 0} → (pb.Db → A) → Action A
    pub write : (pb.Db → pb.Db) → Action (Unit {0})

  -- A snapshot, on which a write succeeds and does nothing.
  abbrev pub snapshot : pb.Db → TxDb
  snapshot taken = record { read = λ f. call (λ d. (f taken, d)); write = λ f. pure tt }

  -- A batch that is not indexed refuses to be read.
  abbrev pub unindexed : TxDb
  unindexed = record { read = λ f. fail db_failed; write = change }

  -- `current` is the store's own `txDB`.
  unfoldable pub with_read_tx : {A : Type 0} → Store → TxDb → (Store → TxDb → Action A) → Action A
  unfolding get_tx_store
  with_read_tx st current fn d =
      if st.is_transaction then fn st current d else fn (get_tx_store st) (snapshot d.db) d

  unfoldable pub with_write_tx : {A : Type 0} → Store → TxDb → (Store → TxDb → Action A) → Action A
  unfolding get_tx_store
  with_write_tx st current fn d =
      if st.is_transaction
      then fn st current d
      else end_batch d.db (fn (get_tx_store st) unindexed d)

  unfoldable pub rids : Action (List ℕ)
  unfolding rids_of
  rids = do es ← iterate (λ e. true); or_else panicked (rids_of es)

  unfoldable pub get_raw_card_bytes : ℕ → ℤ → Action Bytes
  get_raw_card_bytes rid v = do b ← call (λ d. (pb.get (png_key rid v) d, d)); or_else not_found b

  unfoldable pub thumbnail_bytes : ℕ → Action Bytes
  thumbnail_bytes rid = do
    b ← call (λ d. (pb.get (type_key rid thumbnail_type) d, d))
    or_else not_found b

  -- An iterator that cannot be opened, or a context that is cancelled, gives no versions.
  abbrev pub listed :
      Store
      → Result PblobError (List (Bytes × Bytes)) × PebbleDb
      → Result PblobError (List ℤ) × PebbleDb
  listed st (err e, d) = (ok [], d)
  listed st (ok es, d) = if st.cancelled then (ok [], d) else or_else panicked (versions_in es) d

  unfoldable pub versions : Store → ℕ → Action (List ℤ)
  unfolding versions_in
  versions st rid d =
      listed st (iterate (within lex (type_key rid png_type) (type_key rid (png_type + 1))) d)

  -- `iter.First() && bytes.Equal(iter.Key(), itemKey)`
  unfoldable pub key_exists : Bytes → Action Bool
  key_exists key = do es ← iterate (not_below lex key); pure (starts_at lex key es)

  unfoldable pub version_exists : ℕ → ℤ → Action Bool
  unfolding key_exists
  version_exists rid v = key_exists (png_key rid v)

  unfoldable pub delete_version : Store → ℕ → ℤ → Action (Unit {0})
  unfolding with_tx
  delete_version st rid v = with_tx st λ tx. change (pb.single_delete (png_key rid v))

  unfoldable pub delete_versions : Store → ℕ → ℤ → ℤ → Action (Unit {0})
  unfolding with_tx
  delete_versions st rid lo hi =
      with_tx st λ tx. change (pb.delete_range (png_key rid lo) (png_key rid hi))

  unfoldable pub delete : ℕ → Action (Unit {0})
  delete rid = change (pb.delete_range (type_key rid min_type) (type_key rid max_type))

  -- `versions[versionCount-maxVersions+1]` panics where it is out of range.
  abbrev pub prune : Store → ℕ → List ℤ → Action (Unit {0})
  prune tx rid vs = if ltb (length vs) tx.max_versions then pure tt else (do
    up_to ← or_else panicked (get_elem? vs (length vs - tx.max_versions + 1))
    delete_versions tx rid (pos 0) up_to)

  unfoldable pub delete_old_versions : Store → ℕ → Action (Unit {0})
  unfolding with_tx
  delete_old_versions st rid = with_tx st λ tx. do vs ← versions tx rid; prune tx rid vs

  module _ (c : Codec) where
    abbrev pub lift : {A : Type 0} → Result BlobError A → Action A
    lift (ok a) = pure a
    lift (err e) = fail (codec_failed e)

    abbrev pub prune_unless : Bool → Store → ℕ → Action (Unit {0})
    prune_unless exists st rid = if exists then pure tt else delete_old_versions st rid

    unfoldable pub internal_put : Store → ℕ → ℤ → c.Card → Action (Unit {0})
    internal_put st rid v card = do
      raw_json ← lift (c.to_raw_json card)
      exists ← key_exists (png_key rid v)
      prune_unless exists st rid
      image ← lift (c.thumbnail raw_json st.thumbnail_size)
      thumb ← lift (c.to_webp image)
      change (pb.set (type_key rid thumbnail_type) thumb)
      png ← lift (c.to_bytes raw_json)
      change (pb.set (png_key rid v) png)

    unfoldable pub put : Store → ℕ → ℤ → c.Card → Action (Unit {0})
    unfolding with_tx
    put st rid v card = with_tx st λ tx. internal_put tx rid v card

    unfoldable pub get_raw_card : ℕ → ℤ → Action c.RawCard
    unfolding get_raw_card_bytes
    get_raw_card rid v = do b ← get_raw_card_bytes rid v; lift (c.from_bytes b)

    unfoldable pub get_character_card : ℕ → ℤ → Action c.Card
    unfolding get_raw_card
    get_character_card rid v = do raw ← get_raw_card rid v; lift (c.decode raw)

    unfoldable pub get_sheet : ℕ → ℤ → Action c.CardSheet
    unfolding get_character_card
    get_sheet rid v = do card ← get_character_card rid v; pure (c.sheet card)

    unfoldable pub get_sheet_bytes : ℕ → ℤ → Action Bytes
    unfolding get_raw_card
    get_sheet_bytes rid v = do raw ← get_raw_card rid v; lift (c.sheet_json raw)

    unfoldable pub get_thumbnail : ℕ → Action c.Image
    unfolding thumbnail_bytes
    get_thumbnail rid = do b ← thumbnail_bytes rid; lift (c.decode_image b)
