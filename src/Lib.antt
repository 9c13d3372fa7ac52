-- ===== src/Lib.antt =====
-- A model of card-client, a Go library that keeps character cards (PNG files with a sheet inside)
-- in vaults: it fetches them, stores them with their metadata, checks them, and exports them.
--
-- A vault is a catalog (store/catalog/catalog.go) over two stores, records and blobs. The services
-- of facade/ take the vault in use from the vault manager, register an operation, and run a worker
-- that changes the catalog, reports its progress to the registry, and pushes the RIDs it touched to
-- the cache, from which the client reads the results.
--
-- Files, with the code they model:
--   Prelude            shared names; integers, maps with numbers for keys, results with a state
--   Resource.Types     store/resource/types.go and resource.go, the data
--   Resource.Integrity store/resource/resource.go, `FixIntegrity` and what it calls; theorems in
--                      Resource.Repair and Resource.Passes
--   Tracker.Locks      tracker/mutracker/, goroutines as a step relation; theorems in
--                      Tracker.Exclusion, by the invariant of Tracker.Invariant and Tracker.Turns
--   Operation.Registry operation/opcache/opcache.go, over an interface of the ordered map
--                      (Operation.Ordered, which a list fills); theorems in Operation.Counting,
--                      Operation.Lifecycle and Operation.Ends
--   Blob.Sql           store/blob/sqlblob/store.go: Blob.Tables has its SQL as functions of two
--                      tables, Blob.Sql its methods; theorems in Blob.Puts, Blob.Deletes
--                      and Blob.Atomic, by Blob.Versions and Blob.Prunes
--   Pblob.Store        store/blob/pblob/store.go over Pebble as an interface (Pblob.Db, which a sorted
--                      list fills), with the keys of key.go in Pblob.Key; theorems in Pblob.Order,
--                      Pblob.Refines and Pblob.Room, by the reading of the bytes as slots
--                      (Pblob.Slots, Pblob.Reading, Pblob.Puts, Pblob.Sorted)
--   Records.Store      store/record/erecord/store.go and transforms.go over the tables of schema/
--                      (Records.Tables, Records.Rows), with the queries in Records.Paging; theorems
--                      in Records.Sessions, Records.Saved (by Records.Linked) and Records.Removals
--   Records.Filters    store/record/erecord/filter.go over Resource.Filters (store/resource/filter.go
--                      and fields.go); theorems in Records.Selecting, Records.Phrases and Records.Meaning, which has
--                      the predicates meet what Records.Wording says that a filter asks
--   Catalog.Cards      store/catalog/catalog.go, over the interfaces of Catalog.Stores; theorems in
--                      Catalog.Consistency, Catalog.Integrity and Catalog.Repairs
--   Facade.Vault       facade/vault.go;   Facade.Cache      facade/cache.go
--   Facade.Queries     facade/query.go and favorite.go; Facade.Controls has the fields that are offered
--                      against those that the filters know
--   Facade.Upload      facade/upload.go
--   Facade.Schedule    what the four workers use of the toolkit's scheduler
--   Facade.Update      facade/sync_update.go, with its report in Facade.Progress and
--                      what it does to the stores in Facade.Effects
--   Facade.Import      facade/sync_import.go, with its report in Facade.ImportReport
--   Facade.Integrity   facade/sync_integrity.go, with its report in Facade.IntegrityReport
--   Facade.Export      facade/export.go, export_latest.go, export_vault.go, with the report in
--                      Facade.ExportReport
--   Library.Vaults     library/fslibrary/fslibrary.go; theorems in Library.Laws
--   Settings           preferences/vpref/vpref.go and credentials/keyringcred/keyringcred.go
--   Templates          store/templater/templater.go
--   Tests              runs, and each theorem at a concrete input
--
-- State is passed explicitly; an error is a value beside the state it leaves. A Go pointer that may
-- be nil is an option. RIDs, operation IDs and addresses of mutexes are numbers, times are integers
-- (the int64 range matters for the keys of pblob alone, and is a condition there), the counter of operations is the bit
-- pattern of an int32. No function here takes fuel: every loop runs over a list.
--
-- Code of other packages is an argument: card-parser's sheets and cards (`Toolkit`, `Cards`,
-- `Codec`), card-fetcher's routers and tasks, viper, the keyring, the file system, clocks and ID
-- generators, SQLite's matching and sorting of texts. A database may refuse any statement, commit or
-- opening of a transaction. A Go panic is an error of its own, which no handler catches.
--
-- Methods that a lock guards run as one step. The tracker is modelled turn by turn. The toolkit's
-- scheduler is an argument, which gives the turns of a run: the handlers it starts, in any order, and
-- the cancellations of the operation between them, after which it may start no more. Its documented
-- behaviour is a law: at most one handler for each item, and one for each if the context is never
-- cancelled. Handlers are taken in sequence: one that works on a stored record holds its lock (the two
-- that write new ones, of records or files, hold none), and each change
-- of a report or of the cache is one step of its own. A context that is cancelled makes calls of the
-- stores fail, which they may do at any time here. How SQLite reads match expressions and Go reads
-- patterns is a law too (Records.Wording).
--
-- Not modelled: the code that ent generates (but for its validators and its upsert of new values),
-- the import of an exported vault, logging, the tuning of the databases, and the
-- wiring of the client.
pub mod Prelude
pub mod Resource
pub mod Tracker
pub mod Operation
pub mod Blob
pub mod Pblob
pub mod Records
pub mod Catalog
pub mod Facade
pub mod Library
pub mod Templates
pub mod Settings
pub mod Tests
