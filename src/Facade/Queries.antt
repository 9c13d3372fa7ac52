-- ===== src/Facade/Queries.antt =====
-- facade/query.go and facade/favorite.go: what runs on the catalog of the vault in use, under a read
-- lock of the vault manager.
use card_client.Prelude.{
  ℕ, ◌+◌, String, List, [], ◌∷◌, Bool, true, false, Option, none, some, ◌≡◌, refl, arith,
}
use card_client.Prelude.Int.{ℤ, negsuc}
use card_client.Prelude.Outcome.{Result, ok, err, Exec}
use card_client.Resource.Types.{Box, Record, sync_success, sync_unchanged, sync_failed}
use card_client.Resource.Filters.{
  Filter, FieldControls, field_title, field_nickname, field_name, field_update_time,
  field_create_time, field_import_time, field_sync_time, field_favorite, field_is_fork,
  field_has_book,
}
use card_client.Facade.Vault.{Outcome, VaultManager, begin_read_op, unlock}

-- `beginReadOp` has failed, or the catalog.
pub data QueryError (E : Type 0) : Type 0 where
  no_catalog : Outcome → QueryError E
  catalog_failed : E → QueryError E

-- The methods of catalog.Service that the queries call.
pub record Queried : Type 1 where
  pub Catalog : Type 0
  pub Error : Type 0
  pub Sheet : Type 0
  pub count : Filter → Exec Catalog Error ℕ
  pub find_paged_rids : Filter → ℕ → ℤ → Exec Catalog Error (List ℕ)
  -- A box stands beside the error.
  pub find_records : List ℕ → Catalog → (Box Record × Option Error) × Catalog
  pub get_sheet : ℕ → ℤ → Exec Catalog Error Sheet
  pub thumbnail_bytes : ℕ → Exec Catalog Error (List ℕ)
  pub tag_names : Exec Catalog Error (List String)
  pub toggle_favorite : ℕ → Exec Catalog Error (Unit {0})
  pub update_favorite_data : Bool → List ℕ → Exec Catalog Error (Unit {0})

module _ (q : Queried) where
  abbrev pub Manager : Type 0
  Manager = VaultManager q.Catalog

  abbrev pub Query : Type 0 → Type 0
  Query A = Exec Manager (QueryError q.Error) A

  -- The deferred `unlock`, after the catalog has answered.
  abbrev pub answered :
      {A : Type 0}
      → Manager
      → Result q.Error A × q.Catalog
      → Result (QueryError q.Error) A × Manager
  answered m (ok a, c) = (ok a, unlock q.Catalog (record m { catalog = some c }))
  answered m (err e, c) = (err (catalog_failed e), unlock q.Catalog (record m { catalog = some c }))

  abbrev pub begun :
      {A : Type 0}
      → Exec q.Catalog q.Error A
      → (Outcome × Option q.Catalog) × Manager
      → Result (QueryError q.Error) A × Manager
  begun f ((o, none), m) = (err (no_catalog o), m)
  begun f ((o, some c), m) = answered m (f c)

  unfoldable pub on_catalog : {A : Type 0} → Exec q.Catalog q.Error A → Query A
  on_catalog f m = begun f (begin_read_op q.Catalog m)

  unfoldable pub count_records : Filter → Query ℕ
  count_records f = on_catalog (q.count f)

  unfoldable pub find_rids : Filter → Query (List ℕ)
  find_rids f = on_catalog (q.find_paged_rids f 0 (negsuc 0))

  unfoldable pub find_paged_ids : Filter → ℕ → ℤ → Query (List ℕ)
  find_paged_ids f offset limit = on_catalog (q.find_paged_rids f offset limit)

  abbrev pub failure : Option q.Error → Option (QueryError q.Error)
  failure none = none
  failure (some e) = some (catalog_failed e)

  abbrev pub boxed :
      ℤ
      → List ℕ
      → (Outcome × Option q.Catalog) × Manager
      → (Box Record × Option (QueryError q.Error)) × Manager
  boxed now rids ((o, none), m) = ((record { items = []; timestamp = now }, some (no_catalog o)), m)
  boxed now rids ((o, some c), m) =
      let ((box, e), c') = q.find_records rids c in
      ((box, failure e), unlock q.Catalog (record m { catalog = some c' }))

  -- Without a catalog the box holds nothing but the time, `now`.
  unfoldable pub find_records :
      ℤ → List ℕ → Manager → (Box Record × Option (QueryError q.Error)) × Manager
  find_records now rids m = boxed now rids (begin_read_op q.Catalog m)

  unfoldable pub sheet : ℕ → ℤ → Query q.Sheet
  sheet rid v = on_catalog (q.get_sheet rid v)

  unfoldable pub thumbnail_bytes : ℕ → Query (List ℕ)
  thumbnail_bytes rid = on_catalog (q.thumbnail_bytes rid)

  unfoldable pub tag_names : Query (List String)
  tag_names = on_catalog q.tag_names

  unfoldable pub toggle_favorite : ℕ → Query (Unit {0})
  toggle_favorite rid = on_catalog (q.toggle_favorite rid)

  unfoldable pub update_favorites : Bool → List ℕ → Query (Unit {0})
  update_favorites b rids = on_catalog (q.update_favorite_data b rids)

  abbrev pub is_loaded : Option q.Catalog → Bool
  is_loaded none = false
  is_loaded (some c) = true

  -- The same locks, name and closed catalogs, and a catalog where there was one.
  abbrev pub Released : Manager → Manager → Type 0
  Released m n =
      (n.readers ≡ m.readers)
      × (n.writing ≡ m.writing)
      × (n.name ≡ m.name)
      × (n.closed ≡ m.closed)
      × (is_loaded n.catalog ≡ is_loaded m.catalog)

  answered_releases :
      {A : Type 0} (m : Manager) (c : q.Catalog) (r : Result q.Error A × q.Catalog)
      → m.catalog ≡ some c
      → Released m (answered (record m { readers = m.readers + 1 }) r).1
  unfolding unlock
  answered_releases m c (ok a, s) e = (omega arith, refl, refl, refl, rw e refl)
  answered_releases m c (err x, s) e = (omega arith, refl, refl, refl, rw e refl)

  at_fields :
      {A : Type 0} (f : Exec q.Catalog q.Error A) (name : String) (catalog : Option q.Catalog)
      (readers : ℕ) (writing : Bool) (closed : List q.Catalog)
      → (let m : Manager = record {
        name = name;
        catalog = catalog;
        readers = readers;
        writing = writing;
        closed = closed;
      } in
          Released m (on_catalog f m).1)
  unfolding on_catalog begin_read_op
  at_fields f name catalog readers true closed = (refl, refl, refl, refl, refl)
  at_fields f name none readers false closed = (refl, refl, refl, refl, refl)
  at_fields f name (some c) readers false closed =
      answered_releases
        (record {
          name = name;
          catalog = some c;
          readers = readers;
          writing = false;
          closed = closed;
        })
        c (f c) refl

  -- A query, whatever the catalog answers, leaves the locks of the vault manager as they were, and
  -- so the name of the vault and the catalogs that have been closed; there is a catalog afterwards
  -- exactly if there was one.
  pub on_catalog_releases :
      {A : Type 0} (f : Exec q.Catalog q.Error A) (m : Manager) → Released m (on_catalog f m).1
  on_catalog_releases f m = at_fields f m.name m.catalog m.readers m.writing m.closed

  find_records_at_fields :
      (now : ℤ) (rids : List ℕ) (name : String) (catalog : Option q.Catalog) (readers : ℕ)
      (writing : Bool) (closed : List q.Catalog)
      → (let m : Manager = record {
        name = name;
        catalog = catalog;
        readers = readers;
        writing = writing;
        closed = closed;
      } in
          Released m (find_records now rids m).1)
  unfolding find_records begin_read_op unlock
  find_records_at_fields now rids name catalog readers true closed = (refl, refl, refl, refl, refl)
  find_records_at_fields now rids name none readers false closed = (refl, refl, refl, refl, refl)
  find_records_at_fields now rids name (some c) readers false closed =
      (omega arith, refl, refl, refl, refl)

  -- So does the query whose box stands beside its error.
  find_records_releases :
      (now : ℤ) (rids : List ℕ) (m : Manager) → Released m (find_records now rids m).1
  find_records_releases now rids m =
      find_records_at_fields now rids m.name m.catalog m.readers m.writing m.closed

-- `GetFilterControls`; the sources are the router's.
unfoldable pub get_filter_controls : List String → FieldControls
get_filter_controls sources = record {
  text_fields =
      record { field = field_title; display_name = "Card Name" }
      ∷ record { field = field_nickname; display_name = "Creator" }
      ∷ record { field = field_name; display_name = "Name" }
      ∷ [];
  sortable_fields =
      record { field = field_update_time; display_name = "Update Time" }
      ∷ record { field = field_create_time; display_name = "Create Time" }
      ∷ record { field = field_import_time; display_name = "Import Time" }
      ∷ record { field = field_sync_time; display_name = "Sync Time" }
      ∷ [];
  boolean_fields =
      record { field = field_favorite; display_name = "Favorite" }
      ∷ record { field = field_is_fork; display_name = "Fork" }
      ∷ record { field = field_has_book; display_name = "Has Book" }
      ∷ [];
  sources = sources;
  statuses = sync_success ∷ sync_unchanged ∷ sync_failed ∷ [];
  content_fields =
      record { field = "description"; display_name = "Description" }
      ∷ record { field = "personality"; display_name = "Personality" }
      ∷ record { field = "scenario"; display_name = "Scenario" }
      ∷ record { field = "first_mes"; display_name = "First Message" }
      ∷ record { field = "mes_example"; display_name = "Message Examples" }
      ∷ record { field = "creator_notes"; display_name = "Creator Notes" }
      ∷ record { field = "system_prompt"; display_name = "System Prompt" }
      ∷ record { field = "post_history_instructions"; display_name = "Post History Instructions" }
      ∷ record { field = "alternate_greetings"; display_name = "Alternate Greetings" }
      ∷ record { field = "depth_prompt"; display_name = "Depth Prompt" }
      ∷ [];
}
