-- ===== src/Tests/FacadeRuns.antt =====
-- The services on the small stores.
use card_client.Prelude.{
  ℕ, ◌+◌, ◌≤◌, String, List, [], ◌∷◌, true, false, Option, none, some, ◌≡◌, ◌≢◌, refl, arith,
  length, map,
}
use card_client.Prelude.Int.{ℤ, pos}
use card_client.Prelude.Assoc.{lookup}
use card_client.Prelude.Outcome.{Exec, Result, ok, err}
use card_client.Resource.Types.{Sheet}
use card_client.Operation.Types.{OperationEntry, Report, update, import_action}
use card_client.Operation.Ordered.{OrderedMap, listed_map}
use card_client.Operation.Registry.{Registry, new_entry, terminated, empty_report}
use card_client.Catalog.Metadata.{to_metadata}
use card_client.Catalog.Cards.{Catalog}
use card_client.Facade.Vault.{
  Manager, Run, start, next, locks, loads, begins, lock, finish_load, begin_read_op,
  new_vault_manager, reader_keeps_catalog,
}
use card_client.Facade.Cache.{
  unavailable, flush, push_all, new_cache_manager, request_of, flush_answers,
}
use card_client.Facade.Update.{Router, Task}
use card_client.Facade.Progress.{run_update_worker-adds_up}
use card_client.Facade.Import.{Importer, ImportTask, TaskMap, set_total}
use card_client.Facade.ImportReport.{import_urls-adds_up, import_urls_leaks}
use card_client.Facade.Export.{Exporter, Compiled, ExportContext, get_compiled_template}
use card_client.Facade.ExportReport.{run_export_worker-adds_up}
use card_client.Tests.Samples.{toolkit, card_record, blank_sheet}
use card_client.Tests.CatalogRuns.{cards, Records, record_store, blob_store, accepts}
use card_client.Tests.Schedules.{in_turn, cancelled_early}
use card_client.Facade.Update
use card_client.Facade.Import
use card_client.Facade.Export

-- A vault is loaded and a read operation begins.
abbrev loaded : Manager ℕ
unfolding new_vault_manager lock finish_load
loaded =
    (finish_load ℕ (some (record { vault_name = "v"; vault_catalog = 4 }))
      (lock ℕ (new_vault_manager ℕ))).1

abbrev reading : Manager ℕ
unfolding loaded begin_read_op
reading = (begin_read_op ℕ loaded).1

reading-Run : Run ℕ reading
unfolding reading loaded new_vault_manager lock finish_load begin_read_op
reading-Run =
    next
      (next (next start (locks refl))
        (loads (some (record { vault_name = "v"; vault_catalog = 4 })) refl))
      begins

reader_keeps_catalog_example :
    (reading.catalog ≢ none)
    × ((begin_read_op ℕ reading).1.catalog ≡ reading.catalog)
    × ((begin_read_op ℕ reading).1.closed ≡ reading.closed)
unfolding reading loaded new_vault_manager lock finish_load begin_read_op
reader_keeps_catalog_example =
    reader_keeps_catalog ℕ {m = reading} {m' = (begin_read_op ℕ reading).1} reading-Run
      (λ h. absurd (omega arith)) begins

flush_answers_example :
    (map request_of
        (flush
          (λ rids. unavailable)
          (pos 9)
          (push_all ((7, 1) ∷ (8, 1) ∷ []) new_cache_manager)).0.items
      ≡ (7, 1) ∷ (8, 1) ∷ [])
    × ((flush (λ rids. unavailable) (pos 9) (push_all ((7, 1) ∷ (8, 1) ∷ []) new_cache_manager)).1
        ≡ new_cache_manager)
flush_answers_example = flush_answers (λ rids. unavailable) (pos 9) ((7, 1) ∷ (8, 1) ∷ [])

abbrev pub om : OrderedMap OperationEntry
om = listed_map OperationEntry

abbrev pub entry : OperationEntry
entry = new_entry om 1 (pos 1) "vault" update

pub nothing_at : (k : ℕ) → ◌≡◌ {A = Option OperationEntry} (lookup k []) none
unfolding lookup
nothing_at k = refl

abbrev pub registry : Registry om
registry = record {
  operations = ((1, entry) ∷ [], (nothing_at 1, tt));
  active_ops = 1;
  dirty_flag = true;
}

abbrev stores : Catalog toolkit cards (record_store accepts) blob_store
stores = record { records = (7, card_record) ∷ []; blobs = [] }

-- Every URL is fetched as the sample record with a blank sheet.
abbrev pub router : Router (Sheet ℕ) ℕ
router = record {
  task_of = λ url. some (record {
    fetch_metadata = ok (to_metadata card_record);
    fetch_all = ok (to_metadata card_record, blank_sheet);
  });
  latest_fetched = λ m. m.card_info.update_time;
}

abbrev update_world : Update.World toolkit cards (record_store accepts) blob_store router om
update_world = record { catalog = stores; registry = registry; cache = new_cache_manager }

run_update_worker-adds_up_example :
    (report : Report) × (om.get
        (Update.run_update_worker toolkit cards
          (record_store accepts)
          blob_store
          router
          om
          cancelled_early
          true
          1
          (pos 1)
          (pos 2)
          (7 ∷ 8 ∷ [])
          update_world).registry.operations
        1
      ≡ some (terminated om (record entry { report = report; is_cancelled = true }) (pos 2)))
    × (report.total ≡ 2)
    × (report.progress ≡ 1)
    × (report.progress ≤ report.total)
    × (report.no_successes + report.no_unchanges + report.no_failures ≡ report.progress)
    × (length report.aux_data ≡ report.no_failures)
    × ((Update.run_update_worker toolkit cards
          (record_store accepts)
          blob_store
          router
          om
          cancelled_early
          true
          1
          (pos 1)
          (pos 2)
          (7 ∷ 8 ∷ [])
          update_world).cache.rids
        ≡ 7 ∷ [])
unfolding lookup
run_update_worker-adds_up_example =
    run_update_worker-adds_up toolkit cards (record_store accepts) blob_store router om
      cancelled_early true 1 (pos 1) (pos 2) (7 ∷ 8 ∷ []) update_world entry refl refl refl

-- Two lines, one of which no fetcher knows.
abbrev importer : Importer (Sheet ℕ) ℕ
importer = record {
  split_lines = λ raw. "a" ∷ raw ∷ [];
  task_map_of = λ urls. record {
    valid_urls = "a" ∷ [];
    invalid_urls = "?" ∷ [];
    tasks = λ url. record {
      original_url = url;
      normalized_url = url;
      fetch_all = ok (to_metadata card_record, blank_sheet);
    };
  };
  is_constraint_error = λ e. false;
}

abbrev none_found : List String → Exec Records ℕ (List String)
none_found urls s = (ok [], s)

abbrev refused : List String → Exec Records ℕ (List String)
refused urls s = (err 3, s)

abbrev import_world :
    Import.World toolkit cards (record_store accepts) blob_store none_found importer in_turn om
import_world = record { catalog = stores; registry = registry }

import_urls-adds_up_example :
    (report : Report) × (om.get
        (Import.import_urls toolkit cards
          (record_store accepts)
          blob_store
          none_found
          importer
          in_turn
          om
          "?"
          "vault"
          4
          (pos 1)
          (pos 2)
          import_world).1.registry.operations
        4
      ≡ some (
          terminated om
            (record (new_entry om 4 (pos 1) "vault" import_action) {
              report = report;
              is_cancelled = false;
            })
            (pos 2)))
    × (report.total ≡ 2)
    × (report.progress ≡ 1 + 1)
    × ◌≡◌ {A = ℕ} 1 1
    × (report.no_successes + report.no_duplicates + report.no_failures ≡ 1)
import_urls-adds_up_example =
    import_urls-adds_up toolkit cards (record_store accepts) blob_store none_found importer in_turn
      om "?" "vault" 4 (pos 1) (pos 2) import_world [] refl

abbrev refused_world :
    Import.World toolkit cards (record_store accepts) blob_store refused importer in_turn om
refused_world = record { catalog = stores; registry = registry }

import_urls_leaks_example :
    ((Import.import_urls toolkit cards
        (record_store accepts)
        blob_store
        refused
        importer
        in_turn
        om
        "?"
        "vault"
        4
        (pos 1)
        (pos 2)
        refused_world).0
      ≡ err 3)
    × (om.get
          (Import.import_urls toolkit cards
            (record_store accepts)
            blob_store
            refused
            importer
            in_turn
            om
            "?"
            "vault"
            4
            (pos 1)
            (pos 2)
            refused_world).1.registry.operations
          4
        ≡ some (record (new_entry om 4 (pos 1) "vault" import_action) {
          report = set_total 2 empty_report;
        }))
import_urls_leaks_example =
    import_urls_leaks toolkit cards (record_store accepts) blob_store refused importer in_turn om
      "?" "vault" 4 (pos 1) (pos 2) refused_world 3 refl

-- A file system that counts what is written; a template is its text.
abbrev exporter : Exporter ℕ
exporter = record {
  Bytes = ℕ;
  Files = ℕ;
  Template = String;
  compile = λ t. t;
  execute = λ t r. r.info.name;
  image_size = λ b. (b, b);
  scale_down = λ b size. ok size;
  sanitize_path = λ p. p;
  join_path = λ a b. b;
  identifier = λ title url. title;
  rid_prefix = λ rid name. name;
  write_file = λ path b files. (ok tt, files + 1);
}

abbrev card_bytes : ℕ → ℤ → List (ℕ × Sheet ℕ) → Result ℕ ℕ
card_bytes rid v s = ok 640

abbrev export_world :
    Export.World exporter toolkit cards (record_store accepts) blob_store card_bytes om
export_world = record {
  catalog = stores;
  registry = registry;
  cache = new_cache_manager;
  files = 0;
}

abbrev context :
    ExportContext exporter toolkit cards (record_store accepts) blob_store card_bytes om
context = record {
  operation = 1;
  compiled = "{{NAME}}";
  export_path = "out";
  max_export_size = 512;
  export_time = pos 2;
}

run_export_worker-adds_up_example :
    (report : Report) × (om.get
        (Export.run_export_worker exporter toolkit cards
          (record_store accepts)
          blob_store
          card_bytes
          om
          in_turn
          context
          (pos 2)
          (7 ∷ 8 ∷ [])
          export_world).registry.operations
        1
      ≡ some (terminated om (record entry { report = report; is_cancelled = false }) (pos 2)))
    × (report.total ≡ 2)
    × (report.progress ≡ 2)
    × (report.progress ≡ report.total)
    × (report.no_successes + report.no_failures ≡ report.progress)
    × ((Export.run_export_worker exporter toolkit cards
          (record_store accepts)
          blob_store
          card_bytes
          om
          in_turn
          context
          (pos 2)
          (7 ∷ 8 ∷ [])
          export_world).cache.rids
        ≡ 7 ∷ 8 ∷ [])
unfolding lookup
run_export_worker-adds_up_example =
    run_export_worker-adds_up exporter toolkit cards (record_store accepts) blob_store card_bytes om
      in_turn context (pos 2) (7 ∷ 8 ∷ []) export_world entry refl refl refl
