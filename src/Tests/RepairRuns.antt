-- ===== src/Tests/RepairRuns.antt =====
-- A catalog whose one card is in step, and one whose blob store is full.
use card_client.Prelude.{ℕ, ◌+◌, List, [], ◌∷◌, true, false, some, ◌≡◌, refl, arith}
use card_client.Prelude.Int.{pos}
use card_client.Prelude.Assoc.{lookup, insert}
use card_client.Prelude.Outcome.{Exec, ok}
use card_client.Resource.Types.{Record, tag_names, latest_update_time}
use card_client.Resource.Integrity.{
  fix_integrity, is_broken, integrity, repair_both, sync_fields, sync_sheet_fields, sync_source,
  sync_character, sync_platform, sync_link, sync_title, sync_name, sync_creator, sync_creation,
  sync_modification, sync_tags, slices_equal, sync_record_fields, sync_greetings, sync_no_book,
  sync_book,
}
use card_client.Operation.Types.{Report}
use card_client.Operation.Registry.{terminated}
use card_client.Catalog.Cards.{
  Catalog, save_card, record_tx, fix_record_integrity, is_thumbnail_ok, basic_integrity,
  compare_rids, distinct,
}
use card_client.Catalog.Repairs.{fix_record_integrity-intact}
use card_client.Facade.Update.{update_single_card, set_sync_status}
use card_client.Facade.Effects.{update_single_card-keeps_blobs}
use card_client.Facade.Integrity.{World, run_integrity_worker}
use card_client.Facade.IntegrityReport.{run_integrity_worker-adds_up}
use card_client.Tests.Samples.{toolkit, card_record, blank_sheet, in_step_record, in_step_sheet}
use card_client.Tests.CatalogRuns.{cards, Records, record_store, blob_store, full_store, accepts}
use card_client.Tests.Schedules.{in_turn}
use card_client.Tests.FacadeRuns.{om, entry, registry, router}

abbrev stores : Catalog toolkit cards (record_store accepts) blob_store
stores = record { records = (7, in_step_record) ∷ []; blobs = (7, in_step_sheet) ∷ [] }

fix_record_integrity-intact_example :
    (stores.records ≡ stores.records) × (stores.blobs ≡ stores.blobs)
unfolding fix_record_integrity is_thumbnail_ok lookup fix_integrity is_broken integrity repair_both
    sync_fields sync_sheet_fields sync_source sync_character sync_platform sync_link sync_title
    sync_name sync_creator sync_creation sync_modification sync_tags slices_equal tag_names
    latest_update_time sync_record_fields sync_greetings sync_no_book sync_book
fix_record_integrity-intact_example =
    fix_record_integrity-intact toolkit cards (record_store accepts) blob_store in_step_record
      stores stores refl

abbrev found : List ℕ → Exec Records ℕ (List Record)
found rids s = (ok (in_step_record ∷ []), s)

abbrev cleanup : Exec Records ℕ ℕ
cleanup s = (ok 0, s)

abbrev world : World toolkit cards (record_store accepts) blob_store found cleanup in_turn om
world = record { catalog = stores; registry = registry }

run_integrity_worker-adds_up_example :
    (report : Report) × (om.get
        (run_integrity_worker toolkit cards
          (record_store accepts)
          blob_store
          found
          cleanup
          in_turn
          om
          1
          (pos 2)
          world).registry.operations
        1
      ≡ some (terminated om (record entry { report = report; is_cancelled = false }) (pos 2)))
    × (report.total ≡ 1)
    × (report.progress ≡ 1)
    × (report.progress ≡ 1)
    × (report.no_successes + report.no_fixes + report.no_failures ≡ report.progress)
unfolding lookup basic_integrity compare_rids distinct
run_integrity_worker-adds_up_example =
    run_integrity_worker-adds_up toolkit cards (record_store accepts) blob_store found cleanup
      in_turn om 1 (pos 2) world entry (7 ∷ []) (in_step_record ∷ []) refl refl refl refl refl

abbrev full_stores : Catalog toolkit cards (record_store accepts) full_store
full_stores = record { records = (7, card_record) ∷ []; blobs = (7, blank_sheet) ∷ [] }

update_single_card-keeps_blobs_example :
    (update_single_card toolkit cards
      (record_store accepts)
      full_store
      router
      true
      7
      (pos 9)
      full_stores).1.blobs
    ≡ full_stores.blobs
unfolding update_single_card save_card record_tx set_sync_status lookup insert tag_names
update_single_card-keeps_blobs_example =
    update_single_card-keeps_blobs toolkit cards (record_store accepts) full_store router
      (λ t. refl) true 7 (pos 9) full_stores (λ h. absurd (ground arith))
