-- ===== src/Facade/Export.antt =====
-- facade/export.go, facade/export_latest.go and facade/export_vault.go: the two exports.
use card_client.Prelude.{
  ℕ, ◌+◌, String, List, [], ◌∷◌, ◌++◌, Bool, true, false, not, ◌||◌, if◌then◌else◌, length, ltb,
  str_eq,
}
use card_client.Prelude.Int.{ℤ}
use card_client.Prelude.Assoc.{insert}
use card_client.Prelude.Outcome.{Exec, Result, ok, err}
use card_client.Resource.Types.{Record, Toolkit, ExportData}
use card_client.Operation.Types.{OperationEntry, Report}
use card_client.Operation.Ordered.{OrderedMap}
use card_client.Operation.Registry.{Registry, mutate_report, mark_terminated, cancel}
use card_client.Catalog.Stores.{Cards, RecordStore, BlobStore}
use card_client.Catalog.Cards.{Catalog, on_records}
use card_client.Facade.Cache.{CacheManager, push}
use card_client.Facade.Schedule.{Turn, handles, cancels, Scheduler, is_cancelled}

-- What the exports take from other packages: png's size and scaling, which gives the bytes of the
-- scaled card, path operations, a compiled template and the file system, whose state is `Files`.
pub record Exporter (Error : Type 0) : Type 1 where
  pub Bytes : Type 0
  pub Files : Type 0
  pub Template : Type 0
  pub compile : String → Template
  pub execute : Template → Record → String
  pub image_size : Bytes → ℕ × ℕ
  pub scale_down : Bytes → ℕ → Result Error Bytes
  pub sanitize_path : String → String
  pub join_path : String → String → String
  pub identifier : String → String → String
  pub rid_prefix : ℕ → String → String
  pub write_file : String → Bytes → Exec Files Error (Unit {0})

pub record ExportResult : Type 0 where
  pub identifier : String
  pub success : Bool

unfoldable pub export_progress : ExportResult → Report → Report
export_progress result report =
    if result.success
    then record report { progress = report.progress + 1; no_successes = report.no_successes + 1 }
    else record report {
      progress = report.progress + 1;
      aux_data = report.aux_data ++ (result.identifier ∷ []);
      no_failures = report.no_failures + 1;
    }

module _ {Error : Type 0} (ex : Exporter Error) where
  -- The export service's template and what it was compiled to.
  pub record Compiled : Type 0 where
    pub template : String
    pub compiled_template : ex.Template

  abbrev pub new_compiled : String → Compiled
  new_compiled template = record { template = template; compiled_template = ex.compile template }

  -- `getCompiledTemplate`, given what the preferences hold.
  unfoldable pub get_compiled_template : String → Compiled → ex.Template × Compiled
  get_compiled_template new_template c =
      if not (str_eq c.template new_template)
      then (
        ex.compile new_template,
        record { template = new_template; compiled_template = ex.compile new_template },
      )
      else (c.compiled_template, c)

  abbrev pub needs_scaling : ex.Bytes → ℕ → Bool
  needs_scaling card max_size =
      let (width, height) = ex.image_size card in ltb max_size width || ltb max_size height

  abbrev pub write_scaled : Result Error ex.Bytes → String → Exec ex.Files Error (Unit {0})
  write_scaled (err e) path f = (err e, f)
  write_scaled (ok card) path f = ex.write_file path card f

  -- `writeCardToFile`, once the bytes are read.
  unfoldable pub write_card : ex.Bytes → String → ℕ → Exec ex.Files Error (Unit {0})
  write_card card path max_size f =
      if needs_scaling card max_size
      then write_scaled (ex.scale_down card max_size) path f
      else ex.write_file path card f

  module _ {Rest : Type 0} (k : Toolkit Rest) (cards : Cards Rest)
      (rs : RecordStore cards.Card Error) (bs : BlobStore cards.Card Error)
      (get_card_bytes : ℕ → ℤ → bs.State → Result Error ex.Bytes)
      (om : OrderedMap OperationEntry) where
    pub record World : Type 0 where
      pub catalog : Catalog k cards rs bs
      pub registry : Registry om
      pub cache : CacheManager
      pub files : ex.Files

    -- `export_time` is what the clock says when a card is marked as exported.
    pub record ExportContext : Type 0 where
      pub operation : ℕ
      pub compiled : ex.Template
      pub export_path : String
      pub max_export_size : ℕ
      pub export_time : ℤ

    abbrev pub with_report : ℕ → (Report → Report) → World → World
    with_report op f w = record w { registry = (mutate_report om w.registry op f).1 }

    -- An error of `UpdateExportData` is dropped.
    abbrev pub mark_exported : ℕ → ExportData → World → World
    mark_exported rid exported w = record w {
      catalog = (on_records k cards rs bs (rs.update_export_data rid exported) w.catalog).1;
    }

    abbrev pub build_identifier : Record → String
    build_identifier r = ex.identifier r.info.title r.info.direct_url

    abbrev pub build_export_path : ExportContext → Record → String
    build_export_path c r = ex.join_path c.export_path (ex.sanitize_path (ex.execute c.compiled r))

    abbrev pub written :
        ExportContext
        → ℕ
        → Record
        → Result Error (Unit {0}) × ex.Files
        → World
        → ExportResult × World
    written c rid r (err e, f) w =
        (record { identifier = build_identifier r; success = false }, record w { files = f })
    written c rid r (ok t, f) w = (
      record { identifier = build_identifier r; success = true },
      mark_exported rid
          (record { export_time = c.export_time; exported_version = r.info.update_time })
          (record w { files = f }),
    )

    abbrev pub read_bytes :
        ExportContext → ℕ → Record → Result Error ex.Bytes → World → ExportResult × World
    read_bytes c rid r (err e) w = (record { identifier = build_identifier r; success = false }, w)
    read_bytes c rid r (ok card) w =
        written c rid r (write_card card (build_export_path c r) c.max_export_size w.files) w

    abbrev pub looked_up :
        ExportContext
        → ℕ
        → Result Error Record × Catalog k cards rs bs
        → World
        → ExportResult × World
    looked_up c rid (err e, s) w =
        (record { identifier = ""; success = false }, record w { catalog = s })
    looked_up c rid (ok r, s) w =
        read_bytes c rid r (get_card_bytes rid r.info.update_time s.blobs)
          (record w { catalog = s })

    unfoldable pub export_card : ExportContext → ℕ → World → ExportResult × World
    unfolding write_card
    export_card c rid w =
        looked_up c rid (on_records k cards rs bs (rs.find_record rid) w.catalog) w

    -- `processSingleExport` and `updateExportProgress`.
    unfoldable pub handle_export : ExportContext → ℕ → World → World
    unfolding export_card
    handle_export c rid w =
        let (result, w') = export_card c rid w in
        with_report c.operation (export_progress result)
          (record w' { cache = push rid c.operation w'.cache })

    abbrev pub cancel_export : ℕ → World → World
    cancel_export op w = record w { registry = (cancel om w.registry op).1 }

    unfoldable pub export_turns : ExportContext → List (Turn ℕ) → World → World
    unfolding handle_export cancel
    export_turns c [] w = w
    export_turns c (handles rid ∷ ts) w = export_turns c ts (handle_export c rid w)
    export_turns c (cancels ∷ ts) w = export_turns c ts (cancel_export c.operation w)

    unfoldable pub process_all_exports : Scheduler ℕ → ExportContext → List ℕ → World → World
    unfolding export_turns
    process_all_exports sched c rids w =
        export_turns c (sched.exec (is_cancelled om w.registry c.operation) rids) w

    unfoldable pub run_export_worker : Scheduler ℕ → ExportContext → ℤ → List ℕ → World → World
    unfolding process_all_exports
    run_export_worker sched c now rids w =
        let done =
          process_all_exports sched c rids
            (with_report c.operation (λ report. record report { total = length rids }) w) in
        record done { registry = (mark_terminated om done.registry c.operation now).1 }

    -- `exportVaultCard`: the index is a map from RIDs.
    abbrev pub vault_written :
        ExportContext
        → Record
        → Result Error (Unit {0}) × ex.Files
        → List (ℕ × Record)
        → World
        → List (ℕ × Record) × World
    vault_written c r (err e, f) index w = (
      index,
      with_report c.operation
          (export_progress (record { identifier = r.info.title; success = false }))
          (record w { files = f }),
    )
    vault_written c r (ok t, f) index w = (
      insert r.id r index,
      with_report c.operation
          (export_progress (record { identifier = r.info.title; success = true }))
          (record w { files = f }),
    )

    abbrev pub vault_read :
        ExportContext
        → Record
        → Result Error ex.Bytes
        → List (ℕ × Record)
        → World
        → List (ℕ × Record) × World
    vault_read c r (err e) index w = (
      index,
      with_report c.operation
          (export_progress (record { identifier = r.info.title; success = false })) w,
    )
    vault_read c r (ok card) index w =
        vault_written c r
          (ex.write_file
            (ex.join_path c.export_path
              (ex.rid_prefix r.id (ex.sanitize_path (ex.execute c.compiled r))))
            card w.files)
          index w

    unfoldable pub export_vault_card :
        ExportContext → Record → List (ℕ × Record) → World → List (ℕ × Record) × World
    export_vault_card c r index w =
        vault_read c r (get_card_bytes r.id r.info.update_time w.catalog.blobs) index w

    unfoldable pub vault_turns :
        ExportContext → List (Turn Record) → List (ℕ × Record) → World → List (ℕ × Record) × World
    unfolding export_vault_card cancel
    vault_turns c [] index w = (index, w)
    vault_turns c (handles r ∷ ts) index w =
        let (index', w') = export_vault_card c r index w in vault_turns c ts index' w'
    vault_turns c (cancels ∷ ts) index w = vault_turns c ts index (cancel_export c.operation w)

    -- The `scheduler.Exec` of `runVaultExportWorker`, from an empty index.
    unfoldable pub export_vault_cards :
        Scheduler Record → ExportContext → List Record → World → List (ℕ × Record) × World
    unfolding vault_turns
    export_vault_cards sched c records w =
        vault_turns c (sched.exec (is_cancelled om w.registry c.operation) records) [] w
