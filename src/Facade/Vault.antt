-- ===== src/Facade/Vault.antt =====
-- facade/vault.go: the vault in use, behind a read-write mutex that is only ever tried.
use card_client.Prelude.{
  ℕ, ◌+◌, ◌-◌, String, List, [], ◌∷◌, ◌++◌, Bool, true, false, Option, none, some, if◌then◌else◌,
  ◌==◌, ◌≡◌, ◌≢◌, refl, arith, not, ◌&&◌, Option-cases, Bool-cases, inl, inr,
}

-- What `LoadVault`, `UnloadVault` and `beginReadOp` answer.
pub data Outcome : Type 0 where
  done is_busy not_loaded is_loading no_vault : Outcome

-- `readers` and `writing` are the mutex; `closed` lists the catalogs that have been closed.
pub record VaultManager (Catalog : Type 0) : Type 0 where
  pub name : String
  pub catalog : Option Catalog
  pub readers : ℕ
  pub writing : Bool
  pub closed : List Catalog

pub record Vault (Catalog : Type 0) : Type 0 where
  pub vault_name : String
  pub vault_catalog : Catalog

module _ (Catalog : Type 0) where
  abbrev pub Manager : Type 0
  Manager = VaultManager Catalog

  unfoldable pub new_vault_manager : Manager
  new_vault_manager = record {
    name = "";
    catalog = none;
    readers = 0;
    writing = false;
    closed = [];
  }

  -- `TryLock` and `TryRLock` succeed.
  abbrev pub can_lock : Manager → Bool
  can_lock m = not m.writing && (m.readers == 0)

  abbrev pub can_read : Manager → Bool
  can_read m = not m.writing

  -- `Close` on the catalog that was in use, if there was one.
  abbrev pub close_old : Option Catalog → List Catalog → List Catalog
  close_old none closed = closed
  close_old (some c) closed = closed ++ (c ∷ [])

  unfoldable pub lock : Manager → Manager
  lock m = record m { writing = true }

  -- The rest of `LoadVault` with the mutex held, up to its release; `loaded` is what the library's
  -- `Load` returns for the name.
  unfoldable pub finish_load : Option (Vault Catalog) → Manager → Outcome × Manager
  finish_load none m = (not_loaded, record m { writing = false })
  finish_load (some v) m = (
    done,
    record m {
      name = v.vault_name;
      catalog = some v.vault_catalog;
      closed = close_old m.catalog m.closed;
      writing = false;
    },
  )

  unfoldable pub load_vault : Option (Vault Catalog) → Manager → Outcome × Manager
  unfolding lock finish_load
  load_vault loaded m = if can_lock m then finish_load loaded (lock m) else (is_busy, m)

  unfoldable pub finish_unload : Manager → Outcome × Manager
  finish_unload m = (
    done,
    record m { name = ""; catalog = none; closed = close_old m.catalog m.closed; writing = false },
  )

  unfoldable pub unload_vault : Manager → Outcome × Manager
  unfolding lock finish_unload
  unload_vault m = if can_lock m then finish_unload (lock m) else (is_busy, m)

  unfoldable pub begin_read_op : Manager → (Outcome × Option Catalog) × Manager
  begin_read_op m =
      if can_read m
      then elim m.catalog [
        | none ↦ ((no_vault, none), m)
        | some c ↦ ((done, some c), record m { readers = m.readers + 1 })
      ]
      else ((is_loading, none), m)

  -- The function that `beginReadOp` hands out.
  unfoldable pub unlock : Manager → Manager
  unlock m = record m { readers = m.readers - 1 }

  -- The points at which goroutines can interleave: a writer takes the mutex, and later finishes.
  pub data Step (m : Manager) : Manager → Type 0 where
    locks : can_lock m ≡ true → Step m (lock m)
    loads : (v : Option (Vault Catalog)) → m.writing ≡ true → Step m (finish_load v m).1
    unloads : m.writing ≡ true → Step m (finish_unload m).1
    begins : Step m (begin_read_op m).1
    ends : m.readers ≢ 0 → Step m (unlock m)

  pub data Run : Manager → Type 0 where
    start : Run new_vault_manager
    next : {m m' : Manager} → Run m → Step m m' → Run m'

  -- The mutex: a writer excludes readers, and a reader has a catalog.
  abbrev pub Safe : Manager → Type 0
  Safe m = (m.writing ≡ true → m.readers ≡ 0) × (m.catalog ≡ none → m.readers ≡ 0)

  begin_read_op-Safe : (m : Manager) → Safe m → Safe (begin_read_op m).1
  unfolding begin_read_op
  begin_read_op-Safe m (w, c) = elim (Option-cases m.catalog) [
    | inl e ↦ elim (Bool-cases m.writing) [
      | inl b ↦ rw (b, e) (λ h. w b, λ h. c e)
      | inr b ↦ rw (b, e) (λ h. c e, λ h. c e)
    ]
    | inr (x, e) ↦ elim (Bool-cases m.writing) [
      | inl b ↦ rw (b, e) (λ h. w b, λ h. absurd (ground arith))
      | inr b ↦ rw (b, e) (λ h. absurd (ground arith), λ h. absurd (ground arith))
    ]
  ]

  Step-Safe : {m m' : Manager} → Step m m' → Safe m → Safe m'
  unfolding lock finish_load finish_unload unlock
  Step-Safe {m} (locks free) s = (λ h. ground arith, s.1)
  Step-Safe {m} (loads none held) s = (λ h. absurd (ground arith), s.1)
  Step-Safe {m} (loads (some v) held) s = (λ h. absurd (ground arith), λ h. absurd (ground arith))
  Step-Safe {m} (unloads held) s = (λ h. absurd (ground arith), λ h. s.0 held)
  Step-Safe {m} begins s = begin_read_op-Safe m s
  Step-Safe {m} (ends h) s = (λ w. let e = s.0 w in omega arith, λ c. let e = s.1 c in omega arith)

  Run-Safe : {m : Manager} → Run m → Safe m
  unfolding new_vault_manager
  Run-Safe start = (λ h. refl, λ h. refl)
  Run-Safe (next r st) = Step-Safe st (Run-Safe r)

  begin_read_op-keeps :
      (m : Manager)
      → ((begin_read_op m).1.catalog ≡ m.catalog) × ((begin_read_op m).1.closed ≡ m.closed)
  unfolding begin_read_op
  begin_read_op-keeps m = elim (Option-cases m.catalog) [
    | inl e ↦ elim (Bool-cases m.writing) [
      | inl b ↦ (simp (b, e), simp (b, e))
      | inr b ↦ (simp (b, e), simp (b, e))
    ]
    | inr (x, e) ↦ elim (Bool-cases m.writing) [
      | inl b ↦ (simp (b, e), simp (b, e))
      | inr b ↦ (simp (b, e), simp (b, e))
    ]
  ]

  -- In a run of the manager, while a read operation holds the lock there is a catalog, and no step
  -- changes it or closes one.
  pub reader_keeps_catalog :
      {m m' : Manager}
      → Run m
      → m.readers ≢ 0
      → Step m m'
      → (m.catalog ≢ none) × (m'.catalog ≡ m.catalog) × (m'.closed ≡ m.closed)
  unfolding lock finish_load finish_unload unlock
  reader_keeps_catalog {m} r held st = (λ e. held ((Run-Safe r).1 e), (kept st).0, (kept st).1)
    where
      kept : {m' : Manager} → Step m m' → (m'.catalog ≡ m.catalog) × (m'.closed ≡ m.closed)
      kept (locks free) = (refl, refl)
      kept (loads v w) = absurd (held ((Run-Safe r).0 w))
      kept (unloads w) = absurd (held ((Run-Safe r).0 w))
      kept begins = begin_read_op-keeps m
      kept (ends h) = (refl, refl)
