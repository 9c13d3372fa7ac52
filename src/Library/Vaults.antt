-- ===== src/Library/Vaults.antt =====
-- library/fslibrary/fslibrary.go: the vaults of a directory. Each method runs as one step, as its
-- lock has it. The file system and the builders of stores are arguments.
use card_client.Prelude.{
  ℕ, String, List, [], ◌∷◌, Bool, true, false, Option, none, some, if◌then◌else◌, leb, length, map,
  str_eq, ◌≡◌,
}
use card_client.Prelude.Named.{lookup, insert, erase}
use card_client.Prelude.Outcome.{Result, ok, err, Exec, pure, fail, ◌>>=◌, ◌>>◌}

pub data LibraryError : Type 0 where
  maximum_reached already_exists not_found file_failed storage_unknown build_failed : LibraryError

pub record Manifest : Type 0 where
  pub record_storage : String
  pub blob_storage : String

-- What the library calls of `os`, `filepath` and `jsonx`. `exists` and `is_within` are for stating
-- what the calls do: one that succeeds makes its directory, or removes what is within its path.
-- `filepath.Join` cleans what it joins, so only a plain name, one path element that is no dot, is
-- sure to stay below a path.
pub record Files : Type 1 where
  pub State : Type 0
  pub join : String → String → String
  pub make_all : String → Exec State LibraryError (Unit {0})
  pub remove_all : String → Exec State LibraryError (Unit {0})
  pub read_dir : String → State → Result LibraryError (List (String × Bool))
  pub read_manifest : String → State → Option Manifest
  pub write_manifest : Manifest → String → Exec State LibraryError (Unit {0})
  pub exists : String → State → Bool
  pub is_within : String → String → Bool
  pub is_plain : String → Bool
  pub make_all_makes : (p : String) (s s' : State) → make_all p s ≡ (ok tt, s') → exists p s' ≡ true
  pub make_all_keeps :
      (p q : String) (s : State) → exists q s ≡ true → exists q (make_all p s).1 ≡ true
  pub remove_all_removes :
      (p q : String) (s s' : State)
      → remove_all p s ≡ (ok tt, s')
      → exists q s' ≡ (if is_within p q then false else exists q s)
  pub within_join :
      (p n : String)
      → str_eq p "" ≡ false
      → is_plain n ≡ true
      → is_within (join p "") (join p n) ≡ true

-- `recordStorages` and `blobStorages` find a builder by its name; building touches the files.
pub record Builders (fs : Files) : Type 1 where
  pub Records : Type 0
  pub Blobs : Type 0
  pub record_builder : String → Option (String → Exec fs.State LibraryError Records)
  pub blob_builder : String → Option (String → Exec fs.State LibraryError Blobs)

pub record Options : Type 0 where
  pub path : String
  pub max_vaults : ℕ
  pub storages : Manifest

module _ (fs : Files) where
  pub record FsLibrary : Type 0 where
    pub root : String
    pub max_vaults : ℕ
    pub storages : Manifest
    pub vaults : List (String × String)
    pub files : fs.State

  -- The loop of `NewFsLibrary`: what is not a directory goes.
  unfoldable pub take_entries : String → List (String × Bool) → FsLibrary → FsLibrary
  take_entries root [] l = l
  take_entries root ((name, true) ∷ es) l =
      take_entries root es (record l { vaults = insert name (fs.join root name) l.vaults })
  take_entries root ((name, false) ∷ es) l =
      take_entries root es (record l { files = (fs.remove_all (fs.join root name) l.files).1 })

  abbrev pub entered :
      String
      → Result LibraryError (List (String × Bool))
      → FsLibrary
      → Result LibraryError FsLibrary
  entered root (err e) l = err e
  entered root (ok es) l = ok (take_entries root es l)

  unfoldable pub new_fs_library : Options → fs.State → Result LibraryError FsLibrary
  new_fs_library o s =
      let s' = (fs.make_all o.path s).1 in
      entered o.path (fs.read_dir o.path s') (record {
        root = o.path;
        max_vaults = o.max_vaults;
        storages = o.storages;
        vaults = [];
        files = s';
      })

  unfoldable pub names : FsLibrary → List String
  names l = map (λ v. v.0) l.vaults

  unfoldable pub count : FsLibrary → ℕ
  count l = length l.vaults

  -- After `MkdirAll`, and after `RemoveAll`.
  abbrev pub made :
      String
      → FsLibrary
      → Result LibraryError (Unit {0}) × fs.State
      → Result LibraryError (Unit {0}) × FsLibrary
  made name l (err e, s) = (err e, record l { files = s })
  made name l (ok u, s) =
      (ok tt, record l { vaults = insert name (fs.join l.root name) l.vaults; files = s })

  abbrev pub removed :
      String
      → FsLibrary
      → Result LibraryError (Unit {0}) × fs.State
      → Result LibraryError (Unit {0}) × FsLibrary
  removed name l (err e, s) = (err e, record l { files = s })
  removed name l (ok u, s) = (ok tt, record l { vaults = erase name l.vaults; files = s })

  abbrev pub is_some : Option String → Bool
  is_some none = false
  is_some (some p) = true

  unfoldable pub create : String → FsLibrary → Result LibraryError (Unit {0}) × FsLibrary
  create name l =
      if leb l.max_vaults (length l.vaults)
      then (err maximum_reached, l)
      else if is_some (lookup name l.vaults)
      then (err already_exists, l)
      else made name l (fs.make_all (fs.join l.root name) l.files)

  unfoldable pub delete : String → FsLibrary → Result LibraryError (Unit {0}) × FsLibrary
  delete name l = removed name l (fs.remove_all (fs.join l.root name) l.files)

  module _ (b : Builders fs) where
    -- The manifest that is there, or that of the library, which is then written.
    abbrev pub manifest_or :
        Manifest → String → Option Manifest → Exec fs.State LibraryError Manifest
    manifest_or default path (some m) = pure m
    manifest_or default path none = do fs.write_manifest default path; pure default

    abbrev pub found : {A : Type 0} → Option A → Exec fs.State LibraryError A
    found none = fail storage_unknown
    found (some build) = pure build

    -- Both builders are looked up before either builds.
    abbrev pub build_stores : String → Manifest → Exec fs.State LibraryError (b.Records × b.Blobs)
    build_stores root m = do
      record_builder ← found (b.record_builder m.record_storage)
      blob_builder ← found (b.blob_builder m.blob_storage)
      records ← record_builder (fs.join root "records")
      blobs ← blob_builder (fs.join root "cards")
      pure (records, blobs)

    abbrev pub load_from : Manifest → String → Exec fs.State LibraryError (b.Records × b.Blobs)
    load_from default root s =
        let path = fs.join root "manifest" in
        (manifest_or default path (fs.read_manifest path s) >>= build_stores root) s

    abbrev pub loaded :
        FsLibrary
        → Result LibraryError (b.Records × b.Blobs) × fs.State
        → Result LibraryError (b.Records × b.Blobs) × FsLibrary
    loaded l (r, s) = (r, record l { files = s })

    abbrev pub load_found :
        FsLibrary → Option String → Result LibraryError (b.Records × b.Blobs) × FsLibrary
    load_found l none = (err not_found, l)
    load_found l (some root) = loaded l (load_from l.storages root l.files)

    unfoldable pub load : String → FsLibrary → Result LibraryError (b.Records × b.Blobs) × FsLibrary
    load name l = load_found l (lookup name l.vaults)
