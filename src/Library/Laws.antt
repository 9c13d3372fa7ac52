-- ===== src/Library/Laws.antt =====
-- library/fslibrary/fslibrary.go: what the methods keep, and what they do to the directories.
use card_client.Prelude.{
  ℕ, ◌≤◌, ◌<◌, String, List, [], ◌∷◌, true, false, Option, none, some, leb, length, str_eq, ◌≡◌,
  refl, arith, ap, sym, ◌∙◌, some-injective, Bool-cases, inl, inr, eq_iff,
}
use card_client.Prelude.Named.{lookup, lookup-insert, lookup-erase, length-insert, length-erase}
use card_client.Prelude.Outcome.{Result, ok, err}
use card_client.Library.Vaults.{
  LibraryError, Files, Builders, FsLibrary, create, delete, load, load_found, is_some, made,
  removed,
}

module _ (fs : Files) (b : Builders fs) where
  -- The methods that change the library or its files.
  pub data Use : Type 0 where
    creates deletes loads : String → Use

  abbrev pub run_use : Use → FsLibrary fs → FsLibrary fs
  run_use (creates name) l = (create fs name l).1
  run_use (deletes name) l = (delete fs name l).1
  run_use (loads name) l = (load fs b name l).1

  abbrev pub run_all : List Use → FsLibrary fs → FsLibrary fs
  run_all [] l = l
  run_all (u ∷ us) l = run_all us (run_use u l)

  -- Each vault's path joins the root and its name; and there are at most so many.
  pub record Inv (n : ℕ) (l : FsLibrary fs) : Type 0 where
    pub bounded : length l.vaults ≤ n
    pub allowed : l.max_vaults ≤ n
    pub placed :
        (name path : String) → lookup name l.vaults ≡ some path → path ≡ fs.join l.root name

  made-Inv :
      (n : ℕ) (name : String) (l : FsLibrary fs) (r : Result LibraryError (Unit {0}) × fs.State)
      → length l.vaults < n
      → Inv n l
      → Inv n (made fs name l r).1
  made-Inv n name l (err e, s) room inv = record {
    bounded = inv.bounded;
    allowed = inv.allowed;
    placed = inv.placed;
  }
  made-Inv n name l (ok u, s) room inv = record {
    bounded = omega (arith, length-insert name (fs.join l.root name) l.vaults);
    allowed = inv.allowed;
    placed = λ other path h.
        let h' = rw (lookup-insert name other (fs.join l.root name) l.vaults) at h in
        elim (Bool-cases (str_eq name other)) [
          | inl same ↦
              sym (some-injective (rw same at h'))
              ∙ ap (fs.join l.root) ((eq_iff name other).0 same)
          | inr differs ↦ inv.placed other path (rw differs at h')
        ];
  }

  create-Inv : (n : ℕ) (name : String) (l : FsLibrary fs) → Inv n l → Inv n (create fs name l).1
  unfolding create
  create-Inv n name l inv = elim (Bool-cases (leb l.max_vaults (length l.vaults))) [
    | inl full ↦ rw full inv
    | inr room ↦ elim (Bool-cases (is_some fs (lookup name l.vaults))) [
      | inl there ↦ rw (room, there) inv
      | inr free ↦
          let below : length l.vaults < n = ground (arith, inv.allowed) in
          rw (room, free) (made-Inv n name l (fs.make_all (fs.join l.root name) l.files) below inv)
    ]
  ]

  removed-Inv :
      (n : ℕ) (name : String) (l : FsLibrary fs) (r : Result LibraryError (Unit {0}) × fs.State)
      → Inv n l
      → Inv n (removed fs name l r).1
  removed-Inv n name l (err e, s) inv = record {
    bounded = inv.bounded;
    allowed = inv.allowed;
    placed = inv.placed;
  }
  removed-Inv n name l (ok u, s) inv = record {
    bounded = omega (arith, length-erase name l.vaults, inv.bounded);
    allowed = inv.allowed;
    placed = λ other path h.
        let h' = rw (lookup-erase name other l.vaults) at h in
        elim (Bool-cases (str_eq name other)) [
          | inl same ↦ absurd (unsure (rw same at h'))
          | inr differs ↦ inv.placed other path (rw differs at h')
        ];
  }
    where
      unsure : {path : String} → none ≡ some path → ⊥
      unsure e = cc

  load_found-Inv :
      (n : ℕ) (l : FsLibrary fs) (o : Option String) → Inv n l → Inv n (load_found fs b l o).1
  load_found-Inv n l none inv = inv
  load_found-Inv n l (some root) inv = record {
    bounded = inv.bounded;
    allowed = inv.allowed;
    placed = inv.placed;
  }

  run_use-Inv : (n : ℕ) (u : Use) (l : FsLibrary fs) → Inv n l → Inv n (run_use u l)
  unfolding delete load
  run_use-Inv n (creates name) l inv = create-Inv n name l inv
  run_use-Inv n (deletes name) l inv =
      removed-Inv n name l (fs.remove_all (fs.join l.root name) l.files) inv
  run_use-Inv n (loads name) l inv = load_found-Inv n l (lookup name l.vaults) inv

  -- A library that allows at most `n` vaults, has at most `n` and has each at the path that joins the
  -- root and its name stays so through any creations, deletions and loads, whatever the file system refuses.
  pub run_all-Inv : (n : ℕ) (us : List Use) (l : FsLibrary fs) → Inv n l → Inv n (run_all us l)
  run_all-Inv n [] l inv = inv
  run_all-Inv n (u ∷ us) l inv = run_all-Inv n us (run_use u l) (run_use-Inv n u l inv)

  -- Deleting the vault with the empty name, when the file system removes what it is told to, removes
  -- the root, if the root has a name: no vault whose name is one plain path element has a directory
  -- any more, and all vaults of another name than the empty one stay in the library.
  pub delete_empty_name :
      (l : FsLibrary fs) (name : String) (s : fs.State)
      → fs.remove_all (fs.join l.root "") l.files ≡ (ok tt, s)
      → str_eq l.root "" ≡ false
      → fs.is_plain name ≡ true
      → str_eq "" name ≡ false
      → (fs.exists (fs.join l.root name) (delete fs "" l).1.files ≡ false)
        × (lookup name (delete fs "" l).1.vaults ≡ lookup name l.vaults)
  unfolding delete
  delete_empty_name l name s h rooted plain other =
      let gone : fs.exists (fs.join l.root name) s ≡ false =
        fs.remove_all_removes (fs.join l.root "") (fs.join l.root name) l.files s h
        ∙ rw (fs.within_join l.root name rooted plain) refl in
      (rw h gone, rw h (lookup-erase "" name l.vaults ∙ rw other refl))
