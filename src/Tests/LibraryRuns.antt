-- ===== src/Tests/LibraryRuns.antt =====
-- A library on files that are a set of paths, where removing a path removes what begins with it.
use card_client.Prelude.{
  String, List, [], ◌∷◌, Bool, true, false, none, some, if◌then◌else◌, ◌==◌, ==_refl, str_eq,
  eq_iff, ◌≡◌, refl, arith, Bool-cases, inl, inr, sym, ap, ◌∙◌, ◌||◌, ◌&&◌, not, some-injective,
}
use card_client.Prelude.Named.{lookup}
use card_client.Prelude.Outcome.{ok}
use card_client.Library.Vaults.{Files, Builders, FsLibrary, delete}
use card_client.Library.Laws.{
  Use, creates, deletes, loads, run_all, Inv, run_all-Inv, delete_empty_name,
}
use Prim.Native.Char.{code}
use Prim.Native.String.{◌++◌ as append}
use Prim.Native.String.append

abbrev begins : String → String → Bool
begins String.[] q = true
begins (String.◌∷◌ c p) String.[] = false
begins (String.◌∷◌ c p) (String.◌∷◌ d q) = if code c == code d then begins p q else false

begins-append : (p s : String) → begins p (append p s) ≡ true
begins-append String.[] s = refl
begins-append (String.◌∷◌ c p) s = rw append.cons (rw (==_refl (code c)) (begins-append p s))

begins_self : (p : String) → begins p p ≡ true
begins_self String.[] = refl
begins_self (String.◌∷◌ c p) = rw (==_refl (code c)) (begins_self p)

abbrev join : String → String → String
join p n = if str_eq n "" then p else append p (append "/" n)

begins-join : (p n : String) → begins p (join p n) ≡ true
begins-join p n = elim (Bool-cases (str_eq n "")) [
  | inl empty ↦ rw empty (begins_self p)
  | inr named ↦ rw named (begins-append p (append "/" n))
]

abbrev no_slash : String → Bool
no_slash String.[] = true
no_slash (String.◌∷◌ c s) = if code c == 47 then false else no_slash s

abbrev is_plain : String → Bool
is_plain n = no_slash n && (not (str_eq n "") && (not (str_eq n ".") && not (str_eq n "..")))

own : (p : String) (s : String → Bool) → (if str_eq p p then true else s p) ≡ true
own p s = rw ((eq_iff p p).1 refl) refl

kept : (p q : String) (s : String → Bool) → s q ≡ true → (if str_eq q p then true else s q) ≡ true
kept p q s h = elim (Bool-cases (str_eq q p)) [ inl e ↦ rw e refl | inr e ↦ rw e h ]

abbrev files : Files
files = record {
  State = String → Bool;
  join = join;
  make_all = λ p s. (ok tt, λ q. if str_eq q p then true else s q);
  remove_all = λ p s. (ok tt, λ q. if begins p q then false else s q);
  read_dir = λ p s. ok [];
  read_manifest = λ p s. none;
  write_manifest = λ m p s. (ok tt, s);
  exists = λ q s. s q;
  is_within = begins;
  make_all_makes = λ p s s' h. sym (ap (λ r. r.1 p) h) ∙ own p s;
  make_all_keeps = λ p q s h. kept p q s h;
  remove_all_removes = λ p q s s' h. sym (ap (λ r. r.1 q) h);
  is_plain = is_plain;
  within_join = λ p n rooted plain. begins-join p n;
}

abbrev builders : Builders files
builders = record {
  Records = String;
  Blobs = String;
  record_builder = λ n. some (λ p s. (ok p, s));
  blob_builder = λ n. none;
}

abbrev library : FsLibrary files
library = record {
  root = "/v";
  max_vaults = 2;
  storages = record { record_storage = "erecord"; blob_storage = "pblob" };
  vaults = ("a", "/v/a") ∷ [];
  files = λ q. str_eq q "/v" || str_eq q "/v/a";
}

library-Inv : Inv files builders 2 library
unfolding lookup
library-Inv = record {
  bounded = omega arith;
  allowed = omega arith;
  placed = λ name path h. placed name path h;
}
  where
    placed :
        (name path : String) → lookup name library.vaults ≡ some path → path ≡ files.join "/v" name
    placed name path h = elim (Bool-cases (str_eq "a" name)) [
      | inl same ↦
          let here : some "/v/a" ≡ some path = rw same at h in
          sym (some-injective here) ∙ ap (join "/v") ((eq_iff "a" name).0 same)
      | inr differs ↦ absurd (unsure (rw differs at h))
    ]
      where
        unsure : none ≡ some path → ⊥
        unsure e = cc

abbrev uses : List (Use files builders)
uses = creates "b" ∷ creates "c" ∷ deletes "a" ∷ creates "c" ∷ loads "b" ∷ []

run_all-Inv_example : Inv files builders 2 (run_all files builders uses library)
run_all-Inv_example = run_all-Inv files builders 2 uses library library-Inv

delete_empty_name_example :
    (files.exists "/v/a" (delete files "" library).1.files ≡ false)
    × (lookup "a" (delete files "" library).1.vaults ≡ lookup "a" library.vaults)
delete_empty_name_example =
    delete_empty_name files builders library "a"
      (λ q. if begins "/v" q then false else library.files q) refl refl refl refl
