-- ===== src/Operation/Ordered.antt =====
-- The interface of elliotchance/orderedmap that the registry uses, and a list that meets it.
use card_client.Prelude.{ℕ, List, [], Option, ◌≡◌, refl}
use card_client.Prelude.Assoc.{lookup, insert, erase, Unique, insert-Unique, erase-Unique}

-- `entries` is the order of `AllFromFront`. A set key keeps its place, or goes to the end.
pub record OrderedMap (V : Type 0) : Type 1 where
  pub Map : Type 0
  pub entries : Map → List (ℕ × V)
  pub empty : Map
  pub get : Map → ℕ → Option V
  pub set : Map → ℕ → V → Map
  pub delete : Map → ℕ → Map
  pub entries-empty : entries empty ≡ []
  pub entries-Unique : (m : Map) → Unique (entries m)
  pub get_lem : (m : Map) (k : ℕ) → get m k ≡ lookup k (entries m)
  pub entries-set : (m : Map) (k : ℕ) (v : V) → entries (set m k v) ≡ insert k v (entries m)
  pub entries-delete : (m : Map) (k : ℕ) → entries (delete m k) ≡ erase k (entries m)

-- A list without repeated keys.
abbrev pub listed_map : (V : Type 0) → OrderedMap V
listed_map V = record {
  Map = (m : List (ℕ × V)) × Unique m;
  entries = λ m. m.0;
  empty = ([], tt);
  get = λ m k. lookup k m.0;
  set = λ m k v. (insert k v m.0, insert-Unique k v m.0 m.1);
  delete = λ m k. (erase k m.0, erase-Unique k m.0 m.1);
  entries-empty = refl;
  entries-Unique = λ m. m.1;
  get_lem = λ m k. refl;
  entries-set = λ m k v. refl;
  entries-delete = λ m k. refl;
}
