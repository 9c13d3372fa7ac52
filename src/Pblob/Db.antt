-- ===== src/Pblob/Db.antt =====
-- store/blob/pblob/pebble.go: `txDB`, the operations of Pebble that the store uses, as an interface
-- whose laws are Pebble's documented behaviour; and a sorted list that meets it.
use card_client.Prelude.{
  List, [], ◌∷◌, Bool, true, false, not, ◌&&◌, ◌||◌, Option, none, some, if◌then◌else◌, keep_if,
  ◌≡◌, refl, All,
}
use card_client.Blob.Codec.{Bytes}
use card_client.Pblob.Bytes.{lex}

-- Sorted lists, over any order of keys.
module _ {K : Type 0} (lt : K → K → Bool) where
  unfoldable pub put_sorted : K → Bytes → List (K × Bytes) → List (K × Bytes)
  put_sorted k b [] = (k, b) ∷ []
  put_sorted k b ((j, c) ∷ m) =
      if lt k j
      then (k, b) ∷ (j, c) ∷ m
      else if lt j k
      then (j, c) ∷ put_sorted k b m
      else (k, b) ∷ m

  unfoldable pub find_sorted : K → List (K × Bytes) → Option Bytes
  find_sorted k [] = none
  find_sorted k ((j, c) ∷ m) =
      if lt k j then find_sorted k m else if lt j k then find_sorted k m else some c

  -- Not below the first key, and below the second.
  abbrev pub within : K → K → K × Bytes → Bool
  within lo hi (k, b) = not (lt k lo) && lt k hi

  abbrev pub not_below : K → K × Bytes → Bool
  not_below lo (k, b) = not (lt k lo)

  unfoldable pub remove_range : K → K → List (K × Bytes) → List (K × Bytes)
  remove_range lo hi = keep_if λ e. not (within lo hi e)

  -- The first key is the key.
  abbrev pub starts_at : K → List (K × Bytes) → Bool
  starts_at key [] = false
  starts_at key ((k, b) ∷ es) = if lt k key then false else if lt key k then false else true

  -- Strictly ascending.
  abbrev pub Ascending : List (K × Bytes) → Type 0
  Ascending [] = Unit {0}
  Ascending ((k, b) ∷ m) = All (λ e. lt k e.0 ≡ true) m × Ascending m

-- `entries` is what an iterator without bounds goes through. `SingleDelete` promises nothing for a
-- key that was set twice, and leaves other keys alone.
pub record Pebble : Type 1 where
  pub Db : Type 0
  pub entries : Db → List (Bytes × Bytes)
  pub get : Bytes → Db → Option Bytes
  pub set : Bytes → Bytes → Db → Db
  pub single_delete : Bytes → Db → Db
  pub delete_range : Bytes → Bytes → Db → Db
  pub get_lem : (k : Bytes) (d : Db) → get k d ≡ find_sorted lex k (entries d)
  pub entries-set : (k b : Bytes) (d : Db) → entries (set k b d) ≡ put_sorted lex k b (entries d)
  pub entries-delete_range :
      (lo hi : Bytes) (d : Db) → entries (delete_range lo hi d) ≡ remove_range lex lo hi (entries d)

abbrev pub sorted_pebble : Pebble
sorted_pebble = record {
  Db = List (Bytes × Bytes);
  entries = λ d. d;
  get = find_sorted lex;
  set = put_sorted lex;
  single_delete = λ k. keep_if (λ e. lex k e.0 || lex e.0 k);
  delete_range = remove_range lex;
  get_lem = λ k d. refl;
  entries-set = λ k b d. refl;
  entries-delete_range = λ lo hi d. refl;
}
