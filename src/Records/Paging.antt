-- ===== src/Records/Paging.antt =====
-- store/record/erecord/store.go: `Count` and `FindPagedRIDs`. The order of the rows is SQLite's, by
-- the options that it is given; it permutes them.
use card_client.Prelude.{
  ℕ, zero, suc, ◌+◌, String, false, List, [], ◌∷◌, ◌++◌, Bool, Option, none, some, keep_if, map,
  length, length-map, drop, ◌≡◌, refl, arith, ap, ◌∙◌, sym,
}
use card_client.Prelude.Int.{ℤ, pos, negsuc}
use card_client.Prelude.Outcome.{ok, err}
use card_client.Resource.Filters.{Filter}
use card_client.Records.Tables.{nil_predicate, RecordRow, Tables}
use card_client.Records.Store.{Db, Action, statement}
use card_client.Records.Filters.{Predicate, OrderOption, apply_filter}
use card_client.Records.Selection.{Matching, satisfies_all}

abbrev pub first : {A : Type 0} → ℕ → List A → List A
first zero xs = []
first (suc n) [] = []
first (suc n) (x ∷ xs) = x ∷ first n xs

-- A limit below zero is none.
abbrev pub up_to : {A : Type 0} → ℤ → List A → List A
up_to (pos n) xs = first n xs
up_to (negsuc n) xs = xs

module _ (faults : ℕ → Bool) (how : Matching) (quote_meta : String → String)
    (sort : List OrderOption → List RecordRow → List RecordRow) where
  abbrev pub selected : List Predicate → Tables → List RecordRow
  selected ps t = keep_if (λ r. satisfies_all how quote_meta t r ps) t.records

  -- A nil predicate panics before the query.
  abbrev pub on_built :
      {A : Type 0}
      → (List Predicate → List OrderOption → Tables → A)
      → Option (List Predicate × List OrderOption)
      → Action A
  on_built f none db = (err nil_predicate, db)
  on_built f (some (ps, os)) db = statement faults (λ t. (ok (f ps os t), t)) db

  unfoldable pub count : Filter → Action ℕ
  count f = on_built (λ ps os t. length (selected ps t)) (apply_filter quote_meta f)

  unfoldable pub find_paged_rids : Filter → ℕ → ℤ → Action (List ℕ)
  find_paged_rids f offset limit =
      on_built (λ ps os t. up_to limit (drop offset (map (λ r. r.id) (sort os (selected ps t)))))
        (apply_filter quote_meta f)

first_nil : {A : Type 0} (n : ℕ) → ◌≡◌ {A = List A} (first n []) []
first_nil zero = refl
first_nil (suc n) = refl

drop_nil : {A : Type 0} (n : ℕ) → ◌≡◌ {A = List A} (drop n []) []
drop_nil zero = refl
drop_nil (suc n) = refl

first_append :
    {A : Type 0} (a b : ℕ) (xs : List A) → first (a + b) xs ≡ first a xs ++ first b (drop a xs)
first_append zero b xs = ap (λ n. first n xs) (omega arith)
first_append (suc a) b [] = first_nil (suc a + b) ∙ sym (first_nil b)
first_append (suc a) b (x ∷ xs) =
    let next : suc a + b ≡ suc (a + b) = omega arith in
    ap (λ n. first n (x ∷ xs)) next ∙ ap (◌∷◌ x) (first_append a b xs)

drop-drop : {A : Type 0} (k a : ℕ) (xs : List A) → drop a (drop k xs) ≡ drop (k + a) xs
drop-drop zero a xs = ap (λ n. drop n xs) (omega arith)
drop-drop (suc k) a [] = drop_nil a ∙ sym (drop_nil (suc k + a))
drop-drop (suc k) a (x ∷ xs) =
    let next : suc (k + a) ≡ suc k + a = omega arith in
    drop-drop k a xs ∙ ap (λ n. drop n (x ∷ xs)) next

first_all : {A : Type 0} (xs : List A) → first (length xs) xs ≡ xs
first_all [] = refl
first_all (x ∷ xs) = ap (◌∷◌ x) (first_all xs)

module _ (faults : ℕ → Bool) (sound : (n : ℕ) → faults n ≡ false) (how : Matching)
    (quote_meta : String → String) (sort : List OrderOption → List RecordRow → List RecordRow)
    (f : Filter) (ps : List Predicate) (os : List OrderOption)
    (built : apply_filter quote_meta f ≡ some (ps, os)) where
  abbrev all_rids : Tables → List ℕ
  all_rids t = map (λ r. r.id) (sort os (selected faults how quote_meta sort ps t))

  page :
      (offset : ℕ) (limit : ℤ) (db : Db)
      → find_paged_rids faults how quote_meta sort f offset limit db ≡ (
        ok (up_to limit (drop offset (all_rids db.tables))),
        record db { statements = suc db.statements },
      )
  unfolding find_paged_rids
  page offset limit db = simp (built, sound db.statements) refl

  -- On a database that refuses no statement, with a filter that becomes predicates, a page and the
  -- page that begins where it ends are together the page of both lengths.
  pub pages_join :
      (offset a b : ℕ) (db : Db)
      → (p q : List ℕ) × (db' : Db) × (find_paged_rids faults how quote_meta sort f offset
            (pos a)
            db
          ≡ (ok p, db'))
        × (find_paged_rids faults how quote_meta sort f (offset + a) (pos b) db ≡ (ok q, db'))
        × (find_paged_rids faults how quote_meta sort f offset (pos (a + b)) db
            ≡ (ok (p ++ q), db'))
  pages_join offset a b db =
      let rids = all_rids db.tables in
      let both =
        first_append a b (drop offset rids)
        ∙ ap (λ xs. first a (drop offset rids) ++ first b xs) (drop-drop offset a rids) in
      (
        first a (drop offset rids),
        first b (drop (offset + a) rids),
        record db { statements = suc db.statements },
        page offset (pos a) db,
        page (offset + a) (pos b) db,
        page offset (pos (a + b)) db
            ∙ ap (λ xs. (ok xs, record db { statements = suc db.statements })) both,
      )

  -- On a database that refuses no statement, with a filter that becomes predicates, where sorting
  -- keeps the number of rows, the first page of as many RIDs as `Count` says has that many.
  pub count-page :
      (db : Db)
      → ((rs : List RecordRow) → length (sort os rs) ≡ length rs)
      → (n : ℕ) × (rids : List ℕ) × (db' : Db) × (count faults how quote_meta sort f db
          ≡ (ok n, db'))
        × (find_paged_rids faults how quote_meta sort f 0 (pos n) db ≡ (ok rids, db'))
        × (length rids ≡ n)
  unfolding count
  count-page db keeps =
      let rows = selected faults how quote_meta sort ps db.tables in
      let size = length-map (λ r. r.id) (sort os rows) ∙ keeps rows in
      (
        length rows,
        all_rids db.tables,
        record db { statements = suc db.statements },
        simp (built, sound db.statements) refl,
        page 0 (pos (length rows)) db
            ∙ ap (λ xs. (ok xs, record db { statements = suc db.statements }))
                (rw (sym size) (first_all (all_rids db.tables))),
        size,
      )
