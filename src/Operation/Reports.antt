-- ===== src/Operation/Reports.antt =====
-- operation/opcache/opcache.go: what `ListReports` leaves in the registry, entry by entry.
use card_client.Prelude.{
  ℕ, List, [], ◌∷◌, true, false, none, if◌then◌else◌, ◌==◌, ◌≡◌, refl, arith, Bool-cases, inl, inr,
  All, contains, ap, ◌∙◌, ==_refl,
}
use card_client.Prelude.Assoc.{lookup, insert, erase, Unique, erase_absent}
use card_client.Operation.Types.{OperationEntry}
use card_client.Operation.Ordered.{OrderedMap}
use card_client.Operation.Registry.{
  Registry, visit, to_clean, visit_all, delete_all, list_reports, is_ongoing,
}

abbrev pub Entries : Type 0
Entries = List (ℕ × OperationEntry)

-- An entry stands under its own ID, and is disposable only if it has ended.
abbrev pub IsWellFormed : ℕ × OperationEntry → Type 0
IsWellFormed (k, e) =
    (e.details.id ≡ k) × (e.details.disposable ≡ true → is_ongoing e.details.status ≡ false)

module _ (om : OrderedMap OperationEntry) where
  -- What stays: the entries that were not disposable, in their order, as the loop leaves them.
  abbrev pub survivors : Entries → Entries
  survivors [] = []
  survivors ((k, e) ∷ es) =
      if e.details.disposable then survivors es else (k, visit om e) ∷ survivors es

  abbrev visited : Entries → Entries
  visited [] = []
  visited ((k, e) ∷ es) = (k, visit om e) ∷ visited es

  -- `visit_all` on lists.
  insert_all : Entries → Entries → Entries
  insert_all l [] = l
  insert_all l ((k, e) ∷ es) = insert_all (insert k (visit om e) l) es

  erase_all : Entries → List ℕ → Entries
  erase_all l [] = l
  erase_all l (k ∷ ks) = erase_all (erase k l) ks

  entries-visit_all :
      (m : om.Map) (es : Entries) → om.entries (visit_all om m es) ≡ insert_all (om.entries m) es
  unfolding visit_all insert_all
  entries-visit_all m [] = refl
  entries-visit_all m ((k, e) ∷ es) =
      entries-visit_all (om.set m k (visit om e)) es
      ∙ ap (λ l. insert_all l es) (om.entries-set m k (visit om e))

  entries-delete_all :
      (m : om.Map) (ks : List ℕ) → om.entries (delete_all om m ks) ≡ erase_all (om.entries m) ks
  unfolding delete_all erase_all
  entries-delete_all m [] = refl
  entries-delete_all m (k ∷ ks) =
      entries-delete_all (om.delete m k) ks ∙ ap (λ l. erase_all l ks) (om.entries-delete m k)

  insert_all-cons :
      (k : ℕ) (w : OperationEntry) (l es : Entries)
      → lookup k es ≡ none
      → insert_all ((k, w) ∷ l) es ≡ (k, w) ∷ insert_all l es
  unfolding insert_all insert lookup
  insert_all-cons k w l [] h = refl
  insert_all-cons k w l ((j, e) ∷ es) h = elim (Bool-cases (j == k)) [
    | inl same ↦ absurd (ground arith)
    | inr differs ↦
        let apart : (k == j) ≡ false = ground arith in
        rw apart (insert_all-cons k w (insert j (visit om e) l) es (rw differs at h))
  ]

  insert_all_self : (es : Entries) → Unique es → insert_all es es ≡ visited es
  unfolding insert_all insert
  insert_all_self [] u = refl
  insert_all_self ((k, e) ∷ es) u =
      rw (==_refl k) (
        insert_all-cons k (visit om e) es es u.0
        ∙ ap (◌∷◌ (k, visit om e)) (insert_all_self es u.1))

  erase_all-cons :
      (k : ℕ) (w : OperationEntry) (l : Entries) (ks : List ℕ)
      → contains k ks ≡ false
      → erase_all ((k, w) ∷ l) ks ≡ (k, w) ∷ erase_all l ks
  unfolding erase_all erase
  erase_all-cons k w l [] h = refl
  erase_all-cons k w l (j ∷ ks) h = elim (Bool-cases (j == k)) [
    | inl same ↦ absurd (ground arith)
    | inr differs ↦
        let apart : (k == j) ≡ false = ground arith in
        rw apart (erase_all-cons k w (erase j l) ks (rw differs at h))
  ]

  contains-to_clean :
      (k : ℕ) (es : Entries)
      → All IsWellFormed es
      → lookup k es ≡ none
      → contains k (to_clean om es) ≡ false
  unfolding to_clean lookup
  contains-to_clean k [] a h = refl
  contains-to_clean k ((j, e) ∷ es) a h = ground (arith, contains-to_clean k es a.1)

  lookup-visited : (k : ℕ) (es : Entries) → lookup k es ≡ none → lookup k (visited es) ≡ none
  unfolding lookup
  lookup-visited k [] h = refl
  lookup-visited k ((j, e) ∷ es) h = ground (arith, lookup-visited k es)

  erase_all-to_clean :
      (es : Entries)
      → All IsWellFormed es
      → Unique es
      → erase_all (visited es) (to_clean om es) ≡ survivors es
  unfolding erase_all to_clean erase
  erase_all-to_clean [] a u = refl
  erase_all-to_clean ((k, e) ∷ es) a u = elim (Bool-cases e.details.disposable) [
    | inl old ↦
        rw (old, a.0.0)
          (rw (==_refl k, erase_absent k (visited es) (lookup-visited k es u.0))
            (erase_all-to_clean es a.1 u.1))
    | inr kept ↦ simp kept (
        erase_all-cons k (visit om e) (visited es) (to_clean om es) (contains-to_clean k es a.1 u.0)
        ∙ ap (◌∷◌ (k, visit om e)) (erase_all-to_clean es a.1 u.1))
  ]

  pub entries-list_reports :
      (r : Registry om)
      → All IsWellFormed (om.entries r.operations)
      → om.entries (list_reports om r).1.operations ≡ survivors (om.entries r.operations)
  unfolding list_reports
  entries-list_reports r a =
      let es = om.entries r.operations in
      let u = om.entries-Unique r.operations in
      entries-delete_all _ (to_clean om es)
      ∙ ap (λ l. erase_all l (to_clean om es))
          (entries-visit_all r.operations es ∙ insert_all_self es u)
      ∙ erase_all-to_clean es a u
