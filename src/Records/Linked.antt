-- ===== src/Records/Linked.antt =====
-- store/record/erecord/store.go: the tags of a record once `ClearTags` and `AddTagIDs` have run.
use card_client.Prelude.{
  ℕ, String, List, [], ◌∷◌, ◌++◌, Bool, true, false, not, ◌&&◌, ◌||◌, if◌then◌else◌, ◌==◌, str_eq,
  eq_iff, keep_if, map, ◌≡◌, refl, arith, Bool-cases, inl, inr, ==_refl, sym, ◌∙◌,
}
use card_client.Resource.Types.{Tag}
use card_client.Records.Tables.{Tables, has_tag, all_tags_exist, distinct_ids}
use card_client.Records.Rows.{one_of, tagged, tags_of, insert_tag, by_tid}

module _ (before : String → String → Bool) (s : String) where
  has_tag-insert_tag :
      (t : Tag) (us : List Tag)
      → has_tag s (insert_tag before t us) ≡ (if str_eq t.tid s then true else has_tag s us)
  has_tag-insert_tag t [] = refl
  has_tag-insert_tag t (u ∷ us) = ground (arith, has_tag-insert_tag t us)

  pub has_tag-by_tid : (ts : List Tag) → has_tag s (by_tid before ts) ≡ has_tag s ts
  has_tag-by_tid [] = refl
  has_tag-by_tid (t ∷ ts) = has_tag-insert_tag t (by_tid before ts) ∙ rw (has_tag-by_tid ts) refl

module _ (s : String) where
  has_tag-keep :
      (p : String → Bool) (ts : List Tag)
      → has_tag s (keep_if (λ g. p g.tid) ts) ≡ (has_tag s ts && p s)
  has_tag-keep p [] = refl
  has_tag-keep p (t ∷ ts) = elim (Bool-cases (str_eq t.tid s)) [
    | inl here ↦
        let same : t.tid ≡ s = (eq_iff t.tid s).0 here in
        elim (Bool-cases (p t.tid)) [
          | inl kept ↦ rw (kept, here) (sym (rw same at kept))
          | inr gone ↦ rw (gone, here) (has_tag-keep p ts ∙ rw (rw same at gone) (ground arith))
        ]
    | inr other ↦ elim (Bool-cases (p t.tid)) [
      | inl kept ↦ rw (kept, other) (has_tag-keep p ts)
      | inr gone ↦ rw (gone, other) (has_tag-keep p ts)
    ]
  ]

  one_of-keep :
      (x : String) (xs : List String)
      → str_eq x s ≡ false
      → one_of s (keep_if (λ y. not (str_eq x y)) xs) ≡ one_of s xs
  one_of-keep x [] unlike = refl
  one_of-keep x (y ∷ ys) unlike = elim (Bool-cases (str_eq x y)) [
    | inl same ↦
        let other : str_eq y s ≡ false = rw ((eq_iff x y).0 same) at unlike in
        rw (same, other) (one_of-keep x ys unlike)
    | inr differs ↦ rw (differs, one_of-keep x ys unlike) refl
  ]

  one_of-distinct : (xs : List String) → one_of s (distinct_ids xs) ≡ one_of s xs
  one_of-distinct [] = refl
  one_of-distinct (x ∷ xs) = elim (Bool-cases (str_eq x s)) [
    | inl here ↦ rw here refl
    | inr other ↦ rw (other, one_of-keep x (distinct_ids xs) other) (one_of-distinct xs)
  ]

  tagged-append :
      (rid : ℕ) (es fs : List (ℕ × String))
      → tagged rid s (es ++ fs) ≡ (tagged rid s es || tagged rid s fs)
  tagged-append rid [] fs = refl
  tagged-append rid ((r, x) ∷ es) fs = ground (arith, tagged-append rid es fs)

  tagged-cleared :
      (rid : ℕ) (es : List (ℕ × String)) → tagged rid s (keep_if (λ e. not (e.0 == rid)) es) ≡ false
  tagged-cleared rid [] = refl
  tagged-cleared rid ((r, x) ∷ es) = ground (arith, tagged-cleared rid es)

  tagged-added : (rid : ℕ) (xs : List String) → tagged rid s (map (λ x. (rid, x)) xs) ≡ one_of s xs
  tagged-added rid [] = refl
  tagged-added rid (x ∷ xs) = rw (==_refl rid, tagged-added rid xs) refl

  linked_exist :
      (slugs : List String) (ts : List Tag)
      → all_tags_exist slugs ts ≡ true
      → (has_tag s ts && one_of s slugs) ≡ one_of s slugs
  linked_exist [] ts there = ground arith
  linked_exist (x ∷ xs) ts there = elim (Bool-cases (str_eq x s)) [
    | inl here ↦
        let found : has_tag s ts ≡ true =
          rw ((eq_iff x s).0 here) at (first (has_tag x ts) (all_tags_exist xs ts) there) in
        rw (here, found) refl
    | inr other ↦ rw other (linked_exist xs ts (second (has_tag x ts) (all_tags_exist xs ts) there))
  ]
    where
      first : (a b : Bool) → (a && b) ≡ true → a ≡ true
      first a b h = ground arith

      second : (a b : Bool) → (a && b) ≡ true → b ≡ true
      second a b h = ground arith

  -- The tags that a record has after its links were replaced are those that were linked.
  pub has_tag-linked :
      (before : String → String → Bool) (rid : ℕ) (slugs : List String) (t : Tables)
      (links : List (ℕ × String))
      → t.record_tags
        ≡ keep_if (λ e. not (e.0 == rid)) links ++ map (λ x. (rid, x)) (distinct_ids slugs)
      → all_tags_exist slugs t.tags ≡ true
      → has_tag s (by_tid before (tags_of rid t)) ≡ one_of s slugs
  unfolding tags_of
  has_tag-linked before rid slugs t links linked there =
      has_tag-by_tid before s (tags_of rid t)
      ∙ has_tag-keep (λ tid. tagged rid tid t.record_tags) t.tags
      ∙ rw
          (
            linked,
            tagged-append rid (keep_if (λ e. not (e.0 == rid)) links)
                (map (λ x. (rid, x)) (distinct_ids slugs)),
            tagged-cleared rid links,
            tagged-added rid (distinct_ids slugs),
            one_of-distinct slugs,
          )
          (linked_exist slugs t.tags there)
