-- ===== src/Catalog/Integrity.antt =====
-- store/catalog/catalog.go: what the two integrity checks conclude.
use card_client.Prelude.{
  ℕ, List, [], ◌∷◌, Bool, true, false, not, ◌&&◌, ◌≡◌, refl, arith, sym, ◌==◌, length, contains,
}
use Prim.Native.Nat.{◌≤◌}
use card_client.Prelude.Outcome.{Result, ok, err}
use card_client.Resource.Types.{Toolkit}
use card_client.Catalog.Stores.{Cards, RecordStore, BlobStore}
use card_client.Catalog.Cards.{Catalog, distinct, compare_rids, basic_integrity}

-- No RID stands twice in the list.
unfoldable pub no_repeat : List ℕ → Bool
no_repeat [] = true
no_repeat (rid ∷ rids) = not (contains rid rids) && no_repeat rids

contains-distinct : (n : ℕ) (rids : List ℕ) → contains n (distinct rids) ≡ contains n rids
unfolding distinct
contains-distinct n [] = refl
contains-distinct n (rid ∷ rids) =
    let h = contains-distinct n rids in ground (arith, contains-distinct rid rids)

distinct-length_le : (rids : List ℕ) → length (distinct rids) ≤ length rids
unfolding distinct
distinct-length_le [] = ground arith
distinct-length_le (rid ∷ rids) = let h = distinct-length_le rids in ground arith

length-distinct : (rids : List ℕ) → (length (distinct rids) == length rids) ≡ no_repeat rids
unfolding distinct no_repeat
length-distinct [] = refl
length-distinct (rid ∷ rids) =
    let h = length-distinct rids in
    let l = distinct-length_le rids in ground (arith, contains-distinct rid rids)

compare_rids_lem :
    (records blobs : List ℕ)
    → (compare_rids records blobs).1 ≡ ((length records == length blobs) && no_repeat records)
unfolding compare_rids
compare_rids_lem records blobs = ground (arith, sym (length-distinct records))

-- Two lists of blob RIDs of one length get the same answer from `BasicIntegrity`, whichever RIDs
-- they hold.
pub compare_rids_blind :
    (records blobs others : List ℕ)
    → length blobs ≡ length others
    → compare_rids records blobs ≡ compare_rids records others
unfolding compare_rids
compare_rids_blind records blobs others same = rw same refl

module _ {Rest Error : Type 0} (k : Toolkit Rest) (cards : Cards Rest)
    (rs : RecordStore cards.Card Error) (bs : BlobStore cards.Card Error) where
  -- Whether a list was read.
  abbrev pub is_read : Result Error (List ℕ) → Bool
  is_read (ok rids) = true
  is_read (err e) = false

  abbrev pub rids_of : Result Error (List ℕ) → List ℕ
  rids_of (ok rids) = rids
  rids_of (err e) = []

  compared :
      (r : Result Error (List ℕ) × rs.State) (b : Result Error (List ℕ) × bs.State)
      (s : Catalog k cards rs bs)
      → rs.find_all_rids s.records ≡ r
      → bs.rids s.blobs ≡ b
      → (basic_integrity k cards rs bs s).0.1 ≡ (
          (is_read r.0 && is_read b.0)
          && ((length (rids_of r.0) == length (rids_of b.0)) && no_repeat (rids_of r.0)))
  unfolding basic_integrity
  compared (err e, t) b s hr hb = rw hr refl
  compared (ok records, t) (err e, u) s hr hb = rw (hr, hb) refl
  compared (ok records, t) (ok blobs, u) s hr hb = rw (hr, hb) (compare_rids_lem records blobs)

  -- `BasicIntegrity` answers yes exactly if both stores list their RIDs, there are as many blob RIDs
  -- as record RIDs, and no record RID stands twice.
  pub basic_integrity_lem :
      (s : Catalog k cards rs bs)
      → (basic_integrity k cards rs bs s).0.1 ≡ (
          (is_read (rs.find_all_rids s.records).0 && is_read (bs.rids s.blobs).0)
          && ((length (rids_of (rs.find_all_rids s.records).0)
                == length (rids_of (bs.rids s.blobs).0))
              && no_repeat (rids_of (rs.find_all_rids s.records).0)))
  basic_integrity_lem s = compared (rs.find_all_rids s.records) (bs.rids s.blobs) s refl refl
