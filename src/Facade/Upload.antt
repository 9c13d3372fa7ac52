-- ===== src/Facade/Upload.antt =====
-- facade/upload.go: local cards that wait to be accepted.
use card_client.Prelude.{
  ℕ, String, List, [], Bool, false, Option, none, some, if◌then◌else◌, map, length, eq_iff, ◌≡◌,
  refl, sym, ◌∙◌,
}
use card_client.Prelude.Int.{ℤ, pos}
use card_client.Prelude.Named.{lookup, insert, erase, lookup-insert}
use card_client.Prelude.Outcome.{Result, ok, err}
use card_client.Resource.Types.{Sheet}
use card_client.Catalog.Metadata.{Metadata, FetchedTag}
use card_client.Catalog.Stores.{Cards}

-- `nil_catalog` is the panic of a call on a nil interface.
pub data UploadError (E : Type 0) : Type 0 where
  card_failed already_gone nil_catalog : UploadError E
  save_failed : E → UploadError E

-- What the service calls of card-parser, card-fetcher and the toolkit.
pub record Uploading (Rest : Type 0) (cards : Cards Rest) : Type 0 where
  pub read_card : String → Option cards.Card
  pub thumbnail : ℕ → cards.Card → Option String
  pub is_blank : String → Bool
  pub resolve_tag : String → FetchedTag
  pub patch_metadata : Metadata → Metadata
  pub patch_sheet : Sheet Rest → Metadata → Sheet Rest

module _ {Rest : Type 0} (cards : Cards Rest) (k : Uploading Rest cards) (Catalog Error : Type 0)
    (save_card : Metadata → cards.Card → ℤ → Catalog → Result Error ℕ × Catalog) where
  -- A nil catalog is `none`.
  pub record UploadService : Type 0 where
    pub thumbnail_size : ℕ
    pub catalog : Option Catalog
    pub storage : List (String × cards.Card)

  pub record UploadResponse : Type 0 where
    pub signature : String
    pub metadata : Metadata
    pub sheet : Sheet Rest

  pub record UploadRequest : Type 0 where
    pub response : UploadResponse
    pub thumbnail_base64 : String

  unfoldable pub new_upload_service : ℕ → UploadService
  new_upload_service size = record { thumbnail_size = size; catalog = none; storage = [] }

  abbrev pub title_of : Sheet Rest → String
  title_of s = if k.is_blank s.title then s.name else s.title

  unfoldable pub local_metadata : String → ℤ → ℤ → Sheet Rest → Metadata
  local_metadata signature created updated s = record {
    source = "Local";
    card_info = record {
      normalized_url = signature;
      direct_url = "";
      platform_id = signature;
      character_id = signature;
      name = s.name;
      title = title_of s;
      tagline = "";
      create_time = created;
      update_time = updated;
      is_forked = false;
      tags = map k.resolve_tag s.tags;
    };
    creator_info = record { nickname = s.creator; username = s.creator; platform_id = signature };
    book_update_time = pos 0;
    greetings_count = length s.alternate_greetings;
  }

  -- After the card is stored: a thumbnail that fails leaves it so. The card in the storage is the one
  -- whose tags are then cleared.
  abbrev pub requested :
      String
      → ℤ
      → ℤ
      → cards.Card
      → UploadService
      → Option String
      → Result (UploadError Error) UploadRequest × UploadService
  requested signature created updated card u none =
      (err card_failed, record u { storage = insert signature card u.storage })
  requested signature created updated card u (some t) =
      let cleared = cards.set_tags card [] in
      (
        ok (record {
          response = record {
            signature = signature;
            metadata = local_metadata signature created updated (cards.sheet card);
            sheet = cards.sheet cleared;
          };
          thumbnail_base64 = t;
        }),
        record u { storage = insert signature cleared u.storage },
      )

  -- `signature` is what `uuid.NewUUID` gives, if it gives one.
  abbrev pub signed :
      ℤ
      → ℤ
      → Option String
      → UploadService
      → Option cards.Card
      → Result (UploadError Error) UploadRequest × UploadService
  signed created updated signature u none = (err card_failed, u)
  signed created updated none u (some card) = (err card_failed, u)
  signed created updated (some signature) u (some card) =
      requested signature created updated card u (k.thumbnail u.thumbnail_size card)

  unfoldable pub load_local_card :
      String
      → Option String
      → ℤ
      → ℤ
      → UploadService
      → Result (UploadError Error) UploadRequest × UploadService
  unfolding local_metadata
  load_local_card path signature created updated u =
      signed created updated signature u (k.read_card path)

  unfoldable pub unload_local_card : String → UploadService → UploadService
  unload_local_card signature u = record u { storage = erase signature u.storage }

  abbrev pub saved :
      String
      → UploadService
      → Result Error ℕ × Catalog
      → Result (UploadError Error) (Unit {0}) × UploadService
  saved signature u (err e, c) = (err (save_failed e), record u { catalog = some c })
  saved signature u (ok rid, c) =
      (ok tt, record u { catalog = some c; storage = erase signature u.storage })

  abbrev pub on_catalog :
      String
      → Metadata
      → cards.Card
      → ℤ
      → UploadService
      → Option Catalog
      → Result (UploadError Error) (Unit {0}) × UploadService
  on_catalog signature m card now u none = (err nil_catalog, u)
  on_catalog signature m card now u (some c) = saved signature u (save_card m card now c)

  -- The card in the storage takes the sheet of the response, without tags and patched.
  abbrev pub accepted :
      UploadResponse
      → ℤ
      → UploadService
      → Option cards.Card
      → Result (UploadError Error) (Unit {0}) × UploadService
  accepted r now u none = (err already_gone, u)
  accepted r now u (some card) =
      let m = k.patch_metadata r.metadata in
      let sheet = k.patch_sheet (record r.sheet { tags = [] }) m in
      let card' = cards.set_sheet card sheet in
      on_catalog r.signature m card' now (record u { storage = insert r.signature card' u.storage })
        u.catalog

  unfoldable pub accept_local_card :
      UploadResponse → ℤ → UploadService → Result (UploadError Error) (Unit {0}) × UploadService
  accept_local_card r now u = accepted r now u (lookup r.signature u.storage)

  -- A service as it is made, which has no catalog, panics when a card that was loaded is accepted:
  -- whatever the path, the signature, the thumbnail and what the user answers under that signature.
  pub accept_panics :
      (size : ℕ) (path signature : String) (created updated now : ℤ) (card : cards.Card)
      (thumb : String) (r : UploadResponse)
      → k.read_card path ≡ some card
      → k.thumbnail size card ≡ some thumb
      → r.signature ≡ signature
      → (accept_local_card r now
          (load_local_card path (some signature) created updated (new_upload_service size)).1).0
        ≡ err nil_catalog
  unfolding load_local_card accept_local_card new_upload_service
  accept_panics size path signature created updated now card thumb r read drawn same =
      let cleared = cards.set_tags card [] in
      let there : lookup r.signature (insert signature cleared []) ≡ some cleared =
        lookup-insert signature r.signature cleared []
        ∙ rw ((eq_iff signature r.signature).1 (sym same)) refl in
      simp (read, drawn, there) refl
