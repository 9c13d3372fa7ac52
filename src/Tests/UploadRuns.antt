-- ===== src/Tests/UploadRuns.antt =====
-- A local card that is loaded and accepted.
use card_client.Prelude.{ℕ, some, str_eq, ◌≡◌, refl}
use card_client.Prelude.Int.{pos}
use card_client.Prelude.Outcome.{ok, err}
use card_client.Resource.Types.{Sheet}
use card_client.Catalog.Stores.{Cards}
use card_client.Facade.Upload.{
  Uploading, UploadResponse, nil_catalog, new_upload_service, load_local_card, accept_local_card,
  local_metadata, accept_panics,
}
use card_client.Tests.Samples.{blank_sheet}

abbrev sheets : Cards ℕ
sheets = record {
  Card = Sheet ℕ;
  sheet = λ c. c;
  set_sheet = λ c s. s;
  set_tags = λ c ts. record c { tags = ts };
}

abbrev uploading : Uploading ℕ sheets
uploading = record {
  read_card = λ path. some blank_sheet;
  thumbnail = λ size c. some "thumb";
  is_blank = λ s. str_eq s "";
  resolve_tag = λ s. record { slug = s; name = s };
  patch_metadata = λ m. m;
  patch_sheet = λ s m. s;
}

abbrev response : UploadResponse sheets uploading ℕ ℕ (λ m c t s. (ok 1, s))
response = record {
  signature = "sig";
  metadata =
      local_metadata sheets uploading ℕ ℕ (λ m c t s. (ok 1, s)) "sig" (pos 1) (pos 2) blank_sheet;
  sheet = blank_sheet;
}

accept_panics_example :
    (accept_local_card sheets uploading ℕ ℕ
      (λ m c t s. (ok 1, s))
      response
      (pos 3)
      (load_local_card sheets uploading ℕ ℕ
        (λ m c t s. (ok 1, s))
        "/a.png"
        (some "sig")
        (pos 1)
        (pos 2)
        (new_upload_service sheets uploading ℕ ℕ (λ m c t s. (ok 1, s)) 64)).1).0
    ≡ err nil_catalog
accept_panics_example =
    accept_panics sheets uploading ℕ ℕ (λ m c t s. (ok 1, s)) 64 "/a.png" "sig" (pos 1) (pos 2)
      (pos 3) blank_sheet "thumb" response refl refl refl
