-- ===== src/Blob/Codec.antt =====
-- What the blob stores take from card-parser, imagex and imgconv: how a card becomes bytes and
-- comes back. Each step can fail.
use card_client.Prelude.{ℕ, List, ◌≡◌}
use card_client.Prelude.Outcome.{Result, ok}

pub data BlobError : Type 0 where
  encode_failed decode_failed sql_failed no_rows : BlobError

abbrev pub Bytes : Type 0
Bytes = List ℕ

pub record Codec : Type 1 where
  -- `png.CharacterCard`, the card with its JSON, `png.RawCard`, `character.Sheet` and the images
  pub Card : Type 0
  pub RawJson : Type 0
  pub RawCard : Type 0
  pub CardSheet : Type 0
  pub Image : Type 0
  pub to_raw_json : Card → Result BlobError RawJson
  pub thumbnail : RawJson → ℕ → Result BlobError Image
  pub to_webp : Image → Result BlobError Bytes
  pub to_bytes : RawJson → Result BlobError Bytes
  pub from_bytes : Bytes → Result BlobError RawCard
  pub decode : RawCard → Result BlobError Card
  pub sheet : Card → CardSheet
  pub sheet_json : RawCard → Result BlobError Bytes
  pub decode_image : Bytes → Result BlobError Image

-- Every step of the encoding succeeds.
pub record Encodes (c : Codec) (card : c.Card) (size : ℕ) (thumb png : Bytes) : Type 0 where
  pub raw_json : c.RawJson
  pub image : c.Image
  pub parsed : c.to_raw_json card ≡ ok raw_json
  pub drawn : c.thumbnail raw_json size ≡ ok image
  pub packed : c.to_webp image ≡ ok thumb
  pub written : c.to_bytes raw_json ≡ ok png
