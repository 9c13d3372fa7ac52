-- ===== src/Catalog/Metadata.antt =====
-- store/resource/resource.go, `ToMetadata`: a record as card-fetcher's metadata. The structs are
-- card-fetcher's, with the fields that this program reads or writes.
use card_client.Prelude.{ℕ, String, List, Bool, map}
use card_client.Prelude.Int.{ℤ}
use card_client.Resource.Types.{Record, Tag}

pub record FetchedTag : Type 0 where
  pub slug : String
  pub name : String

pub record CreatorInfo : Type 0 where
  pub nickname : String
  pub username : String
  pub platform_id : String

pub record CardInfo : Type 0 where
  pub normalized_url : String
  pub direct_url : String
  pub platform_id : String
  pub character_id : String
  pub name : String
  pub title : String
  pub tagline : String
  pub create_time : ℤ
  pub update_time : ℤ
  pub is_forked : Bool
  pub tags : List FetchedTag

pub record Metadata : Type 0 where
  pub source : String
  pub card_info : CardInfo
  pub creator_info : CreatorInfo
  pub book_update_time : ℤ
  pub greetings_count : ℕ

abbrev pub fetched_tag : Tag → FetchedTag
fetched_tag t = record { slug = t.tid; name = t.name }

unfoldable pub to_metadata : Record → Metadata
to_metadata r = record {
  source = r.info.source;
  card_info = record {
    normalized_url = r.info.normalized_url;
    direct_url = r.info.direct_url;
    platform_id = r.info.platform_id;
    character_id = r.info.character_id;
    name = r.info.name;
    title = r.info.title;
    tagline = r.info.tagline;
    create_time = r.info.create_time;
    update_time = r.info.update_time;
    is_forked = r.info.is_fork;
    tags = map fetched_tag r.info.tags;
  };
  creator_info = record {
    nickname = r.creator.nickname;
    username = r.creator.username;
    platform_id = r.creator.platform_id;
  };
  book_update_time = r.info.book_update_time;
  greetings_count = r.info.greetings_count;
}
