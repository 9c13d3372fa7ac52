-- ===== src/Templates.antt =====
-- store/templater/templater.go: the tokens of an export template. The engine that replaces them is
-- the toolkit's.
use card_client.Prelude.{String, List, [], ◌∷◌}
use card_client.Prelude.Int.{ℤ}
use card_client.Resource.Types.{Record}

pub record Token : Type 0 where
  pub key : String
  pub extractor : Record → String
  pub description : String

-- `strconv.Itoa` of `timestamp.ConvertToSeconds`.
module _ (seconds : ℤ → String) where
  abbrev pub create_time : Token
  create_time = record {
    key = "{{CREATE_TIME}}";
    extractor = λ r. seconds r.info.create_time;
    description = "The creation timestamp in seconds";
  }

  abbrev pub create_date : Token
  create_date = record {
    key = "{{CREATE_DATE}}";
    extractor = λ r. seconds r.info.create_time;
    description = "The creation date in UTC format";
  }

  abbrev pub update_time : Token
  update_time = record {
    key = "{{UPDATE_TIME}}";
    extractor = λ r. seconds r.info.update_time;
    description = "The last update timestamp in seconds";
  }

  abbrev pub update_date : Token
  update_date = record {
    key = "{{UPDATE_DATE}}";
    extractor = λ r. seconds r.info.update_time;
    description = "The last update date in UTC format";
  }

  unfoldable pub tokens : List Token
  tokens =
      record {
        key = "{{SOURCE}}";
        extractor = λ r. r.info.source;
        description = "The source platform of the card";
      }
      ∷ record {
        key = "{{PLATFORM_ID}}";
        extractor = λ r. r.info.platform_id;
        description = "The unique platform identifier for the card";
      }
      ∷ record {
        key = "{{CHARACTER_ID}}";
        extractor = λ r. r.info.character_id;
        description = "The unique character identifier";
      }
      ∷ record {
        key = "{{NAME}}";
        extractor = λ r. r.info.name;
        description = "The name of the character";
      }
      ∷ record {
        key = "{{TITLE}}";
        extractor = λ r. r.info.title;
        description = "The title of the card";
      }
      ∷ create_time
      ∷ create_date
      ∷ update_time
      ∷ update_date
      ∷ record {
        key = "{{C_NICKNAME}}";
        extractor = λ r. r.creator.nickname;
        description = "The nickname of the card creator";
      }
      ∷ record {
        key = "{{C_USERNAME}}";
        extractor = λ r. r.creator.username;
        description = "The username of the card creator";
      }
      ∷ []
