-- ===== src/Tests/Samples.antt =====
-- Concrete records, sheets and helpers of other packages, for the runs.
use card_client.Prelude.{ℕ, ◌/◌, [], ◌∷◌, true, false, not, str_eq}
use card_client.Prelude.Int.{ℤ, pos, negsuc}
use card_client.Resource.Repair.{stamped, settled}
use card_client.Resource.Types.{Record, Sheet, Toolkit, sync_success}

-- Seconds of nanoseconds that are not negative; names are in lower case here.
abbrev pub to_seconds : ℤ → ℤ
to_seconds (pos n) = pos (n / 1000000000)
to_seconds (negsuc n) = negsuc n

abbrev pub toolkit : Toolkit ℕ
toolkit = record {
  is_not_blank = λ s. not (str_eq s "");
  to_lower = λ s. s;
  anonymous_creator = "anonymous";
  to_seconds = to_seconds;
  sheet_integrity = λ s. true;
}

abbrev pub card_record : Record
card_record = record {
  id = 7;
  imported = record { import_time = pos 5; import_index = pos 0 };
  info = record {
    source = "pygmalion";
    normalized_url = "pygmalion/7";
    direct_url = "https://pygmalion/7";
    platform_id = "7";
    character_id = "ana/7";
    name = "Ana";
    title = "Ana of the sea";
    tagline = "";
    create_time = pos 1000000000;
    update_time = pos 2000000000;
    book_update_time = pos 0;
    greetings_count = 1;
    is_fork = false;
    tags = record { tid = "sea"; name = "Sea" } ∷ [];
  };
  creator = record {
    cid = "c1";
    nickname = "ana";
    username = "ana1";
    platform_id = "u1";
    source = "pygmalion";
  };
  sync = record { sync_time = pos 5; sync_status = sync_success };
  exported = record { export_time = pos 0; exported_version = pos 0 };
  aux = record { favorite = false };
}

-- A sheet that nothing has been synced to yet.
abbrev pub blank_sheet : Sheet ℕ
blank_sheet = record {
  source_id = "";
  character_id = "";
  platform_id = "";
  direct_link = "";
  title = "";
  name = "";
  creator = "";
  creation_date = pos 0;
  modification_date = pos 0;
  tags = [];
  alternate_greetings = "Hi" ∷ "Ho" ∷ [];
  has_book = true;
  creator_notes = "";
  rest = 3;
}

-- The pair that calls of `FixIntegrity` on these two end with.
abbrev pub in_step_record : Record
in_step_record = settled card_record (stamped toolkit card_record blank_sheet)

abbrev pub in_step_sheet : Sheet ℕ
in_step_sheet = stamped toolkit in_step_record (stamped toolkit card_record blank_sheet)
