-- ===== src/Tests/SettingsRuns.antt =====
-- Preferences over a viper that keeps what is set, and credentials over a small keyring.
use card_client.Prelude.{
  ℕ, String, List, [], ◌∷◌, some, ◌≡◌, refl, arith, if◌then◌else◌, str_eq, eq_iff,
}
use card_client.Prelude.Outcome.{ok}
use card_client.Settings.Preferences.{Key, Viper, Preferences, get, set, get-set}
use card_client.Settings.Credentials.{
  Managers, new_credentials, register_label, find_label, InStep, manager_or_new,
  register_label-finds,
}

abbrev viper : Viper ℕ ℕ
viper = record {
  State = String → ℕ;
  get = λ k s. s k;
  set = λ k v s j. if str_eq k j then v else s j;
  set_default = λ k v s. s;
  write_config = λ s. ok tt;
  get-set = λ k j v s. refl;
}

abbrev size_key : Key ℕ
size_key = record { id = "max_export_size"; default_value = 3072 }

abbrev changed : Preferences viper
changed = record { keys = size_key ∷ []; viper = λ k. 100 }

get-set_example :
    get viper size_key (set viper size_key 50 changed)
    ≡ (if str_eq "max_export_size" "max_export_size" then 50 else get viper size_key changed)
get-set_example = get-set viper size_key size_key 50 changed

abbrev managers : Managers ℕ
managers = record {
  Manager = String;
  Keyring = List String;
  Payload = String;
  Identity = String;
  new_manager = λ l. l;
  set = λ m p ring. (ok tt, p ∷ ring);
  get = λ m ring. ok m;
  get_user = λ m ring. ok m;
  no_identity = "";
}

register_label-finds_example :
    InStep managers (register_label managers "Other" (new_credentials managers))
    × (find_label "Other" (register_label managers "Other" (new_credentials managers)).managers
        ≡ some (
            manager_or_new managers "Other"
              (find_label "Other" (new_credentials managers).managers)))
    × (find_label "Pygmalion" (register_label managers "Other" (new_credentials managers)).managers
        ≡ find_label "Pygmalion" (new_credentials managers).managers)
register_label-finds_example =
    register_label-finds managers "Other" "Pygmalion" (new_credentials managers) refl
      (λ h. let e = (eq_iff "Other" "Pygmalion").1 h in absurd (ground arith))
