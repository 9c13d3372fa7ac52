-- ===== src/Settings/Preferences.antt =====
-- preferences/vpref/vpref.go: preferences over viper, which is an interface here.
use card_client.Prelude.{String, List, [], ◌∷◌, ◌++◌, if◌then◌else◌, str_eq, ◌≡◌, refl, ◌∙◌, ap}
use card_client.Prelude.Outcome.{Result}

pub record Key (Value : Type 0) : Type 0 where
  pub id : String
  pub default_value : Value

-- viper, as far as the service uses it: a value that has been set is read before a value of the
-- configuration, and that before a default. `merge` adds values to the configuration.
pub record Viper (Value Error : Type 0) : Type 1 where
  pub State : Type 0
  pub get : String → State → Value
  pub set : String → Value → State → State
  pub set_default : String → Value → State → State
  pub write_config : State → Result Error (Unit {0})
  pub get-set :
      (k j : String) (v : Value) (s : State)
      → get j (set k v s) ≡ (if str_eq k j then v else get j s)

module _ {Value Error : Type 0} (vp : Viper Value Error) where
  pub record Preferences : Type 0 where
    pub keys : List (Key Value)
    pub viper : vp.State

  unfoldable pub set_defaults : List (Key Value) → vp.State → vp.State
  set_defaults [] s = s
  set_defaults (k ∷ ks) s = set_defaults ks (vp.set_default k.id k.default_value s)

  unfoldable pub register_key : Key Value → Preferences → Preferences
  register_key key p = record {
    keys = p.keys ++ (key ∷ []);
    viper = vp.set_default key.id key.default_value p.viper;
  }

  unfoldable pub register_keys : List (Key Value) → Preferences → Preferences
  unfolding set_defaults
  register_keys keys p = record {
    keys = p.keys ++ keys;
    viper = set_defaults (p.keys ++ keys) p.viper;
  }

  unfoldable pub get : Key Value → Preferences → Value
  get key p = vp.get key.id p.viper

  unfoldable pub set : Key Value → Value → Preferences → Preferences
  set key value p = record p { viper = vp.set key.id value p.viper }

  unfoldable pub set_each_default : List (Key Value) → vp.State → vp.State
  set_each_default [] s = s
  set_each_default (k ∷ ks) s = set_each_default ks (vp.set k.id k.default_value s)

  unfoldable pub restore_defaults : Preferences → Preferences
  unfolding set_each_default
  restore_defaults p = record p { viper = set_each_default p.keys p.viper }

  unfoldable pub save : Preferences → Result Error (Unit {0})
  save p = vp.write_config p.viper

  -- The default of the last key with an ID.
  abbrev pub default_of : List (Key Value) → String → Value → Value
  default_of [] id v = v
  default_of (k ∷ ks) id v = default_of ks id (if str_eq k.id id then k.default_value else v)

  get-set_each_default :
      (ks : List (Key Value)) (id : String) (s : vp.State)
      → vp.get id (set_each_default ks s) ≡ default_of ks id (vp.get id s)
  unfolding set_each_default
  get-set_each_default [] id s = refl
  get-set_each_default (k ∷ ks) id s =
      get-set_each_default ks id (vp.set k.id k.default_value s)
      ∙ ap (default_of ks id) (vp.get-set k.id id k.default_value s)

  -- After the defaults are restored, a key reads as the default of the last registered key with its
  -- ID, and as before if there is none, whatever was set.
  pub get-restore_defaults :
      (key : Key Value) (p : Preferences)
      → get key (restore_defaults p) ≡ default_of p.keys key.id (get key p)
  unfolding get restore_defaults
  get-restore_defaults key p = get-set_each_default p.keys key.id p.viper

  -- A key reads as what was set for its ID last, and setting another ID does not change it.
  pub get-set :
      (key other : Key Value) (value : Value) (p : Preferences)
      → get other (set key value p) ≡ (if str_eq key.id other.id then value else get other p)
  unfolding get set
  get-set key other value p = vp.get-set key.id other.id value p.viper
