-- ===== src/Settings/Credentials.antt =====
-- credentials/keyringcred/keyringcred.go: a manager of the keyring for each label.
use card_client.Prelude.{
  String, List, [], ◌∷◌, ◌++◌, Option, none, some, if◌then◌else◌, str_eq, eq_iff, ◌≡◌, ◌≢◌, refl,
  arith, map, ap, Option-cases, inl, inr, sym, ◌∙◌,
}
use card_client.Prelude.Outcome.{Exec, Result, ok, err}

-- toolkit's `cred`: managers over a keyring, whose state is `Keyring`.
pub record Managers (Error : Type 0) : Type 1 where
  pub Manager : Type 0
  pub Keyring : Type 0
  pub Payload : Type 0
  pub Identity : Type 0
  pub new_manager : String → Manager
  pub set : Manager → Payload → Exec Keyring Error (Unit {0})
  pub get : Manager → Keyring → Result Error Identity
  pub get_user : Manager → Keyring → Result Error String
  pub no_identity : Identity

abbrev pub initial_labels : List String
initial_labels = "Pygmalion" ∷ []

module _ {V : Type 0} where
  unfoldable pub find_label : String → List (String × V) → Option V
  find_label label [] = none
  find_label label ((l, v) ∷ m) = if str_eq l label then some v else find_label label m

module _ {Error : Type 0} (ms : Managers Error) where
  pub record Credentials : Type 0 where
    pub labels : List String
    pub managers : List (String × ms.Manager)

  abbrev pub manager_entry : String → String × ms.Manager
  manager_entry label = (label, ms.new_manager label)

  abbrev pub new_credentials : Credentials
  new_credentials = record { labels = initial_labels; managers = map manager_entry initial_labels }

  unfoldable pub register_label : String → Credentials → Credentials
  unfolding find_label
  register_label label s = elim (find_label label s.managers) [
    | some m ↦ s
    | none ↦ record {
      labels = s.labels ++ (label ∷ []);
      managers = s.managers ++ (manager_entry label ∷ []);
    }
  ]

  abbrev pub set_by : Option ms.Manager → ms.Payload → ms.Keyring → ms.Keyring
  set_by none p ring = ring
  set_by (some m) p ring = (ms.set m p ring).1

  unfoldable pub set_identity : Credentials → String → ms.Payload → ms.Keyring → ms.Keyring
  unfolding find_label
  set_identity s label p ring = set_by (find_label label s.managers) p ring

  -- A Go map of payloads, in the order in which it is gone through.
  unfoldable pub set_identities : Credentials → List (String × ms.Payload) → ms.Keyring → ms.Keyring
  unfolding set_identity
  set_identities s [] ring = ring
  set_identities s ((label, p) ∷ ps) ring = set_identities s ps (set_identity s label p ring)

  abbrev pub known : {A : Type 0} → String → Result Error A → List (String × A) → List (String × A)
  known label (err e) rest = rest
  known label (ok a) rest = (label, a) ∷ rest

  unfoldable pub get_identities :
      List (String × ms.Manager) → ms.Keyring → List (String × ms.Identity)
  get_identities [] ring = []
  get_identities ((label, m) ∷ more) ring = known label (ms.get m ring) (get_identities more ring)

  unfoldable pub get_users : List (String × ms.Manager) → ms.Keyring → List (String × String)
  get_users [] ring = []
  get_users ((label, m) ∷ more) ring = known label (ms.get_user m ring) (get_users more ring)

  abbrev pub or_none : Result Error ms.Identity → ms.Identity
  or_none (ok i) = i
  or_none (err e) = ms.no_identity

  abbrev pub get_by : Option ms.Manager → ms.Keyring → ms.Identity
  get_by none ring = ms.no_identity
  get_by (some m) ring = or_none (ms.get m ring)

  unfoldable pub get_identity : Credentials → String → ms.Keyring → ms.Identity
  unfolding find_label
  get_identity s label ring = get_by (find_label label s.managers) ring

  unfoldable pub get_reader : Credentials → String → Option ms.Manager
  unfolding find_label
  get_reader s label = find_label label s.managers

  -- The labels are those of the managers.
  abbrev pub InStep : Credentials → Type 0
  InStep s = map (λ m. m.0) s.managers ≡ s.labels

  map_snoc :
      (ms' : List (String × ms.Manager)) (m : String × ms.Manager)
      → map (λ x. x.0) (ms' ++ (m ∷ [])) ≡ map (λ x. x.0) ms' ++ (m.0 ∷ [])
  map_snoc [] m = refl
  map_snoc (x ∷ xs) m = ap (λ r. x.0 ∷ r) (map_snoc xs m)

  find_label_snoc :
      (label other : String) (m : ms.Manager) (xs : List (String × ms.Manager))
      → find_label other xs ≡ none
      → find_label other (xs ++ ((label, m) ∷ [])) ≡ (if str_eq label other then some m else none)
  unfolding find_label
  find_label_snoc label other m [] h = refl
  find_label_snoc label other m ((l, v) ∷ xs) h =
      let rest = find_label_snoc label other m xs in ground arith

  find_label_kept :
      (label other : String) (m v : ms.Manager) (xs : List (String × ms.Manager))
      → find_label other xs ≡ some v
      → find_label other (xs ++ ((label, m) ∷ [])) ≡ some v
  unfolding find_label
  find_label_kept label other m v [] h = absurd (ground arith)
  find_label_kept label other m v ((l, w) ∷ xs) h =
      let rest = find_label_kept label other m v xs in ground arith

  abbrev pub manager_or_new : String → Option ms.Manager → ms.Manager
  manager_or_new label none = ms.new_manager label
  manager_or_new label (some m) = m

  find_label_other :
      (label other : String) (m : ms.Manager) (xs : List (String × ms.Manager))
      → label ≢ other
      → find_label other (xs ++ ((label, m) ∷ [])) ≡ find_label other xs
  find_label_other label other m xs differs = elim (Option-cases (find_label other xs)) [
    | inl e ↦ ground (arith, find_label_snoc label other m xs e, eq_iff label other)
    | inr (v, e) ↦ find_label_kept label other m v xs e ∙ sym e
  ]

  -- Where labels and managers are in step, registering a label keeps them so, gives the label a manager, the one it had
  -- if it was there, and leaves the manager of another label alone.
  pub register_label-finds :
      (label other : String) (s : Credentials)
      → InStep s
      → label ≢ other
      → InStep (register_label label s)
        × (find_label label (register_label label s).managers
            ≡ some (manager_or_new label (find_label label s.managers)))
        × (find_label other (register_label label s).managers ≡ find_label other s.managers)
  unfolding register_label
  register_label-finds label other s step differs =
      elim (Option-cases (find_label label s.managers)) [
        | inl e ↦
            rw (e, register_label)
              (
                map_snoc s.managers (manager_entry label) ∙ ap (λ ls. ls ++ (label ∷ [])) step,
                ground (
                  arith,
                  find_label_snoc label label (ms.new_manager label) s.managers e,
                  eq_iff label label,
                ),
                find_label_other label other (ms.new_manager label) s.managers differs,
              )
        | inr (m, e) ↦ rw (e, register_label) (step, e, refl)
      ]
