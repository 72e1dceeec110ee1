-- ===== src/Config/Precedence.antt =====
-- Where each setting of a loaded configuration comes from.
use podwatcher.Prelude.{
  ◌≡◌, ◌≢◌, refl, ap, ◌⊎◌, inl, inr, ℕ, zero, suc, String, false, Option, none, some, List, [], ◌∷◌,
  arith, ◌==◌, eq_iff, Bool-cases, ==false→ne, ℤ, pos, negsuc, leb, parse_int, All,
}
use podwatcher.Checked.{Checked, ok, err, required, ◌>>=◌}
use podwatcher.Config.{
  Config, LoadError, unreadable, unparsable, default_config, override_text, positive_or,
  override_count, override, read_config, load_config,
}

-- the settings that a variable sets to its text
abbrev pub text_settings : List (String × (Config → String))
text_settings =
    ("PODWATCHER_LOG_FILE", λ c. c.log.file)
    ∷ ("PODWATCHER_PODS_RESUME_FILE", λ c. c.pods.resume_file)
    ∷ ("PODWATCHER_STATE_FILE", λ c. c.pods.state_file)
    ∷ ("PODWATCHER_CHECKPOINT_URL", λ c. c.pods.checkpoint_url)
    ∷ ("PODWATCHER_CLUSTER_CM_NAME", λ c. c.cluster.config_map_name)
    ∷ ("PODWATCHER_CLUSTER_CM_NAMESPACE", λ c. c.cluster.config_map_namespace)
    ∷ ("PODWATCHER_CLUSTER_CM_KEY", λ c. c.cluster.config_map_key)
    ∷ []

-- the settings that a variable sets to its number
abbrev pub count_settings : List (String × (Config → ℤ))
count_settings =
    ("PODWATCHER_LOG_MAX_SIZE", λ c. c.log.max_size)
    ∷ ("PODWATCHER_LOG_MAX_NUM", λ c. c.log.max_num)
    ∷ ("PODWATCHER_APPLICATIONS_MAX", λ c. c.pods.max_applications)
    ∷ ("PODWATCHER_POD_RECORDS_MAX", λ c. c.pods.max_pod_records)
    ∷ ("PODWATCHER_CHECKPOINT_FLUSH_SECONDS", λ c. c.pods.checkpoint_flush_secs)
    ∷ []

-- what a setting is where its variable has the value `v` and it was `old` before
abbrev pub IsText : (v old new : String) → Type 0
IsText v old new = (v ≢ "") × (new ≡ v) ⊎ (v ≡ "") × (new ≡ old)

abbrev pub IsCount : (v : String) (old new : ℤ) → Type 0
IsCount v old new =
    ((n : ℕ) × (parse_int v ≡ some (pos (suc n))) × (new ≡ pos (suc n)))
    ⊎ (((n : ℕ) → parse_int v ≢ some (pos (suc n))) × (new ≡ old))

pub record IsResolved (getenv : String → String) (base cfg : Config) : Type 0 where
  pub texts :
      All (λ setting. IsText (getenv setting.0) (setting.1 base) (setting.1 cfg)) text_settings
  pub counts :
      All (λ setting. IsCount (getenv setting.0) (setting.1 base) (setting.1 cfg)) count_settings
  pub name_env : cfg.cluster.name_env ≡ base.cluster.name_env
  pub elasticsearch : cfg.elasticsearch ≡ base.elasticsearch
  pub prometheus : cfg.prometheus ≡ base.prometheus

override_text_lem : (v old : String) → IsText v old (override_text v old)
unfolding override_text
override_text_lem v old = elim (Bool-cases (v == "")) [
  | inl unset ↦ rw unset (inr (ground (arith, eq_iff v ""), refl))
  | inr set ↦ rw set (inl (==false→ne v "" set, refl))
]

positive_or_lem :
    (o : Option ℤ) (old : ℤ)
    → ((n : ℕ) × (o ≡ some (pos (suc n))) × (positive_or o old ≡ pos (suc n)))
      ⊎ (((n : ℕ) → o ≢ some (pos (suc n))) × (positive_or o old ≡ old))
positive_or_lem none old = inr (λ n h. cc, refl)
positive_or_lem (some (pos zero)) old = inr (λ n h. cc, refl)
positive_or_lem (some (pos (suc m))) old =
    let positive : leb (suc m) 0 ≡ false = ground arith in inl (m, refl, rw positive refl)
positive_or_lem (some (negsuc m)) old = inr (λ n h. cc, refl)

override_count_lem : (v : String) (old : ℤ) → IsCount v old (override_count v old)
unfolding override_count parse_int
override_count_lem v old = elim (Bool-cases (v == "")) [
  | inl unset ↦
      let e : v ≡ "" = ground (arith, eq_iff v "") in
      let nothing : parse_int v ≡ none = ap parse_int e in
      rw unset (inr (λ n h. cc (nothing, h), refl))
  | inr set ↦ rw set (positive_or_lem (parse_int v) old)
]

override-IsResolved :
    (getenv : String → String) (base : Config) → IsResolved getenv base (override getenv base)
unfolding override
override-IsResolved getenv base = record {
  texts = (
    override_text_lem _ _,
    (
      override_text_lem _ _,
      (
        override_text_lem _ _,
        (
          override_text_lem _ _,
          (override_text_lem _ _, (override_text_lem _ _, (override_text_lem _ _, tt))),
        ),
      ),
    ),
  );
  counts = (
    override_count_lem _ _,
    (
      override_count_lem _ _,
      (override_count_lem _ _, (override_count_lem _ _, (override_count_lem _ _, tt))),
    ),
  );
  name_env = refl;
  elasticsearch = refl;
  prometheus = refl;
}

module _ (getenv : String → String) (read_file : String → Option String)
    (unmarshal : String → Config → Option Config) (path : String) where
  -- the configuration before the variables: the defaults, or what the file makes of them
  abbrev pub IsBase : Config → Type 0
  IsBase base =
      (path ≡ "") × (base ≡ default_config)
      ⊎ (path ≢ "")
        × (text : String) × (read_file path ≡ some text)
        × (unmarshal text default_config ≡ some base)

  -- the file is asked for, and cannot be read or decoded
  abbrev pub IsBroken : LoadError → Type 0
  IsBroken unreadable = (path ≢ "") × (read_file path ≡ none)
  IsBroken unparsable =
      (path ≢ "")
      × (text : String) × (read_file path ≡ some text)
      × (unmarshal text default_config ≡ none)

  abbrev pub Describes : Checked LoadError Config → Type 0
  Describes (ok cfg) = (base : Config) × IsBase base × IsResolved getenv base cfg
  Describes (err e) = IsBroken e

  described :
      path ≢ ""
      → (contents : Option String) → read_file path ≡ contents
      → (decode : String → Option Config)
      → ((text : String) → unmarshal text default_config ≡ decode text)
      → Describes (
          (required unreadable contents >>= λ text. required unparsable (decode text)) >>= λ cfg.
          ok (override getenv cfg))
  described named none read decode decodes = (named, read)
  described named (some text) read decode decodes = decoded (decode text) (decodes text)
    where
      decoded :
          (o : Option Config)
          → unmarshal text default_config ≡ o
          → Describes (required unparsable o >>= λ cfg. ok (override getenv cfg))
      decoded none e = (named, text, read, e)
      decoded (some base) e = (base, inr (named, text, read, e), override-IsResolved getenv base)

  -- Every setting of a loaded configuration is that of its environment variable, where the variable is
  -- set to a text or to a positive number, and otherwise that of the file, decoded over the defaults,
  -- or of the defaults where there is no path; and loading fails only if the file cannot be read or
  -- decoded.
  pub load_config-Describes : Describes (load_config getenv read_file unmarshal path)
  unfolding load_config read_config
  load_config-Describes = elim (Bool-cases (path == "")) [
    | inl no_path ↦
        let e : path ≡ "" = ground (arith, eq_iff path "") in
        rw no_path (default_config, inl (e, refl), override-IsResolved getenv default_config)
    | inr named ↦ rw named (
        described (==false→ne path "" named) (read_file path) refl
          (λ text. unmarshal text default_config) (λ text. refl))
  ]
