-- ===== src/Config.antt =====
-- internal/config/config.go: the configuration, its defaults and its environment variables. The
-- environment, the file system and the decoder of YAML are arguments.
pub mod Precedence
use podwatcher.Prelude.{
  String, Bool, false, Option, none, some, ◌==◌, ℤ, pos, geb, parse_int, if◌then◌else◌,
}
use podwatcher.Checked.{Checked, ok, required, ◌>>=◌}

pub record LogConfig : Type 0 where
  pub file : String
  pub max_size : ℤ
  pub max_num : ℤ

pub record PodsConfig : Type 0 where
  pub resume_file : String
  pub max_applications : ℤ
  pub state_file : String
  pub max_pod_records : ℤ
  pub checkpoint_url : String
  pub checkpoint_flush_secs : ℤ

pub record ClusterConfig : Type 0 where
  pub name_env : String
  pub config_map_name : String
  pub config_map_namespace : String
  pub config_map_key : String

pub record ElasticsearchConfig : Type 0 where
  pub is_debug : Bool
  pub timeout_seconds : ℤ
  pub insecure_skip_verify : Bool
  pub address : String
  pub username : String
  pub password_env : String
  pub index : String

pub record PrometheusConfig : Type 0 where
  pub timeout_seconds : ℤ
  pub insecure_skip_verify : Bool
  pub address : String
  pub token : String

pub record Config : Type 0 where
  pub log : LogConfig
  pub pods : PodsConfig
  pub cluster : ClusterConfig
  pub elasticsearch : ElasticsearchConfig
  pub prometheus : PrometheusConfig

unfoldable pub default_config : Config
default_config = record {
  log = record { file = "/var/log/podwatcher/podwatcher.log"; max_size = pos 100; max_num = pos 3 };
  pods = record {
    resume_file = "/var/log/podwatcher/pods-resume.json";
    state_file = "/var/log/podwatcher/state.json";
    max_applications = pos 5000;
    max_pod_records = pos 10000;
    checkpoint_url = "";
    checkpoint_flush_secs = pos 10;
  };
  cluster = record {
    name_env = "";
    config_map_name = "cluster-cm";
    config_map_namespace = "";
    config_map_key = "currentCluster";
  };
  elasticsearch = record {
    is_debug = false;
    timeout_seconds = pos 20;
    insecure_skip_verify = false;
    address = "";
    username = "";
    password_env = "ES_PASSWORD";
    index = "podwatcher-events";
  };
  prometheus = record {
    timeout_seconds = pos 20;
    insecure_skip_verify = false;
    address = "";
    token = "";
  };
}

-- `if v := os.Getenv(...); v != "" { setting = v }`
unfoldable pub override_text : String → String → String
override_text v setting = if v == "" then setting else v

abbrev pub positive_or : Option ℤ → ℤ → ℤ
positive_or none setting = setting
positive_or (some n) setting = if geb (pos 0) n then setting else n

-- `if v != "" { if n, err := strconv.Atoi(v); err == nil && n > 0 { setting = n } }`
unfoldable pub override_count : String → ℤ → ℤ
override_count v setting = if v == "" then setting else positive_or (parse_int v) setting

-- the environment variables over what is configured
unfoldable pub override : (String → String) → Config → Config
unfolding override_text override_count
override getenv cfg = record cfg {
  log = record {
    file = override_text (getenv "PODWATCHER_LOG_FILE") cfg.log.file;
    max_size = override_count (getenv "PODWATCHER_LOG_MAX_SIZE") cfg.log.max_size;
    max_num = override_count (getenv "PODWATCHER_LOG_MAX_NUM") cfg.log.max_num;
  };
  pods = record {
    resume_file = override_text (getenv "PODWATCHER_PODS_RESUME_FILE") cfg.pods.resume_file;
    max_applications =
        override_count (getenv "PODWATCHER_APPLICATIONS_MAX") cfg.pods.max_applications;
    state_file = override_text (getenv "PODWATCHER_STATE_FILE") cfg.pods.state_file;
    max_pod_records = override_count (getenv "PODWATCHER_POD_RECORDS_MAX") cfg.pods.max_pod_records;
    checkpoint_url = override_text (getenv "PODWATCHER_CHECKPOINT_URL") cfg.pods.checkpoint_url;
    checkpoint_flush_secs =
        override_count (getenv "PODWATCHER_CHECKPOINT_FLUSH_SECONDS")
          cfg.pods.checkpoint_flush_secs;
  };
  cluster = record cfg.cluster {
    config_map_name =
        override_text (getenv "PODWATCHER_CLUSTER_CM_NAME") cfg.cluster.config_map_name;
    config_map_namespace =
        override_text (getenv "PODWATCHER_CLUSTER_CM_NAMESPACE") cfg.cluster.config_map_namespace;
    config_map_key = override_text (getenv "PODWATCHER_CLUSTER_CM_KEY") cfg.cluster.config_map_key;
  };
}

pub data LoadError : Type 0 where
  unreadable unparsable : LoadError

-- `read_file` gives the text at a path; `unmarshal` decodes a text over a configuration.
unfoldable pub read_config :
    (String → Option String) → (String → Config → Option Config) → String → Checked LoadError Config
unfolding default_config
read_config read_file unmarshal path =
    if path == ""
    then ok default_config
    else required unreadable (read_file path) >>= λ text.
        required unparsable (unmarshal text default_config)

unfoldable pub load_config :
    (String → String)
    → (String → Option String)
    → (String → Config → Option Config)
    → String
    → Checked LoadError Config
unfolding read_config override
load_config getenv read_file unmarshal path =
    read_config read_file unmarshal path >>= λ cfg. ok (override getenv cfg)
