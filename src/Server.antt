-- ===== src/Server.antt =====
-- cmd/server/main.go and pkg/k8s/configmap.go: how the parts are set up before the informer starts.
pub mod Start
pub mod Stores
pub mod Shutdown
pub mod Routes
use Prim.Native.String.{◌++◌}
use podwatcher.Prelude.{
  String, Bool, true, false, Option, none, some, List, not, ◌||◌, ◌==◌, ℤ, trim_space,
  if◌then◌else◌,
}
use podwatcher.Checked.{Checked, ok, err, refuse, required, ◌>>=◌, ◌>>◌}
use podwatcher.Duration.{Duration, seconds}
use podwatcher.Dict.{Dict, get}
use podwatcher.Config.{
  Config, ClusterConfig, PodsConfig, ElasticsearchConfig, LoadError, load_config,
}
use podwatcher.Store.{Store}
use podwatcher.Store.Ingest.Legacy.{Decoders, import_legacy_files}
use podwatcher.Store.Persist.{StateSnapshot, new_store}
use podwatcher.Handler.{Handler, Publisher, new_handler}
use podwatcher.Elastic
use podwatcher.Prometheus

-- What the state file's path has: no file, one that does not load, or one that does.
pub data StateFile : Type 0 where
  missing unreadable : StateFile
  snapshot : StateSnapshot → StateFile

-- What the start meets outside the program. `has_log_dir` and `has_cluster` say that the set-up of the
-- log and the client of Kubernetes succeed; `config_map` gives the data of a ConfigMap by namespace and
-- name; `legacy` gives what is read of the two files of the old layout beside a state file.
pub record World : Type 0 where
  pub getenv : String → String
  pub read_file : String → Option String
  pub unmarshal : String → Config → Option Config
  pub has_log_dir : Bool
  pub has_cluster : Bool
  pub config_map : String → String → Option (Dict String)
  pub to_upper : String → String
  pub state_file : String → StateFile
  pub legacy : String → Option String × Option String
  pub decoders : Decoders
  pub elastic : Elastic.Setup.Outside

unfoldable pub config_path : (String → String) → String → String
config_path getenv config_file =
    let path = getenv "PODWATCHER_CONFIG" in if path == "" then config_file else path

pub data ValueError : Type 0 where
  not_read missing_key blank : ValueError

unfoldable pub config_map_value :
    (String → String → Option (Dict String))
    → (namespace name key : String) → Checked ValueError String
unfolding get
config_map_value config_map namespace name key = do
  entries ← required not_read (config_map namespace name)
  raw ← required missing_key (get key entries)
  refuse (trim_space raw == "") blank
  ok (trim_space raw)

-- a failure leaves the records without a cluster
abbrev pub or_blank : Checked ValueError String → String
or_blank (ok value) = value
or_blank (err e) = ""

unfoldable pub load_cluster_identity : World → ClusterConfig → String
unfolding config_map_value
load_cluster_identity world cfg =
    let own = world.getenv "POD_NAMESPACE" in
    let namespace =
      if cfg.config_map_namespace == ""
      then if own == "" then "default" else own
      else cfg.config_map_namespace in
    let value =
      or_blank
        (config_map_value world.config_map namespace cfg.config_map_name cfg.config_map_key) in
    if cfg.name_env == "" then value else trim_space (world.getenv cfg.name_env)

unfoldable pub env_by_cluster : World → (base cluster fallback : String) → String
env_by_cluster world base cluster fallback =
    let general = if world.getenv base == "" then fallback else world.getenv base in
    let own = world.getenv (base ++ "_" ++ world.to_upper cluster) in
    if cluster == "" then general else if own == "" then general else own

-- The checkpoint that the informer gets: over HTTP under a key, a file, or none.
pub data ResumeChoice : Type 0 where
  over_http : (base_url key : String) → ResumeChoice
  in_file : String → ResumeChoice
  nowhere : ResumeChoice

unfoldable pub build_resume_store : PodsConfig → ResumeChoice
build_resume_store cfg =
    if not (cfg.checkpoint_url == "")
    then over_http cfg.checkpoint_url "podwatcher:resume:_all"
    else if not (cfg.resume_file == "")
    then in_file cfg.resume_file
    else nowhere

abbrev pub loaded_snapshot : StateFile → Option StateSnapshot
loaded_snapshot (snapshot s) = some s
loaded_snapshot _ = none

-- os.Stat fails with ErrNotExist; no file has the empty path
abbrev pub is_missing : String → StateFile → Bool
is_missing path missing = true
is_missing path _ = path == ""

-- The store, and the files of the old layout where there is no state file.
unfoldable pub start_store : World → PodsConfig → String → Store
unfolding new_store import_legacy_files
start_store world cfg cluster =
    let file = world.state_file cfg.state_file in
    let s =
      new_store (loaded_snapshot file) cfg.state_file cluster cfg.max_applications
        cfg.max_pod_records in
    let (app_file, pod_file) = world.legacy cfg.state_file in
    if is_missing cfg.state_file file
    then import_legacy_files world.decoders app_file pod_file s
    else s

pub data Fatal : Type 0 where
  bad_config : LoadError → Fatal
  no_log_dir no_kubernetes : Fatal
  bad_elasticsearch : Elastic.Setup.ConfigError → Fatal

-- klog.Fatalf with an error
abbrev pub or_fatal : {E A : Type 0} → (E → Fatal) → Checked E A → Checked Fatal A
or_fatal fatal (ok a) = ok a
or_fatal fatal (err e) = err (fatal e)

-- no client where there is no address
unfoldable pub start_elastic :
    World → ElasticsearchConfig → String → Checked Fatal (Option Elastic.Setup.Client)
unfolding Elastic.Setup.new_client
start_elastic world cfg cluster =
    if cfg.address == ""
    then ok none
    else or_fatal bad_elasticsearch (Elastic.Setup.new_client world.elastic cfg cluster)
      >>= λ client. ok (some client)

abbrev pub publisher_of : Option Elastic.Setup.Client → Publisher
publisher_of none = Publisher.no_publisher
publisher_of (some client) = Publisher.applications_too

-- What the informer is started with, and the client of the gateway.
pub record Server : Type 0 where
  pub cluster : String
  pub elastic : Option Elastic.Setup.Client
  pub handler : Handler
  pub resume : ResumeChoice
  pub flush_interval : Duration
  pub gateway : Prometheus.Setup.Client

-- `main` up to the start of the informer, with the client that the gateway gets after it
unfoldable pub start : World → (config_file : String) → Checked Fatal Server
unfolding config_path load_config load_cluster_identity env_by_cluster build_resume_store
    start_store start_elastic new_handler seconds Prometheus.Setup.new_client
start world config_file = do
  cfg ← or_fatal bad_config (
      load_config world.getenv world.read_file world.unmarshal
        (config_path world.getenv config_file))
  refuse (not world.has_log_dir) no_log_dir
  refuse (not world.has_cluster) no_kubernetes
  let cluster = load_cluster_identity world cfg.cluster
  let s = start_store world cfg.pods cluster
  let gateway = Prometheus.Setup.new_client (record cfg.prometheus {
    address = env_by_cluster world "PROMETHEUS_ADDRESS" cluster cfg.prometheus.address;
    token = env_by_cluster world "PROMETHEUS_TOKEN" cluster cfg.prometheus.token;
  })
  elastic ← start_elastic world cfg.elasticsearch cluster
  ok (record {
    cluster = cluster;
    elastic = elastic;
    handler = new_handler s (publisher_of elastic);
    resume = build_resume_store cfg.pods;
    flush_interval = seconds cfg.pods.checkpoint_flush_secs;
    gateway = gateway;
  })
