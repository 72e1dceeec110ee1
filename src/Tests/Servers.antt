-- ===== src/Tests/Servers.antt =====
-- A start at a concrete input.
use podwatcher.Prelude.{
  ◌≡◌, refl, ◌*◌, pos, trim_left, trim_right, is_space, true, false, none, some, [], ◌∷◌, ◌==◌,
  if◌then◌else◌,
}
use podwatcher.Checked.{ok}
use podwatcher.Duration.{second, seconds}
use podwatcher.Dict.{get}
use podwatcher.Config.{default_config, load_config, override, override_text, override_count}
use podwatcher.Handler.{Publisher, new_handler}
use podwatcher.Prometheus.Setup.{new_client, trim_slashes, client_timeout}
use podwatcher.Store.Ingest.Clock.{IsClocked}
use podwatcher.Store.Persist.{snapshot_of}
use podwatcher.Server.{
  World, snapshot, Server, start, start_store, start_elastic, config_path, env_by_cluster,
  build_resume_store, in_file, load_cluster_identity, config_map_value,
}
use podwatcher.Server.Start.{start-IsReady}
use podwatcher.Tests.Samples.{started}

-- no configuration file, a ConfigMap with the cluster's name, and a state file
abbrev world : World
world = record {
  getenv = λ name. if name == "PROMETHEUS_ADDRESS_WEST" then "http://prometheus/" else "";
  read_file = λ path. none;
  unmarshal = λ text cfg. none;
  has_log_dir = true;
  has_cluster = true;
  config_map = λ namespace name. some (("currentCluster", " west ") ∷ []);
  to_upper = λ text. "WEST";
  state_file = λ path. snapshot (snapshot_of started);
  legacy = λ path. (none, none);
  decoders = record { applications = λ text. none; wrapped = λ text. some []; pods = λ text. none };
  elastic = record {
    parse_url = λ text. none;
    to_lower = λ text. text;
    lookup_env = λ name. none;
    takes_settings = true;
  };
}

abbrev server : Server
server = record {
  cluster = "west";
  elastic = none;
  handler = new_handler (start_store world default_config.pods "west") Publisher.no_publisher;
  resume = in_file "/var/log/podwatcher/pods-resume.json";
  flush_interval = pos (10 * second);
  gateway = record {
    timeout = pos (20 * second);
    base = "http://prometheus";
    token = "";
    insecure_skip_verify = false;
  };
}

started_up : start world "" ≡ ok server
unfolding start config_path load_config default_config override override_text override_count
    load_cluster_identity config_map_value get env_by_cluster build_resume_store start_elastic
    seconds new_client trim_slashes client_timeout trim_left trim_right is_space
started_up = refl

start-IsReady_example : IsClocked server.handler.state_store
start-IsReady_example = (start-IsReady world "" server started_up).2
