-- ===== src/Server/Start.antt =====
-- What is ready when the informer starts.
use podwatcher.Prelude.{
  ◌⊎◌, ◌≡◌, ◌≢◌, refl, ap, ℕ, zero, suc, ◌*◌, ◌≤◌, ◌<◌, arith, String, false, Option, none, some,
  [], not, ◌==◌, eq_iff, ==false→ne, leb, if◌then◌else◌, Bool-cases, inl, inr, ℤ, pos, negsuc, geb,
  or_else,
}
use podwatcher.Checked.{Checked, ok, err, ◌>>=◌, refuse_then, bind_then, ok_same}
use podwatcher.Duration.{Duration, second, seconds, seconds_exact}
use podwatcher.Config.{Config, ElasticsearchConfig, load_config}
use podwatcher.Store.Ingest.Clock.{IsClocked}
use podwatcher.Handler.{new_handler}
use podwatcher.Elastic.Setup.{
  ConfigError, bad_address, bad_index, bad_authentication, bad_timeout, no_sdk, Client,
  is_bad_address, is_bad_index, is_unauthenticated, is_bad_timeout, or_default, new_client,
}
use podwatcher.Prometheus.Setup.{client_timeout}
use podwatcher.Prometheus
use podwatcher.Server.Stores.{start_store-IsClocked}
use podwatcher.Server.{
  World, Fatal, or_fatal, bad_elasticsearch, start_elastic, publisher_of, Server, start,
  config_path, bad_config, no_log_dir, no_kubernetes, load_cluster_identity,
}

-- a positive number of whole seconds, none of which is lost in a duration
abbrev pub IsWhole : Duration → Type 0
IsWhole timeout = (n : ℕ) × (0 < n) × (n ≤ 9223372036) × (timeout ≡ pos (n * second))

seconds-IsWhole : (n : ℕ) → 0 < n → n ≤ 9223372036 → IsWhole (seconds (pos n))
seconds-IsWhole n positive fits = (n, positive, fits, seconds_exact n fits)

checked_timeout :
    (timeout_seconds : ℤ)
    → is_bad_timeout timeout_seconds ≡ false
    → IsWhole (seconds (or_default timeout_seconds))
checked_timeout (pos zero) h = seconds-IsWhole 20 (omega arith) (omega arith)
checked_timeout (pos (suc n)) h =
    let same : or_default (pos (suc n)) ≡ pos (suc n) = ground arith in
    rw same (seconds-IsWhole (suc n) (omega arith) (ground arith))
checked_timeout (negsuc n) h = absurd (cc)

client_timeout-positive :
    (timeout_seconds : ℤ) → (n : ℕ) × (client_timeout timeout_seconds ≡ pos (suc n))
unfolding client_timeout
client_timeout-positive timeout_seconds = positive (seconds timeout_seconds)
  where
    positive :
        (timeout : Duration)
        → (n : ℕ) × ((if geb (pos 0) timeout then pos (20 * second) else timeout) ≡ pos (suc n))
    positive (pos zero) = (19999999999, refl)
    positive (pos (suc n)) = let later : leb (suc n) 0 ≡ false = ground arith in rw later (n, refl)
    positive (negsuc n) = (19999999999, refl)

-- the Elasticsearch client of a server
abbrev pub IsSetUp : ElasticsearchConfig → String → Option Client → Type 0
IsSetUp cfg cluster none = cfg.address ≡ ""
IsSetUp cfg cluster (some client) =
    (cfg.address ≢ "")
    × (client.cluster ≡ cluster)
    × IsWhole client.timeout
    × ((cfg.username ≡ "") ⊎ (client.password ≢ ""))

authenticated_lem :
    (username password_env password : String)
    → is_unauthenticated username password_env password ≡ false
    → (username ≡ "") ⊎ (password ≢ "")
authenticated_lem username password_env password h = elim (Bool-cases (username == "")) [
  | inl nobody ↦ inl (ground (arith, eq_iff username ""))
  | inr user ↦ inr (λ empty. ground (arith, eq_iff password ""))
]

new_client-IsSetUp :
    (world : World) (cfg : ElasticsearchConfig) (cluster : String) (client : Client)
    → cfg.address ≢ ""
    → new_client world.elastic cfg cluster ≡ ok client
    → IsSetUp cfg cluster (some client)
unfolding new_client
new_client-IsSetUp world cfg cluster client addressed h =
    let password = or_else (world.elastic.lookup_env cfg.password_env) "" in
    let (address, h1) =
      refuse_then (is_bad_address (world.elastic.parse_url cfg.address)) bad_address _ client h in
    let (index, h2) =
      refuse_then (is_bad_index world.elastic.to_lower cfg.index) bad_index _ client h1 in
    let (authenticated, h3) =
      refuse_then (is_unauthenticated cfg.username cfg.password_env password) bad_authentication _
        client h2 in
    let (timeout, h4) = refuse_then (is_bad_timeout cfg.timeout_seconds) bad_timeout _ client h3 in
    let (sdk, h5) = refuse_then (not world.elastic.takes_settings) no_sdk _ client h4 in
    rw⁻¹ (ok_same h5) (
      addressed,
      refl,
      checked_timeout cfg.timeout_seconds timeout,
      authenticated_lem cfg.username cfg.password_env password authenticated,
    )

start_elastic-IsSetUp :
    (world : World) (cfg : ElasticsearchConfig) (cluster : String) (elastic : Option Client)
    → start_elastic world cfg cluster ≡ ok elastic
    → IsSetUp cfg cluster elastic
unfolding start_elastic
start_elastic-IsSetUp world cfg cluster elastic h = elim (Bool-cases (cfg.address == "")) [
  | inl unset ↦
      let g : Path (Checked Fatal (Option Client)) (ok none) (ok elastic) = (rw unset at h) in
      let e : cfg.address ≡ "" = ground (arith, eq_iff cfg.address "") in rw⁻¹ (ok_same g) e
  | inr set ↦
      made (new_client world.elastic cfg cluster) elastic (==false→ne cfg.address "" set)
        (λ client. new_client-IsSetUp world cfg cluster client (==false→ne cfg.address "" set))
        (rw set at h)
]
  where
    made :
        (m : Checked ConfigError Client) (elastic : Option Client)
        → cfg.address ≢ ""
        → ((client : Client) → m ≡ ok client → IsSetUp cfg cluster (some client))
        → (or_fatal bad_elasticsearch m >>= λ client. ok (some client)) ≡ ok elastic
        → IsSetUp cfg cluster elastic
    made (ok client) elastic addressed is_set_up g = rw⁻¹ (ok_same g) (is_set_up client refl)
    made (err e) elastic addressed is_set_up g = absurd (cc)

or_fatal_then :
    {E A : Type 0} (fatal : E → Fatal) (m : Checked E A) (a : A)
    → or_fatal fatal m ≡ ok a
    → m ≡ ok a
or_fatal_then fatal (ok b) a h = ap ok (ok_same h)
or_fatal_then fatal (err e) a h = absurd (cc)

-- When the set-up meets no fatal error, a configuration was loaded, and whatever the state file and the
-- files of the old layout hold, every application of the store has a time of change, none of which is
-- after the store's last change; the event buffer is empty, and nothing was published; there is an
-- Elasticsearch client exactly if the configuration has an address for it, and then the handler
-- publishes applications too, and the client has the server's cluster, a password if it has a user,
-- and a timeout of whole seconds that no wrap-around has changed; and the timeout of the gateway's
-- client is positive.
pub start-IsReady :
    (world : World) (config_file : String) (server : Server)
    → start world config_file ≡ ok server
    → (cfg : Config) × (load_config world.getenv world.read_file world.unmarshal
          (config_path world.getenv config_file)
        ≡ ok cfg)
      × IsClocked server.handler.state_store
      × (server.handler.events ≡ [])
      × (server.handler.published ≡ [])
      × (server.handler.publisher ≡ publisher_of server.elastic)
      × IsSetUp cfg.elasticsearch server.cluster server.elastic
      × ((n : ℕ) × (server.gateway.timeout ≡ pos (suc n)))
unfolding start new_handler Prometheus.Setup.new_client
start-IsReady world config_file server h =
    let loaded =
      load_config world.getenv world.read_file world.unmarshal
        (config_path world.getenv config_file) in
    let (cfg, read, h1) = bind_then (or_fatal bad_config loaded) _ server h in
    let (log_dir, h2) = refuse_then (not world.has_log_dir) no_log_dir _ server h1 in
    let (kubernetes, h3) = refuse_then (not world.has_cluster) no_kubernetes _ server h2 in
    let cluster = load_cluster_identity world cfg.cluster in
    let (elastic, made, h4) =
      bind_then (start_elastic world cfg.elasticsearch cluster) _ server h3 in
    rw⁻¹ (ok_same h4) (
      cfg,
      or_fatal_then bad_config loaded cfg read,
      start_store-IsClocked world cfg.pods cluster,
      refl,
      refl,
      refl,
      start_elastic-IsSetUp world cfg.elasticsearch cluster elastic made,
      client_timeout-positive cfg.prometheus.timeout_seconds,
    )
