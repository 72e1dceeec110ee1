-- ===== src/Lib.antt =====
-- podwatcher: a service that watches the Spark pods of a Kubernetes cluster, keeps a record of each
-- application and of each pod for log analysis, and serves them as an incremental feed.
--
-- The parts and how they work together. The informer lists and watches pods and keeps client-go's
-- cache and the watch position; for each change it calls the event handler; the handler records the
-- pod in the state store, hands it to the Elasticsearch publisher and keeps recent driver events; the
-- API reads the store. A resume store keeps the position across restarts, a state file the records. The
-- server sets these up from the configuration, and a gateway passes guarded queries on to Prometheus.
--
-- Which file models which part:
--   Kube            the fields of corev1.Pod that the code reads, and the objects of a watch
--   Spark           internal/store/state_store.go: AppIDFromPod, SparkRole, podStatus, podKey,
--                   containerTimes, bootstrapPodTime
--   Store           internal/store/state_store.go: Store, ApplicationRecord, PodRecord
--     Application   upsertAppLocked; PodHalf: upsertPodRecordLocked; Upsert: upsert, UpsertPod,
--                   BootstrapPod; Evict: evictAppsLocked, evictPodsLocked, deleteAppLocked;
--                   Query: GetApplication, GetChanges, GetPodRecords; Valid: the store's invariant
--     Ingest        ingestLocked, ingestAppsLocked; Ingest/Legacy: internal/store/legacy.go
--     Sound         what an observation keeps besides the invariant
--     Persist       NewStore, load, save, backfillClusterLocked; Persist/Flush: persistLoop, Stop;
--                   Persist/Restart, Reload: a save and a load; Persist/Lives: one start to the next
--   Handler         internal/handler/event_handler.go: OnAdd, OnUpdate, OnDelete, addEvent, publish,
--                   publishApplication, GetEvents, GetStats. Debug: logPublishPayload
--   Resume          internal/store/resume_store.go: the nop, file and HTTP stores
--   Informer        internal/informer/pod_informer.go. Cache: the interface of cache.Store. Manager:
--                   setRV, clearRV, onAdded, onModified, onDeleted, reconcile, relist, seedSnapshot,
--                   watch, listAndWatch. Loop: run. Checkpoint: loadRV, saveRV, persistLoop.
--                   Lifecycle: newPodInformerManager, Start, Stop. Unread: a process over the HTTP
--                   store. Settings: the constructors' options, listPods, watchPods, LookupPod
--   Redact          the redaction and quoting of error texts in internal/prometheus/client.go and
--                   internal/elasticsearch/client.go: the secrets of NewClient, safeDetail
--   Elastic         internal/elasticsearch/client.go. Setup: the checks of NewClient. Publish: Publish,
--                   PublishApplication; Publish/Deliver: both as far as the write. Document:
--                   removeDotOnlyKeys. Retries: the loop of write.
--                   Write: write, sanitizeDocument, PublishError. Describe: responseErrorDetail,
--                   describeESError
--   Service         internal/service/pod_service.go: GetApplications, parseStatuses. Records:
--                   GetPodRecords, parseTimeWindow, GetPodCountByPhase
--   Controller      internal/controller/pod_controller.go: every route but HealthCheck
--   Gateway         internal/controller/prometheus_controller.go: QueryRange, parseTime, parseStep
--   Prometheus      internal/prometheus/client.go: do and request. Setup: NewClient. Requests:
--                   QueryRange, Query, the samples of a response
--   Config          internal/config/config.go: the records, DefaultConfig, Load
--   Server          cmd/server/main.go: main up to the start of the informer, buildResumeStore,
--                   loadClusterIdentity, envByCluster; ConfigMapValue of pkg/k8s/configmap.go.
--                   Shutdown: setupKlog, and main from the signal on. Routes: setupRouter
--   Kubernetes      pkg/k8s/client.go: NewClient
--   Testutil        internal/testutil/pods.go
--   Prelude, Dict, Sort   shared notation and lemmas, Go's maps, sort.Slice; Prelude/Decimal and
--                   Prelude/Atoi are strconv.ParseInt and Atoi, Prelude/Trim strings.TrimSpace
--   Checked, Duration   a value or the reason of an error; time.Duration
--   Tests           runs of the model, and the theorems at concrete inputs
--
-- How the code is modelled. A critical section of a mutex is one function of the state. A time is
-- its nanoseconds after Go's zero time, and each reading of the clock is an argument. A map is an
-- association list in the order in which `range` visits it; sort.Slice is an insertion sort, one of
-- the sorts that its documentation allows. What the outside answers - the API server, the file
-- system, the checkpoint API, the environment, Prometheus - is an argument, and so are the parsers
-- of times, durations, floating point, addresses and YAML; client-go's cache is an interface whose
-- laws are its documentation. The text of the state file is represented by the snapshot that it
-- encodes, and the id of an Elasticsearch document by the list of which it is the hash. The
-- gateway's instants count from one that is earlier than all that its parsers return.
--
-- Fuel and bounds. The eviction of applications runs on the number of applications, and each round
-- removes one, so it always gets as far as the loop of the code. The retries run on the attempts
-- that are left. All else is recursion on a list or a text. The event buffer keeps 1000 events; the
-- limits of the store are fields; the waits of the informer are 1s to 30s. Times are natural
-- numbers without a bound.
--
-- Not modelled: log lines but the payload that is logged for debugging, goroutines, tickers and the
-- locks themselves; gin, the HTTP server and transports, the decoding and encoding of JSON, the two
-- regular expressions of safeDetail, and the floating point of formatTime and formatStep, which are
-- arguments where a result depends on them; methods that only pass a call on, of the handler and the
-- service to the store. A text that is redacted has no byte that is not UTF-8.
pub mod Prelude
pub mod Dict
pub mod Sort
pub mod Kube
pub mod Spark
pub mod Store
pub mod Handler
pub mod Resume
pub mod Informer
pub mod Redact
pub mod Elastic
pub mod Service
pub mod Checked
pub mod Duration
pub mod Gateway
pub mod Prometheus
pub mod Config
pub mod Controller
pub mod Server
pub mod Kubernetes
pub mod Testutil
mod Tests
