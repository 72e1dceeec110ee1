-- ===== src/Informer/Settings.antt =====
-- internal/informer/pod_informer.go: what a manager is built with, what it asks the API server for, and
-- the look-up of a pod in its cache.
use podwatcher.Prelude.{
  ◌*◌, String, Bool, true, false, Option, List, [], ◌∷◌, pos, ◌≡◌, refl, if◌then◌else◌, some,
  eq_refl, geb, Bool-cases, inl, inr,
}
use podwatcher.Duration.{Duration, second}
use podwatcher.Kube.{Pod}
use podwatcher.Spark.{name_key}
use podwatcher.Informer.Cache.{PodCache, IsPodCache}
use podwatcher.Informer.Manager.{Manager, discover}
use podwatcher.Kube.{Time}

-- The fields that a manager does not change. The empty namespace is all namespaces.
pub record Settings : Type 0 where
  pub namespace : String
  pub flush_interval : Duration

unfoldable pub new_settings : Settings
new_settings = record { namespace = ""; flush_interval = pos (10 * second) }

abbrev pub SettingsOption : Type 0
SettingsOption = Settings → Settings

unfoldable pub with_flush_interval : Duration → SettingsOption
with_flush_interval d settings = record settings { flush_interval = d }

-- the options in turn
unfoldable pub new_manager_settings : List SettingsOption → Settings → Settings
new_manager_settings [] settings = settings
new_manager_settings (opt ∷ opts) settings = new_manager_settings opts (opt settings)

-- the filter comes after the options
unfoldable pub new_manager_with_filter : String → List SettingsOption → Settings
unfolding new_settings new_manager_settings
new_manager_with_filter namespace opts = record (new_manager_settings opts new_settings) {
  namespace = namespace;
}

-- the ticker of persistLoop: an interval that is not positive is 10s
unfoldable pub persist_interval : Settings → Duration
persist_interval settings =
    if geb (pos 0) settings.flush_interval then pos (10 * second) else settings.flush_interval

-- A ticker takes positive intervals only, and gets one whatever the options are.
pub persist_interval_positive :
    (settings : Settings) → geb (pos 0) (persist_interval settings) ≡ false
unfolding persist_interval
persist_interval_positive settings = elim (Bool-cases (geb (pos 0) settings.flush_interval)) [
  | inl none_set ↦ rw none_set refl
  | inr positive ↦
      let unset : geb (pos 0) settings.flush_interval ≡ false = positive in rw unset unset
]

-- metav1.ListOptions, with the namespace of the call
pub record Request : Type 0 where
  pub namespace : String
  pub resource_version : String
  pub allow_watch_bookmarks : Bool

unfoldable pub list_request : Settings → Request
list_request settings = record {
  namespace = settings.namespace;
  resource_version = "";
  allow_watch_bookmarks = false;
}

unfoldable pub watch_request : Settings → String → Request
watch_request settings rv = record {
  namespace = settings.namespace;
  resource_version = rv;
  allow_watch_bookmarks = true;
}

module _ {C S : Type 0} (cache : PodCache C) where
  -- `LookupPod`: the cache has pods only
  unfoldable pub lookup_pod : (namespace name : String) → Manager C S → Option Pod
  unfolding name_key
  lookup_pod namespace name m = cache.by_key (name_key namespace name) m.store

  -- A pod that the manager discovers is found by its namespace and name, if those are the cache's key.
  pub discover-lookup_pod :
      (pod : Pod) (now stamp : Time) (m : Manager C S)
      → IsPodCache cache
      → cache.key_of pod ≡ name_key pod.namespace pod.name
      → lookup_pod pod.namespace pod.name (discover cache pod now stamp m) ≡ some pod
  unfolding lookup_pod discover
  discover-lookup_pod pod now stamp m laws key =
      simp (laws.by_key_add (name_key pod.namespace pod.name) pod m.store, key, eq_refl) refl
