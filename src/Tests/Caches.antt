-- ===== src/Tests/Caches.antt =====
-- A cache of pods that keeps the promises of the interface: a list, a pod of each key.
use podwatcher.Prelude.{
  String, ◌≡◌, refl, sym, ap, ◌∙◌, Option, none, some, List, [], ◌∷◌, ◌==◌, not, arith, eq_iff,
  if◌then◌else◌, Any, inl, inr, Bool-cases, keep_if,
}
use podwatcher.Dict.{Dict, get, put}
use podwatcher.Dict.Laws.{get-put}
use podwatcher.Kube.{Pod}
use podwatcher.Spark.{name_key}
use podwatcher.Informer.Cache.{PodCache, IsPodCache, index_pods}

-- MetaNamespaceKeyFunc
unfoldable key_of : Pod → String
unfolding name_key
key_of pod = if pod.namespace == "" then pod.name else name_key pod.namespace pod.name

unfoldable find_key : String → List Pod → Option Pod
find_key k [] = none
find_key k (pod ∷ pods) = if key_of pod == k then some pod else find_key k pods

unfoldable drop_key : Pod → List Pod → List Pod
unfolding keep_if
drop_key pod pods = keep_if (λ p. not (key_of pod == key_of p)) pods

unfoldable put_pod : Pod → List Pod → List Pod
unfolding drop_key
put_pod pod pods = pod ∷ drop_key pod pods

unfoldable put_all : List Pod → List Pod → List Pod
unfolding put_pod
put_all [] pods = pods
put_all (pod ∷ more) pods = put_all more (put_pod pod pods)

find_key-drop_key :
    (k : String) (pod : Pod) (pods : List Pod)
    → find_key k (drop_key pod pods) ≡ (if key_of pod == k then none else find_key k pods)
unfolding find_key drop_key keep_if
find_key-drop_key k pod [] = ground arith
find_key-drop_key k pod (p ∷ ps) = ground (
  arith,
  find_key-drop_key k pod ps,
  eq_iff (key_of pod) (key_of p),
  eq_iff (key_of p) k,
  eq_iff (key_of pod) k,
)

find_key-put_pod :
    (k : String) (pod : Pod) (pods : List Pod)
    → find_key k (put_pod pod pods) ≡ (if key_of pod == k then some pod else find_key k pods)
unfolding find_key put_pod
find_key-put_pod k pod pods = ground (arith, find_key-drop_key k pod pods)

find_key-put_all :
    (k : String) (more pods : List Pod) (listed : Dict Pod)
    → find_key k pods ≡ get k listed
    → find_key k (put_all more pods) ≡ get k (index_pods key_of more listed)
unfolding put_all index_pods
find_key-put_all k [] pods listed h = h
find_key-put_all k (pod ∷ more) pods listed h =
    find_key-put_all k more (put_pod pod pods) (put (key_of pod) pod listed) (
      find_key-put_pod k pod pods
      ∙ ap (λ rest. if key_of pod == k then some pod else rest) h
      ∙ sym (get-put (key_of pod) k pod listed))

find_key-Any :
    (k : String) (pod : Pod) (pods : List Pod)
    → find_key k pods ≡ some pod
    → Any (λ p. key_of p ≡ k) pods
unfolding find_key
find_key-Any k pod [] h = absurd (cc)
find_key-Any k pod (p ∷ ps) h = elim (Bool-cases (key_of p == k)) [
  | inl same ↦ inl (ground (arith, eq_iff (key_of p) k))
  | inr other ↦ inr (find_key-Any k pod ps (ground (arith, other)))
]

unfoldable pub pod_list : PodCache (List Pod)
unfolding find_key put_pod drop_key put_all key_of
pod_list = record {
  key_of = key_of;
  lookup = λ pod c. find_key (key_of pod) c;
  by_key = find_key;
  add = put_pod;
  update = put_pod;
  delete = drop_key;
  list = λ c. c;
  replace = λ pods c. put_all pods [];
}

pub pod_list-IsPodCache : IsPodCache pod_list
unfolding pod_list get
pod_list-IsPodCache = record {
  lookup_key = λ pod c. refl;
  by_key_add = find_key-put_pod;
  by_key_update = find_key-put_pod;
  by_key_delete = find_key-drop_key;
  by_key_replace = λ k pods c. find_key-put_all k pods [] [] refl;
  list_all = λ k pod c h. find_key-Any k pod c h;
}
