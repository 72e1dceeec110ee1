-- ===== src/Informer/Cache.antt =====
-- cache.Store of client-go under cache.MetaNamespaceKeyFunc, as the informer uses it: the operations
-- and what their documentation promises. Neither fails on a pod.
use podwatcher.Prelude.{String, ◌≡◌, Option, none, some, List, [], ◌∷◌, ◌==◌, if◌then◌else◌, Any}
use podwatcher.Dict.{Dict, get, put}
use podwatcher.Kube.{Pod}

pub record PodCache (C : Type 0) : Type 0 where
  pub key_of : Pod → String
  pub lookup : Pod → C → Option Pod
  pub by_key : String → C → Option Pod
  pub add : Pod → C → C
  pub update : Pod → C → C
  pub delete : Pod → C → C
  pub list : C → List Pod
  pub replace : List Pod → C → C

-- the map of pods that a loop fills under their keys: a later pod takes an earlier one's place
unfoldable pub index_pods : (Pod → String) → List Pod → Dict Pod → Dict Pod
unfolding put
index_pods key_of [] listed = listed
index_pods key_of (pod ∷ pods) listed = index_pods key_of pods (put (key_of pod) pod listed)

pub record IsPodCache {C : Type 0} (ops : PodCache C) : Type 0 where
  pub lookup_key : (pod : Pod) (c : C) → ops.lookup pod c ≡ ops.by_key (ops.key_of pod) c
  pub by_key_add :
      (k : String) (pod : Pod) (c : C)
      → ops.by_key k (ops.add pod c) ≡ (if ops.key_of pod == k then some pod else ops.by_key k c)
  pub by_key_update :
      (k : String) (pod : Pod) (c : C)
      → ops.by_key k (ops.update pod c) ≡ (if ops.key_of pod == k then some pod else ops.by_key k c)
  pub by_key_delete :
      (k : String) (pod : Pod) (c : C)
      → ops.by_key k (ops.delete pod c) ≡ (if ops.key_of pod == k then none else ops.by_key k c)
  pub by_key_replace :
      (k : String) (pods : List Pod) (c : C)
      → ops.by_key k (ops.replace pods c) ≡ get k (index_pods ops.key_of pods [])
  -- `list` has a pod of every key that has a pod
  pub list_all :
      (k : String) (pod : Pod) (c : C)
      → ops.by_key k c ≡ some pod
      → Any (λ listed. ops.key_of listed ≡ k) (ops.list c)
