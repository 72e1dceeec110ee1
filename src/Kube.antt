-- ===== src/Kube.antt =====
-- The parts of Kubernetes objects and of Go's time that the program reads. `Pod` is corev1.Pod of
-- k8s.io/api with the fields that the code under internal/ uses and no others.
use podwatcher.Prelude.{ℕ, String, Bool, Option, List, leb}
use podwatcher.Dict.{Dict}

-- time.Time in nanoseconds after Go's zero time, which is 0.
abbrev pub Time : Type 0
Time = ℕ

-- t.IsZero()
abbrev pub is_zero : Time → Bool
is_zero t = leb t 0

-- time.Millisecond
abbrev pub millisecond : ℕ
millisecond = 1000000

-- corev1.ContainerStateTerminated
pub record Terminated : Type 0 where
  pub started_at : Time
  pub finished_at : Time

-- corev1.ContainerStatus: `running` is State.Running.StartedAt
pub record ContainerStatus : Type 0 where
  pub terminated : Option Terminated
  pub running : Option Time

pub record Pod : Type 0 where
  pub uid : String
  pub resource_version : String
  pub namespace : String
  pub name : String
  pub labels : Option (Dict String)
  pub creation_timestamp : Time
  pub deletion_timestamp : Option Time
  pub node_name : String
  pub phase : String
  pub start_time : Option Time
  pub container_statuses : List ContainerStatus

-- An object that the watch delivers, `interface{}` in the code: a *corev1.Pod, a
-- cache.DeletedFinalStateUnknown around one, a *metav1.Status with its code and reason, or
-- anything else.
pub data Object : Type 0 where
  pod : Pod → Object
  tombstone : Object → Object
  status : ℕ → String → Object
  other : Object
