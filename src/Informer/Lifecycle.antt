-- ===== src/Informer/Lifecycle.antt =====
-- internal/informer/pod_informer.go: a new manager, Start and Stop. The two goroutines that Start
-- begins are the rounds of Loop and the saves of Checkpoint.
use podwatcher.Prelude.{Bool, true, false, Option, List, [], ◌∷◌, if◌then◌else◌, ◌≡◌, refl}
use podwatcher.Resume.{ResumeStore, Reply}
use podwatcher.Handler.{Handler}
use podwatcher.Informer.Manager.{Manager}
use podwatcher.Informer.Checkpoint.{load_rv, save_rv}

-- `cache` is an empty one.
unfoldable pub new_manager : {C S : Type 0} → Handler → (cache : C) → (resume : S) → Manager C S
new_manager handler cache resume = record {
  handler = handler;
  store = cache;
  resume = resume;
  last_rv = "";
  dirty = false;
  synced = false;
}

-- One pass of the loop that waits for the first sync: what it sees of the manager, whether the manager
-- is stopped in the wait, and whether the deadline is over after it.
pub record Poll : Type 0 where
  pub is_synced : Bool
  pub is_stopped : Bool
  pub is_late : Bool

-- What Start answers: nil, one of its two errors, or nothing yet.
pub data Started : Type 0 where
  synced stopped timed_out waiting : Started

unfoldable pub await_sync : List Poll → Started
await_sync [] = waiting
await_sync (poll ∷ polls) =
    let rest = await_sync polls in
    if poll.is_synced
    then synced
    else if poll.is_stopped
    then stopped
    else if poll.is_late
    then timed_out
    else rest

-- Start: the position is loaded before anything else, and the answer follows the polls.
unfoldable pub start_manager :
    {C S : Type 0}
    → Option (ResumeStore S)
    → Reply
    → List Poll
    → Manager C S
    → Manager C S × Started
unfolding load_rv await_sync
start_manager resume reply polls m = (load_rv resume reply m, await_sync polls)

-- Stop: one save more
unfoldable pub stop_manager :
    {C S : Type 0} → Option (ResumeStore S) → Reply → Manager C S → Manager C S
unfolding save_rv
stop_manager resume reply m = save_rv resume reply m

waits :
    await_sync (
      record { is_synced = false; is_stopped = false; is_late = false }
      ∷ record { is_synced = true; is_stopped = false; is_late = true }
      ∷ [])
    ≡ synced
unfolding await_sync
waits = refl
