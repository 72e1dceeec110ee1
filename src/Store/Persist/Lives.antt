-- ===== src/Store/Persist/Lives.antt =====
-- internal/store/state_store.go: the lives of the store, from one start of the program to the next.
use podwatcher.Prelude.{
  ◌<◌, String, true, false, Option, List, [], ◌∷◌, ℤ, All, ◌==◌, Bool-cases, inl, inr,
}
use podwatcher.Kube.{Time, Pod}
use podwatcher.Store.{Store}
use podwatcher.Store.Sound.{IsSound, upsert-IsSound}
use podwatcher.Store.Upsert.{upsert, upsert_pod}
use podwatcher.Store.Persist.{StateSnapshot, Outcome, snapshot_of, written, save, new_store}
use podwatcher.Store.Persist.Flush.{Step, Saved, step, stop}
use podwatcher.Store.Persist.Reload.{IsSoundFile, new_store-IsSound}

-- What happens in the lives of a store: a step of the running one, a pod of the first list, or a
-- Stop and a start with the same file, where the cluster and the limits may be other ones.
pub data Life : Type 0 where
  running : Step → Life
  listed : Pod → Time → Life
  restarted : Outcome → String → ℤ → ℤ → Life

unfoldable pub live : Life → Saved → Saved
unfolding step stop upsert new_store
live (running x) saved = step x saved
live (listed pod now) (s, file) = (upsert s pod false true now, file)
live (restarted outcome cluster max_apps max_pods) saved =
    let (s, file) = stop outcome saved in
    (new_store file s.file_path cluster max_apps max_pods, file)

unfoldable pub run_lives : List Life → Saved → Saved
unfolding live
run_lives [] saved = saved
run_lives (x ∷ xs) saved = run_lives xs (live x saved)

-- the clock is past the epoch
abbrev pub IsTimed : Life → Type 0
IsTimed (running (Step.observe pod deleted now)) = 0 < now
IsTimed (running (Step.flush outcome)) = Unit
IsTimed (listed pod now) = 0 < now
IsTimed (restarted outcome cluster max_apps max_pods) = Unit

-- a sound store, and a file that is none or the snapshot of a sound store
abbrev pub IsSoundPair : Saved → Type 0
IsSoundPair (s, file) = IsSound s × IsSoundFile file

clean-IsSound : (s : Store) → IsSound s → IsSound (record s { dirty = false })
clean-IsSound s sound = record {
  valid = record {
    apps_dict = sound.valid.apps_dict;
    pods_dict = sound.valid.pods_dict;
    index_dict = sound.valid.index_dict;
    named = sound.valid.named;
    keyed = sound.valid.keyed;
    owned = sound.valid.owned;
    indexed = sound.valid.indexed;
  };
  stamped = sound.stamped;
  identified = sound.identified;
}

written-IsSoundFile :
    (outcome : Outcome) (s : Store) (file : Option StateSnapshot)
    → IsSound s
    → IsSoundFile file
    → IsSoundFile (written outcome (snapshot_of s) file)
written-IsSoundFile Outcome.mkdir_failed s file sound before = before
written-IsSoundFile Outcome.marshal_failed s file sound before = before
written-IsSoundFile Outcome.write_failed s file sound before = before
written-IsSoundFile Outcome.rename_failed s file sound before = before
written-IsSoundFile Outcome.saved s file sound before = IsSoundFile.of_sound s sound

save-IsSoundPair :
    (outcome : Outcome) (s : Store) (file : Option StateSnapshot)
    → IsSoundPair (s, file)
    → IsSoundPair (save outcome s file)
unfolding save
save-IsSoundPair outcome s file (sound, before) = elim (Bool-cases (s.file_path == "")) [
  | inl unnamed ↦ rw unnamed (sound, before)
  | inr named ↦ elim (Bool-cases s.dirty) [
    | inl dirty ↦
        rw (named, dirty) (clean-IsSound s sound, written-IsSoundFile outcome s file sound before)
    | inr clean ↦ simp (named, clean) (sound, before)
  ]
]

live-IsSoundPair :
    (x : Life) (saved : Saved) → IsTimed x → IsSoundPair saved → IsSoundPair (live x saved)
unfolding live step stop upsert_pod
live-IsSoundPair (running (Step.observe pod deleted now)) (s, file) timed (sound, before) =
    (upsert-IsSound s pod deleted false now timed sound, before)
live-IsSoundPair (running (Step.flush outcome)) (s, file) timed pair =
    save-IsSoundPair outcome s file pair
live-IsSoundPair (listed pod now) (s, file) timed (sound, before) =
    (upsert-IsSound s pod false true now timed sound, before)
live-IsSoundPair (restarted outcome cluster max_apps max_pods) (s, file) timed pair =
    let (sound, after) = save-IsSoundPair outcome s file pair in
    let (t, kept) = save outcome s file in
    (new_store-IsSound kept t.file_path cluster max_apps max_pods after, after)

-- Whatever pods are listed and observed at times past the epoch, whichever saves fail, and whenever the
-- program stops and starts again with whatever cluster and limits, a sound store stays sound: its
-- invariant holds, every application has a time of change, and every pod record stands under its uid,
-- if at first the state file was missing or had the records of a sound store. So has it then.
pub run_lives-IsSound :
    (lives : List Life) (saved : Saved)
    → All IsTimed lives
    → IsSoundPair saved
    → IsSoundPair (run_lives lives saved)
unfolding run_lives
run_lives-IsSound [] saved timed pair = pair
run_lives-IsSound (x ∷ xs) saved timed pair =
    run_lives-IsSound xs (live x saved) timed.1 (live-IsSoundPair x saved timed.0 pair)
