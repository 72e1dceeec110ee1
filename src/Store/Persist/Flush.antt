-- ===== src/Store/Persist/Flush.antt =====
-- internal/store/state_store.go: the flush loop and Stop, among the observations of a running store.
use podwatcher.Prelude.{
  ◌≡◌, ◌≢◌, refl, sym, ap, ◌∙◌, Bool, true, false, Option, none, some, List, [], ◌∷◌, arith, ◌==◌,
  ◌||◌, Bool-cases, inl, inr, ne→==false, All,
}
use podwatcher.Kube.{Time, Pod}
use podwatcher.Spark.{app_id_from_pod, spark_role}
use podwatcher.Store.{Store}
use podwatcher.Store.Evict.{delete_app, evict_apps, evict_pods}
use podwatcher.Store.Evict.Apps.{evict_apps-keeps}
use podwatcher.Store.Upsert.{record_halves, record_and_evict, upsert, upsert_pod}
use podwatcher.Store.Persist.{StateSnapshot, Outcome, snapshot_of, written, save}

-- What happens to a running store: a live observation, or a tick of the flush loop.
pub data Step : Type 0 where
  observe : Pod → Bool → Time → Step
  flush : Outcome → Step

-- the store and its state file
abbrev pub Saved : Type 0
Saved = Store × Option StateSnapshot

unfoldable pub step : Step → Saved → Saved
unfolding upsert_pod save
step (observe pod deleted now) (s, file) = (upsert_pod s pod deleted now, file)
step (flush outcome) (s, file) = save outcome s file

unfoldable pub run_steps : List Step → Saved → Saved
unfolding step
run_steps [] saved = saved
run_steps (x ∷ xs) saved = run_steps xs (step x saved)

-- `Stop`: the loop is over, and there is one save more
unfoldable pub stop : Outcome → Saved → Saved
unfolding save
stop outcome (s, file) = save outcome s file

-- the file has the records of the store; there need be none where there are no records
abbrev pub Holds : Option StateSnapshot → Store → Type 0
Holds none s = (s.apps ≡ []) × (s.pods ≡ [])
Holds (some snapshot) s = snapshot ≡ snapshot_of s

-- a store with a state file that has its records, unless it is marked
abbrev pub IsInSync : Saved → Type 0
IsInSync (s, file) = (s.file_path ≢ "") × (s.dirty ≡ false → Holds file s)

-- no flush of these steps fails
abbrev pub Succeeds : Step → Type 0
Succeeds (observe pod deleted now) = Unit
Succeeds (flush outcome) = outcome ≡ Outcome.saved

record_and_evict-file_path :
    (s : Store) (pod : Pod) (deleted bootstrap : Bool) (now : Time)
    → (record_and_evict s pod deleted bootstrap now).file_path ≡ s.file_path
unfolding record_and_evict record_halves evict_pods delete_app
record_and_evict-file_path s pod deleted bootstrap now =
    let t = (record_halves s pod deleted bootstrap now).0 in
    let apps = evict_apps-keeps (λ u. u.file_path ≡ s.file_path) (λ u id h. h) t refl in
    let pods : (evict_pods (evict_apps t).0).0.file_path ≡ (evict_apps t).0.file_path =
      ground arith in
    pods ∙ apps

-- A live observation marks the store, or leaves it.
upsert_pod-IsInSync :
    (s : Store) (file : Option StateSnapshot) (pod : Pod) (deleted : Bool) (now : Time)
    → IsInSync (s, file)
    → IsInSync (upsert_pod s pod deleted now, file)
unfolding upsert_pod upsert record_and_evict
upsert_pod-IsInSync s file pod deleted now in_sync =
    elim (Bool-cases (app_id_from_pod pod == "" || spark_role pod == "")) [
      | inl untracked ↦ rw untracked in_sync
      | inr tracked ↦ rw tracked (
        λ e. in_sync.0 (sym (record_and_evict-file_path s pod deleted false now) ∙ e),
        λ clean. absurd (cc),
      )
    ]

save_clean :
    (outcome : Outcome) (s : Store) (file : Option StateSnapshot)
    → s.dirty ≡ false
    → save outcome s file ≡ (s, file)
unfolding save
save_clean outcome s file clean = elim (Bool-cases (s.file_path == "")) [
  | inl unnamed ↦ simp unnamed refl
  | inr named ↦ simp (named, clean) refl
]

save_dirty :
    (outcome : Outcome) (s : Store) (file : Option StateSnapshot)
    → s.file_path ≢ ""
    → s.dirty ≡ true
    → save outcome s file ≡ (record s { dirty = false }, written outcome (snapshot_of s) file)
unfolding save
save_dirty outcome s file named dirty =
    let path = ne→==false s.file_path "" named in simp (path, dirty) refl

save-IsInSync :
    (s : Store) (file : Option StateSnapshot)
    → IsInSync (s, file)
    → IsInSync (save Outcome.saved s file)
      × Holds (save Outcome.saved s file).1 (save Outcome.saved s file).0
unfolding snapshot_of
save-IsInSync s file (named, clean) = elim (Bool-cases s.dirty) [
  | inl dirty ↦ rw (save_dirty Outcome.saved s file named dirty) ((named, λ h. refl), refl)
  | inr in_sync ↦ rw (save_clean Outcome.saved s file in_sync) ((named, clean), clean in_sync)
]

written_failed :
    (failure : Outcome) (snapshot : StateSnapshot) (file : Option StateSnapshot)
    → failure ≢ Outcome.saved
    → written failure snapshot file ≡ file
written_failed Outcome.mkdir_failed snapshot file fails = refl
written_failed Outcome.marshal_failed snapshot file fails = refl
written_failed Outcome.write_failed snapshot file fails = refl
written_failed Outcome.rename_failed snapshot file fails = refl
written_failed Outcome.saved snapshot file fails = absurd (fails refl)

failed_flush :
    (failure later : Outcome) (s : Store) (file : Option StateSnapshot)
    → s.file_path ≢ ""
    → failure ≢ Outcome.saved
    → (stop later (save failure s file)).1 ≡ file
unfolding stop
failed_flush failure later s file named fails = elim (Bool-cases s.dirty) [
  | inl dirty ↦
      let kept = written failure (snapshot_of s) file in
      rw (save_dirty failure s file named dirty) (
        ap (λ saved. saved.1) (save_clean later (record s { dirty = false }) kept refl)
        ∙ written_failed failure (snapshot_of s) file fails)
  | inr clean ↦
      rw (save_clean failure s file clean) (ap (λ saved. saved.1) (save_clean later s file clean))
]

run_steps-IsInSync :
    (steps : List Step) (saved : Saved)
    → All Succeeds steps
    → IsInSync saved
    → IsInSync (run_steps steps saved)
unfolding run_steps
run_steps-IsInSync [] saved ok in_sync = in_sync
run_steps-IsInSync (observe pod deleted now ∷ steps) (s, file) ok in_sync =
    run_steps-IsInSync steps (upsert_pod s pod deleted now, file) ok.1
      (upsert_pod-IsInSync s file pod deleted now in_sync)
run_steps-IsInSync (flush outcome ∷ steps) (s, file) ok in_sync =
    rw ok.0
      (run_steps-IsInSync steps (save Outcome.saved s file) ok.1 (save-IsInSync s file in_sync).0)

-- Live observations and flushes, in any order, of which no flush fails, and then a Stop whose save does
-- not fail leave in the state file the records of the store, if the file had them before or the store
-- was marked. But if a flush fails after them, a Stop right after it leaves the file as it was before
-- that flush, whatever the save of the Stop meets.
pub run_steps-stop :
    (steps : List Step) (saved : Saved) (failure later : Outcome)
    → All Succeeds steps
    → IsInSync saved
    → failure ≢ Outcome.saved
    → let after = run_steps steps saved in
      let end = stop Outcome.saved after in
      Holds end.1 end.0 × ((stop later (step (flush failure) after)).1 ≡ after.1)
unfolding stop step
run_steps-stop steps saved failure later ok in_sync fails =
    let (s, file) = run_steps steps saved in
    let last = run_steps-IsInSync steps saved ok in_sync in
    ((save-IsInSync s file last).1, failed_flush failure later s file last.0 fails)
