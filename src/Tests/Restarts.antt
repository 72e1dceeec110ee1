-- ===== src/Tests/Restarts.antt =====
-- A restart, and the document of a completed application, at concrete inputs.
use podwatcher.Prelude.{
  ◌≡◌, refl, none, some, true, false, [], ◌∷◌, arith, pos, ==false→ne, String, List, ◌==◌, eq_iff,
  Bool-cases, inl, inr,
}
use podwatcher.Dict.{get}
use podwatcher.Store.Ingest.Clock.{IsClocked}
use podwatcher.Store.Persist.{Outcome}
use podwatcher.Store.Persist.Lives.{
  Life, running, listed, restarted, IsSoundPair, run_lives, run_lives-IsSound,
}
use podwatcher.Store.Persist.Reload.{IsSoundFile}
use podwatcher.Store.Sound.{IsSound}
use podwatcher.Store.Persist.Flush.{observe, flush, run_steps, stop, Holds, Step, run_steps-stop}
use podwatcher.Store.Query.{view}
use podwatcher.Handler.{delete_pod}
use podwatcher.Elastic.Publish.{publish_application, Completion, Part, queue_of}
use podwatcher.Elastic.Publish.Completions.{IsEnd, delete_pod-completion}
use podwatcher.Tests.Samples.{driver, done_driver, started, started-IsValid, app_of}
use podwatcher.Tests.Handlers.{short}

one_entry : {V : Type 0} (j k : String) (v w : V) → get k ((j, v) ∷ []) ≡ some w → (j ≡ k) × (v ≡ w)
unfolding get
one_entry j k v w h = elim (Bool-cases (j == k)) [
  | inl same ↦ let found : some v ≡ some w = (rw same at h) in (ground (arith, eq_iff j k), cc)
  | inr other ↦ let lost : none ≡ some w = (rw other at h) in absurd (cc)
]

pub started-IsClocked : IsClocked started
unfolding started
started-IsClocked k rec h = rw⁻¹ (one_entry _ k _ rec h).1 (omega arith, omega arith)

delete_pod-completion_example :
    (id : List Part) × (doc : Completion) × (publish_application "east"
        (view
          (delete_pod short done_driver 20000000 20000001).state_store
          (app_of (delete_pod short done_driver 20000000 20000001).state_store "a"))
        20000002
      ≡ some (id, doc))
    × IsEnd done_driver.phase doc.application.status
    × (some doc.finished_at
        ≡ (app_of (delete_pod short done_driver 20000000 20000001).state_store "a").finished_at)
    × (doc.queue ≡ queue_of done_driver.labels)
    × (doc.application.cluster ≡ "east")
unfolding short started delete_pod
delete_pod-completion_example =
    delete_pod-completion short done_driver 20000000 20000001 20000002 "east"
      (app_of (delete_pod short done_driver 20000000 20000001).state_store "a") started-IsValid
      (==false→ne _ _ refl) refl refl

abbrev steps : List Step
steps = observe driver false 10000000 ∷ flush Outcome.saved ∷ observe done_driver true 20000000 ∷ []

run_steps-stop_example :
    Holds
      (stop Outcome.saved (run_steps steps (started, none))).1
      (stop Outcome.saved (run_steps steps (started, none))).0
unfolding started
run_steps-stop_example =
    (run_steps-stop steps (started, none) Outcome.write_failed Outcome.saved (tt, (refl, (tt, tt)))
      (==false→ne _ _ refl, λ h. absurd (cc)) (λ h. cc)).0

pub started-IsSound : IsSound started
unfolding started
started-IsSound = record {
  valid = started-IsValid;
  stamped = λ k rec h. rw⁻¹ (one_entry _ k _ rec h).1 (omega arith);
  identified = λ k rec h.
      rw⁻¹ ((one_entry _ k _ rec h).1, (one_entry _ k _ rec h).0) (refl, ==false→ne _ _ refl);
}

-- a failed flush, a restart with another cluster, and a relisted pod
abbrev lives : List Life
lives =
    running (observe driver false 10000000)
    ∷ running (flush Outcome.write_failed)
    ∷ restarted Outcome.saved "west" (pos 5) (pos 5)
    ∷ listed done_driver 20000000
    ∷ []

run_lives-IsSound_example : IsSoundPair (run_lives lives (started, none))
run_lives-IsSound_example =
    run_lives-IsSound lives (started, none) (omega arith, (tt, (tt, (omega arith, tt))))
      (started-IsSound, IsSoundFile.no_file)
