-- ===== src/Informer/Trace/Rounds.antt =====
-- The informer acts on the handler by its three callbacks alone: rounds of list and watch.
use podwatcher.Prelude.{
  ℕ, ◌≤◌, String, ◌≡◌, refl, Bool, true, false, Option, none, some, List, [], ◌∷◌, arith, length,
  length-take, Bool-cases, inl, inr, is_some, not, ◌==◌, if◌then◌else◌, subst, sym,
}
use podwatcher.Dict.{Dict, get, values}
use podwatcher.Kube.{Time, Pod, Object}
use podwatcher.Store.Valid.{IsValid}
use podwatcher.Handler.{on_add}
use podwatcher.Handler.Inputs.{Input, handle, run, run-IsValid}
use podwatcher.Handler.Buffer.{run-events, history}
use podwatcher.Informer.Cache.{PodCache, index_pods}
use podwatcher.Informer.Manager.{
  Manager, End, Round, ended, gone, failure, clear_rv, merge_added, merge_listed, forget,
  forget_missing, reconcile, seed_pods, seed, relist, watch, relist_and_watch, seed_and_watch,
  list_and_watch,
}
use podwatcher.Informer.Loop.{settle, run_rounds}
use podwatcher.Informer.Trace.{
  IsRun, IsRun-same, IsRun-one, IsRun-trans, merge_added-IsRun, forget-IsRun, set_rv-IsRun,
  watch-IsRun,
}

module _ {C S : Type 0} (cache : PodCache C) where
  merge_listed-IsRun :
      (tick : Pod → Time × Time) (pods : List Pod) (m : Manager C S)
      → IsRun m.handler (merge_listed cache tick pods m).handler
  unfolding merge_listed
  merge_listed-IsRun tick [] m = IsRun-same m.handler m.handler refl
  merge_listed-IsRun tick (pod ∷ pods) m =
      let old = cache.lookup pod m.store in
      let next = merge_added cache old pod (tick pod).0 (tick pod).1 m in
      IsRun-trans m.handler next.handler (merge_listed cache tick pods next).handler
        (merge_added-IsRun cache old pod (tick pod).0 (tick pod).1 m)
        (merge_listed-IsRun tick pods next)

  if-IsRun :
      (b : Bool) (m next : Manager C S)
      → IsRun m.handler next.handler
      → IsRun m.handler (if b then m else next).handler
  if-IsRun true m next r = IsRun-same m.handler m.handler refl
  if-IsRun false m next r = r

  forget_missing-IsRun :
      (tick : Pod → Time × Time) (listed : Dict Pod) (olds : List Pod) (m : Manager C S)
      → IsRun m.handler (forget_missing cache tick listed olds m).handler
  unfolding forget_missing
  forget_missing-IsRun tick listed [] m = IsRun-same m.handler m.handler refl
  forget_missing-IsRun tick listed (old ∷ olds) m =
      let next =
        if is_some (get (cache.key_of old) listed)
        then m
        else forget cache old (tick old).0 (tick old).1 m in
      IsRun-trans m.handler next.handler (forget_missing cache tick listed olds next).handler
        (if-IsRun (is_some (get (cache.key_of old) listed)) m
          (forget cache old (tick old).0 (tick old).1 m)
          (forget-IsRun cache old (tick old).0 (tick old).1 m))
        (forget_missing-IsRun tick listed olds next)

  reconcile-IsRun :
      (tick : Pod → Time × Time) (pods : List Pod) (m : Manager C S)
      → IsRun m.handler (reconcile cache tick pods m).handler
  unfolding reconcile
  reconcile-IsRun tick pods m =
      let listed = index_pods cache.key_of pods [] in
      let merged = merge_listed cache tick (values listed) m in
      IsRun-trans m.handler merged.handler (reconcile cache tick pods m).handler
        (merge_listed-IsRun tick (values listed) m)
        (forget_missing-IsRun tick listed (cache.list merged.store) merged)

  seed_pods-IsRun :
      (tick : Pod → Time × Time) (pods : List Pod) (m : Manager C S)
      → IsRun m.handler (seed_pods cache tick pods m).handler
  unfolding seed_pods handle
  seed_pods-IsRun tick [] m = IsRun-same m.handler m.handler refl
  seed_pods-IsRun tick (pod ∷ pods) m =
      let next = record m {
        handler = on_add m.handler (Object.pod pod) true (tick pod).0 (tick pod).1;
      } in
      IsRun-trans m.handler next.handler (seed_pods cache tick pods next).handler
        (IsRun-one m.handler (Input.add (Object.pod pod) true (tick pod).0 (tick pod).1))
        (seed_pods-IsRun tick pods next)

  relist-IsRun :
      (tick : Pod → Time × Time) (pods : List Pod) (rv : String) (initial : Bool) (m : Manager C S)
      → IsRun m.handler (relist cache tick pods rv initial m).handler
  unfolding relist seed
  relist-IsRun tick pods rv true m =
      set_rv-IsRun cache rv m.handler (seed cache tick pods m) (seed_pods-IsRun tick pods m)
  relist-IsRun tick pods rv false m =
      set_rv-IsRun cache rv m.handler (reconcile cache tick pods m) (reconcile-IsRun tick pods m)

  relist_and_watch-IsRun :
      (listing : Option (List Pod × String)) (round : Round) (m : Manager C S)
      → IsRun m.handler (relist_and_watch cache listing round m).0.handler
  unfolding relist_and_watch
  relist_and_watch-IsRun none round m = IsRun-same m.handler m.handler refl
  relist_and_watch-IsRun (some (pods, rv)) round m =
      let listed = record (relist cache round.tick pods rv (not m.synced) m) { synced = true } in
      IsRun-trans m.handler listed.handler (watch cache round.watching listed).0.handler
        (relist-IsRun round.tick pods rv (not m.synced) m) (watch-IsRun cache round.watching listed)

  seed_and_watch-IsRun :
      (listing : Option (List Pod × String)) (round : Round) (m : Manager C S)
      → IsRun m.handler (seed_and_watch cache listing round m).0.handler
  unfolding seed_and_watch seed
  seed_and_watch-IsRun none round m = IsRun-same m.handler m.handler refl
  seed_and_watch-IsRun (some (pods, rv)) round m =
      let seeded = record (seed cache round.tick pods m) { synced = true } in
      IsRun-trans m.handler seeded.handler (watch cache round.watching seeded).0.handler
        (seed_pods-IsRun round.tick pods m) (watch-IsRun cache round.watching seeded)

  list_and_watch-IsRun :
      (round : Round) (m : Manager C S) → IsRun m.handler (list_and_watch cache round m).0.handler
  unfolding list_and_watch
  list_and_watch-IsRun round m = elim (Bool-cases (m.last_rv == "")) [
    | inl start ↦ rw start (relist_and_watch-IsRun round.listing round m)
    | inr resumed ↦ elim (Bool-cases m.synced) [
      | inl synced ↦ simp (resumed, synced) (watch-IsRun cache round.watching m)
      | inr unsynced ↦ simp (resumed, unsynced) (seed_and_watch-IsRun round.listing round m)
    ]
  ]

  settle_handler :
      (result : Manager C S × End) (backoff : ℕ)
      → (settle result backoff).0.handler ≡ result.0.handler
  unfolding settle clear_rv
  settle_handler (m, ended) backoff = refl
  settle_handler (m, gone) backoff = refl
  settle_handler (m, failure) backoff = refl

  run_rounds-IsRun :
      (rounds : List Round) (m : Manager C S) (backoff : ℕ)
      → IsRun m.handler (run_rounds cache rounds (m, backoff)).0.handler
  unfolding run_rounds
  run_rounds-IsRun [] m backoff = IsRun-same m.handler m.handler refl
  run_rounds-IsRun (round ∷ rounds) m backoff =
      let result = list_and_watch cache round m in
      let (next, wait) = settle result backoff in
      IsRun-trans m.handler next.handler (run_rounds cache rounds (next, wait)).0.handler
        (subst (IsRun m.handler) (sym (settle_handler result backoff))
          (list_and_watch-IsRun round m))
        (run_rounds-IsRun rounds next wait)

  -- Whatever the rounds of list and watch meet, the handler ends as some sequence of its callbacks
  -- leaves it; a valid store is valid afterwards, and a buffer within its limit stays within it.
  pub run_rounds-IsValid :
      (rounds : List Round) (m : Manager C S) (backoff : ℕ)
      → IsValid m.handler.state_store
      → length m.handler.events ≤ m.handler.max_events
      → let after = (run_rounds cache rounds (m, backoff)).0.handler in
        IsValid after.state_store
        × (length after.events ≤ m.handler.max_events)
        × ((inputs : List Input) × (after ≡ run m.handler inputs))
  run_rounds-IsValid rounds m backoff valid fits =
      let (inputs, same) = run_rounds-IsRun rounds m backoff in
      let events = run-events inputs m.handler fits in
      rw same (
        run-IsValid inputs m.handler valid,
        rw events
            (omega (arith, length-take m.handler.max_events (history inputs m.handler.events))),
        (inputs, refl),
      )
