-- ===== src/Informer/Checkpoint.antt =====
-- The watch position is saved and loaded through a resume store.
use podwatcher.Prelude.{
  ℕ, zero, suc, String, ◌≡◌, ◌≢◌, refl, ap, ◌∙◌, true, false, Option, none, some, List, [], ◌∷◌,
  ◌==◌, ◌||◌, arith, not, if◌then◌else◌, ne→==false,
}
use podwatcher.Resume.{
  ResumeStore, Reply, Loaded, load_failed, not_found, found, failed, answered, ResumeFile, envelope,
  file_store, file_load, file_save,
}
use podwatcher.Informer.Manager.{Manager}

-- the position that a load starts the manager with
abbrev loaded_rv : Loaded → String
loaded_rv load_failed = ""
loaded_rv not_found = ""
loaded_rv (found rv) = rv

module _ {C S : Type 0} (resume : Option (ResumeStore S)) where
  -- `m.lastRV = m.loadRV()` of Start; no resume store loads ""
  unfoldable pub load_rv : Reply → Manager C S → Manager C S
  load_rv reply m = elim resume [
    | none ↦ record m { last_rv = "" }
    | some ops ↦
        let (s, answer) = ops.load reply m.resume in
        record m { resume = s; last_rv = loaded_rv answer }
  ]

  unfoldable pub save_rv : Reply → Manager C S → Manager C S
  save_rv reply m = elim resume [
    | none ↦ m
    | some ops ↦
        let (s, ok) = ops.save reply m.last_rv m.resume in
        if not m.dirty || m.last_rv == ""
        then record m { dirty = false }
        else record m { resume = s; dirty = not ok }
  ]

  unfoldable pub save_all : List Reply → Manager C S → Manager C S
  unfolding save_rv
  save_all [] m = m
  save_all (reply ∷ replies) m = save_all replies (save_rv reply m)

-- a save that fails on the way leaves the manager as it is, and its position to be saved
file_save_failed :
    {C : Type 0} (m : Manager C ResumeFile)
    → m.dirty ≡ true
    → m.last_rv ≢ ""
    → save_rv (some file_store) failed m ≡ m
unfolding save_rv file_store file_save
file_save_failed m dirty rv = ground (arith, dirty, ne→==false m.last_rv "" rv)

-- the saves that fail on the way, and then what the last one meets
abbrev pub failures : ℕ → Reply → List Reply
failures zero last = last ∷ []
failures (suc more) last = failed ∷ failures more last

save_all-failures :
    {C : Type 0} (more : ℕ) (last : Reply) (m : Manager C ResumeFile)
    → m.dirty ≡ true
    → m.last_rv ≢ ""
    → save_all (some file_store) (failures more last) m ≡ save_rv (some file_store) last m
unfolding save_all
save_all-failures zero last m dirty rv = refl
save_all-failures (suc more) last m dirty rv =
    ap (save_all (some file_store) (failures more last)) (file_save_failed m dirty rv)
    ∙ save_all-failures more last m dirty rv

pub file_save_ok :
    {C : Type 0} (code : ℕ) (body : Option String) (m : Manager C ResumeFile)
    → m.dirty ≡ true
    → m.last_rv ≢ ""
    → save_rv (some file_store) (answered code body) m
      ≡ record m { resume = envelope m.last_rv; dirty = false }
unfolding save_rv file_store file_save
file_save_ok code body m dirty rv = ground (arith, dirty, ne→==false m.last_rv "" rv)

-- A new position survives any number of failed saves: the first save that succeeds writes it, and
-- a restarted manager loads it from the file.
pub save_all-load_rv :
    {C : Type 0} (more : ℕ) (code code_later : ℕ) (body body_later : Option String)
    (m fresh : Manager C ResumeFile)
    → m.dirty ≡ true
    → m.last_rv ≢ ""
    → let after = save_all (some file_store) (failures more (answered code body)) m in
      (after.dirty ≡ false)
      × ((load_rv
            (some file_store)
            (answered code_later body_later)
            (record fresh { resume = after.resume })).last_rv
          ≡ m.last_rv)
unfolding load_rv file_store file_load
save_all-load_rv more code code_later body body_later m fresh dirty rv =
    rw (save_all-failures more (answered code body) m dirty rv ∙ file_save_ok code body m dirty rv)
      (refl, refl)
