-- ===== src/Informer/Unread.antt =====
-- The life of a manager over the HTTP store: the load of Start, and setRV, clearRV and saveRV after it,
-- in any order.
use podwatcher.Prelude.{
  ◌≤◌, ◌<◌, String, ◌≡◌, ◌≢◌, ◌⊎◌, ◌↔◌, true, false, none, some, List, [], ◌∷◌,
}
use podwatcher.Resume.{Reply, failed, answered, HttpStore, new_http_store, http_store}
use podwatcher.Handler.{Handler}
use podwatcher.Informer.Manager.{Manager, set_rv, clear_rv}
use podwatcher.Informer.Checkpoint.{save_rv}
use podwatcher.Informer.Lifecycle.{Poll, new_manager, start_manager}

-- What happens to the position: an event moves it, a watch that is gone clears it, or it is saved.
pub data Move : Type 0 where
  advance : String → Move
  reset : Move
  checkpoint : Reply → Move

unfoldable pub move : {C : Type 0} → Move → Manager C HttpStore → Manager C HttpStore
unfolding set_rv clear_rv save_rv
move (advance rv) m = set_rv rv m
move reset m = clear_rv m
move (checkpoint reply) m = save_rv (some http_store) reply m

unfoldable pub run_moves : {C : Type 0} → List Move → Manager C HttpStore → Manager C HttpStore
unfolding move
run_moves [] m = m
run_moves (x ∷ moves) m = run_moves moves (move x m)

-- the manager of a process that has started, and then made the moves
unfoldable pub run_process :
    {C : Type 0} → Handler → C → Reply → List Poll → List Move → Manager C HttpStore
unfolding start_manager new_manager new_http_store run_moves
run_process handler cache reply polls moves =
    run_moves moves
      (start_manager (some http_store) reply polls (new_manager handler cache new_http_store)).0

-- The load was told that there is no checkpoint, or got one; or neither.
abbrev pub IsRead : Reply → Type 0
IsRead failed = ⊥
IsRead (answered code none) = code ≡ 404
IsRead (answered code (some rv)) = (code ≡ 404) ⊎ (code ≡ 200)

-- a PUT is accepted
abbrev pub IsAccepted : Reply → Type 0
IsAccepted failed = ⊥
IsAccepted (answered code body) = (200 ≤ code) × (code < 300)

-- A save of a position that is there and was moved sends it, and it stays to be saved until the PUT is
-- accepted; another save sends nothing.
abbrev pub Saves : {C : Type 0} → Reply → (m saved : Manager C HttpStore) → Type 0
Saves reply m saved =
    ((m.dirty ≡ true)
      × (m.last_rv ≢ "")
      × (saved.resume.puts ≡ m.last_rv ∷ m.resume.puts)
      × ((saved.dirty ≡ false) ↔ IsAccepted reply))
    ⊎ (((m.dirty ≡ false) ⊎ (m.last_rv ≡ ""))
        × (saved.resume.puts ≡ m.resume.puts)
        × (saved.dirty ≡ false))
