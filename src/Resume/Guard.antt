-- ===== src/Resume/Guard.antt =====
-- The HTTP store's guard: nothing is written over a checkpoint that was never read.
use podwatcher.Prelude.{
  String, ◌≡◌, refl, Bool, true, false, none, some, List, [], ◌∷◌, ◌∙◌, arith, is_some, ◌&&◌, ◌||◌,
}
use podwatcher.Resume.{
  Reply, HttpStore, http_load, http_save, mark_baseline, is_code, failed, answered, decoded,
}

-- One call of the store, and what it meets.
pub data Call : Type 0 where
  load_call : Reply → Call
  save_call : Reply → String → Call

unfoldable pub call : Call → HttpStore → HttpStore
unfolding http_load http_save
call (load_call reply) s = (http_load reply s).0
call (save_call reply rv) s = (http_save reply rv s).0

unfoldable pub run_calls : List Call → HttpStore → HttpStore
unfolding call
run_calls [] s = s
run_calls (c ∷ cs) s = run_calls cs (call c s)

-- a load that reads an envelope, or is told that there is none
abbrev pub is_answer : Reply → Bool
is_answer failed = false
is_answer (answered code body) = is_code code 404 || is_code code 200 && is_some body

unfoldable pub has_baseline : List Call → Bool
has_baseline [] = false
has_baseline (load_call reply ∷ cs) = is_answer reply || has_baseline cs
has_baseline (save_call reply rv ∷ cs) = has_baseline cs

http_load-baseline :
    (reply : Reply) (s : HttpStore)
    → ((http_load reply s).0.puts ≡ s.puts)
      × ((http_load reply s).0.baseline ≡ (s.baseline || is_answer reply))
unfolding http_load decoded mark_baseline
http_load-baseline failed s = ground arith
http_load-baseline (answered code none) s = ground arith
http_load-baseline (answered code (some rv)) s = ground arith

-- The store writes only after a load has read the checkpoint or has been told that there is none:
-- without such a load among the calls, a store whose guard is up sends no position, and the guard
-- stays up.
pub run_calls-guarded :
    (cs : List Call) (s : HttpStore)
    → s.baseline ≡ false
    → has_baseline cs ≡ false
    → ((run_calls cs s).puts ≡ s.puts) × ((run_calls cs s).baseline ≡ false)
unfolding run_calls has_baseline http_save
run_calls-guarded [] s up no_load = (refl, up)
run_calls-guarded (load_call reply ∷ cs) s up no_load =
    let next = (http_load reply s).0 in
    let (puts, baseline) = http_load-baseline reply s in
    let (rest, still) = run_calls-guarded cs next (ground (arith, baseline)) (ground arith) in
    (rest ∙ puts, still)
run_calls-guarded (save_call reply rv ∷ cs) s up no_load =
    let (puts, baseline) : ((http_save reply rv s).0.puts ≡ s.puts)
        × ((http_save reply rv s).0.baseline ≡ false) =
      ground (arith, up) in
    let (rest, still) = run_calls-guarded cs (http_save reply rv s).0 baseline no_load in
    (rest ∙ puts, still)

-- Once the guard is down, it stays down, and each save sends its position.
pub call-unguarded :
    (c : Call) (s : HttpStore)
    → s.baseline ≡ true
    → ((call c s).baseline ≡ true)
      × ((call c s).puts ≡ elim c [ load_call reply ↦ s.puts | save_call reply rv ↦ rv ∷ s.puts ])
unfolding call http_save
call-unguarded (load_call reply) s down = ground (arith, http_load-baseline reply s)
call-unguarded (save_call reply rv) s down = ground (arith, down)
