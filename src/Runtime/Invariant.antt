-- ===== src/Runtime/Invariant.antt =====
-- What holds in every reachable state of the threads.
use mavlink_hub.Base.{◌≡◌, refl, true, ◌||◌, ◌&&◌, not, some, arith}
use mavlink_hub.Runtime.State.{
  WorkerPc, work_absent, work_serving, work_testing, work_posting, MainPc, starting_signals,
  starting_cli, checking, asleep, stopping_cli, testing_redraw, redrawing, joining_worker,
  testing_active, exiting, joining_ui, waking, joining_sigwait, draining, restoring, returned, UiPc,
  ui_absent, ui_created, ui_looping, ui_leaving, ui_notifying, ui_finished, SigwaitPc, sig_absent,
  sig_waiting, sig_received, sig_notifying, sig_finished, sig_woken, Threads, Process, alive,
  terminated, booted,
}
use mavlink_hub.Runtime.Threads.{
  worker_at, is_executing, is_absent, main_at, ui_at, sigwait_at, sigwait_int_at, sigwait_woken_at,
  is_active, ui_joinable, sigwait_joinable,
}
use mavlink_hub.Runtime.Actions.{
  Action, in_routine, is_asleep, main_moves, ui_moves, sigwait_moves, sigwait_interrupts,
  sigwait_wakes, worker_moves, spurious, user_quits, user_executes, ui_throws, term_signal,
  int_signal, usr1_signal, step, Reach, start, later, After, if-After, after,
}
use mavlink_hub.Runtime.Places.{
  ui_requested, sigwait_requested, notifying, has_started_signals, has_started_cli, has_waited,
  has_joined_ui, has_joined_sigwait, has_exited, has_looped, is_returned, is_joining_sigwait,
  is_waiting, is_ui_absent, is_sigwait_absent, implies,
}

pub record Inv (t : Threads) : Type 0 where
  -- who has set the flag
  pub flag : t.requested ≡ (ui_requested t.ui || sigwait_requested t.sigwait)
  -- no wake-up is lost: asleep with the flag set, the main thread is about to be notified
  pub awake : implies (is_asleep t.main && t.requested) (notifying t.ui t.sigwait) ≡ true
  pub waited : implies (has_waited t.main) t.requested ≡ true
  -- the signals are blocked from the start of the handler until `run` returns
  pub masked : t.blocked ≡ (has_started_signals t.main && not (is_returned t.main))
  pub created : is_ui_absent t.ui ≡ not (has_started_cli t.main)
  pub awaited : is_sigwait_absent t.sigwait ≡ not (has_started_signals t.main)
  -- only the main thread tells the event loop to end
  pub posted : implies t.exit_posted (has_exited t.main) ≡ true
  -- the main thread does not join a sigwait thread that it has not woken
  pub woken : implies (is_joining_sigwait t.main && is_waiting t.sigwait) t.wake_pending ≡ true
  -- commands come from the event loop
  pub served : implies (not (is_absent t.worker)) (has_looped t.ui) ≡ true
  pub joined_ui : implies (has_joined_ui t.main) (ui_joinable t.ui) ≡ true
  pub joined_sigwait : implies (has_joined_sigwait t.main) (sigwait_joinable t.sigwait) ≡ true

Inv-booted : Inv booted
Inv-booted = ground arith

-- The invariant of a process that is alive.
abbrev Holds : Process → Type 0
Holds terminated = Unit {0}
Holds (alive t) = Inv t

main_at-Holds : (pc : MainPc) (t : Threads) → t.main ≡ pc → Inv t → After Holds (main_at pc t)
unfolding main_at
main_at-Holds starting_signals t e v = ground arith
main_at-Holds starting_cli t e v = ground arith
main_at-Holds checking t e v =
    if-After Holds t.requested _ _ (λ h. ground arith) (λ h. ground arith)
main_at-Holds asleep t e v = tt
main_at-Holds stopping_cli t e v =
    if-After Holds (is_executing t.worker) _ _ (λ h. ground arith) (λ h. ground arith)
main_at-Holds testing_redraw t e v =
    if-After Holds (is_active t.ui) _ _ (λ h. ground arith) (λ h. ground arith)
main_at-Holds redrawing t e v = if-After Holds (is_active t.ui) _ _ (λ h. ground arith) (λ h. tt)
main_at-Holds joining_worker t e v =
    if-After Holds (is_absent t.worker) _ _ (λ h. ground arith) (λ h. tt)
main_at-Holds testing_active t e v =
    if-After Holds (is_active t.ui) _ _ (λ h. ground arith) (λ h. ground arith)
main_at-Holds exiting t e v = if-After Holds (is_active t.ui) _ _ (λ h. ground arith) (λ h. tt)
main_at-Holds joining_ui t e v = if-After Holds (ui_joinable t.ui) _ _ (λ h. ground arith) (λ h. tt)
main_at-Holds waking t e v = ground arith
main_at-Holds joining_sigwait t e v =
    if-After Holds (sigwait_joinable t.sigwait) _ _ (λ h. ground arith) (λ h. tt)
main_at-Holds draining t e v = ground arith
main_at-Holds restoring t e v =
    if-After Holds (t.int_pending || t.term_pending || t.usr1_pending) _ _ (λ h. tt)
      (λ h. ground arith)
main_at-Holds returned t e v = tt

ui_at-Holds : (pc : UiPc) (t : Threads) → t.ui ≡ pc → Inv t → After Holds (ui_at pc t)
unfolding ui_at
ui_at-Holds ui_absent t e v = tt
ui_at-Holds ui_created t e v = ground arith
ui_at-Holds ui_looping t e v = if-After Holds t.exit_posted _ _ (λ h. ground arith) (λ h. tt)
ui_at-Holds ui_leaving t e v = ground arith
ui_at-Holds ui_notifying t e v = ground arith
ui_at-Holds ui_finished t e v = tt

sigwait_at-Holds :
    (pc : SigwaitPc) (t : Threads) → t.sigwait ≡ pc → Inv t → After Holds (sigwait_at pc t)
unfolding sigwait_at
sigwait_at-Holds sig_absent t e v = tt
sigwait_at-Holds sig_waiting t e v = if-After Holds t.term_pending _ _ (λ h. ground arith) (λ h. tt)
sigwait_at-Holds sig_received t e v = ground arith
sigwait_at-Holds sig_notifying t e v = ground arith
sigwait_at-Holds sig_finished t e v = tt
sigwait_at-Holds sig_woken t e v = tt

sigwait_int_at-Holds :
    (pc : SigwaitPc) (t : Threads) → t.sigwait ≡ pc → Inv t → After Holds (sigwait_int_at pc t)
unfolding sigwait_int_at
sigwait_int_at-Holds sig_waiting t e v =
    if-After Holds t.int_pending _ _ (λ h. ground arith) (λ h. tt)
sigwait_int_at-Holds pc t e v = tt

sigwait_woken_at-Holds :
    (pc : SigwaitPc) (t : Threads) → t.sigwait ≡ pc → Inv t → After Holds (sigwait_woken_at pc t)
unfolding sigwait_woken_at
sigwait_woken_at-Holds sig_waiting t e v =
    if-After Holds t.wake_pending _ _ (λ h. ground arith)
      (λ h. if-After Holds t.usr1_pending _ _ (λ i. ground arith) (λ i. tt))
sigwait_woken_at-Holds pc t e v = tt

worker_at-Holds :
    (pc : WorkerPc) (t : Threads) → t.worker ≡ pc → Inv t → After Holds (worker_at pc t)
unfolding worker_at
worker_at-Holds work_absent t e v = tt
worker_at-Holds work_serving t e v = ground arith
worker_at-Holds work_testing t e v =
    if-After Holds (is_active t.ui) _ _ (λ h. ground arith) (λ h. ground arith)
worker_at-Holds work_posting t e v =
    if-After Holds (is_active t.ui) _ _ (λ h. ground arith) (λ h. tt)

step-Holds : (a : Action) (t : Threads) → Inv t → After Holds (step a t)
unfolding step
step-Holds main_moves t v = main_at-Holds t.main t refl v
step-Holds ui_moves t v = ui_at-Holds t.ui t refl v
step-Holds sigwait_moves t v = sigwait_at-Holds t.sigwait t refl v
step-Holds sigwait_interrupts t v = sigwait_int_at-Holds t.sigwait t refl v
step-Holds sigwait_wakes t v = sigwait_woken_at-Holds t.sigwait t refl v
step-Holds worker_moves t v = worker_at-Holds t.worker t refl v
step-Holds spurious t v = if-After Holds (is_asleep t.main) _ _ (λ h. ground arith) (λ h. tt)
step-Holds user_quits t v = if-After Holds (is_active t.ui) _ _ (λ h. ground arith) (λ h. tt)
step-Holds user_executes t v =
    if-After Holds (is_active t.ui && is_absent t.worker) _ _ (λ h. ground arith) (λ h. tt)
step-Holds ui_throws t v = if-After Holds (in_routine t.ui) _ _ (λ h. tt) (λ h. tt)
step-Holds term_signal t v = if-After Holds t.blocked _ _ (λ h. ground arith) (λ h. tt)
step-Holds int_signal t v = if-After Holds t.blocked _ _ (λ h. ground arith) (λ h. tt)
step-Holds usr1_signal t v = if-After Holds t.blocked _ _ (λ h. ground arith) (λ h. tt)

pub step-Inv : (a : Action) (t u : Threads) → step a t ≡ some (alive u) → Inv t → Inv u
step-Inv a t u e v = after Holds (step a t) (alive u) e (step-Holds a t v)

-- Every reachable state of the threads satisfies the invariant: the flag of the shutdown is set
-- exactly when the UI thread or the sigwait thread has set it; the main thread is past the wait only
-- when it is set, and is never left asleep with the flag set and no notification under way; the
-- signals are blocked from the start of the handler until `run` returns; and a thread that was
-- joined has ended.
pub Reach-Inv : (t : Threads) → Reach t → Inv t
Reach-Inv t start = Inv-booted
Reach-Inv u (later {t} r a e) = step-Inv a t u e (Reach-Inv t r)
