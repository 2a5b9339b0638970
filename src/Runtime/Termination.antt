-- ===== src/Runtime/Termination.antt =====
-- The threads of the hub by themselves come to rest, whatever their order.
use mavlink_hub.Base.{◌≡◌, refl, ℕ, ◌+◌, ◌≤◌, ◌<◌, true, ◌||◌, List, [], ◌∷◌, arith}
use mavlink_hub.Base.Length.{length}
use mavlink_hub.Runtime.State.{
  WorkerPc, work_absent, work_serving, work_testing, work_posting, MainPc, starting_signals,
  starting_cli, checking, asleep, stopping_cli, testing_redraw, redrawing, joining_worker,
  testing_active, exiting, joining_ui, waking, joining_sigwait, draining, restoring, returned, UiPc,
  ui_absent, ui_created, ui_looping, ui_leaving, ui_notifying, ui_finished, SigwaitPc, sig_absent,
  sig_waiting, sig_received, sig_notifying, sig_finished, sig_woken, Threads, Process, alive,
  terminated,
}
use mavlink_hub.Runtime.Threads.{
  worker_at, is_executing, is_absent, main_at, ui_at, sigwait_at, sigwait_int_at, sigwait_woken_at,
  is_active, ui_joinable, sigwait_joinable,
}
use mavlink_hub.Runtime.Actions.{
  Action, main_moves, ui_moves, sigwait_moves, sigwait_interrupts, sigwait_wakes, worker_moves,
  is_internal, step, Reach, later, Trace, done, dies, goes_on, AllInternal, After, if-After, after,
}
use mavlink_hub.Runtime.Invariant.{Inv, Reach-Inv}

-- How many steps each thread has left at most. A notification leaves room for the wake-up.
abbrev main_left : MainPc → ℕ
main_left starting_signals = 17
main_left starting_cli = 16
main_left checking = 15
main_left asleep = 14
main_left stopping_cli = 11
main_left testing_redraw = 10
main_left redrawing = 9
main_left joining_worker = 8
main_left testing_active = 7
main_left exiting = 6
main_left joining_ui = 5
main_left waking = 4
main_left joining_sigwait = 3
main_left draining = 2
main_left restoring = 1
main_left returned = 0

abbrev ui_left : UiPc → ℕ
ui_left ui_absent = 5
ui_left ui_created = 5
ui_left ui_looping = 4
ui_left ui_leaving = 3
ui_left ui_notifying = 2
ui_left ui_finished = 0

abbrev sigwait_left : SigwaitPc → ℕ
sigwait_left sig_absent = 4
sigwait_left sig_waiting = 4
sigwait_left sig_received = 3
sigwait_left sig_notifying = 2
sigwait_left sig_finished = 0
sigwait_left sig_woken = 0

abbrev worker_left : WorkerPc → ℕ
worker_left work_absent = 0
worker_left work_serving = 3
worker_left work_testing = 2
worker_left work_posting = 1

abbrev pub steps_left : Threads → ℕ
steps_left t = main_left t.main + ui_left t.ui + sigwait_left t.sigwait + worker_left t.worker

abbrev pub left : Process → ℕ
left terminated = 0
left (alive t) = steps_left t

abbrev pub IsLess : ℕ → Process → Type 0
IsLess n p = left p < n

main_at-IsLess :
    (pc : MainPc) (t : Threads) → t.main ≡ pc → Inv t → After (IsLess (steps_left t)) (main_at pc t)
unfolding main_at
main_at-IsLess starting_signals t e v = ground arith
main_at-IsLess starting_cli t e v = ground arith
main_at-IsLess checking t e v =
    if-After (IsLess _) t.requested _ _ (λ h. ground arith) (λ h. ground arith)
main_at-IsLess asleep t e v = tt
main_at-IsLess stopping_cli t e v =
    if-After (IsLess _) (is_executing t.worker) _ _ (λ h. ground arith) (λ h. ground arith)
main_at-IsLess testing_redraw t e v =
    if-After (IsLess _) (is_active t.ui) _ _ (λ h. ground arith) (λ h. ground arith)
main_at-IsLess redrawing t e v =
    if-After (IsLess _) (is_active t.ui) _ _ (λ h. ground arith) (λ h. ground arith)
main_at-IsLess joining_worker t e v =
    if-After (IsLess _) (is_absent t.worker) _ _ (λ h. ground arith) (λ h. tt)
main_at-IsLess testing_active t e v =
    if-After (IsLess _) (is_active t.ui) _ _ (λ h. ground arith) (λ h. ground arith)
main_at-IsLess exiting t e v =
    if-After (IsLess _) (is_active t.ui) _ _ (λ h. ground arith) (λ h. ground arith)
main_at-IsLess joining_ui t e v =
    if-After (IsLess _) (ui_joinable t.ui) _ _ (λ h. ground arith) (λ h. tt)
main_at-IsLess waking t e v = ground arith
main_at-IsLess joining_sigwait t e v =
    if-After (IsLess _) (sigwait_joinable t.sigwait) _ _ (λ h. ground arith) (λ h. tt)
main_at-IsLess draining t e v = ground arith
main_at-IsLess restoring t e v =
    if-After (IsLess _) (t.int_pending || t.term_pending || t.usr1_pending) _ _ (λ h. ground arith)
      (λ h. ground arith)
main_at-IsLess returned t e v = tt

ui_at-IsLess : (pc : UiPc) (t : Threads) → t.ui ≡ pc → After (IsLess (steps_left t)) (ui_at pc t)
unfolding ui_at
ui_at-IsLess ui_absent t e = tt
ui_at-IsLess ui_created t e = ground arith
ui_at-IsLess ui_looping t e = if-After (IsLess _) t.exit_posted _ _ (λ h. ground arith) (λ h. tt)
ui_at-IsLess ui_leaving t e = ground arith
ui_at-IsLess ui_notifying t e = ground arith
ui_at-IsLess ui_finished t e = tt

sigwait_at-IsLess :
    (pc : SigwaitPc) (t : Threads)
    → t.sigwait ≡ pc
    → After (IsLess (steps_left t)) (sigwait_at pc t)
unfolding sigwait_at
sigwait_at-IsLess sig_absent t e = tt
sigwait_at-IsLess sig_waiting t e =
    if-After (IsLess _) t.term_pending _ _ (λ h. ground arith) (λ h. tt)
sigwait_at-IsLess sig_received t e = ground arith
sigwait_at-IsLess sig_notifying t e = ground arith
sigwait_at-IsLess sig_finished t e = tt
sigwait_at-IsLess sig_woken t e = tt

sigwait_int_at-IsLess :
    (pc : SigwaitPc) (t : Threads)
    → t.sigwait ≡ pc
    → After (IsLess (steps_left t)) (sigwait_int_at pc t)
unfolding sigwait_int_at
sigwait_int_at-IsLess sig_waiting t e =
    if-After (IsLess _) t.int_pending _ _ (λ h. ground arith) (λ h. tt)
sigwait_int_at-IsLess pc t e = tt

sigwait_woken_at-IsLess :
    (pc : SigwaitPc) (t : Threads)
    → t.sigwait ≡ pc
    → After (IsLess (steps_left t)) (sigwait_woken_at pc t)
unfolding sigwait_woken_at
sigwait_woken_at-IsLess sig_waiting t e =
    if-After (IsLess _) t.wake_pending _ _ (λ h. ground arith)
      (λ h. if-After (IsLess _) t.usr1_pending _ _ (λ i. ground arith) (λ i. tt))
sigwait_woken_at-IsLess pc t e = tt

worker_at-IsLess :
    (pc : WorkerPc) (t : Threads) → t.worker ≡ pc → After (IsLess (steps_left t)) (worker_at pc t)
unfolding worker_at
worker_at-IsLess work_absent t e = tt
worker_at-IsLess work_serving t e = ground arith
worker_at-IsLess work_testing t e =
    if-After (IsLess _) (is_active t.ui) _ _ (λ h. ground arith) (λ h. ground arith)
worker_at-IsLess work_posting t e =
    if-After (IsLess _) (is_active t.ui) _ _ (λ h. ground arith) (λ h. ground arith)

pub step-IsLess :
    (a : Action) (t : Threads)
    → is_internal a ≡ true
    → Inv t
    → After (IsLess (steps_left t)) (step a t)
unfolding step
step-IsLess main_moves t i v = main_at-IsLess t.main t refl v
step-IsLess ui_moves t i v = ui_at-IsLess t.ui t refl
step-IsLess sigwait_moves t i v = sigwait_at-IsLess t.sigwait t refl
step-IsLess sigwait_interrupts t i v = sigwait_int_at-IsLess t.sigwait t refl
step-IsLess sigwait_wakes t i v = sigwait_woken_at-IsLess t.sigwait t refl
step-IsLess worker_moves t i v = worker_at-IsLess t.worker t refl
step-IsLess a t i v = ground arith

pub Trace-length :
    (t : Threads) (actions : List Action) (p : Process)
    → Trace actions t p
    → Reach t
    → AllInternal actions
    → length actions + left p ≤ steps_left t
Trace-length t actions p done r all = omega arith
Trace-length t (a ∷ []) p (dies e) r all = omega (
  arith,
  after (IsLess (steps_left t)) (step a t) terminated e (step-IsLess a t all.0 (Reach-Inv t r)),
)
Trace-length t (a ∷ actions) p (goes_on {u = u} e run) r all = omega (
  arith,
  after (IsLess (steps_left t)) (step a t) (alive u) e (step-IsLess a t all.0 (Reach-Inv t r)),
  Trace-length u actions p run (later r a e) all.1,
)

pub steps_left-bounded : (t : Threads) → steps_left t ≤ 29
steps_left-bounded t = ground arith
