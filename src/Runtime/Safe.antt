-- ===== src/Runtime/Safe.antt =====
-- What keeps a requested shutdown on its way, whichever thread of the hub moves.
use mavlink_hub.Base.{◌≡◌, refl, Bool, true, false, ◌||◌, ◌&&◌, not, Option, none, some, arith}
use mavlink_hub.Runtime.State.{
  WorkerPc, work_absent, MainPc, starting_signals, starting_cli, checking, asleep, stopping_cli,
  testing_redraw, redrawing, joining_worker, testing_active, exiting, joining_ui, waking,
  joining_sigwait, draining, restoring, returned, UiPc, ui_created, ui_looping, SigwaitPc,
  sig_waiting, Threads, Process, alive, terminated,
}
use mavlink_hub.Runtime.Threads.{
  worker_at, is_executing, is_absent, main_at, ui_at, sigwait_at, sigwait_int_at, sigwait_woken_at,
  is_active, ui_joinable, sigwait_joinable,
}
use mavlink_hub.Runtime.Actions.{
  Action, main_moves, ui_moves, sigwait_moves, sigwait_interrupts, sigwait_wakes, worker_moves,
  is_internal, step, Survives, After, if-After,
}
use mavlink_hub.Runtime.Invariant.{Inv, step-Inv}
use mavlink_hub.Runtime.Places.{implies, has_started_cli}

abbrev pub is_ui_created : UiPc → Bool
is_ui_created ui_created = true
is_ui_created pc = false

-- The main thread is about to call a method on `App::Active()`.
abbrev calls_active : MainPc → Bool
calls_active redrawing = true
calls_active exiting = true
calls_active pc = false

abbrev is_joining_ui : MainPc → Bool
is_joining_ui joining_ui = true
is_joining_ui pc = false

abbrev is_restoring : MainPc → Bool
is_restoring restoring = true
is_restoring pc = false

-- What the rest of the shutdown relies on; `missed` allows that the event loop is not entered yet, and
-- that the test of `App::Active()` comes too early for it.
pub record Safe (missed : Bool) (t : Threads) : Type 0 where
  pub requested : t.requested ≡ true
  pub started : has_started_cli t.main ≡ true
  pub created : implies (is_ui_created t.ui) missed ≡ true
  pub unserved : is_absent t.worker ≡ true
  pub undisturbed : t.usr1_pending ≡ false
  pub callable : implies (calls_active t.main) (is_active t.ui) ≡ true
  pub told : missed || implies (is_joining_ui t.main && is_active t.ui) t.exit_posted ≡ true
  pub drained : implies (is_restoring t.main) (not (t.int_pending || t.term_pending)) ≡ true

abbrev IsSafe : Bool → Process → Type 0
IsSafe missed = Survives (Safe missed)

abbrev pub Sound : Bool → Threads → Type 0
Sound missed t = Inv t × Safe missed t

main_at-IsSafe :
    (missed : Bool) (pc : MainPc) (t : Threads)
    → t.main ≡ pc
    → Inv t
    → Safe missed t
    → After (IsSafe missed) (main_at pc t)
unfolding main_at
main_at-IsSafe missed starting_signals t e v s = ground arith
main_at-IsSafe missed starting_cli t e v s = ground arith
main_at-IsSafe missed checking t e v s =
    if-After (IsSafe missed) t.requested _ _ (λ h. ground arith) (λ h. ground arith)
main_at-IsSafe missed asleep t e v s = ground arith
main_at-IsSafe missed stopping_cli t e v s =
    if-After (IsSafe missed) (is_executing t.worker) _ _ (λ h. ground arith) (λ h. ground arith)
main_at-IsSafe missed testing_redraw t e v s =
    if-After (IsSafe missed) (is_active t.ui) _ _ (λ h. ground arith) (λ h. ground arith)
main_at-IsSafe missed redrawing t e v s =
    if-After (IsSafe missed) (is_active t.ui) _ _ (λ h. ground arith) (λ h. ground arith)
main_at-IsSafe missed joining_worker t e v s =
    if-After (IsSafe missed) (is_absent t.worker) _ _ (λ h. ground arith) (λ h. tt)
main_at-IsSafe missed testing_active t e v s =
    if-After (IsSafe missed) (is_active t.ui) _ _ (λ h. ground arith) (λ h. ground arith)
main_at-IsSafe missed exiting t e v s =
    if-After (IsSafe missed) (is_active t.ui) _ _ (λ h. ground arith) (λ h. ground arith)
main_at-IsSafe missed joining_ui t e v s =
    if-After (IsSafe missed) (ui_joinable t.ui) _ _ (λ h. ground arith) (λ h. ground arith)
main_at-IsSafe missed waking t e v s = ground arith
main_at-IsSafe missed joining_sigwait t e v s =
    if-After (IsSafe missed) (sigwait_joinable t.sigwait) _ _ (λ h. ground arith)
      (λ h. ground arith)
main_at-IsSafe missed draining t e v s = ground arith
main_at-IsSafe missed restoring t e v s =
    if-After (IsSafe missed) (t.int_pending || t.term_pending || t.usr1_pending) _ _
      (λ h. ground arith) (λ h. ground arith)
main_at-IsSafe missed returned t e v s = ground arith

ui_at-IsSafe :
    (missed : Bool) (pc : UiPc) (t : Threads)
    → t.ui ≡ pc
    → Inv t
    → Safe missed t
    → After (IsSafe missed) (ui_at pc t)
unfolding ui_at
ui_at-IsSafe missed ui_looping t e v s =
    if-After (IsSafe missed) t.exit_posted _ _ (λ h. ground arith) (λ h. tt)
ui_at-IsSafe missed pc t e v s = ground arith

sigwait_at-IsSafe :
    (missed : Bool) (pc : SigwaitPc) (t : Threads)
    → t.sigwait ≡ pc
    → Inv t
    → Safe missed t
    → After (IsSafe missed) (sigwait_at pc t)
unfolding sigwait_at
sigwait_at-IsSafe missed sig_waiting t e v s =
    if-After (IsSafe missed) t.term_pending _ _ (λ h. ground arith) (λ h. tt)
sigwait_at-IsSafe missed pc t e v s = ground arith

sigwait_int_at-IsSafe :
    (missed : Bool) (pc : SigwaitPc) (t : Threads)
    → t.sigwait ≡ pc
    → Inv t
    → Safe missed t
    → After (IsSafe missed) (sigwait_int_at pc t)
unfolding sigwait_int_at
sigwait_int_at-IsSafe missed sig_waiting t e v s =
    if-After (IsSafe missed) t.int_pending _ _ (λ h. ground arith) (λ h. tt)
sigwait_int_at-IsSafe missed pc t e v s = tt

sigwait_woken_at-IsSafe :
    (missed : Bool) (pc : SigwaitPc) (t : Threads)
    → t.sigwait ≡ pc
    → Inv t
    → Safe missed t
    → After (IsSafe missed) (sigwait_woken_at pc t)
unfolding sigwait_woken_at
sigwait_woken_at-IsSafe missed sig_waiting t e v s =
    if-After (IsSafe missed) t.wake_pending _ _ (λ h. ground arith) (λ h. ground arith)
sigwait_woken_at-IsSafe missed pc t e v s = tt

worker_at-IsSafe :
    (missed : Bool) (pc : WorkerPc) (t : Threads)
    → t.worker ≡ pc
    → Inv t
    → Safe missed t
    → After (IsSafe missed) (worker_at pc t)
unfolding worker_at
worker_at-IsSafe missed work_absent t e v s = tt
worker_at-IsSafe missed pc t e v s = absurd (ground arith)

step-IsSafe :
    (missed : Bool) (a : Action) (t : Threads)
    → is_internal a ≡ true
    → Inv t
    → Safe missed t
    → After (IsSafe missed) (step a t)
unfolding step
step-IsSafe missed main_moves t i v s = main_at-IsSafe missed t.main t refl v s
step-IsSafe missed ui_moves t i v s = ui_at-IsSafe missed t.ui t refl v s
step-IsSafe missed sigwait_moves t i v s = sigwait_at-IsSafe missed t.sigwait t refl v s
step-IsSafe missed sigwait_interrupts t i v s = sigwait_int_at-IsSafe missed t.sigwait t refl v s
step-IsSafe missed sigwait_wakes t i v s = sigwait_woken_at-IsSafe missed t.sigwait t refl v s
step-IsSafe missed worker_moves t i v s = worker_at-IsSafe missed t.worker t refl v s
step-IsSafe missed a t i v s = ground arith

pub step-Sound :
    (missed : Bool) (a : Action) (t : Threads)
    → is_internal a ≡ true
    → Sound missed t
    → After (Survives (Sound missed)) (step a t)
step-Sound missed a t i h = both (step a t) refl (step-IsSafe missed a t i h.0 h.1)
  where
    both :
        (o : Option Process)
        → step a t ≡ o
        → After (IsSafe missed) o
        → After (Survives (Sound missed)) o
    both none e s = tt
    both (some terminated) e s = elim s [ ]
    both (some (alive u)) e s = (step-Inv a t u e h.0, s)
