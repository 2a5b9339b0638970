-- ===== src/Runtime/Hazards.antt =====
-- Two ways in which the hub stops to react to a shutdown.
use mavlink_hub.Base.{◌≡◌, Bool, true, false, List, arith}
use mavlink_hub.Runtime.State.{joining_ui, sig_woken, Threads, Process, alive, terminated}
use mavlink_hub.Runtime.Threads.{
  worker_at, is_absent, main_at, ui_at, sigwait_at, sigwait_int_at, sigwait_woken_at,
}
use mavlink_hub.Runtime.Actions.{
  Action, main_moves, ui_moves, sigwait_moves, sigwait_interrupts, sigwait_wakes, worker_moves,
  spurious, user_quits, user_executes, ui_throws, term_signal, int_signal, usr1_signal, in_routine,
  step, Reach, Trace, AllOf, After, Survives, Trace-Survives,
}
use mavlink_hub.Runtime.Invariant.{Inv, Reach-Inv}
use mavlink_hub.Runtime.Places.{implies}
use mavlink_hub.Runtime.Safe.{is_ui_created}
use mavlink_hub.Runtime.Shutdown.{in_wait}

-- Anything but that the user leaves the interface or that the routine throws.
abbrev pub user_stays : Action → Bool
user_stays user_quits = false
user_stays ui_throws = false
user_stays a = true

-- The main thread joins a UI thread that nobody has told to end.
record Missed (t : Threads) : Type 0 where
  joins : t.main ≡ joining_ui
  routine : in_routine t.ui ≡ true
  unserved : implies (is_ui_created t.ui) (is_absent t.worker) ≡ true
  untold : t.exit_posted ≡ false
  masked : t.blocked ≡ true

step-Missed :
    (a : Action) (t : Threads) → user_stays a ≡ true → Missed t → After (Survives Missed) (step a t)
unfolding step main_at ui_at sigwait_at sigwait_int_at sigwait_woken_at worker_at
step-Missed main_moves t i m = ground arith
step-Missed ui_moves t i m = ground arith
step-Missed sigwait_moves t i m = ground arith
step-Missed sigwait_interrupts t i m = ground arith
step-Missed sigwait_wakes t i m = ground arith
step-Missed worker_moves t i m = ground arith
step-Missed spurious t i m = ground arith
step-Missed user_quits t i m = ground arith
step-Missed user_executes t i m = ground arith
step-Missed ui_throws t i m = ground arith
step-Missed term_signal t i m = ground arith
step-Missed int_signal t i m = ground arith
step-Missed usr1_signal t i m = ground arith

-- The sigwait thread has ended without a request, and nobody else has made one.
record Deaf (t : Threads) : Type 0 where
  waits : in_wait t.main ≡ true
  routine : in_routine t.ui ≡ true
  unserved : implies (is_ui_created t.ui) (is_absent t.worker) ≡ true
  untold : t.exit_posted ≡ false
  unasked : t.requested ≡ false
  woken : t.sigwait ≡ sig_woken
  masked : t.blocked ≡ true

step-Deaf :
    (a : Action) (t : Threads) → user_stays a ≡ true → Deaf t → After (Survives Deaf) (step a t)
unfolding step main_at ui_at sigwait_at sigwait_int_at sigwait_woken_at worker_at
step-Deaf main_moves t i m = ground arith
step-Deaf ui_moves t i m = ground arith
step-Deaf sigwait_moves t i m = ground arith
step-Deaf sigwait_interrupts t i m = ground arith
step-Deaf sigwait_wakes t i m = ground arith
step-Deaf worker_moves t i m = ground arith
step-Deaf spurious t i m = ground arith
step-Deaf user_quits t i m = ground arith
step-Deaf user_executes t i m = ground arith
step-Deaf ui_throws t i m = ground arith
step-Deaf term_signal t i m = ground arith
step-Deaf int_signal t i m = ground arith
step-Deaf usr1_signal t i m = ground arith

Survives-map :
    (P Q : Threads → Type 0)
    → ((t : Threads) → P t → Q t)
    → (p : Process) → Survives P p
    → Survives Q p
Survives-map P Q f terminated h = h
Survives-map P Q f (alive t) h = f t h

-- A shutdown whose `App::Active()` test came before the event loop was entered never ends by itself:
-- from every reachable state in which the main thread joins a UI thread that is still in its routine
-- and was not told to end, whatever the threads do and whatever signals arrive, the main thread
-- stays in that join and the process alive, unless the user leaves the interface or its routine
-- throws.
pub exit_missed :
    (t : Threads) (actions : List Action) (p : Process)
    → Reach t
    → t.main ≡ joining_ui
    → in_routine t.ui ≡ true
    → t.exit_posted ≡ false
    → Trace actions t p
    → AllOf user_stays actions
    → Survives (λ u. u.main ≡ joining_ui) p
exit_missed t actions p r m i n run all =
    Survives-map Missed (λ u. u.main ≡ joining_ui) (λ u h. h.joins) p
      (Trace-Survives Missed user_stays step-Missed t actions p (missed (Reach-Inv t r)) run all)
  where
    missed : Inv t → Missed t
    missed v = ground arith

-- A SIGUSR1 that the sigwait thread takes while the main thread waits makes the hub deaf: in every
-- reachable state in which that thread has ended so, the main thread waits and the UI thread is in
-- its routine, whatever the threads do and whatever signals arrive, SIGINT and SIGTERM included, the
-- main thread stays in the wait and the process alive, unless the user leaves the interface or its
-- routine throws.
pub stray_wake_deafens :
    (t : Threads) (actions : List Action) (p : Process)
    → Reach t
    → t.sigwait ≡ sig_woken
    → in_wait t.main ≡ true
    → in_routine t.ui ≡ true
    → Trace actions t p
    → AllOf user_stays actions
    → Survives (λ u. in_wait u.main ≡ true) p
stray_wake_deafens t actions p r w m i run all =
    Survives-map Deaf (λ u. in_wait u.main ≡ true) (λ u h. h.waits) p
      (Trace-Survives Deaf user_stays step-Deaf t actions p (deaf (Reach-Inv t r)) run all)
  where
    deaf : Inv t → Deaf t
    deaf v = ground arith
