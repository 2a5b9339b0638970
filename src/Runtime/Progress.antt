-- ===== src/Runtime/Progress.antt =====
-- How a requested shutdown ends.
use mavlink_hub.Base.{◌≡◌, refl, Bool, true, false, ◌||◌, ◌&&◌, not, none, arith}
use mavlink_hub.Runtime.State.{
  WorkerPc, MainPc, starting_signals, starting_cli, checking, asleep, stopping_cli, testing_redraw,
  redrawing, joining_worker, testing_active, exiting, joining_ui, waking, joining_sigwait, draining,
  restoring, returned, UiPc, ui_absent, ui_looping, ui_finished, SigwaitPc, sig_absent, sig_waiting,
  sig_finished, sig_woken, Threads,
}
use mavlink_hub.Runtime.Threads.{
  worker_at, is_absent, main_at, ui_at, sigwait_at, sigwait_int_at, sigwait_woken_at,
}
use mavlink_hub.Runtime.Actions.{
  Action, main_moves, ui_moves, sigwait_moves, sigwait_interrupts, sigwait_wakes, worker_moves,
  is_internal, step,
}
use mavlink_hub.Runtime.Invariant.{Inv}

-- None of the hub's own threads can move.
abbrev pub AtRest : Threads → Type 0
AtRest t = (a : Action) → is_internal a ≡ true → step a t ≡ none

abbrev pub is_returned : MainPc → Bool
is_returned returned = true
is_returned pc = false

abbrev is_hanging : MainPc → UiPc → Bool
is_hanging joining_ui ui_looping = true
is_hanging pc ui = false

-- `run` has returned, or the main thread joins a UI thread that is in its event loop, which nobody has
-- told to end.
abbrev pub is_over : Threads → Bool
is_over t = is_returned t.main || is_hanging t.main t.ui && not t.exit_posted

abbrev ui_rests : UiPc → Bool → Bool
ui_rests ui_absent posted = true
ui_rests ui_looping posted = not posted
ui_rests ui_finished posted = true
ui_rests pc posted = false

abbrev sigwait_rests : SigwaitPc → Bool → Bool
sigwait_rests sig_absent pending = true
sigwait_rests sig_waiting pending = not pending
sigwait_rests sig_finished pending = true
sigwait_rests sig_woken pending = true
sigwait_rests pc pending = false

ui_at-none : (t : Threads) → ui_at t.ui t ≡ none → ui_rests t.ui t.exit_posted ≡ true
unfolding ui_at
ui_at-none t e = ground arith

sigwait_at-none :
    (t : Threads)
    → sigwait_at t.sigwait t ≡ none
    → sigwait_int_at t.sigwait t ≡ none
    → sigwait_woken_at t.sigwait t ≡ none
    → sigwait_rests t.sigwait (t.int_pending || t.term_pending || t.wake_pending) ≡ true
unfolding sigwait_at sigwait_int_at sigwait_woken_at
sigwait_at-none t e i w = ground arith

worker_at-none : (pc : WorkerPc) (t : Threads) → worker_at pc t ≡ none → is_absent pc ≡ true
unfolding worker_at
worker_at-none pc t e = ground arith

main_at-none :
    (pc : MainPc) (t : Threads)
    → t.main ≡ pc
    → main_at pc t ≡ none
    → ui_rests t.ui t.exit_posted ≡ true
    → sigwait_rests t.sigwait (t.int_pending || t.term_pending || t.wake_pending) ≡ true
    → is_absent t.worker ≡ true
    → t.requested ≡ true
    → Inv t
    → is_over t ≡ true
unfolding main_at
main_at-none starting_signals t m e ui sig x q v = ground arith
main_at-none starting_cli t m e ui sig x q v = ground arith
main_at-none checking t m e ui sig x q v = ground arith
main_at-none asleep t m e ui sig x q v = ground arith
main_at-none stopping_cli t m e ui sig x q v = ground arith
main_at-none testing_redraw t m e ui sig x q v = ground arith
main_at-none redrawing t m e ui sig x q v = ground arith
main_at-none joining_worker t m e ui sig x q v = ground arith
main_at-none testing_active t m e ui sig x q v = ground arith
main_at-none exiting t m e ui sig x q v = ground arith
main_at-none joining_ui t m e ui sig x q v = ground arith
main_at-none waking t m e ui sig x q v = ground arith
main_at-none joining_sigwait t m e ui sig x q v = ground arith
main_at-none draining t m e ui sig x q v = ground arith
main_at-none restoring t m e ui sig x q v = ground arith
main_at-none returned t m e ui sig x q v = ground arith

pub AtRest-is_over : (t : Threads) → Inv t → t.requested ≡ true → AtRest t → is_over t ≡ true
unfolding step
AtRest-is_over t v q rest =
    main_at-none t.main t refl (rest main_moves refl) (ui_at-none t (rest ui_moves refl))
      (sigwait_at-none t (rest sigwait_moves refl) (rest sigwait_interrupts refl)
        (rest sigwait_wakes refl))
      (worker_at-none t.worker t (rest worker_moves refl)) q v
