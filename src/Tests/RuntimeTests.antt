-- ===== src/Tests/RuntimeTests.antt =====
-- The threads of the running hub: the theorems at concrete schedules.
use mavlink_hub.Base.{◌≡◌, refl, ◌+◌, ◌≤◌, true, false, List, [], ◌∷◌, arith}
use mavlink_hub.Base.Length.{length}
use mavlink_hub.Runtime.State.{
  work_absent, work_serving, Threads, alive, returned, joining_ui, asleep, checking, ui_looping,
  ui_created, ui_finished, sig_notifying, sig_finished, sig_woken,
}
use mavlink_hub.Runtime.Threads.{
  worker_at, main_at, ui_at, sigwait_at, sigwait_int_at, sigwait_woken_at,
}
use mavlink_hub.Runtime.Actions.{
  Action, main_moves, ui_moves, sigwait_moves, sigwait_interrupts, sigwait_wakes, worker_moves,
  spurious, user_executes, term_signal, usr1_signal, step, Reach, start, later, Trace, done,
  goes_on, Survives, AllInternal,
}
use mavlink_hub.Runtime.Invariant.{Inv, Reach-Inv}
use mavlink_hub.Runtime.Progress.{AtRest}
use mavlink_hub.Runtime.Shutdown.{waiting-Ends, Ends, waiting-Returns, Returns, in_wait}
use mavlink_hub.Runtime.Completion.{shutdown_completes}
use mavlink_hub.Runtime.Hazards.{exit_missed, stray_wake_deafens}

-- SIGTERM arrives while the hub waits and its interface is drawn.
abbrev asked : Threads
asked = record {
  main = asleep;
  ui = ui_looping;
  sigwait = sig_notifying;
  requested = true;
  worker = work_absent;
  exit_posted = false;
  blocked = true;
  int_pending = false;
  term_pending = false;
  wake_pending = false;
  usr1_pending = false;
}

asked-Reach : Reach asked
unfolding step main_at ui_at sigwait_at sigwait_int_at sigwait_woken_at worker_at
asked-Reach =
    later
      (later
        (later
          (later (later (later (later start main_moves refl) main_moves refl) main_moves refl)
            ui_moves refl)
          term_signal refl)
        sigwait_moves refl)
      sigwait_moves refl

abbrev teardown : List Action
teardown =
    sigwait_moves ∷ main_moves ∷ main_moves ∷ main_moves ∷ main_moves ∷ ui_moves ∷ ui_moves
    ∷ ui_moves ∷ main_moves ∷ main_moves ∷ main_moves ∷ main_moves ∷ main_moves ∷ []

abbrev ended : Threads
ended = record asked {
  main = returned;
  ui = ui_finished;
  sigwait = sig_finished;
  exit_posted = true;
  blocked = false;
}

teardown-Trace : Trace teardown asked (alive ended)
unfolding step main_at ui_at sigwait_at sigwait_int_at sigwait_woken_at worker_at
teardown-Trace = goes_on refl (
    goes_on refl (
      goes_on refl (
        goes_on refl (
          goes_on refl (
            goes_on refl (
              goes_on refl (
                goes_on refl (
                  goes_on refl
                    (goes_on refl (goes_on refl (goes_on refl (goes_on refl done))))))))))))

ended-AtRest : AtRest ended
unfolding step main_at ui_at sigwait_at sigwait_int_at sigwait_woken_at worker_at
ended-AtRest main_moves i = refl
ended-AtRest ui_moves i = refl
ended-AtRest sigwait_moves i = refl
ended-AtRest sigwait_interrupts i = refl
ended-AtRest sigwait_wakes i = refl
ended-AtRest worker_moves i = refl
ended-AtRest a i = ground arith

all_internal : AllInternal teardown
all_internal = (
  refl,
  (
    refl,
    (refl, (refl, (refl, (refl, (refl, (refl, (refl, (refl, (refl, (refl, (refl, tt))))))))))),
  ),
)

Reach-Inv_example : Inv asked
Reach-Inv_example = Reach-Inv asked asked-Reach

waiting-Ends_example : Ends false (alive ended)
waiting-Ends_example =
    waiting-Ends asked teardown (alive ended) asked-Reach refl refl refl refl teardown-Trace
      all_internal ended-AtRest

-- The main thread is in the join of the UI thread.
abbrev joining : Threads
joining = record asked { main = joining_ui; sigwait = sig_finished; exit_posted = true }

joining-Trace :
    Trace
      (sigwait_moves ∷ main_moves ∷ main_moves ∷ main_moves ∷ main_moves ∷ [])
      asked
      (alive joining)
unfolding step main_at ui_at sigwait_at sigwait_int_at sigwait_woken_at worker_at
joining-Trace = goes_on refl (goes_on refl (goes_on refl (goes_on refl (goes_on refl done))))

shutdown_completes_example :
    (more : List Action) × (end : Threads) × Trace more joining (alive end)
    × AllInternal more
    × (end.main ≡ returned)
    × (5 + length more ≤ 29)
shutdown_completes_example =
    shutdown_completes asked joining
      (sigwait_moves ∷ main_moves ∷ main_moves ∷ main_moves ∷ main_moves ∷ []) asked-Reach refl refl
      refl refl refl joining-Trace (refl, (refl, (refl, (refl, (refl, tt)))))

waiting-Returns_example : Returns (alive ended)
waiting-Returns_example =
    waiting-Returns asked teardown (alive ended) asked-Reach refl refl refl refl refl teardown-Trace
      all_internal ended-AtRest

-- SIGTERM arrives before the event loop is entered.
abbrev joining_early : Threads
joining_early = record asked { main = joining_ui; ui = ui_created }

joining_early-Reach : Reach joining_early
unfolding step main_at ui_at sigwait_at sigwait_int_at sigwait_woken_at worker_at
joining_early-Reach =
    later
      (later
        (later
          (later
            (later (later (later (later start main_moves refl) main_moves refl) term_signal refl)
              sigwait_moves refl)
            sigwait_moves refl)
          main_moves refl)
        main_moves refl)
      main_moves refl

abbrev hung : Threads
hung = record joining_early { ui = ui_looping; sigwait = sig_finished; term_pending = true }

hung-Trace : Trace (ui_moves ∷ sigwait_moves ∷ term_signal ∷ []) joining_early (alive hung)
unfolding step main_at ui_at sigwait_at sigwait_int_at sigwait_woken_at worker_at
hung-Trace = goes_on refl (goes_on refl (goes_on refl done))

exit_missed_example : Survives (λ u. u.main ≡ joining_ui) (alive hung)
exit_missed_example =
    exit_missed joining_early (ui_moves ∷ sigwait_moves ∷ term_signal ∷ []) (alive hung)
      joining_early-Reach refl refl refl hung-Trace (refl, (refl, (refl, tt)))

-- SIGUSR1 arrives from outside, and SIGTERM after it.
abbrev woken_early : Threads
woken_early = record asked {
  main = checking;
  ui = ui_created;
  sigwait = sig_woken;
  requested = false;
}

woken_early-Reach : Reach woken_early
unfolding step main_at ui_at sigwait_at sigwait_int_at sigwait_woken_at worker_at
woken_early-Reach =
    later (later (later (later start main_moves refl) main_moves refl) usr1_signal refl)
      sigwait_wakes refl

abbrev deaf : Threads
deaf = record woken_early {
  main = asleep;
  ui = ui_looping;
  worker = work_serving;
  term_pending = true;
}

deaf-Trace :
    Trace
      (main_moves ∷ ui_moves ∷ term_signal ∷ spurious ∷ user_executes ∷ main_moves ∷ [])
      woken_early
      (alive deaf)
unfolding step main_at ui_at sigwait_at sigwait_int_at sigwait_woken_at worker_at
deaf-Trace =
    goes_on refl (goes_on refl (goes_on refl (goes_on refl (goes_on refl (goes_on refl done)))))

stray_wake_deafens_example : Survives (λ u. in_wait u.main ≡ true) (alive deaf)
stray_wake_deafens_example =
    stray_wake_deafens woken_early
      (main_moves ∷ ui_moves ∷ term_signal ∷ spurious ∷ user_executes ∷ main_moves ∷ [])
      (alive deaf) woken_early-Reach refl refl refl deaf-Trace
      (refl, (refl, (refl, (refl, (refl, (refl, tt))))))
