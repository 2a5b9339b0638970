-- ===== src/Runtime/State.antt =====
-- Where the threads of the hub stand, and what they share.
use mavlink_hub.Base.{Bool, false}

-- The main thread, in `App::run` of src/app/App.cpp after the configuration.
pub data MainPc : Type 0 where
  -- before `signal_handler->start()`
  starting_signals : MainPc
  -- before `cli_handler.start()`
  starting_cli : MainPc
  -- `waitForShutdownSignal`: before the test of the predicate, and asleep in `cv.wait`
  checking asleep : MainPc
  -- `CliUiHandler::stop`: before the test of `executing()`; before the test of `App::Active()`, and
  -- before the call on it, for the redraw; in `joinExecution`; before the test and the call for the
  -- exit; and in the join of the UI thread
  stopping_cli testing_redraw redrawing joining_worker testing_active exiting joining_ui : MainPc
  -- `SignalHandler::stop`: before `pthread_kill`, in the join, before the drain, and before the mask
  -- is restored
  waking joining_sigwait draining restoring : MainPc
  -- `run` has returned
  returned : MainPc

-- The UI thread: not created, before the event loop, in it, and at the destructor of CliRoutine,
-- before the flag is set and before the waiters are notified.
pub data UiPc : Type 0 where
  ui_absent ui_created ui_looping ui_leaving ui_notifying ui_finished : UiPc

-- The sigwait thread: in `sigwait`, and in `requestShutdown`. It ends in two ways.
pub data SigwaitPc : Type 0 where
  sig_absent sig_waiting sig_received sig_notifying sig_finished sig_woken : SigwaitPc

-- The worker thread of src/app/ui_handler/CliUiController.cpp: in the service, with `executing` set;
-- then, in the callback of CliUiHandler.cpp, before the test of `App::Active()` and before the call on
-- it. A thread that has ended is absent.
pub data WorkerPc : Type 0 where
  work_absent work_serving work_testing work_posting : WorkerPc

pub record Threads : Type 0 where
  pub main : MainPc
  pub ui : UiPc
  pub sigwait : SigwaitPc
  -- `shutdown_requested`
  pub requested : Bool
  pub worker : WorkerPc
  -- the UI loop has been told to end by `App::Exit`
  pub exit_posted : Bool
  -- the signals are blocked in the main thread and in those that it created
  pub blocked : Bool
  -- SIGINT, SIGTERM are pending for the process
  pub int_pending : Bool
  pub term_pending : Bool
  -- SIGUSR1 is pending for the sigwait thread, from `pthread_kill`, and for the process
  pub wake_pending : Bool
  pub usr1_pending : Bool

-- `terminated`: the process was ended by std::terminate, by a signal or by a null dereference.
pub data Process : Type 0 where
  alive : Threads → Process
  terminated : Process

abbrev pub booted : Threads
booted = record {
  main = starting_signals;
  ui = ui_absent;
  sigwait = sig_absent;
  requested = false;
  worker = work_absent;
  exit_posted = false;
  blocked = false;
  int_pending = false;
  term_pending = false;
  wake_pending = false;
  usr1_pending = false;
}
