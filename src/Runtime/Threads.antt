-- ===== src/Runtime/Threads.antt =====
-- The steps of each thread. `none` means that the thread is blocked or has ended.
use mavlink_hub.Base.{Bool, true, false, not, ◌||◌, Option, none, some, if◌then◌else◌}
use mavlink_hub.Runtime.State.{
  MainPc, starting_signals, starting_cli, checking, asleep, stopping_cli, testing_redraw, redrawing,
  joining_worker, testing_active, exiting, joining_ui, waking, joining_sigwait, draining, restoring,
  returned, UiPc, ui_absent, ui_created, ui_looping, ui_leaving, ui_notifying, ui_finished,
  SigwaitPc, sig_absent, sig_waiting, sig_received, sig_notifying, sig_finished, sig_woken,
  WorkerPc, work_absent, work_serving, work_testing, work_posting, Threads, Process, alive,
  terminated,
}

-- `App::Active() != nullptr`: the event loop of the UI runs.
abbrev pub is_active : UiPc → Bool
is_active ui_looping = true
is_active pc = false

abbrev pub ui_joinable : UiPc → Bool
ui_joinable ui_finished = true
ui_joinable pc = false

abbrev pub sigwait_joinable : SigwaitPc → Bool
sigwait_joinable sig_finished = true
sigwait_joinable sig_woken = true
sigwait_joinable pc = false

-- `executing`
abbrev pub is_executing : WorkerPc → Bool
is_executing work_serving = true
is_executing pc = false

-- There is no thread, or it can be joined.
abbrev pub is_absent : WorkerPc → Bool
is_absent work_absent = true
is_absent pc = false

-- `notify_all`: a thread asleep in the wait tests the predicate again.
abbrev pub notify_all : MainPc → MainPc
notify_all asleep = checking
notify_all pc = pc

abbrev pub goes : MainPc → Threads → Option Process
goes pc t = some (alive (record t { main = pc }))

-- `SignalHandler::start`: the signals are blocked, then the sigwait thread is created.
abbrev start_signals : Threads → Option Process
start_signals t =
    some (alive (record t { main = starting_cli; sigwait = sig_waiting; blocked = true }))

-- `CliUiHandler::start` creates the UI thread.
abbrev start_cli : Threads → Option Process
start_cli t = some (alive (record t { main = checking; ui = ui_created }))

-- `waitForShutdownSignal`: under the mutex, the test of the predicate and the start of the sleep.
abbrev wait_at : MainPc → Threads → Option Process
wait_at checking t = if t.requested then goes stopping_cli t else goes asleep t
wait_at pc t = none

-- `CliUiHandler::stop`. Each call of `App::Active()` is a step of its own.
abbrev stop_cli_at : MainPc → Threads → Option Process
stop_cli_at stopping_cli t =
    if is_executing t.worker then goes testing_redraw t else goes testing_active t
stop_cli_at testing_redraw t = if is_active t.ui then goes redrawing t else goes joining_worker t
stop_cli_at redrawing t = if is_active t.ui then goes joining_worker t else some terminated
stop_cli_at joining_worker t = if is_absent t.worker then goes testing_active t else none
stop_cli_at testing_active t = if is_active t.ui then goes exiting t else goes joining_ui t
stop_cli_at exiting t =
    if is_active t.ui
    then some (alive (record t { main = joining_ui; exit_posted = true }))
    else some terminated
stop_cli_at joining_ui t = if ui_joinable t.ui then goes waking t else none
stop_cli_at pc t = none

-- `SignalHandler::stop`. `pthread_kill` does nothing to a thread that has ended; a signal that is
-- still pending for the process when the mask is restored ends the process.
abbrev stop_signals_at : MainPc → Threads → Option Process
stop_signals_at waking t =
    some
      (alive (record t { main = joining_sigwait; wake_pending = not (sigwait_joinable t.sigwait) }))
stop_signals_at joining_sigwait t = if sigwait_joinable t.sigwait then goes draining t else none
stop_signals_at draining t =
    some (alive (record t { main = restoring; int_pending = false; term_pending = false }))
stop_signals_at restoring t =
    if t.int_pending || t.term_pending || t.usr1_pending
    then some terminated
    else some (alive (record t { main = returned; blocked = false }))
stop_signals_at pc t = none

-- The main thread at each place of `App::run`.
unfoldable pub main_at : MainPc → Threads → Option Process
main_at starting_signals t = start_signals t
main_at starting_cli t = start_cli t
main_at checking t = wait_at checking t
main_at asleep t = wait_at asleep t
main_at stopping_cli t = stop_cli_at stopping_cli t
main_at testing_redraw t = stop_cli_at testing_redraw t
main_at redrawing t = stop_cli_at redrawing t
main_at joining_worker t = stop_cli_at joining_worker t
main_at testing_active t = stop_cli_at testing_active t
main_at exiting t = stop_cli_at exiting t
main_at joining_ui t = stop_cli_at joining_ui t
main_at waking t = stop_signals_at waking t
main_at joining_sigwait t = stop_signals_at joining_sigwait t
main_at draining t = stop_signals_at draining t
main_at restoring t = stop_signals_at restoring t
main_at returned t = none

-- The UI thread. It leaves the event loop by itself once `Exit` was posted.
unfoldable pub ui_at : UiPc → Threads → Option Process
ui_at ui_absent t = none
ui_at ui_created t = some (alive (record t { ui = ui_looping }))
ui_at ui_looping t = if t.exit_posted then some (alive (record t { ui = ui_leaving })) else none
ui_at ui_leaving t = some (alive (record t { ui = ui_notifying; requested = true }))
ui_at ui_notifying t = some (alive (record t { ui = ui_finished; main = notify_all t.main }))
ui_at ui_finished t = none

-- The sigwait thread takes SIGTERM, and then requests the shutdown.
unfoldable pub sigwait_at : SigwaitPc → Threads → Option Process
sigwait_at sig_absent t = none
sigwait_at sig_waiting t =
    if t.term_pending
    then some (alive (record t { sigwait = sig_received; term_pending = false }))
    else none
sigwait_at sig_received t = some (alive (record t { sigwait = sig_notifying; requested = true }))
sigwait_at sig_notifying t =
    some (alive (record t { sigwait = sig_finished; main = notify_all t.main }))
sigwait_at sig_finished t = none
sigwait_at sig_woken t = none

-- It takes SIGINT in the same way.
unfoldable pub sigwait_int_at : SigwaitPc → Threads → Option Process
sigwait_int_at sig_waiting t =
    if t.int_pending
    then some (alive (record t { sigwait = sig_received; int_pending = false }))
    else none
sigwait_int_at pc t = none

-- It takes SIGUSR1, whoever sent it, and then ends without a request.
unfoldable pub sigwait_woken_at : SigwaitPc → Threads → Option Process
sigwait_woken_at sig_waiting t =
    if t.wake_pending
    then some (alive (record t { sigwait = sig_woken; wake_pending = false }))
    else if t.usr1_pending
    then some (alive (record t { sigwait = sig_woken; usr1_pending = false }))
    else none
sigwait_woken_at pc t = none

-- The worker thread stores its result, and then asks the interface to draw it.
unfoldable pub worker_at : WorkerPc → Threads → Option Process
worker_at work_absent t = none
worker_at work_serving t = some (alive (record t { worker = work_testing }))
worker_at work_testing t =
    if is_active t.ui
    then some (alive (record t { worker = work_posting }))
    else some (alive (record t { worker = work_absent }))
worker_at work_posting t =
    if is_active t.ui then some (alive (record t { worker = work_absent })) else some terminated
