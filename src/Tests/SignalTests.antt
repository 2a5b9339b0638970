-- ===== src/Tests/SignalTests.antt =====
-- src/app/signal_handler: the theorems at a concrete run, with SIGINT 2, SIGTERM 15 and SIGUSR1 10.
use mavlink_hub.Base.{ℕ, ◌≡◌, ◌≢◌, refl, true, false, ◌||◌, arith, [], ◌∷◌}
use mavlink_hub.Signals.{
  SignalHandler, not_joinable, waiting, returns, start, create_thread, build_await_set, add_signals,
  stop, restore, drain, wake_and_join, delivers, receive, killed, own_wake, sigemptyset, sigaddset,
  sigdelset, ended,
}
use mavlink_hub.Signals.Meanwhile.{Meanwhile, nothing_yet, and_then, arrives, received}
use mavlink_hub.Signals.Laws.{elem, Distinct, Guaranteed, start-Guaranteed}
use mavlink_hub.Signals.Stops.{StopsAs, stop-StopsAs}

-- SIGHUP 1 is blocked from the start.
abbrev fresh_handler : SignalHandler
fresh_handler = record {
  termination_signals = 2 ∷ 15 ∷ [];
  await_set = sigemptyset;
  original_mask = sigemptyset;
  started = false;
  sigwait_thread = not_joinable;
  mask = sigaddset 1 sigemptyset;
  pending = sigemptyset;
  shutdown_requested = false;
}

start-Guaranteed_example : Guaranteed 10 0 false fresh_handler (start 10 0 false fresh_handler)
start-Guaranteed_example = start-Guaranteed 10 0 false fresh_handler refl

abbrev running : SignalHandler
running = record fresh_handler {
  await_set = build_await_set 10 (2 ∷ 15 ∷ []);
  original_mask = fresh_handler.mask;
  mask = λ n. build_await_set 10 (2 ∷ 15 ∷ []) n || fresh_handler.mask n;
  started = true;
  sigwait_thread = waiting;
}

is_running : start 10 0 true fresh_handler ≡ returns running
unfolding start create_thread build_await_set add_signals
is_running = refl

-- SIGTERM arrives and is received, then SIGINT arrives.
term_arrived-Meanwhile :
    Meanwhile 10 running (record running { pending = sigaddset 15 running.pending })
unfolding build_await_set add_signals
term_arrived-Meanwhile = and_then nothing_yet (arrives running 15 refl)

abbrev term_arrived : SignalHandler
term_arrived = record running { pending = sigaddset 15 running.pending }

abbrev term_received : SignalHandler
term_received = record term_arrived {
  sigwait_thread = ended;
  pending = sigdelset 15 term_arrived.pending;
  shutdown_requested = true;
}

abbrev int_arrived : SignalHandler
int_arrived = record term_received { pending = sigaddset 2 term_received.pending }

term-differs : ◌≢◌ {A = ℕ} 15 10
term-differs e = omega (arith, e)

int_arrived-Meanwhile : Meanwhile 10 running int_arrived
unfolding build_await_set add_signals
int_arrived-Meanwhile =
    and_then
      (and_then term_arrived-Meanwhile (received term_arrived 15 refl refl refl term-differs))
      (arrives term_received 2 refl)

signals-Distinct : Distinct (2 ∷ 15 ∷ [])
unfolding elem
signals-Distinct = (refl, (refl, tt))

stop-StopsAs_example : StopsAs 10 fresh_handler int_arrived (stop 10 own_wake int_arrived)
stop-StopsAs_example =
    stop-StopsAs 10 0 true fresh_handler running int_arrived own_wake refl signals-Distinct
      is_running int_arrived-Meanwhile tt

-- The mask of before lets SIGUSR1 through: one from outside that nobody has taken kills the process.
abbrev usr1_arrived : SignalHandler
usr1_arrived = record int_arrived { pending = sigaddset 10 int_arrived.pending }

stop_killed : stop 10 own_wake usr1_arrived ≡ killed
unfolding stop restore drain wake_and_join delivers receive
stop_killed = refl
